-- ===== src/Wireguard/Interface.antt =====
-- The interface and its peers: the functions of wiregui/services/wireguard.py that set them.
use wiregui.Base.{
  ℕ, ◌+◌, ◌-◌, leb, Option, none, some, List, [], ◌∷◌, ◌++◌, Text, codes, truthy, text_or_empty,
  if◌then◌else◌, Outcome, done, failed,
}
use wiregui.Settings.{Settings}
use wiregui.Models.{Configuration}
use wiregui.Net.{Network, ipv4_network, ipv6_network, width, show_address, show_ℕ}
use wiregui.Host.{Host, HostCommand}
use wiregui.Host.{
  link_show, link_add, link_up, address_replace, set_key_and_port, set_private_key, set_listen_port,
  set_peer, delete_peer,
}

-- `next(network.hosts())` with the prefix length: the address behind the network's own, but for
-- networks of one or two addresses, which start with their own.
unfoldable pub server_address : Network → Text
server_address n =
    let host =
      if leb (width n.family - 1) n.prefixlen then n.network_address else n.network_address + 1 in
    show_address n.family host ++ (codes "/" ++ show_ℕ n.prefixlen)

-- `_server_addresses`; `none` is the `ValueError` of a setting that is no network.
unfoldable pub server_addresses : Settings → Option (List Text)
unfolding server_address ipv4_network ipv6_network
server_addresses settings = elim (ipv4_network settings.wg_ipv4_network) [
  | none ↦ none
  | some v4 ↦ elim (ipv6_network settings.wg_ipv6_network) [
    | none ↦ none
    | some v6 ↦ some (server_address v4 ∷ (server_address v6 ∷ []))
  ]
]

module _ (settings : Settings) (h : Host settings.wg_interface) where
  open h use {State, run}

  abbrev pub iface : Text
  iface = settings.wg_interface

  -- `_run` where the output is not used.
  unfoldable pub run_quiet : HostCommand → State → Outcome State
  run_quiet c s = elim (run c s) [ done (out, s') ↦ done s' | failed e ↦ failed e ]

  -- The loop of `ensure_interface` over the server's addresses.
  unfoldable pub replace_addresses : List Text → State → Outcome State
  unfolding run_quiet
  replace_addresses [] s = done s
  replace_addresses (a ∷ as') s = elim (run_quiet (address_replace a iface) s) [
    | done s' ↦ replace_addresses as' s'
    | failed e ↦ failed e
  ]

  -- `ip link show`, and `ip link add` where that fails.
  unfoldable pub create_link : State → Outcome State
  unfolding run_quiet
  create_link s = elim (run (link_show iface) s) [
    | done (out, s') ↦ done s'
    | failed e ↦ run_quiet (link_add iface) s
  ]

  -- `ensure_interface`. Which addresses are missing decides only what is logged.
  unfoldable pub ensure_interface : State → Outcome State
  unfolding run_quiet replace_addresses create_link server_addresses
  ensure_interface s = elim (create_link s) [
    | failed e ↦ failed e
    | done s1 ↦ elim (server_addresses settings) [
      | none ↦ failed (codes "ValueError")
      | some addresses ↦ elim (replace_addresses addresses s1) [
        | failed e ↦ failed e
        | done s2 ↦ run_quiet (link_up iface) s2
      ]
    ]
  ]

  -- `configure_interface`: without a private key in the configuration nothing is set.
  unfoldable pub configure_interface : Option Configuration → State → Outcome State
  unfolding run_quiet
  configure_interface none s = done s
  configure_interface (some config) s =
      if truthy config.server_private_key
      then run_quiet
          (set_key_and_port iface (text_or_empty config.server_private_key)
            settings.wg_endpoint_port)
          s
      else done s

  -- The functions `set_private_key` and `set_listen_port`.
  unfoldable pub write_private_key : Text → State → Outcome State
  unfolding run_quiet
  write_private_key path s = run_quiet (set_private_key iface path) s

  unfoldable pub write_listen_port : ℕ → State → Outcome State
  unfolding run_quiet
  write_listen_port port s = run_quiet (set_listen_port iface port) s

  -- An empty preshared key counts as none.
  abbrev pub psk_given : Option Text → Option Text
  psk_given psk = if truthy psk then psk else none

  unfoldable pub add_peer : Text → List Text → Option Text → State → Outcome State
  unfolding run_quiet
  add_peer public_key allowed_ips preshared_key s =
      run_quiet (set_peer iface public_key allowed_ips (psk_given preshared_key)) s

  unfoldable pub remove_peer : Text → State → Outcome State
  unfolding run_quiet
  remove_peer public_key s = run_quiet (delete_peer iface public_key) s
