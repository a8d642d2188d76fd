-- ===== src/Host.antt =====
-- The tools `wg` and `ip`, which services/wireguard.py calls as subprocesses: the argument lists
-- that the program sends, and what the tools document of them.
pub mod Memory
use wiregui.Base.{
  ℕ, ◌≡◌, Bool, true, false, Option, none, some, List, [], ◌∷◌, ◌++◌, Text, codes, join, eqb,
  if◌then◌else◌, Outcome, done,
}
use wiregui.Nft.{Family, ip, ip6}
use wiregui.Net.{show_ℕ}

-- A key is handed over in a temporary file, whose content stands here for its path.
pub data HostCommand : Type 0 where
  link_show link_add link_up address_show dump : Text → HostCommand
  address_replace : Text → Text → HostCommand
  set_private_key : Text → Text → HostCommand
  set_listen_port : Text → ℕ → HostCommand
  set_key_and_port : Text → Text → ℕ → HostCommand
  set_peer : Text → Text → List Text → Option Text → HostCommand
  delete_peer : Text → Text → HostCommand
  route_show : Family → Text → HostCommand
  route_add route_del : Family → Text → Text → HostCommand

family_flag : Family → Text
family_flag ip = codes "-4"
family_flag ip6 = codes "-6"

psk_args : Option Text → List Text
psk_args none = []
psk_args (some key) = codes "preshared-key" ∷ (key ∷ [])

route_args : Family → Text → List Text → List Text
unfolding family_flag
route_args f verb rest = codes "ip" ∷ (family_flag f ∷ (codes "route" ∷ (verb ∷ rest)))

-- The argument list of a command.
unfoldable pub argv : HostCommand → List Text
unfolding psk_args route_args show_ℕ
argv (link_show i) = codes "ip" ∷ (codes "link" ∷ (codes "show" ∷ (i ∷ [])))
argv (link_add i) =
    codes "ip" ∷ (codes "link" ∷ (codes "add" ∷ (i ∷ (codes "type" ∷ (codes "wireguard" ∷ [])))))
argv (link_up i) = codes "ip" ∷ (codes "link" ∷ (codes "set" ∷ (i ∷ (codes "up" ∷ []))))
argv (address_show i) =
    codes "ip" ∷ (codes "-json" ∷ (codes "address" ∷ (codes "show" ∷ (codes "dev" ∷ (i ∷ [])))))
argv (dump i) = codes "wg" ∷ (codes "show" ∷ (i ∷ (codes "dump" ∷ [])))
argv (address_replace a i) =
    codes "ip" ∷ (codes "address" ∷ (codes "replace" ∷ (a ∷ (codes "dev" ∷ (i ∷ [])))))
argv (set_private_key i k) = codes "wg" ∷ (codes "set" ∷ (i ∷ (codes "private-key" ∷ (k ∷ []))))
argv (set_listen_port i port) =
    codes "wg" ∷ (codes "set" ∷ (i ∷ (codes "listen-port" ∷ (show_ℕ port ∷ []))))
argv (set_key_and_port i k port) =
    codes "wg"
    ∷ (codes "set" ∷ (i ∷ (codes "private-key" ∷ (k ∷ (codes "listen-port" ∷ (show_ℕ port ∷ []))))))
argv (set_peer i key ips psk) =
    codes "wg"
    ∷ (codes "set"
        ∷ (i
            ∷ (codes "peer"
                ∷ (key ∷ (codes "allowed-ips" ∷ (join (codes ",") ips ∷ psk_args psk))))))
argv (delete_peer i key) =
    codes "wg" ∷ (codes "set" ∷ (i ∷ (codes "peer" ∷ (key ∷ (codes "remove" ∷ [])))))
argv (route_show f i) = route_args f (codes "show") (codes "dev" ∷ (i ∷ []))
argv (route_add f subnet i) = route_args f (codes "add") (subnet ∷ (codes "dev" ∷ (i ∷ [])))
argv (route_del f subnet i) = route_args f (codes "del") (subnet ∷ (codes "dev" ∷ (i ∷ [])))

-- The allowed addresses of each peer by its key, and the destinations that are routed.
abbrev pub Peers : Type 0
Peers = Text → Option (List Text)

abbrev pub Routes : Type 0
Routes = Text → Bool

abbrev pub update_peer : Peers → Text → Option (List Text) → Peers
update_peer v k o j = if eqb k j then o else v j

abbrev pub update_route : Routes → Text → Bool → Routes
update_route v k b j = if eqb k j then b else v j

-- The host, seen at its WireGuard interface.
pub record Host (iface : Text) : Type 1 where
  pub State : Type 0
  -- The standard output and the new state, or the text of the error.
  pub run : HostCommand → State → Outcome (Text × State)
  pub peers : State → Peers
  pub routes : State → Routes
  -- Whether the tool takes the arguments.
  pub accepts : HostCommand → Bool
  -- `wg set peer` adds a peer, or gives the one that is there these addresses.
  pub set_peer_law :
      (key : Text) (ips : List Text) (psk : Option Text) (s : State)
      → accepts (set_peer iface key ips psk) ≡ true
      → (s' : State) × (run (set_peer iface key ips psk) s ≡ done ([], s'))
        × (peers s' ≡ update_peer (peers s) key (some ips))
        × (routes s' ≡ routes s)
  -- `wg set peer remove` succeeds also where there is no such peer.
  pub delete_peer_law :
      (key : Text) (s : State)
      → accepts (delete_peer iface key) ≡ true
      → (s' : State) × (run (delete_peer iface key) s ≡ done ([], s'))
        × (peers s' ≡ update_peer (peers s) key none)
        × (routes s' ≡ routes s)
  -- `ip route add` wants a route that is not there, `ip route del` one that is.
  pub route_add_law :
      (f : Family) (dest : Text) (s : State)
      → accepts (route_add f dest iface) ≡ true
      → routes s dest ≡ false
      → (s' : State) × (run (route_add f dest iface) s ≡ done ([], s'))
        × (peers s' ≡ peers s)
        × (routes s' ≡ update_route (routes s) dest true)
  pub route_del_law :
      (f : Family) (dest : Text) (s : State)
      → accepts (route_del f dest iface) ≡ true
      → routes s dest ≡ true
      → (s' : State) × (run (route_del f dest iface) s ≡ done ([], s'))
        × (peers s' ≡ peers s)
        × (routes s' ≡ update_route (routes s) dest false)
