-- ===== src/Wireguard/Dump.antt =====
-- `get_peers` of wiregui/services/wireguard.py: the parser of `wg show dump`.
use wiregui.Base.{
  ℕ, Option, none, some, List, [], ◌∷◌, Text, codes, eqb, split, if◌then◌else◌, done, failed, ◌==◌,
}
use wiregui.Settings.{Settings}
use wiregui.Net.{read_ℕ}
use wiregui.Host.{Host, dump}

pub record PeerInfo : Type 0 where
  pub public_key : Text
  pub endpoint : Option Text
  pub allowed_ips : List Text
  pub latest_handshake : Option ℕ
  pub rx_bytes : ℕ
  pub tx_bytes : ℕ

abbrev pub none_mark : Text
none_mark = codes "(none)"

abbrev pub endpoint_of : Text → Option Text
endpoint_of t = if eqb t none_mark then none else some t

abbrev pub allowed_ips_of : Text → List Text
allowed_ips_of t = if eqb t none_mark then [] else split b',' t

-- A time stamp of 0 means that there was no handshake.
abbrev pub handshake_of : ℕ → Option ℕ
handshake_of n = if n == 0 then none else some n

-- The columns of one line; `none` is the `ValueError` of `int`.
unfoldable pub peer_of_columns : Text → Text → Text → Text → Text → Text → Option PeerInfo
unfolding read_ℕ
peer_of_columns key endpoint ips handshake rx tx = elim (read_ℕ handshake) [
  | none ↦ none
  | some ts ↦ elim (read_ℕ rx) [
    | none ↦ none
    | some r ↦ elim (read_ℕ tx) [
      | none ↦ none
      | some t ↦ some (record {
        public_key = key;
        endpoint = endpoint_of endpoint;
        allowed_ips = allowed_ips_of ips;
        latest_handshake = handshake_of ts;
        rx_bytes = r;
        tx_bytes = t;
      })
    ]
  ]
]

abbrev pub cons_peer : Option PeerInfo → Option (List PeerInfo) → Option (List PeerInfo)
cons_peer none rest = none
cons_peer (some p) none = none
cons_peer (some p) (some ps) = some (p ∷ ps)

-- A line with fewer than eight columns is skipped.
unfoldable pub add_line : List Text → Option (List PeerInfo) → Option (List PeerInfo)
unfolding peer_of_columns
add_line (key ∷ psk ∷ endpoint ∷ ips ∷ handshake ∷ rx ∷ tx ∷ keepalive ∷ more) rest =
    cons_peer (peer_of_columns key endpoint ips handshake rx tx) rest
add_line _ rest = rest

unfoldable pub peers_of_lines : List Text → Option (List PeerInfo)
unfolding add_line
peers_of_lines [] = some []
peers_of_lines (line ∷ lines) = let rest = peers_of_lines lines in add_line (split 9 line) rest

-- The first line is the interface's.
unfoldable pub parse_dump : Text → Option (List PeerInfo)
unfolding peers_of_lines
parse_dump output = elim (split 10 output) [ [] ↦ some [] | first ∷ lines ↦ peers_of_lines lines ]

module _ (settings : Settings) (h : Host settings.wg_interface) where
  open h use {State, run}

  -- `get_peers`; a failed call gives no peers.
  unfoldable pub get_peers : State → Option (List PeerInfo)
  unfolding parse_dump
  get_peers s = elim (run (dump settings.wg_interface) s) [
    | failed e ↦ some []
    | done (output, s') ↦ parse_dump output
  ]
