-- ===== src/Wireguard/Printed.antt =====
-- `get_peers` of wiregui/services/wireguard.py reads what `wg show dump` is documented to print: a
-- line of the interface, then for each peer a line of eight columns with a tab between two.
use wiregui.Base.{
  ℕ, ◌≡◌, ◌⊎◌, refl, ap, ◌∙◌, false, Option, none, some, List, [], ◌∷◌, map, Text, eqb, join, split,
  contains, split-join, contains-join, All, arith, ◌==◌,
}
use wiregui.Net.{show_ℕ, read_ℕ}
use wiregui.Net.Decimals.{read_ℕ-show_ℕ, contains-show_ℕ}
use wiregui.Wireguard.Dump.{
  PeerInfo, none_mark, endpoint_of, allowed_ips_of, handshake_of, peer_of_columns, cons_peer,
  add_line, peers_of_lines, parse_dump,
}

-- A peer with the two columns that `get_peers` leaves out.
pub record Dumped : Type 0 where
  pub peer : PeerInfo
  pub preshared_key : Text
  pub keepalive : Text

abbrev pub text_or_mark : Option Text → Text
text_or_mark none = none_mark
text_or_mark (some t) = t

abbrev pub ips_or_mark : List Text → Text
ips_or_mark [] = none_mark
ips_or_mark (ip ∷ ips) = join (b',' ∷ []) (ip ∷ ips)

abbrev pub seconds_of : Option ℕ → ℕ
seconds_of none = 0
seconds_of (some n) = n

abbrev pub dump_columns : Dumped → List Text
dump_columns d =
    d.peer.public_key
    ∷ (d.preshared_key
        ∷ (text_or_mark d.peer.endpoint
            ∷ (ips_or_mark d.peer.allowed_ips
                ∷ (show_ℕ (seconds_of d.peer.latest_handshake)
                    ∷ (show_ℕ d.peer.rx_bytes ∷ (show_ℕ d.peer.tx_bytes ∷ (d.keepalive ∷ [])))))))

abbrev pub dump_line : Dumped → Text
dump_line d = join (9 ∷ []) (dump_columns d)

-- The output, which `_run` strips of the end of its last line.
abbrev pub dump_text : Text → List Dumped → Text
dump_text interface ds = join (10 ∷ []) (interface ∷ map dump_line ds)

-- No tab and no end of a line.
abbrev pub IsField : Text → Type 0
IsField t = (contains 9 t ≡ false) × (contains 10 t ≡ false)

-- Nor a parenthesis, as in the mark of a text that is missing.
abbrev pub IsPlain : Text → Type 0
IsPlain t = IsField t × (contains b'(' t ≡ false)

abbrev pub IsAddress : Text → Type 0
IsAddress t = IsPlain t × (contains b',' t ≡ false)

abbrev pub given : Option Text → List Text
given none = []
given (some t) = t ∷ []

-- What the columns of a peer hold: texts without tabs and ends of lines, an endpoint and addresses
-- that are not the mark of a missing one, addresses without commas, and no handshake at second 0.
pub record IsPrinted (d : Dumped) : Type 0 where
  pub key : IsField d.peer.public_key
  pub psk : IsField d.preshared_key
  pub keepalive : IsField d.keepalive
  pub endpoint : All IsPlain (given d.peer.endpoint)
  pub ips : All IsAddress d.peer.allowed_ips
  pub handshake :
      (d.peer.latest_handshake ≡ none) ⊎ ((seconds_of d.peer.latest_handshake == 0) ≡ false)

plain-eqb : (t : Text) → contains b'(' t ≡ false → eqb t none_mark ≡ false
plain-eqb [] h = refl
plain-eqb (c ∷ t) h = ground arith

endpoint_of-text_or_mark :
    (o : Option Text) → All IsPlain (given o) → endpoint_of (text_or_mark o) ≡ o
endpoint_of-text_or_mark none h = refl
endpoint_of-text_or_mark (some t) h = rw (plain-eqb t h.0.1) refl

All-contains :
    (P : Text → Type 0) (c : ℕ) (ts : List Text)
    → ((t : Text) → P t → contains c t ≡ false)
    → All P ts
    → All (λ t. contains c t ≡ false) ts
All-contains P c [] f h = tt
All-contains P c (t ∷ ts) f h = (f t h.0, All-contains P c ts f h.1)

allowed_ips_of-ips_or_mark :
    (ips : List Text) → All IsAddress ips → allowed_ips_of (ips_or_mark ips) ≡ ips
allowed_ips_of-ips_or_mark [] h = refl
allowed_ips_of-ips_or_mark (ip ∷ ips) h =
    rw
      (plain-eqb (join (b',' ∷ []) (ip ∷ ips)) (
        contains-join b'(' b',' (ip ∷ ips) refl
          (All-contains IsAddress b'(' (ip ∷ ips) (λ t a. a.0.1) h)))
      (split-join b',' ip ips (All-contains IsAddress b',' (ip ∷ ips) (λ t a. a.1) h))

handshake_of-seconds_of :
    (o : Option ℕ) → (o ≡ none) ⊎ ((seconds_of o == 0) ≡ false) → handshake_of (seconds_of o) ≡ o
handshake_of-seconds_of none h = refl
handshake_of-seconds_of (some n) h = ground arith

read_columns :
    (key endpoint ips handshake rx tx : Text) (a b c : ℕ)
    → read_ℕ handshake ≡ some a
    → read_ℕ rx ≡ some b
    → read_ℕ tx ≡ some c
    → peer_of_columns key endpoint ips handshake rx tx
      ≡ some (record {
        public_key = key;
        endpoint = endpoint_of endpoint;
        allowed_ips = allowed_ips_of ips;
        latest_handshake = handshake_of a;
        rx_bytes = b;
        tx_bytes = c;
      })
unfolding peer_of_columns
read_columns key endpoint ips handshake rx tx a b c p q r = rw (p, q, r, peer_of_columns) refl

peer_of_columns-dump_columns :
    (d : Dumped)
    → IsPrinted d
    → peer_of_columns d.peer.public_key
        (text_or_mark d.peer.endpoint)
        (ips_or_mark d.peer.allowed_ips)
        (show_ℕ (seconds_of d.peer.latest_handshake))
        (show_ℕ d.peer.rx_bytes)
        (show_ℕ d.peer.tx_bytes)
      ≡ some d.peer
peer_of_columns-dump_columns d p =
    read_columns d.peer.public_key (text_or_mark d.peer.endpoint) (ips_or_mark d.peer.allowed_ips) _
      _ _ _ _ _ (read_ℕ-show_ℕ (seconds_of d.peer.latest_handshake)) (read_ℕ-show_ℕ d.peer.rx_bytes)
      (read_ℕ-show_ℕ d.peer.tx_bytes)
    ∙ rw
        (
          endpoint_of-text_or_mark d.peer.endpoint p.endpoint,
          allowed_ips_of-ips_or_mark d.peer.allowed_ips p.ips,
          handshake_of-seconds_of d.peer.latest_handshake p.handshake,
        )
        refl

text_or_mark-IsField : (o : Option Text) → All IsPlain (given o) → IsField (text_or_mark o)
text_or_mark-IsField none h = (refl, refl)
text_or_mark-IsField (some t) h = h.0.0

ips_or_mark-IsField : (ips : List Text) → All IsAddress ips → IsField (ips_or_mark ips)
ips_or_mark-IsField [] h = (refl, refl)
ips_or_mark-IsField (ip ∷ ips) h = (
  contains-join 9 b',' (ip ∷ ips) refl (All-contains IsAddress 9 (ip ∷ ips) (λ t a. a.0.0.0) h),
  contains-join 10 b',' (ip ∷ ips) refl (All-contains IsAddress 10 (ip ∷ ips) (λ t a. a.0.0.1) h),
)

show_ℕ-IsField : (n : ℕ) → IsField (show_ℕ n)
show_ℕ-IsField n = (contains-show_ℕ 9 n refl, contains-show_ℕ 10 n refl)

dump_columns-IsField : (d : Dumped) → IsPrinted d → All IsField (dump_columns d)
dump_columns-IsField d p = (
  p.key,
  (
    p.psk,
    (
      text_or_mark-IsField d.peer.endpoint p.endpoint,
      (
        ips_or_mark-IsField d.peer.allowed_ips p.ips,
        (
          show_ℕ-IsField (seconds_of d.peer.latest_handshake),
          (show_ℕ-IsField d.peer.rx_bytes, (show_ℕ-IsField d.peer.tx_bytes, (p.keepalive, tt))),
        ),
      ),
    ),
  ),
)

split-dump_line : (d : Dumped) → IsPrinted d → split 9 (dump_line d) ≡ dump_columns d
split-dump_line d p =
    split-join 9 d.peer.public_key _
      (All-contains IsField 9 (dump_columns d) (λ t f. f.0) (dump_columns-IsField d p))

dump_line-one : (d : Dumped) → IsPrinted d → contains 10 (dump_line d) ≡ false
dump_line-one d p =
    contains-join 10 9 (dump_columns d) refl
      (All-contains IsField 10 (dump_columns d) (λ t f. f.1) (dump_columns-IsField d p))

dump_lines-one :
    (ds : List Dumped) → All IsPrinted ds → All (λ t. contains 10 t ≡ false) (map dump_line ds)
dump_lines-one [] h = tt
dump_lines-one (d ∷ ds) h = (dump_line-one d h.0, dump_lines-one ds h.1)

add_line-dump_line :
    (d : Dumped) (rest : Option (List PeerInfo))
    → IsPrinted d
    → add_line (split 9 (dump_line d)) rest ≡ cons_peer (some d.peer) rest
unfolding add_line
add_line-dump_line d rest p =
    ap (λ cs. add_line cs rest) (split-dump_line d p)
    ∙ ap (λ o. cons_peer o rest) (peer_of_columns-dump_columns d p)

peers_of_lines-dump_line :
    (ds : List Dumped)
    → All IsPrinted ds
    → peers_of_lines (map dump_line ds) ≡ some (map (λ d. d.peer) ds)
unfolding peers_of_lines
peers_of_lines-dump_line [] h = refl
peers_of_lines-dump_line (d ∷ ds) h =
    add_line-dump_line d (peers_of_lines (map dump_line ds)) h.0
    ∙ ap (cons_peer (some d.peer)) (peers_of_lines-dump_line ds h.1)

-- Of a dump in the documented format, whose line of the interface is one line and whose peers have
-- texts that hold no tab, end of line, comma or mark where one would be misread, and no handshake
-- at second 0, the parser of `get_peers` reads exactly the peers that were printed, in their order.
pub parse_dump-dump_text :
    (interface : Text) (ds : List Dumped)
    → contains 10 interface ≡ false
    → All IsPrinted ds
    → parse_dump (dump_text interface ds) ≡ some (map (λ d. d.peer) ds)
unfolding parse_dump
parse_dump-dump_text interface ds one h =
    rw (split-join 10 interface (map dump_line ds) (one, dump_lines-one ds h), parse_dump)
      (peers_of_lines-dump_line ds h)
