-- ===== src/Net/Cidr.antt =====
-- `ip_network(value, strict=False)` and its text.
use wiregui.Base.{
  ℕ, ◌+◌, ◌-◌, ◌*◌, ◌/◌, ◌%◌, ◌^◌, length, Option, none, some, [], ◌∷◌, ◌++◌, Text, codes, split,
  ◌==◌, leb, if◌then◌else◌,
}
use wiregui.Nft.{Family, ip, ip6}
use wiregui.Net.Digits.{show_ℕ, read_ℕ}
use wiregui.Net.V4.{show_v4, read_v4, read_prefix_v4}
use wiregui.Net.V6.{show_v6, read_v6}

-- A network: its first address, the address's scope if one is kept, and its prefix length.
pub record Network : Type 0 where
  pub family : Family
  pub network_address : ℕ
  pub scope : Text
  pub prefixlen : ℕ

abbrev pub width : Family → ℕ
width ip = 32
width ip6 = 128

-- The addresses of the network.
abbrev pub num_addresses : Network → ℕ
num_addresses n = 2 ^ (width n.family - n.prefixlen)

abbrev pub broadcast_address : Network → ℕ
broadcast_address n = n.network_address + (num_addresses n - 1)

-- `strict=False` masks the host bits off, and the scope with them where there are any.
unfoldable pub mask_host_bits : Family → ℕ × Text → ℕ → Network
mask_host_bits f (addr, scope) len =
    let size = 2 ^ (width f - len) in
    record {
      family = f;
      network_address = addr / size * size;
      scope = if addr % size == 0 then scope else [];
      prefixlen = len;
    }

read_prefix_v6 : Text → Option ℕ
unfolding read_ℕ
read_prefix_v6 t = elim (read_ℕ t) [ none ↦ none | some n ↦ if leb n 128 then some n else none ]

with_prefix : Family → Option (ℕ × Text) → Option ℕ → Option Network
unfolding mask_host_bits
with_prefix f none len = none
with_prefix f (some addr) none = none
with_prefix f (some addr) (some len) = some (mask_host_bits f addr len)

unscoped : Option ℕ → Option (ℕ × Text)
unscoped none = none
unscoped (some n) = some (n, [])

-- `IPv4Network(value, strict=False)`; `none` is the `ValueError`.
unfoldable pub ipv4_network : Text → Option Network
unfolding with_prefix unscoped read_v4 read_prefix_v4
ipv4_network t = elim (split b'/' t) [
  | a ∷ [] ↦ with_prefix ip (unscoped (read_v4 a)) (some 32)
  | a ∷ m ∷ [] ↦ with_prefix ip (unscoped (read_v4 a)) (read_prefix_v4 m)
  | _ ↦ none
]

scoped : Option ℕ → Text → Option (ℕ × Text)
scoped none scope = none
scoped (some n) scope = some (n, scope)

-- `addr%scope`
read_scoped_v6 : Text → Option (ℕ × Text)
unfolding scoped read_v6
read_scoped_v6 t = elim (split b'%' t) [
  | a ∷ [] ↦ scoped (read_v6 a) []
  | a ∷ (c ∷ s) ∷ [] ↦ scoped (read_v6 a) (c ∷ s)
  | _ ↦ none
]

-- `IPv6Network(value, strict=False)`
unfoldable pub ipv6_network : Text → Option Network
unfolding with_prefix read_scoped_v6 read_prefix_v6
ipv6_network t = elim (split b'/' t) [
  | a ∷ [] ↦ with_prefix ip6 (read_scoped_v6 a) (some 128)
  | a ∷ m ∷ [] ↦ with_prefix ip6 (read_scoped_v6 a) (read_prefix_v6 m)
  | _ ↦ none
]

-- `ip_network(value, strict=False)`
unfoldable pub ip_network : Text → Option Network
unfolding ipv4_network ipv6_network
ip_network t = elim (ipv4_network t) [ some n ↦ some n | none ↦ ipv6_network t ]

abbrev pub show_address : Family → ℕ → Text
show_address ip n = show_v4 n
show_address ip6 n = show_v6 n

-- `str(network)`
unfoldable pub show_network : Network → Text
unfolding show_ℕ show_v4 show_v6
show_network n =
    show_address n.family n.network_address
    ++ ((if length n.scope == 0 then [] else codes "%" ++ n.scope)
        ++ (codes "/" ++ show_ℕ n.prefixlen))

-- `_normalize_cidr` of services/wireguard.py
unfoldable pub normalize_cidr : Text → Option Text
unfolding ip_network show_network
normalize_cidr value = elim (ip_network value) [ none ↦ none | some n ↦ some (show_network n) ]
