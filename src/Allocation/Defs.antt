-- ===== src/Allocation/Defs.antt =====
-- The functions of wiregui/utils/network.py. The draws of `random.randint` are an argument, by the
-- number of the attempt.
use wiregui.Base.{
  ℕ, zero, suc, ◌+◌, ◌-◌, ◌==◌, Option, none, some, List, [], ◌∷◌, ◌++◌, Text, codes, has, add,
  split, strip, leb, length, if◌then◌else◌, Outcome, done, failed,
}
use Prim.Native.Nat.{min}
use wiregui.Models.{Device}
use wiregui.Net.{
  Network, broadcast_address, ip_network, ipv4_network, ipv6_network, show_network, show_address,
}

-- One entry of the list: `none` is the `ValueError` of `ip_network`.
abbrev pub subnet_then : Option Network → Option (List Text) → Option (List Text)
subnet_then none rest = none
subnet_then (some n) none = none
subnet_then (some n) (some subnets) = some (show_network n ∷ subnets)

subnets_of : List Text → Option (List Text)
subnets_of [] = some []
subnets_of (part ∷ parts) =
    let rest = subnets_of parts in
    if length (strip part) == 0 then rest else subnet_then (ip_network (strip part)) rest

-- `parse_subnet_list`
unfoldable pub parse_subnet_list : Text → Option (List Text)
unfolding subnets_of
parse_subnet_list raw = subnets_of (split b',' raw)

-- `_get_used_ips`: the addresses of the rows where the column is not null.
unfoldable pub get_used_ips : (Device → Option Text) → List Device → List Text
get_used_ips field [] = []
get_used_ips field (d ∷ ds) =
    let rest = get_used_ips field ds in elim (field d) [ none ↦ rest | some a ↦ add a rest ]

abbrev pub first_host : Network → ℕ
first_host network = network.network_address + 2

-- `last - first + 1`, which the source tests to be positive.
abbrev pub pool_size : Network → ℕ
pool_size network = broadcast_address network - 1 + 1 - first_host network

-- The random attempts: the first address that is drawn and free.
unfoldable pub sample : (ℕ → Text) → List Text → (ℕ → ℕ) → ℕ → Option Text
sample show used draw zero = none
sample show used draw (suc rounds) =
    let rest = sample show used draw rounds in
    if has (show (draw rounds)) used then rest else some (show (draw rounds))

-- The sequential scan from an address on.
unfoldable pub scan : (ℕ → Text) → List Text → ℕ → ℕ → Option Text
scan show used address zero = none
scan show used address (suc left) =
    let rest = scan show used (address + 1) left in
    if has (show address) used then rest else some (show address)

abbrev pub no_usable_hosts : Network → Outcome Text
no_usable_hosts network = failed (codes "No usable hosts in " ++ show_network network)

abbrev pub no_available_addresses : Network → Outcome Text
no_available_addresses network = failed (codes "No available addresses in " ++ show_network network)

-- What the random attempts found, and else what the scan finds.
abbrev pub found : Network → Option Text → Option Text → Outcome Text
found network (some candidate) scanned = done candidate
found network none (some candidate) = done candidate
found network none none = no_available_addresses network

-- `_find_available_v4` and `_find_available_v6`, which differ in the family's texts.
unfoldable pub find_available : Network → List Text → (ℕ → ℕ) → Outcome Text
unfolding sample scan
find_available network used draw =
    let show = show_address network.family in
    let size = pool_size network in
    if leb size 0
    then no_usable_hosts network
    else if leb size (length used)
    then no_available_addresses network
    else found network (sample show used draw (min size 1000))
        (scan show used (first_host network) size)

abbrev invalid_network : Text → Outcome Text
invalid_network cidr = failed cidr

-- `allocate_ipv4`; a network that does not parse is the `ValueError` of `IPv4Network`.
unfoldable pub allocate_ipv4 : List Device → Text → (ℕ → ℕ) → Outcome Text
unfolding find_available get_used_ips ipv4_network
allocate_ipv4 devices network_cidr draw = elim (ipv4_network network_cidr) [
  | none ↦ invalid_network network_cidr
  | some network ↦ find_available network (get_used_ips (λ d. d.ipv4) devices) draw
]

-- `allocate_ipv6`
unfoldable pub allocate_ipv6 : List Device → Text → (ℕ → ℕ) → Outcome Text
unfolding find_available get_used_ips ipv6_network
allocate_ipv6 devices network_cidr draw = elim (ipv6_network network_cidr) [
  | none ↦ invalid_network network_cidr
  | some network ↦ find_available network (get_used_ips (λ d. d.ipv6) devices) draw
]
