-- ===== src/Host/Memory.antt =====
-- A host in memory that meets the interface of the tools: the laws can hold. It has peers, and one
-- destination that can be routed.
use wiregui.Base.{
  ◌≡◌, refl, Bool, true, false, ◌&&◌, Option, none, some, List, [], ◌∷◌, ◌++◌, Text, codes, join,
  eqb, eqb-eq, fun_ext, if◌then◌else◌, Outcome, done, Bool-cases, inl, inr, has,
}
use wiregui.Nft.{Family, ip, ip6}
use wiregui.Host.{HostCommand, Host, Peers, Routes, update_route}
use wiregui.Host.{dump, set_peer, delete_peer, route_show, route_add, route_del}

-- The one destination.
abbrev pub relay : Text
relay = codes "10.9.0.0/24"

-- What was last set of each peer stands first.
pub record Memory : Type 0 where
  pub table : List (Text × Option (List Text))
  pub routed : Bool

abbrev pub lookup : List (Text × Option (List Text)) → Peers
lookup [] k = none
lookup (e ∷ es) k = if eqb e.0 k then e.1 else lookup es k

abbrev tabs : List Text → Text
tabs fields = join (9 ∷ []) fields

abbrev peer_line : Text → List Text → Text
peer_line key ips = tabs (
    key
    ∷ (codes "(none)"
        ∷ (codes "(none)"
            ∷ (join (codes ",") ips
                ∷ (codes "0" ∷ (codes "0" ∷ (codes "0" ∷ (codes "off" ∷ []))))))))

abbrev peer_lines : List Text → List (Text × Option (List Text)) → Text
peer_lines seen [] = []
peer_lines seen ((key, none) ∷ es) = peer_lines (key ∷ seen) es
peer_lines seen ((key, some ips) ∷ es) =
    let rest = peer_lines (key ∷ seen) es in
    if has key seen then rest else (10 ∷ peer_line key ips) ++ rest

abbrev shown : Family → Bool → Text
shown ip true = relay ++ codes " scope link"
shown ip false = []
shown ip6 b = []

abbrev pub run_memory : HostCommand → Memory → Outcome (Text × Memory)
run_memory (dump i) m = done (codes "interface" ++ peer_lines [] m.table, m)
run_memory (set_peer i k ips psk) m = done ([], record m { table = (k, some ips) ∷ m.table })
run_memory (delete_peer i k) m = done ([], record m { table = (k, none) ∷ m.table })
run_memory (route_show f i) m = done (shown f m.routed, m)
run_memory (route_add f dest i) m = done ([], record m { routed = true })
run_memory (route_del f dest i) m = done ([], record m { routed = false })
run_memory c m = done ([], m)

abbrev pub takes : HostCommand → Bool
takes (route_add f dest i) = eqb relay dest
takes (route_del f dest i) = eqb relay dest
takes c = true

abbrev pub routes_of : Memory → Routes
routes_of m k = eqb relay k && m.routed

pub switched :
    (dest : Text) (b c : Bool)
    → eqb relay dest ≡ true
    → (λ k. eqb relay k && c) ≡ update_route (λ k. eqb relay k && b) dest c
switched dest b c h = fun_ext λ k. one k
  where
    one : (k : Text) → (eqb relay k && c) ≡ (if eqb dest k then c else eqb relay k && b)
    one k =
        rw⁻¹ (eqb-eq relay dest h)
          (elim (Bool-cases (eqb relay k)) [ inl same ↦ rw same refl | inr other ↦ rw other refl ])

abbrev pub memory_host : (iface : Text) → Host iface
memory_host iface = record {
  State = Memory;
  run = run_memory;
  peers = λ m. lookup m.table;
  routes = routes_of;
  accepts = takes;
  set_peer_law =
      λ key ips psk m ok. (record m { table = (key, some ips) ∷ m.table }, refl, refl, refl);
  delete_peer_law = λ key m ok. (record m { table = (key, none) ∷ m.table }, refl, refl, refl);
  route_add_law =
      λ f dest m ok new. (record m { routed = true }, refl, refl, switched dest m.routed true ok);
  route_del_law =
      λ f dest m ok old. (record m { routed = false }, refl, refl, switched dest m.routed false ok);
}
