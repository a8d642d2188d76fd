-- ===== src/Wireguard/Routing.antt =====
-- The routes: the last functions of wiregui/services/wireguard.py.
use wiregui.Base.{
  not, ◌||◌, Option, none, some, List, [], ◌∷◌, ◌++◌, Text, codes, has, add, filter, split, strip,
  words, starts_with, length, ◌==◌, if◌then◌else◌, done, failed,
}
use wiregui.Base.SortedText.{sort_texts}
use wiregui.Settings.{Settings}
use wiregui.Nft.{Family, ip, ip6}
use wiregui.Net.{normalize_cidr}
use wiregui.Host.{Host, route_show, route_add, route_del}
use wiregui.Wireguard.Interface.{run_quiet}
use wiregui.Firewall.{family_of}

abbrev pub add_normalized : Option Text → List Text → List Text
add_normalized none found = found
add_normalized (some n) found = add n found

-- The canonical forms of the texts that are networks, as a set; the others are skipped.
unfoldable pub normalized_set : List Text → List Text
unfolding normalize_cidr
normalized_set [] = []
normalized_set (t ∷ ts) = add_normalized (normalize_cidr t) (normalized_set ts)

-- The destination of one line of `ip route show`, if it counts.
destination : Text → List Text
destination line =
    if (length (strip line) == 0) || starts_with (codes "default") (strip line)
    then []
    else elim (words (strip line)) [ [] ↦ [] | dest ∷ rest ↦ dest ∷ [] ]

unfoldable pub destinations : List Text → List Text
unfolding destination
destinations [] = []
destinations (line ∷ lines) = destination line ++ destinations lines

-- `a - b` of sets.
abbrev pub minus : List Text → List Text → List Text
minus xs ys = filter (λ k. not (has k ys)) xs

module _ (settings : Settings) (h : Host settings.wg_interface) where
  open h use {State, run}

  -- The loop of `add_routes`: every error is logged and the loop goes on.
  unfoldable pub add_routes : List Text → State → State
  unfolding run_quiet family_of
  add_routes [] s = s
  add_routes (subnet ∷ subnets) s =
      elim (run_quiet settings h (route_add (family_of subnet) subnet settings.wg_interface) s) [
        | done s' ↦ add_routes subnets s'
        | failed e ↦ add_routes subnets s
      ]

  -- The loop of `remove_routes`.
  unfoldable pub remove_routes : List Text → State → State
  unfolding run_quiet family_of
  remove_routes [] s = s
  remove_routes (subnet ∷ subnets) s =
      elim (run_quiet settings h (route_del (family_of subnet) subnet settings.wg_interface) s) [
        | done s' ↦ remove_routes subnets s'
        | failed e ↦ remove_routes subnets s
      ]

  -- The lines of one family; none where the call fails.
  route_lines : Family → State → List Text
  route_lines f s = elim (run (route_show f settings.wg_interface) s) [
    | failed e ↦ []
    | done (output, s') ↦ split 10 output
  ]

  unfoldable pub routed_destinations : State → List Text
  unfolding destinations route_lines
  routed_destinations s = destinations (route_lines ip s ++ route_lines ip6 s)

  -- `get_interface_routes`
  unfoldable pub get_interface_routes : State → List Text
  unfolding normalized_set routed_destinations
  get_interface_routes s = normalized_set (routed_destinations s)

  -- The tunnel networks, which are never removed.
  unfoldable pub protected_networks : List Text
  unfolding normalized_set
  protected_networks = normalized_set (settings.wg_ipv4_network ∷ (settings.wg_ipv6_network ∷ []))

  -- `sync_routes`
  unfoldable pub sync_routes : List Text → State → State
  unfolding normalized_set add_routes remove_routes get_interface_routes protected_networks
      sort_texts
  sync_routes expected_subnets s =
      let expected = normalized_set expected_subnets in
      let actual = get_interface_routes s in
      let to_add = sort_texts (minus expected actual) in
      let to_remove = sort_texts (minus (minus actual expected) protected_networks) in
      remove_routes to_remove (add_routes to_add s)
