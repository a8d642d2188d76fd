-- ===== src/Wireguard/Converge.antt =====
-- `sync_routes` makes the routes of the interface those that are expected, and leaves the tunnel
-- networks and the peers alone.
use wiregui.Base.{
  ◌≡◌, refl, ap, ◌∙◌, true, false, not, ◌&&◌, ◌||◌, Option, none, some, List, [], ◌∷◌, Text, has,
  has-filter, arith, done,
}
use wiregui.Base.Distinct.{Distinct, has-ne, has_first, has_rest, filter-Distinct, add-Distinct}
use wiregui.Base.SortedText.{sort_texts, has-sort_texts, sort_texts-Distinct}
use wiregui.Settings.{Settings}
use wiregui.Net.{normalize_cidr}
use wiregui.Host.{Host, HostCommand, Routes, route_add, route_del}
use wiregui.Firewall.{family_of}
use wiregui.Wireguard.Interface.{run_quiet}
use wiregui.Wireguard.Routing.{
  add_normalized, normalized_set, routed_destinations, minus, add_routes, remove_routes,
  get_interface_routes, protected_networks, sync_routes,
}

add_normalized-Distinct :
    (o : Option Text) (found : List Text) → Distinct found → Distinct (add_normalized o found)
add_normalized-Distinct none found h = h
add_normalized-Distinct (some n) found h = add-Distinct n found h

pub normalized_set-Distinct : (ts : List Text) → Distinct (normalized_set ts)
unfolding normalized_set
normalized_set-Distinct [] = tt
normalized_set-Distinct (t ∷ ts) =
    add_normalized-Distinct (normalize_cidr t) (normalized_set ts) (normalized_set-Distinct ts)

module _ (settings : Settings) (h : Host settings.wg_interface) where
  open h use {State, run, peers, routes, accepts, route_add_law, route_del_law}

  -- The tool takes the command that adds, or removes, the route.
  abbrev pub Adds : Text → Type 0
  Adds k = accepts (route_add (family_of k) k settings.wg_interface) ≡ true

  abbrev pub Removes : Text → Type 0
  Removes k = accepts (route_del (family_of k) k settings.wg_interface) ≡ true

  pub run_quiet-done :
      (c : HostCommand) (s s' : State) (out : Text)
      → run c s ≡ done (out, s')
      → run_quiet settings h c s ≡ done s'
  unfolding run_quiet
  run_quiet-done c s s' out e = rw (e, run_quiet)

  get_interface_routes-Distinct : (s : State) → Distinct (get_interface_routes settings h s)
  unfolding get_interface_routes
  get_interface_routes-Distinct s = normalized_set-Distinct (routed_destinations settings h s)

  pub add_routes_lem :
      (ks : List Text) (s : State)
      → Distinct ks
      → ((k : Text) → has k ks ≡ true → Adds k)
      → ((k : Text) → has k ks ≡ true → routes s k ≡ false)
      → (peers (add_routes settings h ks s) ≡ peers s)
        × ((j : Text) → routes (add_routes settings h ks s) j ≡ (routes s j || has j ks))
  unfolding add_routes
  add_routes_lem [] s once ok new = (refl, λ j. ground arith)
  add_routes_lem (k ∷ ks) s once ok new =
      let first = has_first k ks in
      let (s1, ran, p, r) = route_add_law (family_of k) k s (ok k first) (new k first) in
      let (p2, r2) =
        add_routes_lem ks s1 once.1 (λ j m. ok j (has_rest k ks j m))
          (λ j m.
            ap (λ (v : Routes). v j) r ∙ rw (has-ne k j ks once.0 m) (new j (has_rest k ks j m))) in
      rw (run_quiet-done _ s s1 [] ran, add_routes)
        (p2 ∙ p, λ j. r2 j ∙ ap (λ (v : Routes). v j || has j ks) r ∙ ground arith)

  pub remove_routes_lem :
      (ks : List Text) (s : State)
      → Distinct ks
      → ((k : Text) → has k ks ≡ true → Removes k)
      → ((k : Text) → has k ks ≡ true → routes s k ≡ true)
      → (peers (remove_routes settings h ks s) ≡ peers s)
        × ((j : Text) → routes (remove_routes settings h ks s) j ≡ (routes s j && not (has j ks)))
  unfolding remove_routes
  remove_routes_lem [] s once ok old = (refl, λ j. ground arith)
  remove_routes_lem (k ∷ ks) s once ok old =
      let first = has_first k ks in
      let (s1, ran, p, r) = route_del_law (family_of k) k s (ok k first) (old k first) in
      let (p2, r2) =
        remove_routes_lem ks s1 once.1 (λ j m. ok j (has_rest k ks j m))
          (λ j m.
            ap (λ (v : Routes). v j) r ∙ rw (has-ne k j ks once.0 m) (old j (has_rest k ks j m))) in
      rw (run_quiet-done _ s s1 [] ran, remove_routes)
        (p2 ∙ p, λ j. r2 j ∙ ap (λ (v : Routes). v j && not (has j ks)) r ∙ ground arith)

  -- What a synchronisation relies on: the routes are listed as they are, and the tool takes the
  -- commands on the destinations that come up.
  pub record IsSyncable (expected_subnets : List Text) (s : State) : Type 0 where
    pub listed : (k : Text) → has k (get_interface_routes settings h s) ≡ routes s k
    pub adds : (k : Text) → has k (normalized_set expected_subnets) ≡ true → Adds k
    pub removes : (k : Text) → routes s k ≡ true → Removes k

  -- Where the routes are listed as they are and the tool takes the commands that come up, after
  -- `sync_routes` a destination is routed exactly if it is expected, or was routed before
  -- and is one of the tunnel networks; the peers are as before.
  pub sync_routes_lem :
      (expected_subnets : List Text) (s : State)
      → IsSyncable expected_subnets s
      → (peers (sync_routes settings h expected_subnets s) ≡ peers s)
        × ((j : Text)
            → routes (sync_routes settings h expected_subnets s) j ≡ (
                has j (normalized_set expected_subnets)
                || (routes s j && has j (protected_networks settings h))))
  unfolding sync_routes
  sync_routes_lem expected_subnets s ok =
      let (p2, r2) =
        remove_routes_lem to_remove added remove-Distinct
          (λ k m. ok.removes k (ground (arith, has-to_remove k)))
          (λ k m. added_lem.1 k ∙ ground (arith, has-to_remove k)) in
      (p2 ∙ added_lem.0, λ j. r2 j ∙ ground (arith, added_lem.1 j, has-to_add j, has-to_remove j))
    where
      expected : List Text
      expected = normalized_set expected_subnets

      actual : List Text
      actual = get_interface_routes settings h s

      protected : List Text
      protected = protected_networks settings h

      to_add : List Text
      to_add = sort_texts (minus expected actual)

      to_remove : List Text
      to_remove = sort_texts (minus (minus actual expected) protected)

      has-to_add : (k : Text) → has k to_add ≡ (has k expected && not (routes s k))
      has-to_add k =
          has-sort_texts k (minus expected actual)
          ∙ has-filter k (λ j. not (has j actual)) expected
          ∙ rw (ok.listed k)

      has-to_remove :
          (k : Text)
          → has k to_remove ≡ (routes s k && not (has k expected) && not (has k protected))
      has-to_remove k =
          has-sort_texts k (minus (minus actual expected) protected)
          ∙ has-filter k (λ j. not (has j protected)) (minus actual expected)
          ∙ rw (has-filter k (λ j. not (has j expected)) actual) (rw (ok.listed k))

      remove-Distinct : Distinct to_remove
      remove-Distinct = sort_texts-Distinct (minus (minus actual expected) protected) (
          filter-Distinct (λ j. not (has j protected)) (minus actual expected)
            (filter-Distinct (λ j. not (has j expected)) actual (get_interface_routes-Distinct s)))

      added : State
      added = add_routes settings h to_add s

      added_lem :
          (peers added ≡ peers s) × ((j : Text) → routes added j ≡ (routes s j || has j to_add))
      added_lem =
          add_routes_lem to_add s
            (sort_texts-Distinct (minus expected actual) (
              filter-Distinct (λ j. not (has j actual)) expected
                (normalized_set-Distinct expected_subnets)))
            (λ k m. ok.adds k (ground (arith, has-to_add k))) (λ k m. ground (arith, has-to_add k))
