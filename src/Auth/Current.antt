-- ===== src/Auth/Current.antt =====
-- `get_client` gives a client that is built from the settings that the database holds now.
use wiregui.Base.{
  ◌≡◌, ◌⊎◌, refl, sym, ap, ◌∙◌, fun_ext, subst, true, Option, none, some, List, [], ◌∷◌, Text, eqb,
  eqb-eq, eqb_refl, truthy, text_or_empty, if◌then◌else◌, Bool-cases, inl, inr, none-ne-some,
  some-eq, true-ne-false,
}
use wiregui.Models.{Provider, Configuration}
use wiregui.Auth.Providers.{
  ClientConfig, kept_or, Slots, update_slot, Oauth, client_config, has_id, find_provider,
  load_providers, get_provider_config, Registry, fingerprint, is_fingerprint, set_registered,
  register_as, register_provider, unregister_provider, client_from, get_client,
}

module _ (o : Oauth) where
  -- A provider that counts as registered with some settings is registered with them, and the
  -- client that is kept of it, if one is, was built from them.
  pub record IsCurrent (r : Registry o) : Type 0 where
    pub stored :
        (k : Text) (q : Provider)
        → r.registered k ≡ some (fingerprint o q)
        → o.registry r.oauth k ≡ some (client_config q)
    pub kept :
        (k : Text) (q : Provider)
        → r.registered k ≡ some (fingerprint o q)
        → (o.clients r.oauth k ≡ none) ⊎ (o.clients r.oauth k ≡ some (client_config q))

  is_fingerprint-eq : (f : Text) (g : Option Text) → is_fingerprint o f g ≡ true → g ≡ some f
  is_fingerprint-eq f none h = absurd (true-ne-false (sym h))
  is_fingerprint-eq f (some g) h = ap some (eqb-eq g f h)

  has_id-eq : (k : Text) (id : Option Text) → has_id k id ≡ true → id ≡ some k
  has_id-eq k none h = absurd (true-ne-false (sym h))
  has_id-eq k (some id) h = ap some (eqb-eq id k h)

  fingerprint-client_config :
      (q q' : Provider) → fingerprint o q ≡ fingerprint o q' → client_config q ≡ client_config q'
  fingerprint-client_config q q' h =
      let (a, b, c, d) = o.digest_law _ _ _ _ _ _ _ _ h in rw (a, b, c, d) refl

  -- What a change of one slot comes to, at that slot and at the others.
  set_slot :
      (k : Text) (f : Option Text) (s : o.State) (r : Registry o) (c : Option ClientConfig)
      → o.registry s ≡ update_slot (o.registry r.oauth) k c
      → o.clients s ≡ update_slot (o.clients r.oauth) k c
      → ((q : Provider) → f ≡ some (fingerprint o q) → c ≡ some (client_config q))
      → IsCurrent r
      → IsCurrent (set_registered o k f (record r { oauth = s }))
  set_slot k f s r c eq_registry eq_clients ok v = record {
    stored = λ j q h. (elim (Bool-cases (eqb k j)) [
      | inl same ↦
          ap (λ (w : Slots). w j) eq_registry
          ∙ rw same (ok q (ap (λ b. if b then f else r.registered j) (sym same) ∙ h))
      | inr other ↦
          ap (λ (w : Slots). w j) eq_registry
          ∙ rw other (v.stored j q (ap (λ b. if b then f else r.registered j) (sym other) ∙ h))
    ]);
    kept = λ j q h. (elim (Bool-cases (eqb k j)) [
      | inl same ↦ inr (
          ap (λ (w : Slots). w j) eq_clients
          ∙ rw same (ok q (ap (λ b. if b then f else r.registered j) (sym same) ∙ h)))
      | inr other ↦
          subst (λ x. (x ≡ none) ⊎ (x ≡ some (client_config q)))
            (sym (ap (λ (w : Slots). w j) eq_clients ∙ rw other refl))
            (v.kept j q (ap (λ b. if b then f else r.registered j) (sym other) ∙ h))
    ]);
  }

  -- The client of a slot that was emptied is the new one.
  popped_slot :
      (v : Slots) (k : Text) (c : ClientConfig)
      → update_slot (update_slot v k none) k (some (kept_or (update_slot v k none k) c))
        ≡ update_slot v k (some c)
  popped_slot v k c = rw (eqb_refl k) (
      fun_ext
        λ j. elim (Bool-cases (eqb k j)) [ inl same ↦ rw same refl | inr other ↦ rw other refl ])

  register_as-IsCurrent :
      (k : Text) (q : Provider) (r : Registry o) → IsCurrent r → IsCurrent (register_as o k q r)
  register_as-IsCurrent k q r v =
      elim (Bool-cases (is_fingerprint o (fingerprint o q) (r.registered k))) [
        | inl same ↦ rw same v
        | inr new ↦ rw new (
            let (popped_registry, popped) = o.pop_client_law k r.oauth in
            let (stored, kept) = o.register_law k (client_config q) (o.pop_client k r.oauth) in
            set_slot k (some (fingerprint o q)) _ r (some (client_config q))
              (stored ∙ ap (λ v. update_slot v k (some (client_config q))) popped_registry)
              (kept
                ∙ ap (λ v. update_slot v k (some (kept_or (v k) (client_config q)))) popped
                ∙ popped_slot (o.clients r.oauth) k (client_config q))
              (λ q' h. ap some (fingerprint-client_config q q' (some-eq h))) v)
      ]

  pub register_provider-IsCurrent :
      (q : Provider) (r : Registry o) → IsCurrent r → IsCurrent (register_provider o q r)
  unfolding register_provider
  register_provider-IsCurrent q r v = elim (Bool-cases (truthy q.id)) [
    | inl named ↦ rw named (register_as-IsCurrent (text_or_empty q.id) q r v)
    | inr blank ↦ rw blank v
  ]

  pub unregister_provider-IsCurrent :
      (k : Text) (r : Registry o) → IsCurrent r → IsCurrent (unregister_provider o k r)
  unfolding unregister_provider
  unregister_provider-IsCurrent k r v =
      let (gone, kept) = o.pop_registry_law k r.oauth in
      let (same, popped) = o.pop_client_law k (o.pop_registry k r.oauth) in
      set_slot k none _ r none (same ∙ gone) (popped ∙ ap (λ v. update_slot v k none) kept)
        (λ q h. absurd (none-ne-some h)) v

  -- What a provider that is unregistered leaves.
  pub unregister_provider_lem :
      (k : Text) (r : Registry o)
      → ((unregister_provider o k r).registered ≡ (λ j. if eqb k j then none else r.registered j))
        × (o.registry (unregister_provider o k r).oauth ≡ update_slot (o.registry r.oauth) k none)
        × (o.clients (unregister_provider o k r).oauth ≡ update_slot (o.clients r.oauth) k none)
  unfolding unregister_provider
  unregister_provider_lem k r =
      let (gone, kept) = o.pop_registry_law k r.oauth in
      let (same, popped) = o.pop_client_law k (o.pop_registry k r.oauth) in
      (refl, same ∙ gone, popped ∙ ap (λ v. update_slot v k none) kept)

  -- Whatever is registered, it is registered with the settings that were asked for last.
  register_as-registered :
      (k : Text) (q : Provider) (r : Registry o)
      → (register_as o k q r).registered k ≡ some (fingerprint o q)
  register_as-registered k q r =
      elim (Bool-cases (is_fingerprint o (fingerprint o q) (r.registered k))) [
        | inl same ↦ rw same (is_fingerprint-eq (fingerprint o q) (r.registered k) same)
        | inr new ↦ rw (new, eqb_refl k) refl
      ]

  after_build :
      (k : Text) (s' : o.State) (r : Registry o)
      → o.registry s' ≡ o.registry r.oauth
      → o.clients s' ≡ update_slot (o.clients r.oauth) k (o.registry r.oauth k)
      → IsCurrent r
      → IsCurrent (record r { oauth = s' })
  after_build k s' r same_registry built v = record {
    stored = λ j q h. ap (λ (w : Slots). w j) same_registry ∙ v.stored j q h;
    kept = λ j q h. (elim (Bool-cases (eqb k j)) [
      | inl same ↦ inr (
          ap (λ (w : Slots). w j) built
          ∙ rw same (ap (λ i. o.registry r.oauth i) (eqb-eq k j same) ∙ v.stored j q h))
      | inr other ↦
          subst (λ x. (x ≡ none) ⊎ (x ≡ some (client_config q)))
            (sym (ap (λ (w : Slots). w j) built ∙ rw other refl)) (v.kept j q h)
    ]);
  }

  client_from_lem :
      (k : Text) (q : Provider) (r : Registry o)
      → r.registered k ≡ some (fingerprint o q)
      → IsCurrent r
      → ((client_from o k r).0 ≡ some (client_config q)) × IsCurrent (client_from o k r).1
  client_from_lem k q r h v = elim (v.kept k q h) [
    | inr kept ↦ rw (o.kept_law k (client_config q) r.oauth kept) (refl, v)
    | inl none_kept ↦
        (let (s', made, same_registry, built) = o.built_law k r.oauth none_kept in
          rw made (v.stored k q h, after_build k s' r same_registry built v))
  ]

  find_provider-id :
      (k : Text) (qs : List Provider) (q : Provider) → find_provider k qs ≡ some q → q.id ≡ some k
  unfolding find_provider
  find_provider-id k [] q h = absurd (none-ne-some h)
  find_provider-id k (q' ∷ qs) q h = elim (Bool-cases (has_id k q'.id)) [
    | inl found ↦
        ap (λ (w : Provider). w.id)
          (sym (some-eq (ap (λ b. if b then some q' else find_provider k qs) (sym found) ∙ h)))
        ∙ has_id-eq k q'.id found
    | inr other ↦
        find_provider-id k qs q
          (ap (λ b. if b then some q' else find_provider k qs) (sym other) ∙ h)
  ]

  -- While the registry is current, for a provider of the database with an id that is not empty
  -- `get_client` gives a client that is built from what the database holds of it now, and the
  -- registry stays current.
  pub get_client_lem :
      (k : Text) (config : Option Configuration) (q : Provider) (r : Registry o)
      → IsCurrent r
      → truthy (some k) ≡ true
      → get_provider_config k config ≡ some q
      → ((get_client o k config r).0 ≡ some (client_config q))
        × IsCurrent (get_client o k config r).1
  unfolding get_client get_provider_config register_provider
  get_client_lem k config q r v named there =
      let id = find_provider-id k (load_providers config) q there in
      rw there (
        rw id (
          rw named (
            client_from_lem k q (register_as o k q r) (register_as-registered k q r)
              (register_as-IsCurrent k q r v))))
