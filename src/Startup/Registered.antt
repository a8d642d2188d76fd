-- ===== src/Startup/Registered.antt =====
-- What `register_providers` of wiregui/auth/oidc.py leaves of the registry at a start.
use wiregui.Base.{
  ℕ, ◌≡◌, refl, sym, ap, ◌∙◌, Bool, true, false, Option, none, some, List, [], ◌∷◌, Text, eqb,
  eqb-eq, truthy, text_or_empty, if◌then◌else◌, Bool-cases, inl, inr,
}
use wiregui.Models.{Provider}
use wiregui.Auth.{
  Oauth, Registry, fingerprint, register_as, register_provider, register_providers, has_id,
}
use wiregui.Auth.Seeded.{last_provider, or_last}

-- The settings with which each provider of an id is registered last.
abbrev pub or_registered : (o : Oauth) → Option Provider → Option Text → Option Text
or_registered o none before = before
or_registered o (some q) before = some (fingerprint o q)

module _ (o : Oauth) where
  register_as-registered :
      (k id : Text) (q : Provider) (r : Registry o)
      → (register_as o id q r).registered k
        ≡ (if eqb id k then some (fingerprint o q) else r.registered k)
  register_as-registered k id q r = same_or (r.registered id) refl
    where
      same_or :
          (f : Option Text)
          → r.registered id ≡ f
          → (register_as o id q r).registered k
            ≡ (if eqb id k then some (fingerprint o q) else r.registered k)
      same_or none is = rw is refl
      same_or (some g) is = elim (Bool-cases (eqb g (fingerprint o q))) [
        | inr other ↦ rw (is, other) refl
        | inl same ↦
            rw (is, same)
              (elim (Bool-cases (eqb id k)) [
                | inr apart ↦ rw apart refl
                | inl equal ↦
                    ap r.registered (sym (eqb-eq id k equal))
                    ∙ is
                    ∙ ap some (eqb-eq g (fingerprint o q) same)
                    ∙ rw equal refl
              ])
      ]

  register_provider-registered :
      (x : ℕ) (k : Text) (q : Provider) (r : Registry o) (id : Option Text)
      → (if truthy id then register_as o (text_or_empty id) q r else r).registered (x ∷ k)
        ≡ (if has_id (x ∷ k) id then some (fingerprint o q) else r.registered (x ∷ k))
  register_provider-registered x k q r none = refl
  register_provider-registered x k q r (some []) = refl
  register_provider-registered x k q r (some (c ∷ t)) = register_as-registered (x ∷ k) (c ∷ t) q r

  -- Each id counts as registered with the last provider that has it.
  pub register_providers_lem :
      (x : ℕ) (k : Text) (qs : List Provider) (r : Registry o)
      → (register_providers o qs r).registered (x ∷ k)
        ≡ or_registered o (last_provider (x ∷ k) qs) (r.registered (x ∷ k))
  unfolding register_providers register_provider
  register_providers_lem x k [] r = refl
  register_providers_lem x k (q ∷ qs) r =
      register_providers_lem x k qs (register_provider o q r)
      ∙ ap (or_registered o (last_provider (x ∷ k) qs)) (register_provider-registered x k q r q.id)
      ∙ last_of (last_provider (x ∷ k) qs) (has_id (x ∷ k) q.id)
    where
      last_of :
          (l : Option Provider) (c : Bool)
          → or_registered o l (if c then some (fingerprint o q) else r.registered (x ∷ k))
            ≡ or_registered o (or_last l c q) (r.registered (x ∷ k))
      last_of (some l) c = refl
      last_of none true = refl
      last_of none false = refl
