-- ===== src/Firewall/Jumps.antt =====
-- Where the jumps of a rebuild go, and that users' own rules hold no jump.
use wiregui.Base.{
  ◌≡◌, refl, ◌∙◌, true, false, ◌||◌, Option, List, [], ◌∷◌, ◌++◌, map, Text, All, All-append,
  All-map, eqb, has, truthy, Bool-cases, inl, inr, arith, is_some,
}
use wiregui.Nft.{RuleExpr, View, resolves, any_refers, Family}
use wiregui.Nft.{ip, ip6}
use wiregui.Firewall.Batch.{
  Entry, DeviceAddresses, concat, tunnel_jump, subnet_jump, rule_expr, jump_rules, entry_chain,
  chain_rules, entry_jumps, forward_jumps,
}
use wiregui.Firewall.Sorted.{FilterRule, sort_rules}

pub All-concat-map {ℓ κ μ} :
    {A : Type ℓ} {B : Type κ} (P : B → Type μ) (f : A → List B) (xs : List A)
    → All (λ x. All P (f x)) xs
    → All P (concat (map f xs))
All-concat-map P f [] h = tt
All-concat-map P f (x ∷ xs) h =
    All-append P (f x) (concat (map f xs)) h.0 (All-concat-map P f xs h.1)

-- All jumps of a device go to one chain.
pub jump_rules-resolve :
    (v : View) (c : Text) (dev : DeviceAddresses)
    → is_some (v c) ≡ true
    → All (λ j. resolves v j ≡ true) (jump_rules c dev)
unfolding jump_rules
jump_rules-resolve v c dev h = All-append P (tunnel_jump ip c dev.ipv4) _ (tunnel ip dev.ipv4) (
    All-append P (tunnel_jump ip6 c dev.ipv6) _ (tunnel ip6 dev.ipv6)
      (All-map P (subnet_jump c) dev.allowed_subnets (λ _. h)))
  where
    P : RuleExpr → Type 0
    P j = resolves v j ≡ true

    tunnel : (f : Family) (addr : Option Text) → All P (tunnel_jump f c addr)
    tunnel f addr = elim (Bool-cases (truthy addr)) [
      | inl there ↦ rw there (h, tt)
      | inr missing ↦ rw missing tt
    ]

pub any_refers-statements :
    (c : Text) (rs : List FilterRule) → any_refers c (map rule_expr rs) ≡ false
unfolding rule_expr
any_refers-statements c [] = refl
any_refers-statements c (r ∷ rs) = any_refers-statements c rs

pub any_refers-append :
    (c : Text) (xs ys : List RuleExpr)
    → any_refers c (xs ++ ys) ≡ (any_refers c xs || any_refers c ys)
any_refers-append c [] ys = refl
any_refers-append c (x ∷ xs) ys = ground (arith, any_refers-append c xs ys)

pub any_refers-jump_rules :
    (t c : Text) (dev : DeviceAddresses) → eqb c t ≡ false → any_refers t (jump_rules c dev) ≡ false
unfolding jump_rules
any_refers-jump_rules t c dev h =
    any_refers-append t (tunnel_jump ip c dev.ipv4) _
    ∙ rw (tunnel ip dev.ipv4) (
        any_refers-append t (tunnel_jump ip6 c dev.ipv6) _
        ∙ rw (tunnel ip6 dev.ipv6) (subnets dev.allowed_subnets))
  where
    tunnel : (f : Family) (addr : Option Text) → any_refers t (tunnel_jump f c addr) ≡ false
    tunnel f addr = ground arith

    subnets : (ss : List Text) → any_refers t (map (subnet_jump c) ss) ≡ false
    subnets = elim [ [] ↦ refl | s ∷ (ss → ih) ↦ rw h ih ]

-- The jumps of the forward chain go to chains of the entries.
pub forward_jumps-resolve :
    (v : View) (es : List Entry)
    → All (λ e. is_some (v (entry_chain e)) ≡ true) es
    → All (λ j. resolves v j ≡ true) (forward_jumps es)
unfolding forward_jumps
forward_jumps-resolve v [] h = tt
forward_jumps-resolve v (e ∷ es) h =
    All-append (λ j. resolves v j ≡ true) (entry_jumps e) _
      (All-concat-map (λ j. resolves v j ≡ true) (jump_rules (entry_chain e)) e.devices
        (devices e.devices))
      (forward_jumps-resolve v es h.1)
  where
    devices :
        (ds : List DeviceAddresses)
        → All (λ d. All (λ j. resolves v j ≡ true) (jump_rules (entry_chain e) d)) ds
    devices = elim [ [] ↦ tt | d ∷ (ds → ih) ↦ (jump_rules-resolve v (entry_chain e) d h.0, ih) ]

any_refers-devices :
    (t c : Text) (ds : List DeviceAddresses)
    → eqb c t ≡ false
    → any_refers t (concat (map (jump_rules c) ds)) ≡ false
any_refers-devices t c [] h = refl
any_refers-devices t c (d ∷ ds) h =
    any_refers-append t (jump_rules c d) _
    ∙ rw (any_refers-jump_rules t c d h) (any_refers-devices t c ds h)

pub any_refers-forward_jumps :
    (t : Text) (es : List Entry)
    → has t (map entry_chain es) ≡ false
    → any_refers t (forward_jumps es) ≡ false
unfolding forward_jumps
any_refers-forward_jumps t [] h = refl
any_refers-forward_jumps t (e ∷ es) h =
    any_refers-append t (entry_jumps e) _
    ∙ rw (any_refers-devices t (entry_chain e) e.devices (ground arith))
        (any_refers-forward_jumps t es (ground arith))

pub any_refers-chain_rules : (t : Text) (e : Entry) → any_refers t (chain_rules e) ≡ false
unfolding chain_rules
any_refers-chain_rules t e = any_refers-statements t (sort_rules e.rules)
