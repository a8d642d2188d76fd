-- ===== src/Base/Guards.antt =====
-- What a result tells of the guard that it came through.
use mathlib.Core.Path.{◌≡◌, refl, sym, ap}
use mathlib.Core.Logic.{◌↔◌}
use mathlib.Core.Bool.{Bool, true, false}
use mathlib.Core.Option.{Option, none, some}
use mathlib.Core.List.{[], ◌∷◌, ◌++◌}
use native.Mathlib.Omega.{arith}
use wiregui.Base.Tests.{if◌then◌else◌, none-ne-some, some-eq, true-ne-false}
use wiregui.Base.Lists.{length, drop}
use wiregui.Base.Strings.{Text, starts_with}

pub if_some {ℓ} :
    {A : Type ℓ} (b : Bool) (v u : A)
    → ((if b then some v else none) ≡ some u) ↔ ((b ≡ true) × (v ≡ u))
if_some true v u = (λ h. (refl, some-eq h), λ h. ap some h.1)
if_some false v u = (λ h. absurd (none-ne-some h), λ h. absurd (true-ne-false (sym h.0)))

pub unless_some {ℓ} :
    {A : Type ℓ} (b : Bool) (o : Option A) (u : A)
    → ((if b then none else o) ≡ some u) ↔ ((b ≡ false) × (o ≡ some u))
unless_some true o u = (λ h. absurd (none-ne-some h), λ h. absurd (true-ne-false h.0))
unless_some false o u = (λ h. (refl, h), λ h. h.1)

pub when_some {ℓ} :
    {A : Type ℓ} (b : Bool) (o : Option A) (u : A)
    → ((if b then o else none) ≡ some u) ↔ ((b ≡ true) × (o ≡ some u))
when_some true o u = (λ h. (refl, h), λ h. h.1)
when_some false o u = (λ h. absurd (none-ne-some h), λ h. absurd (true-ne-false (sym h.0)))

pub starts_with-drop :
    (prefix t : Text) → starts_with prefix t ≡ true → t ≡ prefix ++ drop (length prefix) t
starts_with-drop [] t h = refl
starts_with-drop (c ∷ prefix) [] h = absurd (true-ne-false (sym h))
starts_with-drop (c ∷ prefix) (d ∷ t) h = ground (arith, starts_with-drop prefix t)
