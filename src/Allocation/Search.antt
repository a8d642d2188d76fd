-- ===== src/Allocation/Search.antt =====
-- Both searches return addresses of the pool that are free.
use wiregui.Base.{
  failed-ne-done, ℕ, zero, suc, ◌+◌, ◌≤◌, ◌<◌, ◌≡◌, refl, false, Option, none, some, List, Text,
  has, arith, Bool-cases, inl, inr, done, length, leb, ◌∙◌,
}
use Prim.Native.Nat.{min}
use wiregui.Net.{Network, show_address}
use wiregui.Allocation.Defs.{sample, scan, find_available, found, first_host, pool_size}

-- `a` is the text of an address from `lo` on, of `size` many, and it is not in use.
abbrev pub IsFree : (ℕ → Text) → List Text → ℕ → ℕ → Text → Type 0
IsFree show used lo size a =
    (k : ℕ) × (a ≡ show k) × (lo ≤ k) × (k < lo + size) × (has a used ≡ false)

module _ (show : ℕ → Text) (used : List Text) where
  sample-IsFree :
      (draw : ℕ → ℕ) (lo size rounds : ℕ) {a : Text}
      → ((i : ℕ) → (lo ≤ draw i) × (draw i < lo + size))
      → sample show used draw rounds ≡ some a
      → IsFree show used lo size a
  unfolding sample
  sample-IsFree draw lo size zero inside h = cc
  sample-IsFree draw lo size (suc rounds) inside h =
      elim (Bool-cases (has (show (draw rounds)) used)) [
        | inl taken ↦ sample-IsFree draw lo size rounds inside (rw taken at h)
        | inr free ↦ (draw rounds, ground arith, (inside rounds).0, (inside rounds).1, ground arith)
      ]

  scan-IsFree :
      (lo left : ℕ) {a : Text} → scan show used lo left ≡ some a → IsFree show used lo left a
  unfolding scan
  scan-IsFree lo zero h = cc
  scan-IsFree lo (suc left) h = elim (Bool-cases (has (show lo) used)) [
    | inl taken ↦
        let (k, e, above, below, free) = scan-IsFree (lo + 1) left (rw taken at h) in
        (k, e, omega arith, omega arith, free)
    | inr free ↦ (lo, ground arith, omega arith, omega arith, ground arith)
  ]

-- An address that the allocation gives out, on draws from the pool, is of the pool and not in use.
pub find_available-IsFree :
    (network : Network) (used : List Text) (draw : ℕ → ℕ) {a : Text}
    → ((i : ℕ) → (first_host network ≤ draw i) × (draw i < first_host network + pool_size network))
    → find_available network used draw ≡ done a
    → IsFree (show_address network.family) used (first_host network) (pool_size network) a
unfolding find_available
find_available-IsFree network used draw {a} inside h =
    elim (Bool-cases (leb (pool_size network) 0)) [
      | inl empty ↦ absurd (failed-ne-done (rw empty at h))
      | inr some_hosts ↦ elim (Bool-cases (leb (pool_size network) (length used))) [
        | inl full ↦ absurd (failed-ne-done (rw (some_hosts, full) at h))
        | inr room ↦
            searched (sample show used draw (min (pool_size network) 1000))
              (scan show used (first_host network) (pool_size network)) refl refl
              (rw (some_hosts, room) at h)
      ]
    ]
  where
    show : ℕ → Text
    show = show_address network.family

    searched :
        (drawn scanned : Option Text)
        → sample show used draw (min (pool_size network) 1000) ≡ drawn
        → scan show used (first_host network) (pool_size network) ≡ scanned
        → found network drawn scanned ≡ done a
        → IsFree show used (first_host network) (pool_size network) a
    searched (some b) s e1 e2 e = sample-IsFree show used draw _ _ _ inside (e1 ∙ ground arith)
    searched none (some b) e1 e2 e = scan-IsFree show used _ _ (e2 ∙ ground arith)
    searched none none e1 e2 e = absurd (failed-ne-done e)
