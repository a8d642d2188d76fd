-- ===== src/Allocation/Free.antt =====
-- The allocation finds an address whenever fewer addresses are in use than the pool has.
use wiregui.Base.{
  none-ne-some, ℕ, zero, suc, ◌+◌, ◌^◌, ◌≤◌, ◌<◌, ◌≡◌, ◌≢◌, sym, ap, Option-cases, ◌∙◌, true, false,
  none, List, Text, has, arith, Bool-cases, inl, inr, done, length, leb,
}
use native.Mathlib.Decide.{ℕ_discrete}
use Prim.Native.Nat.{min}
use wiregui.Nft.{ip}
use wiregui.Net.{Network, show_address, show_v4}
use wiregui.Allocation.Defs.{sample, scan, find_available, first_host, pool_size}
use wiregui.Allocation.Pigeonhole.{pigeonhole}
use wiregui.Allocation.Printed.{show_v4-differ}

module _ (show : ℕ → Text) (used : List Text) where
  scan-none :
      (lo left : ℕ)
      → scan show used lo left ≡ none
      → (i : ℕ) → lo ≤ i
      → i < lo + left
      → has (show i) used ≡ true
  unfolding scan
  scan-none lo zero h i above below = absurd (omega arith)
  scan-none lo (suc left) h i above below = elim (Bool-cases (has (show lo) used)) [
    | inl taken ↦ elim (ℕ_discrete i lo) [
      | yes same ↦ rw same taken
      | no other ↦ scan-none (lo + 1) left (rw taken at h) i (omega arith) (omega arith)
    ]
    | inr free ↦ absurd (none-ne-some (rw free at (sym h)))
  ]

module _ (network : Network) (used : List Text) where
  scan-ne-none :
      network.family ≡ ip
      → first_host network + pool_size network ≤ 2 ^ 32
      → length used < pool_size network
      → scan (show_address network.family) used (first_host network) (pool_size network) ≢ none
  scan-ne-none v4 fits room e =
      let all = scan-none show_v4 used (first_host network) (pool_size network) (
        ap (λ f. scan (show_address f) used (first_host network) (pool_size network)) (sym v4)
        ∙ e) in
      let full : pool_size network ≤ length used =
        pigeonhole show_v4 (first_host network) (pool_size network) used
          (λ i j above lt below. show_v4-differ i j (omega arith) (omega arith) lt) all in
      omega arith

  -- In an IPv4 network whose pool lies below 2^32, while fewer addresses are in use than the pool
  -- has, the allocation finds an address, on whatever draws.
  pub find_available_total :
      (draw : ℕ → ℕ)
      → network.family ≡ ip
      → first_host network + pool_size network ≤ 2 ^ 32
      → length used < pool_size network
      → (a : Text) × (find_available network used draw ≡ done a)
  unfolding find_available
  find_available_total draw v4 fits room =
      let hosts : leb (pool_size network) 0 ≡ false = ground arith in
      let vacant : leb (pool_size network) (length used) ≡ false = ground arith in
      elim (Option-cases
        (sample (show_address network.family) used draw (min (pool_size network) 1000))) [
          | inr (a, drawn) ↦ (a, rw (hosts, vacant, drawn))
          | inl missed ↦
              elim (Option-cases (
                scan (show_address network.family) used (first_host network) (pool_size network))) [
                  | inr (a, scanned) ↦ (a, rw (hosts, vacant, missed, scanned))
                  | inl none_left ↦ absurd (scan-ne-none v4 fits room none_left)
                ]
        ]
