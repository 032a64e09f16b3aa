-- ===== src/Common/Family.antt =====
-- Families `ℕ → A` indexed by node: an update at one index, weighted sums over the first `n`.
use ensemble_chat.Common.Tests.{◌==◌, if◌then◌else◌}
use native.Mathlib.Omega.{arith}
use native.Mathlib.Decide.{dec_lt}
use mathlib.Core.Logic.{◌≢◌}
use mathlib.Core.Path.{◌≡◌, refl}
use Prim.Native.Nat.{ℕ, zero, suc, ◌+◌, ◌≤◌, ◌<◌}

abbrev pub update {ℓ} : {A : Type ℓ} → (ℕ → A) → ℕ → A → ℕ → A
update f i a j = if i == j then a else f j

-- w 0 + … + w (n - 1)
unfoldable pub total : ℕ → (ℕ → ℕ) → ℕ
total zero w = 0
total (suc n) w = total n w + w n

pub total_congr : (n : ℕ) (v w : ℕ → ℕ) → ((i : ℕ) → i < n → v i ≡ w i) → total n v ≡ total n w
unfolding total
total_congr zero v w h = refl
total_congr (suc n) v w h =
    omega (arith, total_congr n v w (λ i l. h i (omega arith)), h n (omega arith))

pub total_mono : (n : ℕ) (v w : ℕ → ℕ) → ((i : ℕ) → i < n → v i ≤ w i) → total n v ≤ total n w
unfolding total
total_mono zero v w h = omega arith
total_mono (suc n) v w h =
    omega (arith, total_mono n v w (λ i l. h i (omega arith)), h n (omega arith))

-- Two sums that differ at one index.
pub total_change :
    (n : ℕ) (v w : ℕ → ℕ) (i : ℕ)
    → i < n
    → ((j : ℕ) → j ≢ i → w j ≡ v j)
    → total n w + v i ≡ total n v + w i
unfolding total
total_change zero v w i l h = absurd (omega arith)
total_change (suc n) v w i l h = elim (dec_lt i n) [
  | yes below ↦ omega (arith, total_change n v w i below h, h n (omega arith))
  | no last ↦
      let e : i ≡ n = omega arith in
      let same : total n w ≡ total n v = total_congr n w v (λ j k. h j (omega arith)) in
      ground arith
]

-- A sum is at least each of its terms, and at least any two of them.
pub total-ge : (n : ℕ) (w : ℕ → ℕ) (i : ℕ) → i < n → w i ≤ total n w
unfolding total
total-ge zero w i l = absurd (omega arith)
total-ge (suc n) w i l = elim (dec_lt i n) [
  | yes below ↦ omega (arith, total-ge n w i below)
  | no last ↦ let e : i ≡ n = omega arith in ground arith
]

pub total_two : (n : ℕ) (w : ℕ → ℕ) (i j : ℕ) → i < j → j < n → w i + w j ≤ total n w
unfolding total
total_two zero w i j l k = absurd (omega arith)
total_two (suc n) w i j l k = elim (dec_lt j n) [
  | yes below ↦ omega (arith, total_two n w i j l below)
  | no last ↦
      let e : j ≡ n = omega arith in
      let first : w i ≤ total n w = total-ge n w i (omega arith) in ground arith
]

-- Sums add up pointwise.
pub total-add : (n : ℕ) (v w : ℕ → ℕ) → total n (λ i. v i + w i) ≡ total n v + total n w
unfolding total
total-add zero v w = omega arith
total-add (suc n) v w = omega (arith, total-add n v w)

pub total-le : (n : ℕ) (w : ℕ → ℕ) → ((i : ℕ) → w i ≤ 1) → total n w ≤ n
unfolding total
total-le zero w h = omega arith
total-le (suc n) w h = omega (arith, total-le n w h, h n)

-- A sum that is 1 at one index alone.
total_indicator_above : (n h : ℕ) → n ≤ h → total n (λ i. if i == h then 1 else 0) ≡ 0
unfolding total
total_indicator_above zero h l = refl
total_indicator_above (suc n) h l = ground (arith, total_indicator_above n h)

pub total_indicator : (n h : ℕ) → h < n → total n (λ i. if i == h then 1 else 0) ≡ 1
unfolding total
total_indicator zero h l = absurd (omega arith)
total_indicator (suc n) h l = ground (arith, total_indicator n h, total_indicator_above n h)

pub total_indicator-le : (n h : ℕ) → total n (λ i. if i == h then 1 else 0) ≤ 1
total_indicator-le n h = elim (dec_lt h n) [
  | yes l ↦ omega (arith, total_indicator n h l)
  | no l ↦ omega (arith, total_indicator_above n h)
]
