-- ===== src/Retry/Bounds.antt =====
-- The delay of a valid policy: exponential, capped, and jittered within its upper half.
use native.Mathlib.Nat.{pow-suc, one-le-pow}
use esodm.Prelude.{
  ℕ, zero, suc, ◌+◌, ◌*◌, ◌/◌, ◌^◌, ◌≤◌, ◌<◌, min, ◌≡◌, inl, inr, false, ltb, leb, ◌∙◌, half_ℤ,
  double_ℤ, min_ℤ, ◌-◌, if◌then◌else◌, Bool-cases, ℤ, pos, pos_part, arith, ap,
}
use esodm.Error.{ok}
use esodm.Retry.{RetryPolicy, validate, initial, maximum, doubled, jittered, delay}

half-pos : (m : ℕ) → half_ℤ (pos m) ≡ pos (m / 2)
half-pos m = ground arith

double-pos : (d : ℕ) → double_ℤ (pos d) ≡ pos (d * 2)
double-pos d = ground arith

doubled-suc :
    (n m d : ℕ)
    → doubled (suc n) (pos m) (pos d)
      ≡ (if ltb (m / 2) d then pos m else doubled n (pos m) (pos (d * 2)))
unfolding doubled
doubled-suc n m d = rw (double-pos d, half-pos m) (ground arith)

grow : (d x : ℕ) → 1 ≤ x → (d * 2 ≤ d * (x * 2)) × (d * 2 * x ≡ d * (x * 2))
grow d x h = (grind arith, omega arith)

-- A passed doubling test leaves room for the double.
pub doubled-min : (n m d : ℕ) → d ≤ m → doubled n (pos m) (pos d) ≡ pos (min (d * 2 ^ n) m)
unfolding doubled
doubled-min zero m d h = ap pos (omega arith)
doubled-min (suc n) m d h =
    rw (doubled-suc n m d, pow-suc)
      (elim (Bool-cases (ltb (m / 2) d)) [
        | inl e ↦ rw e (ap pos (ground (arith, grow d (2 ^ n) (one-le-pow n 2 (omega arith)))))
        | inr e ↦
            rw (e, doubled-min n m (d * 2) (ground arith))
              (ap pos (ground (arith, grow d (2 ^ n) (one-le-pow n 2 (omega arith)))))
      ])

-- The jitter keeps the delay in the upper half.
jittered_bounds :
    (int64n : ℕ → ℕ) (d : ℕ)
    → ((n : ℕ) → 0 < n → int64n n < n)
    → (k : ℕ) × (jittered int64n (pos d) ≡ pos k) × (d / 2 ≤ k) × (k ≤ d)
unfolding jittered
jittered_bounds int64n d h = elim (Bool-cases (ltb d 2)) [
  | inl e ↦ (d, ground arith, omega arith, omega arith)
  | inr e ↦ (d / 2 + int64n (d - d / 2), ground arith, omega arith, ground (arith, h (d - d / 2)))
]

-- A valid policy has nonnegative numbers, and its first delay does not exceed its cap.
validate-pos :
    (p : RetryPolicy) → validate p ≡ ok tt → (m i : ℕ) × (maximum p ≡ pos m) × (initial p ≡ pos i)
unfolding validate
validate-pos p h = (pos_part (maximum p), pos_part (initial p), ground arith, ground arith)

min-pos : (i m : ℕ) → min_ℤ (pos i) (pos m) ≡ pos (min i m)
min-pos i m = ground arith

-- The exponential delay of an attempt, before the jitter.
abbrev pub capped : RetryPolicy → ℕ → ℕ
capped p attempt = min (pos_part (initial p) * 2 ^ attempt) (pos_part (maximum p))

le-mul : (d x : ℕ) → 1 ≤ x → d ≤ d * x
le-mul d x h = grind arith

min_right : (i m : ℕ) → leb i m ≡ false → min i m ≡ m
min_right i m h = ground arith

capped_min : (i m n : ℕ) → min (min i m * 2 ^ n) m ≡ min (i * 2 ^ n) m
capped_min i m n = elim (Bool-cases (leb i m)) [
  | inl e ↦ ap (λ (x : ℕ). min (x * 2 ^ n) m) (ground arith)
  | inr e ↦
      let p = one-le-pow n 2 (omega arith) in
      ap (λ (x : ℕ). min (x * 2 ^ n) m) (min_right i m e)
      ∙ ground (arith, le-mul i (2 ^ n) p, le-mul m (2 ^ n) p)
]

delay_core :
    (int64n : ℕ → ℕ) (attempt m i : ℕ) {M I : ℤ}
    → M ≡ pos m
    → I ≡ pos i
    → ((n : ℕ) → 0 < n → int64n n < n)
    → let c = min (pos_part I * 2 ^ attempt) (pos_part M) in
      (k : ℕ) × (jittered int64n (doubled attempt M (min_ℤ I M)) ≡ pos k)
      × (c / 2 ≤ k)
      × (k ≤ c)
      × (k ≤ pos_part M)
delay_core int64n attempt m i eM eI r =
    rw (eM, eI)
      (rw (min-pos i m) (
        rw (doubled-min attempt m (min i m) (omega arith)) (
          let (k, e, lo, hi) = jittered_bounds int64n (min (min i m * 2 ^ attempt) m) r in
          (
            k,
            e,
            omega (arith, capped_min i m attempt),
            omega (arith, capped_min i m attempt),
            omega (arith),
          ))))

-- For a valid policy the delay before the next attempt is nonnegative, lies in the upper half of
-- min(initial * 2 ^ attempt, maximum), and never exceeds the maximum. The generator of random
-- numbers below n is assumed to return less than n.
pub delay_bounds :
    (p : RetryPolicy) (int64n : ℕ → ℕ) (attempt : ℕ)
    → validate p ≡ ok tt
    → ((n : ℕ) → 0 < n → int64n n < n)
    → (k : ℕ) × (delay p int64n attempt ≡ pos k)
      × (capped p attempt / 2 ≤ k)
      × (k ≤ capped p attempt)
      × (k ≤ pos_part (maximum p))
unfolding delay
delay_bounds p int64n attempt h r =
    let (m, i, eM, eI) = validate-pos p h in delay_core int64n attempt m i eM eI r
