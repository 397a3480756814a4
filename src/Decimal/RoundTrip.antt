-- ===== src/Decimal/RoundTrip.antt =====
-- What is printed is read back, and consists of digits.
use esodm.Prelude.{
  ℕ, zero, suc, ◌+◌, ◌-◌, ◌*◌, ◌/◌, ◌%◌, ◌^◌, ◌≤◌, ◌<◌, ◌≡◌, refl, inl, inr, some, [], ◌∷◌, ◌++◌,
  Bytes, All, ltb, pos, arith, Bool-cases, All-append, append_cons-ne, ap, ◌≢◌,
}
use esodm.Decimal.{is_digit, digits_value, atoi, decimal_fuel, decimal}

abbrev pub IsDigit : ℕ → Type 0
IsDigit c = (48 ≤ c) × (c ≤ 57)

-- One more digit at the end.
digits_value-snoc :
    (acc : ℕ) (xs : Bytes) (d n : ℕ)
    → digits_value acc xs ≡ some n
    → IsDigit d
    → digits_value acc (xs ++ d ∷ []) ≡ some (n * 10 + (d - 48))
unfolding digits_value
digits_value-snoc acc [] d n h k = ground arith
digits_value-snoc acc (x ∷ xs) d n h k = elim (Bool-cases (is_digit x)) [
  | inl e ↦ ground (arith, digits_value-snoc (acc * 10 + (x - 48)) xs d n)
  | inr e ↦ ground arith
]

digits_value-decimal_fuel : (f n : ℕ) → n < f → digits_value 0 (decimal_fuel f n) ≡ some n
unfolding decimal_fuel
digits_value-decimal_fuel zero n h = elim h [ ]
digits_value-decimal_fuel (suc f) n h = elim (Bool-cases (ltb n 10)) [
  | inl e ↦ rw e (unfold digits_value in ground arith)
  | inr e ↦
      rw
        (
          e,
          digits_value-snoc 0 (decimal_fuel f (n / 10)) (48 + n % 10) (n / 10)
              (digits_value-decimal_fuel f (n / 10) (ground arith)) (omega arith, omega arith),
        )
        (ap some (omega arith))
]

-- Every byte that is printed is a digit.
decimal_fuel-digits : (f n : ℕ) → All IsDigit (decimal_fuel f n)
unfolding decimal_fuel
decimal_fuel-digits zero n = tt
decimal_fuel-digits (suc f) n = elim (Bool-cases (ltb n 10)) [
  | inl e ↦ rw e ((omega arith, ground arith), tt)
  | inr e ↦ rw e (
      All-append IsDigit (decimal_fuel f (n / 10)) ((48 + n % 10) ∷ [])
        (decimal_fuel-digits f (n / 10)) ((omega arith, omega arith), tt))
]

pub decimal-digits : (n : ℕ) → All IsDigit (decimal n)
unfolding decimal
decimal-digits n = decimal_fuel-digits (suc n) n

decimal_fuel-ne : (f n : ℕ) → decimal_fuel (suc f) n ≢ []
unfolding decimal_fuel
decimal_fuel-ne f n = elim (Bool-cases (ltb n 10)) [
  | inl e ↦ rw e (λ h. cc)
  | inr e ↦ rw e (append_cons-ne (decimal_fuel f (n / 10)) (48 + n % 10) [])
]

atoi-digits :
    (n : ℕ) (xs : Bytes)
    → All IsDigit xs
    → xs ≢ []
    → digits_value 0 xs ≡ some n
    → n < 2 ^ 63
    → atoi xs ≡ some (pos n)
unfolding atoi
atoi-digits n [] d ne v h = absurd (ne refl)
atoi-digits n (c ∷ xs) d ne v h = ground arith

-- Atoi reads back the digits of a number that fits 63 bits.
pub atoi-decimal : (n : ℕ) → n < 2 ^ 63 → atoi (decimal n) ≡ some (pos n)
unfolding decimal
atoi-decimal n h =
    atoi-digits n (decimal n) (decimal-digits n) (decimal_fuel-ne n n)
      (digits_value-decimal_fuel (suc n) n (omega arith)) h
