-- ===== src/Effect.antt =====
-- A fallible function that reaches the outside: a result and the next world.
use esodm.Prelude.{◌≡◌, refl, Option, none, some}
use esodm.Error.{Err, Result, ok, err}

abbrev pub Effect : Type 0 → Type 0 → Type 0
Effect W A = W → Result A × W

module _ {W : Type 0} where
  abbrev pub proceed : {A B : Type 0} → (A → Effect W B) → Result A × W → Result B × W
  proceed next (err e, w) = (err e, w)
  proceed next (ok a, w) = next a w

  infixl 10 ◌>>=◌ ◌>>◌
  unfoldable pub ◌>>=◌ : {A B : Type 0} → Effect W A → (A → Effect W B) → Effect W B
  ◌>>=◌ m next w = proceed next (m w)

  abbrev pub ◌>>◌ : {A B : Type 0} → Effect W A → Effect W B → Effect W B
  m >> n = m >>= λ _. n

  -- A step that reaches nothing.
  unfoldable pub lift : {A : Type 0} → Result A → Effect W A
  lift r w = (r, w)

  -- A returned error is the result; none is success.
  abbrev pub checked : Option Err × W → Result (Unit {0}) × W
  checked (none, w) = (ok tt, w)
  checked (some e, w) = (err e, w)

  -- If an effect succeeds, so does what it starts with.
  pub bind-ok :
      {A B : Type 0} (m : Effect W A) (next : A → Effect W B) (w : W) (b : B)
      → ((m >>= next) w).0 ≡ ok b
      → (a : A) × ((m w).0 ≡ ok a) × ((next a (m w).1).0 ≡ ok b)
  unfolding ◌>>=◌
  bind-ok {A = A} {B = B} m next w b p = of_result (m w) p
    where
      of_result :
          (r : Result A × W)
          → (proceed next r).0 ≡ ok b
          → (a : A) × (r.0 ≡ ok a) × ((next a (r.1)).0 ≡ ok b)
      of_result (err e, w') q = absurd (apart q)
        where
          apart : err e ≡ ok b → ⊥
          apart q = cc
      of_result (ok a, w') q = (a, refl, q)

  pub lift-ok :
      {A B : Type 0} (r : Result A) (next : A → Effect W B) (w : W) (b : B)
      → ((lift r >>= next) w).0 ≡ ok b
      → (a : A) × (r ≡ ok a) × ((next a w).0 ≡ ok b)
  unfolding ◌>>=◌ lift
  lift-ok r next w b p = bind-ok (lift r) next w b p
