-- ===== src/Repository/Creations.antt =====
-- repository.go: the tests of a write for its action, its ID and its tokens.
use esodm.Prelude.{
  ◌≡◌, ◌≢◌, ◌↔◌, ◌⊎◌, inl, inr, refl, sym, ap, ◌∙◌, Bool, true, false, ◌&&◌, Option, none, some,
  Bytes, if◌then◌else◌,
}
use esodm.Error.{Result, ok, err, reject, validation}
use esodm.Names.{Unicode, validate_id}
use esodm.Bulk.{Action, insert, index, create, update, delete, other}
use esodm.Join.{is_some}
use esodm.Repository.{as_validation}
use esodm.Repository.Writing.{is_insert, creates}

-- A creation, by the server's ID or by a given one.
abbrev pub Creates : Action → Type 0
Creates a = (a ≡ insert) ⊎ (a ≡ create)

creates-Creates : (a : Action) → Creates a → creates a ≡ true
creates-Creates a (inl e) = ap creates e
creates-Creates a (inr e) = ap creates e

Creates-cases : (a : Action) → Creates a ⊎ (creates a ≡ false)
Creates-cases insert = inl (inl refl)
Creates-cases index = inr refl
Creates-cases create = inl (inr refl)
Creates-cases update = inr refl
Creates-cases delete = inr refl
Creates-cases other = inr refl

true_not_false : true ≡ false → ⊥
true_not_false q = cc

pub is_some-none : {A : Type 0} (o : Option A) → is_some o ≡ false → o ≡ none
is_some-none none h = refl
is_some-none (some a) h = absurd (true_not_false h)

-- Only a creation may not have a token.
pub creates_iff :
    {A : Type 0} (a : Action) (o : Option A)
    → ((creates a && is_some o) ≡ false) ↔ ((¬ Creates a) ⊎ (o ≡ none))
creates_iff a o = elim (Creates-cases a) [
  | inl c ↦
      let e = creates-Creates a c in
      (
        (λ q. inr (is_some-none o (sym (ap (λ b. b && is_some o) e) ∙ q))),
        (λ q. elim q [ inl n ↦ absurd (n c) | inr n ↦ ap (λ b. b && is_some o) e ∙ ap is_some n ]),
      )
  | inr e ↦ (
    (λ q. inl (λ c. true_not_false (sym (creates-Creates a c) ∙ e))),
    (λ q. ap (λ b. b && is_some o) e),
  )
]

is_insert-cases : (a : Action) → (a ≡ insert) ⊎ ((a ≢ insert) × (is_insert a ≡ false))
is_insert-cases insert = inl refl
is_insert-cases index = inr ((λ q. cc), refl)
is_insert-cases create = inr ((λ q. cc), refl)
is_insert-cases update = inr ((λ q. cc), refl)
is_insert-cases delete = inr ((λ q. cc), refl)
is_insert-cases other = inr ((λ q. cc), refl)

-- The ID is checked unless the server assigns one.
pub identified_iff :
    (u : Unicode) (a : Action) (id : Bytes)
    → ((if is_insert a then ok tt else validate_id u id) ≡ ok tt)
      ↔ ((a ≡ insert) ⊎ (validate_id u id ≡ ok tt))
identified_iff u a id = elim (is_insert-cases a) [
  | inl e ↦ ((λ q. inl e), (λ q. ap (λ b. if is_insert b then ok tt else validate_id u id) e))
  | inr (n, e) ↦
      let k = ap (λ b. if b then ok tt else validate_id u id) e in
      ((λ q. inr (sym k ∙ q)), (λ q. elim q [ inl i ↦ absurd (n i) | inr v ↦ k ∙ v ]))
]

-- A test that must fail.
pub reject_iff : (b : Bool) → (reject b validation ≡ ok tt) ↔ (b ≡ false)
reject_iff true = ((λ q. cc), (λ q. absurd (true_not_false q)))
reject_iff false = ((λ q. refl), (λ q. refl))

pub as_validation_iff : {A : Type 0} (x : Result A) (a : A) → (as_validation x ≡ ok a) ↔ (x ≡ ok a)
as_validation_iff (err e) a = ((λ q. cc), (λ q. cc))
as_validation_iff (ok b) a = ((λ q. q), (λ q. q))
