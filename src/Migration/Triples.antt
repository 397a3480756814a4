-- ===== src/Migration/Triples.antt =====
-- Rules to reason about the steps of a migration: from a precondition, a step ends in one
-- postcondition when it returns a value and in another when it returns an error.
use esodm.Prelude.{Bool, true, false, ◌≡◌, refl}
use esodm.Error.{Err, Result, ok, err}
use esodm.Migration.Sequence.{
  Step, proceed, called, ◌>>=◌, io, get, modify, raise, done, fail_if, when,
}

module _ {S W : Type 0} where
  -- What holds of an outcome.
  abbrev pub Ends :
      {A : Type 0} → (A → S → W → Type 0) → (S → W → Type 0) → (S × Result A) × W → Type 0
  Ends Q E ((s, ok a), w) = Q a s w
  Ends Q E ((s, err e), w) = E s w

  abbrev pub Triple :
      {A : Type 0}
      → (S → W → Type 0)
      → Step S W A
      → (A → S → W → Type 0)
      → (S → W → Type 0)
      → Type 0
  Triple P m Q E = (s : S) (w : W) → P s w → Ends Q E (m s w)

  proceed_rule :
      {A B : Type 0} (Q : A → S → W → Type 0) (R : B → S → W → Type 0) (E : S → W → Type 0)
      (k : A → Step S W B)
      → ((a : A) → Triple (Q a) (k a) R E)
      → (out : (S × Result A) × W) → Ends Q E out
      → Ends R E (proceed k out)
  proceed_rule Q R E k f ((s, ok a), w) q = f a s w q
  proceed_rule Q R E k f ((s, err e), w) q = q

  pub bind_rule :
      {A B : Type 0} (P : S → W → Type 0) (Q : A → S → W → Type 0) (R : B → S → W → Type 0)
      (E : S → W → Type 0) (m : Step S W A) (k : A → Step S W B)
      → Triple P m Q E
      → ((a : A) → Triple (Q a) (k a) R E)
      → Triple P (m >>= k) R E
  unfolding ◌>>=◌
  bind_rule P Q R E m k f g s w p = proceed_rule Q R E k g (m s w) (f s w p)

  called_rule :
      {A : Type 0} (P : S → W → Type 0) (s : S) (out : Result A × W)
      → P s (out.1)
      → Ends (λ _. P) P (called s out)
  called_rule P s (ok a, w) p = p
  called_rule P s (err e, w) p = p

  -- A call that keeps a property of the world.
  pub io_rule :
      {A : Type 0} (P : S → W → Type 0) (m : W → Result A × W)
      → ((s : S) (w : W) → P s w → P s ((m w).1))
      → Triple P (io m) (λ _. P) P
  unfolding io
  io_rule P m f s w p = called_rule P s (m w) (f s w p)

  pub get_rule : (P E : S → W → Type 0) → Triple P get (λ t s w. (t ≡ s) × P s w) E
  unfolding get
  get_rule P E s w p = (refl, p)

  pub modify_rule :
      (P Q E : S → W → Type 0) (f : S → S)
      → ((s : S) (w : W) → P s w → Q (f s) w)
      → Triple P (modify f) (λ _. Q) E
  unfolding modify
  modify_rule P Q E f g s w p = g s w p

  pub fail_if_rule : (P : S → W → Type 0) (b : Bool) (e : Err) → Triple P (fail_if b e) (λ _. P) P
  unfolding fail_if raise done
  fail_if_rule P true e s w p = p
  fail_if_rule P false e s w p = p

  pub when_rule :
      (P E : S → W → Type 0) (b : Bool) (m : Step S W (Unit {0}))
      → Triple P m (λ _. P) E
      → Triple P (when b m) (λ _. P) E
  unfolding when done
  when_rule P E true m f s w p = f s w p
  when_rule P E false m f s w p = p

  -- A property that a step keeps, whatever it returns.
  abbrev pub Keeps : {A : Type 0} → (S → W → Type 0) → Step S W A → Type 0
  Keeps P m = Triple P m (λ _. P) P

  pub then-Keeps :
      {A B : Type 0} (P : S → W → Type 0) (m : Step S W A) (k : A → Step S W B)
      → Keeps P m
      → ((a : A) → Keeps P (k a))
      → Keeps P (m >>= k)
  then-Keeps P m k = bind_rule P (λ _. P) (λ _. P) P m k

  pub get-Keeps :
      {B : Type 0} (P : S → W → Type 0) (k : S → Step S W B)
      → ((t : S) → Keeps P (k t))
      → Keeps P (get >>= k)
  get-Keeps P k f =
      bind_rule P (λ t s w. (t ≡ s) × P s w) (λ _. P) P get k (get_rule P P)
        (λ t s w q. f t s w (q.1))

  Ends-weaken :
      {A : Type 0} (Q R : A → S → W → Type 0) (E F : S → W → Type 0)
      → ((a : A) (s : S) (w : W) → Q a s w → R a s w)
      → ((s : S) (w : W) → E s w → F s w)
      → (out : (S × Result A) × W) → Ends Q E out
      → Ends R F out
  Ends-weaken Q R E F f g ((s, ok a), w) q = f a s w q
  Ends-weaken Q R E F f g ((s, err e), w) q = g s w q

  pub weaken_rule :
      {A : Type 0} (P : S → W → Type 0) (Q R : A → S → W → Type 0) (E F : S → W → Type 0)
      (m : Step S W A)
      → ((a : A) (s : S) (w : W) → Q a s w → R a s w)
      → ((s : S) (w : W) → E s w → F s w)
      → Triple P m Q E
      → Triple P m R F
  weaken_rule P Q R E F m f g t s w p = Ends-weaken Q R E F f g (m s w) (t s w p)

  -- The failures of a step that keeps a property satisfy what follows from it.
  pub keeps_rule :
      {A : Type 0} (P E : S → W → Type 0) (m : Step S W A)
      → ((s : S) (w : W) → P s w → E s w)
      → Keeps P m
      → Triple P m (λ _. P) E
  keeps_rule P E m f = weaken_rule P (λ _. P) (λ _. P) P E m (λ _ s w q. q) f

  -- After a test that passed, its condition is false.
  pub passed_rule :
      (P : S → W → Type 0) (b : Bool) (e : Err)
      → Triple P (fail_if b e) (λ _ s w. (b ≡ false) × P s w) P
  unfolding fail_if raise done
  passed_rule P true e s w p = p
  passed_rule P false e s w p = (refl, p)
