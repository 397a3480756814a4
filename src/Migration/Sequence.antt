-- ===== src/Migration/Sequence.antt =====
-- A function that takes a state and returns its latest value beside its result: the migrations
-- return their state beside an error too, so nothing that was recorded is lost by a failure.
use esodm.Prelude.{Bool, true, false}
use esodm.Error.{Err, Result, ok, err}

abbrev pub Step : Type 0 → Type 0 → Type 0 → Type 0
Step S W A = S → W → (S × Result A) × W

module _ {S W : Type 0} where
  -- What follows a step that may have failed.
  abbrev pub proceed : {A B : Type 0} → (A → Step S W B) → (S × Result A) × W → (S × Result B) × W
  proceed next ((s, err e), w) = ((s, err e), w)
  proceed next ((s, ok a), w) = next a s w

  infixl 10 ◌>>=◌ ◌>>◌
  unfoldable pub ◌>>=◌ : {A B : Type 0} → Step S W A → (A → Step S W B) → Step S W B
  ◌>>=◌ m next s w = proceed next (m s w)

  abbrev pub ◌>>◌ : {A B : Type 0} → Step S W A → Step S W B → Step S W B
  m >> n = m >>= λ _. n

  -- A call of the cluster, the current state, an assignment to it, and a returned error.
  abbrev pub called : {A : Type 0} → S → Result A × W → (S × Result A) × W
  called s (r, w) = ((s, r), w)

  unfoldable pub io : {A : Type 0} → (W → Result A × W) → Step S W A
  io m s w = called s (m w)

  unfoldable pub get : Step S W S
  get s w = ((s, ok s), w)

  unfoldable pub modify : (S → S) → Step S W (Unit {0})
  modify f s w = ((f s, ok tt), w)

  unfoldable pub raise : {A : Type 0} → Err → Step S W A
  raise e s w = ((s, err e), w)

  unfoldable pub done : Step S W (Unit {0})
  done s w = ((s, ok tt), w)

  -- if cond { return …, e }
  unfoldable pub fail_if : Bool → Err → Step S W (Unit {0})
  fail_if true e = raise e
  fail_if false e = done

  -- if cond { … }
  unfoldable pub when : Bool → Step S W (Unit {0}) → Step S W (Unit {0})
  when true m = m
  when false m = done
