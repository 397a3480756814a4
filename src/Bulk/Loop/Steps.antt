-- ===== src/Bulk/Loop/Steps.antt =====
-- One attempt of BulkWithOptions: where the call returns, or how it goes on.
use mathlib.Core.Path.{subst}
use esodm.Prelude.{
  ℕ, zero, suc, ◌≡◌, refl, ◌⊎◌, inl, inr, Bool, true, false, Option, none, some, List, [], ◌∷◌,
  Bytes, Bool-cases, Option-cases, ap,
}
use esodm.Error.{Err}
use esodm.Retry
use esodm.Retry.{RetryPolicy}
use esodm.Write.{Refresh}
use esodm.Bulk.{Operation, BulkResult, Backend}
use esodm.Bulk.Send.{send_bulk}
use esodm.Bulk.Loop.{
  is_fatal, merge, retry_list, pick, concat, Step, returns, again, pause, one_attempt, attempts,
  finish, last,
}

module _ {Doc Patch : Type 0} (b : Backend Doc Patch) where
  -- The call ends with these outcomes: as after the loop, or with an error.
  abbrev pub Ends : BulkResult → BulkResult × Option Err → Type 0
  Ends out q = (q ≡ finish b out) ⊎ ((e : Err) × (q ≡ (out, some e)))

  pub Ends-result : (out : BulkResult) (q : BulkResult × Option Err) → Ends out q → q.0 ≡ out
  Ends-result out q (inl h) = ap (λ (p : BulkResult × Option Err). p.0) h
  Ends-result out q (inr (e, h)) = ap (λ (p : BulkResult × Option Err). p.0) h

  -- A step from merged outcomes and the indices to retry.
  abbrev pub Fits : BulkResult → List ℕ → Step b → Type 0
  Fits out retry (returns q w) = Ends out q
  Fits out retry (again retry' out' w) = (out' ≡ out) × (retry' ≡ retry)

  pause-Fits :
      (policy : RetryPolicy) (attempt : ℕ) (retry : List ℕ) (out : BulkResult) (w : b.World)
      → Fits out retry (pause b policy attempt retry out w)
  unfolding pause
  pause-Fits policy attempt [] out w = inl refl
  pause-Fits policy attempt (i ∷ retry) out w =
      let (random, w1) = b.int64n w in
      let (stop, w2) = b.wait (Retry.delay policy random attempt) w1 in
      elim (Option-cases stop) [
        | inl e ↦ rw (e, pause) (refl, refl)
        | inr (c, e) ↦ rw (e, pause) (inr (c, refl))
      ]

  Step-cases :
      (s : Step b)
      → ((q : BulkResult × Option Err) × (w : b.World) × (s ≡ returns q w))
        ⊎ ((retry : List ℕ) × (out : BulkResult) × (w : b.World) × (s ≡ again retry out w))
  Step-cases (returns q w) = inl (q, w, refl)
  Step-cases (again retry out w) = inr (retry, out, w, refl)

fatal-some : (e : Option Err) → is_fatal e ≡ true → (c : Err) × (e ≡ some c)
unfolding is_fatal
fatal-some none h = cc
fatal-some (some c) h = (c, refl)

module _ {Doc Patch : Type 0} (b : Backend Doc Patch) (policy : RetryPolicy) (r : Refresh)
    (prepared : List (Operation Doc Patch)) (lines : List Bytes) where
  -- The outcomes that an attempt on some indices reports.
  abbrev pub answered : List ℕ → b.World → BulkResult
  answered pending w = (send_bulk b (pick prepared pending) (concat (pick lines pending)) r w).0.0

  one_attempt-Fits :
      (allowed : Bool) (attempt : ℕ) (pending : List ℕ) (out : BulkResult) (w : b.World)
      → Fits b
          (merge pending (answered pending w) out)
          (retry_list allowed pending (answered pending w).items)
          (one_attempt b policy r prepared lines allowed attempt pending out w)
  unfolding one_attempt
  one_attempt-Fits allowed attempt pending out w =
      let ((result, e), w') =
        send_bulk b (pick prepared pending) (concat (pick lines pending)) r w in
      let go =
        pause-Fits b policy attempt (retry_list allowed pending result.items)
          (merge pending result out) w' in
      elim (Bool-cases (is_fatal e)) [
        | inl h ↦
            let (c, p) = fatal-some e h in
            rw (h, one_attempt) (inr (c, ap (λ (x : Option Err). (merge pending result out, x)) p))
        | inr h ↦ rw (h, one_attempt) go
      ]

  -- The rule for the loop: an invariant of the pending indices and the outcomes that every attempt
  -- keeps, and what it gives of the result wherever the call returns.
  pub attempts-induction :
      (P : List ℕ → BulkResult → Type 0) (Q : BulkResult × Option Err → Type 0)
      → ((pending : List ℕ) (out : BulkResult) (w : b.World)
          → P pending out
          → (q : BulkResult × Option Err) → Ends b (merge pending (answered pending w) out) q
          → Q q)
      → ((pending : List ℕ) (out : BulkResult) (w : b.World) (allowed : Bool)
          → P pending out
          → P
              (retry_list allowed pending (answered pending w).items)
              (merge pending (answered pending w) out))
      → (left attempt : ℕ) (pending : List ℕ) (out : BulkResult) (w : b.World) → P pending out
      → Q (attempts b policy r prepared lines left attempt pending out w).0
  unfolding attempts
  attempts-induction P Q ends keeps zero attempt pending out w h =
      last-Q (one_attempt b policy r prepared lines false attempt pending out w)
        (one_attempt-Fits false attempt pending out w)
    where
      last-Q :
          (s : Step b)
          → Fits b
              (merge pending (answered pending w) out)
              (retry_list false pending (answered pending w).items)
              s
          → Q (last b s).0
      last-Q (returns q w') f = ends pending out w h q f
      last-Q (again retry out' w') f =
          ends pending out w h (finish b out') (inl (ap (finish b) f.0))
  attempts-induction P Q ends keeps (suc left) attempt pending out w h =
      elim (Step-cases b (one_attempt b policy r prepared lines true attempt pending out w)) [
        | inl (q, w', e) ↦ rw (e, attempts) (ends pending out w h q (fits e))
        | inr (retry, out', w', e) ↦
            rw (e, attempts)
              (attempts-induction P Q ends keeps left (suc attempt) retry out' w'
                (rw ((fits e).0, (fits e).1) (keeps pending out w true h)))
      ]
    where
      fits :
          {s : Step b}
          → one_attempt b policy r prepared lines true attempt pending out w ≡ s
          → Fits b
              (merge pending (answered pending w) out)
              (retry_list true pending (answered pending w).items)
              s
      fits e = subst (Fits b _ _) e (one_attempt-Fits true attempt pending out w)

  -- The call ends after an attempt, or goes on with the indices to retry.
  pub attempts-cases :
      (left attempt : ℕ) (pending : List ℕ) (out : BulkResult) (w : b.World)
      → Ends b
          (merge pending (answered pending w) out)
          (attempts b policy r prepared lines left attempt pending out w).0
        ⊎ ((l a : ℕ) × (w' : b.World) × ((attempts b policy r prepared lines left attempt pending
                out w).0
              ≡ (attempts b policy r prepared lines l a
                  (retry_list true pending (answered pending w).items)
                  (merge pending (answered pending w) out)
                  w').0))
  unfolding attempts
  attempts-cases zero attempt pending out w = inl (
      last-Ends (one_attempt b policy r prepared lines false attempt pending out w)
        (one_attempt-Fits false attempt pending out w))
    where
      last-Ends :
          (s : Step b)
          → Fits b
              (merge pending (answered pending w) out)
              (retry_list false pending (answered pending w).items)
              s
          → Ends b (merge pending (answered pending w) out) (last b s).0
      last-Ends (returns q w') f = f
      last-Ends (again retry out' w') f = inl (ap (finish b) f.0)
  attempts-cases (suc left) attempt pending out w =
      elim (Step-cases b (one_attempt b policy r prepared lines true attempt pending out w)) [
        | inl (q, w', e) ↦ inl (rw (e, attempts) (fits e))
        | inr (retry, out', w', e) ↦
            inr (left, suc attempt, w', rw (e, attempts) (rw (← (fits e).0, ← (fits e).1) refl))
      ]
    where
      fits :
          {s : Step b}
          → one_attempt b policy r prepared lines true attempt pending out w ≡ s
          → Fits b
              (merge pending (answered pending w) out)
              (retry_list true pending (answered pending w).items)
              s
      fits e = subst (Fits b _ _) e (one_attempt-Fits true attempt pending out w)
