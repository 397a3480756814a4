-- ===== src/Bulk/Sequence/Batches.antt =====
-- bulk_sequence.go: which batches BulkSeq2 sends.
use esodm.Prelude.{
  ℕ, flatten, append_assoc, ◌≤◌, ◌<◌, ◌≡◌, refl, ◌∙◌, ap, Bool, true, false, Option, none, some,
  List, [], ◌∷◌, ◌++◌, map, length, length-append, All, ◌==◌, if◌then◌else◌, pos, ltb_ℤ, arith,
  Bool-cases, inl, inr,
}
use esodm.Error.{Err}
use esodm.Bulk.{Operation, BulkResult, Backend}
use esodm.Bulk.Loop.{BulkOptions}
use esodm.Bulk.Sequence.{
  BulkStreamOptions, Progress, check_options, size_of, delivered, flush, flushed, flush_full,
  consume, bulk_seq2,
}

module _ {A : Type 0} where
  -- Cuts of a list, after what has been gathered so far.
  abbrev pub batches : ℕ → List A → List A → List (List A)
  batches size [] [] = []
  batches size (a ∷ batch) [] = (a ∷ batch) ∷ []
  batches size batch (x ∷ xs) =
      let full = batches size [] xs in
      let partial = batches size (batch ++ x ∷ []) xs in
      if length (batch ++ x ∷ []) == size then (batch ++ x ∷ []) ∷ full else partial

  abbrev pub Fits : ℕ → List A → Type 0
  Fits size xs = (1 ≤ length xs) × (length xs ≤ size)

  pub flatten-batches :
      (size : ℕ) (batch xs : List A) → flatten (batches size batch xs) ≡ batch ++ xs
  flatten-batches size [] [] = refl
  flatten-batches size (a ∷ batch) [] = refl
  flatten-batches size batch (x ∷ xs) = elim (Bool-cases (length (batch ++ x ∷ []) == size)) [
    | inl e ↦ rw (e, flatten-batches size [] xs) (append_assoc batch (x ∷ []) xs)
    | inr e ↦ rw (e, flatten-batches size (batch ++ x ∷ []) xs) (append_assoc batch (x ∷ []) xs)
  ]

  pub batches-Fits :
      (size : ℕ) (batch xs : List A) → length batch < size → All (Fits size) (batches size batch xs)
  batches-Fits size [] [] h = tt
  batches-Fits size (a ∷ batch) [] h = ((omega arith, omega arith), tt)
  batches-Fits size batch (x ∷ xs) h = elim (Bool-cases (length (batch ++ x ∷ []) == size)) [
    | inl e ↦ rw e (
      (ground (arith, length-append batch (x ∷ [])), ground arith),
      batches-Fits size [] xs (omega arith),
    )
    | inr e ↦
        rw e (batches-Fits size (batch ++ x ∷ []) xs (ground (arith, length-append batch (x ∷ []))))
  ]

module _ {Doc Patch : Type 0} (b : Backend Doc Patch) (options : BulkOptions)
    (on_result : ℕ → BulkResult × Option Err → b.World → Option Err × b.World) where
  abbrev State : Type 0
  State = Progress b options on_result

  -- One batch after another, until a callback fails: the specification of the loop.
  abbrev pub send_all : List (List (Operation Doc Patch)) → State → b.World → Option Err × b.World
  send_all [] p w = (p.first, w)
  send_all (ops ∷ later) p w =
      let ((more, p'), w') = flush b options on_result (record p { batch = ops }) w in
      let rest = send_all later p' w' in if more then rest else (p'.first, w')

  delivered-batch :
      (p : State) (c : Option Err × b.World)
      → p.batch ≡ []
      → ((delivered b options on_result p c).0.1).batch ≡ []
  delivered-batch p (none, w) e = e
  delivered-batch p (some x, w) e = e

  -- A flush empties the batch.
  flush-batch :
      (l : List (Operation Doc Patch)) (n : ℕ) (f : Option Err) (w : b.World)
      → ((flush b options on_result (record { batch = l; sequence = n; first = f }) w).0.1).batch
        ≡ []
  unfolding flush
  flush-batch [] n f w = refl
  flush-batch (x ∷ l) n f w = delivered-batch _ (on_result n _ _) refl

  -- The last flush is one batch, or none.
  flushed-send_all :
      (size : ℕ) (l : List (Operation Doc Patch)) (n : ℕ) (f : Option Err) (w : b.World)
      → flushed b options on_result
          (flush b options on_result (record { batch = l; sequence = n; first = f }) w)
        ≡ send_all (batches size l []) (record { batch = l; sequence = n; first = f }) w
  unfolding flush
  flushed-send_all size [] n f w = refl
  flushed-send_all size (x ∷ l) n f w =
      one_batch (flush b options on_result (record { batch = x ∷ l; sequence = n; first = f }) w)
    where
      one_batch :
          (out : (Bool × State) × b.World)
          → flushed b options on_result out
            ≡ (if out.0.0 then ((out.0.1).first, out.1) else ((out.0.1).first, out.1))
      one_batch ((true, p), v) = refl
      one_batch ((false, p), v) = refl

  -- An operation of a producer that does not fail.
  abbrev pub yielded : Operation Doc Patch → Operation Doc Patch × Option Err
  yielded op = (op, none)

  abbrev NeverDone : Type 0
  NeverDone = (w : b.World) → b.ctx_err w ≡ none

  -- The batch that a flush replaces does not matter.
  send_all-batch :
      (bs : List (List (Operation Doc Patch))) (k l : List (Operation Doc Patch)) (n : ℕ)
      (f : Option Err) (w : b.World)
      → send_all bs (record { batch = k; sequence = n; first = f }) w
        ≡ send_all bs (record { batch = l; sequence = n; first = f }) w
  send_all-batch [] k l n f w = refl
  send_all-batch (_ ∷ bs) k l n f w = refl

  -- The rounds after a flush are those of the later batches.
  later_rounds :
      (size : ℕ) (ops : List (Operation Doc Patch)) (out : (Bool × State) × b.World)
      → (out.0.1).batch ≡ []
      → consume b options on_result size (map yielded ops) (out.0.1) (out.1)
        ≡ send_all (batches size ((out.0.1).batch) ops) (out.0.1) (out.1)
      → (if out.0.0
          then consume b options on_result size (map yielded ops) (out.0.1) (out.1)
          else ((out.0.1).first, out.1))
        ≡ (if out.0.0
            then send_all (batches size [] ops) (out.0.1) (out.1)
            else ((out.0.1).first, out.1))
  later_rounds size ops ((true, p), v) e q = q ∙ ap (λ l. send_all (batches size l ops) p v) e
  later_rounds size ops ((false, p), v) e q = refl

  consume-send_all :
      (size : ℕ) (ops l : List (Operation Doc Patch)) (n : ℕ) (f : Option Err) (w : b.World)
      → NeverDone
      → consume b options on_result size
          (map yielded ops)
          (record { batch = l; sequence = n; first = f })
          w
        ≡ send_all (batches size l ops) (record { batch = l; sequence = n; first = f }) w
  unfolding consume flush_full
  consume-send_all size [] l n f w c = rw (c w) (flushed-send_all size l n f w)
  consume-send_all size (op ∷ ops) l n f w c = elim (Bool-cases (length (l ++ op ∷ []) == size)) [
    | inl e ↦
        let out =
          flush b options on_result (record { batch = l ++ op ∷ []; sequence = n; first = f }) w in
        rw (c w, e)
          (later_rounds size ops out (flush-batch (l ++ op ∷ []) n f w) (
            consume-send_all size ops ((out.0.1).batch) ((out.0.1).sequence) ((out.0.1).first)
              (out.1) c))
    | inr e ↦
        rw (c w, e)
          (consume-send_all size ops (l ++ op ∷ []) n f w c
            ∙ send_all-batch (batches size (l ++ op ∷ []) ops) (l ++ op ∷ []) l n f w)
  ]

-- The options bound the size of a batch.
size_bounds :
    (o : BulkStreamOptions) → check_options o ≡ none → (1 ≤ size_of o) × (size_of o ≤ 10000)
unfolding check_options
size_bounds o h = (ground arith, ground arith)

-- The state before the first operation.
abbrev pub fresh :
    {Doc Patch : Type 0} (b : Backend Doc Patch) (o : BulkStreamOptions)
    (on_result : ℕ → BulkResult × Option Err → b.World → Option Err × b.World)
    → Progress b (record { refresh = o.refresh; retry = o.retry }) on_result
fresh b o on_result = record { batch = []; sequence = 0; first = none }

-- If the options are accepted for one worker and no flush interval, the context is never done and
-- the producer yields operations without an error, BulkSeq2 is the sending of some batches one
-- after another until a callback fails. The batches have 1 to 10000 operations, never more than the
-- batch size, and together are the operations in their order.
pub bulk_seq2-send_all :
    {Doc Patch : Type 0} (b : Backend Doc Patch) (o : BulkStreamOptions)
    (on_result : ℕ → BulkResult × Option Err → b.World → Option Err × b.World)
    (ops : List (Operation Doc Patch)) (w : b.World)
    → check_options o ≡ none
    → ltb_ℤ (pos 1) o.workers ≡ false
    → ltb_ℤ (pos 0) o.flush_interval ≡ false
    → ((v : b.World) → b.ctx_err v ≡ none)
    → (bs : List (List (Operation Doc Patch))) × (flatten bs ≡ ops)
      × All (Fits (size_of o)) bs
      × (size_of o ≤ 10000)
      × (bulk_seq2 b o on_result (map (λ op. (op, none)) ops) w
          ≡ some (
              send_all b
                (record { refresh = o.refresh; retry = o.retry })
                on_result
                bs
                (fresh b o on_result)
                w))
unfolding bulk_seq2
bulk_seq2-send_all b o on_result ops w h k f c = (
  batches (size_of o) [] ops,
  flatten-batches (size_of o) [] ops,
  batches-Fits (size_of o) [] ops ((size_bounds o h).0),
  (size_bounds o h).1,
  rw (bulk_seq2, h, k, f)
      (ap some (
        consume-send_all b (record { refresh = o.refresh; retry = o.retry }) on_result (size_of o)
          ops [] 0 none w c)),
)
