-- ===== src/Bulk/Loop/Requests.antt =====
-- How many bulk requests one call of BulkWithOptions sends.
use esodm.Prelude.{
  Bool, true, false, ℕ, zero, suc, ◌+◌, ◌≤◌, ◌≡◌, refl, Option, List, [], ◌∷◌, Bytes, none, length,
  pos_part, ℤ, arith, Bool-cases, Option-cases, ◌∙◌, inl, inr,
}
use esodm.Error.{Err, Result, ok, err, Result-cases}
use esodm.Retry
use esodm.Retry.{RetryPolicy, validate}
use esodm.Write.{WriteResult, Refresh}
use esodm.Bulk.{Action, Entry, Response, Operation, BulkResult, Backend}
use esodm.Bulk.Send.{routed, only_entry, hook_error, outcome, collect, read_answer, send_bulk}
use esodm.Bulk.Loop.{
  BulkOptions, is_fatal, merge, retry_list, pick, concat, Step, returns, again, pause, one_attempt,
  last, normalized, prepare_one, prepare, attempts, run_prepared, run_batch, refuse,
  bulk_with_options,
}

-- A counter of the bulk requests in the world: only `request` moves it.
pub record Counts {Doc Patch : Type 0} (b : Backend Doc Patch) (count : b.World → ℕ) : Type 0 where
  pub request :
      (r : Refresh) (body : Bytes) (w : b.World) → count (b.request r body w).1 ≡ count w + 1
  pub encode : (op : Operation Doc Patch) (w : b.World) → count (b.encode op w).1 ≡ count w
  pub after_write :
      (a : Action) (r : WriteResult) (w : b.World) → count (b.after_write a r w).1 ≡ count w
  pub wait : (d : ℤ) (w : b.World) → count (b.wait d w).1 ≡ count w
  pub int64n : (w : b.World) → count (b.int64n w).1 ≡ count w

module _ {Doc Patch : Type 0} (b : Backend Doc Patch) (count : b.World → ℕ)
    (c : Counts b count) where
  outcome-count :
      (op : Operation Doc Patch) (entry : Entry) (w : b.World)
      → count (outcome b op entry w).1 ≡ count w
  unfolding outcome hook_error
  outcome-count op entry w = ground (arith, c.after_write op.action (routed op entry.result) w)

  collect-count :
      (ops : List (Operation Doc Patch)) (rest : List (List (Action × Entry))) (w : b.World)
      → count (collect b ops rest w).1 ≡ count w
  unfolding collect
  collect-count [] rest w = refl
  collect-count (op ∷ ops) [] w = refl
  collect-count (op ∷ ops) (es ∷ rest) w = elim (Option-cases (only_entry op.action es)) [
    | inl e ↦ rw (e, collect) refl
    | inr (entry, e) ↦
        rw (e, collect) (collect-count ops rest (outcome b op entry w).1 ∙ outcome-count op entry w)
  ]

  read_answer-count :
      (ops : List (Operation Doc Patch)) (answer : Result Response) (w : b.World)
      → count (read_answer b ops answer w).1 ≡ count w
  unfolding read_answer
  read_answer-count ops (err e) w = refl
  read_answer-count ops (ok response) w = ground (arith, collect-count ops response.items w)

  send_bulk-count :
      (ops : List (Operation Doc Patch)) (body : Bytes) (r : Refresh) (w : b.World)
      → count (send_bulk b ops body r w).1 ≡ count w + 1
  unfolding send_bulk
  send_bulk-count ops body r w =
      let (answer, w') = b.request r body w in read_answer-count ops answer w' ∙ c.request r body w

  -- The world that a step leaves.
  abbrev world_of : Step b → b.World
  world_of (returns q w) = w
  world_of (again retry out w) = w

  pause-count :
      (policy : RetryPolicy) (attempt : ℕ) (retry : List ℕ) (out : BulkResult) (w : b.World)
      → count (world_of (pause b policy attempt retry out w)) ≡ count w
  unfolding pause
  pause-count policy attempt [] out w = refl
  pause-count policy attempt (i ∷ retry) out w =
      let (random, w1) = b.int64n w in
      let d = Retry.delay policy random attempt in
      elim (Option-cases (b.wait d w1).0) [
        | inl e ↦ rw (e, pause) (c.wait d w1 ∙ c.int64n w)
        | inr (x, e) ↦ rw (e, pause) (c.wait d w1 ∙ c.int64n w)
      ]

  module _ (policy : RetryPolicy) (r : Refresh) (prepared : List (Operation Doc Patch))
      (lines : List Bytes) where
    one_attempt-count :
        (allowed : Bool) (attempt : ℕ) (pending : List ℕ) (out : BulkResult) (w : b.World)
        → count (world_of (one_attempt b policy r prepared lines allowed attempt pending out w))
          ≡ count w + 1
    unfolding one_attempt
    one_attempt-count allowed attempt pending out w =
        let ((result, e), w') =
          send_bulk b (pick prepared pending) (concat (pick lines pending)) r w in
        let sent = send_bulk-count (pick prepared pending) (concat (pick lines pending)) r w in
        elim (Bool-cases (is_fatal e)) [
          | inl h ↦ rw (h, one_attempt) sent
          | inr h ↦
              rw (h, one_attempt)
                (pause-count policy attempt (retry_list allowed pending result.items)
                    (merge pending result out) w'
                  ∙ sent)
        ]

    last-count : (s : Step b) → count (last b s).1 ≡ count (world_of s)
    last-count (returns q w) = refl
    last-count (again retry out w) = refl

    attempts-count :
        (left attempt : ℕ) (pending : List ℕ) (out : BulkResult) (w : b.World)
        → count (attempts b policy r prepared lines left attempt pending out w).1
          ≤ count w + left + 1
    unfolding attempts
    attempts-count zero attempt pending out w =
        let s = one_attempt b policy r prepared lines false attempt pending out w in
        omega (arith, last-count s, one_attempt-count false attempt pending out w)
    attempts-count (suc left) attempt pending out w =
        go (one_attempt b policy r prepared lines true attempt pending out w)
          (one_attempt-count true attempt pending out w) (attempts-count left (suc attempt))
      where
        go :
            (s : Step b)
            → count (world_of s) ≡ count w + 1
            → ((p : List ℕ) (o : BulkResult) (w' : b.World)
                → count (attempts b policy r prepared lines left (suc attempt) p o w').1
                  ≤ count w' + left + 1)
            → count
                (elim s as (λ x. (BulkResult × Option Err) × b.World) [
                  | returns q w' ↦ (q, w')
                  | again retry out' w' ↦
                      attempts b policy r prepared lines left (suc attempt) retry out' w'
                ]).1
              ≤ count w + suc left + 1
        go (returns q w') e ih = omega arith
        go (again p o w') e ih = omega (arith, ih p o w')

  prepare_one-count :
      (op : Operation Doc Patch) (w : b.World) → count (prepare_one b op w).1 ≡ count w
  unfolding prepare_one
  prepare_one-count op w = elim (Option-cases (b.ctx_err w)) [
    | inl e ↦ rw (e, prepare_one) (go (b.normalize op))
    | inr (c, e) ↦ rw (e, prepare_one) refl
  ]
    where
      go : (n : Result (Operation Doc Patch)) → count (normalized b n w).1 ≡ count w
      go (err e) = refl
      go (ok op') = c.encode op' w

  prepare-count :
      (total : ℕ) (ops : List (Operation Doc Patch)) (w : b.World)
      → count (prepare b total ops w).1 ≡ count w
  unfolding prepare
  prepare-count total [] w = refl
  prepare-count total (op ∷ ops) w =
      let w' = (prepare_one b op w).1 in
      elim (Result-cases (prepare_one b op w).0) [
        | inl (e, p) ↦ rw (p, prepare) (prepare_one-count op w)
        | inr (x, p) ↦
            rw (p, prepare)
              (ground (arith, prepare_one-count op w, prepare-count (total + length x.1) ops w'))
      ]

  run_prepared-count :
      (n : ℕ) (o : BulkOptions) (p : Result (List (Operation Doc Patch) × List Bytes)) (w : b.World)
      → count (run_prepared b n o p w).1 ≤ count w + pos_part o.retry.max_retries + 1
  unfolding run_prepared
  run_prepared-count n o (err e) w = omega arith
  run_prepared-count n o (ok (prepared, lines)) w =
      attempts-count o.retry o.refresh prepared lines (pos_part o.retry.max_retries) 0 _ _ w

  run_batch-count :
      (ops : List (Operation Doc Patch)) (o : BulkOptions) (w : b.World)
      → count (run_batch b ops o w).1 ≤ count w + pos_part o.retry.max_retries + 1
  unfolding run_batch
  run_batch-count ops o w =
      let (p, w') = prepare b 0 ops w in
      omega (arith, prepare-count 0 ops w, run_prepared-count (length ops) o p w')

  -- A policy that passes the checks retries at most 20 times.
  accepted-max :
      (ops : List (Operation Doc Patch)) (o : BulkOptions)
      → refuse b ops o ≡ none
      → pos_part o.retry.max_retries ≤ 20
  unfolding refuse validate
  accepted-max ops o h = ground arith

  -- BulkWithOptions sends at most MaxRetries + 1 requests, and never more than 21.
  pub bulk-requests :
      (ops : List (Operation Doc Patch)) (o : BulkOptions) (w : b.World)
      → (count (bulk_with_options b ops o w).1 ≤ count w + (pos_part o.retry.max_retries + 1))
        × (count (bulk_with_options b ops o w).1 ≤ count w + 21)
  unfolding bulk_with_options
  bulk-requests ops o w = elim (Option-cases (refuse b ops o)) [
    | inl e ↦
        let n = run_batch-count ops o w in
        let m = accepted-max ops o e in rw (e, bulk_with_options) (omega arith, omega arith)
    | inr (x, e) ↦ rw (e, bulk_with_options) (omega arith, omega arith)
  ]
