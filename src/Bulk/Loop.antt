-- ===== src/Bulk/Loop.antt =====
-- bulk_retry.go: BulkWithOptions, the preparation of a batch and the loop over its attempts.
-- Indices into the batch are always in range; one out of range, where Go panics, is skipped.
pub mod Requests
pub mod Final
pub mod Steps
pub mod Order
pub mod Results
use esodm.Prelude.{
  ℕ, zero, suc, ◌+◌, ◌*◌, Bool, true, false, not, ◌&&◌, Option, none, some, List, [], ◌∷◌, ◌++◌,
  map, Bytes, length, get_elem?, set, ltb, if◌then◌else◌, ℤ, pos, pos_part, ◌+ℤ◌,
}
use esodm.Error.{
  Err, Result, ok, err, ApiError, message, retryable, as_api, as_committed, as_bulk, reject,
  validation, sentinel,
}
use esodm.Retry
use esodm.Retry.{RetryPolicy}
use esodm.Write.{Metadata, WriteResult, Refresh, values, only_refresh}
use esodm.Bulk.{Operation, BulkItem, BulkResult, Backend}
use esodm.Bulk.Send.{some_error, no_result, batch_error, send_bulk}

-- BulkOptions
pub record BulkOptions : Type 0 where
  pub refresh : Refresh
  pub retry : RetryPolicy

-- attempt < MaxRetries && !errors.As(err, &committed) && errors.As(err, &e) && e.Retryable(),
-- without its first test.
unfoldable pub wants_retry : Option Err → Bool
wants_retry none = false
wants_retry (some e) =
    not (as_committed e) && elim (as_api e) [ none ↦ false | some a ↦ retryable a ]

-- err != nil && !errors.As(err, &itemError)
unfoldable pub is_fatal : Option Err → Bool
is_fatal none = false
is_fatal (some e) = not (as_bulk e)

-- out.Items[pending[j]] = result.Items[j]
unfoldable pub store : List ℕ → List BulkItem → List BulkItem → List BulkItem
store (i ∷ pending) (x ∷ xs) items = store pending xs (set items i x)
store _ _ items = items

-- out.Took += result.Took, and the outcomes of an attempt stored at their indices.
abbrev pub merge : List ℕ → BulkResult → BulkResult → BulkResult
merge pending result out = record {
  took = out.took +ℤ result.took;
  items = store pending result.items out.items;
}

-- The indices of the items that another attempt may mend; `allowed` is attempt < MaxRetries.
unfoldable pub retry_list : Bool → List ℕ → List BulkItem → List ℕ
retry_list allowed (i ∷ pending) (x ∷ xs) =
    let rest = retry_list allowed pending xs in
    if allowed && wants_retry x.error then i ∷ rest else rest
retry_list allowed _ _ = []

-- prepared[i], lines[i] for the indices i of a list
unfoldable pub pick {ℓ} : {A : Type ℓ} → List A → List ℕ → List A
pick xs [] = []
pick xs (i ∷ is) =
    let rest = pick xs is in elim (get_elem? xs i) [ none ↦ rest | some x ↦ x ∷ rest ]

unfoldable pub concat : List Bytes → Bytes
concat [] = []
concat (l ∷ ls) = l ++ concat ls

-- The number of items with an error.
unfoldable pub failures : List BulkItem → ℕ
failures [] = 0
failures (x ∷ xs) = some_error x.error + failures xs

-- pending[i] = i
unfoldable pub count_from : ℕ → ℕ → List ℕ
count_from i zero = []
count_from i (suc n) = i ∷ count_from (suc i) n

-- The lines of one operation, each ended by a newline.
abbrev pub encoded : Bytes → Bytes → Bytes
encoded header [] = header ++ b'\n' ∷ []
encoded header (c ∷ body) = header ++ b'\n' ∷ (c ∷ body) ++ b'\n' ∷ []

abbrev pub max_operations : ℕ
max_operations = 10000

abbrev pub max_bytes : ℕ
max_bytes = 16 * 1024 * 1024

abbrev pub no_metadata : WriteResult
no_metadata = record {
  metadata = record {
    index = [];
    id = [];
    routing = [];
    seq_no = none;
    primary_term = none;
    version = pos 0;
  };
  result = [];
  total = pos 0;
  successful = pos 0;
  failed = pos 0;
}

module _ {Doc Patch : Type 0} (b : Backend Doc Patch) where
  open b use {World, normalize, encode, ctx_err, wait, int64n}

  abbrev pub Ops : Type 0
  Ops = List (Operation Doc Patch)

  abbrev pub add_line :
      Operation Doc Patch → Result (Bytes × Bytes) → Result (Operation Doc Patch × Bytes)
  add_line op (err e) = err e
  add_line op (ok (header, body)) = ok (op, encoded header body)

  abbrev pub normalized :
      Result (Operation Doc Patch) → World → Result (Operation Doc Patch × Bytes) × World
  normalized (err e) w = (err e, w)
  normalized (ok op) w = let (encoding, w') = encode op w in (add_line op encoding, w')

  -- One round of the first loop, up to the encoded lines.
  unfoldable pub prepare_one :
      Operation Doc Patch → World → Result (Operation Doc Patch × Bytes) × World
  prepare_one op w = elim (ctx_err w) [ some e ↦ (err e, w) | none ↦ normalized (normalize op) w ]

  abbrev pub add_prepared :
      Operation Doc Patch → Bytes → Result (Ops × List Bytes) → Result (Ops × List Bytes)
  add_prepared op line (err e) = err e
  add_prepared op line (ok (prepared, lines)) = ok (op ∷ prepared, line ∷ lines)

  -- The first loop: the prepared operations and their lines, or the first error.
  unfoldable pub prepare : ℕ → Ops → World → Result (Ops × List Bytes) × World
  prepare total [] w = (ok ([], []), w)
  prepare total (op ∷ ops) w =
      let (one, w1) = prepare_one op w in
      elim one [
        | err e ↦ (err e, w1)
        | ok (op', line) ↦
            let (rest, w2) = prepare (total + length line) ops w1 in
            if ltb max_bytes (total + length line)
            then (err (sentinel validation), w1)
            else (add_prepared op' line rest, w2)
      ]

  -- The items before the first attempt.
  abbrev pub unknown_outcome : Operation Doc Patch → BulkItem
  unknown_outcome op = record {
    action = op.action;
    result = no_metadata;
    status = 0;
    error = some message;
  }

  -- The end of BulkWithOptions, after the loop.
  abbrev pub finish : BulkResult → BulkResult × Option Err
  finish out = (out, batch_error (failures out.items))

  -- What follows an attempt: the call returns, or another attempt starts after the delay.
  pub data Step : Type 0 where
    returns : BulkResult × Option Err → World → Step
    again : List ℕ → BulkResult → World → Step

  -- The second half of the loop's body.
  unfoldable pub pause : RetryPolicy → ℕ → List ℕ → BulkResult → World → Step
  pause policy attempt [] out w = returns (finish out) w
  pause policy attempt (i ∷ retry) out w =
      let (random, w1) = int64n w in
      let (stop, w2) = wait (Retry.delay policy random attempt) w1 in
      elim stop [ some c ↦ returns (out, some c) w2 | none ↦ again (i ∷ retry) out w2 ]

  -- The body of the loop.
  unfoldable pub one_attempt :
      RetryPolicy → Refresh → Ops → List Bytes → Bool → ℕ → List ℕ → BulkResult → World → Step
  one_attempt policy refresh prepared lines allowed attempt pending out w =
      let ((result, e), w') =
        send_bulk b (pick prepared pending) (concat (pick lines pending)) refresh w in
      let out' = merge pending result out in
      elim (is_fatal e) [
        | true ↦ returns (out', e) w'
        | false ↦ pause policy attempt (retry_list allowed pending result.items) out' w'
      ]

  -- With no attempt left nothing is retried, so the second clause is never reached.
  abbrev pub last : Step → (BulkResult × Option Err) × World
  last (returns q w) = (q, w)
  last (again retry out w) = (finish out, w)

  -- The loop: `left` is MaxRetries - attempt.
  unfoldable pub attempts :
      RetryPolicy
      → Refresh
      → Ops
      → List Bytes
      → ℕ
      → ℕ
      → List ℕ
      → BulkResult
      → World
      → (BulkResult × Option Err) × World
  attempts policy refresh prepared lines zero attempt pending out w =
      last (one_attempt policy refresh prepared lines false attempt pending out w)
  attempts policy refresh prepared lines (suc left) attempt pending out w =
      elim (one_attempt policy refresh prepared lines true attempt pending out w) [
        | returns q w' ↦ (q, w')
        | again retry out' w' ↦
            attempts policy refresh prepared lines left (suc attempt) retry out' w'
      ]

  -- The attempts on what was prepared, or the error of the preparation.
  unfoldable pub run_prepared :
      ℕ → BulkOptions → Result (Ops × List Bytes) → World → (BulkResult × Option Err) × World
  run_prepared n options (err e) w = ((no_result, some e), w)
  run_prepared n options (ok (prepared, lines)) w =
      attempts options.retry options.refresh prepared lines (pos_part options.retry.max_retries) 0
        (count_from 0 n) (record { took = pos 0; items = map unknown_outcome prepared }) w

  -- After the checks: prepare everything, then run the attempts.
  unfoldable pub run_batch : Ops → BulkOptions → World → (BulkResult × Option Err) × World
  run_batch ops options w =
      let (preparation, w') = prepare 0 ops w in run_prepared (length ops) options preparation w'

  -- The checks that end the call before anything is prepared: an error, or an empty batch.
  unfoldable pub refuse : Ops → BulkOptions → Option (Option Err)
  refuse ops options = elim (Retry.validate options.retry) [
    | err e ↦ some (some e)
    | ok _ ↦ elim (values (only_refresh options.refresh)) [
      | err e ↦ some (some e)
      | ok _ ↦
          if ltb 0 (length ops)
          then (if ltb max_operations (length ops) then some (some (sentinel validation)) else none)
          else some none
    ]
  ]

  -- BulkWithOptions
  unfoldable pub bulk_with_options : Ops → BulkOptions → World → (BulkResult × Option Err) × World
  bulk_with_options ops options w = elim (refuse ops options) [
    | some e ↦ ((no_result, e), w)
    | none ↦ run_batch ops options w
  ]
