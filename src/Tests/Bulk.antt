-- ===== src/Tests/Bulk.antt =====
-- A batch of two operations: the second is refused once with 429 and then accepted.
use esodm.Prelude.{
  ℕ, zero, suc, ◌+◌, ◌≤◌, ◌≡◌, ◌⊎◌, refl, Option, none, some, List, [], ◌∷◌, text, Bytes, pos,
  arith, ap, ◌-◌, All, get_elem?,
}
use esodm.Error.{Err, ok, api, as_api, as_committed, as_bulk, retryable}
use esodm.Retry.{validate, delay}
use esodm.Write.{unset, only_refresh, values}
use esodm.Bulk.{index, Operation, BulkItem, BulkResult, Entry, Response, Backend}
use esodm.Bulk.Send.{send_bulk, collect, outcome, read_answer, hook_error}
use esodm.Bulk.Loop.{
  BulkOptions, no_metadata, bulk_with_options, run_batch, run_prepared, prepare, prepare_one,
  attempts, one_attempt, pause, refuse, store, retry_list, pick, concat, is_fatal, wants_retry,
  failures, count_from,
}
use esodm.Bulk.Loop.Requests.{Counts, bulk-requests}
use esodm.Bulk.Loop.Final.{attempts-final}
use esodm.Bulk.Loop.Order.{actions, actions_of}
use esodm.Bulk.Loop.Results.{bulk-success, bulk-order}

abbrev entry : ℕ → Entry
entry status = record { result = no_metadata; status = status; error = none }

abbrev answer : ℕ → Response
answer zero = record {
  took = pos 2;
  items = ((index, entry 201) ∷ []) ∷ ((index, entry 429) ∷ []) ∷ [];
}
answer (suc n) = record { took = pos 1; items = ((index, entry 201) ∷ []) ∷ [] }

-- The world counts the requests.
abbrev backend : Backend ℕ ℕ
backend = record {
  World = ℕ;
  normalize = λ op. ok op;
  encode = λ op w. (ok (text "{}", op.id), w);
  request = λ r body w. (ok (answer w), w + 1);
  after_write = λ a r w. (none, w);
  ctx_err = λ w. none;
  wait = λ d w. (none, w);
  int64n = λ w. ((λ n. n - 1), w);
}

abbrev operation : Bytes → Operation ℕ ℕ
operation id = record {
  action = index;
  id = id;
  document = 1;
  patch = 0;
  options = only_refresh unset;
}

abbrev batch : List (Operation ℕ ℕ)
batch = operation (text "a") ∷ operation (text "b") ∷ []

abbrev options : BulkOptions
options = record {
  refresh = unset;
  retry = record { max_retries = pos 2; initial_backoff = pos 0; max_backoff = pos 0 };
}

abbrev written : BulkItem
written = record { action = index; result = no_metadata; status = 201; error = none }

abbrev refused : BulkItem
refused = record {
  action = index;
  result = no_metadata;
  status = 429;
  error = some (api (record { status = 429; type = []; reason = [] }));
}

abbrev both : BulkResult
both = record { took = pos 3; items = written ∷ written ∷ [] }

-- Two requests, and both operations written.
retried : bulk_with_options backend batch options 0 ≡ ((both, none), 2)
unfolding bulk_with_options run_batch run_prepared prepare prepare_one attempts one_attempt pause
    refuse validate values send_bulk read_answer collect outcome hook_error store retry_list pick
    concat is_fatal wants_retry failures count_from delay as_api as_committed as_bulk retryable
retried = refl

counted : Counts backend (λ w. w)
counted = record {
  request = λ r body w. refl;
  encode = λ op w. refl;
  after_write = λ a r w. refl;
  wait = λ d w. refl;
  int64n = λ w. refl;
}

bulk-requests_example :
    ((bulk_with_options backend batch options 0).1 ≤ 0 + (2 + 1))
    × ((bulk_with_options backend batch options 0).1 ≤ 0 + 21)
bulk-requests_example = bulk-requests backend (λ w. w) counted batch options 0

bulk-success_example :
    (actions_of (bulk_with_options backend batch options 0).0.0.items ≡ actions backend batch)
    × All (λ x. x.error ≡ none) (bulk_with_options backend batch options 0).0.0.items
bulk-success_example =
    bulk-success backend (λ op op' h. ground arith) batch options 0
      (ap (λ (q : (BulkResult × Option Err) × ℕ). q.0.1) retried)

bulk-order_example :
    let q = (bulk_with_options backend batch options 0).0 in
    (actions_of q.0.items ≡ actions backend batch)
    ⊎ ((q.0.items ≡ []) × ((e : Err) × (q.1 ≡ some e)))
bulk-order_example = bulk-order backend (λ op op' h. ground arith) batch options 0

abbrev start : BulkResult
start = record { took = pos 0; items = refused ∷ refused ∷ [] }

abbrev lines : List Bytes
lines = text "{}" ∷ text "{}" ∷ []

attempts-final_example :
    get_elem?
      (attempts backend options.retry unset batch lines 2 0 (0 ∷ 1 ∷ []) start 0).0.0.items
      0
    ≡ some written
attempts-final_example =
    attempts-final backend options.retry unset batch lines 0 2 0 (0 ∷ 1 ∷ []) start 0 written
      (omega arith) (omega arith)
      (unfold send_bulk read_answer collect outcome hook_error store pick concat in refl)
      (unfold wants_retry in refl)
