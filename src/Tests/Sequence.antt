-- ===== src/Tests/Sequence.antt =====
-- BulkSeq2 on three operations in batches of two.
use esodm.Prelude.{
  ℕ, flatten, ◌+◌, ◌-◌, ◌≡◌, ◌≤◌, refl, Option, none, some, List, [], ◌∷◌, map, pos, text, Bytes,
  All,
}
use esodm.Error.{Err, ok}
use esodm.Retry.{validate}
use esodm.Write.{unset, only_refresh, values}
use esodm.Bulk.{index, Operation, BulkResult, Entry, Response, Backend}
use esodm.Bulk.Loop.{no_metadata}
use esodm.Bulk.Sequence.{BulkStreamOptions, check_options, bulk_seq2}
use esodm.Bulk.Sequence.Batches.{Fits, send_all, fresh, bulk_seq2-send_all}

abbrev entry : Entry
entry = record { result = no_metadata; status = 201; error = none }

-- An answer with two items.
abbrev answer : Response
answer = record { took = pos 1; items = ((index, entry) ∷ []) ∷ ((index, entry) ∷ []) ∷ [] }

abbrev backend : Backend ℕ ℕ
backend = record {
  World = ℕ;
  normalize = λ op. ok op;
  encode = λ op w. (ok (text "{}", op.id), w);
  request = λ r body w. (ok answer, w + 1);
  after_write = λ a r w. (none, w);
  ctx_err = λ w. none;
  wait = λ d w. (none, w);
  int64n = λ w. ((λ n. n - 1), w);
}

abbrev operation : Bytes → Operation ℕ ℕ
operation id = record {
  action = index;
  id = id;
  document = 1;
  patch = 0;
  options = only_refresh unset;
}

abbrev operations : List (Operation ℕ ℕ)
operations = operation (text "a") ∷ operation (text "b") ∷ operation (text "c") ∷ []

abbrev options : BulkStreamOptions
options = record {
  batch_size = pos 2;
  workers = pos 0;
  queue_size = pos 0;
  flush_interval = pos 0;
  refresh = unset;
  retry = record { max_retries = pos 2; initial_backoff = pos 0; max_backoff = pos 0 };
}

-- The callback accepts every result.
abbrev accept : ℕ → BulkResult × Option Err → ℕ → Option Err × ℕ
accept n r w = (none, w)

bulk_seq2-send_all_example :
    (bs : List (List (Operation ℕ ℕ))) × (flatten bs ≡ operations)
    × All (Fits 2) bs
    × (2 ≤ 10000)
    × (bulk_seq2 backend options accept (map (λ op. (op, none)) operations) 0
        ≡ some (
            send_all backend
              (record { refresh = unset; retry = options.retry })
              accept
              bs
              (fresh backend options accept)
              0))
unfolding check_options validate values
bulk_seq2-send_all_example =
    bulk_seq2-send_all backend options accept operations 0 refl refl refl (λ _. refl)
