-- ===== src/Bulk/Send.antt =====
-- bulk.go: sendBulk, one bulk request and the reading of its answer, and Repository.afterWrite.
use esodm.Prelude.{
  ℕ, zero, suc, ◌+◌, ◌||◌, Option, none, some, List, [], ◌∷◌, Bytes, length, ltb, leb, ◌==◌,
  if◌then◌else◌, pos,
}
use esodm.Error.{Err, Result, ok, err, api, bulk_failed, committed, message}
use esodm.Write.{WriteResult, Refresh}
use esodm.Bulk.{
  Action, Operation, BulkItem, BulkResult, ErrorCause, Entry, Response, Backend, action_eq,
}

abbrev pub some_error : Option Err → ℕ
some_error none = 0
some_error (some e) = 1

-- errorReason
abbrev pub error_reason : ErrorCause → Bytes
error_reason c = elim c.reason [ none ↦ [] | some r ↦ r ]

-- An absent answer: the zero BulkResult.
abbrev pub no_result : BulkResult
no_result = record { took = pos 0; items = [] }

-- if failed > 0 { return out, &BulkError{failed} }
abbrev pub batch_error : ℕ → Option Err
batch_error zero = none
batch_error (suc n) = some (bulk_failed (suc n))

-- entry, ok := item[string(ops[i].Action)]; ok && len(item) == 1
abbrev pub only_entry : Action → List (Action × Entry) → Option Entry
only_entry a ((b, entry) ∷ []) = if action_eq a b then some entry else none
only_entry a _ = none

-- result.Routing = ops[i].Options.Routing
abbrev pub routed : {Doc Patch : Type 0} → Operation Doc Patch → WriteResult → WriteResult
routed op r = record r { metadata = record r.metadata { routing = op.options.routing } }

abbrev pub item : {Doc Patch : Type 0} → Operation Doc Patch → Entry → Option Err → BulkItem
item op entry e = record {
  action = op.action;
  result = routed op entry.result;
  status = entry.status;
  error = e;
}

module _ {Doc Patch : Type 0} (b : Backend Doc Patch) where
  open b use {World, request, after_write}

  -- Repository.afterWrite for a write that succeeded.
  unfoldable pub hook_error : Action → WriteResult → World → Option Err × World
  hook_error a r w =
      let (e, w') = after_write a r w in (elim e [ none ↦ none | some c ↦ some (committed c) ], w')

  -- The outcome of one operation from its entry.
  unfoldable pub outcome : Operation Doc Patch → Entry → World → BulkItem × World
  outcome op entry w = elim entry.error [
    | some c ↦ (
      item op entry
          (some (api (record { status = entry.status; type = c.type; reason = error_reason c }))),
      w,
    )
    | none ↦
        if ltb entry.status 200 || leb 300 entry.status
        then (
          item op entry (some (api (record { status = entry.status; type = []; reason = [] }))),
          w,
        )
        else let (e, w') = hook_error op.action (routed op entry.result) w in (item op entry e, w')
  ]

  -- The loop over response.Items: the items read, the number of failures, and the error of an item
  -- that does not fit its operation, at which the loop stops.
  unfoldable pub collect :
      List (Operation Doc Patch)
      → List (List (Action × Entry))
      → World
      → (List BulkItem × ℕ × Option Err) × World
  collect (op ∷ ops) (entries ∷ rest) w = elim (only_entry op.action entries) [
    | none ↦ (([], 0, some message), w)
    | some entry ↦
        let (x, w1) = outcome op entry w in
        let ((xs, failed, e), w2) = collect ops rest w1 in
        ((x ∷ xs, some_error x.error + failed, e), w2)
  ]
  collect ops rest w = (([], 0, none), w)

  -- The rest of sendBulk, once the request has returned.
  unfoldable pub read_answer :
      List (Operation Doc Patch) → Result Response → World → (BulkResult × Option Err) × World
  read_answer ops (err e) w = ((no_result, some e), w)
  read_answer ops (ok response) w =
      if length response.items == length ops
      then (let ((xs, failed, e), w') = collect ops response.items w in
          (
            (
              record { took = response.took; items = xs },
              elim e [ none ↦ batch_error failed | some m ↦ some m ],
            ),
            w',
          ))
      else ((no_result, some message), w)

  -- sendBulk
  unfoldable pub send_bulk :
      List (Operation Doc Patch) → Bytes → Refresh → World → (BulkResult × Option Err) × World
  send_bulk ops body refresh w =
      let (answer, w') = request refresh body w in read_answer ops answer w'
