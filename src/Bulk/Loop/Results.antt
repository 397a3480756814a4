-- ===== src/Bulk/Loop/Results.antt =====
-- The result of BulkWithOptions: one item for each operation, in input order, and an error that
-- tells whether all of them succeeded.
use mathlib.Core.Path.{ap₂}
use esodm.Prelude.{
  ℕ, zero, suc, ◌+◌, ◌<◌, ◌≤◌, ◌≡◌, refl, ◌∙◌, ap, ◌⊎◌, Option, none, some, List, [], ◌∷◌, map,
  Bytes, length, All, length-map, arith, Option-cases, inl, inr, pos, pos_part,
}
use esodm.Error.{Err, Result, ok, err, Result-cases}
use esodm.Retry.{validate}
use esodm.Bulk.{Operation, BulkItem, BulkResult, Backend}
use esodm.Bulk.Send.{no_result}
use esodm.Bulk.Loop.{
  BulkOptions, failures, count_from, unknown_outcome, prepare_one, prepare, run_prepared, run_batch,
  refuse, bulk_with_options,
}
use esodm.Bulk.Loop.Order.{actions, actions_of, Good, attempts-Good}

-- No failure is counted only if no item has an error.
none-failed : (items : List BulkItem) → failures items ≡ 0 → All (λ x. x.error ≡ none) items
unfolding failures
none-failed [] h = tt
none-failed (x ∷ xs) h = elim (Option-cases x.error) [
  | inl e ↦ (e, none-failed xs (ground arith))
  | inr (c, e) ↦ absurd (ground arith)
]

count_from-inside : (i n m : ℕ) → i + n ≤ m → All (λ j. j < m) (count_from i n)
unfolding count_from
count_from-inside i zero m h = tt
count_from-inside i (suc n) m h = (omega arith, count_from-inside (suc i) n m (omega arith))

module _ {Doc Patch : Type 0} (b : Backend Doc Patch) where
  actions-unknown :
      (ops : List (Operation Doc Patch)) → actions_of (map (unknown_outcome b) ops) ≡ actions b ops
  actions-unknown [] = refl
  actions-unknown (op ∷ ops) = ap (λ t. op.action ∷ t) (actions-unknown ops)

  -- The call succeeds, and stands for these operations, or it has no items.
  abbrev Whole : List (Operation Doc Patch) → BulkResult × Option Err → Type 0
  Whole ops q = Good b ops q ⊎ ((q.0.items ≡ []) × ((e : Err) × (q.1 ≡ some e)))

  module _
      (keeps_action : (op op' : Operation Doc Patch)
        → b.normalize op ≡ ok op'
        → op'.action ≡ op.action) where
    -- A batch that is refused without an error is empty.
    refused :
        (ops : List (Operation Doc Patch)) (o : BulkOptions) (q : Option Err)
        → refuse b ops o ≡ some q
        → Whole ops (no_result, q)
    unfolding refuse validate failures
    refused ops o (some e) h = inr (refl, (e, refl))
    refused [] o none h = inl (refl, λ _. refl)
    refused (op ∷ ops) o none h = absurd (ground arith)

    prepare_one-action :
        (op : Operation Doc Patch) (w : b.World) (x : Operation Doc Patch × Bytes)
        → (prepare_one b op w).0 ≡ ok x
        → x.0.action ≡ op.action
    unfolding prepare_one
    prepare_one-action op w x h = elim (Option-cases (b.ctx_err w)) [
      | inl e ↦ elim (Result-cases (b.normalize op)) [
        | inl (c, p) ↦ ground arith
        | inr (op', p) ↦ ground (arith, keeps_action op op' p)
      ]
      | inr (c, e) ↦ ground arith
    ]

    prepare-actions :
        (total : ℕ) (ops : List (Operation Doc Patch)) (w : b.World)
        (x : List (Operation Doc Patch) × List Bytes)
        → (prepare b total ops w).0 ≡ ok x
        → actions b x.0 ≡ actions b ops
    unfolding prepare
    prepare-actions total [] w x h = ground arith
    prepare-actions total (op ∷ ops) w x h =
        let w' = (prepare_one b op w).1 in
        elim (Result-cases (prepare_one b op w).0) [
          | inl (c, p) ↦ ground arith
          | inr (one, p) ↦
              let n = total + length one.1 in
              let head = prepare_one-action op w one p in
              elim (Result-cases (prepare b n ops w').0) [
                | inl (c, q) ↦ ground arith
                | inr (rest, q) ↦
                    let tail = prepare-actions n ops w' rest q in
                    let e : x ≡ (one.0 ∷ rest.0, one.1 ∷ rest.1) = ground arith in
                    rw e (ap₂ (λ a t. a ∷ t) head tail)
              ]
        ]

    run_prepared-Whole :
        (ops : List (Operation Doc Patch)) (o : BulkOptions)
        (p : Result (List (Operation Doc Patch) × List Bytes)) (w : b.World)
        → ((x : List (Operation Doc Patch) × List Bytes) → p ≡ ok x → actions b x.0 ≡ actions b ops)
        → Whole ops (run_prepared b (length ops) o p w).0
    unfolding run_prepared
    run_prepared-Whole ops o (err e) w h = inr (refl, (e, refl))
    run_prepared-Whole ops o (ok (prepared, lines)) w h =
        let same = h (prepared, lines) refl in
        let size : length ops ≡ length prepared = cc (
          length-map (λ (op : Operation Doc Patch). op.action) ops,
          length-map (λ (op : Operation Doc Patch). op.action) prepared,
        ) in
        let (order, success) =
          attempts-Good b o.retry o.refresh prepared lines (pos_part o.retry.max_retries) 0
            (count_from 0 (length ops))
            (record { took = pos 0; items = map (unknown_outcome b) prepared }) w
            (count_from-inside 0 (length ops) (length prepared) (omega arith))
            (actions-unknown prepared) in
        inl (order ∙ same, success)

    bulk-Whole :
        (ops : List (Operation Doc Patch)) (o : BulkOptions) (w : b.World)
        → Whole ops (bulk_with_options b ops o w).0
    unfolding bulk_with_options run_batch
    bulk-Whole ops o w = elim (Option-cases (refuse b ops o)) [
      | inl e ↦
          let (p, w') = prepare b 0 ops w in
          rw (e, bulk_with_options)
            (run_prepared-Whole ops o p w' (λ x h. prepare-actions 0 ops w x h))
      | inr (q, e) ↦ rw (e, bulk_with_options) (refused ops o q e)
    ]

    -- BulkWithOptions returns a nil error only if every operation succeeded; the result then has
    -- one item for each operation, in input order. (normalizeBulk never changes an action.)
    pub bulk-success :
        (ops : List (Operation Doc Patch)) (o : BulkOptions) (w : b.World)
        → (bulk_with_options b ops o w).0.1 ≡ none
        → (actions_of (bulk_with_options b ops o w).0.0.items ≡ actions b ops)
          × All (λ x. x.error ≡ none) (bulk_with_options b ops o w).0.0.items
    bulk-success ops o w h = elim (bulk-Whole ops o w) [
      | inl (order, success) ↦
          (order, none-failed (bulk_with_options b ops o w).0.0.items (success h))
      | inr (e, (c, p)) ↦ cc
    ]

    -- Whatever error BulkWithOptions returns, its items are either none, with an error, or one for
    -- each operation in input order.
    pub bulk-order :
        (ops : List (Operation Doc Patch)) (o : BulkOptions) (w : b.World)
        → let q = (bulk_with_options b ops o w).0 in
          (actions_of q.0.items ≡ actions b ops) ⊎ ((q.0.items ≡ []) × ((e : Err) × (q.1 ≡ some e)))
    bulk-order ops o w = elim (bulk-Whole ops o w) [ inl (order, _) ↦ inl order | inr x ↦ inr x ]
