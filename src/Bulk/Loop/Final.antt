-- ===== src/Bulk/Loop/Final.antt =====
-- An item that wants no further attempt keeps its outcome: what was written is never sent again.
use esodm.Prelude.{
  ℕ, ◌<◌, ◌≡◌, ◌≢◌, refl, sym, ◌∙◌, Bool, ◌&&◌, true, false, Option, some, List, [], ◌∷◌, Bytes,
  length, get_elem?, set, All, length-set, get_elem?-set_self, get_elem?-set_ne, arith, Bool-cases,
  inl, inr,
}
use mathlib.Core.Path.{subst}
use esodm.Retry.{RetryPolicy}
use esodm.Write.{Refresh}
use esodm.Bulk.{Operation, BulkItem, BulkResult, Backend}
use esodm.Bulk.Send.{send_bulk}
use esodm.Bulk.Loop.{wants_retry, store, retry_list, merge, pick, concat, attempts}
use esodm.Bulk.Loop.Steps.{answered, Ends-result, attempts-induction, attempts-cases}

-- The indices of a batch are distinct.
abbrev pub Distinct : List ℕ → Type 0
Distinct [] = Unit
Distinct (i ∷ is) = All (λ j. j ≢ i) is × Distinct is

pub retry_list-All :
    (P : ℕ → Type 0) (allowed : Bool) (pending : List ℕ) (xs : List BulkItem)
    → All P pending
    → All P (retry_list allowed pending xs)
unfolding retry_list
retry_list-All P allowed [] xs h = tt
retry_list-All P allowed (i ∷ pending) [] h = tt
retry_list-All P allowed (i ∷ pending) (x ∷ xs) h =
    elim (Bool-cases (allowed && wants_retry x.error)) [
      | inl e ↦ rw e (h.0, retry_list-All P allowed pending xs h.1)
      | inr e ↦ rw e (retry_list-All P allowed pending xs h.1)
    ]

pub retry_list-Distinct :
    (allowed : Bool) (pending : List ℕ) (xs : List BulkItem)
    → Distinct pending
    → Distinct (retry_list allowed pending xs)
unfolding retry_list
retry_list-Distinct allowed [] xs h = tt
retry_list-Distinct allowed (i ∷ pending) [] h = tt
retry_list-Distinct allowed (i ∷ pending) (x ∷ xs) h =
    elim (Bool-cases (allowed && wants_retry x.error)) [
      | inl e ↦ rw e (
        retry_list-All (λ j. j ≢ i) allowed pending xs h.0,
        retry_list-Distinct allowed pending xs h.1,
      )
      | inr e ↦ rw e (retry_list-Distinct allowed pending xs h.1)
    ]

-- Storing outcomes leaves the other items alone.
get_elem?-store :
    (i : ℕ) (pending : List ℕ) (xs items : List BulkItem)
    → All (λ j. j ≢ i) pending
    → get_elem? (store pending xs items) i ≡ get_elem? items i
unfolding store
get_elem?-store i [] xs items h = refl
get_elem?-store i (p ∷ pending) [] items h = refl
get_elem?-store i (p ∷ pending) (x ∷ xs) items h =
    get_elem?-store i pending xs (set items p x) h.1 ∙ get_elem?-set_ne items x h.0

-- The outcome stored at the first index stays there.
store-head :
    (p : ℕ) (pending : List ℕ) (y x : BulkItem) (ys items : List BulkItem)
    → Distinct (p ∷ pending)
    → p < length items
    → get_elem? (store pending ys (set items p y)) p ≡ some x
    → y ≡ x
store-head p pending y x ys items d b h =
    cc (get_elem?-store p pending ys (set items p y) d.0, get_elem?-set_self items p y b)

length-set-All :
    (P : List ℕ) (p : ℕ) (y : BulkItem) (items : List BulkItem)
    → All (λ j. j < length items) P
    → All (λ j. j < length (set items p y)) P
length-set-All P p y items h = rw (length-set items p y) h

-- An index whose stored item wants no retry is not retried.
retry_list-skips :
    (allowed : Bool) (i : ℕ) (pending : List ℕ) (xs items : List BulkItem) (x : BulkItem)
    → Distinct pending
    → All (λ j. j < length items) pending
    → get_elem? (store pending xs items) i ≡ some x
    → wants_retry x.error ≡ false
    → All (λ j. j ≢ i) (retry_list allowed pending xs)
unfolding retry_list store
retry_list-skips allowed i [] xs items x d b h n = tt
retry_list-skips allowed i (p ∷ pending) [] items x d b h n = tt
retry_list-skips allowed i (p ∷ pending) (y ∷ ys) items x d b h n =
    let rest =
      retry_list-skips allowed i pending ys (set items p y) x d.1
        (length-set-All pending p y items b.1) h n in
    elim (Bool-cases (allowed && wants_retry y.error)) [
      | inl e ↦ rw e (p_ne e, rest)
      | inr e ↦ rw e rest
    ]
  where
    p_ne : (allowed && wants_retry y.error) ≡ true → p ≢ i
    p_ne e q =
        let h' = subst (λ k. get_elem? (store pending ys (set items p y)) k ≡ some x) (sym q) h in
        ground (arith, store-head p pending y x ys items d b.0 h')

module _ {Doc Patch : Type 0} (b : Backend Doc Patch) (policy : RetryPolicy) (r : Refresh)
    (prepared : List (Operation Doc Patch)) (lines : List Bytes) where
  -- An item at an index that is not pending keeps its outcome.
  attempts-keeps :
      (i left attempt : ℕ) (pending : List ℕ) (out : BulkResult) (w : b.World) {v : Option BulkItem}
      → All (λ j. j ≢ i) pending
      → get_elem? out.items i ≡ v
      → get_elem? (attempts b policy r prepared lines left attempt pending out w).0.0.items i ≡ v
  attempts-keeps i left attempt pending out w {v} h e =
      attempts-induction b policy r prepared lines
        (λ p o. All (λ j. j ≢ i) p × (get_elem? o.items i ≡ v)) (λ q. get_elem? q.0.items i ≡ v)
        (λ p o w' k q f.
          rw (Ends-result b (merge p (answered b policy r prepared lines p w') o) q f)
            (kept p o w' k))
        (λ p o w' allowed k. (
          retry_list-All (λ j. j ≢ i) allowed p (answered b policy r prepared lines p w').items k.0,
          kept p o w' k,
        ))
        left attempt pending out w (h, e)
    where
      kept :
          (p : List ℕ) (o : BulkResult) (w' : b.World)
          → All (λ j. j ≢ i) p × (get_elem? o.items i ≡ v)
          → get_elem? (merge p (answered b policy r prepared lines p w') o).items i ≡ v
      kept p o w' k =
          get_elem?-store i p (answered b policy r prepared lines p w').items o.items k.0 ∙ k.1

  -- Once an attempt has left an item whose outcome wants no retry (a success, a write that was
  -- committed although its hook failed, a permanent failure), the result of the call holds that
  -- very item, whatever the attempts left, for distinct pending indices within the batch.
  pub attempts-final :
      (i left attempt : ℕ) (pending : List ℕ) (out : BulkResult) (w : b.World) (x : BulkItem)
      → Distinct pending
      → All (λ j. j < length out.items) pending
      → get_elem?
          (merge pending
            (send_bulk b (pick prepared pending) (concat (pick lines pending)) r w).0.0
            out).items
          i
        ≡ some x
      → wants_retry x.error ≡ false
      → get_elem? (attempts b policy r prepared lines left attempt pending out w).0.0.items i
        ≡ some x
  attempts-final i left attempt pending out w x d inside h n =
      let answer = answered b policy r prepared lines pending w in
      elim (attempts-cases b policy r prepared lines left attempt pending out w) [
        | inl f ↦ rw (Ends-result b (merge pending answer out) _ f) h
        | inr (l, a, w', e) ↦ rw e (
            attempts-keeps i l a (retry_list true pending answer.items) (merge pending answer out)
              w' (retry_list-skips true i pending answer.items out.items x d inside h n) h)
      ]
