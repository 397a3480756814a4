-- ===== src/Bulk/Loop/Order.antt =====
-- The items of an answer stand for the operations that were sent, through every attempt.
use esodm.Prelude.{
  ℕ, zero, suc, ◌<◌, ◌≡◌, refl, ◌∙◌, ap, sym, Option, none, some, List, [], ◌∷◌, map, Bytes, length,
  get_elem?, set, All, ◌==◌, arith, Option-cases, inl, inr, Bool-cases,
}
use esodm.Error.{Err, Result, ok, err}
use esodm.Retry.{RetryPolicy}
use esodm.Write.{Refresh}
use esodm.Bulk.{Action, Entry, Response, Operation, BulkItem, BulkResult, Backend}
use esodm.Bulk.Send.{batch_error, only_entry, outcome, collect, read_answer, send_bulk}
use esodm.Bulk.Loop.{store, merge, pick, concat, failures, attempts}
use esodm.Bulk.Loop.Steps.{Ends, answered, attempts-induction}
use esodm.Bulk.Loop.Final.{retry_list-All}

-- Outcomes that stand for the operations at the given indices, as far as they go.
abbrev Matches : List Action → List ℕ → List BulkItem → Type 0
Matches actions (i ∷ pending) (x ∷ xs) =
    (get_elem? actions i ≡ some x.action) × Matches actions pending xs
Matches actions _ _ = Unit

abbrev pub actions_of : List BulkItem → List Action
actions_of = map (λ x. x.action)

map-set {ℓ κ} :
    {A : Type ℓ} {B : Type κ} (f : A → B) (xs : List A) (i : ℕ) (v : A)
    → map f (set xs i v) ≡ set (map f xs) i (f v)
map-set f [] i v = refl
map-set f (x ∷ xs) zero v = refl
map-set f (x ∷ xs) (suc i) v = ap (λ t. f x ∷ t) (map-set f xs i v)

set_same {ℓ} :
    {A : Type ℓ} (xs : List A) (i : ℕ) (v : A) → get_elem? xs i ≡ some v → set xs i v ≡ xs
set_same [] i v h = refl
set_same (x ∷ xs) zero v h = cc
set_same (x ∷ xs) (suc i) v h = ap (λ t. x ∷ t) (set_same xs i v h)

-- Storing outcomes at their own indices changes no action.
actions-store :
    (pending : List ℕ) (xs items : List BulkItem)
    → Matches (actions_of items) pending xs
    → actions_of (store pending xs items) ≡ actions_of items
unfolding store
actions-store [] xs items m = refl
actions-store (i ∷ pending) [] items m = refl
actions-store (i ∷ pending) (x ∷ xs) items m =
    let same =
      map-set (λ (y : BulkItem). y.action) items i x ∙ set_same (actions_of items) i x.action m.0 in
    actions-store pending xs (set items i x) (rw same m.1) ∙ same

module _ {Doc Patch : Type 0} (b : Backend Doc Patch) where
  abbrev pub Ops : Type 0
  Ops = List (Operation Doc Patch)

  abbrev pub actions : Ops → List Action
  actions = map (λ op. op.action)

  outcome-action :
      (op : Operation Doc Patch) (entry : Entry) (w : b.World)
      → (outcome b op entry w).0.action ≡ op.action
  unfolding outcome
  outcome-action op entry w = ground arith

  get_elem?-action :
      (ops : Ops) (i : ℕ) (op : Operation Doc Patch)
      → get_elem? ops i ≡ some op
      → get_elem? (actions ops) i ≡ some op.action
  get_elem?-action [] i op h = cc
  get_elem?-action (o ∷ ops) zero op h =
      ap (λ (x : Option (Operation Doc Patch)). elim x [ none ↦ none | some y ↦ some y.action ]) h
  get_elem?-action (o ∷ ops) (suc i) op h = get_elem?-action ops i op h

  get_elem?-inside :
      (ops : Ops) (i : ℕ)
      → i < length ops
      → (op : Operation Doc Patch) × (get_elem? ops i ≡ some op)
  get_elem?-inside [] i h = elim h [ ]
  get_elem?-inside (o ∷ ops) zero h = (o, refl)
  get_elem?-inside (o ∷ ops) (suc i) h = get_elem?-inside ops i (omega arith)

  -- The items of an answer stand for the operations that were sent.
  collect-Matches :
      (ops : Ops) (pending : List ℕ) (rest : List (List (Action × Entry))) (w : b.World)
      → All (λ j. j < length ops) pending
      → Matches (actions ops) pending (collect b (pick ops pending) rest w).0.0
  unfolding collect pick
  collect-Matches ops [] rest w h = tt
  collect-Matches ops (i ∷ pending) [] w h =
      let (op, e) = get_elem?-inside ops i h.0 in rw (e, pick) tt
  collect-Matches ops (i ∷ pending) (es ∷ rest) w h =
      let (op, e) = get_elem?-inside ops i h.0 in
      elim (Option-cases (only_entry op.action es)) [
        | inl p ↦ rw (e, pick) (rw (p, collect) tt)
        | inr (entry, p) ↦
            rw (e, pick)
              (rw (p, collect)
                (
                  get_elem?-action ops i op e ∙ ap some (sym (outcome-action op entry w)),
                  collect-Matches ops pending rest (outcome b op entry w).1 h.1,
                ))
      ]

  read_answer-Matches :
      (ops : Ops) (pending : List ℕ) (answer : Result Response) (w : b.World)
      → All (λ j. j < length ops) pending
      → Matches (actions ops) pending (read_answer b (pick ops pending) answer w).0.0.items
  unfolding read_answer
  read_answer-Matches ops [] (err e) w h = tt
  read_answer-Matches ops (i ∷ pending) (err e) w h = tt
  read_answer-Matches ops pending (ok response) w h =
      elim (Bool-cases (length response.items == length (pick ops pending))) [
        | inl e ↦ rw (e, read_answer) (collect-Matches ops pending response.items w h)
        | inr e ↦ rw (e, read_answer) (nothing pending)
      ]
    where
      nothing : (is : List ℕ) → Matches (actions ops) is []
      nothing [] = tt
      nothing (i ∷ is) = tt

  -- What holds of a result: its items stand for the operations, and a nil error means no failure.
  abbrev pub Good : Ops → BulkResult × Option Err → Type 0
  Good ops q = (actions_of q.0.items ≡ actions ops) × (q.1 ≡ none → failures q.0.items ≡ 0)

  Ends-Good :
      (ops : Ops) (out : BulkResult) (q : BulkResult × Option Err)
      → actions_of out.items ≡ actions ops
      → Ends b out q
      → Good ops q
  Ends-Good ops out q a (inl e) = rw e (a, batch_error-none (failures out.items))
    where
      batch_error-none : (n : ℕ) → batch_error n ≡ none → n ≡ 0
      batch_error-none zero h = refl
      batch_error-none (suc n) h = cc
  Ends-Good ops out q a (inr (e, p)) = rw p (a, λ h. cc)

  pub attempts-Good :
      (policy : RetryPolicy) (r : Refresh) (prepared : Ops) (lines : List Bytes) (left attempt : ℕ)
      (pending : List ℕ) (out : BulkResult) (w : b.World)
      → All (λ j. j < length prepared) pending
      → actions_of out.items ≡ actions prepared
      → Good prepared (attempts b policy r prepared lines left attempt pending out w).0
  attempts-Good policy r prepared lines left attempt pending out w h a =
      attempts-induction b policy r prepared lines
        (λ p o. All (λ j. j < length prepared) p × (actions_of o.items ≡ actions prepared))
        (Good prepared)
        (λ p o w' k q f.
          Ends-Good prepared (merge p (answered b policy r prepared lines p w') o) q (kept p o w' k)
            f)
        (λ p o w' allowed k. (
          retry_list-All (λ j. j < length prepared) allowed p
              (answered b policy r prepared lines p w').items k.0,
          kept p o w' k,
        ))
        left attempt pending out w (h, a)
    where
      kept :
          (p : List ℕ) (o : BulkResult) (w' : b.World)
          → All (λ j. j < length prepared) p × (actions_of o.items ≡ actions prepared)
          → actions_of (merge p (answered b policy r prepared lines p w') o).items
            ≡ actions prepared
      kept p o w' k =
          let (answer, w1) = b.request r (concat (pick lines p)) w' in
          let fits = read_answer-Matches prepared p answer w1 k.0 in
          unfold send_bulk in
          actions-store p (read_answer b (pick prepared p) answer w1).0.0.items o.items
            (rw k.1 fits)
          ∙ k.1
