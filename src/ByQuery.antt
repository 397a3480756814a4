-- ===== src/ByQuery.antt =====
-- operations.go: UpdateByQuery and DeleteByQuery, which take the answer of the server for a success
-- only when the work it reports is complete.
use esodm.Prelude.{
  ℕ, ◌≡◌, ◌↔◌, ◌⊎◌, inl, inr, refl, Bool, true, false, not, ◌&&◌, ◌||◌, Option, none, some, List,
  Bytes, text, bytes_eq, bytes_eq_iff, is_empty, ltb, ℤ, pos, ltb_ℤ, if◌then◌else◌, arith,
  Bool-cases,
}
use esodm.Error.{Err, Result, ok, err, sentinel, validation, incomplete, reject, Result-cases}
use esodm.Names.{Unicode, validate_index_name}

-- ByQueryOptions, with the name of the conflicts policy.
pub record ByQueryOptions : Type 0 where
  pub routing : List Bytes
  pub refresh : Bool
  pub async : Bool
  pub conflicts : Bytes

-- What is read of the responses of both operations.
pub record ByQueryResponse : Type 0 where
  pub task : Option Bytes
  pub total : Option ℤ
  pub failures : ℕ
  pub timed_out : Option Bool
  pub version_conflicts : Option ℤ

-- ByQueryOptions.validate
unfoldable pub validate_by_query : ByQueryOptions → Result (Unit {0})
validate_by_query o =
    reject
      (not (is_empty o.conflicts)
        && not (bytes_eq o.conflicts (text "abort"))
        && not (bytes_eq o.conflicts (text "proceed")))
      validation

abbrev pub no_task : Option Bytes → Bool
no_task none = true
no_task (some t) = is_empty t

abbrev pub absent : Option ℤ → Bool
absent none = true
absent (some n) = false

abbrev pub is_set : Option Bool → Bool
is_set none = false
is_set (some b) = b

abbrev pub positive : Option ℤ → Bool
positive none = false
positive (some n) = ltb_ℤ (pos 0) n

-- The test of an answer without an error.
unfoldable pub is_incomplete : ByQueryOptions → ByQueryResponse → Bool
is_incomplete o r =
    (o.async && no_task r.task)
    || (not o.async
        && (absent r.total
            || ltb 0 r.failures
            || is_set r.timed_out
            || (not (bytes_eq o.conflicts (text "proceed")) && positive r.version_conflicts)))

abbrev pub no_response : ByQueryResponse
no_response = record {
  task = none;
  total = none;
  failures = 0;
  timed_out = none;
  version_conflicts = none;
}

-- `send` is Client.DoTyped with the official request of either operation.
module _ {Query World : Type 0} (u : Unicode)
    (send : Bytes → Query → ByQueryOptions → World → (ByQueryResponse × Option Err) × World) where
  abbrev pub judged :
      ByQueryOptions
      → (ByQueryResponse × Option Err) × World
      → (ByQueryResponse × Option Err) × World
  judged o ((r, some e), w) = ((r, some e), w)
  judged o ((r, none), w) = ((r, (if is_incomplete o r then some incomplete else none)), w)

  -- UpdateByQuery; a request without a query is none.
  unfoldable pub by_query :
      Bytes → Option Query → ByQueryOptions → World → (ByQueryResponse × Option Err) × World
  by_query index query o w = elim (validate_index_name u index) [
    | err e ↦ ((no_response, some e), w)
    | ok _ ↦ elim query [
      | none ↦ ((no_response, some (sentinel validation)), w)
      | some q ↦ elim (validate_by_query o) [
        | err e ↦ ((no_response, some e), w)
        | ok _ ↦ judged o (send index q o w)
      ]
    ]
  ]

  -- DeleteByQuery, whose `send` performs the other request.
  abbrev pub delete_by_query :
      Bytes → Option Query → ByQueryOptions → World → (ByQueryResponse × Option Err) × World
  delete_by_query index query o w = by_query index query o w

  -- The work that the response reports is complete under the options: a task to follow, or a total
  -- without a failure, a time-out or a conflict that the policy does not tolerate.
  abbrev pub IsComplete : ByQueryOptions → ByQueryResponse → Type 0
  IsComplete o r =
      ((o.async ≡ true) × (no_task r.task ≡ false))
      ⊎ ((o.async ≡ false)
          × (absent r.total ≡ false)
          × (r.failures ≡ 0)
          × (is_set r.timed_out ≡ false)
          × ((o.conflicts ≡ text "proceed") ⊎ (positive r.version_conflicts ≡ false)))

  is_incomplete-IsComplete :
      (o : ByQueryOptions) (r : ByQueryResponse) → (is_incomplete o r ≡ false) ↔ IsComplete o r
  unfolding is_incomplete
  is_incomplete-IsComplete o r = elim (Bool-cases o.async) [
    | inl a ↦ ground (arith, bytes_eq_iff o.conflicts (text "proceed"))
    | inr a ↦ ground (arith, bytes_eq_iff o.conflicts (text "proceed"))
  ]

  judged_iff :
      (o : ByQueryOptions) (out : (ByQueryResponse × Option Err) × World)
      → ((judged o out).0.1 ≡ none) ↔ ((out.0.1 ≡ none) × IsComplete o (out.0.0))
  judged_iff o ((r, some e), w) = ((λ h. cc), (λ h. cc))
  judged_iff o ((r, none), w) = elim (Bool-cases (is_incomplete o r)) [
    | inl b ↦ (
      (λ h. absurd (some-none b h)),
      (λ h. absurd (true-false b ((is_incomplete-IsComplete o r).1 (h.1)))),
    )
    | inr b ↦ ((λ h. (refl, (is_incomplete-IsComplete o r).0 b)), (λ h. rw b refl))
  ]
    where
      some-none :
          is_incomplete o r ≡ true
          → (if is_incomplete o r then some incomplete else none) ≡ none
          → ⊥
      some-none b h = ground arith

      true-false : is_incomplete o r ≡ true → is_incomplete o r ≡ false → ⊥
      true-false b h = ground arith

  -- What has to hold for an operation to succeed: its index name, its query and its options are
  -- accepted, the request succeeds, and the work that its response reports is complete.
  abbrev pub Succeeds : Bytes → Option Query → ByQueryOptions → World → Type 0
  Succeeds index query o w =
      (q : Query) × (query ≡ some q)
      × (validate_index_name u index ≡ ok tt)
      × (validate_by_query o ≡ ok tt)
      × ((send index q o w).0.1 ≡ none)
      × IsComplete o ((send index q o w).0.0)

  -- The operation returns no error exactly when its index name, its query and its options are
  -- accepted, the request succeeds, and the work that the response reports is complete.
  pub by_query-Succeeds :
      (index : Bytes) (query : Option Query) (o : ByQueryOptions) (w : World)
      → ((by_query index query o w).0.1 ≡ none) ↔ Succeeds index query o w
  unfolding by_query
  by_query-Succeeds index none o w = elim (Result-cases (validate_index_name u index)) [
    | inl (e, p) ↦ rw p ((λ h. cc), (λ h. cc))
    | inr (_, p) ↦ rw p ((λ h. cc), (λ h. cc))
  ]
  by_query-Succeeds index (some q) o w = elim (Result-cases (validate_index_name u index)) [
    | inl (e, p) ↦ rw p ((λ h. cc), (λ h. cc))
    | inr (_, p) ↦ elim (Result-cases (validate_by_query o)) [
      | inl (e, r) ↦ rw (p, r) ((λ h. cc), (λ h. cc))
      | inr (_, r) ↦
          rw (by_query, p, r)
            (
              (λ h.
                  let j = (judged_iff o (send index q o w)).0 h in (q, refl, refl, refl, j.0, j.1)),
              (λ h. (judged_iff o (send index q o w)).1 (rw (same_query (h.0) (h.1)) (h.4, h.5))),
            )
    ]
  ]
    where
      same_query : (q' : Query) → some q ≡ some q' → q ≡ q'
      same_query q' e = cc
