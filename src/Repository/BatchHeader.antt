-- ===== src/Repository/BatchHeader.antt =====
-- bulk.go: what an ID and the header of an operation of a batch have to be.
use esodm.Prelude.{
  ◌≡◌, ◌≢◌, ◌≤◌, ◌⊎◌, inl, inr, refl, sym, ap, ◌∙◌, Bool, true, false, not, ◌&&◌, ◌||◌, Option,
  none, some, [], ◌∷◌, ℤ, Bytes, is_empty, length, ltb, if◌then◌else◌, arith,
}
use esodm.Error.{Result, ok, reject-ok}
use esodm.Names.{Unicode, validate_id}
use esodm.Write.{unset}
use esodm.Write.Values.{Accepted}
use esodm.Bulk.{Action, insert, index, create, update, delete, other, Operation}
use esodm.Repository.{Patch, Repository}
use esodm.Repository.Batches.{Header, header, id_allowed, is_create, writes_document, non_empty}

-- An accepted ID: not empty, at most 512 bytes, and UTF-8.
abbrev pub IsId : Unicode → Bytes → Type 0
IsId u id = (id ≢ []) × (length id ≤ 512) × (u.valid_string id ≡ true)

-- A field that is left out where its text is empty.
pub data IsOmitted (s : Bytes) (field : Option Bytes) : Type 0 where
  absent : s ≡ [] → field ≡ none → IsOmitted s field
  present : s ≢ [] → field ≡ some s → IsOmitted s field

-- The actions that write a whole document.
abbrev pub Writes : Action → Type 0
Writes a = (a ≡ index) ⊎ (a ≡ create)

validate_id-IsId : (u : Unicode) (id : Bytes) → validate_id u id ≡ ok tt → IsId u id
unfolding validate_id is_empty
validate_id-IsId u [] h = absurd (apart (reject-ok true tt h))
  where
    apart : true ≡ false → ⊥
    apart q = cc
validate_id-IsId u (c ∷ id) h =
    let k =
      reject-ok (is_empty (c ∷ id) || ltb 512 (length (c ∷ id)) || not (u.valid_string (c ∷ id))) tt
        h in
    ((λ q. cc), ground arith, ground arith)

non_empty-IsOmitted : (s : Bytes) → IsOmitted s (non_empty s)
unfolding is_empty
non_empty-IsOmitted [] = absent refl refl
non_empty-IsOmitted (c ∷ s) = present (λ q. cc) refl

pub is_create-Writes : (a : Action) → (a ≡ create) ⊎ ((a ≢ create) × (is_create a ≡ false))
is_create-Writes insert = inr ((λ q. cc), refl)
is_create-Writes index = inr ((λ q. cc), refl)
is_create-Writes create = inl refl
is_create-Writes update = inr ((λ q. cc), refl)
is_create-Writes delete = inr ((λ q. cc), refl)
is_create-Writes other = inr ((λ q. cc), refl)

pub Writes-cases : (a : Action) → Writes a ⊎ (writes_document a ≡ false)
Writes-cases insert = inr refl
Writes-cases index = inl (inl refl)
Writes-cases create = inl (inr refl)
Writes-cases update = inr refl
Writes-cases delete = inr refl
Writes-cases other = inr refl

empty_or_not : (s : Bytes) → (s ≡ []) ⊎ (is_empty s ≡ false)
unfolding is_empty
empty_or_not [] = inl refl
empty_or_not (c ∷ s) = inr refl

Writes-writes_document : (a : Action) → Writes a → writes_document a ≡ true
Writes-writes_document a (inl e) = ap writes_document e
Writes-writes_document a (inr e) = ap writes_document e

pipeline-IsOmitted :
    (b : Bool) (s : Bytes) → (s ≡ []) ⊎ (b ≡ true) → IsOmitted s (if b then non_empty s else none)
pipeline-IsOmitted true s h = non_empty-IsOmitted s
pipeline-IsOmitted false s (inl e) = absent e refl
pipeline-IsOmitted false s (inr e) = absurd (apart e)
  where
    apart : false ≡ true → ⊥
    apart q = cc

module _ {Doc V W : Type 0} (r : Repository Doc V W) (encode_header : Header → Result Bytes) where
  open r use {unicode, schema}

  -- An operation that a batch accepts: a creation without an ID, or an accepted ID; valid options
  -- without a refresh policy; no sequence number in a creation; and a pipeline only for a document.
  pub record IsChecked (op : Operation Doc (Patch V)) : Type 0 where
    pub identified : ((op.action ≡ create) × (op.id ≡ [])) ⊎ IsId unicode op.id
    pub options : Accepted op.options
    pub unrefreshed : op.options.refresh ≡ unset
    pub unconditional : (op.action ≢ create) ⊎ (op.options.if_seq_no ≡ none)
    pub piped : (op.options.pipeline ≡ []) ⊎ Writes op.action
    pub known : Writes op.action ⊎ ((op.action ≡ update) ⊎ (op.action ≡ delete))

  -- The header of an operation: its action, the index of the schema, the ID, the routing and the
  -- pipeline where they are set, and the tokens, but none in a creation.
  pub record IsHeader (h : Header) (op : Operation Doc (Patch V)) : Type 0 where
    pub by_action : h.action ≡ op.action
    pub by_index : h.index ≡ schema.index
    pub by_id : IsOmitted op.id h.id
    pub by_routing : IsOmitted op.options.routing h.routing
    pub by_pipeline : IsOmitted op.options.pipeline h.pipeline
    pub by_tokens :
        ((op.action ≡ create) × (h.if_seq_no ≡ none) × (h.if_primary_term ≡ none))
        ⊎ ((op.action ≢ create)
            × (h.if_seq_no ≡ op.options.if_seq_no)
            × (h.if_primary_term ≡ op.options.if_primary_term))

  pub id_allowed-IsId :
      (op : Operation Doc (Patch V)) (u : Unit {0})
      → id_allowed r encode_header op ≡ ok u
      → ((op.action ≡ create) × (op.id ≡ [])) ⊎ IsId unicode op.id
  id_allowed-IsId op u h = elim (is_create-Writes op.action) [
    | inl a ↦ elim (empty_or_not op.id) [
      | inl e ↦ inl (a, e)
      | inr e ↦ inr (validate_id-IsId unicode op.id (step (both_false a e) h))
    ]
    | inr (a, b) ↦ inr (validate_id-IsId unicode op.id (step (rw b refl) h))
  ]
    where
      both_false :
          op.action ≡ create
          → is_empty op.id ≡ false
          → (is_create op.action && is_empty op.id) ≡ false
      both_false a e = rw (a, e) refl

      step :
          (is_create op.action && is_empty op.id) ≡ false
          → id_allowed r encode_header op ≡ ok u
          → validate_id unicode op.id ≡ ok tt
      step e h = sym (ap (λ b. if b then ok tt else validate_id unicode op.id) e) ∙ h

  pub header-IsHeader :
      (op : Operation Doc (Patch V))
      → ((op.options.pipeline ≡ []) ⊎ Writes op.action)
      → IsHeader (header r encode_header op) op
  header-IsHeader op p = record {
    by_action = refl;
    by_index = refl;
    by_id = non_empty-IsOmitted op.id;
    by_routing = non_empty-IsOmitted op.options.routing;
    by_pipeline =
        pipeline-IsOmitted (writes_document op.action) op.options.pipeline
          (elim p [ inl e ↦ inl e | inr a ↦ inr (Writes-writes_document op.action a) ]);
    by_tokens = elim (is_create-Writes op.action) [
      | inl a ↦ inl (
        a,
        ap (λ x. tokens_of (is_create x) op.options.if_seq_no) a,
        ap (λ x. tokens_of (is_create x) op.options.if_primary_term) a,
      )
      | inr (a, b) ↦ inr (
        a,
        ap (λ x. tokens_of x op.options.if_seq_no) b,
        ap (λ x. tokens_of x op.options.if_primary_term) b,
      )
    ];
  }
    where
      tokens_of : Bool → Option ℤ → Option ℤ
      tokens_of b o = if b then none else o
