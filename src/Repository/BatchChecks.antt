-- ===== src/Repository/BatchChecks.antt =====
-- What the preparation of an operation of a batch has checked, and that it may be done twice.
use mathlib.Core.Path.{subst}
use esodm.Prelude.{
  ◌≡◌, ◌⊎◌, sym, ◌∙◌, [], ◌∷◌, inl, inr, refl, ap, true, false, not, ◌&&◌, Option, none, some,
  Bytes, is_empty, Bool-cases,
}
use esodm.Error.{reject-ok, Result, ok, err, sentinel, reject, validation}
use esodm.Names.{validate_index_name}
use esodm.Write.{WriteOptions, Refresh, values, unset, no_refresh, now, wait_for, unknown}
use esodm.Write.Values.{values_iff}
use esodm.Bulk.{Operation, Action, insert, index, create, update, delete, other}
use esodm.Repository.Creations.{is_some-none}
use esodm.Repository.BatchHeader.{
  Writes, IsChecked, IsHeader, id_allowed-IsId, header-IsHeader, is_create-Writes, Writes-cases,
}
use esodm.Join.{is_some}
use esodm.Effect.{lift, bind-ok, lift-ok}
use esodm.Repository.{Patch, Repository, model_options}
use esodm.Repository.Batches.{
  Header, writes_document, is_create, is_set_refresh, identified_by, with_model_options,
  normalize_bulk, header, id_allowed, check_bulk, bulk_body, prepare_bulk,
}

model_options_idempotent :
    {Doc : Type 0} (routing : Option (Doc → Bytes)) (doc : Doc) (o : WriteOptions)
    → model_options routing doc (model_options routing doc o) ≡ model_options routing doc o
unfolding model_options is_empty
model_options_idempotent none doc o = elim (Bool-cases (is_empty o.routing)) [
  | inl e ↦ rw (e, e) refl
  | inr e ↦ rw (e, e) refl
]
model_options_idempotent (some f) doc o = elim (Bool-cases (is_empty o.routing)) [
  | inl e ↦ elim (Bool-cases (is_empty (f doc))) [ inl g ↦ rw (e, g) refl | inr g ↦ rw (e, g) refl ]
  | inr e ↦ rw (e, e) refl
]

module _ {Doc V : Type 0} (routing identity : Option (Doc → Bytes)) where
  IsNormal : Operation Doc V → Type 0
  IsNormal op = normalize_bulk routing identity op ≡ ok op

  IsNormal-same :
      (op op' : Operation Doc V)
      → IsNormal op
      → ◌≡◌ {A = Result (Operation Doc V)} (ok op) (ok op')
      → IsNormal op'
  IsNormal-same op op' n e = subst IsNormal (same e) n
    where
      same : ◌≡◌ {A = Result (Operation Doc V)} (ok op) (ok op') → op ≡ op'
      same q = cc

  other_action-IsNormal : (op : Operation Doc V) → writes_document op.action ≡ false → IsNormal op
  unfolding IsNormal normalize_bulk
  other_action-IsNormal op a = rw a refl

  with_model_options-twice :
      (op : Operation Doc V)
      → with_model_options {V = V} routing identity (with_model_options {V = V} routing identity op)
        ≡ with_model_options {V = V} routing identity op
  with_model_options-twice op =
      ap (λ o. record op { options = o }) (model_options_idempotent routing op.document op.options)

  with_id-IsNormal :
      (op : Operation Doc V)
      → writes_document op.action ≡ true
      → is_empty op.id ≡ false
      → IsNormal (with_model_options {V = V} routing identity op)
  unfolding IsNormal normalize_bulk
  with_id-IsNormal op a b = rw (a, b) (ap ok (with_model_options-twice op))

  -- An operation that has got its ID from its document.
  abbrev named : (Doc → Bytes) → Operation Doc V → Operation Doc V
  named f op = record (with_model_options {V = V} routing identity op) { id = f op.document }

  named-IsNormal :
      (f : Doc → Bytes) (op : Operation Doc V)
      → identity ≡ some f
      → writes_document op.action ≡ true
      → (is_empty (f op.document) && not (is_create op.action)) ≡ false
      → IsNormal (named f op)
  unfolding IsNormal normalize_bulk
  named-IsNormal f op e a t = elim (Bool-cases (is_empty (f op.document))) [
    | inl g ↦ rw (a, e, t, g) twice
    | inr g ↦ rw (a, g) twice
  ]
    where
      twice :
          ◌≡◌ {A = Result (Operation Doc V)}
            (ok (with_model_options {V = V} routing identity (named f op)))
            (ok (named f op))
      twice =
          ap (λ o. ok (record (named f op) { options = o }))
            (model_options_idempotent routing op.document op.options)

  identified_by-IsNormal :
      (o : Option (Doc → Bytes)) (op op' : Operation Doc V)
      → identity ≡ o
      → writes_document op.action ≡ true
      → is_empty op.id ≡ true
      → identified_by {V = V} routing identity o (with_model_options {V = V} routing identity op)
        ≡ ok op'
      → IsNormal op'
  unfolding IsNormal normalize_bulk
  identified_by-IsNormal none op op' e a b h =
      IsNormal-same (with_model_options {V = V} routing identity op) op'
        (rw (a, b, e) (ap ok (with_model_options-twice op))) h
  identified_by-IsNormal (some f) op op' e a b h =
      elim (Bool-cases (is_empty (f op.document) && not (is_create op.action))) [
        | inl t ↦ absurd (apart (rw t at h))
        | inr t ↦ IsNormal-same (named f op) op' (named-IsNormal f op e a t) (rw t at h)
      ]
    where
      apart : ◌≡◌ {A = Result (Operation Doc V)} (err (sentinel validation)) (ok op') → ⊥
      apart q = cc

  -- Normalizing an operation twice, as BulkWithOptions does before EncodeOperation, is normalizing
  -- it once.
  pub normalize_bulk_idempotent :
      (op op' : Operation Doc V)
      → normalize_bulk routing identity op ≡ ok op'
      → normalize_bulk routing identity op' ≡ ok op'
  unfolding normalize_bulk IsNormal
  normalize_bulk_idempotent op op' h = elim (Bool-cases (writes_document op.action)) [
    | inl a ↦ elim (Bool-cases (is_empty op.id)) [
      | inl b ↦ identified_by-IsNormal identity op op' refl a b (rw (a, b) at h)
      | inr b ↦
          IsNormal-same (with_model_options {V = V} routing identity op) op'
            (with_id-IsNormal op a b) (rw (a, b) at h)
    ]
    | inr a ↦ IsNormal-same op op' (other_action-IsNormal op a) (rw a at h)
  ]

is_set_refresh-unset : (v : Refresh) → is_set_refresh v ≡ false → v ≡ unset
is_set_refresh-unset unset h = refl
is_set_refresh-unset no_refresh h = cc
is_set_refresh-unset now h = cc
is_set_refresh-unset wait_for h = cc
is_set_refresh-unset unknown h = cc

no_pipeline : (s : Bytes) → (not (is_empty s) && true) ≡ false → s ≡ []
unfolding is_empty
no_pipeline [] e = refl
no_pipeline (c ∷ s) e = absurd (apart e)
  where
    apart : true ≡ false → ⊥
    apart q = cc

refused : (b : Bytes) → ◌≡◌ {A = Result Bytes} (err (sentinel validation)) (ok b) → ⊥
refused b q = cc

module _ {Doc V W : Type 0} (r : Repository Doc V W) (encode_header : Header → Result Bytes) where
  open r use {unicode, schema, model}

  check_bulk-IsChecked :
      (op : Operation Doc (Patch V)) (w : W) (u : Unit {0})
      → (check_bulk r encode_header op w).0 ≡ ok u
      → (Writes op.action ⊎ ((op.action ≡ update) ⊎ (op.action ≡ delete)))
      → IsChecked r encode_header op
  unfolding check_bulk lift
  check_bulk-IsChecked op w u h known =
      let s1 = lift-ok (id_allowed r encode_header op) _ w u h in
      let s2 = lift-ok (values op.options) _ w u (s1.2) in
      let s3 = lift-ok (reject (is_set_refresh op.options.refresh) validation) _ w u (s2.2) in
      let s4 =
        lift-ok (reject (is_create op.action && is_some op.options.if_seq_no) validation) _ w u
          (s3.2) in
      record {
        identified = id_allowed-IsId r encode_header op (s1.0) (s1.1);
        options = (values_iff op.options).0 (s2.0, s2.1);
        unrefreshed = is_set_refresh-unset op.options.refresh (reject-ok _ (s3.0) (s3.1));
        unconditional = elim (is_create-Writes op.action) [
          | inl a ↦ inr (
              is_some-none op.options.if_seq_no (
                sym (ap (λ x. is_create x && is_some op.options.if_seq_no) a)
                ∙ reject-ok _ (s4.0) (s4.1)))
          | inr (a, b) ↦ inl a
        ];
        piped = elim (Writes-cases op.action) [
          | inl a ↦ inr a
          | inr b ↦ inl (
              no_pipeline op.options.pipeline (
                sym (ap (λ x. not (is_empty op.options.pipeline) && not x) b)
                ∙ reject-ok _ u (s4.2)))
        ];
        known = known;
      }

  bulk_body-known :
      (a : Action) (op : Operation Doc (Patch V)) (w : W) (b : Bytes)
      → (bulk_body r encode_header a op w).0 ≡ ok b
      → Writes a ⊎ ((a ≡ update) ⊎ (a ≡ delete))
  unfolding bulk_body lift
  bulk_body-known insert op w b h = absurd (refused b h)
  bulk_body-known index op w b h = inl (inl refl)
  bulk_body-known create op w b h = inl (inr refl)
  bulk_body-known update op w b h = inr (inl refl)
  bulk_body-known delete op w b h = inr (inr refl)
  bulk_body-known other op w b h = absurd (refused b h)

  -- If an operation is prepared for a batch, the index name is accepted, and the normalized
  -- operation is a creation without an ID or has an accepted ID, is an index, create, update or
  -- delete action, and has valid options without a refresh policy, no sequence number if it is a
  -- creation, and a pipeline only if it is an index or create action; the header has its action,
  -- the index of the schema, and its ID, routing and pipeline where they are not empty, with its
  -- concurrency tokens unless it is a creation.
  pub prepare_bulk-IsChecked :
      (given : Operation Doc (Patch V)) (w : W) (h : Header) (body : Bytes)
      → (prepare_bulk r encode_header given w).0 ≡ ok (h, body)
      → (validate_index_name unicode schema.index ≡ ok tt)
        × ((op : Operation Doc (Patch V)) × (normalize_bulk model.routing model.identity given
              ≡ ok op)
            × IsChecked r encode_header op
            × IsHeader r encode_header h op)
  unfolding prepare_bulk lift
  prepare_bulk-IsChecked given w h body p =
      let s1 = lift-ok (validate_index_name unicode schema.index) _ w (h, body) p in
      let s2 = lift-ok (normalize_bulk model.routing model.identity given) _ w (h, body) (s1.2) in
      let s3 = bind-ok (check_bulk r encode_header (s2.0)) _ w (h, body) (s2.2) in
      let s4 = bind-ok (bulk_body r encode_header s2.0.action (s2.0)) _ _ (h, body) (s3.2) in
      let k =
        check_bulk-IsChecked (s2.0) w (s3.0) (s3.1)
          (bulk_body-known s2.0.action (s2.0) _ (s4.0) (s4.1)) in
      (
        s1.1,
        (
          s2.0,
          s2.1,
          k,
          subst (λ h'. IsHeader r encode_header h' (s2.0))
              (same (header r encode_header (s2.0)) (s4.0) (s4.2))
              (header-IsHeader r encode_header (s2.0) k.piped),
        ),
      )
    where
      same :
          (h' : Header) (b' : Bytes)
          → ◌≡◌ {A = Result (Header × Bytes)} (ok (h', b')) (ok (h, body))
          → h' ≡ h
      same h' b' e = cc
