-- ===== src/Repository/Preparation.antt =====
-- What the preparation of a document has checked when its request is ready.
use esodm.Prelude.{◌≡◌, ◌⊎◌, inl, inr, refl, Bool, true, false, ◌&&◌, Bytes, if◌then◌else◌}
use esodm.Error.{reject-ok, Result, ok, err, reject, validation}
use esodm.Names.{validate_id, validate_index_name}
use esodm.Write.{WriteOptions, Values, values}
use esodm.Bulk.{Action}
use esodm.Join.{is_some, validate_join}
use esodm.Effect.{lift, bind-ok, lift-ok}
use esodm.Repository.{
  Repository, model_options, as_validation, stamp, run_before_write, run_validate,
}
use esodm.Repository.Writing.{
  Prepared, is_insert, creates, write_request, prepare_document, prepare_write,
}

as_validation-ok : {A : Type 0} (x : Result A) (a : A) → as_validation x ≡ ok a → x ≡ ok a
as_validation-ok (err e) a p = cc
as_validation-ok (ok b) a p = p

module _ {Doc V W : Type 0} (r : Repository Doc V W) where
  open r use {unicode, schema, hooks, model, join_json}

  -- A request for a document: its parameters are those of valid options, a creation has no
  -- concurrency tokens, and its body is the JSON of some document that fits the join field.
  abbrev pub IsReady : Action → Bytes → WriteOptions → Prepared → Type 0
  IsReady a id o p =
      (q : Values) × (doc : Doc) × (bytes : Bytes) × (values o ≡ ok q)
      × ((creates a && is_some o.if_seq_no) ≡ false)
      × (model.marshal doc ≡ ok bytes)
      × (validate_join unicode join_json schema.join bytes o.routing ≡ ok tt)
      × (p ≡ write_request r a id o q bytes)

  prepare_document-IsReady :
      (a : Action) (id : Bytes) (doc : Doc) (o : WriteOptions) (w : W) (p : Prepared)
      → (prepare_document r a id doc o w).0 ≡ ok p
      → IsReady a id o p
  unfolding prepare_document lift
  prepare_document-IsReady a id doc o w p h =
      let s1 = lift-ok (values o) _ w p h in
      let s2 = lift-ok (reject (creates a && is_some o.if_seq_no) validation) _ w p (s1.2) in
      let s3 = bind-ok (stamp model.stamper a doc) _ w p (s2.2) in
      let s4 = bind-ok (run_before_write hooks.before_write a (s3.0)) _ _ p (s3.2) in
      let s5 = bind-ok (run_validate hooks.validate (s4.0)) _ _ p (s4.2) in
      let s6 = lift-ok (as_validation (model.marshal (s5.0))) _ _ p (s5.2) in
      let s7 =
        lift-ok (validate_join unicode join_json schema.join (s6.0) o.routing) _ _ p (s6.2) in
      (
        s1.0,
        s5.0,
        s6.0,
        s1.1,
        reject-ok (creates a && is_some o.if_seq_no) (s2.0) (s2.1),
        as_validation-ok (model.marshal (s5.0)) (s6.0) (s6.1),
        s7.1,
        same (write_request r a id o (s1.0) (s6.0)) (s7.2),
      )
    where
      same : (p' : Prepared) → ok p' ≡ ok p → p ≡ p'
      same p' e = cc

  -- If the preparation of a document succeeds, the index name is accepted, the ID too unless the
  -- server is to assign one, and the request is one for the options completed from the document:
  -- they are valid, a creation has no concurrency tokens, and its body is the JSON of some document
  -- that fits the join field.
  pub prepare_write-IsReady :
      (a : Action) (id : Bytes) (doc : Doc) (o : WriteOptions) (w : W) (p : Prepared)
      → (prepare_write r a id doc o w).0 ≡ ok p
      → (validate_index_name unicode schema.index ≡ ok tt)
        × ((is_insert a ≡ true) ⊎ (validate_id unicode id ≡ ok tt))
        × IsReady a id (model_options model.routing doc o) p
  unfolding prepare_write lift
  prepare_write-IsReady a id doc o w p h =
      let s1 = lift-ok (validate_index_name unicode schema.index) _ w p h in
      let s2 = lift-ok (if is_insert a then ok tt else validate_id unicode id) _ w p (s1.2) in
      (
        s1.1,
        inserted_or_valid (is_insert a) refl (s2.0) (s2.1),
        prepare_document-IsReady a id doc (model_options model.routing doc o) w p (s2.2),
      )
    where
      inserted_or_valid :
          (b : Bool)
          → is_insert a ≡ b
          → (u : Unit {0}) → (if b then ok tt else validate_id unicode id) ≡ ok u
          → (is_insert a ≡ true) ⊎ (validate_id unicode id ≡ ok tt)
      inserted_or_valid true e u q = inl e
      inserted_or_valid false e u q = inr q
