-- ===== src/Repository/Delivery.antt =====
-- repository.go and model.go: when a write of one document returns no error.
use mathlib.Core.Path.{subst}
use esodm.Prelude.{
  if◌then◌else◌, ◌&&◌, ◌⊎◌, ◌∙◌, ap, ◌≡◌, ◌↔◌, refl, sym, true, Option, none, some, Bytes,
}
use esodm.Error.{Err, Result, ok, err, reject, validation}
use esodm.Write.{WriteResult, WriteOptions, Values, values}
use esodm.Bulk.{Action, insert}
use esodm.Client.Perform.{do_json}
use esodm.Client.Calls.{encoded_body, IsPerformed, do_json-IsPerformed}
use esodm.Names.{validate_id, validate_index_name}
use esodm.Effect.{lift}
use esodm.Join.{is_some, validate_join}
use esodm.Repository.{
  Repository, or_no_write, model_options, stamp, run_before_write, run_validate, as_validation,
}
use esodm.Repository.Creations.{Creates, creates_iff, identified_iff, reject_iff, as_validation_iff}
use esodm.Repository.Steps.{
  bind_iff, lift_iff, Stamped, Passed, PassedFor, AcceptedBy, stamp_iff, validate_iff,
  before_write_iff, after_write_iff,
}
use esodm.Repository.Writing.{
  Prepared, prepare_document, write_request, creates, is_insert, with_route, answered, send, run,
  prepare_write, write,
}

module _ {Doc V W : Type 0} (r : Repository Doc V W) where
  open r use {unicode, limit, schema, hooks, model, http, json, join_json, written}

  -- A prepared request: the names are accepted, the options, completed from the document, are valid,
  -- and a creation has no sequence number; the document is stamped and passes the BeforeWrite hook
  -- and the Validate hook, in this order, and the last version of it is encoded, fits the join
  -- field, and is what the request sends.
  pub data IsPrepared (a : Action) (id : Bytes) (doc : Doc) (o : WriteOptions) (w : W)
      (p : Prepared) (w' : W) : Type 0 where
    prepared :
        (q : Values) (d1 d2 d3 : Doc) (w1 w2 : W) (bytes : Bytes)
        → validate_index_name unicode schema.index ≡ ok tt
        → (a ≡ insert) ⊎ (validate_id unicode id ≡ ok tt)
        → values (model_options model.routing doc o) ≡ ok q
        → (¬ Creates a) ⊎ ((model_options model.routing doc o).if_seq_no ≡ none)
        → Stamped model.stamper a doc w d1 w1
        → PassedFor hooks.before_write a d1 w1 d2 w2
        → Passed hooks.validate d2 w2 d3 w'
        → model.marshal d3 ≡ ok bytes
        → validate_join unicode join_json schema.join bytes
            (model_options model.routing doc o).routing
          ≡ ok tt
        → p ≡ write_request r a id (model_options model.routing doc o) q bytes
        → IsPrepared a id doc o w p w'

  same_request :
      (p p' : Prepared) (w w' : W) → ◌≡◌ {A = Result Prepared × W} (ok p, w) (ok p', w') → p' ≡ p
  same_request p p' w w' q = cc

  same_world :
      (p p' : Prepared) (w w' : W) → ◌≡◌ {A = Result Prepared × W} (ok p, w) (ok p', w') → w ≡ w'
  same_world p p' w w' q = cc

  request_of : (p p' : Prepared) (w w' : W) → lift (ok p) w ≡ (ok p', w') → (p' ≡ p) × (w ≡ w')
  unfolding lift
  request_of p p' w w' h = (same_request p p' w w' h, same_world p p' w w' h)

  lifted : (p p' : Prepared) (w : W) → p' ≡ p → lift (ok p) w ≡ (ok p', w)
  unfolding lift
  lifted p p' w h = ap (λ x. (ok x, w)) (sym h)

  prepare_write_iff :
      (a : Action) (id : Bytes) (doc : Doc) (o : WriteOptions) (w : W) (p : Prepared) (w' : W)
      → (prepare_write r a id doc o w ≡ (ok p, w')) ↔ IsPrepared a id doc o w p w'
  unfolding prepare_write prepare_document
  prepare_write_iff a id doc o w p w' = (there, back)
    where
      o' : WriteOptions
      o' = model_options model.routing doc o

      there : prepare_write r a id doc o w ≡ (ok p, w') → IsPrepared a id doc o w p w'
      there h =
          let s1 = (lift_iff (validate_index_name unicode schema.index) _ w w' p).0 h in
          let s2 =
            (lift_iff (if is_insert a then ok tt else validate_id unicode id) _ w w' p).0 (s1.2) in
          let s3 = (lift_iff (values o') _ w w' p).0 (s2.2) in
          let s4 =
            (lift_iff (reject (creates a && is_some o'.if_seq_no) validation) _ w w' p).0 (s3.2) in
          let s5 = (bind_iff (stamp model.stamper a doc) _ w w' p).0 (s4.2) in
          let s6 =
            (bind_iff (run_before_write hooks.before_write a (s5.0)) _ (s5.1) w' p).0 (s5.3) in
          let s7 = (bind_iff (run_validate hooks.validate (s6.0)) _ (s6.1) w' p).0 (s6.3) in
          let s8 = (lift_iff (as_validation (model.marshal (s7.0))) _ (s7.1) w' p).0 (s7.3) in
          let s9 =
            (lift_iff (validate_join unicode join_json schema.join (s8.0) o'.routing) _ (s7.1) w'
                p).0
              (s8.2) in
          let last = request_of (write_request r a id o' (s3.0) (s8.0)) p (s7.1) w' (s9.2) in
          prepared (s3.0) (s5.0) (s6.0) (s7.0) (s5.1) (s6.1) (s8.0) (s1.1)
            ((identified_iff unicode a id).0 (s2.1)) (s3.1)
            ((creates_iff a o'.if_seq_no).0
              ((reject_iff (creates a && is_some o'.if_seq_no)).0 (s4.1)))
            ((stamp_iff (s5.0) (s5.1) model.stamper a doc w).0 (s5.2))
            ((before_write_iff (s6.0) (s6.1) hooks.before_write a (s5.0) (s5.1)).0 (s6.2))
            ((validate_iff (s7.0) w' hooks.validate (s6.0) (s6.1)).0 (
              subst (λ v. run_validate hooks.validate (s6.0) (s6.1) ≡ (ok (s7.0), v)) (last.1)
                (s7.2)))
            ((as_validation_iff (model.marshal (s7.0)) (s8.0)).0 (s8.1)) (s9.1) (last.0)

      back : IsPrepared a id doc o w p w' → prepare_write r a id doc o w ≡ (ok p, w')
      back (prepared q d1 d2 d3 w1 w2 bytes e1 e2 e3 e4 e5 e6 e7 e8 e9 e10) =
          (lift_iff (validate_index_name unicode schema.index) _ w w' p).1 (
            tt,
            e1,
            (lift_iff (if is_insert a then ok tt else validate_id unicode id) _ w w' p).1 (
              tt,
              (identified_iff unicode a id).1 e2,
              (lift_iff (values o') _ w w' p).1 (
                q,
                e3,
                (lift_iff (reject (creates a && is_some o'.if_seq_no) validation) _ w w' p).1 (
                  tt,
                  (reject_iff (creates a && is_some o'.if_seq_no)).1
                      ((creates_iff a o'.if_seq_no).1 e4),
                  (bind_iff (stamp model.stamper a doc) _ w w' p).1 (
                    d1,
                    w1,
                    (stamp_iff d1 w1 model.stamper a doc w).1 e5,
                    (bind_iff (run_before_write hooks.before_write a d1) _ w1 w' p).1 (
                      d2,
                      w2,
                      (before_write_iff d2 w2 hooks.before_write a d1 w1).1 e6,
                      (bind_iff (run_validate hooks.validate d2) _ w2 w' p).1 (
                        d3,
                        w',
                        (validate_iff d3 w' hooks.validate d2 w2).1 e7,
                        (lift_iff (as_validation (model.marshal d3)) _ w' w' p).1 (
                          bytes,
                          (as_validation_iff (model.marshal d3) bytes).1 e8,
                          (lift_iff (validate_join unicode join_json schema.join bytes o'.routing) _
                                w' w' p).1
                              (tt, e9, lifted (write_request r a id o' q bytes) p w' e10),
                        ),
                      ),
                    ),
                  ),
                ),
              ),
            ),
          )

  -- What Client.Do returns for a prepared request.
  abbrev pub response : Prepared → W → (Option WriteResult × Option Err) × W
  response p w = do_json http json written limit p.method p.path p.query p.body true w

  -- The request of a preparation is encoded, can be made and is answered, and the AfterWrite hook
  -- accepts the result, with the routing of the request.
  abbrev pub IsDelivered : Prepared → W → Type 0
  IsDelivered p w =
      (bytes : Bytes) × (encoded_body p.body ≡ ok bytes)
      × IsPerformed http json written limit p.method p.path p.query bytes true w
      × AcceptedBy hooks.after_write p.operation
          (with_route r p.routing (or_no_write ((response p w).0.0))) ((response p w).1)

  answered_iff :
      (p : Prepared) (out : (Option WriteResult × Option Err) × W)
      → ((answered r p out).0.1 ≡ none) ↔ (
          (out.0.1 ≡ none)
          × AcceptedBy hooks.after_write p.operation
              (with_route r p.routing (or_no_write (out.0.0)))
              (out.1))
  answered_iff p ((o, some e), w) = ((λ q. cc), (λ q. cc))
  answered_iff p ((o, none), w) =
      let k =
        after_write_iff r hooks.after_write p.operation (with_route r p.routing (or_no_write o))
          w in
      ((λ q. (refl, k.0 q)), (λ q. k.1 (q.1)))

  send-IsDelivered : (p : Prepared) (w : W) → ((send r p w).0.1 ≡ none) ↔ IsDelivered p w
  unfolding send
  send-IsDelivered p w =
      let a = answered_iff p (response p w) in
      let d = do_json-IsPerformed http json written limit p.method p.path p.query p.body true w in
      (
        (λ q. let s = a.0 q in let t = d.0 (s.0) in (t.0, t.1, t.2, s.1)),
        (λ q. a.1 (d.1 (q.0, q.1, q.2), q.3)),
      )

  run-IsDelivered :
      (x : Result Prepared × W)
      → ((run r x).0.1 ≡ none) ↔ ((p : Prepared) × (w : W) × (x ≡ (ok p, w)) × IsDelivered p w)
  run-IsDelivered (err e, v) = ((λ q. cc), (λ q. absurd (apart (q.0) (q.1) (q.2))))
    where
      apart : (p : Prepared) (w : W) → ◌≡◌ {A = Result Prepared × W} (err e, v) (ok p, w) → ⊥
      apart p w q = cc
  run-IsDelivered (ok p, v) = (
    (λ q. (p, v, refl, (send-IsDelivered p v).0 q)),
    (λ q. ap (λ x. (run r x).0.1) (q.2) ∙ (send-IsDelivered (q.0) (q.1)).1 (q.3)),
  )

  -- A write of a document returns no error exactly when its names are accepted, its options,
  -- completed from the document, are valid, without a sequence number in a creation, the BeforeWrite
  -- and Validate hooks, if any, return no error for the stamped document, what they make of it is
  -- encoded and fits the join field, the request for it can be made, the transport answers it with
  -- a status of 200 to 299 and a result that can be decoded within the limit, and the AfterWrite
  -- hook, if any, returns no error for that result.
  pub write-IsDelivered :
      (a : Action) (id : Bytes) (doc : Doc) (o : WriteOptions) (w : W)
      → ((write r a id doc o w).0.1 ≡ none)
        ↔ ((p : Prepared) × (w' : W) × IsPrepared a id doc o w p w' × IsDelivered p w')
  unfolding write
  write-IsDelivered a id doc o w =
      let k = run-IsDelivered (prepare_write r a id doc o w) in
      (
        (λ q. let (p, w', e, d) = k.0 q in (p, w', (prepare_write_iff a id doc o w p w').0 e, d)),
        (λ q. k.1 (q.0, q.1, (prepare_write_iff a id doc o w (q.0) (q.1)).1 (q.2), q.3)),
      )
