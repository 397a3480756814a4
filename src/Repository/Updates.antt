-- ===== src/Repository/Updates.antt =====
-- operations.go: UpdateWith, an update by an official request body.
use esodm.Prelude.{
  Bool, false, not, ◌&&◌, ◌||◌, Option, none, some, Bytes, text, is_empty, if◌then◌else◌, ℤ, pos,
  ltb_ℤ,
}
use esodm.Error.{Err, Result, ok, err, sentinel, reject, validation}
use esodm.Decimal.{itoa}
use esodm.Names.{validate_id, validate_index_name}
use esodm.Write.{WriteResult, WriteOptions, Values, values}
use esodm.Read.{set_value}
use esodm.Bulk.{create, update}
use esodm.Join.{is_some, require_join_routing, validate_join}
use esodm.Effect.{Effect, ◌>>=◌, ◌>>◌, lift}
use esodm.Repository.{Patch, Repository, as_validation, run_validate, stamp}
use esodm.Repository.Writing.{Prepared, item_path, run}
use esodm.Repository.Patching.{prepare_patch}

-- update.Request: the raw document and upsert document, whether there is a script, DocAsUpsert.
pub record UpdateRequest : Type 0 where
  pub doc : Bytes
  pub upsert : Bytes
  pub has_script : Bool
  pub doc_as_upsert : Option Bool

-- UpdateOptions
pub record UpdateOptions : Type 0 where
  pub write : WriteOptions
  pub retry_on_conflict : ℤ

-- encoding/json: a patch, none for null; whether a text is one JSON value; a document; and the
-- encodings of a patch and of a request.
pub record UpdateJson (Doc V : Type 0) : Type 0 where
  pub decode_patch : Bytes → Result (Option (Patch V))
  pub is_valid : Bytes → Bool
  pub decode_document : Bytes → Result Doc
  pub encode_patch : Patch V → Result Bytes
  pub encode_request : UpdateRequest → Result Bytes

unfoldable pub check_options_of_update : UpdateOptions → Result (Unit {0})
check_options_of_update o =
    reject
      (ltb_ℤ o.retry_on_conflict (pos 0)
        || (ltb_ℤ (pos 0) o.retry_on_conflict && is_some o.write.if_seq_no)
        || not (is_empty o.write.pipeline))
      validation

abbrev pub is_true : Option Bool → Bool
is_true none = false
is_true (some b) = b

abbrev pub required : {A : Type 0} → Option A → Result A
required none = err (sentinel validation)
required (some a) = ok a

-- DocAsUpsert, which makes the document the one to create.
unfoldable pub upsert_document : UpdateRequest → Result UpdateRequest
upsert_document q =
    if is_true q.doc_as_upsert
    then (if q.has_script || not (is_empty q.upsert)
        then err (sentinel validation)
        else ok (record q { upsert = q.doc; doc_as_upsert = none }))
    else ok q

module _ {Doc V W : Type 0} (r : Repository Doc V W) (c : UpdateJson Doc V) where
  open r use {unicode, schema, hooks, model, join_json}

  abbrev pub patch_of : Bytes → Option (Patch V) → Result (Patch V)
  patch_of raw none = err (sentinel validation)
  patch_of raw (some p) = if c.is_valid raw then ok p else err (sentinel validation)

  -- The document as a patch, prepared.
  unfoldable pub prepare_doc : Bytes → UpdateRequest → Effect W UpdateRequest
  prepare_doc id q = if is_empty q.doc then lift (ok q) else (do
    decoded ← lift (as_validation (c.decode_patch q.doc))
    given ← lift (patch_of q.doc decoded)
    patch ← prepare_patch r id given
    bytes ← lift (c.encode_patch patch)
    lift (ok (record q { doc = bytes })))

  -- The document to create, stamped and validated.
  unfoldable pub prepare_upsert : WriteOptions → UpdateRequest → Effect W UpdateRequest
  prepare_upsert o q = if is_empty q.upsert then lift (ok q) else (do
    d0 ← lift (as_validation (c.decode_document q.upsert))
    d1 ← stamp model.stamper create d0
    d2 ← run_validate hooks.validate d1
    bytes ← lift (model.marshal d2)
    lift (validate_join unicode join_json schema.join bytes o.routing)
    lift (ok (record q { upsert = bytes })))

  abbrev pub retried : ℤ → Values → Values
  retried n v = if ltb_ℤ (pos 0) n then set_value (text "retry_on_conflict") (itoa n) v else v

  -- UpdateWith before its request; a nil request is none.
  unfoldable pub prepare_update_with :
      Bytes → Option UpdateRequest → UpdateOptions → Effect W Prepared
  prepare_update_with id given o = do
    lift (validate_index_name unicode schema.index)
    q0 ← lift (required given)
    lift (validate_id unicode id)
    lift (check_options_of_update o)
    v ← lift (values o.write)
    lift (require_join_routing schema.join o.write.routing)
    lift (reject (not (is_empty q0.doc) && q0.has_script) validation)
    lift (reject (is_empty q0.doc && not q0.has_script) validation)
    q1 ← prepare_doc id q0
    q2 ← lift (upsert_document q1)
    q3 ← prepare_upsert o.write q2
    lift (
        ok (record {
          operation = update;
          method = text "POST";
          path = item_path schema.index (text "_update") id;
          query = retried o.retry_on_conflict v;
          body = some (c.encode_request q3);
          routing = o.write.routing;
        }))

  -- UpdateWith, without the updated source that it only decodes
  unfoldable pub update_with :
      Bytes → Option UpdateRequest → UpdateOptions → W → (WriteResult × Option Err) × W
  update_with id given o w = run r (prepare_update_with id given o w)
