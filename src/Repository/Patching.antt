-- ===== src/Repository/Patching.antt =====
-- repository.go: partial updates and deletions.
use esodm.Prelude.{not, Option, none, some, List, Bytes, text, is_empty}
use esodm.Error.{Err, Result, ok, reject, validation}
use esodm.Names.{validate_id, validate_index_name}
use esodm.Write.{WriteResult, WriteOptions, values}
use esodm.Bulk.{create, update, delete}
use esodm.Join.{require_join_routing, validate_join}
use esodm.Effect.{Effect, ◌>>=◌, ◌>>◌, lift}
use esodm.Repository.{
  Patch, Repository, as_validation, run_validate, run_before_delete, run_before_patch, stamp,
  stamp_patch, model_options,
}
use esodm.Repository.Writing.{WriteOption, write_options, Prepared, item_path, run}

module _ {Doc V W : Type 0} (r : Repository Doc V W) where
  open r use {unicode, schema, hooks, model, join_json, now, encode_update}

  -- Repository.preparePatch
  unfoldable pub prepare_patch : Bytes → Patch V → Effect W (Patch V)
  prepare_patch id patch = do
    lift (validate_id unicode id)
    p ← stamp_patch now model.updated_field patch
    run_before_patch hooks.before_patch id p

  -- Repository.update before its request; `body` is the result of json.Marshal.
  unfoldable pub prepare_update : Bytes → Result Bytes → WriteOptions → Effect W Prepared
  prepare_update id body o = do
    lift (validate_index_name unicode schema.index)
    lift (validate_id unicode id)
    q ← lift (values o)
    lift (reject (not (is_empty o.pipeline)) validation)
    lift (require_join_routing schema.join o.routing)
    lift (
        ok (record {
          operation = update;
          method = text "POST";
          path = item_path schema.index (text "_update") id;
          query = q;
          body = some body;
          routing = o.routing;
        }))

  -- Update
  unfoldable pub update_patch :
      Bytes → Patch V → List WriteOption → W → (WriteResult × Option Err) × W
  update_patch id patch options w = run r (
      (do
        lift (validate_index_name unicode schema.index)
        o ← lift (write_options options)
        p ← prepare_patch id patch
        prepare_update id (encode_update p none) o)
        w)

  -- Upsert
  unfoldable pub upsert :
      Bytes → Patch V → Doc → List WriteOption → W → (WriteResult × Option Err) × W
  upsert id patch doc options w = run r (
      (do
        lift (validate_index_name unicode schema.index)
        o ← lift (write_options options)
        d1 ← stamp model.stamper create doc
        d2 ← run_validate hooks.validate d1
        bytes ← lift (as_validation (model.marshal d2))
        lift (
            validate_join unicode join_json schema.join bytes
              ((model_options model.routing doc o).routing))
        p ← prepare_patch id patch
        prepare_update id (encode_update p (some bytes)) (model_options model.routing doc o))
        w)

  -- Delete before its request.
  unfoldable pub prepare_delete : Bytes → WriteOptions → Effect W Prepared
  prepare_delete id o = do
    lift (validate_id unicode id)
    q ← lift (values o)
    lift (reject (not (is_empty o.pipeline)) validation)
    lift (require_join_routing schema.join o.routing)
    run_before_delete hooks.before_delete id
    lift (
        ok (record {
          operation = delete;
          method = text "DELETE";
          path = item_path schema.index (text "_doc") id;
          query = q;
          body = none;
          routing = o.routing;
        }))

  -- Delete
  unfoldable pub delete_document : Bytes → List WriteOption → W → (WriteResult × Option Err) × W
  delete_document id options w = run r (
      (do
        lift (validate_index_name unicode schema.index)
        o ← lift (write_options options)
        prepare_delete id o)
        w)
