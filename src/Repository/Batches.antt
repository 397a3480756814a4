-- ===== src/Repository/Batches.antt =====
-- bulk.go and bulk_retry.go: the preparation of one operation of a batch.
use esodm.Prelude.{
  Bool, true, false, not, ◌&&◌, Option, none, some, [], Bytes, is_empty, if◌then◌else◌, ℤ,
}
use esodm.Error.{Result, ok, err, sentinel, reject, validation}
use esodm.Names.{validate_id, validate_index_name}
use esodm.Write.{Refresh, values, unset}
use esodm.Bulk.{Action, index, create, update, delete, Operation}
use esodm.Join.{is_some, require_join_routing, validate_join}
use esodm.Effect.{Effect, ◌>>=◌, ◌>>◌, lift}
use esodm.Repository.{
  Patch, Repository, as_validation, as_validation_effect, run_validate, run_before_write,
  run_before_delete, stamp, model_options,
}
use esodm.Repository.Patching.{prepare_patch}

-- types.OperationContainer: the one operation that is set.
pub record Header : Type 0 where
  pub action : Action
  pub index : Bytes
  pub id : Option Bytes
  pub routing : Option Bytes
  pub if_seq_no : Option ℤ
  pub if_primary_term : Option ℤ
  pub pipeline : Option Bytes

abbrev pub writes_document : Action → Bool
writes_document index = true
writes_document create = true
writes_document _ = false

abbrev pub is_create : Action → Bool
is_create create = true
is_create _ = false

abbrev pub is_set_refresh : Refresh → Bool
is_set_refresh unset = false
is_set_refresh _ = true

-- A pointer to a value that is not empty.
abbrev pub non_empty : Bytes → Option Bytes
non_empty s = if is_empty s then none else some s

module _ {Doc V : Type 0} (routing identity : Option (Doc → Bytes)) where
  abbrev pub identified_by : Option (Doc → Bytes) → Operation Doc V → Result (Operation Doc V)
  identified_by none op = ok op
  identified_by (some f) op =
      if is_empty (f op.document) && not (is_create op.action)
      then err (sentinel validation)
      else ok (record op { id = f op.document })

  abbrev pub with_model_options : Operation Doc V → Operation Doc V
  with_model_options op = record op { options = model_options routing op.document op.options }

  -- normalizeBulk
  unfoldable pub normalize_bulk : Operation Doc V → Result (Operation Doc V)
  normalize_bulk op =
      if writes_document op.action
      then (if is_empty op.id
          then identified_by identity (with_model_options op)
          else ok (with_model_options op))
      else ok op

module _ {Doc V W : Type 0} (r : Repository Doc V W) (encode_header : Header → Result Bytes) where
  open r use {unicode, schema, hooks, model, join_json, encode_update}

  abbrev pub header : Operation Doc (Patch V) → Header
  header op = record {
    action = op.action;
    index = schema.index;
    id = non_empty op.id;
    routing = non_empty op.options.routing;
    if_seq_no = if is_create op.action then none else op.options.if_seq_no;
    if_primary_term = if is_create op.action then none else op.options.if_primary_term;
    pipeline = if writes_document op.action then non_empty op.options.pipeline else none;
  }

  abbrev pub id_allowed : Operation Doc (Patch V) → Result (Unit {0})
  id_allowed op = if is_create op.action && is_empty op.id then ok tt else validate_id unicode op.id

  -- The tests of prepareBulk before the switch over the action.
  unfoldable pub check_bulk : Operation Doc (Patch V) → Effect W (Unit {0})
  check_bulk op = do
    lift (id_allowed op)
    q ← lift (values op.options)
    lift (reject (is_set_refresh op.options.refresh) validation)
    lift (reject (is_create op.action && is_some op.options.if_seq_no) validation)
    lift (reject (not (is_empty op.options.pipeline) && not (writes_document op.action)) validation)

  abbrev pub document_body : Operation Doc (Patch V) → Effect W Bytes
  document_body op = do
    d1 ← stamp model.stamper op.action op.document
    d2 ← run_before_write hooks.before_write op.action d1
    d3 ← run_validate hooks.validate d2
    bytes ← lift (as_validation (model.marshal d3))
    lift (as_validation (validate_join unicode join_json schema.join bytes op.options.routing))
    lift (ok bytes)

  -- The switch over the action.
  unfoldable pub bulk_body : Action → Operation Doc (Patch V) → Effect W Bytes
  bulk_body index op = document_body op
  bulk_body create op = document_body op
  bulk_body update op = do
    lift (require_join_routing schema.join op.options.routing)
    patch ← prepare_patch r op.id op.patch
    lift (as_validation (encode_update patch none))
  bulk_body delete op = do
    lift (as_validation (require_join_routing schema.join op.options.routing))
    (λ w. as_validation_effect (run_before_delete hooks.before_delete op.id w))
    lift (ok [])
  bulk_body _ op = lift (err (sentinel validation))

  -- prepareBulk
  unfoldable pub prepare_bulk : Operation Doc (Patch V) → Effect W (Header × Bytes)
  prepare_bulk given = do
    lift (validate_index_name unicode schema.index)
    op ← lift (normalize_bulk model.routing model.identity given)
    check_bulk op
    body ← bulk_body op.action op
    lift (ok (header op, body))

  -- EncodeOperation
  unfoldable pub encode_operation : Operation Doc (Patch V) → Effect W (Bytes × Bytes)
  encode_operation op = do
    prepared ← prepare_bulk op
    metadata ← lift (encode_header (prepared.0))
    lift (ok (metadata, prepared.1))
