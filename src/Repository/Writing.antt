-- ===== src/Repository/Writing.antt =====
-- repository.go and model.go: the writes of one document, each as its preparation and its sending.
use esodm.Prelude.{
  Bool, true, false, not, ◌&&◌, Option, none, some, List, [], ◌∷◌, ◌++◌, Bytes, text, is_empty,
  if◌then◌else◌,
}
use esodm.Error.{Err, Result, ok, err, reject, validation, committed, sentinel}
use esodm.Names.{validate_id, validate_index_name}
use esodm.Write.{Metadata, WriteResult, WriteOptions, Refresh, Values, values, only_refresh, unset}
use esodm.Read.{set_value}
use esodm.Paths.{segment}
use esodm.Bulk.{Action, index, create, insert}
use esodm.Join.{is_some, validate_join}
use esodm.Client.Perform.{do_json}
use esodm.Effect.{Effect, ◌>>=◌, ◌>>◌, lift}
use esodm.Repository.{
  Repository, no_write, or_no_write, as_validation, run_validate, run_before_write, stamp,
  model_options,
}

-- WriteOption: a whole WriteOptions, a functional option, IfMatches, or nil.
pub data WriteOption : Type 0 where
  all_options : WriteOptions → WriteOption
  with_refresh : Refresh → WriteOption
  with_routing with_pipeline : Bytes → WriteOption
  if_matches : Metadata → WriteOption
  nil_option : WriteOption

abbrev pub matching : Metadata → WriteOptions → WriteOptions
matching m o = record o {
  routing = m.routing;
  if_seq_no = m.seq_no;
  if_primary_term = m.primary_term;
}

-- The loop of writeOptions.
unfoldable pub apply_options : List WriteOption → WriteOptions → Result WriteOptions
apply_options [] o = ok o
apply_options (all_options p ∷ rest) o = apply_options rest p
apply_options (with_refresh v ∷ rest) o = apply_options rest (record o { refresh = v })
apply_options (with_routing v ∷ rest) o = apply_options rest (record o { routing = v })
apply_options (with_pipeline v ∷ rest) o = apply_options rest (record o { pipeline = v })
apply_options (if_matches m ∷ rest) o = apply_options rest (matching m o)
apply_options (nil_option ∷ rest) o = err (sentinel validation)

-- writeOptions
abbrev pub write_options : List WriteOption → Result WriteOptions
write_options options = apply_options options (only_refresh unset)

-- A request that is ready to be sent; its body is a result of json.Marshal, if there is one.
pub record Prepared : Type 0 where
  pub operation : Action
  pub method : Bytes
  pub path : Bytes
  pub query : Values
  pub body : Option (Result Bytes)
  pub routing : Bytes

abbrev pub is_insert : Action → Bool
is_insert insert = true
is_insert _ = false

abbrev pub creates : Action → Bool
creates insert = true
creates create = true
creates _ = false

abbrev pub endpoint : Action → Bytes
endpoint create = text "_create"
endpoint _ = text "_doc"

-- "/" + segment(index) + "/" + endpoint + "/" + segment(id)
abbrev pub item_path : Bytes → Bytes → Bytes → Bytes
item_path i e id = text "/" ++ (segment i ++ (text "/" ++ (e ++ (text "/" ++ segment id))))

module _ {Doc V W : Type 0} (r : Repository Doc V W) where
  open r use {
    unicode, limit, schema, hooks, model, http, json, join_json, now, encode_update, written,
  }

  -- Repository.afterWrite
  abbrev pub hook_answer : WriteResult → Option Err × W → (WriteResult × Option Err) × W
  hook_answer result (none, w) = ((result, none), w)
  hook_answer result (some e, w) = ((result, some (committed e)), w)

  abbrev pub run_after_write :
      Option (Action → WriteResult → W → Option Err × W)
      → Action
      → WriteResult
      → W
      → (WriteResult × Option Err) × W
  run_after_write none a result w = ((result, none), w)
  run_after_write (some f) a result w = hook_answer result (f a result w)

  abbrev pub after_write : Action → WriteResult → Option Err → W → (WriteResult × Option Err) × W
  after_write a result (some e) w = ((result, some e), w)
  after_write a result none w = run_after_write hooks.after_write a result w

  abbrev pub with_route : Bytes → WriteResult → WriteResult
  with_route routing result = record result {
    metadata = record result.metadata { routing = routing };
  }

  abbrev pub answered :
      Prepared → (Option WriteResult × Option Err) × W → (WriteResult × Option Err) × W
  answered p ((out, e), w) = after_write p.operation (with_route p.routing (or_no_write out)) e w

  -- The request of an operation, and what follows it.
  unfoldable pub send : Prepared → W → (WriteResult × Option Err) × W
  send p w = answered p (do_json http json written limit p.method p.path p.query p.body true w)

  abbrev pub run : Result Prepared × W → (WriteResult × Option Err) × W
  run (err e, w) = ((no_write, some e), w)
  run (ok p, w) = send p w

  abbrev pub write_request : Action → Bytes → WriteOptions → Values → Bytes → Prepared
  write_request a id o q bytes =
      if is_insert a
      then record {
        operation = a;
        method = text "POST";
        path = text "/" ++ (segment schema.index ++ text "/_doc");
        query = set_value (text "op_type") (text "create") q;
        body = some (ok bytes);
        routing = o.routing;
      }
      else record {
        operation = a;
        method = text "PUT";
        path = item_path schema.index (endpoint a) id;
        query = q;
        body = some (ok bytes);
        routing = o.routing;
      }

  -- The rest of the preparation, where the options have been completed from the document.
  unfoldable pub prepare_document : Action → Bytes → Doc → WriteOptions → Effect W Prepared
  prepare_document a id doc o = do
    q ← lift (values o)
    lift (reject (creates a && is_some o.if_seq_no) validation)
    d1 ← stamp model.stamper a doc
    d2 ← run_before_write hooks.before_write a d1
    d3 ← run_validate hooks.validate d2
    bytes ← lift (as_validation (model.marshal d3))
    lift (validate_join unicode join_json schema.join bytes o.routing)
    lift (ok (write_request a id o q bytes))

  unfoldable pub prepare_write : Action → Bytes → Doc → WriteOptions → Effect W Prepared
  prepare_write a id doc o = do
    lift (validate_index_name unicode schema.index)
    lift (if is_insert a then ok tt else validate_id unicode id)
    prepare_document a id doc (model_options model.routing doc o)

  -- Repository.write
  unfoldable pub write : Action → Bytes → Doc → WriteOptions → W → (WriteResult × Option Err) × W
  write a id doc o w = run (prepare_write a id doc o w)

  -- Create and Replace
  unfoldable pub write_with :
      Action → Bytes → Doc → List WriteOption → W → (WriteResult × Option Err) × W
  write_with a id doc options w = elim (write_options options) [
    | err e ↦ ((no_write, some e), w)
    | ok o ↦ write a id doc o w
  ]

  -- Save
  unfoldable pub save : Doc → List WriteOption → W → (WriteResult × Option Err) × W
  save doc options w = elim (write_options options) [
    | err e ↦ ((no_write, some e), w)
    | ok o ↦ elim model.identity [
      | none ↦ ((no_write, some (sentinel validation)), w)
      | some f ↦
          write_with index (f doc) doc (all_options (model_options model.routing doc o) ∷ []) w
    ]
  ]

  abbrev pub identified : Option (Doc → Bytes) → Doc → Bool
  identified none doc = false
  identified (some f) doc = not (is_empty (f doc))

  -- Insert
  unfoldable pub insert_new : Doc → List WriteOption → W → (WriteResult × Option Err) × W
  insert_new doc options w = elim (write_options options) [
    | err e ↦ ((no_write, some e), w)
    | ok o ↦
        if identified model.identity doc
        then ((no_write, some (sentinel validation)), w)
        else write insert [] doc (model_options model.routing doc o) w
  ]
