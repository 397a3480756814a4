-- ===== src/Repository.antt =====
-- repository.go and model.go: a repository, what its model and its hooks do, and the steps that
-- its operations share.
pub mod Writing
pub mod Patching
pub mod Reading
pub mod Creations
pub mod Steps
pub mod Delivery
pub mod Preparation
pub mod Joins
pub mod Batches
pub mod BatchHeader
pub mod BatchChecks
pub mod Updates
pub mod Loading
use esodm.Prelude.{
  ℕ, Bool, true, false, not, ◌&&◌, ◌||◌, Option, none, some, List, [], ◌∷◌, ◌++◌, Bytes, text,
  bytes_eq, is_empty, contains_byte, if◌then◌else◌, ℤ, pos,
}
use esodm.Error.{Err, Result, ok, err, reject, validation, caused, committed, sentinel}
use esodm.Names.{Unicode}
use esodm.Write.{Metadata, WriteResult, WriteOptions, Values}
use esodm.Read.{StoredHit}
use esodm.Bulk.{Action}
use esodm.Join.{JoinInfo, JoinJson}
use esodm.Client.{Http, Json, Decoder}
use esodm.Effect.{Effect, ◌>>=◌, ◌>>◌, lift, checked}

-- Schema, as far as operations read it.
pub record Schema : Type 0 where
  pub index : Bytes
  pub has_vectors : Bool
  pub join : Option JoinInfo

-- Patch: field names and values.
abbrev pub Patch : Type 0 → Type 0
Patch V = List (Bytes × V)

-- Hooks; those that get a pointer may change what it points to.
pub record Hooks (Doc V W : Type 0) : Type 0 where
  pub validate : Option (Doc → W → (Doc × Option Err) × W)
  pub before_write : Option (Action → Doc → W → (Doc × Option Err) × W)
  pub after_write : Option (Action → WriteResult → W → Option Err × W)
  pub after_read : Option (StoredHit Doc → W → (StoredHit Doc × Option Err) × W)
  pub before_patch : Option (Bytes → Patch V → W → (Patch V × Option Err) × W)
  pub before_delete : Option (Bytes → W → Option Err × W)

-- The interfaces that a document type may implement: Routed, Identified, Stamper with the name of
-- its updated field, MetadataReceiver; and json.Marshal.
pub record Model (Doc V W : Type 0) : Type 0 where
  pub routing : Option (Doc → Bytes)
  pub identity : Option (Doc → Bytes)
  pub stamper : Option (Action → Doc → W → Doc × W)
  pub updated_field : Option Bytes
  pub receiver : Option (Doc → Metadata → Doc)
  pub marshal : Doc → Result Bytes

-- Repository and its client; `now` is the audit clock, `encode_update` json.Marshal of the body of
-- an update with a document to create or none, and `routes` reads the stored routing of a hit.
pub record Repository (Doc V W : Type 0) : Type 0 where
  pub unicode : Unicode
  pub major : ℤ
  pub limit : ℕ
  pub schema : Schema
  pub hooks : Hooks Doc V W
  pub model : Model Doc V W
  pub http : Http W
  pub json : Json
  pub join_json : JoinJson
  pub now : W → V × W
  pub encode_update : Patch V → Option Bytes → Result Bytes
  pub routes : Bytes → Option (List Bytes)
  pub written : Decoder WriteResult
  pub read : Decoder (StoredHit Doc × Bool)

abbrev pub no_metadata : Metadata
no_metadata = record {
  index = [];
  id = [];
  routing = [];
  seq_no = none;
  primary_term = none;
  version = pos 0;
}

-- WriteResult{}
abbrev pub no_write : WriteResult
no_write = record {
  metadata = no_metadata;
  result = [];
  total = pos 0;
  successful = pos 0;
  failed = pos 0;
}

abbrev pub or_no_write : Option WriteResult → WriteResult
or_no_write none = no_write
or_no_write (some r) = r

-- A value that a hook may have changed, and its error.
abbrev pub changed : {A W : Type 0} → (A × Option Err) × W → Result A × W
changed ((a, none), w) = (ok a, w)
changed ((a, some e), w) = (err e, w)

-- fmt.Errorf("%w: %w", ErrValidation, err)
abbrev pub as_validation : {A : Type 0} → Result A → Result A
as_validation (err e) = err (caused validation e)
as_validation (ok a) = ok a

abbrev pub as_validation_effect : {A W : Type 0} → Result A × W → Result A × W
as_validation_effect (r, w) = (as_validation r, w)

-- A hook that is not set does nothing.
abbrev pub run_validate :
    {Doc W : Type 0} → Option (Doc → W → (Doc × Option Err) × W) → Doc → Effect W Doc
run_validate none doc w = (ok doc, w)
run_validate (some f) doc w = as_validation_effect (changed (f doc w))

abbrev pub run_before_write :
    {Doc W : Type 0}
    → Option (Action → Doc → W → (Doc × Option Err) × W)
    → Action
    → Doc
    → Effect W Doc
run_before_write none a doc w = (ok doc, w)
run_before_write (some f) a doc w = changed (f a doc w)

abbrev pub run_before_delete :
    {W : Type 0} → Option (Bytes → W → Option Err × W) → Bytes → Effect W (Unit {0})
run_before_delete none id w = (ok tt, w)
run_before_delete (some f) id w = checked (f id w)

abbrev pub stamped : {Doc W : Type 0} → Doc × W → Result Doc × W
stamped (doc, w) = (ok doc, w)

-- Repository.stamp
abbrev pub stamp :
    {Doc W : Type 0} → Option (Action → Doc → W → Doc × W) → Action → Doc → Effect W Doc
stamp none a doc w = (ok doc, w)
stamp (some f) a doc w = stamped (f a doc w)

-- modelOptions
abbrev pub routed_by : {Doc : Type 0} → Option (Doc → Bytes) → Doc → WriteOptions → WriteOptions
routed_by none doc o = o
routed_by (some f) doc o = record o { routing = f doc }

unfoldable pub model_options :
    {Doc : Type 0} → Option (Doc → Bytes) → Doc → WriteOptions → WriteOptions
model_options routing doc o = if is_empty o.routing then routed_by routing doc o else o

-- patch[field], ok
unfoldable pub has_field : {V : Type 0} → Patch V → Bytes → Bool
has_field [] name = false
has_field ((k, v) ∷ rest) name = bytes_eq k name || has_field rest name

abbrev pub with_time : {V W : Type 0} → Patch V → Bytes → V × W → Result (Patch V) × W
with_time patch name (v, w) = (ok ((name, v) ∷ patch), w)

-- Repository.stampPatch
unfoldable pub stamp_patch :
    {V W : Type 0} → (W → V × W) → Option Bytes → Patch V → Effect W (Patch V)
stamp_patch now none patch w = (ok patch, w)
stamp_patch now (some name) patch w =
    if is_empty name || contains_byte name b'.'
    then (err (sentinel validation), w)
    else if has_field patch name
    then (ok patch, w)
    else with_time patch name (now w)

abbrev pub run_before_patch :
    {V W : Type 0}
    → Option (Bytes → Patch V → W → (Patch V × Option Err) × W)
    → Bytes
    → Patch V
    → Effect W (Patch V)
run_before_patch none id patch w = (ok patch, w)
run_before_patch (some f) id patch w = changed (f id patch w)
