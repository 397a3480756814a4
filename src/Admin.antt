-- ===== src/Admin.antt =====
-- admin.go and operations.go: the management calls that migrations are made of, over the decoded
-- answers of the cluster. Package encoding/json is a parameter, and so is the outside world.
pub mod Polling
pub mod Waiting
use esodm.Prelude.{
  ℕ, zero, suc, Bool, true, false, not, ◌&&◌, ◌||◌, Option, none, some, List, [], ◌∷◌, Bytes, text,
  bytes_eq, is_empty, if◌then◌else◌, ℤ, pos, ltb_ℤ, ◌==◌,
}
use esodm.Error.{
  Err, Result, ok, err, sentinel, validation, unsupported, unacknowledged, partial_search, reject,
}
use esodm.Names.{Unicode, validate_name}

-- AliasAction; an absent write index is none.
pub record AliasAction : Type 0 where
  pub add : Bool
  pub index : Bytes
  pub alias : Bytes
  pub write_index : Option Bool

-- The answer of GET /_alias/NAME: to each index its aliases, to each alias its option keys.
abbrev pub AliasTable : Type 0
AliasTable = List (Bytes × List (Bytes × List Bytes))

-- The acknowledgement of a management request.
pub record Ack : Type 0 where
  pub acknowledged : Option Bool
  pub errors : Bool

-- The answer of a synchronous reindex, or of the task of an asynchronous one.
pub record Reindexed : Type 0 where
  pub total : Option ℤ
  pub created : Option ℤ
  pub version_conflicts : ℤ
  pub timed_out : Bool
  pub failures : ℕ

-- taskget.Response: the error type of a failed task, and the answer of a completed one.
pub record Task : Type 0 where
  pub completed : Bool
  pub error : Option Bytes
  pub response : Option (Result Reindexed)

-- The requests that want an acknowledgement, with their bodies.
pub data AdminRequest (Json : Type 0) : Type 0 where
  create_index_request : Bytes → Json → Option Json → AdminRequest Json
  delete_index_request : Bytes → AdminRequest Json
  aliases_request : List AliasAction → AdminRequest Json
  mapping_request : Bytes → Json → AdminRequest Json
  settings_request : Bytes → Json → AdminRequest Json

-- Client.Do and Client.DoTyped with decoded answers, the clock, and package encoding/json.
pub record Cluster : Type 1 where
  pub World : Type 0
  pub Json : Type 0
  -- the text of a document that is decoded and marshalled again; an absent one cannot be decoded
  pub canonical : Json → Option Bytes
  pub json_valid : Json → Bool
  pub unicode : Unicode
  pub get_alias : Bytes → World → Result AliasTable × World
  pub get_mapping : Bytes → World → Result (List (Bytes × Json)) × World
  pub post_refresh : Bytes → World → Result ℤ × World
  pub send : AdminRequest Json → World → Result Ack × World
  -- the count of an index and the failed shards
  pub get_count : Bytes → World → Result (ℤ × ℤ) × World
  -- an asynchronous reindex from one index to another, and a synchronous one
  pub submit_reindex : Bytes → Bytes → World → Result (Option Bytes) × World
  pub run_reindex : Bytes → Bytes → World → Result Reindexed × World
  pub get_task : Bytes → World → Result Task × World
  -- waitContext
  pub wait : ℤ → World → Option Err × World

-- A lookup in a decoded JSON object.
unfoldable pub find {ℓ} : {V : Type ℓ} → Bytes → List (Bytes × V) → Option V
find k [] = none
find k ((j, v) ∷ m) = if bytes_eq j k then some v else find k m

-- if out.Acknowledged == nil || !*out.Acknowledged || out.Errors
abbrev pub accepted : Ack → Bool
accepted a = elim a.acknowledged [ none ↦ false | some yes' ↦ yes' && not a.errors ]

-- Every option key of an alias is is_write_index.
unfoldable pub only_write_index : List Bytes → Bool
only_write_index [] = true
only_write_index (k ∷ ks) = bytes_eq k (text "is_write_index") && only_write_index ks

-- The test of the single index that an alias names.
unfoldable pub single_index : Bytes → AliasTable → Result Bytes
single_index alias ((index, aliases) ∷ []) = elim (find alias aliases) [
  | none ↦ err (sentinel validation)
  | some keys ↦ if only_write_index keys then ok index else err (sentinel unsupported)
]
single_index alias _ = err (sentinel validation)

-- The validation loop of Aliases.
unfoldable pub validate_actions : List AliasAction → Result (Unit {0})
validate_actions [] = ok tt
validate_actions (a ∷ rest) = elim (validate_name a.index) [
  | err e ↦ err e
  | ok _ ↦ elim (validate_name a.alias) [ err e ↦ err e | ok _ ↦ validate_actions rest ]
]

module _ (c : Cluster) where
  open c use {World, Json, canonical, get_alias, get_mapping, post_refresh, send, get_count}

  -- A call that may change the world.
  abbrev pub Io : Type 0 → Type 0
  Io A = World → Result A × World

  -- A call after a validation.
  abbrev pub checked : {A : Type 0} → Result (Unit {0}) → Io A → Io A
  checked (err e) m w = (err e, w)
  checked (ok _) m w = m w

  abbrev pub then_result : {A B : Type 0} → (A → Result B) → Result A × World → Result B × World
  then_result f (err e, w) = (err e, w)
  then_result f (ok a, w) = (f a, w)

  -- Admin.ack
  unfoldable pub ack : AdminRequest Json → Io (Unit {0})
  ack request w =
      then_result (λ a. if accepted a then ok tt else err (sentinel unacknowledged))
        (send request w)

  -- Admin.CreateIndex with a mapping and optional settings
  unfoldable pub create_index : Bytes → Json → Option Json → Io (Unit {0})
  create_index name mapping settings =
      checked (validate_name name) (ack (create_index_request name mapping settings))

  -- Admin.DeleteIndex, Admin.PutMapping, Admin.PutSettings
  unfoldable pub delete_index : Bytes → Io (Unit {0})
  delete_index name = checked (validate_name name) (ack (delete_index_request name))

  unfoldable pub put_mapping : Bytes → Json → Io (Unit {0})
  put_mapping index mapping = checked (validate_name index) (ack (mapping_request index mapping))

  unfoldable pub put_settings : Bytes → Json → Io (Unit {0})
  put_settings index settings =
      checked (validate_name index) (ack (settings_request index settings))

  -- Admin.Mapping and the decoding of its answer
  unfoldable pub mapping : Bytes → Io (List (Bytes × Json))
  mapping index = checked (validate_name index) (get_mapping index)

  -- Admin.Refresh
  unfoldable pub refresh : Bytes → Io (Unit {0})
  refresh index = checked (validate_name index) (λ w.
      then_result
        (λ failed. if ltb_ℤ (pos 0) failed then err (partial_search false failed) else ok tt)
        (post_refresh index w))

  -- Admin.Aliases
  unfoldable pub aliases : List AliasAction → Io (Unit {0})
  aliases [] w = (err (sentinel validation), w)
  aliases (a ∷ rest) w = checked (validate_actions (a ∷ rest)) (ack (aliases_request (a ∷ rest))) w

  -- Admin.resolveAlias
  unfoldable pub resolve_alias : Bytes → Io Bytes
  resolve_alias alias w = then_result (single_index alias) (get_alias alias w)

  abbrev pub same_text : Option Bytes → Option Bytes → Bool
  same_text (some a) (some b) = bytes_eq a b
  same_text _ _ = false

  -- jsonEqual
  unfoldable pub json_equal : Json → Json → Bool
  json_equal a b = same_text (canonical a) (canonical b)

  -- jsonEqual(response[index].Mappings, want); an absent mapping equals nothing.
  abbrev pub same_mapping : Option Json → Json → Bool
  same_mapping none want = false
  same_mapping (some m) want = json_equal m want
