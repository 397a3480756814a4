-- ===== src/Bulk.antt =====
-- bulk.go: the operations and outcomes of a bulk request, and what the code calls to run one.
pub mod Send
pub mod Loop
pub mod Sequence
use esodm.Prelude.{ℕ, Bool, true, false, Option, Bytes, List, ℤ}
use esodm.Error.{Err, Result}
use esodm.Write.{WriteOptions, WriteResult, Refresh}

-- BulkAction, with `insert` of Operation; `other` is any other text.
pub data Action : Type 0 where
  insert index create update delete other : Action

-- BulkOperation; the type of patches is a parameter too.
pub record Operation (Doc Patch : Type 0) : Type 0 where
  pub action : Action
  pub id : Bytes
  pub document : Doc
  pub patch : Patch
  pub options : WriteOptions

-- BulkItem; no error is success.
pub record BulkItem : Type 0 where
  pub action : Action
  pub result : WriteResult
  pub status : ℕ
  pub error : Option Err

-- BulkResult
pub record BulkResult : Type 0 where
  pub took : ℤ
  pub items : List BulkItem

-- types.ErrorCause, as far as it is read.
pub record ErrorCause : Type 0 where
  pub type : Bytes
  pub reason : Option Bytes

-- One entry of a response item.
pub record Entry : Type 0 where
  pub result : WriteResult
  pub status : ℕ
  pub error : Option ErrorCause

-- The decoded answer: each item is a JSON object, from action names to entries.
pub record Response : Type 0 where
  pub took : ℤ
  pub items : List (List (Action × Entry))

abbrev pub action_eq : Action → Action → Bool
action_eq insert insert = true
action_eq index index = true
action_eq create create = true
action_eq update update = true
action_eq delete delete = true
action_eq other other = true
action_eq _ _ = false

-- What a bulk run calls. `World` is all that lies outside: the cluster, the clock, the hooks' state.
pub record Backend (Doc Patch : Type 0) : Type 1 where
  pub World : Type 0
  -- normalizeBulk and EncodeOperation: metadata and body, or an error.
  pub normalize : Operation Doc Patch → Result (Operation Doc Patch)
  pub encode : Operation Doc Patch → World → Result (Bytes × Bytes) × World
  -- Client.request for POST /_bulk, with the decoded response.
  pub request : Refresh → Bytes → World → Result Response × World
  -- Repository.hooks.AfterWrite; with no hook the answer is always nil.
  pub after_write : Action → WriteResult → World → Option Err × World
  -- ctx.Err, waitContext and rand.Int64N
  pub ctx_err : World → Option Err
  pub wait : ℤ → World → Option Err × World
  pub int64n : World → (ℕ → ℕ) × World
