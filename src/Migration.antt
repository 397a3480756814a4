-- ===== src/Migration.antt =====
-- migration.go: checkpointed migrations. Every function returns its latest state beside its error,
-- so a step passes the state on and keeps what was written before a failure.
pub mod Sequence
pub mod Triples
pub mod Steps
pub mod Still
pub mod Resume
pub mod Start
pub mod Apply
use esodm.Prelude.{
  ℕ, zero, suc, Bool, true, false, not, ◌&&◌, ◌||◌, Option, none, some, List, [], ◌∷◌, Bytes,
  bytes_eq, is_empty, if◌then◌else◌, ℤ, pos, ltb_ℤ, eq_ℤ, ltb,
}
use esodm.Error.{
  Phase, planned, creating, created, submitting, copying, switching, complete, unknown, Err, Result,
  ok, err, sentinel, validation, conflict, message, pending, incomplete, partial_search, reject,
  ◌>>=◌ as after, ◌>>◌ as andthen,
}
use esodm.Migration.Sequence.{Step, ◌>>=◌, ◌>>◌, io, get, fail_if}
use esodm.Names.{validate_index_name}
use esodm.Admin.{
  Cluster, Task, Reindexed, AliasAction, Io, find, same_mapping, mapping, refresh, create_index,
  aliases, resolve_alias,
}

-- MigrationState, with the names of its Summary; the parts of the summary that only inform the
-- reader are left out. Settings that are JSON null are absent.
pub record MigrationState (Json : Type 0) : Type 0 where
  pub version : ℤ
  pub alias : Bytes
  pub source : Bytes
  pub target : Bytes
  pub mapping : Json
  pub settings : Option Json
  pub source_mapping : Json
  pub phase : Phase
  pub task_id : Bytes
  pub documents : ℤ

-- MigrationPlan
pub record MigrationPlan (Json : Type 0) : Type 0 where
  pub alias : Bytes
  pub source : Bytes
  pub target : Bytes
  pub mapping : Json
  pub settings : Option Json
  pub source_mapping : Json

-- MigrationOptions; where no callback is set, `checkpoint` answers no error and changes nothing.
pub record MigrationOptions (Json World : Type 0) : Type 0 where
  pub writes_paused : Bool
  pub poll_interval : ℤ
  pub checkpoint : MigrationState Json → World → Option Err × World

-- The phases of a checkpoint that is worth resuming.
abbrev pub resumable : Phase → Bool
resumable planned = false
resumable unknown = false
resumable _ = true

abbrev pub phase_eq : Phase → Phase → Bool
phase_eq planned planned = true
phase_eq creating creating = true
phase_eq created created = true
phase_eq submitting submitting = true
phase_eq copying copying = true
phase_eq switching switching = true
phase_eq complete complete = true
phase_eq unknown unknown = true
phase_eq _ _ = false

abbrev pub check_name : Cluster → Bytes → Result (Unit {0})
check_name c = validate_index_name c.unicode

-- MigrationState.validate
unfoldable pub validate_state : (c : Cluster) → MigrationState c.Json → Result (Unit {0})
validate_state c s =
    andthen
      (reject
        (not (eq_ℤ s.version (pos 1))
          || ltb_ℤ s.documents (pos 0)
          || not (c.json_valid s.mapping)
          || not (c.json_valid s.source_mapping)
          || not (elim s.settings [ none ↦ true | some j ↦ c.json_valid j ]))
        validation)
      (andthen (check_name c s.alias) (
        andthen (check_name c s.source) (
          andthen (check_name c s.target) (
            andthen (reject (bytes_eq s.source s.target || bytes_eq s.alias s.target) validation)
              (reject (not (resumable s.phase)) validation)))))

-- The test of the answer of a finished reindex.
abbrev pub copied : Reindexed → Option ℤ
copied r = elim r.total [
  | none ↦ none
  | some total ↦ elim r.created [
    | none ↦ none
    | some created' ↦
        if ltb_ℤ total (pos 0)
          || ltb_ℤ created' (pos 0)
          || r.timed_out
          || ltb_ℤ (pos 0) r.version_conflicts
          || ltb 0 r.failures
          || not (eq_ℤ created' total)
        then none
        else some created'
  ]
]

module _ (c : Cluster) where
  -- Admin.checkMigrationMapping
  unfoldable pub check_mapping : Bytes → c.Json → Step (MigrationState c.Json) c.World (Unit {0})
  check_mapping index want = do
    table ← io (mapping c index)
    fail_if (not (same_mapping c (find index table) want)) (sentinel conflict)

  -- One round of the loop over the counts of ResumeMigration.
  unfoldable pub check_count : Bytes → Step (MigrationState c.Json) c.World (Unit {0})
  check_count index = do
    counted ← io (c.get_count index)
    s ← get
    fail_if (ltb_ℤ (pos 0) counted.1) (partial_search false counted.1)
    fail_if (not (eq_ℤ counted.0 s.documents)) (sentinel conflict)
