-- ===== src/Migration/Steps.antt =====
-- migration.go: the functions StartMigration, submitMigration and ResumeMigration.
use esodm.Prelude.{
  true, false, not, ◌&&◌, ◌||◌, Option, none, some, List, [], ◌∷◌, Bytes, bytes_eq, is_empty,
  if◌then◌else◌, ℤ, pos, ltb_ℤ, eq_ℤ,
}
use esodm.Error.{
  Phase, planned, creating, created, submitting, copying, switching, complete, Err, Result, ok, err,
  sentinel, validation, conflict, message, pending, incomplete,
}
use esodm.Admin.{
  Cluster, Task, Reindexed, AliasAction, Io, find, mapping, refresh, create_index, aliases,
  resolve_alias,
}
use esodm.Migration.{
  MigrationState, MigrationPlan, MigrationOptions, check_mapping, check_count, validate_state,
  copied, phase_eq,
}
use esodm.Migration.Sequence.{Step, ◌>>=◌, ◌>>◌, io, get, modify, raise, done, fail_if, when}

-- `wait_task` is Admin.WaitTask, run to its end.
module _ (c : Cluster) (wait_task : Bytes → ℤ → Io c Task)
    (o : MigrationOptions c.Json c.World) where
  -- A migration in progress.
  abbrev pub Migrate : Type 0 → Type 0
  Migrate A = Step (MigrationState c.Json) c.World A

  abbrev pub at : Phase → MigrationState c.Json → MigrationState c.Json
  at p s = record s { phase = p }

  abbrev pub saved :
      MigrationState c.Json
      → Option Err × c.World
      → (MigrationState c.Json × Result (Unit {0})) × c.World
  saved s (none, w) = ((s, ok tt), w)
  saved s (some e, w) = ((s, err e), w)

  -- checkpoint
  unfoldable pub checkpoint : Migrate (Unit {0})
  checkpoint s w = saved s (o.checkpoint s w)

  -- The end of submitMigration.
  abbrev pub submitted : Option Bytes → Migrate (Unit {0})
  submitted none = do s ← get; raise (pending s.phase)
  submitted (some task) = do
    s ← get
    fail_if (is_empty task) (pending s.phase)
    modify (λ t. record t { task_id = task; phase = copying })
    checkpoint

  -- Admin.submitMigration
  unfoldable pub submit_migration : Migrate (Unit {0})
  submit_migration = do
    modify (at submitting)
    checkpoint
    s ← get
    task ← io (c.submit_reindex s.source s.target)
    submitted task

  -- if o.PollInterval == 0 { interval = time.Second }
  abbrev pub interval : ℤ
  interval = if eq_ℤ o.poll_interval (pos 0) then pos 1_000_000_000 else o.poll_interval

  -- The task's answer, in the copying phase of ResumeMigration.
  abbrev pub record_documents : Option ℤ → Migrate (Unit {0})
  record_documents none = raise incomplete
  record_documents (some n) = modify (λ s. record s { documents = n })

  abbrev pub record_copied : Option (Result Reindexed) → Migrate (Unit {0})
  record_copied none = raise incomplete
  record_copied (some (err e)) = raise e
  record_copied (some (ok r)) = record_documents (copied r)

  unfoldable pub copy : Migrate (Unit {0})
  copy = do
    s ← get
    fail_if (is_empty s.task_id) (sentinel validation)
    task ← io (wait_task s.task_id interval)
    record_copied task.response

  -- The phases created and copying of ResumeMigration.
  unfoldable pub finish_copy : Migrate (Unit {0})
  finish_copy = do
    s ← get
    when (phase_eq s.phase created) submit_migration
    t ← get
    when (phase_eq t.phase copying) copy

  -- The checks before the switch: mappings, refreshes and counts.
  unfoldable pub verify : Migrate (Unit {0})
  verify = do
    s ← get
    check_mapping c s.source s.source_mapping
    check_mapping c s.target s.mapping
    io (refresh c s.source)
    io (refresh c s.target)
    check_count c s.source
    check_count c s.target

  -- The two actions that move the alias.
  abbrev pub move_actions : MigrationState c.Json → List AliasAction
  move_actions s =
      (record { add = false; index = s.source; alias = s.alias; write_index = none })
      ∷ (record { add = true; index = s.target; alias = s.alias; write_index = some true })
      ∷ []

  unfoldable pub move_alias : Migrate (Unit {0})
  move_alias = do
    modify (at switching)
    checkpoint
    s ← get
    io (aliases c (move_actions s))
    modify (at complete)
    checkpoint

  -- The end of ResumeMigration.
  abbrev pub switch_from : Bytes → MigrationState c.Json → Migrate (Unit {0})
  switch_from current s =
      if (bytes_eq current s.target && phase_eq s.phase switching)
      then (modify (at complete) >> checkpoint)
      else (fail_if (not (bytes_eq current s.source)) (sentinel conflict) >> move_alias)

  unfoldable pub switch : Migrate (Unit {0})
  switch = do s ← get; current ← io (resolve_alias c s.alias); switch_from current s

  abbrev pub resume_from : Phase → Migrate (Unit {0})
  resume_from creating = raise (pending creating)
  resume_from submitting = raise (pending submitting)
  resume_from complete = done
  resume_from _ = finish_copy >> (verify >> switch)

  -- Admin.ResumeMigration
  unfoldable pub resume_migration : Migrate (Unit {0})
  resume_migration = do
    fail_if (not o.writes_paused || ltb_ℤ o.poll_interval (pos 0)) (sentinel validation)
    s ← get
    io (λ w. (validate_state c s, w))
    resume_from s.phase

  -- MigrationState{Version: 1, …}, for a plan that is not nil.
  abbrev pub planned_state : MigrationPlan c.Json → MigrationState c.Json
  planned_state p = record {
    version = pos 1;
    alias = p.alias;
    source = p.source;
    target = p.target;
    mapping = p.mapping;
    settings = p.settings;
    source_mapping = p.source_mapping;
    phase = planned;
    task_id = [];
    documents = pos 0;
  }

  abbrev pub normalize_mapping : Option c.Json → Migrate (Unit {0})
  normalize_mapping none = raise message
  normalize_mapping (some m) = modify (λ s. record s { mapping = m })

  -- StartMigration, from the creation of the target on, and from the state that the plan gives.
  unfoldable pub create_target : MigrationState c.Json → Migrate (Unit {0})
  create_target s = do
    modify (at creating)
    checkpoint
    io (create_index c s.target s.mapping s.settings)
    table ← io (mapping c s.target)
    normalize_mapping (find s.target table)
    modify (at created)
    checkpoint
    submit_migration

  unfoldable pub start_planned : Migrate (Unit {0})
  start_planned = do
    s ← get
    source ← io (resolve_alias c s.alias)
    fail_if (not (bytes_eq source s.source)) (sentinel conflict)
    check_mapping c source s.source_mapping
    io (refresh c source)
    create_target s

  -- Admin.StartMigration; `none` is the zero state that a refused plan leaves.
  abbrev pub started :
      (MigrationState c.Json × Result (Unit {0})) × c.World
      → (Option (MigrationState c.Json) × Result (Unit {0})) × c.World
  started ((s, r), w) = ((some s, r), w)

  unfoldable pub start_migration :
      Option (MigrationPlan c.Json)
      → c.World
      → (Option (MigrationState c.Json) × Result (Unit {0})) × c.World
  start_migration none w = ((none, err (sentinel validation)), w)
  start_migration (some p) w =
      if not o.writes_paused || ltb_ℤ o.poll_interval (pos 0)
      then ((none, err (sentinel validation)), w)
      else started (start_planned (planned_state p) w)
