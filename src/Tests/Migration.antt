-- ===== src/Tests/Migration.antt =====
-- Tests of Names, Admin and Migration on a cluster with one alias.
use esodm.Prelude.{
  ℕ, suc, ◌≡◌, refl, true, false, some, none, [], ◌∷◌, Bytes, text, pos, arith, ◌≤◌, ◌≢◌, ◌⊎◌, ◌↔◌,
  All, length, ℤ, zero, is_empty, bytes_eq, contains_any, contains_byte,
}
use esodm.Error.{created, complete, Result, ok}
use esodm.Names.{Unicode, validate_name, validate_index_name}
use esodm.Names.Safe.{IsPlain, StartsPlain, index_name-IsPlain}
use esodm.Admin.{Cluster, Task, Ack, Reindexed, AdminRequest, aliases_request, AliasAction, Io}
use esodm.Decimal.{unsigned, digits_value}
use esodm.Admin.Polling.{wait_task, validate_task_id, cut}
use esodm.Admin.Waiting.{wait_task-Returns, Returns, waited, still_running, succeeded}
use esodm.Migration.{MigrationState, MigrationPlan, MigrationOptions}
use esodm.Migration.Triples.{Ends}
use esodm.Migration.Steps.{resume_migration, start_migration}
use esodm.Migration.Still.{Counts}
use esodm.Migration.Resume.{Covering, resume-alias}
use esodm.Migration.Apply.{apply_migration, apply-alias_moved}
use esodm.Migration.Start.{Started, start-submitted}

abbrev ascii : Unicode
ascii = record { to_lower = λ s. s; valid_string = λ _. true }

index_name-IsPlain_example :
    (text "books-v2" ≢ [])
    × (length (text "books-v2") ≤ 255)
    × (text "books-v2" ≢ text ".")
    × (text "books-v2" ≢ text "..")
    × (ascii.valid_string (text "books-v2") ≡ true)
    × (text "books-v2" ≡ text "books-v2")
    × StartsPlain (text "books-v2")
    × All IsPlain (text "books-v2")
unfolding is_empty bytes_eq contains_any
index_name-IsPlain_example =
    index_name-IsPlain ascii (text "books-v2") (unfold validate_index_name validate_name in refl)

-- The index behind the alias, the number of its moves, and the polls left until a task completes.
abbrev State : Type 0
State = Bytes × ℕ × ℕ

abbrev accepted_answer : Result Ack
accepted_answer = ok (record { acknowledged = some true; errors = false })

abbrev answer : AdminRequest ℕ → State → Result Ack × State
answer (aliases_request (old ∷ new ∷ [])) (i, n, k) = (accepted_answer, (new.index, suc n, k))
answer _ w = (accepted_answer, w)

abbrev three_copied : Reindexed
three_copied = record {
  total = some (pos 3);
  created = some (pos 3);
  version_conflicts = pos 0;
  timed_out = false;
  failures = 0;
}

abbrev running : ℕ → Task
running zero = record { completed = true; error = none; response = some (ok three_copied) }
running (suc k) = record { completed = false; error = none; response = none }

abbrev less : ℕ → ℕ
less zero = zero
less (suc k) = k

abbrev cluster : Cluster
cluster = record {
  World = State;
  Json = ℕ;
  canonical = λ n. some (n ∷ []);
  json_valid = λ _. true;
  unicode = ascii;
  get_alias = λ x w. (ok ((w.0, (x, []) ∷ []) ∷ []), w);
  get_mapping = λ x w. (ok ((x, 1) ∷ []), w);
  post_refresh = λ _ w. (ok (pos 0), w);
  send = answer;
  get_count = λ _ w. (ok (pos 3, pos 0), w);
  submit_reindex = λ _ _ w. (ok (some (text "node:1")), w);
  run_reindex = λ _ _ w. (ok three_copied, w);
  get_task = λ _ w. (ok (running (w.2)), w);
  wait = λ _ w. (none, (w.0, w.1, less (w.2)));
}

abbrev options : MigrationOptions ℕ State
options = record { writes_paused = true; poll_interval = pos 0; checkpoint = λ _ w. (none, w) }

-- A task that has completed when the call returns.
abbrev waiting : Bytes → ℤ → Io cluster Task
waiting id i w = (ok (running 0), (w.0, w.1, 0))

abbrev moves : State → ℕ
moves w = w.1

abbrev plan : MigrationPlan ℕ
plan = record {
  alias = text "books";
  source = text "books-1";
  target = text "books-2";
  mapping = 1;
  settings = none;
  source_mapping = 1;
}

abbrev created_state : MigrationState ℕ
created_state = record {
  version = pos 1;
  alias = text "books";
  source = text "books-1";
  target = text "books-2";
  mapping = 1;
  settings = none;
  source_mapping = 1;
  phase = created;
  task_id = [];
  documents = pos 0;
}

abbrev start_world : State
start_world = (text "books-1", 0, 2)

resumed : resume_migration cluster waiting options created_state start_world ≡ (
  (record created_state { phase = complete; task_id = text "node:1"; documents = pos 3 }, ok tt),
  (text "books-2", 1, 0),
)
unfolding resume_migration esodm.Admin.json_equal esodm.Migration.Sequence.◌>>=◌
    esodm.Migration.Sequence.fail_if esodm.Migration.Sequence.done esodm.Migration.Sequence.get
    esodm.Migration.Sequence.io esodm.Migration.validate_state validate_index_name validate_name
    is_empty bytes_eq contains_any esodm.Migration.Steps.finish_copy esodm.Migration.Sequence.when
    esodm.Migration.Steps.submit_migration esodm.Migration.Sequence.modify
    esodm.Migration.Steps.checkpoint esodm.Admin.ack esodm.Admin.aliases esodm.Admin.find
    esodm.Admin.mapping esodm.Admin.only_write_index esodm.Admin.refresh esodm.Admin.resolve_alias
    esodm.Admin.single_index esodm.Admin.validate_actions esodm.Migration.Sequence.raise
    esodm.Migration.Steps.copy esodm.Migration.Steps.move_alias esodm.Migration.Steps.switch
    esodm.Migration.Steps.verify esodm.Migration.check_count esodm.Migration.check_mapping
    contains_byte
resumed = refl

wait_task-Returns_example :
    (wait_task cluster 3 (text "node:1") (pos 1) start_world
      ≡ some (ok (running 0), (text "books-1", 0, 0)))
    ↔ Returns cluster 3 (text "node:1") (pos 1) (ok (running 0)) (text "books-1", 0, 0) start_world
wait_task-Returns_example =
    wait_task-Returns cluster 2 (text "node:1") (pos 1) (ok (running 0)) (text "books-1", 0, 0)
      start_world

a_wait-Returns :
    Returns cluster 3 (text "node:1") (pos 1) (ok (running 0)) (text "books-1", 0, 0) start_world
unfolding cut validate_task_id unsigned digits_value is_empty
a_wait-Returns = waited 2 refl refl (omega arith) (
    still_running {w = start_world} (running 2) start_world (text "books-1", 0, 1) refl refl refl
      (still_running {w = (text "books-1", 0, 1)} (running 1) (text "books-1", 0, 1)
        (text "books-1", 0, 0) refl refl refl (succeeded (running 0) refl refl refl refl)))

counts : Counts cluster waiting options moves
counts = record {
  by_alias = λ _ _. refl;
  by_mapping = λ _ _. refl;
  by_refresh = λ _ _. refl;
  by_count = λ _ _. refl;
  by_reindex = λ _ _ _. refl;
  by_create = λ _ _ _ _. refl;
  by_task = λ _ _ _. refl;
  by_checkpoint = λ _ _. refl;
}

resume-alias_example :
    Ends
      (λ _ t v. t.phase ≡ complete)
      (λ t v. (moves v ≡ moves start_world) ⊎ Covering cluster waiting options moves counts t.phase)
      (resume_migration cluster waiting options created_state start_world)
resume-alias_example = resume-alias cluster waiting options moves counts created_state start_world

start-submitted_example :
    Started cluster waiting options moves counts 0
      (start_migration cluster waiting options (some plan) start_world)
start-submitted_example =
    start-submitted cluster waiting options moves counts (some plan) start_world

apply-alias_moved_example :
    Ends
      (λ _ r v. r.alias_moved ≡ true)
      (λ r v. r.alias_moved ≡ false)
      (apply_migration cluster (some plan) options start_world)
apply-alias_moved_example = apply-alias_moved cluster (some plan) options start_world
