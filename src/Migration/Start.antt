-- ===== src/Migration/Start.antt =====
-- migration.go: what StartMigration does to the alias and to the phase.
use esodm.Prelude.{
  ℕ, Bool, true, false, ◌≡◌, refl, ◌∙◌, if◌then◌else◌, Option, none, some, Bytes, is_empty, ℤ,
}
use esodm.Error.{
  Phase, creating, created, submitting, copying, Result, ok, err, sentinel, conflict, validation,
  pending, message,
}
use esodm.Admin.{Cluster, Task, Io, find, mapping, refresh, create_index, resolve_alias}
use esodm.Migration.{MigrationState, MigrationPlan, MigrationOptions, check_mapping}
use esodm.Migration.Sequence.{Step, ◌>>=◌, ◌>>◌, io, get, modify, raise, fail_if}
use esodm.Migration.Triples.{
  Triple, Keeps, Ends, bind_rule, io_rule, get_rule, modify_rule, passed_rule, keeps_rule,
}
use esodm.Migration.Steps.{
  checkpoint, submit_migration, submitted, normalize_mapping, create_target, start_planned, started,
  start_migration, planned_state, at,
}
use esodm.Migration.Still.{
  Counts, Still, fail-Still, mapping-Still, refresh-Still, resolve-Still, create-Still,
  check_mapping-Still, checkpoint-Still, modify-Still, raise-Still, saved_rule,
}

module _ (c : Cluster) (wait_task : Bytes → ℤ → Io c Task) (o : MigrationOptions c.Json c.World)
    (moved : c.World → ℕ) (h : Counts c wait_task o moved) where
  abbrev Quiet : ℕ → MigrationState c.Json → c.World → Type 0
  Quiet = Still c wait_task o moved h

  -- The reindex has been submitted.
  abbrev Submitted : ℕ → MigrationState c.Json → c.World → Type 0
  Submitted n s w = (is_empty s.task_id ≡ false) × (s.phase ≡ copying) × Quiet n s w

  checkpoint-Submitted : (n : ℕ) → Keeps (Submitted n) (checkpoint c wait_task o)
  unfolding checkpoint
  checkpoint-Submitted n s w q =
      saved_rule c wait_task o moved h (Submitted n) s (o.checkpoint s w)
        (q.0, q.1, h.by_checkpoint s w ∙ (q.2))

  Submitted-some :
      (n : ℕ) (t : Bytes) (p : Phase)
      → Triple
          (Quiet n)
          (fail_if (is_empty t) (pending p)
            >> (modify (λ s. record s { task_id = t; phase = copying })
                >> checkpoint c wait_task o))
          (λ _. Submitted n)
          (Quiet n)
  Submitted-some n t p =
      bind_rule (Quiet n) (λ _ s w. (is_empty t ≡ false) × Quiet n s w) (λ _. Submitted n) (Quiet n)
        (fail_if (is_empty t) (pending p)) _ (passed_rule (Quiet n) (is_empty t) (pending p))
        (λ _.
          bind_rule _ (λ _. Submitted n) (λ _. Submitted n) (Quiet n) _ _
            (modify_rule (λ s w. (is_empty t ≡ false) × Quiet n s w) (Submitted n) (Quiet n) _
              (λ s w q. (q.0, refl, q.1)))
            (λ _.
              keeps_rule (Submitted n) (Quiet n) (checkpoint c wait_task o) (λ s w q. q.2)
                (checkpoint-Submitted n)))

  Quiet-then :
      {A : Type 0} (n : ℕ) (m : Step (MigrationState c.Json) c.World A)
      (k : A → Step (MigrationState c.Json) c.World (Unit {0}))
      → Keeps (Quiet n) m
      → ((a : A) → Triple (Quiet n) (k a) (λ _. Submitted n) (Quiet n))
      → Triple (Quiet n) (m >>= k) (λ _. Submitted n) (Quiet n)
  Quiet-then n m k f = bind_rule (Quiet n) (λ _. Quiet n) (λ _. Submitted n) (Quiet n) m k f

  Quiet-get :
      (n : ℕ) (k : MigrationState c.Json → Step (MigrationState c.Json) c.World (Unit {0}))
      → ((t : MigrationState c.Json) → Triple (Quiet n) (k t) (λ _. Submitted n) (Quiet n))
      → Triple (Quiet n) (get >>= k) (λ _. Submitted n) (Quiet n)
  Quiet-get n k f =
      bind_rule (Quiet n) (λ t s w. (t ≡ s) × Quiet n s w) (λ _. Submitted n) (Quiet n) get k
        (get_rule (Quiet n) (Quiet n)) (λ t s w q. f t s w (q.1))

  submitted_rule :
      (n : ℕ) (t : Option Bytes)
      → Triple (Quiet n) (submitted c wait_task o t) (λ _. Submitted n) (Quiet n)
  unfolding raise
  submitted_rule n none = Quiet-get n _ (λ s u w q. q)
  submitted_rule n (some t) = Quiet-get n _ (λ s. Submitted-some n t s.phase)

  submit_rule :
      (n : ℕ) → Triple (Quiet n) (submit_migration c wait_task o) (λ _. Submitted n) (Quiet n)
  unfolding submit_migration
  submit_rule n =
      Quiet-then n (modify (at c wait_task o submitting)) _ (modify-Still c wait_task o moved h n _)
        (λ _.
          Quiet-then n (checkpoint c wait_task o) _ (checkpoint-Still c wait_task o moved h n) (λ _.
            Quiet-get n _ (λ s.
              Quiet-then n (io (c.submit_reindex s.source s.target)) _
                (io_rule (Quiet n) (c.submit_reindex s.source s.target)
                  (λ _ w p. h.by_reindex s.source s.target w ∙ p))
                (submitted_rule n))))

  normalize-Still :
      (n : ℕ) (m : Option c.Json) → Keeps (Quiet n) (normalize_mapping c wait_task o m)
  normalize-Still n none = raise-Still c wait_task o moved h _ n message
  normalize-Still n (some m) = modify-Still c wait_task o moved h n _

  created_rule :
      (n : ℕ)
      → Triple
          (Quiet n)
          (modify (at c wait_task o created)
            >> (checkpoint c wait_task o >> submit_migration c wait_task o))
          (λ _. Submitted n)
          (Quiet n)
  created_rule n =
      Quiet-then n (modify (at c wait_task o created)) _ (modify-Still c wait_task o moved h n _)
        (λ _.
          Quiet-then n (checkpoint c wait_task o) _ (checkpoint-Still c wait_task o moved h n)
            (λ _. submit_rule n))

  -- The part of StartMigration from the creation of the target on.
  create_rule :
      (n : ℕ) (s : MigrationState c.Json)
      → Triple (Quiet n) (create_target c wait_task o s) (λ _. Submitted n) (Quiet n)
  unfolding create_target
  create_rule n s =
      Quiet-then n (modify (at c wait_task o creating)) _ (modify-Still c wait_task o moved h n _)
        (λ _.
          Quiet-then n (checkpoint c wait_task o) _ (checkpoint-Still c wait_task o moved h n) (λ _.
            Quiet-then n (io (create_index c s.target s.mapping s.settings)) _
              (create-Still c wait_task o moved h n s.target s.mapping s.settings)
              (λ _.
                Quiet-then n (io (mapping c s.target)) _
                  (mapping-Still c wait_task o moved h n s.target)
                  (λ table.
                    Quiet-then n (normalize_mapping c wait_task o (find s.target table)) _
                      (normalize-Still n _) (λ _. created_rule n)))))

  planned_rule :
      (n : ℕ) → Triple (Quiet n) (start_planned c wait_task o) (λ _. Submitted n) (Quiet n)
  unfolding start_planned
  planned_rule n = Quiet-get n _ (λ s.
      Quiet-then n (io (resolve_alias c s.alias)) _ (resolve-Still c wait_task o moved h n s.alias)
        (λ source.
          Quiet-then n (fail_if _ (sentinel conflict)) _
            (fail-Still c wait_task o moved h n _ (sentinel conflict))
            (λ _.
              Quiet-then n (check_mapping c source s.source_mapping) _
                (check_mapping-Still c wait_task o moved h n source s.source_mapping)
                (λ _.
                  Quiet-then n (io (refresh c source)) _
                    (refresh-Still c wait_task o moved h n source) (λ _. create_rule n s)))))

  -- What StartMigration leaves: without an error the state is recorded as copying under a task.
  abbrev pub Started : ℕ → (Option (MigrationState c.Json) × Result (Unit {0})) × c.World → Type 0
  Started n ((some s, ok _), w) = Submitted n s w
  Started n ((none, ok _), w) = ⊥
  Started n ((_, err _), w) = moved w ≡ n

  started_rule :
      (n : ℕ) (out : (MigrationState c.Json × Result (Unit {0})) × c.World)
      → Ends (λ _. Submitted n) (Quiet n) out
      → Started n (started c wait_task o out)
  started_rule n ((s, ok _), w) q = q
  started_rule n ((s, err e), w) q = q

  start_rule :
      (b : Bool) (p : MigrationPlan c.Json) (w : c.World)
      → Started (moved w) (
          if b
          then ((none, err (sentinel validation)), w)
          else started c wait_task o
              (start_planned c wait_task o (planned_state c wait_task o p) w))
  start_rule true p w = refl
  start_rule false p w =
      started_rule (moved w) (start_planned c wait_task o (planned_state c wait_task o p) w)
        (planned_rule (moved w) (planned_state c wait_task o p) w refl)

  -- StartMigration sends no request to move an alias. When it returns no error, the state has the
  -- phase copying and a task that is not empty.
  pub start-submitted :
      (p : Option (MigrationPlan c.Json)) (w : c.World)
      → Started (moved w) (start_migration c wait_task o p w)
  unfolding start_migration
  start-submitted none w = refl
  start-submitted (some p) w = start_rule _ p w
