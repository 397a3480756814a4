-- ===== src/Migration/Apply.antt =====
-- admin.go: ApplyMigration, the migration that waits for its reindex, and what its result says of
-- the alias.
use esodm.Prelude.{
  ◌≡◌, refl, Bool, true, false, not, ◌||◌, Option, none, some, [], ◌∷◌, Bytes, bytes_eq, ℤ, pos,
  ltb, ltb_ℤ, eq_ℤ, if◌then◌else◌,
}
use esodm.Error.{Err, Result, ok, err, sentinel, validation, conflict, message, partial_search}
use esodm.Admin.{
  Cluster, Reindexed, find, mapping, refresh, create_index, aliases, resolve_alias, same_mapping,
}
use esodm.Migration.{MigrationPlan, MigrationOptions}
use esodm.Migration.Sequence.{Step, ◌>>=◌, ◌>>◌, io, modify, fail_if}
use esodm.Migration.Triples.{
  Triple, Keeps, Ends, bind_rule, io_rule, modify_rule, fail_if_rule, then-Keeps,
}

-- MigrationResult
pub record MigrationResult : Type 0 where
  pub source : Bytes
  pub target : Bytes
  pub documents : ℤ
  pub alias_moved : Bool

-- An absent number of a decoded answer.
abbrev or_zero : Option ℤ → ℤ
or_zero none = pos 0
or_zero (some n) = n

module _ (c : Cluster) where
  abbrev pub Apply : Type 0 → Type 0
  Apply A = Step MigrationResult c.World A

  -- One round of the loop over the two counts.
  unfoldable pub count_index : Bytes → Apply ℤ
  count_index index = do
    counted ← io (c.get_count index)
    fail_if (ltb_ℤ (pos 0) counted.1) (partial_search false counted.1)
    io (λ w. (ok counted.0, w))

  abbrev pub incomplete_copy : Reindexed → Bool
  incomplete_copy r =
      r.timed_out
      || ltb_ℤ (pos 0) r.version_conflicts
      || ltb 0 r.failures
      || not (eq_ℤ (or_zero r.created) (or_zero r.total))

  -- The reindex and the counts.
  unfoldable pub copy_documents : Bytes → Bytes → Apply (Unit {0})
  copy_documents source target = do
    reindexed ← io (c.run_reindex source target)
    fail_if (incomplete_copy reindexed) message
    before ← count_index source
    after ← count_index target
    fail_if (not (eq_ℤ before after) || not (eq_ℤ after (or_zero reindexed.created))) message
    modify (λ s. record s { documents = after })

  -- The second look at the alias, and its move.
  unfoldable pub move_to_target : MigrationPlan c.Json → Bytes → Apply (Unit {0})
  move_to_target p source = do
    current ← io (resolve_alias c p.alias)
    fail_if (not (bytes_eq current source)) (sentinel conflict)
    io (
        aliases c (
          (record { add = false; index = source; alias = p.alias; write_index = none })
          ∷ (record { add = true; index = p.target; alias = p.alias; write_index = some true })
          ∷ []))
    modify (λ s. record s { alias_moved = true })

  -- ApplyMigration for a plan and options that are accepted.
  unfoldable pub apply_plan : MigrationPlan c.Json → Apply (Unit {0})
  apply_plan p = do
    source ← io (resolve_alias c p.alias)
    fail_if (not (bytes_eq source p.source)) (sentinel conflict)
    table ← io (mapping c source)
    fail_if (not (same_mapping c (find source table) p.source_mapping)) (sentinel conflict)
    io (refresh c source)
    io (create_index c p.target p.mapping p.settings)
    copy_documents source p.target
    move_to_target p source

  abbrev pub nothing_done : MigrationResult
  nothing_done = record { source = []; target = []; documents = pos 0; alias_moved = false }

  -- Admin.ApplyMigration
  unfoldable pub apply_migration :
      Option (MigrationPlan c.Json)
      → MigrationOptions c.Json c.World
      → c.World
      → (MigrationResult × Result (Unit {0})) × c.World
  apply_migration none o w = ((nothing_done, err (sentinel validation)), w)
  apply_migration (some p) o w =
      if not o.writes_paused || ltb_ℤ o.poll_interval (pos 0)
      then ((nothing_done, err (sentinel validation)), w)
      else apply_plan p (record nothing_done { source = p.source; target = p.target }) w

  abbrev Unmoved : MigrationResult → c.World → Type 0
  Unmoved s w = s.alias_moved ≡ false

  io-Unmoved : {A : Type 0} (m : c.World → Result A × c.World) → Keeps Unmoved (io m)
  io-Unmoved m = io_rule Unmoved m (λ s w p. p)

  fail-Unmoved : (b : Bool) (e : Err) → Keeps Unmoved (fail_if b e)
  fail-Unmoved = fail_if_rule Unmoved

  count-Unmoved : (index : Bytes) → Keeps Unmoved (count_index index)
  unfolding count_index
  count-Unmoved index =
      then-Keeps Unmoved _ _ (io-Unmoved (c.get_count index))
        (λ counted. then-Keeps Unmoved _ _ (fail-Unmoved _ _) (λ _. io-Unmoved _))

  copy-Unmoved : (source target : Bytes) → Keeps Unmoved (copy_documents source target)
  unfolding copy_documents
  copy-Unmoved source target =
      then-Keeps Unmoved _ _ (io-Unmoved (c.run_reindex source target)) (λ r.
        then-Keeps Unmoved _ _ (fail-Unmoved _ _) (λ _.
          then-Keeps Unmoved _ _ (count-Unmoved source) (λ before.
            then-Keeps Unmoved _ _ (count-Unmoved target) (λ after.
              then-Keeps Unmoved _ _ (fail-Unmoved _ _)
                (λ _. modify_rule Unmoved Unmoved Unmoved _ (λ s w p. p))))))

  -- What an error and its absence say of the result.
  abbrev Moved : Unit {0} → MigrationResult → c.World → Type 0
  Moved _ s w = s.alias_moved ≡ true

  Unmoved-then :
      {A : Type 0} (m : Apply A) (k : A → Apply (Unit {0}))
      → Keeps Unmoved m
      → ((a : A) → Triple Unmoved (k a) Moved Unmoved)
      → Triple Unmoved (m >>= k) Moved Unmoved
  Unmoved-then m k = bind_rule Unmoved (λ _. Unmoved) Moved Unmoved m k

  move-Moved :
      (p : MigrationPlan c.Json) (source : Bytes)
      → Triple Unmoved (move_to_target p source) Moved Unmoved
  unfolding move_to_target
  move-Moved p source = Unmoved-then (io (resolve_alias c p.alias)) _ (io-Unmoved _) (λ current.
      Unmoved-then (fail_if _ (sentinel conflict)) _ (fail-Unmoved _ _) (λ _.
        Unmoved-then (io (aliases c _)) _ (io-Unmoved _)
          (λ _. modify_rule Unmoved (Moved tt) Unmoved _ (λ s w q. refl))))

  plan-Moved : (p : MigrationPlan c.Json) → Triple Unmoved (apply_plan p) Moved Unmoved
  unfolding apply_plan
  plan-Moved p = Unmoved-then (io (resolve_alias c p.alias)) _ (io-Unmoved _) (λ source.
      Unmoved-then (fail_if _ (sentinel conflict)) _ (fail-Unmoved _ _) (λ _.
        Unmoved-then (io (mapping c source)) _ (io-Unmoved _) (λ table.
          Unmoved-then (fail_if _ (sentinel conflict)) _ (fail-Unmoved _ _) (λ _.
            Unmoved-then (io (refresh c source)) _ (io-Unmoved _) (λ _.
              Unmoved-then (io (create_index c p.target p.mapping p.settings)) _ (io-Unmoved _)
                (λ _.
                  Unmoved-then (copy_documents source p.target) _ (copy-Unmoved source p.target)
                    (λ _. move-Moved p source)))))))

  accepted-Moved :
      (b : Bool) (p : MigrationPlan c.Json) (w : c.World)
      → Ends Moved Unmoved (
          if b
          then ((nothing_done, err (sentinel validation)), w)
          else apply_plan p (record nothing_done { source = p.source; target = p.target }) w)
  accepted-Moved true p w = refl
  accepted-Moved false p w =
      plan-Moved p (record nothing_done { source = p.source; target = p.target }) w refl

  -- When ApplyMigration returns no error, its result says that the alias was moved; when it returns
  -- an error, its result says that the alias was not moved.
  pub apply-alias_moved :
      (p : Option (MigrationPlan c.Json)) (o : MigrationOptions c.Json c.World) (w : c.World)
      → Ends (λ _ r v. r.alias_moved ≡ true) (λ r v. r.alias_moved ≡ false) (apply_migration p o w)
  unfolding apply_migration
  apply-alias_moved none o w = refl
  apply-alias_moved (some p) o w = accepted-Moved _ p w
