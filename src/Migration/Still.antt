-- ===== src/Migration/Still.antt =====
-- migration.go: the steps before the alias is moved send no request that moves it.
use esodm.Prelude.{ℕ, Bool, ◌≡◌, ◌∙◌, Option, none, some, Bytes, ℤ}
use esodm.Error.{Err, Result, ok, err, pending, incomplete}
use esodm.Names.{validate_name}
use esodm.Admin.{
  Cluster, Task, Reindexed, create_index_request, Io, checked, then_result, mapping, refresh,
  create_index, resolve_alias, ack,
}
use esodm.Migration.{MigrationState, MigrationOptions, check_mapping, check_count, copied}
use esodm.Migration.Sequence.{io, modify, raise, fail_if}
use esodm.Migration.Triples.{
  Keeps, Ends, io_rule, modify_rule, fail_if_rule, when_rule, then-Keeps, get-Keeps,
}
use esodm.Migration.Steps.{
  checkpoint, saved, submit_migration, submitted, copy, record_copied, record_documents,
  finish_copy, verify,
}

-- How many requests to move an alias the cluster has been sent: no other call of a migration
-- counts as one.
pub record Counts (c : Cluster) (wait_task : Bytes → ℤ → Io c Task)
    (o : MigrationOptions c.Json c.World) (moved : c.World → ℕ) : Type 0 where
  pub by_alias : (x : Bytes) (w : c.World) → moved ((c.get_alias x w).1) ≡ moved w
  pub by_mapping : (x : Bytes) (w : c.World) → moved ((c.get_mapping x w).1) ≡ moved w
  pub by_refresh : (x : Bytes) (w : c.World) → moved ((c.post_refresh x w).1) ≡ moved w
  pub by_count : (x : Bytes) (w : c.World) → moved ((c.get_count x w).1) ≡ moved w
  pub by_reindex : (x y : Bytes) (w : c.World) → moved ((c.submit_reindex x y w).1) ≡ moved w
  pub by_create :
      (x : Bytes) (m : c.Json) (s : Option c.Json) (w : c.World)
      → moved ((c.send (create_index_request x m s) w).1) ≡ moved w
  pub by_task : (x : Bytes) (i : ℤ) (w : c.World) → moved ((wait_task x i w).1) ≡ moved w
  pub by_checkpoint :
      (s : MigrationState c.Json) (w : c.World) → moved ((o.checkpoint s w).1) ≡ moved w

checked-world :
    (c : Cluster) {A : Type 0} (P : c.World → Type 0) (r : Result (Unit {0})) (m : Io c A)
    (w : c.World)
    → P w
    → P ((m w).1)
    → P ((checked c r m w).1)
checked-world c P (err e) m w p q = p
checked-world c P (ok _) m w p q = q

then_result-world :
    (c : Cluster) {A B : Type 0} (P : c.World → Type 0) (f : A → Result B)
    (out : Result A × c.World)
    → P (out.1)
    → P ((then_result c f out).1)
then_result-world c P f (ok a, w) p = p
then_result-world c P f (err e, w) p = p

module _ (c : Cluster) (wait_task : Bytes → ℤ → Io c Task) (o : MigrationOptions c.Json c.World)
    (moved : c.World → ℕ) (h : Counts c wait_task o moved) where
  -- The alias has not been moved since the count was n.
  abbrev pub Still : ℕ → MigrationState c.Json → c.World → Type 0
  Still n s w = moved w ≡ n

  pub mapping-Still : (n : ℕ) (x : Bytes) → Keeps (Still n) (io (mapping c x))
  unfolding mapping
  mapping-Still n x = io_rule (Still n) (mapping c x) (λ s w p.
      checked-world c (λ v. moved v ≡ n) (validate_name x) (c.get_mapping x) w p
        (h.by_mapping x w ∙ p))

  pub refresh-Still : (n : ℕ) (x : Bytes) → Keeps (Still n) (io (refresh c x))
  unfolding refresh
  refresh-Still n x = io_rule (Still n) (refresh c x) (λ s w p.
      checked-world c (λ v. moved v ≡ n) (validate_name x) _ w p
        (then_result-world c (λ v. moved v ≡ n) _ (c.post_refresh x w) (h.by_refresh x w ∙ p)))

  pub resolve-Still : (n : ℕ) (x : Bytes) → Keeps (Still n) (io (resolve_alias c x))
  unfolding resolve_alias
  resolve-Still n x =
      io_rule (Still n) (resolve_alias c x)
        (λ s w p. then_result-world c (λ v. moved v ≡ n) _ (c.get_alias x w) (h.by_alias x w ∙ p))

  pub create-Still :
      (n : ℕ) (x : Bytes) (m : c.Json) (t : Option c.Json)
      → Keeps (Still n) (io (create_index c x m t))
  unfolding create_index ack
  create-Still n x m t = io_rule (Still n) (create_index c x m t) (λ s w p.
      checked-world c (λ v. moved v ≡ n) (validate_name x) _ w p
        (then_result-world c (λ v. moved v ≡ n) _ (c.send (create_index_request x m t) w)
          (h.by_create x m t w ∙ p)))

  pub fail-Still : (n : ℕ) (b : Bool) (e : Err) → Keeps (Still n) (fail_if b e)
  fail-Still n = fail_if_rule (Still n)

  pub modify-Still :
      (n : ℕ) (f : MigrationState c.Json → MigrationState c.Json) → Keeps (Still n) (modify f)
  modify-Still n f = modify_rule (Still n) (Still n) (Still n) f (λ s w p. p)

  pub raise-Still : (A : Type 0) (n : ℕ) (e : Err) → Keeps {A = A} (Still n) (raise e)
  unfolding raise
  raise-Still A n e s w p = p

  pub check_mapping-Still : (n : ℕ) (x : Bytes) (m : c.Json) → Keeps (Still n) (check_mapping c x m)
  unfolding check_mapping
  check_mapping-Still n x m =
      then-Keeps (Still n) _ _ (mapping-Still n x) (λ table. fail-Still n _ _)

  check_count-Still : (n : ℕ) (x : Bytes) → Keeps (Still n) (check_count c x)
  unfolding check_count
  check_count-Still n x =
      then-Keeps (Still n) _ _ (io_rule (Still n) (c.get_count x) (λ s w p. h.by_count x w ∙ p))
        (λ counted.
          get-Keeps (Still n) _
            (λ s. then-Keeps (Still n) _ _ (fail-Still n _ _) (λ _. fail-Still n _ _)))

  pub verify-Still : (n : ℕ) → Keeps (Still n) (verify c wait_task o)
  unfolding verify
  verify-Still n = get-Keeps (Still n) _ (λ s.
      then-Keeps (Still n) _ _ (check_mapping-Still n s.source s.source_mapping) (λ _.
        then-Keeps (Still n) _ _ (check_mapping-Still n s.target s.mapping) (λ _.
          then-Keeps (Still n) _ _ (refresh-Still n s.source) (λ _.
            then-Keeps (Still n) _ _ (refresh-Still n s.target) (λ _.
              then-Keeps (Still n) _ _ (check_count-Still n s.source)
                (λ _. check_count-Still n s.target))))))

  pub saved_rule :
      (P : MigrationState c.Json → c.World → Type 0) (s : MigrationState c.Json)
      (out : Option Err × c.World)
      → P s (out.1)
      → Ends (λ _. P) P (saved c wait_task o s out)
  saved_rule P s (none, w) p = p
  saved_rule P s (some e, w) p = p

  pub checkpoint-Still : (n : ℕ) → Keeps (Still n) (checkpoint c wait_task o)
  unfolding checkpoint
  checkpoint-Still n s w p = saved_rule (Still n) s (o.checkpoint s w) (h.by_checkpoint s w ∙ p)

  submitted-Still : (n : ℕ) (t : Option Bytes) → Keeps (Still n) (submitted c wait_task o t)
  submitted-Still n none = get-Keeps (Still n) _ (λ s. raise-Still _ n (pending s.phase))
  submitted-Still n (some t) = get-Keeps (Still n) _ (λ s.
      then-Keeps (Still n) _ _ (fail-Still n _ _)
        (λ _. then-Keeps (Still n) _ _ (modify-Still n _) (λ _. checkpoint-Still n)))

  pub submit-Still : (n : ℕ) → Keeps (Still n) (submit_migration c wait_task o)
  unfolding submit_migration
  submit-Still n = then-Keeps (Still n) _ _ (modify-Still n _) (λ _.
      then-Keeps (Still n) _ _ (checkpoint-Still n) (λ _. get-Keeps (Still n) _ (λ s.
        then-Keeps (Still n) _ _
          (io_rule (Still n) (c.submit_reindex s.source s.target)
            (λ _ w p. h.by_reindex s.source s.target w ∙ p))
          (submitted-Still n))))

  documents-Still : (n : ℕ) (t : Option ℤ) → Keeps (Still n) (record_documents c wait_task o t)
  documents-Still n none = raise-Still _ n incomplete
  documents-Still n (some m) = modify-Still n _

  record_copied-Still :
      (n : ℕ) (t : Option (Result Reindexed)) → Keeps (Still n) (record_copied c wait_task o t)
  record_copied-Still n none = raise-Still _ n incomplete
  record_copied-Still n (some (err e)) = raise-Still _ n e
  record_copied-Still n (some (ok r)) = documents-Still n (copied r)

  copy-Still : (n : ℕ) → Keeps (Still n) (copy c wait_task o)
  unfolding copy
  copy-Still n = get-Keeps (Still n) _ (λ s. then-Keeps (Still n) _ _ (fail-Still n _ _) (λ _.
      then-Keeps (Still n) _ _
        (io_rule (Still n) (wait_task s.task_id _) (λ _ w p. h.by_task s.task_id _ w ∙ p))
        (λ t. record_copied-Still n t.response)))

  pub finish_copy-Still : (n : ℕ) → Keeps (Still n) (finish_copy c wait_task o)
  unfolding finish_copy
  finish_copy-Still n = get-Keeps (Still n) _ (λ s.
      then-Keeps (Still n) _ _ (when_rule (Still n) (Still n) _ _ (submit-Still n))
        (λ _. get-Keeps (Still n) _ (λ t. when_rule (Still n) (Still n) _ _ (copy-Still n))))
