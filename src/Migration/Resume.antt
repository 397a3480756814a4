-- ===== src/Migration/Resume.antt =====
-- migration.go: what ResumeMigration does to the alias and to the phase.
use esodm.Prelude.{
  ℕ, Bool, true, false, ◌≡◌, refl, sym, ◌∙◌, ap, ◌⊎◌, inl, inr, Bytes, ℤ, if◌then◌else◌,
}
use esodm.Error.{
  Phase, planned, creating, created, submitting, copying, switching, complete, unknown, sentinel,
  validation, conflict,
}
use esodm.Admin.{Cluster, Task, Io, resolve_alias, aliases}
use esodm.Migration.{MigrationState, MigrationOptions, validate_state}
use esodm.Migration.Sequence.{Step, ◌>>=◌, ◌>>◌, io, get, modify, raise, done, fail_if}
use esodm.Migration.Triples.{
  Triple, Keeps, Ends, bind_rule, io_rule, get_rule, modify_rule, keeps_rule,
}
use esodm.Migration.Steps.{
  checkpoint, finish_copy, verify, move_alias, move_actions, switch, switch_from, resume_from,
  resume_migration, at,
}
use esodm.Migration.Still.{
  Counts, Still, fail-Still, finish_copy-Still, verify-Still, resolve-Still, saved_rule,
}

module _ (c : Cluster) (wait_task : Bytes → ℤ → Io c Task) (o : MigrationOptions c.Json c.World)
    (moved : c.World → ℕ) (h : Counts c wait_task o moved) where
  -- The phases that cover a move of the alias.
  abbrev pub Covering : Phase → Type 0
  Covering p = (p ≡ switching) ⊎ (p ≡ complete)

  abbrev pub Covered : ℕ → MigrationState c.Json → c.World → Type 0
  Covered n s w = Still c wait_task o moved h n s w ⊎ Covering s.phase

  abbrev In : Phase → MigrationState c.Json → c.World → Type 0
  In p s w = s.phase ≡ p

  abbrev Quiet : ℕ → MigrationState c.Json → c.World → Type 0
  Quiet = Still c wait_task o moved h

  In-Covered :
      (n : ℕ) (p : Phase)
      → Covering p
      → (s : MigrationState c.Json) (w : c.World) → In p s w
      → Covered n s w
  In-Covered n p (inl a) s w q = inr (inl (q ∙ a))
  In-Covered n p (inr a) s w q = inr (inr (q ∙ a))

  -- A call keeps the phase, and so does a checkpoint.
  io_phase :
      {A : Type 0} (n : ℕ) (p : Phase) (m : Io c A)
      → Covering p
      → Triple (In p) (io m) (λ _. In p) (Covered n)
  io_phase n p m cov =
      keeps_rule (In p) (Covered n) (io m) (In-Covered n p cov) (io_rule (In p) m (λ s w q. q))

  checkpoint_phase :
      (n : ℕ) (p : Phase)
      → Covering p
      → Triple (In p) (checkpoint c wait_task o) (λ _. In p) (Covered n)
  unfolding checkpoint
  checkpoint_phase n p cov =
      keeps_rule (In p) (Covered n) (checkpoint c wait_task o) (In-Covered n p cov)
        (λ s w q. saved_rule c wait_task o moved h (In p) s (o.checkpoint s w) q)

  -- The alias request stands between two assignments of the phase.
  complete_phase :
      (n : ℕ) (P : MigrationState c.Json → c.World → Type 0)
      → Triple P
          (modify (at c wait_task o complete) >> checkpoint c wait_task o)
          (λ _. In complete)
          (Covered n)
  complete_phase n P =
      bind_rule P (λ _. In complete) (λ _. In complete) (Covered n) _ _
        (modify_rule P (In complete) (Covered n) (at c wait_task o complete) (λ s w p. refl))
        (λ _. checkpoint_phase n complete (inr refl))

  move_phase : (n : ℕ) → Triple (Quiet n) (move_alias c wait_task o) (λ _. In complete) (Covered n)
  unfolding move_alias
  move_phase n =
      bind_rule (Quiet n) (λ _. In switching) (λ _. In complete) (Covered n) _ _
        (modify_rule (Quiet n) (In switching) (Covered n) (at c wait_task o switching)
          (λ s w p. refl))
        (λ _.
          bind_rule (In switching) (λ _. In switching) (λ _. In complete) (Covered n) _ _
            (checkpoint_phase n switching (inl refl))
            (λ _.
              bind_rule (In switching) (λ t s w. (t ≡ s) × In switching s w) (λ _. In complete)
                (Covered n) get _ (get_rule (In switching) (Covered n))
                (λ t.
                  bind_rule _ (λ _. In switching) (λ _. In complete) (Covered n) _ _
                    (λ s w q.
                      io_phase n switching (aliases c (move_actions c wait_task o t)) (inl refl) s w
                        (q.1))
                    (λ _. complete_phase n (In switching)))))

  switch_from_phase :
      (n : ℕ) (b d : Bool)
      → Triple
          (Quiet n)
          (if b
            then (modify (at c wait_task o complete) >> checkpoint c wait_task o)
            else (fail_if d (sentinel conflict) >> move_alias c wait_task o))
          (λ _. In complete)
          (Covered n)
  switch_from_phase n true d = complete_phase n (Quiet n)
  switch_from_phase n false d =
      bind_rule (Quiet n) (λ _. Quiet n) (λ _. In complete) (Covered n)
        (fail_if d (sentinel conflict)) _
        (keeps_rule (Quiet n) (Covered n) (fail_if d (sentinel conflict)) (λ s w p. inl p)
          (fail-Still c wait_task o moved h n d (sentinel conflict)))
        (λ _. move_phase n)

  Quiet-then :
      {A : Type 0} (n : ℕ) (m : Step (MigrationState c.Json) c.World A)
      (k : A → Step (MigrationState c.Json) c.World (Unit {0}))
      → Keeps (Quiet n) m
      → ((a : A) → Triple (Quiet n) (k a) (λ _. In complete) (Covered n))
      → Triple (Quiet n) (m >>= k) (λ _. In complete) (Covered n)
  Quiet-then n m k f =
      bind_rule (Quiet n) (λ _. Quiet n) (λ _. In complete) (Covered n) m k
        (keeps_rule (Quiet n) (Covered n) m (λ s w p. inl p) f)

  switch_phase : (n : ℕ) → Triple (Quiet n) (switch c wait_task o) (λ _. In complete) (Covered n)
  unfolding switch
  switch_phase n =
      bind_rule (Quiet n) (λ t s w. (t ≡ s) × Quiet n s w) (λ _. In complete) (Covered n) get _
        (get_rule (Quiet n) (Covered n))
        (λ t s w q.
          Quiet-then n (io (resolve_alias c t.alias))
            (λ current. switch_from c wait_task o current t)
            (resolve-Still c wait_task o moved h n t.alias) (λ current. switch_from_phase n _ _) s w
            (q.1))

  finish_phase :
      (n : ℕ)
      → Triple
          (Quiet n)
          (finish_copy c wait_task o >> (verify c wait_task o >> switch c wait_task o))
          (λ _. In complete)
          (Covered n)
  finish_phase n =
      Quiet-then n (finish_copy c wait_task o) _ (finish_copy-Still c wait_task o moved h n) (λ _.
        Quiet-then n (verify c wait_task o) _ (verify-Still c wait_task o moved h n)
          (λ _. switch_phase n))

  resume_from_phase :
      (n : ℕ) (p : Phase)
      → Triple
          (λ s w. In p s w × Quiet n s w)
          (resume_from c wait_task o p)
          (λ _. In complete)
          (Covered n)
  unfolding raise done
  resume_from_phase n creating s w q = inl (q.1)
  resume_from_phase n submitting s w q = inl (q.1)
  resume_from_phase n complete s w q = q.0
  resume_from_phase n planned s w q = finish_phase n s w (q.1)
  resume_from_phase n unknown s w q = finish_phase n s w (q.1)
  resume_from_phase n created s w q = finish_phase n s w (q.1)
  resume_from_phase n copying s w q = finish_phase n s w (q.1)
  resume_from_phase n switching s w q = finish_phase n s w (q.1)

  abbrev Known : ℕ → MigrationState c.Json → MigrationState c.Json → c.World → Type 0
  Known n t s w = (t ≡ s) × Quiet n s w

  validated_phase :
      (n : ℕ) (t : MigrationState c.Json)
      → Triple
          (λ s w. (t ≡ s) × Quiet n s w)
          (io (λ w. (validate_state c t, w)) >> resume_from c wait_task o t.phase)
          (λ _. In complete)
          (Covered n)
  validated_phase n t =
      bind_rule (Known n t) (λ _. Known n t) (λ _. In complete) (Covered n)
        (io (λ w. (validate_state c t, w))) _
        (keeps_rule (Known n t) (Covered n) (io (λ w. (validate_state c t, w))) (λ s w q. inl (q.1))
          (io_rule (Known n t) (λ w. (validate_state c t, w)) (λ s w q. q)))
        (λ _ s w q. resume_from_phase n t.phase s w (ap (λ u. u.phase) (sym (q.0)), q.1))

  -- When ResumeMigration returns no error, the phase is complete. When it returns an error, no
  -- request to move the alias has been sent, or the returned phase is switching or complete.
  pub resume-alias :
      (s : MigrationState c.Json) (w : c.World)
      → Ends
          (λ _ t v. t.phase ≡ complete)
          (λ t v. (moved v ≡ moved w) ⊎ Covering t.phase)
          (resume_migration c wait_task o s w)
  unfolding resume_migration
  resume-alias s w =
      Quiet-then (moved w) (fail_if _ (sentinel validation)) _
        (fail-Still c wait_task o moved h (moved w) _ (sentinel validation))
        (λ _.
          bind_rule (Quiet (moved w)) (λ t s v. (t ≡ s) × Quiet (moved w) s v) (λ _. In complete)
            (Covered (moved w)) get _ (get_rule (Quiet (moved w)) (Covered (moved w)))
            (validated_phase (moved w)))
        s w refl
