-- ===== src/Admin/Waiting.antt =====
-- operations.go: what WaitTask returns, by the answers of the cluster.
use mathlib.Core.Path.{subst}
use esodm.Prelude.{
  ◌↔◌, sym, ap, inl, inr, Bool-cases, ℕ, zero, suc, ◌<◌, ◌≡◌, refl, true, false, Option, none, some,
  ℤ, pos, ltb_ℤ, Bytes, [], if◌then◌else◌, arith,
}
use esodm.Error.{Err, Result, ok, err, api, sentinel, validation, Result-cases}
use esodm.Admin.{Cluster, Task, checked}
use esodm.Admin.Polling.{
  validate_task_id, Poll, done, more, task_result, after_wait, read_task, poll, polls, wait_task,
}

module _ (c : Cluster) where
  open c use {World, get_task, wait}

  -- What WaitTask may do, by the answers of the cluster: the result, the last world and the number
  -- of polls that find the task running, from a world.
  pub data Waits (id : Bytes) (interval : ℤ) (r : Result Task) (w' : World)
      : ℕ → World → Type 0 where
    failed :
        {w : World} (e : Err) → get_task id w ≡ (err e, w') → r ≡ err e → Waits id interval r w' 0 w
    succeeded :
        {w : World} (t : Task)
        → get_task id w ≡ (ok t, w')
        → t.completed ≡ true
        → t.error ≡ none
        → r ≡ ok t
        → Waits id interval r w' 0 w
    task_failed :
        {w : World} (t : Task) (type : Bytes)
        → get_task id w ≡ (ok t, w')
        → t.completed ≡ true
        → t.error ≡ some type
        → r ≡ err (api (record { status = 500; type = type; reason = [] }))
        → Waits id interval r w' 0 w
    interrupted :
        {w : World} (t : Task) (u : World) (e : Err)
        → get_task id w ≡ (ok t, u)
        → t.completed ≡ false
        → wait interval u ≡ (some e, w')
        → r ≡ err e
        → Waits id interval r w' 0 w
    still_running :
        {k : ℕ} {w : World} (t : Task) (u v : World)
        → get_task id w ≡ (ok t, u)
        → t.completed ≡ false
        → wait interval u ≡ (none, v)
        → Waits id interval r w' k v
        → Waits id interval r w' (suc k) w

  -- A round of the loop for an accepted task.
  abbrev after : ℕ → Bytes → ℤ → Poll World → Option (Result Task × World)
  after n id interval p = elim p [ done r w' ↦ some (r, w') | more w' ↦ polls c n id interval w' ]

  polls-suc :
      (n : ℕ) (id : Bytes) (interval : ℤ) (w : World)
      → validate_task_id id ≡ ok tt
      → polls c (suc n) id interval w ≡ after n id interval (read_task c interval (get_task id w))
  unfolding polls poll
  polls-suc n id interval w h =
      ap (λ v. after n id interval (read_task c interval (checked c v (get_task id) w))) h

  completed-done :
      (t : Task) (interval : ℤ) (w : World)
      → t.completed ≡ true
      → read_task c interval (ok t, w) ≡ done (task_result t) w
  completed-done t interval w h =
      ap (λ b. if b then done (task_result t) w else after_wait c (wait interval w)) h

  running-wait :
      (t : Task) (interval : ℤ) (w : World)
      → t.completed ≡ false
      → read_task c interval (ok t, w) ≡ after_wait c (wait interval w)
  running-wait t interval w h =
      ap (λ b. if b then done (task_result t) w else after_wait c (wait interval w)) h

  result_of : Task → Option Bytes → Result Task
  result_of t type = elim type [
    | none ↦ ok t
    | some type' ↦ err (api (record { status = 500; type = type'; reason = [] }))
  ]

  task_result-error :
      (t : Task) (type : Option Bytes) → t.error ≡ type → task_result t ≡ result_of t type
  unfolding result_of
  task_result-error t type h = ap (result_of t) h

  polls_enough :
      (n k : ℕ) (id : Bytes) (interval : ℤ) (r : Result Task) (w' w : World)
      → validate_task_id id ≡ ok tt
      → Waits id interval r w' k w
      → k < n
      → polls c n id interval w ≡ some (r, w')
  unfolding result_of
  polls_enough zero k id interval r w' w g e h = elim h [ ]
  polls_enough (suc n) k id interval r w' w g (failed e a b) h =
      rw (polls-suc n id interval w g, a, b) refl
  polls_enough (suc n) k id interval r w' w g (succeeded t a b d e) h =
      rw
        (
          polls-suc n id interval w g,
          a,
          completed-done t interval w' b,
          task_result-error t none d,
          e,
        )
        refl
  polls_enough (suc n) k id interval r w' w g (task_failed t type a b d e) h =
      rw
        (
          polls-suc n id interval w g,
          a,
          completed-done t interval w' b,
          task_result-error t (some type) d,
          e,
        )
        refl
  polls_enough (suc n) k id interval r w' w g (interrupted t u e a b d f) h =
      rw (polls-suc n id interval w g, a, running-wait t interval u b, d, f) refl
  polls_enough (suc n) k id interval r w' w g (still_running {k = j} t u v a b d f) h =
      rw (polls-suc n id interval w g, a, running-wait t interval u b, d)
        (polls_enough n j id interval r w' v g f (omega arith))

  same_result :
      (r r' : Result Task) (u u' : World)
      → ◌≡◌ {A = Option (Result Task × World)} (some (r, u)) (some (r', u'))
      → r' ≡ r
  same_result r r' u u' q = cc

  same_world :
      (r r' : Result Task) (u u' : World)
      → ◌≡◌ {A = Option (Result Task × World)} (some (r, u)) (some (r', u'))
      → u ≡ u'
  same_world r r' u u' q = cc

  -- An answer of the loop comes from the answers of the cluster.
  abbrev Found : ℕ → Bytes → ℤ → Result Task → World → World → Type 0
  Found n id interval r w' w = (k : ℕ) × (k < n) × Waits id interval r w' k w

  Found-later :
      (n : ℕ) (id : Bytes) (interval : ℤ) (r : Result Task) (w' w : World) (t : Task) (u v : World)
      → get_task id w ≡ (ok t, u)
      → t.completed ≡ false
      → wait interval u ≡ (none, v)
      → Found n id interval r w' v
      → Found (suc n) id interval r w' w
  Found-later n id interval r w' w t u v a b d q =
      (suc (q.0), omega (arith, q.1), still_running t u v a b d (q.2))

  completed-Waits :
      (id : Bytes) (interval : ℤ) (r : Result Task) (w' w : World) (t : Task) (type : Option Bytes)
      → get_task id w ≡ (ok t, w')
      → t.completed ≡ true
      → t.error ≡ type
      → task_result t ≡ r
      → Waits id interval r w' 0 w
  unfolding result_of
  completed-Waits id interval r w' w t none a b d e =
      succeeded t a b d (sym (rw (task_result-error t none d) at e))
  completed-Waits id interval r w' w t (some type) a b d e =
      task_failed t type a b d (sym (rw (task_result-error t (some type) d) at e))

  polls-Waits :
      (n : ℕ) (id : Bytes) (interval : ℤ) (r : Result Task) (w' w : World)
      → validate_task_id id ≡ ok tt
      → polls c n id interval w ≡ some (r, w')
      → Found n id interval r w' w
  unfolding polls
  polls-Waits zero id interval r w' w g h = absurd (never h)
    where
      never : ◌≡◌ {A = Option (Result Task × World)} none (some (r, w')) → ⊥
      never q = cc
  polls-Waits (suc n) id interval r w' w g h =
      by_answer (get_task id w) refl (rw (polls-suc n id interval w g) at h)
        (λ v k. polls-Waits n id interval r w' v g k)
    where
      by_wait :
          (t : Task) (u : World) (x : Option Err × World)
          → get_task id w ≡ (ok t, u)
          → t.completed ≡ false
          → wait interval u ≡ x
          → after n id interval (after_wait c x) ≡ some (r, w')
          → ((v : World) → polls c n id interval v ≡ some (r, w') → Found n id interval r w' v)
          → Found (suc n) id interval r w' w
      by_wait t u (some e, v) a b d h rec = (
        0,
        omega arith,
        interrupted t u e a b
            (subst (λ y. wait interval u ≡ (some e, y)) (same_world (err e) r v w' h) d)
            (same_result (err e) r v w' h),
      )
      by_wait t u (none, v) a b d h rec = Found-later n id interval r w' w t u v a b d (rec v h)

      by_answer :
          (x : Result Task × World)
          → get_task id w ≡ x
          → after n id interval (read_task c interval x) ≡ some (r, w')
          → ((v : World) → polls c n id interval v ≡ some (r, w') → Found n id interval r w' v)
          → Found (suc n) id interval r w' w
      by_answer (err e, v) a h rec = (
        0,
        omega arith,
        failed e (subst (λ y. get_task id w ≡ (err e, y)) (same_world (err e) r v w' h) a)
            (same_result (err e) r v w' h),
      )
      by_answer (ok t, u) a h rec = elim (Bool-cases t.completed) [
        | inl b ↦
            let k = rw (completed-done t interval u b) at h in
            (
              0,
              omega arith,
              completed-Waits id interval r w' w t t.error
                  (subst (λ y. get_task id w ≡ (ok t, y)) (same_world (task_result t) r u w' k) a) b
                  refl (sym (same_result (task_result t) r u w' k)),
            )
        | inr b ↦ by_wait t u (wait interval u) a b refl (rw (running-wait t interval u b) at h) rec
      ]

  -- The ways in which WaitTask returns within a number of polls that is not zero.
  pub data Returns (n : ℕ) (id : Bytes) (interval : ℤ) (r : Result Task) (w' w : World)
      : Type 0 where
    not_positive :
        ltb_ℤ (pos 0) interval ≡ false
        → r ≡ err (sentinel validation)
        → w' ≡ w
        → Returns n id interval r w' w
    malformed :
        (e : Err)
        → ltb_ℤ (pos 0) interval ≡ true
        → validate_task_id id ≡ err e
        → r ≡ err e
        → w' ≡ w
        → Returns n id interval r w' w
    waited :
        (k : ℕ)
        → ltb_ℤ (pos 0) interval ≡ true
        → validate_task_id id ≡ ok tt
        → k < n
        → Waits id interval r w' k w
        → Returns n id interval r w' w

  polls-malformed :
      (n : ℕ) (id : Bytes) (interval : ℤ) (w : World) (e : Err)
      → validate_task_id id ≡ err e
      → polls c (suc n) id interval w ≡ some (err e, w)
  unfolding polls poll
  polls-malformed n id interval w e h =
      ap (λ v. after n id interval (read_task c interval (checked c v (get_task id) w))) h

  -- WaitTask returns a result within n + 1 polls exactly when the interval is not positive or the
  -- task ID malformed, and then the result is the error and nothing is sent, or when, after at most
  -- n answers of a task that is running, each followed by a wait without an error, the cluster
  -- answers with an error, which is returned, with a completed task, which is returned if it has no
  -- error and otherwise as an error of the type that the task has, or the wait is interrupted,
  -- whose error is returned.
  pub wait_task-Returns :
      (n : ℕ) (id : Bytes) (interval : ℤ) (r : Result Task) (w' w : World)
      → (wait_task c (suc n) id interval w ≡ some (r, w')) ↔ Returns (suc n) id interval r w' w
  unfolding wait_task
  wait_task-Returns n id interval r w' w = (only, conversely)
    where
      only :
          (if ltb_ℤ (pos 0) interval
              then polls c (suc n) id interval w
              else some (err (sentinel validation), w))
            ≡ some (r, w')
          → Returns (suc n) id interval r w' w
      only h = elim (Bool-cases (ltb_ℤ (pos 0) interval)) [
        | inl b ↦ elim (Result-cases (validate_task_id id)) [
          | inl (e, v) ↦
              let k = rw (b, polls-malformed n id interval w e v) at h in
              malformed e b v (same_result (err e) r w w' k) (sym (same_world (err e) r w w' k))
          | inr (tt, v) ↦
              let q = polls-Waits (suc n) id interval r w' w v (rw b at h) in
              waited (q.0) b v (q.1) (q.2)
        ]
        | inr b ↦
            let k = rw b at h in
            not_positive b (same_result (err (sentinel validation)) r w w' k)
              (sym (same_world (err (sentinel validation)) r w w' k))
      ]

      conversely :
          Returns (suc n) id interval r w' w
          → (if ltb_ℤ (pos 0) interval
              then polls c (suc n) id interval w
              else some (err (sentinel validation), w))
            ≡ some (r, w')
      conversely (not_positive b p q) = rw (b, p, q) refl
      conversely (malformed e b v p q) = rw (b, polls-malformed n id interval w e v, p, q) refl
      conversely (waited k b v h q) = rw b (polls_enough (suc n) k id interval r w' w v q h)
