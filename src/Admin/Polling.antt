-- ===== src/Admin/Polling.antt =====
-- operations.go: WaitTask, a loop that polls a task until it has completed.
use esodm.Prelude.{
  ℕ, zero, suc, Bool, true, false, Option, none, some, ℤ, pos, ltb_ℤ, Bytes, is_empty, [], ◌∷◌, ltb,
  leb, ◌==◌, ◌&&◌, ◌||◌, not, ◌^◌, if◌then◌else◌,
}
use esodm.Error.{Err, Result, ok, err, api, sentinel, validation, reject}
use esodm.Admin.{Cluster, Task, checked}
use esodm.Decimal.{unsigned}

-- A letter, a digit, an underscore or a hyphen.
abbrev node_byte : ℕ → Bool
node_byte c =
    (leb 97 c && leb c 122)
    || (leb 65 c && leb c 90)
    || (leb 48 c && leb c 57)
    || (c == 95)
    || (c == 45)

abbrev longer : ℕ → Option (Bytes × Bytes) → Option (Bytes × Bytes)
longer c none = none
longer c (some (node, rest)) = some (c ∷ node, rest)

abbrev all : (ℕ → Bool) → Bytes → Bool
all p [] = true
all p (c ∷ s) = p c && all p s

-- strings.Cut(id, ":"), where a separator stands.
unfoldable pub cut : ℕ → Bytes → Option (Bytes × Bytes)
cut sep [] = none
cut sep (c ∷ s) = let rest = cut sep s in if c == sep then some ([], s) else longer c rest

-- The error of strconv.ParseUint with 64 bits.
abbrev fits : Option ℕ → Bool
fits none = false
fits (some n) = ltb n (2 ^ 64)

abbrev checked_parts : Option (Bytes × Bytes) → Result (Unit {0})
checked_parts none = err (sentinel validation)
checked_parts (some (node, number)) =
    reject (is_empty node || not (all node_byte node) || not (fits (unsigned number))) validation

-- validateTaskID
unfoldable pub validate_task_id : Bytes → Result (Unit {0})
validate_task_id id = checked_parts (cut b':' id)

-- What a poll decides: the answer of WaitTask, or another round.
pub data Poll (W : Type 0) : Type 0 where
  done : Result Task → W → Poll W
  more : W → Poll W

-- The error of a completed task.
abbrev pub task_result : Task → Result Task
task_result t = elim t.error [
  | none ↦ ok t
  | some type ↦ err (api (record { status = 500; type = type; reason = [] }))
]

module _ (c : Cluster) where
  open c use {World, get_task, wait}

  abbrev pub after_wait : Option Err × World → Poll World
  after_wait (none, w) = more w
  after_wait (some e, w) = done (err e) w

  -- The body of the loop.
  abbrev pub read_task : ℤ → Result Task × World → Poll World
  read_task interval (err e, w) = done (err e) w
  read_task interval (ok t, w) =
      if t.completed then done (task_result t) w else after_wait (wait interval w)

  -- Admin.Task
  abbrev pub task : Bytes → World → Result Task × World
  task id w = checked c (validate_task_id id) (get_task id) w

  unfoldable pub poll : Bytes → ℤ → World → Poll World
  poll id interval w = read_task interval (task id w)

  -- The loop. The cluster decides how long a task runs, so the fuel is the number of polls; `none`
  -- means that the task is still running after them.
  unfoldable pub polls : ℕ → Bytes → ℤ → World → Option (Result Task × World)
  polls zero id interval w = none
  polls (suc n) id interval w = elim (poll id interval w) [
    | done r w' ↦ some (r, w')
    | more w' ↦ polls n id interval w'
  ]

  -- Admin.WaitTask
  unfoldable pub wait_task : ℕ → Bytes → ℤ → World → Option (Result Task × World)
  wait_task n id interval w =
      if ltb_ℤ (pos 0) interval then polls n id interval w else some (err (sentinel validation), w)
