-- ===== src/Bulk/Sequence.antt =====
-- bulk_sequence.go: BulkSeq2 for one worker and no flush interval, where it sends one batch after
-- another. A producer is the list of what it yields.
pub mod Batches
use esodm.Prelude.{
  ℕ, suc, Bool, true, false, not, ◌||◌, Option, none, some, List, [], ◌∷◌, ◌++◌, length, ◌==◌,
  if◌then◌else◌, ℤ, pos, pos_part, ltb_ℤ, eq_ℤ,
}
use esodm.Error.{Err, Result, ok, err, sentinel, validation, joined, ◌>>=◌}
use esodm.Retry
use esodm.Retry.{RetryPolicy}
use esodm.Write.{Refresh, values, only_refresh}
use esodm.Bulk.{Operation, BulkResult, Backend}
use esodm.Bulk.Loop.{BulkOptions, bulk_with_options}

-- BulkStreamOptions
pub record BulkStreamOptions : Type 0 where
  pub batch_size : ℤ
  pub workers : ℤ
  pub queue_size : ℤ
  pub flush_interval : ℤ
  pub refresh : Refresh
  pub retry : RetryPolicy

-- The checks of the options.
unfoldable pub check_options : BulkStreamOptions → Option Err
check_options o =
    if ltb_ℤ (pos 64) o.workers
      || ltb_ℤ o.workers (pos 0)
      || ltb_ℤ o.flush_interval (pos 0)
      || ltb_ℤ o.queue_size (pos 0)
      || ltb_ℤ (pos 64) o.queue_size
      || ltb_ℤ o.batch_size (pos 0)
      || ltb_ℤ (pos 10000) o.batch_size
    then some (sentinel validation)
    else elim (Retry.validate o.retry) [
      | err e ↦ some e
      | ok _ ↦ elim (values (only_refresh o.refresh)) [ err e ↦ some e | ok _ ↦ none ]
    ]

-- size := options.BatchSize; if size == 0 { size = 500 }
abbrev pub size_of : BulkStreamOptions → ℕ
size_of o = if eq_ℤ o.batch_size (pos 0) then 500 else pos_part o.batch_size

-- if first == nil { first = err }
abbrev pub keep_first : Option Err → Option Err → Option Err
keep_first none e = e
keep_first (some a) e = some a

-- errors.Join(first, err)
abbrev pub join_error : Option Err → Err → Err
join_error none e = e
join_error (some a) e = joined a e

module _ {Doc Patch : Type 0} (b : Backend Doc Patch) (options : BulkOptions)
    (on_result : ℕ → BulkResult × Option Err → b.World → Option Err × b.World) where
  -- The variables batch, sequence and first.
  pub record Progress : Type 0 where
    pub batch : List (Operation Doc Patch)
    pub sequence : ℕ
    pub first : Option Err

  -- After the callback: whether to go on.
  abbrev pub delivered : Progress → Option Err × b.World → (Bool × Progress) × b.World
  delivered p (none, w) = ((true, p), w)
  delivered p (some e, w) = ((false, record p { first = some e }), w)

  abbrev pub sent : Progress → (BulkResult × Option Err) × b.World → (Bool × Progress) × b.World
  sent p (out, w) =
      delivered (record { batch = []; sequence = suc p.sequence; first = keep_first p.first out.1 })
        (on_result p.sequence out w)

  -- flush
  unfoldable pub flush : Progress → b.World → (Bool × Progress) × b.World
  flush p w = elim p.batch [
    | [] ↦ ((true, p), w)
    | op ∷ ops ↦ sent p (bulk_with_options b (op ∷ ops) options w)
  ]

  abbrev pub producer_failed : Err → (Bool × Progress) × b.World → Option Err × b.World
  producer_failed e ((true, p), w) = (some (join_error p.first e), w)
  producer_failed e ((false, p), w) = (p.first, w)

  abbrev pub flushed : (Bool × Progress) × b.World → Option Err × b.World
  flushed ((_, p), w) = (p.first, w)

  -- if len(batch) == size && !flush() { return first }
  unfoldable pub flush_full : ℕ → Progress → b.World → (Bool × Progress) × b.World
  flush_full size p w = if length p.batch == size then flush p w else ((true, p), w)

  -- The loop over the sequence, and what follows it.
  unfoldable pub consume :
      ℕ → List (Operation Doc Patch × Option Err) → Progress → b.World → Option Err × b.World
  consume size [] p w = elim (b.ctx_err w) [ some e ↦ (some e, w) | none ↦ flushed (flush p w) ]
  consume size ((op, e) ∷ rest) p w =
      let ((more, p'), w') = flush_full size (record p { batch = p.batch ++ op ∷ [] }) w in
      let later = consume size rest p' w' in
      elim (b.ctx_err w) [
        | some c ↦ (some c, w)
        | none ↦ elim e [
          | some x ↦ producer_failed x (flush p w)
          | none ↦ if more then later else (p'.first, w')
        ]
      ]

-- BulkSeq2; `none` where it hands the sequence to streamSequence.
unfoldable pub bulk_seq2 :
    {Doc Patch : Type 0} (b : Backend Doc Patch) (o : BulkStreamOptions)
    → (ℕ → BulkResult × Option Err → b.World → Option Err × b.World)
    → List (Operation Doc Patch × Option Err)
    → b.World
    → Option (Option Err × b.World)
bulk_seq2 b o on_result producer w = elim (check_options o) [
  | some e ↦ some (some e, w)
  | none ↦
      if ltb_ℤ (pos 1) o.workers || ltb_ℤ (pos 0) o.flush_interval
      then none
      else some (
          consume b (record { refresh = o.refresh; retry = o.retry }) on_result (size_of o) producer
            (record { batch = []; sequence = 0; first = none }) w)
]
