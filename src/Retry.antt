-- ===== src/Retry.antt =====
-- bulk_retry.go: RetryPolicy, its validation and the jittered delay between two attempts.
-- Durations are nanoseconds. A doubled delay stays at most `maximum`, so int64 is never exceeded.
pub mod Bounds
use esodm.Prelude.{
  ℕ, zero, suc, Bool, ◌&&◌, ◌||◌, if◌then◌else◌, ℤ, pos, pos_part, ltb_ℤ, eq_ℤ, min_ℤ, half_ℤ,
  double_ℤ, ◌-ℤ◌, ◌+ℤ◌,
}
use esodm.Error.{Result, reject, validation}

pub record RetryPolicy : Type 0 where
  pub max_retries : ℤ
  pub initial_backoff : ℤ
  pub max_backoff : ℤ

-- RetryPolicy.validate
unfoldable pub validate : RetryPolicy → Result (Unit {0})
validate p =
    reject
      (ltb_ℤ p.max_retries (pos 0)
        || ltb_ℤ (pos 20) p.max_retries
        || ltb_ℤ p.initial_backoff (pos 0)
        || ltb_ℤ p.max_backoff (pos 0)
        || (ltb_ℤ (pos 0) p.initial_backoff
            && ltb_ℤ (pos 0) p.max_backoff
            && ltb_ℤ p.max_backoff p.initial_backoff))
      validation

-- 100 ms and 30 s
abbrev pub default_initial : ℤ
default_initial = pos 100_000_000

abbrev pub default_maximum : ℤ
default_maximum = pos 30_000_000_000

abbrev pub initial : RetryPolicy → ℤ
initial p = if eq_ℤ p.initial_backoff (pos 0) then default_initial else p.initial_backoff

abbrev pub maximum : RetryPolicy → ℤ
maximum p = if eq_ℤ p.max_backoff (pos 0) then default_maximum else p.max_backoff

-- for range attempt { … }
unfoldable pub doubled : ℕ → ℤ → ℤ → ℤ
doubled zero max d = d
doubled (suc n) max d =
    let rest = doubled n max (double_ℤ d) in if ltb_ℤ (half_ℤ max) d then max else rest

-- The upper half of the capped delay; `int64n` is rand.Int64N.
unfoldable pub jittered : (ℕ → ℕ) → ℤ → ℤ
jittered int64n d =
    if ltb_ℤ d (pos 2) then d else half_ℤ d +ℤ pos (int64n (pos_part (d -ℤ half_ℤ d)))

-- RetryPolicy.delay
unfoldable pub delay : RetryPolicy → (ℕ → ℕ) → ℕ → ℤ
unfolding doubled jittered
delay p int64n attempt =
    jittered int64n (doubled attempt (maximum p) (min_ℤ (initial p) (maximum p)))
