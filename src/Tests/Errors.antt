-- ===== src/Tests/Errors.antt =====
-- Tests of Error, Version, Decimal and Retry.
use esodm.Prelude.{
  ℕ, ◌≤◌, ◌≡◌, ◌↔◌, refl, ◌∷◌, ◌++◌, text, pos, negsuc, arith, ◌/◌, ◌-◌, split, before, pos_part,
}
use esodm.Error.{ApiError, validation, too_many_requests, api_is, ok, err, sentinel}
use esodm.Error.Classes.{api_is_unique}
use esodm.Decimal.{atoi}
use esodm.Version.{Version, parse_version, show_version, compare_version, validate_version}
use esodm.Version.Order.{Older, Supported, compare_version-Older_iff, validate_version_iff}
use esodm.Version.RoundTrip.{parse-show}
use esodm.Retry.{RetryPolicy, validate, delay, maximum}
use esodm.Retry.Bounds.{capped, delay_bounds}

abbrev busy : ApiError
busy = record { status = 429; type = text "es_rejected_execution_exception"; reason = text "queue" }

api_is_unique_example : too_many_requests ≡ too_many_requests
api_is_unique_example =
    api_is_unique busy too_many_requests too_many_requests (unfold api_is in refl)
      (unfold api_is in refl)

abbrev v8 : Version
v8 = record { major = pos 8; minor = pos 18; patch = pos 1 }

abbrev v9 : Version
v9 = record { major = pos 9; minor = pos 4; patch = pos 5 }

parse_rc : parse_version (text "8.18.1-SNAPSHOT") ≡ ok v8
unfolding parse_version atoi split before
parse_rc = refl

parse_short : parse_version (text "8.18") ≡ err (sentinel validation)
unfolding parse_version atoi split before
parse_short = refl

-- Atoi accepts a plus sign, so the parser does.
parse_plus : parse_version (text "+8.18.1") ≡ ok v8
unfolding parse_version atoi split before
parse_plus = refl

parse-show_example : parse_version (show_version v8 ++ b'-' ∷ text "rc1") ≡ ok v8
parse-show_example = parse-show 8 18 1 (text "rc1") (omega arith) (omega arith) (omega arith)

compare_version-Older_iff_example :
    ((compare_version v8 v9 ≡ negsuc 0) ↔ Older v8 v9)
    × ((compare_version v8 v9 ≡ pos 1) ↔ Older v9 v8)
    × ((compare_version v8 v9 ≡ pos 0) ↔ (v8 ≡ v9))
compare_version-Older_iff_example = compare_version-Older_iff v8 v9

validate_version_iff_example : (validate_version v8 ≡ ok tt) ↔ Supported v8
validate_version_iff_example = validate_version_iff v8

abbrev policy : RetryPolicy
policy = record { max_retries = pos 3; initial_backoff = pos 0; max_backoff = pos 1_000_000_000 }

delay_third : delay policy (λ n. n - 1) 3 ≡ pos 799_999_999
unfolding delay
delay_third = refl

delay_bounds_example :
    (k : ℕ) × (delay policy (λ n. n - 1) 3 ≡ pos k)
    × (capped policy 3 / 2 ≤ k)
    × (k ≤ capped policy 3)
    × (k ≤ pos_part (maximum policy))
delay_bounds_example =
    delay_bounds policy (λ n. n - 1) 3 (unfold validate in refl) (λ n h. omega arith)
