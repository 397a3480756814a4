-- ===== src/Error/Classes.antt =====
-- The classes that *Error reports, and what survives redaction.
use esodm.Prelude.{◌≡◌, refl, true, some, [], arith}
use esodm.Error.{Sentinel, ApiError, api_is, retryable, redacted}

-- One HTTP status answers to one sentinel at most: the classes of an API error are disjoint.
pub api_is_unique : (e : ApiError) (s t : Sentinel) → api_is e s ≡ true → api_is e t ≡ true → s ≡ t
unfolding api_is
api_is_unique e s t h k = ground arith

-- Redacting an API error changes neither its classes nor whether it is retryable, and drops the
-- reason.
redacted-is :
    (e : ApiError) (s : Sentinel)
    → (r : ApiError) × (redacted (some e) ≡ some r)
      × (api_is r s ≡ api_is e s)
      × (retryable r ≡ retryable e)
      × (r.reason ≡ [])
unfolding redacted api_is retryable
redacted-is e s =
    (record { status = e.status; type = e.type; reason = [] }, refl, ground arith, refl, refl)
