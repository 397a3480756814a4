-- ===== src/Error.antt =====
-- client.go: the sentinel errors, *Error and its classification, and the way that errors.Is and
-- errors.As walk wrapped errors; the other error types of the package are constructors.
pub mod Classes
use esodm.Prelude.{
  ℕ, ℤ, ◌≡◌, refl, ◌⊎◌, inl, inr, Bool, true, false, ◌==◌, ◌||◌, Option, none, some, Bytes, List,
  [],
}

-- MigrationState.Phase; `unknown` is any other text.
pub data Phase : Type 0 where
  planned creating created submitting copying switching complete unknown : Phase

-- The error variables of the package.
pub data Sentinel : Type 0 where
  unavailable too_many_requests unacknowledged not_found conflict : Sentinel
  validation unsupported response_too_large : Sentinel

-- *Error. Cause and Body carry the raw server answer, which the classification does not read.
pub record ApiError : Type 0 where
  pub status : ℕ
  pub type : Bytes
  pub reason : Bytes

pub data Err : Type 0 where
  -- a sentinel, or fmt.Errorf("%w: …", sentinel)
  sentinel : Sentinel → Err
  -- fmt.Errorf("%w: %w", sentinel, err)
  caused : Sentinel → Err → Err
  api : ApiError → Err
  partial_search : Bool → ℤ → Err
  bulk_failed : ℕ → Err
  -- *CommittedError with its Cause
  committed : Err → Err
  pending : Phase → Err
  incomplete : Err
  -- errors.Join
  joined : Err → Err → Err
  -- errors.New, or fmt.Errorf without a sentinel
  message : Err
  -- an error of code outside the package: the transport, a hook, a callback, the context
  foreign : ℕ → Err

-- A fallible Go function returns a value and an error.
pub data Result {ℓ} (T : Type ℓ) : Type ℓ where
  err : Err → Result T
  ok : T → Result T

-- x, err := f(); if err != nil { return …, err }
infixl 10 ◌>>=◌ ◌>>◌
abbrev pub ◌>>=◌ {ℓ κ} : {S : Type ℓ} {T : Type κ} → Result S → (S → Result T) → Result T
◌>>=◌ (err problem) next = err problem
◌>>=◌ (ok value) next = next value

-- if err := f(); err != nil { return …, err }
abbrev pub ◌>>◌ {ℓ} : {T : Type ℓ} → Result (Unit {0}) → Result T → Result T
◌>>◌ (err problem) next = err problem
◌>>◌ (ok _) next = next

-- if cond { return …, fmt.Errorf("%w: …", s) }
abbrev pub reject : Bool → Sentinel → Result (Unit {0})
reject true s = err (sentinel s)
reject false s = ok tt

-- target == sentinel
abbrev pub same : Sentinel → Sentinel → Bool
same unavailable unavailable = true
same too_many_requests too_many_requests = true
same unacknowledged unacknowledged = true
same not_found not_found = true
same conflict conflict = true
same validation validation = true
same unsupported unsupported = true
same response_too_large response_too_large = true
same _ _ = false

-- Error.Is
unfoldable pub api_is : ApiError → Sentinel → Bool
api_is e not_found = e.status == 404
api_is e conflict = e.status == 409
api_is e validation = e.status == 400
api_is e too_many_requests = e.status == 429
api_is e unavailable = (e.status == 502) || (e.status == 503) || (e.status == 504)
api_is e _ = false

-- Error.Retryable
unfoldable pub retryable : ApiError → Bool
unfolding api_is
retryable e = api_is e too_many_requests || api_is e unavailable

-- Error.Redacted
unfoldable pub redacted : Option ApiError → Option ApiError
redacted none = none
redacted (some e) = some (record { status = e.status; type = e.type; reason = [] })

-- errors.Is(err, target)
unfoldable pub is_err : Err → Sentinel → Bool
unfolding api_is
is_err (sentinel s) t = same s t
is_err (caused s e) t = same s t || is_err e t
is_err (api e) t = api_is e t
is_err (committed e) t = is_err e t
is_err (joined a b) t = is_err a t || is_err b t
is_err _ t = false

abbrev first_some : Option ApiError → Option ApiError → Option ApiError
first_some (some e) o = some e
first_some none o = o

-- errors.As(err, **Error)
unfoldable pub as_api : Err → Option ApiError
as_api (api e) = some e
as_api (caused s e) = as_api e
as_api (committed e) = as_api e
as_api (joined a b) = first_some (as_api a) (as_api b)
as_api _ = none

-- errors.As(err, **CommittedError)
unfoldable pub as_committed : Err → Bool
as_committed (committed e) = true
as_committed (caused s e) = as_committed e
as_committed (joined a b) = as_committed a || as_committed b
as_committed _ = false

-- errors.As(err, **BulkError)
unfoldable pub as_bulk : Err → Bool
as_bulk (bulk_failed n) = true
as_bulk (caused s e) = as_bulk e
as_bulk (committed e) = as_bulk e
as_bulk (joined a b) = as_bulk a || as_bulk b
as_bulk _ = false

pub Result-cases {ℓ} :
    {A : Type ℓ} (r : Result A) → ((e : Err) × (r ≡ err e)) ⊎ ((a : A) × (r ≡ ok a))
Result-cases (err e) = inl (e, refl)
Result-cases (ok a) = inr (a, refl)

-- A test that did not reject.
pub reject-ok : (b : Bool) (u : Unit {0}) → reject b validation ≡ ok u → b ≡ false
reject-ok true u p = cc
reject-ok false u p = refl
