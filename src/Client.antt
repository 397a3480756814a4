-- ===== src/Client.antt =====
-- client.go: requests over a transport, with the limit on the response, the classification of
-- errors, the observer and the instrumentation.
pub mod Perform
pub mod Success
pub mod Calls
pub mod Connect
pub mod Typed
use esodm.Prelude.{
  ℕ, ◌+◌, Bool, true, false, not, ◌||◌, Option, none, some, List, [], ◌∷◌, ◌++◌, Bytes, text,
  bytes_eq, is_empty, length, ltb, leb, take, if◌then◌else◌, ◌==◌, ◌&&◌,
}
use esodm.Error.{
  Err, ApiError, Result, ok, err, api, sentinel, caused, message, validation, response_too_large,
}
use esodm.Write.{Values}
use esodm.Paths.{check_path, request_operation}

-- http.Request: what the package sets and reads of it.
pub record Request : Type 0 where
  pub method : Bytes
  pub host : Bytes
  pub has_user : Bool
  pub path : Bytes
  pub query : Values
  pub accept : Bytes
  pub content_type : Bytes
  pub body : Option Bytes

-- A response body: the bytes that it yields, and the error after them, if it does not end there.
pub record Body : Type 0 where
  pub content : Bytes
  pub failure : Option Err

-- http.Response; a nil Body is none.
pub record Response : Type 0 where
  pub status : ℕ
  pub body : Option Body

-- Event without the duration.
pub record Event : Type 0 where
  pub operation : Bytes
  pub index : Bytes
  pub method : Bytes
  pub status : ℕ
  pub error : Option Err

-- elastictransport.Instrumentation
pub record Instrumentation (World : Type 0) : Type 0 where
  pub start : Bytes → World → World
  pub record_path_part : Bytes → World → World
  pub before_request : Request → Bytes → World → World
  pub after_request : Request → Bytes → World → World
  pub record_error : World → World
  pub close : World → World

-- What a client calls: the transport, Body.Close, its observer and its instrumentation, if any,
-- and the error of http.NewRequestWithContext for a method, a path and a query.
pub record Http (World : Type 0) : Type 0 where
  pub perform : Request → World → (Option Response × Option Err) × World
  pub close_body : Body → World → World
  pub observer : Option (Event → World → World)
  pub instrumentation : Option (Instrumentation World)
  pub malformed : Bytes → Bytes → Values → Option Err

-- encoding/json: the raw error of an envelope, empty where it is absent; the type and the reason
-- of an error cause; a string, empty where it is none.
pub record Json : Type 0 where
  pub envelope : Bytes → Option Bytes
  pub cause : Bytes → Option (Bytes × Bytes)
  pub string : Bytes → Bytes

-- json.Decoder: the first value, if it can be decoded, and whether io.EOF is next.
pub record Decoder (Out : Type 0) : Type 0 where
  pub decode : Bytes → Out × Option Err
  pub at_end : Bytes → Bool

-- What perform leaves: the status for the observer, what was decoded, and the error.
pub record Outcome (Out : Type 0) : Type 0 where
  pub status : ℕ
  pub out : Option Out
  pub error : Option Err

-- telemetryRequest
unfoldable pub telemetry_request : Request → Bytes → Request
telemetry_request r operation = record {
  method = r.method;
  host = r.host;
  has_user = false;
  path = b'/' ∷ operation;
  query = [];
  accept = [];
  content_type = [];
  body = none;
}

-- io.ReadAll(io.LimitReader(body, n))
unfoldable pub read_limited : Body → ℕ → Bytes × Option Err
read_limited b n =
    if ltb (length b.content) n then (b.content, b.failure) else (take n b.content, none)

abbrev pub starts_object : Bytes → Bool
starts_object [] = false
starts_object (c ∷ s) = c == b'{'

abbrev pub of_cause : Json → ℕ → Bytes → Option (Bytes × Bytes) → ApiError
of_cause j status raw none = record { status = status; type = []; reason = j.string raw }
of_cause j status raw (some (type, reason)) = record {
  status = status;
  type = type;
  reason = reason;
}

abbrev pub of_envelope : Json → ℕ → Option Bytes → ApiError
of_envelope j status none = record { status = status; type = []; reason = [] }
of_envelope j status (some raw) =
    of_cause j status raw (if starts_object raw then j.cause raw else none)

-- The *Error of a status outside 200..299 and a body.
unfoldable pub api_error : Json → ℕ → Bytes → ApiError
api_error j status b = of_envelope j status (j.envelope b)

-- The two calls of Decode; fmt.Errorf("%w") around the first error keeps its class.
abbrev pub decoded :
    {Out : Type 0} → Decoder Out → Out × Option Err → Bytes → Option Out × Option Err
decoded d (v, some e) b = (some v, some e)
decoded d (v, none) b = (some v, (if d.at_end b then none else some message))

-- 200 <= status && status < 300
unfoldable pub is_success : ℕ → Bool
is_success status = leb 200 status && ltb status 300

-- From the bytes that were read to the return. `wanted` is whether out is not nil.
unfoldable pub received :
    {Out : Type 0}
    → Json
    → Decoder Out
    → ℕ
    → Bool
    → Bytes
    → ℕ
    → Bytes × Option Err
    → Option Out × Option Err
received j d limit wanted method status (b, some e) = (none, some e)
received j d limit wanted method status (b, none) =
    if ltb limit (length b)
    then (none, some (sentinel response_too_large))
    else if not (is_success status)
    then (none, some (api (api_error j status b)))
    else if not wanted || bytes_eq method (text "HEAD")
    then (none, none)
    else if is_empty b
    then (none, some message)
    else decoded d (d.decode b) b
