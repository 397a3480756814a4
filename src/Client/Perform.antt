-- ===== src/Client/Perform.antt =====
-- client.go: perform, request and Do, with the deferred calls of perform in their order.
use esodm.Prelude.{
  ℕ, ◌+◌, Bool, false, Option, none, some, [], Bytes, text, is_empty, if◌then◌else◌,
}
use esodm.Error.{Err, Result, ok, err, caused, message, validation}
use esodm.Write.{Values}
use esodm.Paths.{check_path, request_operation}
use esodm.Client.{
  Request, Body, Response, Event, Instrumentation, Http, Json, Decoder, Outcome, telemetry_request,
  read_limited, received,
}

module _ {World Out : Type 0} (h : Http World) (j : Json) (d : Decoder Out) (limit : ℕ) where
  -- The reading of a response body, and its deferred Close.
  abbrev pub read_all : Bool → Bytes → ℕ → Option Body → World → Outcome Out × World
  read_all wanted method status none w =
      (record { status = 0; out = none; error = some message }, w)
  read_all wanted method status (some b) w =
      let result = received j d limit wanted method status (read_limited b (limit + 1)) in
      (record { status = status; out = result.0; error = result.1 }, h.close_body b w)

  -- From the return of Transport.Perform to the return, with the deferred Body.Close.
  unfoldable pub exchanged :
      Bool → Bytes → (Option Response × Option Err) × World → Outcome Out × World
  exchanged wanted method ((none, some e), w) =
      (record { status = 0; out = none; error = some e }, w)
  exchanged wanted method ((some r, some e), w) =
      (record { status = 0; out = none; error = some e }, closed (r.body) w)
    where
      closed : Option Body → World → World
      closed none w = w
      closed (some b) w = h.close_body b w
  exchanged wanted method ((none, none), w) =
      (record { status = 0; out = none; error = some message }, w)
  exchanged wanted method ((some r, none), w) = read_all wanted method r.status r.body w

  -- The deferred call of the observer.
  abbrev pub observed : Request → Option (Event → World → World) → Outcome Out → World → World
  observed r none o w = w
  observed r (some f) o w =
      let operation = request_operation r.method r.path in
      f
        (record {
          operation = operation.0;
          index = operation.1;
          method = r.method;
          status = o.status;
          error = o.error;
        })
        w

  -- The calls of the instrumentation before the request, and the deferred ones.
  abbrev pub record_index : Instrumentation World → Bytes → World → World
  record_index i index w = if is_empty index then w else i.record_path_part index w

  abbrev pub begun : Request → Option (Instrumentation World) → World → World
  begun r none w = w
  begun r (some i) w =
      let operation = request_operation r.method r.path in
      i.before_request (telemetry_request r operation.0) (operation.0)
        (record_index i (operation.1) (i.start (operation.0) w))

  abbrev pub record_failure : Instrumentation World → Option Err → World → World
  record_failure i none w = w
  record_failure i (some e) w = i.record_error w

  abbrev pub ended : Request → Option (Instrumentation World) → Option Err → World → World
  ended r none e w = w
  ended r (some i) e w =
      let operation = request_operation r.method r.path in
      i.close
        (record_failure i e (i.after_request (telemetry_request r operation.0) (operation.0) w))

  -- Client.perform
  unfoldable pub perform : Bool → Request → World → (Option Out × Option Err) × World
  perform wanted r w =
      let result = exchanged wanted r.method (h.perform r (begun r h.instrumentation w)) in
      (
        (result.0.out, result.0.error),
        ended r h.instrumentation result.0.error (observed r h.observer (result.0) (result.1)),
      )

  -- Client.request, from a query and an encoded body
  abbrev pub new_request : Bytes → Bytes → Values → Bytes → Bytes → Request
  new_request method path query bytes content_type = record {
    method = method;
    host = [];
    has_user = false;
    path = path;
    query = query;
    accept = [];
    content_type = content_type;
    body = some bytes;
  }

  unfoldable pub request :
      Bytes → Bytes → Values → Bytes → Bytes → Bool → World → (Option Out × Option Err) × World
  request method path query bytes content_type wanted w = elim (check_path path) [
    | err e ↦ ((none, some e), w)
    | ok _ ↦ elim (h.malformed method path query) [
      | some e ↦ ((none, some e), w)
      | none ↦ perform wanted (new_request method path query bytes content_type) w
    ]
  ]

  -- Client.Do, where `encoded` is the result of json.Marshal, if there is a body
  unfoldable pub do_json :
      Bytes
      → Bytes
      → Values
      → Option (Result Bytes)
      → Bool
      → World
      → (Option Out × Option Err) × World
  do_json method path query none wanted w =
      request method path query [] (text "application/json") wanted w
  do_json method path query (some (err e)) wanted w = ((none, some (caused validation e)), w)
  do_json method path query (some (ok bytes)) wanted w =
      request method path query bytes (text "application/json") wanted w
