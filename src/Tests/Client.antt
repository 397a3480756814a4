-- ===== src/Tests/Client.antt =====
-- A transport with one answer, for versions and for bodies.
use esodm.Prelude.{
  has_prefix, contains_any, bytes_eq, is_empty, split, before, contains_byte, ℕ, ◌+◌, ◌≡◌, ◌↔◌, ◌⊎◌,
  refl, true, false, none, some, [], Bytes, text, pos, Option,
}
use esodm.Error.{Err, ok}
use esodm.Client.{received, read_limited, is_success, Request, Http, Json, Decoder}
use esodm.Client.Perform.{request, exchanged, perform, do_json, begun}
use esodm.Client.Success.{IsAnswered, perform-IsAnswered}
use esodm.Client.Connect.{
  new_client, connect, Client, IsConnected, IsDiscovered, connect-IsConnected,
}
use esodm.Client.Typed.{Typed, do_typed, IsRefused, IsSent, do_typed-IsLocal}
use esodm.Paths.{check_path}
use esodm.Version.{parse_version, compare_version, validate_version}
use esodm.Decimal.{atoi, digits_value, unsigned}

-- The world counts requests.
abbrev answering : Http ℕ
answering = record {
  perform = λ r w. (
    (
      some (record {
        status = 200;
        body = some (record { content = text "9.4.5"; failure = none });
      }),
      none,
    ),
    w + 1,
  );
  close_body = λ b w. w;
  observer = none;
  instrumentation = none;
  malformed = λ m p q. none;
}

abbrev no_json : Json
no_json = record { envelope = λ b. none; cause = λ b. none; string = λ b. [] }

abbrev raw : Decoder Bytes
raw = record { decode = λ b. (b, none); at_end = λ b. true }

abbrev ping : Request
ping = record {
  method = text "GET";
  host = [];
  has_user = false;
  path = text "/";
  query = [];
  accept = text "application/json; compatible-with=9";
  content_type = [];
  body = none;
}

abbrev builder : Typed ℕ
builder = record {
  build = λ w. ((some ping, none), w);
  compatible_with = λ v. some (text "9");
  close_request = λ r w. w;
}

perform-IsAnswered_example :
    ((perform answering no_json raw 10 true ping 0).0.1 ≡ none)
    ↔ IsAnswered answering no_json raw 10 true
        (text "GET")
        (answering.perform ping (begun answering no_json raw 10 ping none 0)).0
perform-IsAnswered_example = perform-IsAnswered answering no_json raw 10 true ping 0

do_typed-IsLocal_example :
    ((e : Err) × (do_typed builder (pos 9) answering no_json raw 10 false true 0
        ≡ ((none, some e), 0)))
    ⊎ (IsRefused builder
          (pos 9)
          answering
          no_json
          raw
          10
          (do_typed builder (pos 9) answering no_json raw 10 false true 0)
          0
        ⊎ IsSent builder
            (pos 9)
            answering
            no_json
            raw
            10
            (do_typed builder (pos 9) answering no_json raw 10 false true 0)
            ((some ping, none), 0)
            true)
do_typed-IsLocal_example = do_typed-IsLocal builder (pos 9) answering no_json raw 10 false true 0

abbrev connected_client : Client
connected_client = record {
  version = record { major = pos 9; minor = pos 4; patch = pos 5 };
  limit = pos 1024;
}

connects : (connect answering no_json raw none false (pos 1024) 0).0 ≡ ok connected_client
unfolding connect do_json perform new_client request exchanged check_path has_prefix contains_any
    bytes_eq is_empty split before contains_byte received read_limited is_success parse_version
    compare_version validate_version atoi digits_value unsigned
connects = refl

connect-IsConnected_example :
    (◌≡◌ {A = Option Err} none none)
    × IsConnected connected_client
    × IsDiscovered answering no_json raw
        ((do_json answering no_json raw 1024 (text "GET") (text "/") [] none true 0).0)
        connected_client.version
connect-IsConnected_example =
    connect-IsConnected answering no_json raw none false (pos 1024) 0 connected_client connects
