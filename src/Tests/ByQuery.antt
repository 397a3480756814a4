-- ===== src/Tests/ByQuery.antt =====
-- An update by query of three documents.
use esodm.Prelude.{
  ℕ, ◌≡◌, ◌↔◌, refl, true, false, Option, none, some, [], Bytes, text, pos, is_empty, bytes_eq,
  contains_any,
}
use esodm.Error.{Err, incomplete}
use esodm.Names.{Unicode, validate_index_name, validate_name}
use esodm.ByQuery.{
  ByQueryOptions, ByQueryResponse, by_query, Succeeds, by_query-Succeeds, validate_by_query,
  is_incomplete,
}

abbrev ascii : Unicode
ascii = record { to_lower = λ s. s; valid_string = λ _. true }

abbrev options : ByQueryOptions
options = record { routing = []; refresh = true; async = false; conflicts = [] }

abbrev conflicting : ByQueryResponse
conflicting = record {
  task = none;
  total = some (pos 3);
  failures = 0;
  timed_out = some false;
  version_conflicts = some (pos 1);
}

abbrev send : Bytes → ℕ → ByQueryOptions → ℕ → (ByQueryResponse × Option Err) × ℕ
send index query o w = ((conflicting, none), w)

-- A version conflict leaves the work incomplete.
conflict_reported :
    by_query ascii send (text "books") (some 1) options 0 ≡ ((conflicting, some incomplete), 0)
unfolding by_query validate_by_query is_incomplete validate_index_name validate_name is_empty
    bytes_eq contains_any
conflict_reported = refl

by_query-Succeeds_example :
    ((by_query ascii send (text "books") (some 1) options 0).0.1 ≡ none)
    ↔ Succeeds ascii send (text "books") (some 1) options 0
by_query-Succeeds_example = by_query-Succeeds ascii send (text "books") (some 1) options 0
