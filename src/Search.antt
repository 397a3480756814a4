-- ===== src/Search.antt =====
-- search.go: a search as a value, whose construction errors are kept until it is run.
pub mod Running
pub mod Pinned
pub mod Complete
pub mod Including
pub mod Runs
pub mod Building
use esodm.Prelude.{
  ℕ, ◌+◌, ◌/◌, ◌%◌, Bool, true, false, not, ◌&&◌, ◌||◌, Option, none, some, List, [], ◌∷◌, ◌++◌,
  Bytes, text, bytes_eq, is_empty, contains_any, ltb, ◌==◌, if◌then◌else◌, ℤ, pos, pos_part, ltb_ℤ,
}
use esodm.Error.{Err, Result, ok, err, sentinel, validation, reject}
use esodm.Decimal.{itoa}
use esodm.Write.{Values}
use esodm.Read.{set_value, delete_value, join_commas, format_bool}

-- Search: the raw JSON of its fields, its URL parameters, and its construction error.
pub record Search : Type 0 where
  pub fields : Values
  pub params : Values
  pub error : Option Err

-- Search{}
abbrev pub empty_search : Search
empty_search = record { fields = []; params = []; error = none }

abbrev pub failed : Search → Err → Search
failed s e = record s { error = some e }

abbrev pub has_error : Search → Bool
has_error s = elim s.error [ none ↦ false | some e ↦ true ]

-- fields[key] = b, err, for the result of json.Marshal
abbrev pub with_encoded : Search → Bytes → Result Bytes → Search
with_encoded s key (err e) = record {
  fields = set_value key [] s.fields;
  params = s.params;
  error = some e;
}
with_encoded s key (ok b) = record {
  fields = set_value key b s.fields;
  params = s.params;
  error = none;
}

-- Search.With
unfoldable pub with_option : Bytes → Result Bytes → Search → Search
with_option key value s =
    if has_error s
    then s
    else if is_empty key
    then failed s (sentinel validation)
    else with_encoded s key value

-- Search.Size and Search.From
unfoldable pub size : ℤ → Search → Search
size n s =
    if ltb_ℤ n (pos 0)
    then failed s (sentinel validation)
    else with_option (text "size") (ok (itoa n)) s

unfoldable pub from : ℤ → Search → Search
from n s =
    if ltb_ℤ n (pos 0)
    then failed s (sentinel validation)
    else with_option (text "from") (ok (itoa n)) s

-- Sort
pub record Sort : Type 0 where
  pub field : Bytes
  pub desc : Bool

unfoldable pub empty_field : List Sort → Bool
empty_field [] = false
empty_field (f ∷ fs) = is_empty f.field || empty_field fs

-- Search.Sort, for the result of json.Marshal of the keys
unfoldable pub sort : List Sort → Result Bytes → Search → Search
sort fs encoded s =
    if empty_field fs then failed s (sentinel validation) else with_option (text "sort") encoded s

-- KNN, with the length of its vector and the result of Query.typed for its filter.
pub record Knn : Type 0 where
  pub field : Bytes
  pub dimensions : ℕ
  pub k : ℤ
  pub candidates : ℤ
  pub filter : Option (Result Bytes)

unfoldable pub bad_knn : Knn → Bool
bad_knn k =
    is_empty k.field
    || (k.dimensions == 0)
    || ltb_ℤ k.k (pos 1)
    || ltb_ℤ k.candidates k.k
    || ltb_ℤ (pos 10000) k.candidates

abbrev pub filter_error : Option (Result Bytes) → Option Err
filter_error (some (err e)) = some e
filter_error _ = none

-- Search.KNN, for the result of json.Marshal of the request model
unfoldable pub knn : Knn → Result Bytes → Search → Search
knn k encoded s =
    if bad_knn k then failed s (sentinel validation) else elim (filter_error k.filter) [
      | some e ↦ failed s e
      | none ↦ with_option (text "knn") encoded s
    ]

-- Search.without
unfoldable pub without : List Bytes → Search → Search
without [] s = s
without (k ∷ ks) s = without ks (record s { fields = delete_value k s.fields })

abbrev pub retrieve : Result Bytes → Result Bytes → Search → Search
retrieve (err e) encoded s = failed s e
retrieve (ok lexical) encoded s = with_option (text "retriever") encoded s

-- Search.HybridRRF, for the results of Query.typed of the lexical query and of json.Marshal of both
-- request models
unfoldable pub hybrid_rrf :
    Result Bytes → Knn → Result Bytes → ℤ → ℤ → Result Bytes → Search → Search
hybrid_rrf lexical vector encoded_knn window constant encoded s =
    if ltb_ℤ window (pos 1) || ltb_ℤ constant (pos 1)
    then failed s (sentinel validation)
    else elim ((knn vector encoded_knn empty_search).error) [
      | some e ↦ failed s e
      | none ↦ retrieve lexical encoded (without (text "query" ∷ text "knn" ∷ []) s)
    ]

-- A parameter that Param refuses.
unfoldable pub reserved : Bytes → Bool
reserved key =
    is_empty key
    || bytes_eq key (text "filter_path")
    || bytes_eq key (text "allow_partial_search_results")
    || contains_any key (13 ∷ 10 ∷ [])

-- Search.Param
unfoldable pub param : Bytes → Bytes → Search → Search
param key value s =
    if has_error s
    then s
    else if reserved key
    then failed s (sentinel validation)
    else record s { params = set_value key value s.params }

-- Search.Routing and Search.TypedKeys
abbrev pub routing : List Bytes → Search → Search
routing values s = param (text "routing") (join_commas values) s

abbrev pub typed_keys : Bool → Search → Search
typed_keys enabled s = param (text "typed_keys") (format_bool enabled) s

-- Search.Timeout, for a duration in nanoseconds
abbrev pub milliseconds : ℕ → ℕ
milliseconds d = if (d % 1000000) == 0 then d / 1000000 else d / 1000000 + 1

unfoldable pub timeout : ℤ → Search → Search
timeout d s =
    if ltb_ℤ d (pos 1)
    then failed s (sentinel validation)
    else with_option (text "timeout") (ok (itoa (pos (milliseconds (pos_part d))) ++ text "ms")) s

-- Search.validatePITParams
abbrev pub has_key : Values → Bytes → Bool
has_key [] key = false
has_key ((k, v) ∷ rest) key = bytes_eq k key || has_key rest key

abbrev pub is_pit : Search → Bool
is_pit s = has_key s.fields (text "pit")

unfoldable pub validate_pit_params : Search → Result (Unit {0})
validate_pit_params s = elim s.error [
  | some e ↦ err e
  | none ↦
      reject
        (is_pit s && (has_key s.params (text "routing") || has_key s.params (text "preference")))
        validation
]
