-- ===== src/Write.antt =====
-- repository.go: the metadata of documents, the options of a write and their URL parameters.
pub mod Values
use esodm.Prelude.{
  ℕ, Bool, true, false, not, ◌||◌, Option, none, some, List, [], ◌∷◌, ◌++◌, Bytes, text, is_empty,
  if◌then◌else◌, ℤ, pos, ltb_ℤ,
}
use esodm.Error.{Result, ok, err, reject, validation, ◌>>=◌, ◌>>◌}
use esodm.Decimal.{itoa}

-- Metadata
pub record Metadata : Type 0 where
  pub index : Bytes
  pub id : Bytes
  pub routing : Bytes
  pub seq_no : Option ℤ
  pub primary_term : Option ℤ
  pub version : ℤ

-- WriteResult
pub record WriteResult : Type 0 where
  pub metadata : Metadata
  pub result : Bytes
  pub total : ℤ
  pub successful : ℤ
  pub failed : ℤ

-- Refresh; `unknown` is any text but the four that are accepted.
pub data Refresh : Type 0 where
  unset no_refresh now wait_for unknown : Refresh

-- WriteOptions
pub record WriteOptions : Type 0 where
  pub routing : Bytes
  pub refresh : Refresh
  pub if_seq_no : Option ℤ
  pub if_primary_term : Option ℤ
  pub pipeline : Bytes

-- url.Values with one value to a key, in the order in which the keys are set.
abbrev pub Values : Type 0
Values = List (Bytes × Bytes)

abbrev pub check_refresh : Refresh → Result (Unit {0})
check_refresh unknown = reject true validation
check_refresh _ = reject false validation

-- The concurrency tokens: both or none, and in range.
abbrev pub tokens : Option ℤ → Option ℤ → Result Values
tokens none none = ok []
tokens none (some term) = reject true validation >> ok []
tokens (some seq) none = reject true validation >> ok []
tokens (some seq) (some term) = do
  reject (ltb_ℤ seq (pos 0) || ltb_ℤ term (pos 1)) validation
  ok ((text "if_seq_no", itoa seq) ∷ (text "if_primary_term", itoa term) ∷ [])

abbrev pub optional : Bytes → Bytes → Values
optional key value = if is_empty value then [] else (key, value) ∷ []

abbrev pub refresh_text : Refresh → Bytes
refresh_text unset = []
refresh_text no_refresh = text "false"
refresh_text now = text "true"
refresh_text wait_for = text "wait_for"
refresh_text unknown = []

-- The parameters that are set when they are not empty.
abbrev pub other_values : WriteOptions → Values
other_values o =
    optional (text "routing") o.routing
    ++ (optional (text "refresh") (refresh_text o.refresh) ++ optional (text "pipeline") o.pipeline)

-- WriteOptions.values
unfoldable pub values : WriteOptions → Result Values
values o = do
  check_refresh o.refresh
  v ← tokens o.if_seq_no o.if_primary_term
  ok (v ++ other_values o)

-- WriteOptions{Refresh: refresh}
abbrev pub only_refresh : Refresh → WriteOptions
only_refresh r = record {
  routing = [];
  refresh = r;
  if_seq_no = none;
  if_primary_term = none;
  pipeline = [];
}

-- Metadata.Conditional
unfoldable pub conditional : Metadata → WriteOptions
conditional m = record {
  routing = m.routing;
  refresh = unset;
  if_seq_no = m.seq_no;
  if_primary_term = m.primary_term;
  pipeline = [];
}
