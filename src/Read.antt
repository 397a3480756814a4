-- ===== src/Read.antt =====
-- repository.go and read_options.go: stored documents as they are read, and the options of a read.
use esodm.Prelude.{
  Bool, true, false, Option, none, some, List, [], ◌∷◌, ◌++◌, Bytes, text, bytes_eq, if◌then◌else◌,
}
use esodm.Write.{Metadata, Values, optional}

-- Hit: the metadata, the source, and the stored routing among the requested fields as raw JSON.
pub record StoredHit (Doc : Type 0) : Type 0 where
  pub metadata : Metadata
  pub source : Doc
  pub routing_field : Option Bytes

-- ReadOptions; a nil source filter has no patterns.
pub record ReadOptions : Type 0 where
  pub routing : Bytes
  pub preference : Bytes
  pub realtime : Option Bool
  pub includes : List Bytes
  pub excludes : List Bytes

-- ReadOptions{}
abbrev pub no_options : ReadOptions
no_options = record { routing = []; preference = []; realtime = none; includes = []; excludes = [] }

-- strings.Join(list, ",")
abbrev pub join_commas : List Bytes → Bytes
join_commas [] = []
join_commas (s ∷ []) = s
join_commas (s ∷ t ∷ rest) = s ++ b',' ∷ join_commas (t ∷ rest)

-- strconv.FormatBool
abbrev pub format_bool : Bool → Bytes
format_bool true = text "true"
format_bool false = text "false"

abbrev pub listed : Bytes → List Bytes → Values
listed key [] = []
listed key (s ∷ rest) = (key, join_commas (s ∷ rest)) ∷ []

abbrev pub realtime_value : Option Bool → Values
realtime_value none = []
realtime_value (some b) = (text "realtime", format_bool b) ∷ []

-- ReadOptions.values
unfoldable pub read_values : ReadOptions → Values
read_values o =
    optional (text "routing") o.routing
    ++ (optional (text "preference") o.preference
        ++ (realtime_value o.realtime
            ++ (listed (text "_source_includes") o.includes
                ++ listed (text "_source_excludes") o.excludes)))

-- url.Values.Del and url.Values.Set
unfoldable pub delete_value : Bytes → Values → Values
delete_value key [] = []
delete_value key ((k, v) ∷ rest) =
    let others = delete_value key rest in if bytes_eq k key then others else (k, v) ∷ others

unfoldable pub set_value : Bytes → Bytes → Values → Values
set_value key value [] = (key, value) ∷ []
set_value key value ((k, v) ∷ rest) =
    let others = set_value key value rest in
    if bytes_eq k key then (key, value) ∷ rest else (k, v) ∷ others

-- url.Values.Get; an absent key has the empty value.
unfoldable pub get_value : Bytes → Values → Bytes
get_value key [] = []
get_value key ((k, v) ∷ rest) =
    let later = get_value key rest in if bytes_eq k key then v else later
