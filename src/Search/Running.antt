-- ===== src/Search/Running.antt =====
-- search.go: the execution of a search by a repository.
use esodm.Prelude.{
  Bool, true, false, ◌&&◌, ◌||◌, Option, none, some, List, [], ◌∷◌, Bytes, text, bytes_eq,
  if◌then◌else◌, ℤ, pos, ltb_ℤ, eq_ℤ,
}
use esodm.Error.{Err, Result, ok, err, partial_search}
use esodm.Write.{Values}
use esodm.Read.{StoredHit}
use esodm.Client.{Decoder}
use esodm.Client.Typed.{Typed, do_typed}
use esodm.Repository.{Repository}
use esodm.Repository.Reading.{after_read}
use esodm.Search.{Search, with_option, validate_pit_params, is_pit}

-- SearchResult, as far as it is read, with the texts of its total.
pub record SearchResult (Doc : Type 0) : Type 0 where
  pub timed_out : Bool
  pub pit_id : Bytes
  pub hits : List (StoredHit Doc)
  pub total : ℤ
  pub relation : Bytes
  pub failed_shards : ℤ

-- SearchResult{}
abbrev pub no_result : {Doc : Type 0} → SearchResult Doc
no_result = record {
  timed_out = false;
  pit_id = [];
  hits = [];
  total = pos 0;
  relation = [];
  failed_shards = pos 0;
}

-- SearchResult.Exact
abbrev pub exact : {Doc : Type 0} → SearchResult Doc → Bool
exact out = bytes_eq out.relation (text "eq")

abbrev pub or_no_result : {Doc : Type 0} → Option (SearchResult Doc) → SearchResult Doc
or_no_result none = no_result
or_no_result (some out) = out

-- The value of a field, and whether it is set.
abbrev pub lookup : Values → Bytes → Option Bytes
lookup [] key = none
lookup ((k, v) ∷ rest) key = let later = lookup rest key in if bytes_eq k key then some v else later

-- out.TimedOut || out.Shards.Failed > 0
abbrev pub is_partial : {Doc : Type 0} → SearchResult Doc → Bool
is_partial out = out.timed_out || ltb_ℤ (pos 0) out.failed_shards

-- `encode` is json.Marshal of the fields of a search; `hydrated_source` the JSON of a source filter
-- that does not mention vectors, with them included; `typed` the official request with parameters
-- for a body and an index, which is none for a point in time.
module _ {Doc V W : Type 0} (r : Repository Doc V W) (zero_doc : Doc)
    (encode : Values → Result Bytes) (hydrated_source : Bytes → Option Bytes)
    (typed : Option Bytes → Bytes → Values → Typed W) (found : Decoder (SearchResult Doc)) where
  open r use {major, limit, schema, http, json}

  abbrev pub with_source : Option Bytes → Search → Search
  with_source none s = s
  with_source (some source) s = with_option (text "_source") (ok source) s

  abbrev pub of_source : Option Bytes → Search → Search
  of_source none s = with_source (some (text "{\"exclude_vectors\":false}")) s
  of_source (some raw) s =
      if bytes_eq raw (text "true")
      then with_source (some (text "{\"exclude_vectors\":false}")) s
      else with_source (hydrated_source raw) s

  -- Repository.includeSourceVectors
  unfoldable pub include_source_vectors : Search → Search
  include_source_vectors s =
      if eq_ℤ major (pos 9) && schema.has_vectors
      then of_source (lookup s.fields (text "_source")) s
      else s

  -- Search.MarshalJSON
  abbrev pub marshal : Search → Result Bytes
  marshal s = elim s.error [ some e ↦ err e | none ↦ encode s.fields ]

  abbrev pub cons_hit :
      StoredHit Doc
      → (List (StoredHit Doc) × Option Err) × W
      → (List (StoredHit Doc) × Option Err) × W
  cons_hit hit ((hits, e), w) = ((hit ∷ hits, e), w)

  -- The loop over the hits, which ends at the first error.
  abbrev pub next_hit :
      (StoredHit Doc × Option Err) × W
      → List (StoredHit Doc)
      → (W → (List (StoredHit Doc) × Option Err) × W)
      → (List (StoredHit Doc) × Option Err) × W
  next_hit ((hit, some e), w) rest next = ((hit ∷ rest, some e), w)
  next_hit ((hit, none), w) rest next = cons_hit hit (next w)

  unfoldable pub after_hits : List (StoredHit Doc) → W → (List (StoredHit Doc) × Option Err) × W
  after_hits [] w = (([], none), w)
  after_hits (hit ∷ hits) w = next_hit (after_read r zero_doc hit w) hits (λ w'. after_hits hits w')

  abbrev pub with_hits :
      SearchResult Doc
      → (List (StoredHit Doc) × Option Err) × W
      → (SearchResult Doc × Option Err) × W
  with_hits out ((hits, e), w) = ((record out { hits = hits }, e), w)

  abbrev pub judged :
      (Option (SearchResult Doc) × Option Err) × W → (SearchResult Doc × Option Err) × W
  judged ((o, some e), w) = ((or_no_result o, some e), w)
  judged ((o, none), w) =
      let out = or_no_result o in
      let hydrated = with_hits out (after_hits out.hits w) in
      if is_partial out
      then ((out, some (partial_search out.timed_out out.failed_shards)), w)
      else hydrated

  abbrev pub respond : Search → Bytes → W → (Option (SearchResult Doc) × Option Err) × W
  respond s body w =
      do_typed (typed (if is_pit s then none else some schema.index) body s.params) major http json
        found limit false true w

  abbrev pub run_checked : Search → W → (SearchResult Doc × Option Err) × W
  run_checked s w = elim (validate_pit_params s) [
    | err e ↦ ((no_result, some e), w)
    | ok _ ↦ elim (marshal s) [
      | err e ↦ ((no_result, some e), w)
      | ok body ↦ judged (respond s body w)
    ]
  ]

  -- Repository.Search
  unfoldable pub search : Search → W → (SearchResult Doc × Option Err) × W
  search s w = run_checked (include_source_vectors s) w
