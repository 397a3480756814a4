-- ===== src/Repository/Reading.antt =====
-- repository.go and model.go: the reads of one document, counting, and EnsureIndex.
use esodm.Prelude.{
  Bool, true, false, ◌&&◌, Option, none, some, List, [], ◌∷◌, ◌++◌, Bytes, text, bytes_eq, is_empty,
  if◌then◌else◌, ℤ, pos, ltb_ℤ, eq_ℤ,
}
use esodm.Error.{Err, Result, ok, err, sentinel, not_found, message, is_err, as_api, partial_search}
use esodm.Names.{validate_id, validate_index_name}
use esodm.Write.{Metadata, Values, optional}
use esodm.Read.{StoredHit, ReadOptions, read_values, set_value, join_commas}
use esodm.Paths.{segment, document_path}
use esodm.Join.{require_join_routing}
use esodm.Client.{Decoder}
use esodm.Client.Perform.{do_json}
use esodm.Effect.{Effect, ◌>>◌, lift}
use esodm.Repository.{Repository, no_metadata}

-- CountOptions
pub record CountOptions : Type 0 where
  pub routing : List Bytes
  pub preference : Bytes

-- What is read of the response of a count: the number and the failed shards.
pub record Counted : Type 0 where
  pub count : ℤ
  pub failed : ℤ

module _ {Doc V W : Type 0} (r : Repository Doc V W) (zero_doc : Doc) where
  open r use {unicode, major, limit, schema, hooks, model, http, json, routes, read}

  -- Hit{}
  abbrev pub no_hit : StoredHit Doc
  no_hit = record { metadata = no_metadata; source = zero_doc; routing_field = none }

  abbrev pub or_no_hit : Option (StoredHit Doc × Bool) → StoredHit Doc × Bool
  or_no_hit none = (no_hit, false)
  or_no_hit (some h) = h

  abbrev pub hit_routed : Bytes → StoredHit Doc → StoredHit Doc
  hit_routed route hit = record hit { metadata = record hit.metadata { routing = route } }

  -- The stored routing, which is one route.
  abbrev pub of_routes : StoredHit Doc → Option (List Bytes) → Result (StoredHit Doc)
  of_routes hit (some (route ∷ [])) = ok (hit_routed route hit)
  of_routes hit _ = err message

  abbrev pub of_field : StoredHit Doc → Option Bytes → Result (StoredHit Doc)
  of_field hit none = ok hit
  of_field hit (some raw) = of_routes hit (routes raw)

  abbrev pub received_by : Option (Doc → Metadata → Doc) → StoredHit Doc → StoredHit Doc
  received_by none hit = hit
  received_by (some f) hit = record hit { source = f hit.source hit.metadata }

  abbrev pub run_after_read :
      Option (StoredHit Doc → W → (StoredHit Doc × Option Err) × W)
      → StoredHit Doc
      → W
      → (StoredHit Doc × Option Err) × W
  run_after_read none hit w = ((hit, none), w)
  run_after_read (some f) hit w = f hit w

  abbrev pub hydrated :
      StoredHit Doc → Result (StoredHit Doc) → W → (StoredHit Doc × Option Err) × W
  hydrated hit (err e) w = ((hit, some e), w)
  hydrated hit (ok found) w = run_after_read hooks.after_read (received_by model.receiver found) w

  -- Repository.afterRead
  unfoldable pub after_read : StoredHit Doc → W → (StoredHit Doc × Option Err) × W
  after_read hit w =
      hydrated hit
        (if is_empty hit.metadata.routing then of_field hit hit.routing_field else ok hit) w

  -- q.Set("routing", routing), where it is not empty
  abbrev pub routed_values : ReadOptions → Values
  routed_values o =
      if is_empty o.routing
      then read_values o
      else set_value (text "routing") o.routing (read_values o)

  abbrev pub get_values : ReadOptions → Values
  get_values o =
      if eq_ℤ major (pos 9) && schema.has_vectors
      then set_value (text "_source_exclude_vectors") (text "false") (routed_values o)
      else routed_values o

  -- The tests of GetWith.
  unfoldable pub check_get : Bytes → ReadOptions → Effect W (Unit {0})
  check_get id o = do
    lift (validate_index_name unicode schema.index)
    lift (validate_id unicode id)
    lift (require_join_routing schema.join o.routing)

  abbrev pub hit_or_missing :
      Bytes → StoredHit Doc × Bool → Option Err → W → (StoredHit Doc × Option Err) × W
  hit_or_missing route (hit, found) (some e) w = ((hit, some e), w)
  hit_or_missing route (hit, false) none w = ((hit, some (sentinel not_found)), w)
  hit_or_missing route (hit, true) none w = after_read (hit_routed route hit) w

  abbrev pub got :
      Bytes → (Option (StoredHit Doc × Bool) × Option Err) × W → (StoredHit Doc × Option Err) × W
  got route ((out, e), w) = hit_or_missing route (or_no_hit out) e w

  abbrev pub get_checked :
      Bytes → ReadOptions → Result (Unit {0}) × W → (StoredHit Doc × Option Err) × W
  get_checked id o (err e, w) = ((no_hit, some e), w)
  get_checked id o (ok _, w) = got o.routing (
      do_json http json read limit (text "GET") (document_path schema.index id) (get_values o) none
        true w)

  -- GetWith
  unfoldable pub get_with : Bytes → ReadOptions → W → (StoredHit Doc × Option Err) × W
  get_with id o w = get_checked id o (check_get id o w)

  -- The tests of ExistsWith.
  unfoldable pub check_exists : Bytes → ReadOptions → Effect W (Unit {0})
  check_exists id o = do
    lift (validate_index_name unicode schema.index)
    lift (require_join_routing schema.join o.routing)
    lift (validate_id unicode id)

  -- errors.Is(err, ErrNotFound) is an answer.
  abbrev pub existence : Option Err → Bool × Option Err
  existence none = (true, none)
  existence (some e) = if is_err e not_found then (false, none) else (false, some e)

  abbrev pub answered_exists :
      (Option (StoredHit Doc × Bool) × Option Err) × W → (Bool × Option Err) × W
  answered_exists ((out, e), w) = (existence e, w)

  abbrev pub exists_checked : Bytes → ReadOptions → Result (Unit {0}) × W → (Bool × Option Err) × W
  exists_checked id o (err e, w) = ((false, some e), w)
  exists_checked id o (ok _, w) = answered_exists (
      do_json http json read limit (text "HEAD") (document_path schema.index id) (routed_values o)
        none false w)

  -- ExistsWith
  unfoldable pub exists_with : Bytes → ReadOptions → W → (Bool × Option Err) × W
  exists_with id o w = exists_checked id o (check_exists id o w)

  abbrev pub already_exists : Option Err → Bool
  already_exists none = false
  already_exists (some e) = elim (as_api e) [
    | none ↦ false
    | some a ↦ bytes_eq a.type (text "resource_already_exists_exception")
  ]

  -- `ack` is Admin.ack for the PUT of the index with its mapping and settings.
  module _ (ack : Bytes → W → Option Err × W) where
    abbrev pub created : Option Err × W → Option Err × W
    created (e, w) = ((if already_exists e then none else e), w)

    abbrev pub looked_up : (Option (StoredHit Doc × Bool) × Option Err) × W → Option Err × W
    looked_up ((out, none), w) = (none, w)
    looked_up ((out, some e), w) =
        let made = created (ack (text "/" ++ segment schema.index) w) in
        if is_err e not_found then made else (some e, w)

    abbrev pub ensure_checked : Result (Unit {0}) → W → Option Err × W
    ensure_checked (err e) w = (some e, w)
    ensure_checked (ok _) w = looked_up (
        do_json http json read limit (text "HEAD") (text "/" ++ segment schema.index) [] none false
          w)

    -- EnsureIndex
    unfoldable pub ensure_index : W → Option Err × W
    ensure_index w = ensure_checked (validate_index_name unicode schema.index) w

  -- `counted` decodes the response of a count.
  module _ (counted : Decoder Counted) where
    abbrev pub count_values : CountOptions → Values
    count_values o =
        optional (text "routing") (join_commas o.routing)
        ++ optional (text "preference") o.preference

    abbrev pub complete : (Option Counted × Option Err) × W → (ℤ × Option Err) × W
    complete ((none, e), w) = ((pos 0, e), w)
    complete ((some c, some e), w) = ((c.count, some e), w)
    complete ((some c, none), w) = (
      (c.count, (if ltb_ℤ (pos 0) c.failed then some (partial_search false c.failed) else none)),
      w,
    )

    -- CountWith, for the result of json.Marshal of the body with the query
    unfoldable pub count_with : Result Bytes → CountOptions → W → (ℤ × Option Err) × W
    count_with body o w = complete (
        do_json http json counted limit (text "POST")
          (text "/" ++ (segment schema.index ++ text "/_count")) (count_values o) (some body) true
          w)
