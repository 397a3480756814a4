-- ===== src/Relations.antt =====
-- relations.go: references, and their loading in batches. Every distinct reference is requested
-- once, and its answer is copied to every place where it stands.
pub mod Lookup
pub mod Loading
pub mod Order
pub mod Graph
use esodm.Prelude.{
  drop, take, ℕ, zero, suc, Bool, true, false, ◌&&◌, ◌≡◌, ◌↔◌, refl, Option, none, some, List, [],
  ◌∷◌, ◌++◌, map, Bytes, text, bytes_eq, bytes_eq_iff, is_empty, length, set, ◌==◌, if◌then◌else◌,
  arith,
}
use esodm.Error.{Err, Result, ok, err, api, message, reject, validation, ◌>>◌, ◌>>=◌}
use esodm.Names.{Unicode, validate_name, validate_id}
use esodm.Write.{Metadata, Values}
use esodm.Read.{StoredHit, ReadOptions, read_values, delete_value, set_value}
use esodm.Bulk.{ErrorCause}
use esodm.Bulk.Send.{error_reason}

-- Ref. All its fields are the fields of refKey, so a reference is its own key.
pub record Ref : Type 0 where
  pub index : Bytes
  pub id : Bytes
  pub routing : Bytes

-- ReferenceResult
pub record ReferenceResult (Doc : Type 0) : Type 0 where
  pub ref : Ref
  pub hit : StoredHit Doc
  pub found : Bool
  pub error : Option Err

-- key(a) == key(b)
unfoldable pub ref_eq : Ref → Ref → Bool
ref_eq a b = bytes_eq a.index b.index && (bytes_eq a.id b.id && bytes_eq a.routing b.routing)

-- An element of the answer to a multi-get.
pub record MgetDoc (Doc : Type 0) : Type 0 where
  pub hit : StoredHit Doc
  pub found : Bool
  pub status : ℕ
  pub error : Option ErrorCause

-- positions map[refKey][]int, in the order in which the keys come up.
abbrev pub Positions : Type 0
Positions = List (Ref × List ℕ)

-- positions[k]; a missing key has no positions.
unfoldable pub positions_of : Positions → Ref → List ℕ
positions_of [] r = []
positions_of ((k, is) ∷ ps) r = let later = positions_of ps r in if ref_eq k r then is else later

-- positions[k] = append(positions[k], i)
unfoldable pub add_position : Positions → Ref → ℕ → Positions
add_position [] r i = (r, i ∷ []) ∷ []
add_position ((k, is) ∷ ps) r i =
    let later = add_position ps r i in
    if ref_eq k r then (k, is ++ i ∷ []) ∷ ps else (k, is) ∷ later

abbrev pub no_places : List ℕ → Bool
no_places [] = true
no_places (i ∷ is) = false

module _ (u : Unicode) where
  abbrev pub check_ref : Ref → Result (Unit {0})
  check_ref r = validate_name r.index >> validate_id u r.id

  -- The first loop of loadWith: the distinct references and their places.
  unfoldable pub gather : ℕ → List Ref → List Ref × Positions → Result (List Ref × Positions)
  gather i [] found = ok found
  gather i (r ∷ refs) (unique, places) =
      check_ref r
      >> gather (suc i) refs (
        (if no_places (positions_of places r) then unique ++ r ∷ [] else unique),
        add_position places r i,
      )

-- unique[start:end] for start = 0, size, 2 * size, …; the fuel is the number of references.
unfoldable pub slices {ℓ} : {A : Type ℓ} → ℕ → ℕ → List A → List (List A)
slices zero size xs = []
slices (suc f) size [] = []
slices (suc f) size (x ∷ xs) = take size (x ∷ xs) ∷ slices f size (drop size (x ∷ xs))

abbrev pub batch_size : ℕ
batch_size = 500

-- What loading calls: POST /_mget with parameters and the references of one batch. `zero_hit` is
-- Go's zero value of a hit.
pub record Reader (Doc : Type 0) : Type 1 where
  pub World : Type 0
  pub unicode : Unicode
  pub major : ℕ
  pub zero_hit : StoredHit Doc
  pub mget : Values → List Ref → World → Result (List (MgetDoc Doc)) × World

module _ {Doc : Type 0} (c : Reader Doc) where
  open c use {World, unicode, major, zero_hit, mget}

  abbrev pub zero_result : ReferenceResult Doc
  zero_result = record {
    ref = record { index = []; id = []; routing = [] };
    hit = zero_hit;
    found = false;
    error = none;
  }

  -- The result of one reference.
  abbrev pub routed_hit : Ref → StoredHit Doc → StoredHit Doc
  routed_hit r hit = record hit { metadata = record hit.metadata { routing = r.routing } }

  abbrev pub no_cause : Option ErrorCause → Bool
  no_cause none = true
  no_cause (some cause) = false

  abbrev pub doc_error : ℕ → Option ErrorCause → Option Err
  doc_error status none = none
  doc_error status (some cause) =
      some (api (record { status = status; type = cause.type; reason = error_reason cause }))

  unfoldable pub reference_result : Ref → MgetDoc Doc → ReferenceResult Doc
  reference_result r d = record {
    ref = r;
    hit = routed_hit r d.hit;
    found = d.found && no_cause d.error;
    error = doc_error d.status d.error;
  }

  -- for _, pos := range positions { out[pos] = result }
  unfoldable pub store_at :
      List ℕ → ReferenceResult Doc → List (ReferenceResult Doc) → List (ReferenceResult Doc)
  store_at [] x out = out
  store_at (i ∷ is) x out = store_at is x (set out i x)

  -- The loop over the documents of an answer.
  unfoldable pub place :
      Positions
      → List Ref
      → List (MgetDoc Doc)
      → List (ReferenceResult Doc)
      → List (ReferenceResult Doc)
  place places (r ∷ batch) (d ∷ docs) out =
      place places batch docs (store_at (positions_of places r) (reference_result r d) out)
  place places _ _ out = out

  -- q := options.values(); q.Del("routing"); …
  abbrev pub mget_values : ReadOptions → Values
  mget_values o =
      let q = delete_value (text "routing") (read_values o) in
      if major == 9 then set_value (text "_source_exclude_vectors") (text "false") q else q

  abbrev pub placed :
      Positions
      → List Ref
      → List (ReferenceResult Doc)
      → Result (List (MgetDoc Doc)) × World
      → Result (List (ReferenceResult Doc)) × World
  placed places batch out (err e, w) = (err e, w)
  placed places batch out (ok docs, w) =
      if length docs == length batch
      then (ok (place places batch docs out), w)
      else (err message, w)

  -- The body of the second loop.
  unfoldable pub load_batch :
      ReadOptions
      → Positions
      → List Ref
      → List (ReferenceResult Doc)
      → World
      → Result (List (ReferenceResult Doc)) × World
  load_batch o places batch out w = placed places batch out (mget (mget_values o) batch w)

  -- The second loop.
  unfoldable pub load_batches :
      ReadOptions
      → Positions
      → List (List Ref)
      → List (ReferenceResult Doc)
      → World
      → Result (List (ReferenceResult Doc)) × World
  load_batches o places [] out w = (ok out, w)
  load_batches o places (batch ∷ batches) out w =
      let (r, w') = load_batch o places batch out w in
      elim r [ err e ↦ (err e, w') | ok out' ↦ load_batches o places batches out' w' ]

  abbrev pub load_gathered :
      ReadOptions
      → List Ref
      → Result (List Ref × Positions)
      → World
      → Result (List (ReferenceResult Doc)) × World
  load_gathered o refs (err e) w = (err e, w)
  load_gathered o refs (ok (unique, places)) w =
      load_batches o places (slices (length unique) batch_size unique) (map (λ _. zero_result) refs)
        w

  -- loadWith, for a client that is not nil
  unfoldable pub load_with :
      List Ref → ReadOptions → World → Result (List (ReferenceResult Doc)) × World
  load_with refs o w = load_gathered o refs (gather unicode 0 refs ([], [])) w
