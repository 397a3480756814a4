-- ===== src/Repository/Loading.antt =====
-- relations.go: MGetWith, which loads documents of one index by their IDs.
use esodm.Prelude.{◌&&◌, Option, List, [], ◌∷◌, Bytes, if◌then◌else◌, pos_part}
use esodm.Error.{Err, Result, ok, err}
use esodm.Names.{validate_index_name}
use esodm.Write.{Values}
use esodm.Read.{StoredHit, ReadOptions}
use esodm.Join.{require_join_routing}
use esodm.Effect.{Effect, ◌>>◌, lift}
use esodm.Relations.{Ref, ReferenceResult, MgetDoc, Reader, load_with}
use esodm.Relations.Graph.{no_error}
use esodm.Repository.{Repository}
use esodm.Repository.Reading.{no_hit, after_read}

-- `mget` is the request of Load for one batch.
module _ {Doc V W : Type 0} (r : Repository Doc V W) (zero_doc : Doc)
    (mget : Values → List Ref → W → Result (List (MgetDoc Doc)) × W) where
  open r use {unicode, major, schema}

  abbrev pub reader : Reader Doc
  reader = record {
    World = W;
    unicode = unicode;
    major = pos_part major;
    zero_hit = no_hit r zero_doc;
    mget = mget;
  }

  unfoldable pub refs_of : Bytes → List Bytes → List Ref
  refs_of route [] = []
  refs_of route (id ∷ ids) =
      record { index = schema.index; id = id; routing = route } ∷ refs_of route ids

  abbrev pub with_read :
      ReferenceResult Doc → (StoredHit Doc × Option Err) × W → ReferenceResult Doc × W
  with_read x ((hit, e), w) = (record x { hit = hit; error = e }, w)

  abbrev pub hydrate_one : ReferenceResult Doc → W → ReferenceResult Doc × W
  hydrate_one x w =
      let hydrated = with_read x (after_read r zero_doc x.hit w) in
      if x.found && no_error x.error then hydrated else (x, w)

  abbrev pub cons_result :
      ReferenceResult Doc × W
      → (W → List (ReferenceResult Doc) × W)
      → List (ReferenceResult Doc) × W
  cons_result (x, w) next = let rest = next w in (x ∷ rest.0, rest.1)

  -- The loop over the results.
  unfoldable pub hydrate : List (ReferenceResult Doc) → W → List (ReferenceResult Doc) × W
  hydrate [] w = ([], w)
  hydrate (x ∷ xs) w = cons_result (hydrate_one x w) (λ w'. hydrate xs w')

  abbrev pub hydrated :
      Result (List (ReferenceResult Doc)) × W → Result (List (ReferenceResult Doc)) × W
  hydrated (err e, w) = (err e, w)
  hydrated (ok xs, w) = let out = hydrate xs w in (ok (out.0), out.1)

  -- MGetWith
  unfoldable pub mget_with : List Bytes → ReadOptions → Effect W (List (ReferenceResult Doc))
  mget_with ids o = do
    lift (validate_index_name unicode schema.index)
    lift (require_join_routing schema.join o.routing)
    (λ w. hydrated (load_with reader (refs_of o.routing ids) o w))
