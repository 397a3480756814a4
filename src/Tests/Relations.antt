-- ===== src/Tests/Relations.antt =====
-- Three references, two of them equal, and a graph with a cycle.
use esodm.Prelude.{
  ℕ, ◌+◌, ◌≡◌, ◌≤◌, refl, true, none, List, [], ◌∷◌, map, All, length, flatten, text, pos,
  if◌then◌else◌, is_empty, bytes_eq, contains_any,
}
use esodm.Error.{ok}
use esodm.Read.{StoredHit, no_options, read_values}
use esodm.Names.{Unicode, validate_name, validate_id}
use esodm.Relations.{
  Ref, MgetDoc, ReferenceResult, Reader, load_with, load_batches, gather, reference_result,
  positions_of, add_position, ref_eq,
}
use esodm.Relations.Lookup.{contains, Distinct}
use esodm.Relations.Loading.{Served}
use esodm.Relations.Order.{load_with-map, load_with-Sent, Sent, error_of}
use esodm.Relations.Graph.{PreloadOptions, preload}
use esodm.Relations.Graph.Bounds.{IsSound, preload-IsSound}

abbrev ascii : Unicode
ascii = record { to_lower = λ s. s; valid_string = λ _. true }

abbrev hit_of : Ref → StoredHit Ref
hit_of r = record {
  metadata = record {
    index = r.index;
    id = r.id;
    routing = [];
    seq_no = none;
    primary_term = none;
    version = pos 1;
  };
  source = r;
  routing_field = none;
}

abbrev book : Ref
book = record { index = text "books"; id = text "1"; routing = [] }

abbrev author : Ref
author = record { index = text "authors"; id = text "7"; routing = [] }

abbrev answer : Ref → MgetDoc Ref
answer r = record { hit = hit_of r; found = true; status = 200; error = none }

-- The world counts the requests.
abbrev reader : Reader Ref
reader = record {
  World = ℕ;
  unicode = ascii;
  major = 8;
  zero_hit = hit_of (record { index = []; id = []; routing = [] });
  mget = λ q refs w. (ok (map answer refs), w + 1);
}

abbrev shelf : List Ref
shelf = book ∷ author ∷ book ∷ []

loaded :
    load_with reader shelf no_options 0
    ≡ (ok (map (λ r. reference_result reader r (answer r)) shelf), 1)
unfolding load_with gather validate_name validate_id is_empty bytes_eq contains_any positions_of
    add_position ref_eq load_batches read_values esodm.Relations.slices esodm.Relations.load_batch
    esodm.Relations.place esodm.Relations.store_at
loaded = refl

-- Each book refers to its author, and each author to a book.
abbrev cycle : Ref → List Ref
cycle r = if ref_eq r book then author ∷ [] else book ∷ []

abbrev bounds : PreloadOptions
bounds = record { max_depth = pos 4; max_documents = pos 5 }

load_with-map_example :
    (result : Ref → ReferenceResult Ref) × (map (λ r. reference_result reader r (answer r)) shelf
      ≡ map result shelf)
    × ((r : Ref)
        → contains shelf r ≡ true
        → (d : MgetDoc Ref) × Served reader no_options r d
          × (result r ≡ reference_result reader r d))
load_with-map_example =
    load_with-map reader shelf no_options 0 1
      (map (λ r. reference_result reader r (answer r)) shelf) loaded

load_with-Sent_example :
    (batches : List (List Ref)) × All (λ batch. length batch ≤ 500) batches
    × Distinct (flatten batches)
    × ((q : Ref) → contains (flatten batches) q ≡ contains shelf q)
    × Sent reader no_options batches 0
        (error_of reader (load_with reader shelf no_options 0).0)
        (load_with reader shelf no_options 0).1
unfolding validate_name validate_id is_empty bytes_eq contains_any
load_with-Sent_example =
    load_with-Sent reader shelf no_options 0 ((refl, refl), ((refl, refl), ((refl, refl), tt)))

preload-IsSound_example :
    IsSound reader
      (λ _. none)
      cycle
      (book ∷ [])
      5
      ((preload reader (λ _. none) cycle (book ∷ []) bounds 0).0.0)
preload-IsSound_example = preload-IsSound reader (λ _. none) cycle (book ∷ []) bounds 0
