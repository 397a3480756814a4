-- ===== src/Relations/Order.antt =====
-- relations.go: the order and the number of what Load requests and returns.
use mathlib.Core.Path.{subst}
use esodm.Prelude.{
  drop, take, flatten, ℕ, zero, suc, ◌≤◌, ◌≡◌, refl, sym, ◌∙◌, ap, Bool, true, false, not, ◌||◌,
  some, none, Option, ◌≢◌, ◌==◌, ==_iff, if◌then◌else◌, List, [], ◌∷◌, ◌++◌, map, All, length,
  length-map, get_elem?, arith, Bool-cases, inl, inr,
}
use esodm.Error.{Err, Result, ok, err, message, Result-cases}
use esodm.Read.{ReadOptions}
use esodm.Names.{validate_name, validate_id}
use esodm.Relations.{
  mget_values, load_batch, placed, place, add_position, Ref, ReferenceResult, MgetDoc, ref_eq,
  Positions, positions_of, no_places, gather, slices, batch_size, Reader, zero_result,
  reference_result, load_batches, load_gathered, load_with,
}
use esodm.Relations.Lookup.{ref_eq_iff, places_in, contains, Distinct, gather-places, Indexed}
use esodm.Relations.Loading.{
  Table, Filled, Answered, Served, covered, result_of, load_batches-Grown, flatten-slices,
}

-- The references with a place are those that are loaded.
places_in-contains :
    (refs : List Ref) (q : Ref) (i : ℕ) → not (no_places (places_in i refs q)) ≡ contains refs q
unfolding places_in contains
places_in-contains [] q i = refl
places_in-contains (r ∷ refs) q i = ground (arith, places_in-contains refs q (suc i))

length-take : {A : Type 0} (n : ℕ) (xs : List A) → length (take n xs) ≤ n
length-take zero xs = omega arith
length-take (suc n) [] = omega arith
length-take (suc n) (x ∷ xs) = let l = length-take n xs in omega arith

slices-All : {A : Type 0} (f n : ℕ) (xs : List A) → All (λ batch. length batch ≤ n) (slices f n xs)
unfolding slices
slices-All zero n xs = tt
slices-All (suc f) n [] = tt
slices-All (suc f) n (x ∷ xs) = (length-take n (x ∷ xs), slices-All f n (drop n (x ∷ xs)))

map_unique {ℓ} :
    {A B : Type ℓ} (f : A → B) (xs : List A) (ys : List B)
    → length ys ≡ length xs
    → ((j : ℕ) (x : A) → get_elem? xs j ≡ some x → get_elem? ys j ≡ some (f x))
    → ys ≡ map f xs
map_unique f [] [] l h = refl
map_unique f [] (y ∷ ys) l h = absurd (omega (arith, l))
map_unique f (x ∷ xs) [] l h = absurd (omega (arith, l))
map_unique f (x ∷ xs) (y ∷ ys) l h =
    λ i. first (h 0 x refl) i ∷ map_unique f xs ys (omega (arith, l)) (λ j z e. h (suc j) z e) i
  where
    first : some y ≡ some (f x) → y ≡ f x
    first e = cc

module _ {Doc : Type 0} (c : Reader Doc) where
  zeros-Filled : (refs : List Ref) → Filled c refs [] (map (λ _. zero_result c) refs)
  unfolding result_of
  zeros-Filled refs = (length-map _ refs, elements refs)
    where
      elements :
          (rs : List Ref) (j : ℕ) (r : Ref)
          → get_elem? rs j ≡ some r
          → get_elem? (map (λ (_ : Ref). zero_result c) rs) j ≡ some (zero_result c)
      elements [] j r h = cc
      elements (x ∷ rs) zero r h = refl
      elements (x ∷ rs) (suc j) r h = elements rs j r h

  result_of-Answered :
      (o : ReadOptions) (t : Table c) (r : Ref)
      → Answered c o t
      → covered c t r ≡ true
      → (d : MgetDoc Doc) × Served c o r d × (result_of c t r ≡ reference_result c r d)
  unfolding result_of contains
  result_of-Answered o [] r a h = cc
  result_of-Answered o ((k, x) ∷ t) r a h = elim (Bool-cases (ref_eq k r)) [
    | inl e ↦
        let s = (ref_eq_iff k r).0 e in
        (
          a.0.0,
          subst (λ q. Served c o q (a.0.0)) s (a.0.1),
          rw e (a.0.2 ∙ ap (λ q. reference_result c q (a.0.0)) s),
        )
    | inr e ↦ rw e (result_of-Answered o t r a.1 (ground arith))
  ]

  nothing_found : Indexed ([], [])
  unfolding contains positions_of
  nothing_found = (tt, λ q. refl)

  places_found :
      (places : Positions) (refs : List Ref)
      → ((q : Ref) → positions_of places q ≡ positions_of [] q ++ places_in 0 refs q)
      → (q : Ref) → positions_of places q ≡ places_in 0 refs q
  unfolding positions_of
  places_found places refs p q = p q

  or_false : (b : Bool) (r : Ref) → (b || contains [] r) ≡ b
  unfolding contains
  or_false true r = refl
  or_false false r = refl

  -- When Load returns results, they are those of a function of the references, in the order of the
  -- references: equal references have equal results, and each result is made from the document that
  -- stands in the server's answer to a multi-get where the reference stands in the multi-get.
  pub load_with-map :
      (refs : List Ref) (o : ReadOptions) (w w' : c.World) (out : List (ReferenceResult Doc))
      → load_with c refs o w ≡ (ok out, w')
      → (result : Ref → ReferenceResult Doc) × (out ≡ map result refs)
        × ((r : Ref)
            → contains refs r ≡ true
            → (d : MgetDoc Doc) × Served c o r d × (result r ≡ reference_result c r d))
  unfolding load_with
  load_with-map refs o w w' out h = elim (Result-cases (gather c.unicode 0 refs ([], []))) [
    | inl (e, g) ↦ absurd (refused e (ap (λ r. load_gathered c o refs r w) (sym g) ∙ h))
    | inr ((unique, places), g) ↦
        results unique places
          (gather-places c.unicode 0 refs ([], []) (unique, places) nothing_found g)
          (ap (λ r. load_gathered c o refs r w) (sym g) ∙ h)
  ]
    where
      refused : (e : Err) → load_gathered c o refs (err e) w ≡ (ok out, w') → ⊥
      refused e h = cc

      results :
          (unique : List Ref) (places : Positions)
          → (Indexed (unique, places)
              × ((q : Ref) → positions_of places q ≡ positions_of [] q ++ places_in 0 refs q))
          → load_gathered c o refs (ok (unique, places)) w ≡ (ok out, w')
          → (result : Ref → ReferenceResult Doc) × (out ≡ map result refs)
            × ((r : Ref)
                → contains refs r ≡ true
                → (d : MgetDoc Doc) × Served c o r d × (result r ≡ reference_result c r d))
      results unique places (i, p) h =
          let (t, f, a, k) =
            load_batches-Grown c o refs places (slices (length unique) batch_size unique) []
              (map (λ _. zero_result c) refs) out w w' (places_found places refs p) h
              (zeros-Filled refs) tt in
          (
            result_of c t,
            map_unique (result_of c t) refs out f.0 f.1,
            λ r m. result_of-Answered o t r a (
                k r
                ∙ (ap (λ l. contains l r || contains [] r)
                      (flatten-slices c (length unique) 499 unique (omega arith))
                    ∙ (or_false (contains unique r) r
                        ∙ (i.1 r
                            ∙ (ap (λ l. not (no_places l)) (places_found places refs p r)
                                ∙ (places_in-contains refs r 0 ∙ m)))))),
          )

  gather-valid :
      (refs : List Ref) (i : ℕ) (found : List Ref × Positions)
      → All (λ r. (validate_name r.index ≡ ok tt) × (validate_id c.unicode r.id ≡ ok tt)) refs
      → (found' : List Ref × Positions) × (gather c.unicode i refs found ≡ ok found')
  unfolding gather
  gather-valid [] i found a = (found, refl)
  gather-valid (r ∷ refs) i (unique, places) a =
      let (found', e) =
        gather-valid refs (suc i)
          (
            (if no_places (positions_of places r) then unique ++ r ∷ [] else unique),
            add_position places r i,
          )
          (a.1) in
      (found', rw (a.0.0, a.0.1) e)

  -- The multi-gets of some batches, one after another, until one fails or answers with another
  -- number of documents than it has references: the error, and the last world.
  pub data Sent (o : ReadOptions) : List (List Ref) → c.World → Option Err → c.World → Type 0 where
    all_sent : {w : c.World} → Sent o [] w none w
    failed :
        {batch : List Ref} {batches : List (List Ref)} {w w' : c.World} (e : Err)
        → c.mget (mget_values c o) batch w ≡ (err e, w')
        → Sent o (batch ∷ batches) w (some e) w'
    miscounted :
        {batch : List Ref} {batches : List (List Ref)} {w w' : c.World} (docs : List (MgetDoc Doc))
        → c.mget (mget_values c o) batch w ≡ (ok docs, w')
        → length docs ≢ length batch
        → Sent o (batch ∷ batches) w (some message) w'
    sent :
        {batch : List Ref} {batches : List (List Ref)} {w v w' : c.World} {e : Option Err}
        (docs : List (MgetDoc Doc))
        → c.mget (mget_values c o) batch w ≡ (ok docs, v)
        → length docs ≡ length batch
        → Sent o batches v e w'
        → Sent o (batch ∷ batches) w e w'

  abbrev pub error_of : {A : Type 0} → Result A → Option Err
  error_of (err e) = some e
  error_of (ok a) = none

  load_batches-Sent :
      (o : ReadOptions) (places : Positions) (batches : List (List Ref))
      (out : List (ReferenceResult Doc)) (w : c.World)
      → Sent o batches w
          (error_of (load_batches c o places batches out w).0)
          (load_batches c o places batches out w).1
  unfolding load_batches load_batch
  load_batches-Sent o places [] out w = all_sent
  load_batches-Sent o places (batch ∷ batches) out w =
      by_answer (c.mget (mget_values c o) batch w) refl
        (λ x v. load_batches-Sent o places batches x v)
    where
      continued :
          Result (List (ReferenceResult Doc)) × c.World
          → Result (List (ReferenceResult Doc)) × c.World
      continued p = elim p.0 [ err e ↦ (err e, p.1) | ok x ↦ load_batches c o places batches x p.1 ]

      by_answer :
          (a : Result (List (MgetDoc Doc)) × c.World)
          → c.mget (mget_values c o) batch w ≡ a
          → ((x : List (ReferenceResult Doc)) (v : c.World)
              → Sent o batches v
                  (error_of (load_batches c o places batches x v).0)
                  (load_batches c o places batches x v).1)
          → Sent o
              (batch ∷ batches)
              w
              (error_of (continued (placed c places batch out a)).0)
              (continued (placed c places batch out a)).1
      by_answer (err e, v) m rec = failed e m
      by_answer (ok docs, v) m rec = elim (Bool-cases (length docs == length batch)) [
        | inl e ↦ rw e (
            sent docs m ((==_iff (length docs) (length batch)).0 e)
              (rec (place c places batch docs out) v))
        | inr e ↦
            rw e (miscounted docs m (λ q. ground (arith, ==_iff (length docs) (length batch))))
      ]

  -- If every reference has a valid index name and ID, Load sends the multi-gets of some batches one
  -- after another, until one of them fails, whose error it returns, or answers with another number
  -- of documents than it has references: each batch has at most 500 references, no reference
  -- stands twice in them, and those in them are exactly the references to load.
  pub load_with-Sent :
      (refs : List Ref) (o : ReadOptions) (w : c.World)
      → All (λ r. (validate_name r.index ≡ ok tt) × (validate_id c.unicode r.id ≡ ok tt)) refs
      → (batches : List (List Ref)) × All (λ batch. length batch ≤ 500) batches
        × Distinct (flatten batches)
        × ((q : Ref) → contains (flatten batches) q ≡ contains refs q)
        × Sent o batches w (error_of (load_with c refs o w).0) (load_with c refs o w).1
  unfolding load_with
  load_with-Sent refs o w v =
      let ((unique, places), g) = gather-valid refs 0 ([], []) v in
      let (i, p) = gather-places c.unicode 0 refs ([], []) (unique, places) nothing_found g in
      let e = flatten-slices c (length unique) 499 unique (omega arith) in
      (
        slices (length unique) batch_size unique,
        slices-All (length unique) 500 unique,
        subst Distinct (sym e) (i.0),
        (λ q.
            ap (λ l. contains l q) e
            ∙ (i.1 q
                ∙ (ap (λ l. not (no_places l)) (places_found places refs p q)
                    ∙ places_in-contains refs q 0))),
        rw g (
            load_batches-Sent o places (slices (length unique) batch_size unique)
              (map (λ _. zero_result c) refs) w),
      )
