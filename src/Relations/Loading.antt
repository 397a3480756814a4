-- ===== src/Relations/Loading.antt =====
-- relations.go: loading returns one result for each reference, in the order of the references.
use mathlib.Core.Path.{subst}
use esodm.Prelude.{
  drop, take, flatten, ℕ, zero, suc, ◌+◌, ◌≤◌, ◌<◌, ◌≡◌, refl, sym, ◌∙◌, ap, Bool, true, false,
  ◌||◌, Option, some, List, [], ◌∷◌, ◌++◌, map, length, length-set, get_elem?, set,
  get_elem?-set_self, get_elem?-set_ne, ◌==◌, ==_iff, if◌then◌else◌, arith, Bool-cases, inl, inr,
}
use esodm.Error.{Result, ok, err, message}
use esodm.Read.{ReadOptions}
use esodm.Relations.{
  Ref, ReferenceResult, MgetDoc, ref_eq, Positions, positions_of, slices, Reader, zero_result,
  reference_result, store_at, place, placed, mget_values, load_batch, load_batches,
}
use esodm.Relations.Lookup.{
  ref_eq_sym, places_in, contains, contains-append, member, member-places_in,
}

module _ {Doc : Type 0} (c : Reader Doc) where
  abbrev pub Results : Type 0
  Results = List (ReferenceResult Doc)

  length-store_at :
      (is : List ℕ) (x : ReferenceResult Doc) (out : Results)
      → length (store_at c is x out) ≡ length out
  unfolding store_at
  length-store_at [] x out = refl
  length-store_at (i ∷ is) x out = length-store_at is x (set out i x) ∙ length-set out i x

  -- A store reaches exactly its places.
  get_elem?-store_at :
      (is : List ℕ) (x : ReferenceResult Doc) (out : Results) (j : ℕ)
      → j < length out
      → get_elem? (store_at c is x out) j ≡ (if member is j then some x else get_elem? out j)
  unfolding store_at member
  get_elem?-store_at [] x out j h = refl
  get_elem?-store_at (i ∷ is) x out j h = elim (Bool-cases (i == j)) [
    | inl e ↦
        get_elem?-store_at is x (set out i x) j (omega (arith, length-set out i x))
        ∙ (either (member is j) (written ((==_iff i j).0 e)) ∙ simp e)
    | inr e ↦
        get_elem?-store_at is x (set out i x) j (omega (arith, length-set out i x))
        ∙ (ap (λ o. if member is j then some x else o) (get_elem?-set_ne out x (ground arith))
            ∙ simp e)
  ]
    where
      written : i ≡ j → get_elem? (set out i x) j ≡ some x
      written e = ap (get_elem? (set out i x)) (sym e) ∙ get_elem?-set_self out i x (omega arith)

      either :
          (b : Bool)
          → get_elem? (set out i x) j ≡ some x
          → (if b then some x else get_elem? (set out i x) j) ≡ some x
      either true e = refl
      either false e = e

  -- The results so far, the latest first.
  abbrev pub Table : Type 0
  Table = List (Ref × ReferenceResult Doc)

  unfoldable pub result_of : Table → Ref → ReferenceResult Doc
  result_of [] r = zero_result c
  result_of ((k, x) ∷ t) r = let later = result_of t r in if ref_eq k r then x else later

  -- Every place holds the result of its reference.
  abbrev pub Filled : List Ref → Table → Results → Type 0
  Filled refs t out =
      (length out ≡ length refs)
      × ((j : ℕ) (r : Ref) → get_elem? refs j ≡ some r → get_elem? out j ≡ some (result_of t r))

  pub get_elem?-lt {ℓ} :
      {A : Type ℓ} (xs : List A) (j : ℕ) (x : A) → get_elem? xs j ≡ some x → j < length xs
  get_elem?-lt [] j x h = cc
  get_elem?-lt (y ∷ xs) zero x h = omega arith
  get_elem?-lt (y ∷ xs) (suc j) x h = let i = get_elem?-lt xs j x h in omega arith

  Filled-store_at :
      (refs : List Ref) (t : Table) (out : Results) (q : Ref) (x : ReferenceResult Doc)
      → Filled refs t out
      → Filled refs ((q, x) ∷ t) (store_at c (places_in 0 refs q) x out)
  unfolding result_of
  Filled-store_at refs t out q x (l, f) = (
    length-store_at (places_in 0 refs q) x out ∙ l,
    λ j r h.
        get_elem?-store_at (places_in 0 refs q) x out j (get_elem?-lt out j _ (f j r h))
        ∙ (ap (λ b. if b then some x else get_elem? out j)
              (ap (member (places_in 0 refs q)) (zero_plus j)
                ∙ (member-places_in refs q r 0 j h ∙ ref_eq_sym r q))
            ∙ chosen (ref_eq q r) (f j r h)),
  )
    where
      zero_plus : (k : ℕ) → k ≡ 0 + k
      zero_plus k = omega arith

      chosen :
          {o : Option (ReferenceResult Doc)} {y : ReferenceResult Doc} (b : Bool)
          → o ≡ some y
          → (if b then some x else o) ≡ some (if b then x else y)
      chosen true e = refl
      chosen false e = e

  -- A document that the server answers for a reference: the one that stands in the answer to the
  -- multi-get of a batch where the reference stands in the batch.
  pub data Served (o : ReadOptions) (r : Ref) (d : MgetDoc Doc) : Type 0 where
    served :
        (batch : List Ref) (docs : List (MgetDoc Doc)) (v v' : c.World) (j : ℕ)
        → c.mget (mget_values c o) batch v ≡ (ok docs, v')
        → length docs ≡ length batch
        → get_elem? batch j ≡ some r
        → get_elem? docs j ≡ some d
        → Served o r d

  -- Every result of the table comes from an answer of the server for its reference.
  abbrev pub Answered : ReadOptions → Table → Type 0
  Answered o [] = Unit
  Answered o ((k, x) ∷ t) =
      ((d : MgetDoc Doc) × Served o k d × (x ≡ reference_result c k d)) × Answered o t

  abbrev pub covered : Table → Ref → Bool
  covered t = contains (map (λ (p : Ref × ReferenceResult Doc). p.0) t)

  -- A table after an answer, and after all answers.
  abbrev pub Grown : ReadOptions → List Ref → List Ref → Table → Results → Type 0
  Grown o refs batch t out =
      (t' : Table) × Filled refs t' out
      × Answered o t'
      × ((q : Ref) → covered t' q ≡ (contains batch q || covered t q))

  place-Grown :
      (o : ReadOptions) (refs batch : List Ref) (docs : List (MgetDoc Doc)) (places : Positions)
      (t : Table) (out : Results)
      → ((q : Ref) → positions_of places q ≡ places_in 0 refs q)
      → length docs ≡ length batch
      → ((j : ℕ) (r : Ref) (d : MgetDoc Doc)
          → get_elem? batch j ≡ some r
          → get_elem? docs j ≡ some d
          → Served o r d)
      → Filled refs t out
      → Answered o t
      → Grown o refs batch t (place c places batch docs out)
  unfolding place contains
  place-Grown o refs [] [] places t out p l s f a = (t, f, a, λ q. refl)
  place-Grown o refs [] (d ∷ docs) places t out p l s f a = absurd (omega arith)
  place-Grown o refs (r ∷ batch) [] places t out p l s f a = absurd (omega arith)
  place-Grown o refs (r ∷ batch) (d ∷ docs) places t out p l s f a =
      let x = reference_result c r d in
      let (t', f', a', k) =
        place-Grown o refs batch docs places ((r, x) ∷ t) (store_at c (positions_of places r) x out)
          p (omega arith) (λ j. s (suc j)) (rw (p r) (Filled-store_at refs t out r x f))
          ((d, s 0 r d refl refl, refl), a) in
      (t', f', a', λ q. ground (arith, k q))

  placed-Grown :
      (o : ReadOptions) (refs batch : List Ref) (places : Positions) (t : Table)
      (out out' : Results) (v0 : c.World) (answer : Result (List (MgetDoc Doc)) × c.World)
      (w : c.World)
      → ((q : Ref) → positions_of places q ≡ places_in 0 refs q)
      → c.mget (mget_values c o) batch v0 ≡ answer
      → placed c places batch out answer ≡ (ok out', w)
      → Filled refs t out
      → Answered o t
      → Grown o refs batch t out'
  placed-Grown o refs batch places t out out' v0 (err e, v) w p m h f a = cc
  placed-Grown o refs batch places t out out' v0 (ok docs, v) w p m h f a =
      elim (Bool-cases (length docs == length batch)) [
        | inl e ↦
            subst (Grown o refs batch t)
              (stored (place c places batch docs out) (
                sym (
                  ap (λ b. if b then (ok (place c places batch docs out), v) else (err message, v))
                    e)
                ∙ h))
              (place-Grown o refs batch docs places t out p
                ((==_iff (length docs) (length batch)).0 e)
                (λ j r d x y.
                  served batch docs v0 v j m ((==_iff (length docs) (length batch)).0 e) x y)
                f a)
        | inr e ↦ absurd (
            refused (
              sym (
                ap (λ b. if b then (ok (place c places batch docs out), v) else (err message, v)) e)
              ∙ h))
      ]
    where
      stored : (x : Results) → ◌≡◌ {A = Result Results × c.World} (ok x, v) (ok out', w) → x ≡ out'
      stored x h = cc

      refused : ◌≡◌ {A = Result Results × c.World} (err message, v) (ok out', w) → ⊥
      refused h = cc

  pub load_batches-Grown :
      (o : ReadOptions) (refs : List Ref) (places : Positions) (batches : List (List Ref))
      (t : Table) (out out' : Results) (w w' : c.World)
      → ((q : Ref) → positions_of places q ≡ places_in 0 refs q)
      → load_batches c o places batches out w ≡ (ok out', w')
      → Filled refs t out
      → Answered o t
      → Grown o refs (flatten batches) t out'
  unfolding load_batches load_batch contains
  load_batches-Grown o refs places [] t out out' w w' p h f a =
      subst (Grown o refs [] t) (cc) (t, f, a, λ q. refl)
  load_batches-Grown o refs places (batch ∷ batches) t out out' w w' p h f a =
      after (λ t1 x v. load_batches-Grown o refs places batches t1 x out' v w' p)
        (placed c places batch out (c.mget (mget_values c o) batch w)) refl h
    where
      joined :
          (x : Results)
          → Grown o refs batch t x
          → ((t1 : Table)
              → Filled refs t1 x
              → Answered o t1
              → Grown o refs (flatten batches) t1 out')
          → Grown o refs (batch ++ flatten batches) t out'
      joined x (t1, f1, a1, k1) later =
          let (t2, f2, a2, k2) = later t1 f1 a1 in
          (t2, f2, a2, λ q. ground (arith, k1 q, k2 q, contains-append batch (flatten batches) q))

      after :
          ((t1 : Table) (x : Results) (v : c.World)
            → load_batches c o places batches x v ≡ (ok out', w')
            → Filled refs t1 x
            → Answered o t1
            → Grown o refs (flatten batches) t1 out')
          → (r : Result Results × c.World)
          → placed c places batch out (c.mget (mget_values c o) batch w) ≡ r
          → ◌≡◌ {A = Result Results × c.World}
              (elim r.0 [ err e ↦ (err e, r.1) | ok x ↦ load_batches c o places batches x r.1 ])
              (ok out', w')
          → Grown o refs (batch ++ flatten batches) t out'
      after rec (err e, v) q h = cc
      after rec (ok x, v) q h =
          joined x
            (placed-Grown o refs batch places t out x w (c.mget (mget_values c o) batch w) v p refl
              q f a)
            (λ t1. rec t1 x v h)

  take-drop {ℓ} : {A : Type ℓ} (n : ℕ) (xs : List A) → take n xs ++ drop n xs ≡ xs
  take-drop zero xs = refl
  take-drop (suc n) [] = refl
  take-drop (suc n) (x ∷ xs) = ap (λ l. x ∷ l) (take-drop n xs)

  pub length-drop {ℓ} : {A : Type ℓ} (n : ℕ) (xs : List A) → length (drop n xs) ≤ length xs
  length-drop zero xs = omega arith
  length-drop (suc n) [] = omega arith
  length-drop (suc n) (x ∷ xs) = let l = length-drop n xs in omega arith

  pub flatten-slices {ℓ} :
      {A : Type ℓ} (f n : ℕ) (xs : List A) → length xs ≤ f → flatten (slices f (suc n) xs) ≡ xs
  unfolding slices
  flatten-slices zero n [] h = refl
  flatten-slices zero n (x ∷ xs) h = absurd (omega arith)
  flatten-slices (suc f) n [] h = refl
  flatten-slices (suc f) n (x ∷ xs) h =
      let l = length-drop n xs in
      ap (λ r. x ∷ (take n xs ++ r)) (flatten-slices f n (drop n xs) (omega arith))
      ∙ ap (λ r. x ∷ r) (take-drop n xs)
