-- ===== src/Relations/Lookup.antt =====
-- relations.go: the places of a reference, and what is written to them.
use mathlib.Core.Path.{subst}
use esodm.Prelude.{
  ℕ, append-nil, append_assoc, zero, suc, ◌+◌, ◌<◌, ◌≡◌, ◌↔◌, refl, sym, ◌∙◌, ap, Bool, true, false,
  not, ◌||◌, some, List, [], ◌∷◌, ◌++◌, bytes_eq_iff, get_elem?, ◌==◌, if◌then◌else◌, arith,
  Bool-cases, inl, inr,
}
use esodm.Error.{Result, ok, err, ◌>>◌}
use esodm.Names.{Unicode}
use esodm.Relations.{
  Ref, ref_eq, Positions, positions_of, add_position, no_places, check_ref, gather,
}

pub ref_eq_iff : (a b : Ref) → (ref_eq a b ≡ true) ↔ (a ≡ b)
unfolding ref_eq
ref_eq_iff a b = (
  λ h.
      same (ground (arith, bytes_eq_iff a.index b.index)) (ground (arith, bytes_eq_iff a.id b.id))
        (ground (arith, bytes_eq_iff a.routing b.routing)),
  λ h. ground (
    arith,
    ap (λ (r : Ref). r.index) h,
    ap (λ (r : Ref). r.id) h,
    ap (λ (r : Ref). r.routing) h,
    bytes_eq_iff a.index b.index,
    bytes_eq_iff a.id b.id,
    bytes_eq_iff a.routing b.routing,
  ),
)
  where
    same : a.index ≡ b.index → a.id ≡ b.id → a.routing ≡ b.routing → a ≡ b
    same x y z = λ i. record { index = x i; id = y i; routing = z i }

pub ref_eq_refl : (r : Ref) → ref_eq r r ≡ true
ref_eq_refl r = (ref_eq_iff r r).1 refl

pub ref_eq_sym : (a b : Ref) → ref_eq a b ≡ ref_eq b a
ref_eq_sym a b = elim (Bool-cases (ref_eq a b)) [
  | inl e ↦ e ∙ sym ((ref_eq_iff b a).1 (sym ((ref_eq_iff a b).0 e)))
  | inr e ↦ elim (Bool-cases (ref_eq b a)) [
    | inl f ↦ (ref_eq_iff a b).1 (sym ((ref_eq_iff b a).0 f)) ∙ sym f
    | inr f ↦ e ∙ sym f
  ]
]

-- The indices at which a reference stands, counted from i.
unfoldable pub places_in : ℕ → List Ref → Ref → List ℕ
places_in i [] q = []
places_in i (r ∷ refs) q =
    let later = places_in (suc i) refs q in if ref_eq r q then i ∷ later else later

pub positions_of-add_position :
    (ps : Positions) (r q : Ref) (i : ℕ)
    → positions_of (add_position ps r i) q
      ≡ (if ref_eq r q then positions_of ps q ++ i ∷ [] else positions_of ps q)
unfolding positions_of add_position
positions_of-add_position [] r q i = elim (Bool-cases (ref_eq r q)) [
  | inl e ↦ rw e refl
  | inr e ↦ rw e refl
]
positions_of-add_position ((k, is) ∷ ps) r q i = elim (Bool-cases (ref_eq k r)) [
  | inl e ↦ ground (arith, ref_eq_iff k r, cc_same e)
  | inr e ↦ ground (arith, positions_of-add_position ps r q i, differ e)
]
  where
    cc_same : ref_eq k r ≡ true → ref_eq r q ≡ ref_eq k q
    cc_same e = ap (λ s. ref_eq s q) (sym ((ref_eq_iff k r).0 e))

    differ : ref_eq k r ≡ false → ref_eq k q ≡ true → ref_eq r q ≡ false
    differ e f = ground (arith, ref_eq_iff k q, ref_eq_iff r q, ref_eq_iff k r)

-- A reference among others.
unfoldable pub contains : List Ref → Ref → Bool
contains [] q = false
contains (r ∷ refs) q = ref_eq r q || contains refs q

abbrev pub Distinct : List Ref → Type 0
Distinct [] = Unit
Distinct (r ∷ refs) = (contains refs r ≡ false) × Distinct refs

pub contains-append :
    (xs ys : List Ref) (q : Ref) → contains (xs ++ ys) q ≡ (contains xs q || contains ys q)
unfolding contains
contains-append [] ys q = refl
contains-append (x ∷ xs) ys q = ground (arith, contains-append xs ys q)

Distinct-snoc :
    (xs : List Ref) (y : Ref) → Distinct xs → contains xs y ≡ false → Distinct (xs ++ y ∷ [])
unfolding contains
Distinct-snoc [] y d h = (refl, tt)
Distinct-snoc (x ∷ xs) y d h = (
  ground (arith, contains-append xs (y ∷ []) x, ref_eq_sym x y),
  Distinct-snoc xs y d.1 (ground arith),
)

-- The distinct references are those that have a place.
abbrev pub Indexed : List Ref × Positions → Type 0
Indexed found =
    Distinct (found.0)
    × ((q : Ref) → contains (found.0) q ≡ not (no_places (positions_of (found.1) q)))

not-empty-snoc : (is : List ℕ) (i : ℕ) → no_places (is ++ i ∷ []) ≡ false
not-empty-snoc [] i = refl
not-empty-snoc (k ∷ is) i = refl

Indexed-add :
    (u : List Ref) (ps : Positions) (r : Ref) (i : ℕ)
    → Indexed (u, ps)
    → Indexed ((if no_places (positions_of ps r) then u ++ r ∷ [] else u), add_position ps r i)
unfolding contains
Indexed-add u ps r i (d, c) = elim (Bool-cases (no_places (positions_of ps r))) [
  | inl e ↦ rw e (
    Distinct-snoc u r d (c r ∙ ap not e),
    λ q. ground (
      arith,
      c q,
      contains-append u (r ∷ []) q,
      positions_of-add_position ps r q i,
      not-empty-snoc (positions_of ps q) i,
    ),
  )
  | inr e ↦ rw e (
    d,
    λ q. ground (
      arith,
      c q,
      c r,
      positions_of-add_position ps r q i,
      ref_eq_iff r q,
      not-empty-snoc (positions_of ps q) i,
      same q,
    ),
  )
]
  where
    same : (q : Ref) → ref_eq r q ≡ true → contains u q ≡ contains u r
    same q h = ap (contains u) (sym ((ref_eq_iff r q).0 h))

ok-injective {ℓ} : {T : Type ℓ} (a b : T) → ok a ≡ ok b → a ≡ b
ok-injective a b h = cc

after_check {ℓ} :
    {T : Type ℓ} {v : T} (m : Result (Unit {0})) (t : Result T) → (m >> t) ≡ ok v → t ≡ ok v
after_check (ok _) t h = h
after_check (err e) t h = cc

-- What the first loop finds: distinct references, and every place of each.
pub gather-places :
    (u : Unicode) (i : ℕ) (refs : List Ref) (found result : List Ref × Positions)
    → Indexed found
    → gather u i refs found ≡ ok result
    → Indexed result
      × ((q : Ref) → positions_of (result.1) q ≡ positions_of (found.1) q ++ places_in i refs q)
unfolding gather places_in
gather-places u i [] found result x h =
    subst (λ z. Indexed z × ((q : Ref) → positions_of (z.1) q ≡ positions_of (found.1) q ++ []))
      (ok-injective found result h) (x, λ q. sym (append-nil (positions_of (found.1) q)))
gather-places u i (r ∷ refs) (unique, places) result x h =
    let rest =
      gather-places u (suc i) refs
        (
          (if no_places (positions_of places r) then unique ++ r ∷ [] else unique),
          add_position places r i,
        )
        result (Indexed-add unique places r i x) (after_check (check_ref u r) _ h) in
    (
      rest.0,
      λ q.
          rest.1 q
          ∙ (ap (λ is. is ++ places_in (suc i) refs q) (positions_of-add_position places r q i)
              ∙ moved q (ref_eq r q)),
    )
  where
    moved :
        (q : Ref) (b : Bool)
        → (if b then positions_of places q ++ i ∷ [] else positions_of places q)
            ++ places_in (suc i) refs q
          ≡ positions_of places q
            ++ (if b then i ∷ places_in (suc i) refs q else places_in (suc i) refs q)
    moved q true = append_assoc (positions_of places q) (i ∷ []) (places_in (suc i) refs q)
    moved q false = refl

-- An index among others.
unfoldable pub member : List ℕ → ℕ → Bool
member [] j = false
member (i ∷ is) j = (i == j) || member is j

member-later : (refs : List Ref) (q : Ref) (i j : ℕ) → j < i → member (places_in i refs q) j ≡ false
unfolding places_in member
member-later [] q i j h = refl
member-later (r ∷ refs) q i j h = ground (arith, member-later refs q (suc i) j (omega arith))

-- A place of a reference is an index at which it stands.
pub member-places_in :
    (refs : List Ref) (q r : Ref) (i j : ℕ)
    → get_elem? refs j ≡ some r
    → member (places_in i refs q) (i + j) ≡ ref_eq r q
unfolding places_in member
member-places_in [] q r i j h = cc
member-places_in (x ∷ refs) q r i zero h =
    ap (member (places_in i (x ∷ refs) q)) (plus_zero i)
    ∙ (member-first (ref_eq x q) ∙ ap (λ y. ref_eq y q) (some-injective h))
  where
    plus_zero : (k : ℕ) → k + 0 ≡ k
    plus_zero k = omega arith

    some-injective : some x ≡ some r → x ≡ r
    some-injective e = cc

    member-first :
        (b : Bool)
        → member (if b then i ∷ places_in (suc i) refs q else places_in (suc i) refs q) i ≡ b
    member-first true = ground arith
    member-first false = member-later refs q (suc i) i (omega arith)
member-places_in (x ∷ refs) q r i (suc j) h =
    ap (member (places_in i (x ∷ refs) q)) (shift i j)
    ∙ (member-rest (ref_eq x q) ∙ member-places_in refs q r (suc i) j h)
  where
    shift : (k l : ℕ) → k + suc l ≡ suc k + l
    shift k l = omega arith

    member-rest :
        (b : Bool)
        → member (if b then i ∷ places_in (suc i) refs q else places_in (suc i) refs q) (suc i + j)
          ≡ member (places_in (suc i) refs q) (suc i + j)
    member-rest true = ground arith
    member-rest false = refl
