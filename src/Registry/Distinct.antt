-- ===== src/Registry/Distinct.antt =====
-- The names of a registry are accepted, and no two entries have the same one.
use mathlib.Core.Path.{subst}
use esodm.Prelude.{
  ◌≡◌, refl, sym, ◌∙◌, ◌⊎◌, map, inl, inr, ap, false, Option, none, some, List, [], ◌∷◌, ◌++◌,
  Bytes, bytes_eq, bytes_eq_iff, All, All-append, arith,
}
use esodm.Error.{
  Err, Result, ok, err, sentinel, reject, validation, ◌>>=◌, ◌>>◌, Result-cases, reject-ok,
}
use esodm.Names.{Unicode, validate_index_name}
use esodm.Join.{has}
use esodm.Registry.{Ensurer, indexes, check_entries, add}

-- No name stands twice in a list.
abbrev pub Distinct : List Bytes → Type 0
Distinct [] = Unit
Distinct (n ∷ ns) = (has ns n ≡ false) × Distinct ns

abbrev pub IsFresh : List Bytes → Bytes → Type 0
IsFresh names n = has names n ≡ false

has_cons :
    (m n : Bytes) (names : List Bytes)
    → has (m ∷ names) n ≡ false
    → (has names n ≡ false) × (bytes_eq n m ≡ false)
unfolding has
has_cons m n names h = ground arith

has_cons-false :
    (m n : Bytes) (names : List Bytes)
    → bytes_eq n m ≡ false
    → has names n ≡ false
    → has (m ∷ names) n ≡ false
unfolding has
has_cons-false m n names h k = ground arith

bytes_eq-swap : (m n : Bytes) → bytes_eq m n ≡ false → bytes_eq n m ≡ false
bytes_eq-swap m n h = ground (arith, bytes_eq_iff m n, bytes_eq_iff n m)

-- Names that are all different from one more name do not hold it.
IsFresh-has : (n : Bytes) (names ns : List Bytes) → All (IsFresh (n ∷ names)) ns → has ns n ≡ false
unfolding has
IsFresh-has n names [] h = refl
IsFresh-has n names (m ∷ ns) h =
    has_cons-false m n ns (bytes_eq-swap m n ((has_cons n m names (h.0)).1))
      (IsFresh-has n names ns (h.1))

IsFresh-rest :
    (n : Bytes) (names ns : List Bytes) → All (IsFresh (n ∷ names)) ns → All (IsFresh names) ns
IsFresh-rest n names [] h = tt
IsFresh-rest n names (m ∷ ns) h = ((has_cons n m names (h.0)).0, IsFresh-rest n names ns (h.1))

result-bind :
    {A B : Type 0} (x : Result A) (next : A → Result B) (b : B)
    → (x >>= next) ≡ ok b
    → (a : A) × (x ≡ ok a) × (next a ≡ ok b)
result-bind (err e) next b h = absurd (apart h)
  where
    apart : err e ≡ ok b → ⊥
    apart q = cc
result-bind (ok a) next b h = (a, refl, h)

result-then :
    {B : Type 0} (x : Result (Unit {0})) (next : Result B) (b : B)
    → (x >> next) ≡ ok b
    → (x ≡ ok tt) × (next ≡ ok b)
result-then (err e) next b h = cc
result-then (ok a) next b h = (refl, h)

has-append :
    (n : Bytes) (ms ns : List Bytes)
    → has ms n ≡ false
    → has ns n ≡ false
    → has (ms ++ ns) n ≡ false
unfolding has
has-append n [] ns h k = k
has-append n (m ∷ ms) ns h k = ground (arith, has-append n ms ns)

Distinct-append :
    (ms ns : List Bytes) → Distinct ms → Distinct ns → All (IsFresh ms) ns → Distinct (ms ++ ns)
Distinct-append [] ns d e f = e
Distinct-append (m ∷ ms) ns d e f = (
  has-append m ms ns (d.0) (IsFresh-has m ms ns f),
  Distinct-append ms ns (d.1) e (IsFresh-rest m ms ns f),
)

IsFresh-cons :
    (n : Bytes) (names ns : List Bytes)
    → has ns n ≡ false
    → All (IsFresh names) ns
    → All (IsFresh (n ∷ names)) ns
unfolding has
IsFresh-cons n names [] h a = tt
IsFresh-cons n names (m ∷ ns) h a =
    let k = has_cons m n ns h in
    (has_cons-false n m names (bytes_eq-swap n m (k.1)) (a.0), IsFresh-cons n names ns (k.0) (a.1))

-- A name that is not in a joined list is in neither part.
has_append-split :
    (n : Bytes) (ms ns : List Bytes)
    → has (ms ++ ns) n ≡ false
    → (has ms n ≡ false) × (has ns n ≡ false)
unfolding has
has_append-split n [] ns h = (refl, h)
has_append-split n (m ∷ ms) ns h =
    let k = has_cons m n (ms ++ ns) h in
    let q = has_append-split n ms ns (k.0) in (has_cons-false m n ms (k.1) (q.0), q.1)

-- A list without any names is fresh for every other.
IsFresh-nil : (ns : List Bytes) → All (IsFresh []) ns
unfolding has
IsFresh-nil [] = tt
IsFresh-nil (n ∷ ns) = (refl, IsFresh-nil ns)

Distinct-split : (ms ns : List Bytes) → Distinct (ms ++ ns) → Distinct ns × All (IsFresh ms) ns
Distinct-split [] ns d = (d, IsFresh-nil ns)
Distinct-split (m ∷ ms) ns d =
    let q = Distinct-split ms ns (d.1) in
    (q.0, IsFresh-cons m ms ns ((has_append-split m ms ns (d.0)).1) (q.1))

All-after : (P : Bytes → Type 0) (ms ns : List Bytes) → All P (ms ++ ns) → All P ns
All-after P [] ns a = a
All-after P (m ∷ ms) ns a = All-after P ms ns (a.1)

-- Names that are distinct and accepted.
abbrev Accepted : Unicode → List Bytes → Type 0
Accepted u names = Distinct names × All (λ n. validate_index_name u n ≡ ok tt) names

module _ {World : Type 0} (u : Unicode) where
  -- The invariant of a registry.
  abbrev pub IsRegistered : List (Ensurer World) → Type 0
  IsRegistered entries = Accepted u (indexes entries)

  same_list :
      (es es' : List (Ensurer World))
      → ◌≡◌ {A = Result (List (Ensurer World))} (ok es) (ok es')
      → es ≡ es'
  same_list es es' q = cc

  nil_entry :
      (es : List (Ensurer World))
      → ◌≡◌ {A = Result (List (Ensurer World))} (err (sentinel validation)) (ok es)
      → ⊥
  nil_entry es q = cc

  -- What the loop of Add has checked.
  abbrev IsChecked : List Bytes → List (Ensurer World) → Type 0
  IsChecked names es = IsRegistered es × All (IsFresh names) (indexes es)

  check_entries-IsChecked :
      (names : List Bytes) (given : List (Option (Ensurer World))) (es : List (Ensurer World))
      → check_entries u names given ≡ ok es
      → IsChecked names es
  unfolding check_entries indexes
  check_entries-IsChecked names [] es h = subst (IsChecked names) (same_list [] es h) ((tt, tt), tt)
  check_entries-IsChecked names (none ∷ rest) es h = absurd (nil_entry es h)
  check_entries-IsChecked names (some e ∷ rest) es h =
      let s1 = result-then (validate_index_name u e.index) _ es h in
      let s2 = result-then (reject (has names e.index) validation) _ es (s1.1) in
      let s3 = result-bind (check_entries u (e.index ∷ names) rest) _ es (s2.1) in
      let k = check_entries-IsChecked (e.index ∷ names) rest (s3.0) (s3.1) in
      subst (IsChecked names) (same_list (e ∷ s3.0) es (s3.2)) (
        ((IsFresh-has e.index names (indexes (s3.0)) (k.1), k.0.0), (s1.0, k.0.1)),
        (
          reject-ok (has names e.index) tt (s2.0),
          IsFresh-rest e.index names (indexes (s3.0)) (k.1),
        ),
      )

  indexes-append : (es es' : List (Ensurer World)) → indexes (es ++ es') ≡ indexes es ++ indexes es'
  unfolding indexes
  indexes-append [] es' = refl
  indexes-append (e ∷ es) es' = ap (λ l. e.index ∷ l) (indexes-append es es')

  appended-IsRegistered :
      (es es' : List (Ensurer World))
      → IsRegistered es
      → IsChecked (indexes es) es'
      → IsRegistered (es ++ es')
  appended-IsRegistered es es' r c = rw (indexes-append es es') (
    Distinct-append (indexes es) (indexes es') (r.0) (c.0.0) (c.1),
    All-append (λ n. validate_index_name u n ≡ ok tt) (indexes es) (indexes es') (r.1) (c.0.1),
  )

  -- The loop of Add keeps every entry, and nil is refused.
  check_entries-map :
      (names : List Bytes) (given : List (Option (Ensurer World))) (es : List (Ensurer World))
      → check_entries u names given ≡ ok es
      → given ≡ map some es
  unfolding check_entries
  check_entries-map names [] es h = ap (map some) (same_list [] es h)
  check_entries-map names (none ∷ rest) es h = absurd (nil_entry es h)
  check_entries-map names (some e ∷ rest) es h =
      let s1 = result-then (validate_index_name u e.index) _ es h in
      let s2 = result-then (reject (has names e.index) validation) _ es (s1.1) in
      let s3 = result-bind (check_entries u (e.index ∷ names) rest) _ es (s2.1) in
      ap (λ l. some e ∷ l) (check_entries-map (e.index ∷ names) rest (s3.0) (s3.1))
      ∙ ap (map some) (same_list (e ∷ s3.0) es (s3.2))

  -- Entries with accepted names that are all different pass the loop.
  check_entries_complete :
      (names : List Bytes) (es : List (Ensurer World))
      → IsChecked names es
      → check_entries u names (map some es) ≡ ok es
  unfolding check_entries indexes
  check_entries_complete names [] c = refl
  check_entries_complete names (e ∷ es) c =
      rw
        (
          c.0.1.0,
          c.1.0,
          check_entries_complete (e.index ∷ names) es
              ((c.0.0.1, c.0.1.1), IsFresh-cons e.index names (indexes es) (c.0.0.0) (c.1.1)),
        )
        refl

  -- The entries behind others in a registry.
  IsRegistered-IsChecked :
      (es es' : List (Ensurer World)) → IsRegistered (es ++ es') → IsChecked (indexes es) es'
  IsRegistered-IsChecked es es' r =
      let (d, v) = subst (Accepted u) (indexes-append es es') r in
      let q = Distinct-split (indexes es) (indexes es') d in
      ((q.0, All-after (λ n. validate_index_name u n ≡ ok tt) (indexes es) (indexes es') v), q.1)

  -- Add is atomic, and refuses only what would break the registry: it registers the given entries,
  -- in their order, behind those of the registry and returns no error if none of them is nil and
  -- the names of the registry with them are distinct and accepted, and otherwise it leaves the
  -- registry as it was and returns an error.
  pub add-IsRegistered :
      (es : List (Ensurer World)) (given : List (Option (Ensurer World)))
      → IsRegistered es
      → ((new : List (Ensurer World)) × (given ≡ map some new)
          × IsRegistered (es ++ new)
          × (add u es given ≡ (es ++ new, none)))
        ⊎ ((c : Err) × (add u es given ≡ (es, some c))
            × ¬ ((new : List (Ensurer World)) × (given ≡ map some new) × IsRegistered (es ++ new)))
  unfolding add
  add-IsRegistered es given r = elim (Result-cases (check_entries u (indexes es) given)) [
    | inl (c, p) ↦ inr (c, rw p refl, λ q. differ c (q.0) (sym p ∙ passes (q.0) (q.1) (q.2)))
    | inr (new, p) ↦ inl (
      new,
      check_entries-map (indexes es) given new p,
      appended-IsRegistered es new r (check_entries-IsChecked (indexes es) given new p),
      rw p refl,
    )
  ]
    where
      differ :
          (c : Err) (new : List (Ensurer World))
          → ◌≡◌ {A = Result (List (Ensurer World))} (err c) (ok new)
          → ⊥
      differ c new q = cc

      passes :
          (new : List (Ensurer World))
          → given ≡ map some new
          → IsRegistered (es ++ new)
          → check_entries u (indexes es) given ≡ ok new
      passes new g r' =
          ap (check_entries u (indexes es)) g
          ∙ check_entries_complete (indexes es) new (IsRegistered-IsChecked es new r')
