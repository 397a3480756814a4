-- ===== src/Search/Pinned.antt =====
-- search.go: a point in time, which takes the place of an index and of a routing.
use esodm.Prelude.{
  ◌≡◌, ◌≢◌, ◌↔◌, ◌⊎◌, refl, sym, ap, ◌∙◌, inl, inr, Bool, true, false, ◌&&◌, ◌||◌, [], ◌∷◌, All,
  Bytes, text, bytes_eq, bytes_eq_iff, Bool-cases,
}
use esodm.Write.{Values}
use esodm.Search.{has_key}

-- No value is set for a key.
abbrev pub Absent : Values → Bytes → Type 0
Absent values key = All (λ p. p.0 ≢ key) values

pub true_not_false : true ≡ false → ⊥
true_not_false q = cc

pub has_key-Absent :
    (values : Values) (key : Bytes) → has_key values key ≡ false → Absent values key
has_key-Absent [] key h = tt
has_key-Absent ((k, v) ∷ rest) key h = elim (Bool-cases (bytes_eq k key)) [
  | inl e ↦ absurd (true_not_false (sym (ap (λ b. b || has_key rest key) e) ∙ h))
  | inr e ↦ (
    (λ q. true_not_false (sym ((bytes_eq_iff k key).1 q) ∙ e)),
    has_key-Absent rest key (sym (ap (λ b. b || has_key rest key) e) ∙ h),
  )
]

pub Absent-has_key :
    (values : Values) (key : Bytes) → Absent values key → has_key values key ≡ false
Absent-has_key [] key h = refl
Absent-has_key ((k, v) ∷ rest) key h = elim (Bool-cases (bytes_eq k key)) [
  | inl e ↦ absurd (h.0 ((bytes_eq_iff k key).0 e))
  | inr e ↦ ap (λ b. b || has_key rest key) e ∙ Absent-has_key rest key (h.1)
]

-- A point in time is not given beside a routing or a preference.
abbrev pub IsPinned : Values → Values → Type 0
IsPinned fields params =
    Absent fields (text "pit")
    ⊎ (Absent params (text "routing") × Absent params (text "preference"))

pub or_false : (a b : Bool) → (a || b) ≡ false → (a ≡ false) × (b ≡ false)
or_false true b h = absurd (true_not_false h)
or_false false b h = (refl, h)

and_false : (a b : Bool) → (a && b) ≡ false → (a ≡ false) ⊎ (b ≡ false)
and_false true b h = inr h
and_false false b h = inl refl

false_right : (a : Bool) → (a && false) ≡ false
false_right true = refl
false_right false = refl

-- The test for a routing or a preference beside a point in time.
abbrev pub unpinned : Values → Values → Bool
unpinned fields params =
    has_key fields (text "pit")
    && (has_key params (text "routing") || has_key params (text "preference"))

pub unpinned_iff :
    (fields params : Values) → (unpinned fields params ≡ false) ↔ IsPinned fields params
unpinned_iff fields params = (there, back)
  where
    there : unpinned fields params ≡ false → IsPinned fields params
    there h = elim (and_false (has_key fields (text "pit")) _ h) [
      | inl e ↦ inl (has_key-Absent fields (text "pit") e)
      | inr e ↦
          let k = or_false (has_key params (text "routing")) _ e in
          inr (
            has_key-Absent params (text "routing") (k.0),
            has_key-Absent params (text "preference") (k.1),
          )
    ]

    back : IsPinned fields params → unpinned fields params ≡ false
    back (inl e) = rw (Absent-has_key fields (text "pit") e) refl
    back (inr (e, d)) =
        rw (Absent-has_key params (text "routing") e, Absent-has_key params (text "preference") d)
          (false_right (has_key fields (text "pit")))
