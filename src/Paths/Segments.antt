-- ===== src/Paths/Segments.antt =====
-- An escaped segment stays in its place in a path, and unescapes to what it was made of.
use esodm.Prelude.{
  ℕ, ◌≡◌, ◌≢◌, ◌+◌, ◌*◌, ◌/◌, ◌%◌, ◌<◌, refl, ap, sym, ◌∙◌, true, false, Option, none, some, [],
  ◌∷◌, ◌++◌, Bytes, All, All-append, text, bytes_eq, bytes_eq_iff, contains_byte, arith, Bool-cases,
  inl, inr,
}
use esodm.Paths.{
  unescaped, hex_digit, escaped, path_escape, segment, unhex, push, unescape_from, outside,
  after_digit, path_unescape,
}

-- A byte that neither ends a segment nor the path.
abbrev pub IsInside : ℕ → Type 0
IsInside c = (c ≢ b'/') × (c ≢ b'?') × (c ≢ b'#') × (c ≢ 13) × (c ≢ 10)

unescaped-IsInside : (c : ℕ) → unescaped c ≡ true → IsInside c
unfolding unescaped contains_byte
unescaped-IsInside c h = (ground arith, ground arith, ground arith, ground arith, ground arith)

hex_digit-IsInside : (n : ℕ) → IsInside (hex_digit n)
hex_digit-IsInside n = (ground arith, ground arith, ground arith, ground arith, ground arith)

percent-IsInside : IsInside b'%'
percent-IsInside = (ground arith, ground arith, ground arith, ground arith, ground arith)

escaped-IsInside : (c : ℕ) → All IsInside (escaped c)
escaped-IsInside c =
    (percent-IsInside, (hex_digit-IsInside (c / 16), (hex_digit-IsInside (c % 16), tt)))

path_escape-IsInside : (s : Bytes) → All IsInside (path_escape s)
unfolding path_escape
path_escape-IsInside [] = tt
path_escape-IsInside (c ∷ s) = elim (Bool-cases (unescaped c)) [
  | inl e ↦ rw e (unescaped-IsInside c e, path_escape-IsInside s)
  | inr e ↦ rw e (
      All-append IsInside (escaped c) (path_escape s) (escaped-IsInside c) (path_escape-IsInside s))
]

unhex-hex_digit : (n : ℕ) → n < 16 → unhex (hex_digit n) ≡ some n
unhex-hex_digit n h = ground arith

unescaped-percent : (c : ℕ) → unescaped c ≡ true → c ≢ b'%'
unfolding unescaped contains_byte
unescaped-percent c h = ground arith

unescape_from-digit :
    (high c d : ℕ) (s : Bytes)
    → unhex c ≡ some d
    → unescape_from (after_digit high) (c ∷ s) ≡ push (high * 16 + d) (unescape_from outside s)
unfolding unescape_from
unescape_from-digit high c d s h = rw (unescape_from, h) refl

unescape_from-percent :
    (c d : ℕ) (s : Bytes)
    → unhex c ≡ some d
    → unescape_from outside (b'%' ∷ c ∷ s) ≡ unescape_from (after_digit d) s
unfolding unescape_from
unescape_from-percent c d s h = ap then_digit h
  where
    then_digit : Option ℕ → Option Bytes
    then_digit none = none
    then_digit (some high) = unescape_from (after_digit high) s

unescape_from-escaped :
    (c : ℕ) (s : Bytes)
    → c < 256
    → unescape_from outside (escaped c ++ s) ≡ push c (unescape_from outside s)
unescape_from-escaped c s h =
    unescape_from-percent (hex_digit (c / 16)) (c / 16) (hex_digit (c % 16) ∷ s)
      (unhex-hex_digit (c / 16) (omega arith))
    ∙ (unescape_from-digit (c / 16) (hex_digit (c % 16)) (c % 16) s
          (unhex-hex_digit (c % 16) (omega arith))
        ∙ ap (λ d. push d (unescape_from outside s)) (omega arith))

unescape_from-nil : unescape_from outside [] ≡ some []
unfolding unescape_from
unescape_from-nil = refl

unescape_from-kept :
    (c : ℕ) (s t : Bytes)
    → c ≢ b'%'
    → unescape_from outside s ≡ some t
    → unescape_from outside (c ∷ s) ≡ some (c ∷ t)
unfolding unescape_from
unescape_from-kept c s t h e = ground arith

path_unescape-path_escape :
    (s : Bytes) → All (λ c. c < 256) s → unescape_from outside (path_escape s) ≡ some s
unfolding path_escape
path_unescape-path_escape [] h = unescape_from-nil
path_unescape-path_escape (c ∷ s) h = elim (Bool-cases (unescaped c)) [
  | inl e ↦ rw e (
      unescape_from-kept c (path_escape s) s (unescaped-percent c e)
        (path_unescape-path_escape s (h.1)))
  | inr e ↦
      rw (e, unescape_from-escaped c (path_escape s) (h.0), path_unescape-path_escape s (h.1)) refl
]

unescape_from-dots :
    (unescape_from outside (text ".") ≡ some (text "."))
    × (unescape_from outside (text "..") ≡ some (text ".."))
    × (unescape_from outside (text "%2E") ≡ some (text "."))
    × (unescape_from outside (text "%2E%2E") ≡ some (text ".."))
unfolding unescape_from
unescape_from-dots = (refl, refl, refl, refl)

-- Two strings with the same escaped form are equal.
path_escape-ne :
    (s t : Bytes)
    → All (λ c. c < 256) s
    → unescape_from outside t ≡ some t
    → s ≢ t
    → path_escape s ≢ t
path_escape-ne s t h e n p =
    n (some_injective (sym (path_unescape-path_escape s h) ∙ (ap (unescape_from outside) p ∙ e)))
  where
    some_injective : some s ≡ some t → s ≡ t
    some_injective q = cc

dot_escape : All IsInside (text "%2E")
dot_escape = (percent-IsInside, (hex_digit-IsInside 2, (hex_digit-IsInside 14, tt)))

bytes_eq-ne : (s t : Bytes) → bytes_eq s t ≡ false → s ≢ t
bytes_eq-ne s t e p = ground (arith, bytes_eq_iff s t)

-- A segment holds no byte that ends it or the path, is neither "." nor "..", and url.PathUnescape
-- gives back the name it was made of, if each byte of the name is less than 256.
pub segment-path_unescape :
    (s : Bytes)
    → All (λ c. c < 256) s
    → All IsInside (segment s)
      × (segment s ≢ text ".")
      × (segment s ≢ text "..")
      × (path_unescape (segment s) ≡ some s)
unfolding segment path_unescape
segment-path_unescape s h = elim (Bool-cases (bytes_eq s (text "."))) [
  | inl e ↦
      rw (e, (bytes_eq_iff s (text ".")).0 e)
        (dot_escape, (λ p. cc), (λ p. cc), unescape_from-dots.2)
  | inr e ↦ elim (Bool-cases (bytes_eq s (text ".."))) [
    | inl f ↦
        rw (e, f, (bytes_eq_iff s (text "..")).0 f)
          (
            (percent-IsInside, (hex_digit-IsInside 2, (hex_digit-IsInside 14, dot_escape))),
            (λ p. cc),
            (λ p. cc),
            unescape_from-dots.3,
          )
    | inr f ↦
        rw (e, f)
          (
            path_escape-IsInside s,
            path_escape-ne s (text ".") h (unescape_from-dots.0) (bytes_eq-ne s (text ".") e),
            path_escape-ne s (text "..") h (unescape_from-dots.1) (bytes_eq-ne s (text "..") f),
            path_unescape-path_escape s h,
          )
  ]
]
