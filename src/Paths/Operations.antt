-- ===== src/Paths/Operations.antt =====
-- The path of a document is accepted, and telemetry reads its index from it, not its ID.
use esodm.Prelude.{
  ℕ, ◌≡◌, ◌≢◌, ◌<◌, ◌/◌, ◌%◌, refl, ap, ◌∙◌, false, some, List, [], ◌∷◌, ◌++◌, append_assoc, Bytes,
  All, text, bytes_eq, is_empty, contains_byte, contains_any, has_prefix, split, split-append,
  split-none, arith, ◌⊎◌, Bool-cases, inl, inr, append_cons-ne, All-append,
}
use mathlib.Core.Path.{subst}
use esodm.Error.{ok}
use esodm.Names.{Unicode, validate_index_name, validate_id}
use esodm.Names.Safe.{index_name-IsPlain, index_name-first}
use esodm.Paths.{
  unescaped, hex_digit, path_escape, segment, check_path, trim_left, trim_right, parts_operation,
  index_operation, document_operation, request_operation, document_path, or_empty, path_unescape,
}
use esodm.Paths.Segments.{IsInside, segment-path_unescape}

-- All of a weaker property.
All-map {ℓ κ} :
    {A : Type ℓ} (P Q : A → Type κ) (l : List A) → ((a : A) → P a → Q a) → All P l → All Q l
All-map P Q [] f h = tt
All-map P Q (a ∷ l) f h = (f a (h.0), All-map P Q l f (h.1))

no_slash : (s : Bytes) → All IsInside s → All (λ c. c ≢ b'/') s
no_slash s h = All-map IsInside (λ c. c ≢ b'/') s (λ c i. i.0) h

trim_left-first : (c : ℕ) (s : Bytes) → c ≢ b'/' → trim_left (c ∷ s) ≡ c ∷ s
unfolding trim_left
trim_left-first c s h = ground arith

trim_left-slash : (s : Bytes) → trim_left (b'/' ∷ s) ≡ trim_left s
unfolding trim_left
trim_left-slash s = refl

trim_right-none : (s : Bytes) → All (λ c. c ≢ b'/') s → trim_right s ≡ s
unfolding trim_right
trim_right-none [] h = refl
trim_right-none (c ∷ s) h = ground (arith, trim_right-none s (h.1))

trim_right-kept : (d : ℕ) (s : Bytes) → s ≢ [] → trim_right s ≡ s → trim_right (d ∷ s) ≡ d ∷ s
unfolding trim_right is_empty
trim_right-kept d [] n e = absurd (n refl)
trim_right-kept d (c ∷ s) n e = rw (trim_right, e) refl

-- What stands before a part without slashes is not trimmed.
trim_right-append :
    (s : Bytes) (c : ℕ) (t : Bytes)
    → All (λ d. d ≢ b'/') (c ∷ t)
    → trim_right (s ++ c ∷ t) ≡ s ++ c ∷ t
trim_right-append [] c t h = trim_right-none (c ∷ t) h
trim_right-append (d ∷ s) c t h =
    trim_right-kept d (s ++ c ∷ t) (append_cons-ne s c t) (trim_right-append s c t h)

-- The bytes that an API path does not hold.
abbrev path_specials : Bytes
path_specials = b'?' ∷ b'#' ∷ 13 ∷ 10 ∷ []

IsInside-contains : (c : ℕ) → IsInside c → contains_byte path_specials c ≡ false
unfolding contains_byte
IsInside-contains c h = ground arith

contains_any-All :
    (s : Bytes)
    → All (λ c. contains_byte path_specials c ≡ false) s
    → contains_any s path_specials ≡ false
unfolding contains_any
contains_any-All [] h = refl
contains_any-All (c ∷ s) h = ground (arith, contains_any-All s (h.1))

path_escape-first :
    (c : ℕ) (s : Bytes)
    → (d : ℕ) × (t : Bytes) × (path_escape (c ∷ s) ≡ d ∷ t) × ((d ≡ c) ⊎ (d ≡ b'%'))
unfolding path_escape
path_escape-first c s = elim (Bool-cases (unescaped c)) [
  | inl e ↦ (c, path_escape s, rw e refl, inl refl)
  | inr e ↦ (b'%', hex_digit (c / 16) ∷ hex_digit (c % 16) ∷ path_escape s, rw e refl, inr refl)
]

-- The first byte of a segment is the first byte of the name, or a percent sign.
segment-first :
    (c : ℕ) (s : Bytes) → (d : ℕ) × (t : Bytes) × (segment (c ∷ s) ≡ d ∷ t) × ((d ≡ c) ⊎ (d ≡ b'%'))
unfolding segment
segment-first c s = elim (Bool-cases (bytes_eq (c ∷ s) (text "."))) [
  | inl e ↦ (b'%', text "2E", rw (segment, e) refl, inr refl)
  | inr e ↦ elim (Bool-cases (bytes_eq (c ∷ s) (text ".."))) [
    | inl f ↦ (b'%', text "2E%2E", rw (segment, e, f) refl, inr refl)
    | inr f ↦ let p = path_escape-first c s in (p.0, p.1, rw (segment, e, f) (p.2), p.3)
  ]
]

no_slash-doc : All (λ c. c ≢ b'/') (text "_doc")
no_slash-doc = (ground arith, (ground arith, (ground arith, (ground arith, tt))))

-- The path of two parts around "_doc".
abbrev doc_path : Bytes → Bytes → Bytes
doc_path p q = p ++ (text "/_doc/" ++ q)

split-doc_path :
    (p q : Bytes)
    → All IsInside p
    → All IsInside q
    → split b'/' (doc_path p q) ≡ p ∷ text "_doc" ∷ q ∷ []
split-doc_path p q h k =
    split-append b'/' p (text "_doc/" ++ q) (no_slash p h)
    ∙ ap (λ l. p ∷ l)
        (split-append b'/' (text "_doc") q (no_slash-doc)
          ∙ ap (λ l. text "_doc" ∷ l) (split-none b'/' q (no_slash q k)))

doc_path-trim :
    (c : ℕ) (p : Bytes) (d : ℕ) (q : Bytes)
    → All IsInside (c ∷ p)
    → All IsInside (d ∷ q)
    → trim_right (trim_left (b'/' ∷ doc_path (c ∷ p) (d ∷ q))) ≡ doc_path (c ∷ p) (d ∷ q)
doc_path-trim c p d q h k =
    ap trim_right
      (trim_left-slash (doc_path (c ∷ p) (d ∷ q)) ∙ trim_left-first c (doc_path p (d ∷ q)) (h.0.0))
    ∙ subst (λ l. trim_right l ≡ l) (append_assoc (c ∷ p) (text "/_doc/") (d ∷ q))
        (trim_right-append ((c ∷ p) ++ text "/_doc/") d q (no_slash (d ∷ q) k))

-- What the third switch reads of the three parts of a document path.
parts_operation-doc :
    (method : Bytes) (c : ℕ) (p q : Bytes)
    → c ≢ b'_'
    → parts_operation method ((c ∷ p) ∷ text "_doc" ∷ q ∷ [])
      ≡ (document_operation method, or_empty (path_unescape (c ∷ p)))
unfolding parts_operation index_operation bytes_eq has_prefix
parts_operation-doc method c p q h = ground arith

contains_any-doc_path :
    (p q : Bytes)
    → All IsInside p
    → All IsInside q
    → contains_any (doc_path p q) path_specials ≡ false
unfolding contains_byte
contains_any-doc_path p q h k = contains_any-All (doc_path p q) (
    All-append IsClear p (text "/_doc/" ++ q) (clear p h) (
      All-append IsClear (text "/_doc/") q (refl, (refl, (refl, (refl, (refl, (refl, tt))))))
        (clear q k)))
  where
    IsClear : ℕ → Type 0
    IsClear c = contains_byte path_specials c ≡ false

    clear : (s : Bytes) → All IsInside s → All IsClear s
    clear s = All-map IsInside IsClear s IsInside-contains

check_path-doc :
    (c : ℕ) (p : Bytes)
    → c ≢ b'/'
    → contains_any (c ∷ p) path_specials ≡ false
    → check_path (b'/' ∷ c ∷ p) ≡ ok tt
unfolding check_path contains_any contains_byte has_prefix
check_path-doc c p h k = ground arith

-- The two facts of a document path, for the segments that it is made of.
doc_path-Accepted :
    (method name : Bytes) (c d : ℕ) (p q : Bytes)
    → c ≢ b'_'
    → All IsInside (c ∷ p)
    → All IsInside (d ∷ q)
    → path_unescape (c ∷ p) ≡ some name
    → (check_path (b'/' ∷ doc_path (c ∷ p) (d ∷ q)) ≡ ok tt)
      × (request_operation method (b'/' ∷ doc_path (c ∷ p) (d ∷ q))
          ≡ (document_operation method, name))
unfolding request_operation
doc_path-Accepted method name c d p q n h k u = (
  check_path-doc c (doc_path p (d ∷ q)) (h.0.0) (contains_any-doc_path (c ∷ p) (d ∷ q) h k),
  ap (λ s. parts_operation method (split b'/' s)) (doc_path-trim c p d q h k)
      ∙ (ap (parts_operation method) (split-doc_path (c ∷ p) (d ∷ q) h k)
          ∙ (parts_operation-doc method c p (d ∷ q) n
              ∙ ap (λ o. (document_operation method, or_empty o)) u)),
)

-- The same for any names with segments that start so.
document_path-cons :
    (method name i id : Bytes) (c d : ℕ) (p q : Bytes)
    → segment i ≡ c ∷ p
    → segment id ≡ d ∷ q
    → c ≢ b'_'
    → All IsInside (segment i)
    → All IsInside (segment id)
    → path_unescape (segment i) ≡ some name
    → (check_path (document_path i id) ≡ ok tt)
      × (request_operation method (document_path i id) ≡ (document_operation method, name))
unfolding document_path
document_path-cons method name i id c d p q e f n h k u =
    rw (e, f)
      (doc_path-Accepted method name c d p q n (subst (All IsInside) e h) (subst (All IsInside) f k)
        (subst (λ s. path_unescape s ≡ some name) e u))

first_not_underscore : (c d : ℕ) → c ≢ b'_' → (d ≡ c) ⊎ (d ≡ b'%') → d ≢ b'_'
first_not_underscore c d h k = ground arith

empty_id : (u : Unicode) → validate_id u [] ≡ ok tt → ⊥
unfolding validate_id is_empty
empty_id u h = cc

-- For an accepted index name and an accepted ID, of bytes less than 256, the path of the document is
-- an accepted API path, and telemetry reads from it the operation of the method and the index.
pub document_path-Accepted :
    (u : Unicode) (method index id : Bytes)
    → All (λ c. c < 256) index
    → All (λ c. c < 256) id
    → validate_index_name u index ≡ ok tt
    → validate_id u id ≡ ok tt
    → (check_path (document_path index id) ≡ ok tt)
      × (request_operation method (document_path index id) ≡ (document_operation method, index))
document_path-Accepted u method [] id b b' v w = absurd ((index_name-IsPlain u [] v).0 refl)
document_path-Accepted u method (c ∷ i) [] b b' v w = absurd (empty_id u w)
document_path-Accepted u method (c ∷ i) (d ∷ j) b b' v w =
    let s = segment-path_unescape (c ∷ i) b in
    let t = segment-path_unescape (d ∷ j) b' in
    let p = segment-first c i in
    let q = segment-first d j in
    document_path-cons method (c ∷ i) (c ∷ i) (d ∷ j) (p.0) (q.0) (p.1) (q.1) (p.2) (q.2)
      (first_not_underscore c (p.0) (index_name-first u c i v) (p.3)) (s.0) (t.0) (s.3)
