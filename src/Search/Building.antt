-- ===== src/Search/Building.antt =====
-- search.go: chains of the methods that build a search.
use mathlib.Core.Path.{subst}
use esodm.Prelude.{
  ◌≡◌, refl, inl, inr, Bool, true, false, Option, none, some, List, [], ◌∷◌, ◌++◌, Bytes, text,
  bytes_eq, is_empty, All, if◌then◌else◌, ℤ, Bool-cases,
}
use esodm.Error.{Err, Result, ok, err, sentinel, validation}
use esodm.Write.{Values}
use esodm.Read.{set_value, delete_value}
use esodm.Search.{
  Search, empty_search, has_error, failed, with_encoded, with_option, size, from, Sort, sort, Knn,
  bad_knn, filter_error, knn, without, retrieve, hybrid_rrf, reserved, param, timeout,
}

-- A call of a method: With, and those that only call it; Size; From; Sort; KNN; HybridRRF; Param,
-- and those that only call it; Timeout.
pub data Call : Type 0 where
  with_call : Bytes → Result Bytes → Call
  size_call from_call timeout_call : ℤ → Call
  sort_call : List Sort → Result Bytes → Call
  knn_call : Knn → Result Bytes → Call
  hybrid_call : Result Bytes → Knn → Result Bytes → ℤ → ℤ → Result Bytes → Call
  param_call : Bytes → Bytes → Call

abbrev pub apply : Call → Search → Search
apply (with_call key value) s = with_option key value s
apply (size_call n) s = size n s
apply (from_call n) s = from n s
apply (timeout_call n) s = timeout n s
apply (sort_call fs encoded) s = sort fs encoded s
apply (knn_call k encoded) s = knn k encoded s
apply (hybrid_call q k encoded_knn window constant encoded) s =
    hybrid_rrf q k encoded_knn window constant encoded s
apply (param_call key value) s = param key value s

-- A chain of calls, from left to right.
unfoldable pub build : List Call → Search → Search
build [] s = s
build (c ∷ cs) s = build cs (apply c s)

abbrev pub IsOpen : Bytes × Bytes → Type 0
IsOpen p = reserved (p.0) ≡ false

-- What a method leaves: it hides no error, and sets no reserved parameter.
abbrev Keeps : Search → Search → Type 0
Keeps s t = (t.error ≡ none → s.error ≡ none) × (All IsOpen s.params → All IsOpen t.params)

failed-Keeps : (s : Search) (e : Err) → Keeps s (failed s e)
failed-Keeps s e = ((λ h. cc), (λ h. h))

Keeps-refl : (s : Search) → Keeps s s
Keeps-refl s = ((λ h. h), (λ h. h))

Keeps-if : (b : Bool) (s t u : Search) → Keeps s t → Keeps s u → Keeps s (if b then t else u)
Keeps-if true s t u h k = h
Keeps-if false s t u h k = k

Keeps-trans : (s t u : Search) → Keeps s t → Keeps t u → Keeps s u
Keeps-trans s t u h k = ((λ e. h.0 (k.0 e)), (λ p. k.1 (h.1 p)))

-- A search that has an error stays as it is, so only one without an error changes.
Keeps-sound : (s t : Search) → (s.error ≡ none → Keeps s t) → Keeps s (if has_error s then s else t)
Keeps-sound s t h = of_test (has_error s) (no_error s.error)
  where
    no_error : (o : Option Err) → (elim o [ none ↦ false | some e ↦ true ]) ≡ false → o ≡ none
    no_error none q = refl
    no_error (some e) q = cc

    of_test : (b : Bool) → (b ≡ false → s.error ≡ none) → Keeps s (if b then s else t)
    of_test true f = Keeps-refl s
    of_test false f = h (f refl)

with_encoded-Keeps :
    (s : Search) (key : Bytes) (value : Result Bytes)
    → s.error ≡ none
    → Keeps s (with_encoded s key value)
with_encoded-Keeps s key (err e) h = ((λ p. h), (λ p. p))
with_encoded-Keeps s key (ok b) h = ((λ p. h), (λ p. p))

with_option-Keeps :
    (key : Bytes) (value : Result Bytes) (s : Search) → Keeps s (with_option key value s)
unfolding with_option
with_option-Keeps key value s = Keeps-sound s _ (λ h.
    Keeps-if (is_empty key) s _ _ (failed-Keeps s (sentinel validation))
      (with_encoded-Keeps s key value h))

set_value-All :
    (key value : Bytes) (vs : Values)
    → reserved key ≡ false
    → All IsOpen vs
    → All IsOpen (set_value key value vs)
unfolding set_value
set_value-All key value [] h a = (h, tt)
set_value-All key value ((k, v) ∷ rest) h a = elim (Bool-cases (bytes_eq k key)) [
  | inl e ↦ rw e (h, a.1)
  | inr e ↦ rw e (a.0, set_value-All key value rest h (a.1))
]

param-Keeps : (key value : Bytes) (s : Search) → Keeps s (param key value s)
unfolding param
param-Keeps key value s = Keeps-sound s _ (λ e. elim (Bool-cases (reserved key)) [
  | inl r ↦ rw r (failed-Keeps s (sentinel validation))
  | inr r ↦ rw r ((λ h. h), (λ a. set_value-All key value s.params r a))
])

without-Keeps : (keys : List Bytes) (s : Search) → Keeps s (without keys s)
unfolding without
without-Keeps [] s = Keeps-refl s
without-Keeps (k ∷ ks) s =
    Keeps-trans s (record s { fields = delete_value k s.fields })
      (without ks (record s { fields = delete_value k s.fields })) ((λ h. h), (λ h. h))
      (without-Keeps ks (record s { fields = delete_value k s.fields }))

knn-Keeps : (k : Knn) (encoded : Result Bytes) (s : Search) → Keeps s (knn k encoded s)
unfolding knn
knn-Keeps k encoded s =
    Keeps-if (bad_knn k) s _ _ (failed-Keeps s (sentinel validation))
      (filtered (filter_error k.filter))
  where
    filtered :
        (o : Option Err)
        → Keeps s (elim o [ some e ↦ failed s e | none ↦ with_option (text "knn") encoded s ])
    filtered (some e) = failed-Keeps s e
    filtered none = with_option-Keeps (text "knn") encoded s

retrieve-Keeps :
    (lexical encoded : Result Bytes) (s : Search) → Keeps s (retrieve lexical encoded s)
retrieve-Keeps (err e) encoded s = failed-Keeps s e
retrieve-Keeps (ok q) encoded s = with_option-Keeps (text "retriever") encoded s

hybrid_rrf-Keeps :
    (lexical : Result Bytes) (k : Knn) (encoded_knn : Result Bytes) (window constant : ℤ)
    (encoded : Result Bytes) (s : Search)
    → Keeps s (hybrid_rrf lexical k encoded_knn window constant encoded s)
unfolding hybrid_rrf
hybrid_rrf-Keeps lexical k encoded_knn window constant encoded s =
    Keeps-if _ s _ _ (failed-Keeps s (sentinel validation))
      (checked ((knn k encoded_knn empty_search).error))
  where
    rest : Search
    rest = without (text "query" ∷ text "knn" ∷ []) s

    checked :
        (o : Option Err)
        → Keeps s (elim o [ some e ↦ failed s e | none ↦ retrieve lexical encoded rest ])
    checked (some e) = failed-Keeps s e
    checked none =
        Keeps-trans s rest (retrieve lexical encoded rest)
          (without-Keeps (text "query" ∷ text "knn" ∷ []) s) (retrieve-Keeps lexical encoded rest)

apply-Keeps : (c : Call) (s : Search) → Keeps s (apply c s)
unfolding size from timeout sort
apply-Keeps (with_call key value) s = with_option-Keeps key value s
apply-Keeps (size_call n) s =
    Keeps-if _ s _ _ (failed-Keeps s (sentinel validation)) (with_option-Keeps _ _ s)
apply-Keeps (from_call n) s =
    Keeps-if _ s _ _ (failed-Keeps s (sentinel validation)) (with_option-Keeps _ _ s)
apply-Keeps (timeout_call n) s =
    Keeps-if _ s _ _ (failed-Keeps s (sentinel validation)) (with_option-Keeps _ _ s)
apply-Keeps (sort_call fs encoded) s =
    Keeps-if _ s _ _ (failed-Keeps s (sentinel validation)) (with_option-Keeps _ _ s)
apply-Keeps (knn_call k encoded) s = knn-Keeps k encoded s
apply-Keeps (hybrid_call q k encoded_knn window constant encoded) s =
    hybrid_rrf-Keeps q k encoded_knn window constant encoded s
apply-Keeps (param_call key value) s = param-Keeps key value s

build-Keeps : (cs : List Call) (s : Search) → Keeps s (build cs s)
unfolding build
build-Keeps [] s = Keeps-refl s
build-Keeps (c ∷ cs) s =
    Keeps-trans s (apply c s) (build cs (apply c s)) (apply-Keeps c s) (build-Keeps cs (apply c s))

build-append : (cs ds : List Call) (s : Search) → build (cs ++ ds) s ≡ build ds (build cs s)
unfolding build
build-append [] ds s = refl
build-append (c ∷ cs) ds s = build-append cs ds (apply c s)

-- If a chain of methods from the empty search ends without an error, it had none after any of its
-- calls, and it has set no parameter that Param refuses.
pub build-IsOpen :
    (cs ds : List Call)
    → (build (cs ++ ds) empty_search).error ≡ none
    → ((build cs empty_search).error ≡ none) × All IsOpen (build (cs ++ ds) empty_search).params
build-IsOpen cs ds h = (
  (build-Keeps ds (build cs empty_search)).0
      (subst (λ t. t.error ≡ none) (build-append cs ds empty_search) h),
  (build-Keeps (cs ++ ds) empty_search).1 tt,
)
