-- ===== src/Search/Including.antt =====
-- search.go: includeSourceVectors, which adds vectors to the source of a search.
use esodm.Prelude.{
  ◌≡◌, ◌≢◌, ◌⊎◌, refl, sym, ap, ◌∙◌, inl, inr, Bool, true, false, ◌&&◌, Option, none, some, Bytes,
  text, bytes_eq, bytes_eq_iff, is_empty, if◌then◌else◌, pos, eq_ℤ, Bool-cases,
}
use esodm.Error.{Err, Result}
use esodm.Write.{Values}
use esodm.Read.{set_value}
use esodm.Client.{Decoder}
use esodm.Client.Typed.{Typed}
use esodm.Repository.{Repository}
use esodm.Search.{Search, with_option}
use esodm.Search.Pinned.{true_not_false}
use esodm.Search.Complete.{opened, no_filter, Included, not_needed, unfiltered, filtered, kept}
use esodm.Search.Running.{SearchResult, lookup, include_source_vectors, of_source, with_source}

-- A search with a construction error.
abbrev pub closed : Values → Values → Err → Search
closed fields params e = record { fields = fields; params = params; error = some e }

module _ {Doc V W : Type 0} (r : Repository Doc V W) (zero_doc : Doc)
    (encode : Values → Result Bytes) (hydrated_source : Bytes → Option Bytes)
    (typed : Option Bytes → Bytes → Values → Typed W) (found : Decoder (SearchResult Doc)) where
  open r use {major, limit, schema, http, json}

  abbrev include : Search → Search
  include = include_source_vectors r zero_doc encode hydrated_source typed found

  abbrev source_in : Option Bytes → Search → Search
  source_in = of_source r zero_doc encode hydrated_source typed found

  abbrev sourced : Option Bytes → Search → Search
  sourced = with_source r zero_doc encode hydrated_source typed found

  abbrev IsIncluded : Values → Values → Type 0
  IsIncluded = Included r zero_doc encode hydrated_source typed found

  needed :
      (s : Search)
      → eq_ℤ major (pos 9) ≡ true
      → schema.has_vectors ≡ true
      → include s ≡ source_in (lookup s.fields (text "_source")) s
  unfolding include_source_vectors
  needed s a b =
      ap
        (λ x. if x && schema.has_vectors then source_in (lookup s.fields (text "_source")) s else s)
        a
      ∙ ap (λ x. if x then source_in (lookup s.fields (text "_source")) s else s) b

  unneeded :
      (s : Search) → (eq_ℤ major (pos 9) ≡ false) ⊎ (schema.has_vectors ≡ false) → include s ≡ s
  unfolding include_source_vectors
  unneeded s h = neither (eq_ℤ major (pos 9)) schema.has_vectors h
    where
      neither :
          (a b : Bool)
          → (a ≡ false) ⊎ (b ≡ false)
          → (if a && b then source_in (lookup s.fields (text "_source")) s else s) ≡ s
      neither true true (inl e) = absurd (true_not_false e)
      neither true true (inr e) = absurd (true_not_false e)
      neither true false h = refl
      neither false b h = refl

  source_in-other :
      (raw : Bytes) (s : Search)
      → raw ≢ text "true"
      → source_in (some raw) s ≡ sourced (hydrated_source raw) s
  source_in-other raw s n =
      ap (λ b. if b then sourced (some no_filter) s else sourced (hydrated_source raw) s) differ
    where
      differ : bytes_eq raw (text "true") ≡ false
      differ = elim (Bool-cases (bytes_eq raw (text "true"))) [
        | inl e ↦ absurd (n ((bytes_eq_iff raw (text "true")).0 e))
        | inr e ↦ e
      ]

  pub include_of :
      (fields params fields' : Values)
      → IsIncluded fields fields'
      → include (opened fields params) ≡ opened fields' params
  unfolding with_option is_empty bytes_eq
  include_of fields params fields' (not_needed h e) =
      unneeded (opened fields params) h ∙ ap (λ f. opened f params) (sym e)
  include_of fields params fields' (unfiltered a b (inl h) e) =
      needed (opened fields params) a b
      ∙ (ap (λ o. source_in o (opened fields params)) h ∙ ap (λ f. opened f params) (sym e))
  include_of fields params fields' (unfiltered a b (inr h) e) =
      needed (opened fields params) a b
      ∙ (ap (λ o. source_in o (opened fields params)) h ∙ ap (λ f. opened f params) (sym e))
  include_of fields params fields' (filtered raw source a b h n k e) =
      needed (opened fields params) a b
      ∙ (ap (λ o. source_in o (opened fields params)) h
          ∙ (source_in-other raw (opened fields params) n
              ∙ (ap (λ o. sourced o (opened fields params)) k ∙ ap (λ f. opened f params) (sym e))))
  include_of fields params fields' (kept raw a b h n k e) =
      needed (opened fields params) a b
      ∙ (ap (λ o. source_in o (opened fields params)) h
          ∙ (source_in-other raw (opened fields params) n
              ∙ (ap (λ o. sourced o (opened fields params)) k ∙ ap (λ f. opened f params) (sym e))))

  sourced-closed :
      (o : Option Bytes) (fields params : Values) (e : Err)
      → sourced o (closed fields params e) ≡ closed fields params e
  unfolding with_option
  sourced-closed none fields params e = refl
  sourced-closed (some source) fields params e = refl

  pub include-closed :
      (fields params : Values) (e : Err) → include (closed fields params e) ≡ closed fields params e
  unfolding include_source_vectors
  include-closed fields params e =
      either (eq_ℤ major (pos 9) && schema.has_vectors) (by_source (lookup fields (text "_source")))
    where
      either :
          (b : Bool) {s : Search}
          → s ≡ closed fields params e
          → (if b then s else closed fields params e) ≡ closed fields params e
      either true h = h
      either false h = refl

      by_test :
          (b : Bool) (raw : Bytes)
          → (if b
              then sourced (some no_filter) (closed fields params e)
              else sourced (hydrated_source raw) (closed fields params e))
            ≡ closed fields params e
      by_test true raw = sourced-closed (some no_filter) fields params e
      by_test false raw = sourced-closed (hydrated_source raw) fields params e

      by_source : (o : Option Bytes) → source_in o (closed fields params e) ≡ closed fields params e
      by_source none = sourced-closed (some no_filter) fields params e
      by_source (some raw) = by_test (bytes_eq raw (text "true")) raw

  pub included : (fields : Values) → (fields' : Values) × IsIncluded fields fields'
  included fields = elim (Bool-cases (eq_ℤ major (pos 9))) [
    | inr a ↦ (fields, not_needed (inl a) refl)
    | inl a ↦ elim (Bool-cases schema.has_vectors) [
      | inr b ↦ (fields, not_needed (inr b) refl)
      | inl b ↦ by_source a b (lookup fields (text "_source")) refl
    ]
  ]
    where
      by_value :
          (raw : Bytes) (o : Option Bytes)
          → eq_ℤ major (pos 9) ≡ true
          → schema.has_vectors ≡ true
          → lookup fields (text "_source") ≡ some raw
          → raw ≢ text "true"
          → hydrated_source raw ≡ o
          → (fields' : Values) × IsIncluded fields fields'
      by_value raw none a b h n k = (fields, kept raw a b h n k refl)
      by_value raw (some source) a b h n k =
          (set_value (text "_source") source fields, filtered raw source a b h n k refl)

      by_source :
          eq_ℤ major (pos 9) ≡ true
          → schema.has_vectors ≡ true
          → (o : Option Bytes) → lookup fields (text "_source") ≡ o
          → (fields' : Values) × IsIncluded fields fields'
      by_source a b none h = (_, unfiltered a b (inl h) refl)
      by_source a b (some raw) h = elim (Bool-cases (bytes_eq raw (text "true"))) [
        | inl e ↦
            (_, unfiltered a b (inr (h ∙ ap some ((bytes_eq_iff raw (text "true")).0 e))) refl)
        | inr e ↦
            by_value raw (hydrated_source raw) a b h
              (λ q. true_not_false (sym ((bytes_eq_iff raw (text "true")).1 q) ∙ e)) refl
      ]
