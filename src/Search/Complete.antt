-- ===== src/Search/Complete.antt =====
-- search.go: when the execution of a search by a repository succeeds, and what it returns.
use mathlib.Core.Path.{subst}
use esodm.Prelude.{
  ◌≡◌, ◌≢◌, ◌⊎◌, refl, sym, ap, ◌∙◌, inl, inr, Bool, true, false, ◌||◌, Option, none, some, List,
  [], ◌∷◌, Bytes, text, if◌then◌else◌, pos, ltb_ℤ, eq_ℤ, Bool-cases,
}
use esodm.Error.{Err, Result, ok, partial_search}
use esodm.Write.{Values}
use esodm.Read.{StoredHit, set_value}
use esodm.Client.{Decoder}
use esodm.Client.Typed.{Typed, do_typed}
use esodm.Repository.{Repository}
use esodm.Repository.Reading.{after_read}
use esodm.Search.{Search}
use esodm.Search.Pinned.{Absent, IsPinned, true_not_false, or_false}
use esodm.Search.Running.{
  SearchResult, or_no_result, lookup, is_partial, next_hit, cons_hit, after_hits, with_hits, judged,
}

-- A search without a construction error.
abbrev pub opened : Values → Values → Search
opened fields params = record { fields = fields; params = params; error = none }

-- A source filter that only includes the vectors.
abbrev pub no_filter : Bytes
no_filter = text "{\"exclude_vectors\":false}"

module _ {Doc V W : Type 0} (r : Repository Doc V W) (zero_doc : Doc)
    (encode : Values → Result Bytes) (hydrated_source : Bytes → Option Bytes)
    (typed : Option Bytes → Bytes → Values → Typed W) (found : Decoder (SearchResult Doc)) where
  open r use {major, limit, schema, http, json}

  -- The fields of a search with the vectors in its source: they are added where version 9 leaves
  -- them out by default, that is, where the schema has vectors, unless the source filter of the
  -- search cannot get them or mentions them already.
  pub data Included (fields fields' : Values) : Type 0 where
    not_needed :
        (eq_ℤ major (pos 9) ≡ false) ⊎ (schema.has_vectors ≡ false)
        → fields' ≡ fields
        → Included fields fields'
    unfiltered :
        eq_ℤ major (pos 9) ≡ true
        → schema.has_vectors ≡ true
        → (lookup fields (text "_source") ≡ none)
          ⊎ (lookup fields (text "_source") ≡ some (text "true"))
        → fields' ≡ set_value (text "_source") no_filter fields
        → Included fields fields'
    filtered :
        (raw source : Bytes)
        → eq_ℤ major (pos 9) ≡ true
        → schema.has_vectors ≡ true
        → lookup fields (text "_source") ≡ some raw
        → raw ≢ text "true"
        → hydrated_source raw ≡ some source
        → fields' ≡ set_value (text "_source") source fields
        → Included fields fields'
    kept :
        (raw : Bytes)
        → eq_ℤ major (pos 9) ≡ true
        → schema.has_vectors ≡ true
        → lookup fields (text "_source") ≡ some raw
        → raw ≢ text "true"
        → hydrated_source raw ≡ none
        → fields' ≡ fields
        → Included fields fields'

  -- The hits after afterRead, which returns no error for any of them.
  pub data Hydrated : List (StoredHit Doc) → W → List (StoredHit Doc) → W → Type 0 where
    no_hits : {w : W} → Hydrated [] w [] w
    one_hit :
        {hit hit' : StoredHit Doc} {hits hits' : List (StoredHit Doc)} {w v w' : W}
        → after_read r zero_doc hit w ≡ ((hit', none), v)
        → Hydrated hits v hits' w'
        → Hydrated (hit ∷ hits) w (hit' ∷ hits') w'

  -- The index of the request, which a point in time replaces.
  abbrev pub Target : Values → Option Bytes → Type 0
  Target fields target =
      (Absent fields (text "pit") × (target ≡ some schema.index))
      ⊎ ((¬ Absent fields (text "pit")) × (target ≡ none))

  -- A search that runs to its end: its result and the last world.
  pub data Runs (s : Search) (w : W) (result : SearchResult Doc) (w' : W) : Type 0 where
    ran :
        (fields : Values) (body : Bytes) (target : Option Bytes) (o : Option (SearchResult Doc))
        (v : W) (hits : List (StoredHit Doc))
        → s.error ≡ none
        → Included s.fields fields
        → IsPinned fields s.params
        → encode fields ≡ ok body
        → Target fields target
        → do_typed (typed target body s.params) major http json found limit false true w
          ≡ ((o, none), v)
        → (or_no_result o).timed_out ≡ false
        → ltb_ℤ (pos 0) (or_no_result o).failed_shards ≡ false
        → Hydrated (or_no_result o).hits v hits w'
        → result ≡ record (or_no_result o) { hits = hits }
        → Runs s w result w'

  abbrev all_hits : List (StoredHit Doc) → W → (List (StoredHit Doc) × Option Err) × W
  all_hits = after_hits r zero_doc encode hydrated_source typed found

  same_value :
      {A : Type 0} (l l' : A) (u u' : W)
      → ◌≡◌ {A = (A × Option Err) × W} ((l, none), u) ((l', none), u')
      → l ≡ l'
  same_value l l' u u' q = cc

  same_end :
      {A : Type 0} (l l' : A) (u u' : W)
      → ◌≡◌ {A = (A × Option Err) × W} ((l, none), u) ((l', none), u')
      → u ≡ u'
  same_end l l' u u' q = cc

  pub not_failed :
      {A : Type 0} (e : Err) (l l' : A) (u u' : W)
      → ◌≡◌ {A = (A × Option Err) × W} ((l, some e), u) ((l', none), u')
      → ⊥
  not_failed e l l' u u' q = cc

  Hydrated-after_hits :
      (hits : List (StoredHit Doc)) (w : W) (hits' : List (StoredHit Doc)) (w' : W)
      → Hydrated hits w hits' w'
      → all_hits hits w ≡ ((hits', none), w')
  unfolding after_hits
  Hydrated-after_hits hits w hits' w' no_hits = refl
  Hydrated-after_hits hits w hits' w'
        (one_hit {hit = hit} {hit' = hit'} {hits = rest} {hits' = rest'} {v = v} e h) =
      ap (λ x. next_hit r zero_doc encode hydrated_source typed found x rest (λ u. all_hits rest u))
        e
      ∙ ap (cons_hit r zero_doc encode hydrated_source typed found hit')
          (Hydrated-after_hits rest v rest' w' h)

  after_hits-Hydrated :
      (hits : List (StoredHit Doc)) (w : W) (hits' : List (StoredHit Doc)) (w' : W)
      → all_hits hits w ≡ ((hits', none), w')
      → Hydrated hits w hits' w'
  unfolding after_hits
  after_hits-Hydrated [] w hits' w' h =
      subst (λ l. Hydrated [] w l w') (same_value [] hits' w w' h)
        (subst (λ u. Hydrated [] w [] u) (same_end [] hits' w w' h) no_hits)
  after_hits-Hydrated (hit ∷ hits) w hits' w' h =
      by_hit (after_read r zero_doc hit w) refl h (after_hits-Hydrated hits)
    where
      by_rest :
          (hit' : StoredHit Doc) (v : W) (x : (List (StoredHit Doc) × Option Err) × W)
          → after_read r zero_doc hit w ≡ ((hit', none), v)
          → all_hits hits v ≡ x
          → cons_hit r zero_doc encode hydrated_source typed found hit' x ≡ ((hits', none), w')
          → ((u : W) (l : List (StoredHit Doc)) (u' : W)
              → all_hits hits u ≡ ((l, none), u')
              → Hydrated hits u l u')
          → Hydrated (hit ∷ hits) w hits' w'
      by_rest hit' v ((l, some e), u) a b h rec = absurd (not_failed e (hit' ∷ l) hits' u w' h)
      by_rest hit' v ((l, none), u) a b h rec =
          subst (λ k. Hydrated (hit ∷ hits) w k w') (same_value (hit' ∷ l) hits' u w' h)
            (subst (λ z. Hydrated (hit ∷ hits) w (hit' ∷ l) z) (same_end (hit' ∷ l) hits' u w' h)
              (one_hit a (rec v l u b)))

      by_hit :
          (x : (StoredHit Doc × Option Err) × W)
          → after_read r zero_doc hit w ≡ x
          → next_hit r zero_doc encode hydrated_source typed found x hits (λ u. all_hits hits u)
            ≡ ((hits', none), w')
          → ((u : W) (l : List (StoredHit Doc)) (u' : W)
              → all_hits hits u ≡ ((l, none), u')
              → Hydrated hits u l u')
          → Hydrated (hit ∷ hits) w hits' w'
      by_hit ((hit', some e), v) a h rec = absurd (not_failed e (hit' ∷ hits) hits' v w' h)
      by_hit ((hit', none), v) a h rec = by_rest hit' v (all_hits hits v) a refl h rec

  -- A complete answer whose hits are hydrated.
  abbrev pub Completes :
      (Option (SearchResult Doc) × Option Err) × W → SearchResult Doc → W → Type 0
  Completes x result w' =
      (o : Option (SearchResult Doc)) × (v : W) × (hits : List (StoredHit Doc)) × (x
        ≡ ((o, none), v))
      × ((or_no_result o).timed_out ≡ false)
      × (ltb_ℤ (pos 0) (or_no_result o).failed_shards ≡ false)
      × Hydrated (or_no_result o).hits v hits w'
      × (result ≡ record (or_no_result o) { hits = hits })

  abbrev pub judge :
      (Option (SearchResult Doc) × Option Err) × W → (SearchResult Doc × Option Err) × W
  judge = judged r zero_doc encode hydrated_source typed found

  with_hits-Hydrated :
      (out : SearchResult Doc) (v : W) (x : (List (StoredHit Doc) × Option Err) × W)
      (result : SearchResult Doc) (w' : W)
      → all_hits out.hits v ≡ x
      → with_hits r zero_doc encode hydrated_source typed found out x ≡ ((result, none), w')
      → (hits : List (StoredHit Doc)) × Hydrated out.hits v hits w'
        × (result ≡ record out { hits = hits })
  with_hits-Hydrated out v ((l, some e), u) result w' a h =
      absurd (not_failed e (record out { hits = l }) result u w' h)
  with_hits-Hydrated out v ((l, none), u) result w' a h = (
    l,
    subst (λ z. Hydrated out.hits v l z) (same_end (record out { hits = l }) result u w' h)
        (after_hits-Hydrated out.hits v l u a),
    sym (same_value (record out { hits = l }) result u w' h),
  )

  pub judged-Completes :
      (x : (Option (SearchResult Doc) × Option Err) × W) (result : SearchResult Doc) (w' : W)
      → judge x ≡ ((result, none), w')
      → Completes x result w'
  judged-Completes ((o, some e), v) result w' h =
      absurd (not_failed e (or_no_result o) result v w' h)
  judged-Completes ((o, none), v) result w' h = elim (Bool-cases (is_partial (or_no_result o))) [
    | inl p ↦ absurd (not_failed _ (or_no_result o) result v w' (rw p at h))
    | inr p ↦
        let k = or_false (or_no_result o).timed_out _ p in
        let q =
          with_hits-Hydrated (or_no_result o) v (all_hits (or_no_result o).hits v) result w' refl
            (rw p at h) in
        (o, v, q.0, refl, k.0, k.1, q.1, q.2)
  ]

  pub Completes-judged :
      (x : (Option (SearchResult Doc) × Option Err) × W) (result : SearchResult Doc) (w' : W)
      → Completes x result w'
      → judge x ≡ ((result, none), w')
  Completes-judged x result w' (o, v, hits, e, t, f, h, q) =
      ap judge e
      ∙ (complete (is_partial (or_no_result o))
            (ap (λ b. b || ltb_ℤ (pos 0) (or_no_result o).failed_shards) t ∙ f)
          ∙ (ap (with_hits r zero_doc encode hydrated_source typed found (or_no_result o))
                (Hydrated-after_hits (or_no_result o).hits v hits w' h)
              ∙ ap (λ y. ((y, none), w')) (sym q)))
    where
      complete :
          (b : Bool)
          → b ≡ false
          → (if b
              then (
                (
                  or_no_result o,
                  some (partial_search (or_no_result o).timed_out (or_no_result o).failed_shards),
                ),
                v,
              )
              else with_hits r zero_doc encode hydrated_source typed found
                  (or_no_result o)
                  (all_hits (or_no_result o).hits v))
            ≡ with_hits r zero_doc encode hydrated_source typed found
                (or_no_result o)
                (all_hits (or_no_result o).hits v)
      complete true e = absurd (true_not_false e)
      complete false e = refl
