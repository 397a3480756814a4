-- ===== src/Search/Runs.antt =====
-- search.go: a search of a repository returns no error exactly when it runs to its end.
use mathlib.Core.Path.{subst}
use esodm.Prelude.{
  ◌≡◌, ◌↔◌, refl, sym, ap, ◌∙◌, inl, inr, Bool, true, false, Option, none, some, Bytes, text,
  if◌then◌else◌, Bool-cases,
}
use esodm.Error.{Err, Result, ok, sentinel, validation, Result-cases}
use esodm.Write.{Values}
use esodm.Client.{Decoder}
use esodm.Client.Typed.{Typed, do_typed}
use esodm.Repository.{Repository}
use esodm.Search.{Search, has_key, validate_pit_params}
use esodm.Search.Pinned.{
  IsPinned, true_not_false, unpinned, unpinned_iff, has_key-Absent, Absent-has_key,
}
use esodm.Search.Complete.{
  opened, Included, Target, Runs, ran, judge, judged-Completes, Completes-judged, not_failed,
}
use esodm.Search.Running.{
  SearchResult, no_result, include_source_vectors, respond, run_checked, search,
}
use esodm.Search.Including.{include_of, include-closed, included}

module _ {Doc V W : Type 0} (r : Repository Doc V W) (zero_doc : Doc)
    (encode : Values → Result Bytes) (hydrated_source : Bytes → Option Bytes)
    (typed : Option Bytes → Bytes → Values → Typed W) (found : Decoder (SearchResult Doc)) where
  open r use {major, limit, schema, http, json}

  abbrev include : Search → Search
  include = include_source_vectors r zero_doc encode hydrated_source typed found

  abbrev IsIncluded : Values → Values → Type 0
  IsIncluded = Included r zero_doc encode hydrated_source typed found

  abbrev checked_run : Search → W → (SearchResult Doc × Option Err) × W
  checked_run = run_checked r zero_doc encode hydrated_source typed found

  abbrev answer_to : Values → Values → Bytes → W → (Option (SearchResult Doc) × Option Err) × W
  answer_to fields params body w =
      respond r zero_doc encode hydrated_source typed found (opened fields params) body w

  abbrev targeted : Bool → Option Bytes
  targeted b = if b then none else some schema.index

  targeted-Target :
      (fields : Values)
      → Target r zero_doc encode hydrated_source typed found fields
          (targeted (has_key fields (text "pit")))
  targeted-Target fields = elim (Bool-cases (has_key fields (text "pit"))) [
    | inl e ↦
        inr ((λ a. true_not_false (sym e ∙ Absent-has_key fields (text "pit") a)), ap targeted e)
    | inr e ↦ inl (has_key-Absent fields (text "pit") e, ap targeted e)
  ]

  Target-targeted :
      (fields : Values) (target : Option Bytes)
      → Target r zero_doc encode hydrated_source typed found fields target
      → targeted (has_key fields (text "pit")) ≡ target
  Target-targeted fields target (inl (a, e)) =
      ap targeted (Absent-has_key fields (text "pit") a) ∙ sym e
  Target-targeted fields target (inr (n, e)) = elim (Bool-cases (has_key fields (text "pit"))) [
    | inl h ↦ ap targeted h ∙ sym e
    | inr h ↦ absurd (n (has_key-Absent fields (text "pit") h))
  ]

  pinned_run :
      (fields params : Values) (body : Bytes) (w : W)
      → IsPinned fields params
      → encode fields ≡ ok body
      → checked_run (opened fields params) w
        ≡ judge r zero_doc encode hydrated_source typed found (answer_to fields params body w)
  unfolding validate_pit_params
  pinned_run fields params body w p m = rw ((unpinned_iff fields params).1 p, m) refl

  abbrev HasRun : Search → W → SearchResult Doc → W → Type 0
  HasRun = Runs r zero_doc encode hydrated_source typed found

  opened-HasRun :
      (fields params fields' : Values) (w : W) (result : SearchResult Doc) (w' : W)
      → IsIncluded fields fields'
      → checked_run (opened fields' params) w ≡ ((result, none), w')
      → HasRun (opened fields params) w result w'
  unfolding validate_pit_params
  opened-HasRun fields params fields' w result w' i h =
      elim (Bool-cases (unpinned fields' params)) [
        | inl b ↦ absurd (
            not_failed r zero_doc encode hydrated_source typed found (sentinel validation) no_result
              result w w' (rw b at h))
        | inr b ↦ elim (Result-cases (encode fields')) [
          | inl (e, m) ↦ absurd (
              not_failed r zero_doc encode hydrated_source typed found e no_result result w w'
                (rw (b, m) at h))
          | inr (body, m) ↦
              let p = (unpinned_iff fields' params).0 b in
              let (o, v, hits, x, t, f, hs, q) =
                judged-Completes r zero_doc encode hydrated_source typed found
                  (answer_to fields' params body w) result w'
                  (sym (pinned_run fields' params body w p m) ∙ h) in
              ran fields' body (targeted (has_key fields' (text "pit"))) o v hits refl i p m
                (targeted-Target fields') x t f hs q
        ]
      ]

  -- The fields of a search and its parameters, with a construction error or none.
  abbrev with_error : Search → Option Err → Search
  with_error s e = record { fields = s.fields; params = s.params; error = e }

  search-HasRun :
      (s : Search) (w : W) (result : SearchResult Doc) (w' : W) (e : Option Err)
      → s.error ≡ e
      → checked_run (include (with_error s e)) w ≡ ((result, none), w')
      → HasRun s w result w'
  unfolding validate_pit_params
  search-HasRun s w result w' (some e) a h = absurd (
      not_failed r zero_doc encode hydrated_source typed found e no_result result w w' (
        ap (λ c. checked_run c w)
          (sym (include-closed r zero_doc encode hydrated_source typed found s.fields s.params e))
        ∙ h))
  search-HasRun s w result w' none a h =
      let (fields', i) = included r zero_doc encode hydrated_source typed found s.fields in
      subst (λ c. HasRun c w result w') (ap (with_error s) (sym a))
        (opened-HasRun s.fields s.params fields' w result w' i (
          ap (λ c. checked_run c w)
            (sym (
              include_of r zero_doc encode hydrated_source typed found s.fields s.params fields' i))
          ∙ h))

  HasRun-search :
      (s : Search) (w : W) (result : SearchResult Doc) (w' : W)
      → HasRun s w result w'
      → checked_run (include s) w ≡ ((result, none), w')
  HasRun-search s w result w' (ran fields body target o v hits a i p m g x t f hs q) =
      ap (λ e. checked_run (include (with_error s e)) w) a
      ∙ (ap (λ c. checked_run c w)
            (include_of r zero_doc encode hydrated_source typed found s.fields s.params fields i)
          ∙ (pinned_run fields s.params body w p m
              ∙ Completes-judged r zero_doc encode hydrated_source typed found
                  (answer_to fields s.params body w) result w'
                  (
                    o,
                    v,
                    hits,
                    ap
                          (λ z.
                            do_typed (typed z body s.params) major http json found limit false true
                              w)
                          (Target-targeted fields target g)
                        ∙ x,
                    t,
                    f,
                    hs,
                    q,
                  )))

  -- A search returns a result without an error exactly when it has no construction error and, with
  -- vectors in its source where version 9 leaves them out by default, it gives no routing or
  -- preference beside a point in time and is encoded, its request, which names the index unless the
  -- search has a point in time, succeeds, the response reports neither a timeout nor failed shards,
  -- and afterRead returns no error for any of the hits; the result is then the response with the
  -- hits that afterRead returns, in their order.
  pub search-Runs :
      (s : Search) (w : W) (result : SearchResult Doc) (w' : W)
      → (search r zero_doc encode hydrated_source typed found s w ≡ ((result, none), w'))
        ↔ Runs r zero_doc encode hydrated_source typed found s w result w'
  unfolding search
  search-Runs s w result w' =
      ((λ h. search-HasRun s w result w' s.error refl h), HasRun-search s w result w')
