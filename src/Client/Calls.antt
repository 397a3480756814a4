-- ===== src/Client/Calls.antt =====
-- When Client.Do returns no error.
use mathlib.Core.Path.{subst}
use esodm.Prelude.{
  sym, ℕ, ◌≡◌, ◌↔◌, inl, inr, refl, Bool, Option, none, some, [], Bytes, text, Option-cases,
}
use esodm.Error.{Result, ok, err, caused, validation, Result-cases}
use esodm.Write.{Values}
use esodm.Paths.{check_path}
use esodm.Client.{Request, Http, Json, Decoder}
use esodm.Client.Perform.{begun, new_request, request, do_json}
use esodm.Client.Success.{IsAnswered, perform-IsAnswered}

of_ok : (b b' : Bytes) (P : Bytes → Type 0) → ok b ≡ ok b' → P b' → P b
of_ok b b' P e p = subst P (sym (same e)) p
  where
    same : ok b ≡ ok b' → b ≡ b'
    same e = cc

-- The encoded body of a call of Do, if it can be encoded.
abbrev pub encoded_body : Option (Result Bytes) → Result Bytes
encoded_body none = ok []
encoded_body (some (err e)) = err (caused validation e)
encoded_body (some (ok bytes)) = ok bytes

module _ {World Out : Type 0} (h : Http World) (j : Json) (d : Decoder Out) (limit : ℕ) where
  -- The request with a JSON body.
  abbrev pub json_request : Bytes → Bytes → Values → Bytes → Request
  json_request method path query bytes =
      new_request h j d limit method path query bytes (text "application/json")

  -- A request that can be made, and that is answered.
  abbrev pub IsPerformed : Bytes → Bytes → Values → Bytes → Bool → World → Type 0
  IsPerformed method path query bytes wanted w =
      (check_path path ≡ ok tt)
      × (h.malformed method path query ≡ none)
      × IsAnswered h j d limit wanted method (
          (h.perform (json_request method path query bytes)
            (begun h j d limit (json_request method path query bytes) h.instrumentation w)).0)

  request-IsPerformed :
      (method path : Bytes) (query : Values) (bytes : Bytes) (wanted : Bool) (w : World)
      → ((request h j d limit method path query bytes (text "application/json") wanted w).0.1
          ≡ none)
        ↔ IsPerformed method path query bytes wanted w
  unfolding request
  request-IsPerformed method path query bytes wanted w = elim (Result-cases (check_path path)) [
    | inl (e, p) ↦ rw (request, p) ((λ q. cc), (λ q. cc))
    | inr (_, p) ↦ elim (Option-cases (h.malformed method path query)) [
      | inl m ↦
          let k = perform-IsAnswered h j d limit wanted (json_request method path query bytes) w in
          rw (request, p, m) ((λ q. (refl, refl, k.0 q)), (λ q. k.1 (q.2)))
      | inr (e, m) ↦ rw (request, p, m) ((λ q. cc), (λ q. cc))
    ]
  ]

  -- Do returns no error exactly when its body is encoded, and the request can be made and is
  -- answered.
  pub do_json-IsPerformed :
      (method path : Bytes) (query : Values) (body : Option (Result Bytes)) (wanted : Bool)
      (w : World)
      → ((do_json h j d limit method path query body wanted w).0.1 ≡ none) ↔ (
          (bytes : Bytes) × (encoded_body body ≡ ok bytes)
          × IsPerformed method path query bytes wanted w)
  unfolding do_json
  do_json-IsPerformed method path query none wanted w =
      let k = request-IsPerformed method path query [] wanted w in
      (
        (λ q. ([], refl, k.0 q)),
        (λ q. k.1 (of_ok [] (q.0) (λ b. IsPerformed method path query b wanted w) (q.1) (q.2))),
      )
  do_json-IsPerformed method path query (some (err e)) wanted w = ((λ q. cc), (λ q. cc))
  do_json-IsPerformed method path query (some (ok bytes)) wanted w =
      let k = request-IsPerformed method path query bytes wanted w in
      (
        (λ q. (bytes, refl, k.0 q)),
        (λ q. k.1 (of_ok bytes (q.0) (λ b. IsPerformed method path query b wanted w) (q.1) (q.2))),
      )
