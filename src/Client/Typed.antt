-- ===== src/Client/Typed.antt =====
-- client.go: DoTyped, which sends a request of an official builder only to a server of its major.
use esodm.Prelude.{
  ℕ, ◌≡◌, ◌⊎◌, inl, inr, refl, Bool, true, false, not, ◌||◌, Option, none, some, List, [], ◌∷◌,
  Bytes, All, is_empty, split, ℤ, eq_ℤ, if◌then◌else◌, Bool-cases, arith,
}
use esodm.Error.{Err, sentinel, validation, unsupported}
use esodm.Decimal.{atoi}
use esodm.Client.{Request, Http, Json, Decoder}
use esodm.Client.Perform.{perform}

-- What a typed request has beside the API path: the builder of go-elasticsearch, mime.ParseMediaType
-- with strings.TrimSpace for the parameter compatible-with (none on an error, empty where it is
-- absent), and the Close of the body of a request, if it has one.
pub record Typed (World : Type 0) : Type 0 where
  pub build : World → (Option Request × Option Err) × World
  pub compatible_with : Bytes → Option Bytes
  pub close_request : Request → World → World

abbrev pub other_major : Option ℤ → ℤ → Bool
other_major none major = true
other_major (some n) major = not (eq_ℤ n major)

-- The test of one value of a header.
abbrev pub value_refused : Option Bytes → ℤ → Bool
value_refused none major = false
value_refused (some v) major = if is_empty v then false else other_major (atoi v) major

module _ {World : Type 0} (t : Typed World) (major : ℤ) where
  -- The inner loop, over the values of a header.
  unfoldable pub any_refused : List Bytes → Bool
  any_refused [] = false
  any_refused (v ∷ vs) = value_refused (t.compatible_with v) major || any_refused vs

  -- The loops over both headers.
  unfoldable pub headers_refused : Request → Bool
  headers_refused r = any_refused (split b',' r.accept) || any_refused (split b',' r.content_type)

  module _ {Out : Type 0} (h : Http World) (j : Json) (d : Decoder Out) (limit : ℕ) where
    -- DoTyped after the builder, whose request has a URL or is nil.
    abbrev pub sent :
        Bool → (Option Request × Option Err) × World → (Option Out × Option Err) × World
    sent wanted ((r, some e), w) = ((none, some e), w)
    sent wanted ((none, none), w) = ((none, some (sentinel validation)), w)
    sent wanted ((some r, none), w) =
        let closed = t.close_request r w in
        let result = perform h j d limit wanted r w in
        if not (is_empty r.host) || r.has_user
        then ((none, some (sentinel validation)), closed)
        else if headers_refused r
        then ((none, some (sentinel unsupported)), closed)
        else result

    -- Client.DoTyped, for a builder that is nil or not
    unfoldable pub do_typed : Bool → Bool → World → (Option Out × Option Err) × World
    do_typed no_builder wanted w =
        if no_builder then ((none, some (sentinel validation)), w) else sent wanted (t.build w)

  -- A value that names no major, or this one.
  abbrev pub IsCompatible : Bytes → Type 0
  IsCompatible v =
      (t.compatible_with v ≡ none)
      ⊎ ((t.compatible_with v ≡ some [])
          ⊎ ((p : Bytes) × (n : ℤ) × (t.compatible_with v ≡ some p)
              × (atoi p ≡ some n)
              × (eq_ℤ n major ≡ true)))

  value-IsCompatible :
      (v : Bytes) → value_refused (t.compatible_with v) major ≡ false → IsCompatible v
  unfolding is_empty
  value-IsCompatible v h = of_parameter (t.compatible_with v) refl h
    where
      of_number :
          (p : Bytes) (o : Option ℤ)
          → t.compatible_with v ≡ some p
          → atoi p ≡ o
          → other_major o major ≡ false
          → IsCompatible v
      of_number p none e f h = cc
      of_number p (some n) e f h = inr (inr (p, n, e, f, ground arith))

      of_parameter :
          (o : Option Bytes)
          → t.compatible_with v ≡ o
          → value_refused o major ≡ false
          → IsCompatible v
      of_parameter none e h = inl e
      of_parameter (some []) e h = inr (inl e)
      of_parameter (some (c ∷ p)) e h = of_number (c ∷ p) (atoi (c ∷ p)) e refl h

  any_refused-IsCompatible : (vs : List Bytes) → any_refused vs ≡ false → All IsCompatible vs
  unfolding any_refused
  any_refused-IsCompatible [] h = tt
  any_refused-IsCompatible (v ∷ vs) h =
      (value-IsCompatible v (ground arith), any_refused-IsCompatible vs (ground arith))

  -- A request for the configured cluster that names no other major.
  abbrev pub IsLocal : Request → Type 0
  IsLocal r =
      (r.host ≡ [])
      × (r.has_user ≡ false)
      × All IsCompatible (split b',' r.accept)
      × All IsCompatible (split b',' r.content_type)

  request-IsLocal :
      (r : Request)
      → (not (is_empty r.host) || r.has_user) ≡ false
      → headers_refused r ≡ false
      → IsLocal r
  unfolding headers_refused is_empty
  request-IsLocal r h k = (
    ground (arith),
    ground arith,
    any_refused-IsCompatible (split b',' r.accept) (ground arith),
    any_refused-IsCompatible (split b',' r.content_type) (ground arith),
  )

  module _ {Out : Type 0} (h : Http World) (j : Json) (d : Decoder Out) (limit : ℕ) where
    -- Nothing is sent: the world is the one after the builder, in which at most the body of a
    -- request is closed.
    abbrev pub IsRefused : (Option Out × Option Err) × World → World → Type 0
    IsRefused out w =
        (e : Err) × (out.0 ≡ (none, some e))
        × ((out.1 ≡ w) ⊎ ((r : Request) × (out.1 ≡ t.close_request r w)))

    -- A local request of the builder is sent.
    abbrev pub IsSent :
        (Option Out × Option Err) × World → (Option Request × Option Err) × World → Bool → Type 0
    IsSent out built wanted =
        (r : Request) × (built.0 ≡ (some r, none))
        × IsLocal r
        × (out ≡ perform h j d limit wanted r (built.1))

    sent-IsLocal :
        (wanted : Bool) (built : (Option Request × Option Err) × World)
        → IsRefused (sent h j d limit wanted built) (built.1)
          ⊎ IsSent (sent h j d limit wanted built) built wanted
    sent-IsLocal wanted ((r, some e), w) = inl (e, refl, inl refl)
    sent-IsLocal wanted ((none, none), w) = inl (sentinel validation, refl, inl refl)
    sent-IsLocal wanted ((some r, none), w) =
        elim (Bool-cases (not (is_empty r.host) || r.has_user)) [
          | inl a ↦ rw a (inl (sentinel validation, refl, inr (r, refl)))
          | inr a ↦ elim (Bool-cases (headers_refused r)) [
            | inl b ↦ rw (a, b) (inl (sentinel unsupported, refl, inr (r, refl)))
            | inr b ↦ rw (a, b) (inr (r, refl, request-IsLocal r a b, refl))
          ]
        ]

    -- DoTyped either returns an error and sends nothing, or sends the request of the builder, which
    -- is one for the configured cluster, and each value of whose headers names no major, or that of
    -- the server.
    pub do_typed-IsLocal :
        (no_builder wanted : Bool) (w : World)
        → ((e : Err) × (do_typed h j d limit no_builder wanted w ≡ ((none, some e), w)))
          ⊎ (IsRefused (do_typed h j d limit no_builder wanted w) ((t.build w).1)
              ⊎ IsSent (do_typed h j d limit no_builder wanted w) (t.build w) wanted)
    unfolding do_typed
    do_typed-IsLocal true wanted w = inl (sentinel validation, refl)
    do_typed-IsLocal false wanted w = inr (sent-IsLocal wanted (t.build w))
