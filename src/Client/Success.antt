-- ===== src/Client/Success.antt =====
-- When perform returns no error, and what error it returns for an answer with another status.
use mathlib.Core.Path.{subst}
use esodm.Prelude.{
  ℕ, suc, zero, ◌+◌, ◌≡◌, ◌≢◌, ◌≤◌, ◌<◌, ◌↔◌, ◌⊎◌, inl, inr, refl, ap, sym, Bool, true, false,
  Option, none, some, List, [], ◌∷◌, Bytes, text, bytes_eq_iff, is_empty, length, take, arith,
}
use esodm.Error.{Err, sentinel, response_too_large}
use esodm.Client.{
  Request, Body, Response, Http, Json, Decoder, read_limited, received, decoded, is_success,
}
use esodm.Client.Perform.{read_all, exchanged, perform, begun}

some-none : {o : Option Err} {e : Err} → o ≡ some e → o ≡ none → ⊥
some-none p q = cc

length-take_short : {A : Type 0} (n : ℕ) (xs : List A) → n ≤ length xs → length (take n xs) ≡ n
length-take_short zero xs h = refl
length-take_short (suc n) [] h = omega arith
length-take_short (suc n) (x ∷ xs) h = ap suc (length-take_short n xs (omega arith))

read_limited-within :
    (b : Body) (limit : ℕ)
    → length b.content ≤ limit
    → read_limited b (limit + 1) ≡ (b.content, b.failure)
unfolding read_limited
read_limited-within b limit h = ground arith

read_limited-beyond :
    (b : Body) (limit : ℕ)
    → limit < length b.content
    → read_limited b (limit + 1) ≡ (take (limit + 1) b.content, none)
unfolding read_limited
read_limited-beyond b limit h = ground arith

module _ {World Out : Type 0} (h : Http World) (j : Json) (d : Decoder Out) (limit : ℕ) where
  -- The content is not decoded, or it is one value and nothing after it.
  abbrev pub IsRead : Bool → Bytes → Bytes → Type 0
  IsRead wanted method content =
      (wanted ≡ false)
      ⊎ ((method ≡ text "HEAD")
          ⊎ ((content ≢ []) × ((d.decode content).1 ≡ none) × (d.at_end content ≡ true)))

  -- The answer is a response that is read whole within the limit, with a status of 200 to 299, and
  -- its content is read as asked.
  abbrev pub IsAnswered : Bool → Bytes → Option Response × Option Err → Type 0
  IsAnswered wanted method answer =
      (r : Response) × (b : Body) × (answer ≡ (some r, none))
      × (r.body ≡ some b)
      × (b.failure ≡ none)
      × (length b.content ≤ limit)
      × (200 ≤ r.status)
      × (r.status < 300)
      × IsRead wanted method b.content

  decoded-ends :
      (content : Bytes)
      → ((decoded d (d.decode content) content).1 ≡ none)
        ↔ (((d.decode content).1 ≡ none) × (d.at_end content ≡ true))
  decoded-ends content = ends (d.decode content)
    where
      ends :
          (r : Out × Option Err)
          → ((decoded d r content).1 ≡ none) ↔ ((r.1 ≡ none) × (d.at_end content ≡ true))
      ends (v, some e) = ((λ p. cc), (λ p. cc))
      ends (v, none) = ground arith

  received-IsRead :
      (wanted : Bool) (method : Bytes) (status : ℕ) (content : Bytes)
      → length content ≤ limit
      → ((received j d limit wanted method status (content, none)).1 ≡ none)
        ↔ ((200 ≤ status) × (status < 300) × IsRead wanted method content)
  unfolding received is_success is_empty
  received-IsRead false method status content l = ground arith
  received-IsRead true method status [] l = ground (arith, bytes_eq_iff method (text "HEAD"))
  received-IsRead true method status (c ∷ s) l =
      ground (arith, bytes_eq_iff method (text "HEAD"), decoded-ends (c ∷ s))

  received-large :
      (content : Bytes) (wanted : Bool) (method : Bytes) (status : ℕ)
      → limit < length content
      → (received j d limit wanted method status (content, none)).1
        ≡ some (sentinel response_too_large)
  unfolding received
  received-large content wanted method status l = ground arith

  -- The outcome for a body depends on its content within the limit.
  received-IsAnswered :
      (wanted : Bool) (method : Bytes) (status : ℕ) (b : Body)
      → ((received j d limit wanted method status (read_limited b (limit + 1))).1 ≡ none) ↔ (
          (b.failure ≡ none)
          × (length b.content ≤ limit)
          × (200 ≤ status)
          × (status < 300)
          × IsRead wanted method b.content)
  unfolding received
  received-IsAnswered wanted method status b = elim (le_or_lt (length b.content) limit) [
    | inl l ↦ rw (read_limited-within b limit l) (within b.failure l)
    | inr l ↦ rw (read_limited-beyond b limit l) (beyond l)
  ]
    where
      le_or_lt : (m n : ℕ) → (m ≤ n) ⊎ (n < m)
      le_or_lt m n = ground arith

      within :
          (f : Option Err)
          → length b.content ≤ limit
          → ((received j d limit wanted method status (b.content, f)).1 ≡ none) ↔ (
              (f ≡ none)
              × (length b.content ≤ limit)
              × (200 ≤ status)
              × (status < 300)
              × IsRead wanted method b.content)
      within (some e) l = ((λ p. cc), (λ p. cc))
      within none l =
          let k = received-IsRead wanted method status b.content l in
          ((λ p. let q = k.0 p in (refl, l, q.0, q.1, q.2)), (λ p. k.1 (p.2, p.3, p.4)))

      lt_le : limit < length b.content → length b.content ≤ limit → ⊥
      lt_le l m = omega arith

      large : limit < length b.content → limit < length (take (limit + 1) b.content)
      large l = rw (length-take_short (limit + 1) b.content (omega arith)) (omega arith)

      beyond :
          limit < length b.content
          → ((received j d limit wanted method status (take (limit + 1) b.content, none)).1 ≡ none)
            ↔ ((b.failure ≡ none)
                × (length b.content ≤ limit)
                × (200 ≤ status)
                × (status < 300)
                × IsRead wanted method b.content)
      beyond l = (
        (λ p. absurd (
            some-none (received-large (take (limit + 1) b.content) wanted method status (large l))
              p)),
        (λ p. absurd (lt_le l (p.1))),
      )

  -- What IsAnswered says of a response.
  abbrev pub IsGood : Bool → Bytes → Response → Type 0
  IsGood wanted method r =
      (b : Body) × (r.body ≡ some b)
      × (b.failure ≡ none)
      × (length b.content ≤ limit)
      × (200 ≤ r.status)
      × (r.status < 300)
      × IsRead wanted method b.content

  IsAnswered-IsGood :
      (wanted : Bool) (method : Bytes) (r : Response)
      → IsAnswered wanted method (some r, none)
      → IsGood wanted method r
  IsAnswered-IsGood wanted method r (r', b, e, f, g, g1, g2, g3, g4) =
      subst (IsGood wanted method) (sym (same_response e)) (b, f, g, g1, g2, g3, g4)
    where
      same_response : ◌≡◌ {A = Option Response × Option Err} (some r, none) (some r', none) → r ≡ r'
      same_response e = cc

  read_all-IsGood :
      (wanted : Bool) (method : Bytes) (status : ℕ) (o : Option Body) (w : World)
      → ((read_all h j d limit wanted method status o w).0.error ≡ none)
        ↔ IsGood wanted method (record { status = status; body = o })
  read_all-IsGood wanted method status none w = ((λ p. cc), (λ p. absurd (none-some (p.0) (p.1))))
    where
      none-some : (b : Body) → none ≡ some b → ⊥
      none-some b p = cc
  read_all-IsGood wanted method status (some b) w = (
    (λ p.
        let k = (received-IsAnswered wanted method status b).0 p in
        (b, refl, k.0, k.1, k.2, k.3, k.4)),
    (λ p. backward (p.0) (same_body (p.0) (p.1)) (p.2, p.3, p.4, p.5, p.6)),
  )
    where
      same_body : (b' : Body) → some b ≡ some b' → b ≡ b'
      same_body b' e = cc

      backward :
          (b' : Body)
          → b ≡ b'
          → (b'.failure ≡ none)
            × (length b'.content ≤ limit)
            × (200 ≤ status)
            × (status < 300)
            × IsRead wanted method b'.content
          → (received j d limit wanted method status (read_limited b (limit + 1))).1 ≡ none
      backward b' e f = (received-IsAnswered wanted method status b).1 (rw e f)

  exchanged-IsAnswered :
      (wanted : Bool) (method : Bytes) (a : (Option Response × Option Err) × World)
      → ((exchanged h j d limit wanted method a).0.error ≡ none) ↔ IsAnswered wanted method (a.0)
  unfolding exchanged
  exchanged-IsAnswered wanted method ((none, some e), w) = ((λ p. cc), (λ p. cc))
  exchanged-IsAnswered wanted method ((some r, some e), w) = ((λ p. cc), (λ p. cc))
  exchanged-IsAnswered wanted method ((none, none), w) = ((λ p. cc), (λ p. cc))
  exchanged-IsAnswered wanted method ((some r, none), w) =
      let k = read_all-IsGood wanted method r.status r.body w in
      (
        (λ p. let g = k.0 p in (r, g.0, refl, g.1, g.2, g.3, g.4, g.5, g.6)),
        (λ p. k.1 (IsAnswered-IsGood wanted method r p)),
      )

  -- Perform returns no error exactly when the transport answers without an error with a response
  -- that is read whole within the limit, its status is 200 to 299, and its content is not asked
  -- for, or is one JSON value with nothing after it.
  pub perform-IsAnswered :
      (wanted : Bool) (r : Request) (w : World)
      → ((perform h j d limit wanted r w).0.1 ≡ none)
        ↔ IsAnswered wanted r.method (h.perform r (begun h j d limit r h.instrumentation w)).0
  unfolding perform
  perform-IsAnswered wanted r w =
      exchanged-IsAnswered wanted r.method (h.perform r (begun h j d limit r h.instrumentation w))
