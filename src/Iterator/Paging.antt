-- ===== src/Iterator/Paging.antt =====
-- iterator.go: Each, and the hits that an iterator delivers.
use esodm.Prelude.{
  ℕ, zero, suc, ◌<◌, ◌≡◌, refl, ◌∙◌, ap, Bool, true, false, Option, none, some, List, [], ◌∷◌, ◌++◌,
  Bytes, bytes_eq, leb, length, get_elem?, if◌then◌else◌, arith, Bool-cases, inl, inr,
}
use esodm.Iterator.{
  Iterator, Hit, Server, close, stop, turn, turned, receive, renew, renewed, fetch, advance, next,
  emit, last_sort,
}

module _ {Doc : Type 0} (s : Server Doc) where
  abbrev pub Delivery : Type 0
  Delivery = Option (List (Hit Doc) × Iterator Doc × s.World)

  -- A hit in front of the later ones.
  abbrev pub yield : Option (Hit Doc) → Delivery → Delivery
  yield (some hit) (some (hits, it, w)) = some (hit ∷ hits, it, w)
  yield _ rest = rest

  abbrev pub ended : Iterator Doc × s.World → Delivery
  ended (it, w) = some ([], it, w)

  -- Iterator.Each for a consumer that takes every hit; the error it yields last is that of the
  -- iterator it leaves. The server decides how many hits there are, so the fuel is the number of
  -- calls of Next; `none` means that hits are left after them.
  unfoldable pub each : ℕ → Iterator Doc → s.World → Delivery
  each zero it w = none
  each (suc n) it w =
      let ((more, it'), w') = next s it w in
      let rest = each n it' w' in if more then yield it'.current rest else ended (close s it' w')

  abbrev drop : ℕ → List (Hit Doc) → List (Hit Doc)
  drop zero hits = hits
  drop (suc n) [] = []
  drop (suc n) (x ∷ xs) = drop n xs

  abbrev pub pages_hits : List (List (Hit Doc)) → List (Hit Doc)
  pages_hits [] = []
  pages_hits (page ∷ pages) = page ++ pages_hits pages

  -- The server answers the searches from here on with these pages and then with an empty one.
  -- Each search takes the point in time of the last answer and the sort values of its last hit.
  pub data Serves : Bytes → List Bytes → Bool → s.World → List (List (Hit Doc)) → Type 0 where
    last_page :
        {pit new : Bytes} {after : List Bytes} {started : Bool} {w w' : s.World}
        → s.search pit (if started then some after else none) w ≡ (((new, []), none), w')
        → Serves pit after started w []
    page :
        {pit new v : Bytes} {after vs : List Bytes} {started : Bool} {w w' : s.World}
        {hit : Hit Doc} {rest : List (Hit Doc)} {pages : List (List (Hit Doc))}
        → s.search pit (if started then some after else none) w ≡ (((new, hit ∷ rest), none), w')
        → last_sort hit rest ≡ v ∷ vs
        → bytes_eq (s.marshal after) (s.marshal (v ∷ vs)) ≡ false
        → s.ctx_err w' ≡ none
        → Serves (renew new pit) (v ∷ vs) true w' pages
        → Serves pit after started w ((hit ∷ rest) ∷ pages)

  drop-nil : (n : ℕ) (l : List (Hit Doc)) → drop n l ≡ [] → leb (length l) n ≡ true
  drop-nil zero [] e = refl
  drop-nil zero (x ∷ xs) e = cc
  drop-nil (suc n) [] e = ground arith
  drop-nil (suc n) (x ∷ xs) e = ground (arith, drop-nil n xs e)

  drop-cons :
      (n : ℕ) (l : List (Hit Doc)) (x : Hit Doc) (xs : List (Hit Doc))
      → drop n l ≡ x ∷ xs
      → (leb (length l) n ≡ false) × (get_elem? l n ≡ some x) × (drop (suc n) l ≡ xs)
  drop-cons zero [] x xs e = cc
  drop-cons zero (y ∷ ys) x xs e = (ground arith, cc, cc)
  drop-cons (suc n) [] x xs e = cc
  drop-cons (suc n) (y ∷ ys) x xs e =
      let r = drop-cons n ys x xs e in (ground (arith, r.0), r.1, r.2)

  -- Every hit of the list is delivered, and the iterator is closed.
  abbrev pub Delivers : ℕ → Iterator Doc → s.World → List (Hit Doc) → Type 0
  Delivers n it w hits =
      (it' : Iterator Doc) × (w' : s.World) × (each n it w ≡ some (hits, it', w'))
      × (it'.closed ≡ true)

  each-more :
      (n : ℕ) (it it' : Iterator Doc) (w w' : s.World) (x : Hit Doc) (hits : List (Hit Doc))
      → next s it w ≡ ((true, it'), w')
      → it'.current ≡ some x
      → Delivers n it' w' hits
      → Delivers (suc n) it w (x ∷ hits)
  unfolding each
  each-more n it it' w w' x hits e c (it2, w2, p, q) = (it2, w2, simp (e, c, p), q)

  close-closed : (it : Iterator Doc) (w : s.World) → it.closed ≡ true → close s it w ≡ (it, w)
  unfolding close
  close-closed it w c = rw c refl

  each-stopped :
      (n : ℕ) (it it' : Iterator Doc) (w w' : s.World)
      → next s it w ≡ ((false, it'), w')
      → it'.closed ≡ true
      → Delivers (suc n) it w []
  unfolding each
  each-stopped n it it' w w' e c = (it', w', rw (e, close-closed it' w' c) refl, c)

  next-within :
      (it : Iterator Doc) (w : s.World)
      → it.closed ≡ false
      → it.error ≡ none
      → s.ctx_err w ≡ none
      → leb (length it.page) it.position ≡ false
      → next s it w ≡ ((true, emit it), w)
  unfolding next advance
  next-within it w c e x l = simp (c, e, x, l)

  next-fetch :
      (it : Iterator Doc) (w : s.World)
      → it.closed ≡ false
      → it.error ≡ none
      → s.ctx_err w ≡ none
      → leb (length it.page) it.position ≡ true
      → next s it w ≡ fetch s it w
  unfolding next advance
  next-fetch it w c e x l = simp (c, e, x, l)

  released-closed : (it : Iterator Doc) (w : s.World) → ((close s it w).0).closed ≡ true
  unfolding close
  released-closed it w = elim (Bool-cases it.closed) [ inl c ↦ simp c | inr c ↦ simp c ]

  -- The search after the last page ends the loop.
  fetch-last :
      (it : Iterator Doc) (new : Bytes) (w w' : s.World)
      → s.search it.pit (if it.started then some it.after else none) w ≡ (((new, []), none), w')
      → fetch s it w ≡ stop s (turned [] (renewed new it)) w'
  unfolding receive turn
  fetch-last it new w w' e = simp e

  turn-page :
      (it : Iterator Doc) (v : Bytes) (vs : List Bytes) (hit : Hit Doc) (rest : List (Hit Doc))
      (w : s.World)
      → last_sort hit rest ≡ v ∷ vs
      → bytes_eq (s.marshal it.after) (s.marshal (v ∷ vs)) ≡ false
      → turn s (hit ∷ rest) it w
        ≡ ((true, emit (record (turned (hit ∷ rest) it) { after = v ∷ vs })), w)
  unfolding turn
  turn-page it v vs hit rest w l b = rw (turn, l, b) refl

  -- A page with sort values that advance is delivered from its first hit on.
  fetch-page :
      (it : Iterator Doc) (new v : Bytes) (vs : List Bytes) (hit : Hit Doc) (rest : List (Hit Doc))
      (w w' : s.World)
      → s.search it.pit (if it.started then some it.after else none) w
        ≡ (((new, hit ∷ rest), none), w')
      → last_sort hit rest ≡ v ∷ vs
      → bytes_eq (s.marshal it.after) (s.marshal (v ∷ vs)) ≡ false
      → fetch s it w
        ≡ ((true, emit (record (turned (hit ∷ rest) (renewed new it)) { after = v ∷ vs })), w')
  unfolding receive
  fetch-page it new v vs hit rest w w' e l b =
      ap (receive s it) e ∙ turn-page (renewed new it) v vs hit rest w' l b

  -- If an iterator is open without an error, its context is not done and the server goes on to
  -- serve some pages, then Each with fuel for every hit delivers what is left of the current page
  -- and every hit of those pages in order, and leaves the iterator closed.
  pub each-Delivers :
      (n : ℕ) (it : Iterator Doc) (w : s.World) (left : List (Hit Doc))
      (pages : List (List (Hit Doc)))
      → it.closed ≡ false
      → it.error ≡ none
      → s.ctx_err w ≡ none
      → drop it.position it.page ≡ left
      → Serves it.pit it.after it.started w pages
      → length (left ++ pages_hits pages) < n
      → Delivers n it w (left ++ pages_hits pages)
  each-Delivers zero it w left pages c e x d v f = elim f [ ]
  each-Delivers (suc n) it w (hit ∷ left) pages c e x d v f =
      let r = drop-cons it.position it.page hit left d in
      each-more n it (emit it) w w hit (left ++ pages_hits pages) (next-within it w c e x r.0) r.1
        (each-Delivers n (emit it) w left pages c e x r.2 v (omega arith))
  each-Delivers (suc n) it w [] [] c e x d (last_page {new = new} {w' = w'} q) f =
      each-stopped n it _ w _
        (next-fetch it w c e x (drop-nil it.position it.page d) ∙ fetch-last it new w w' q)
        (released-closed (turned [] (renewed new it)) w')
  each-Delivers (suc n) it w [] (_ ∷ _) c e x d
        (page {new = new} {v = v} {vs = vs} {w' = w'} {hit = hit} {rest = rest} {pages = pages} q l
          b y r)
        f =
      each-more n it _ w w' hit (rest ++ pages_hits pages)
        (next-fetch it w c e x (drop-nil it.position it.page d)
          ∙ fetch-page it new v vs hit rest w w' q l b)
        refl
        (each-Delivers n (emit (record (turned (hit ∷ rest) (renewed new it)) { after = v ∷ vs }))
          w' rest pages c e y refl r (omega arith))
