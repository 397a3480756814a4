-- ===== src/Iterator/Ownership.antt =====
-- iterator.go: an iterator releases its point in time once, whatever is called on it.
use esodm.Prelude.{
  ℕ, suc, ◌≡◌, refl, ◌∙◌, ap, ◌⊎◌, inl, inr, Bool, true, false, Option, none, some, List, [], ◌∷◌,
  Bytes, bytes_eq, leb, length, Bool-cases, Option-cases,
}
use esodm.Error.{Err, message}
use esodm.Iterator.{
  Iterator, Hit, Server, close, released, stop, turn, turned, receive, renewed, advance, next, fail,
  last_sort,
}

-- The number of requests that release a point in time; a search is none.
pub record CountsReleases {Doc : Type 0} (s : Server Doc) (deletes : s.World → ℕ) : Type 0 where
  pub by_search :
      (pit : Bytes) (after : Option (List Bytes)) (w : s.World)
      → deletes ((s.search pit after w).1) ≡ deletes w
  pub by_delete : (pit : Bytes) (w : s.World) → deletes ((s.delete_pit pit w).1) ≡ suc (deletes w)

module _ {Doc : Type 0} (s : Server Doc) (deletes : s.World → ℕ)
    (h : CountsReleases s deletes) where
  -- Open without an error and not released, or closed and released once.
  abbrev pub IsOpen : ℕ → Iterator Doc → s.World → Type 0
  IsOpen n it w = (it.closed ≡ false) × (it.error ≡ none) × (deletes w ≡ n)

  abbrev pub IsReleased : ℕ → Iterator Doc → s.World → Type 0
  IsReleased n it w = (it.closed ≡ true) × (deletes w ≡ suc n)

  abbrev pub Owned : ℕ → Iterator Doc → s.World → Type 0
  Owned n it w = IsOpen n it w ⊎ IsReleased n it w

  -- What Next leaves: a hit of an open iterator, or the end of a released one.
  abbrev pub Advanced : ℕ → (Bool × Iterator Doc) × s.World → Type 0
  Advanced n out =
      ((out.0.0 ≡ true) × IsOpen n (out.0.1) (out.1))
      ⊎ ((out.0.0 ≡ false) × IsReleased n (out.0.1) (out.1))

  released-IsReleased :
      (n : ℕ) (it : Iterator Doc) (out : Option Err × s.World)
      → deletes (out.1) ≡ suc n
      → IsReleased n ((released s it out).0) ((released s it out).1)
  released-IsReleased n it (e, w) p = (refl, p)

  close-IsReleased :
      (n : ℕ) (it : Iterator Doc) (w : s.World)
      → it.closed ≡ false
      → deletes w ≡ n
      → IsReleased n ((close s it w).0) ((close s it w).1)
  unfolding close
  close-IsReleased n it w c p =
      rw c (released-IsReleased n it (s.delete_pit it.pit w) (h.by_delete it.pit w ∙ ap suc p))

  pub close-Owned :
      (n : ℕ) (it : Iterator Doc) (w : s.World)
      → Owned n it w
      → IsReleased n ((close s it w).0) ((close s it w).1)
  unfolding close
  close-Owned n it w (inl q) = close-IsReleased n it w (q.0) (q.2)
  close-Owned n it w (inr q) = rw (q.0) (refl, q.1)

  stop-Advanced :
      (n : ℕ) (it : Iterator Doc) (w : s.World)
      → it.closed ≡ false
      → deletes w ≡ n
      → Advanced n (stop s it w)
  stop-Advanced n it w c p = inr (refl, close-IsReleased n it w c p)

  turn-Advanced :
      (n : ℕ) (hits : List (Hit Doc)) (it : Iterator Doc) (w : s.World)
      → IsOpen n it w
      → Advanced n (turn s hits it w)
  unfolding turn
  turn-Advanced n [] it w q = stop-Advanced n (turned [] it) w (q.0) (q.2)
  turn-Advanced n (hit ∷ rest) it w q = after_last (last_sort hit rest) refl
    where
      after_last : (l : List Bytes) → last_sort hit rest ≡ l → Advanced n (turn s (hit ∷ rest) it w)
      after_last [] e =
          rw (turn, e) (stop-Advanced n (fail message (turned (hit ∷ rest) it)) w (q.0) (q.2))
      after_last (v ∷ vs) e =
          elim (Bool-cases (bytes_eq (s.marshal it.after) (s.marshal (v ∷ vs)))) [
            | inl b ↦
                rw (turn, e, b)
                  (stop-Advanced n (fail message (turned (hit ∷ rest) it)) w (q.0) (q.2))
            | inr b ↦ rw (turn, e, b) (inl (refl, q))
          ]

  renewed-IsOpen :
      (n : ℕ) (pit : Bytes) (it : Iterator Doc) (w : s.World)
      → IsOpen n it w
      → IsOpen n (renewed pit it) w
  renewed-IsOpen n [] it w q = q
  renewed-IsOpen n (c ∷ pit) it w q = q

  receive-Advanced :
      (n : ℕ) (it : Iterator Doc) (out : ((Bytes × List (Hit Doc)) × Option Err) × s.World)
      → IsOpen n it (out.1)
      → Advanced n (receive s it out)
  unfolding receive
  receive-Advanced n it (((pit, hits), some e), w) q =
      let o = renewed-IsOpen n pit it w q in stop-Advanced n (fail e (renewed pit it)) w (o.0) (o.2)
  receive-Advanced n it (((pit, hits), none), w) q =
      turn-Advanced n hits (renewed pit it) w (renewed-IsOpen n pit it w q)

  advance-Advanced :
      (n : ℕ) (it : Iterator Doc) (w : s.World) → IsOpen n it w → Advanced n (advance s it w)
  unfolding advance
  advance-Advanced n it w q = elim (Bool-cases (leb (length it.page) it.position)) [
    | inl b ↦
        rw b (receive-Advanced n it (s.search it.pit _ w) (q.0, q.1, h.by_search it.pit _ w ∙ q.2))
    | inr b ↦ rw b (inl (refl, q))
  ]

  -- If an iterator is open without an error and not released, or closed and released once, Next
  -- returns true and leaves it open and not released, or false and leaves it released once.
  pub next-Advanced :
      (n : ℕ) (it : Iterator Doc) (w : s.World) → Owned n it w → Advanced n (next s it w)
  unfolding next
  next-Advanced n it w (inr q) = rw (q.0) (inr (refl, (refl, q.1)))
  next-Advanced n it w (inl q) = elim (Option-cases (s.ctx_err w)) [
    | inl e ↦ rw (q.0, q.1, e) (advance-Advanced n it w q)
    | inr (x, e) ↦ rw (q.0, q.1, e) (stop-Advanced n (fail x it) w (q.0) (q.2))
  ]

  -- The calls that move an iterator.
  pub data Call : Type 0 where
    next_call close_call : Call

  abbrev pub after_next : (Bool × Iterator Doc) × s.World → Iterator Doc × s.World
  after_next ((more, it), w) = (it, w)

  abbrev pub call : Call → Iterator Doc → s.World → Iterator Doc × s.World
  call next_call it w = after_next (next s it w)
  call close_call it w = close s it w

  -- A sequence of calls.
  unfoldable pub run : List Call → Iterator Doc → s.World → Iterator Doc × s.World
  run [] it w = (it, w)
  run (c ∷ cs) it w = run cs ((call c it w).0) ((call c it w).1)

  after_next-Owned :
      (n : ℕ) (out : (Bool × Iterator Doc) × s.World)
      → Advanced n out
      → Owned n ((after_next out).0) ((after_next out).1)
  after_next-Owned n ((more, it), w) (inl q) = inl (q.1)
  after_next-Owned n ((more, it), w) (inr q) = inr (q.1)

  call-Owned :
      (n : ℕ) (c : Call) (it : Iterator Doc) (w : s.World)
      → Owned n it w
      → Owned n ((call c it w).0) ((call c it w).1)
  call-Owned n next_call it w q = after_next-Owned n (next s it w) (next-Advanced n it w q)
  call-Owned n close_call it w q = inr (close-Owned n it w q)

  -- If an iterator is open without an error and not released, or closed and released once, the same
  -- holds after every sequence of calls of Next and Close.
  pub run-Owned :
      (n : ℕ) (calls : List Call) (it : Iterator Doc) (w : s.World)
      → Owned n it w
      → Owned n ((run calls it w).0) ((run calls it w).1)
  unfolding run
  run-Owned n [] it w q = q
  run-Owned n (c ∷ cs) it w q = run-Owned n cs _ _ (call-Owned n c it w q)
