-- ===== src/Relations/Graph/Bounds.antt =====
-- relations.go: Preload stays in its bounds and in what the roots reach.
use mathlib.Core.Path.{subst}
use esodm.Prelude.{
  ℕ, zero, suc, ◌+◌, ◌≤◌, ◌≡◌, refl, sym, ◌∙◌, ap, true, false, ◌||◌, ◌&&◌, Option, List, [], ◌∷◌,
  ◌++◌, map, length, length-append, append_assoc, length-map, ltb, arith, Bool-cases, Option-cases,
  List-cases, inl, inr, pos_part,
}
use esodm.Error.{Err, Result, ok, err}
use esodm.Read.{no_options}
use esodm.Relations.{Ref, ReferenceResult, MgetDoc, ref_eq, Reader, reference_result, load_with}
use esodm.Relations.Lookup.{ref_eq_iff, ref_eq_refl, contains, contains-append, Distinct}
use esodm.Relations.Order.{load_with-map}
use esodm.Relations.Graph.{
  Graph, PreloadOptions, documents_of, depth_of, bad_options, fresh, no_error, children_of,
  extended, walk_on, walk, preload, empty_graph, Walk,
}

-- New references are distinct, were not seen, and are seen afterwards.
record Fresh (seen batch seen' : List Ref) (pending : List Ref) : Type 0 where
  distinct : Distinct batch
  unseen : (q : Ref) → contains batch q ≡ true → contains seen q ≡ false
  seen_now : (q : Ref) → contains seen' q ≡ (contains seen q || contains batch q)
  from : (q : Ref) → contains batch q ≡ true → contains pending q ≡ true

fresh-Fresh :
    (seen pending : List Ref) → Fresh seen ((fresh seen pending).0) ((fresh seen pending).1) pending
unfolding fresh contains
fresh-Fresh seen [] = record {
  distinct = tt;
  unseen = λ q h. cc;
  seen_now = λ q. ground arith;
  from = λ q h. h;
}
fresh-Fresh seen (r ∷ pending) = elim (Bool-cases (contains seen r)) [
  | inl e ↦
      let f = fresh-Fresh seen pending in
      rw e (record {
        distinct = f.distinct;
        unseen = f.unseen;
        seen_now = f.seen_now;
        from = λ q h. ground (arith, f.from q h);
      })
  | inr e ↦
      let f = fresh-Fresh (r ∷ seen) pending in
      rw e (record {
        distinct = (ground (arith, f.unseen r, ref_eq_refl r), f.distinct);
        unseen = λ q h. ground (arith, f.unseen q, same q);
        seen_now = λ q. ground (arith, f.seen_now q);
        from = λ q h. ground (arith, f.from q);
      })
]
  where
    same : (q : Ref) → ref_eq r q ≡ true → contains seen q ≡ contains seen r
    same q h = ap (contains seen) (sym ((ref_eq_iff r q).0 h))

module _ {Doc : Type 0} (c : Reader Doc) (ctx_err : c.World → Option Err)
    (children : Doc → List Ref) where
  abbrev pub refs_of : List (ReferenceResult Doc) → List Ref
  refs_of = map (λ (x : ReferenceResult Doc). x.ref)

  reference_result-ref : (r : Ref) (d : MgetDoc Doc) → (reference_result c r d).ref ≡ r
  unfolding reference_result
  reference_result-ref r d = refl

  same_refs :
      (result : Ref → ReferenceResult Doc) (rs : List Ref)
      → ((r : Ref) → contains rs r ≡ true → (result r).ref ≡ r)
      → refs_of (map result rs) ≡ rs
  unfolding contains
  same_refs result [] h = refl
  same_refs result (r ∷ rs) h =
      λ i. h r (ground (arith, ref_eq_refl r)) i ∷ same_refs result rs (λ q m. h q (ground arith)) i

  -- Loaded results carry their references.
  load_with-refs :
      (refs : List Ref) (w w' : c.World) (out : List (ReferenceResult Doc))
      → load_with c refs no_options w ≡ (ok out, w')
      → refs_of out ≡ refs
  load_with-refs refs w w' out h =
      let (result, e, d) = load_with-map c refs no_options w w' out h in
      ap refs_of e
      ∙ same_refs result refs (λ r m.
        let (a, _, q) = d r m in
        ap (λ (x : ReferenceResult Doc). x.ref) q ∙ reference_result-ref r a)

  children_of-append :
      (xs ys : List (ReferenceResult Doc))
      → children_of c ctx_err children (xs ++ ys)
        ≡ children_of c ctx_err children xs ++ children_of c ctx_err children ys
  unfolding children_of
  children_of-append [] ys = refl
  children_of-append (x ∷ xs) ys = elim (Bool-cases (no_error x.error && x.found)) [
    | inl e ↦
        rw (e, children_of-append xs ys)
          (sym (
            append_assoc (children x.hit.source) (children_of c ctx_err children xs)
              (children_of c ctx_err children ys)))
    | inr e ↦ rw e (children_of-append xs ys)
  ]

  -- What holds of a graph at the head of the loop and at its end.
  pub record IsSound (roots : List Ref) (limit : ℕ) (g : Graph Doc) : Type 0 where
    pub distinct : Distinct (refs_of g.nodes)
    pub within : length g.nodes ≤ limit
    pub reached :
        (q : Ref)
        → contains (refs_of g.nodes) q ≡ true
        → (contains roots q || contains (children_of c ctx_err children g.nodes) q) ≡ true

  Distinct-append :
      (xs ys : List Ref)
      → Distinct xs
      → Distinct ys
      → ((q : Ref) → contains ys q ≡ true → contains xs q ≡ false)
      → Distinct (xs ++ ys)
  unfolding contains
  Distinct-append [] ys a b h = b
  Distinct-append (x ∷ xs) ys a b h = (
    ground (arith, contains-append xs ys x, h x, ref_eq_refl x, a.0),
    Distinct-append xs ys a.1 b (λ q m. ground (arith, h q m)),
  )

  map-append-refs :
      (xs ys : List (ReferenceResult Doc)) → refs_of (xs ++ ys) ≡ refs_of xs ++ refs_of ys
  map-append-refs [] ys = refl
  map-append-refs (x ∷ xs) ys = ap (λ l. x.ref ∷ l) (map-append-refs xs ys)

  extended-refs :
      (nodes out : List (ReferenceResult Doc)) (batch : List Ref)
      → refs_of out ≡ batch
      → refs_of (nodes ++ out) ≡ refs_of nodes ++ batch
  extended-refs nodes out batch e = map-append-refs nodes out ∙ ap (λ k. refs_of nodes ++ k) e

  contains-children_of :
      (nodes out : List (ReferenceResult Doc)) (q : Ref)
      → contains (children_of c ctx_err children (nodes ++ out)) q ≡ (
          contains (children_of c ctx_err children nodes) q
          || contains (children_of c ctx_err children out) q)
  contains-children_of nodes out q =
      ap (λ k. contains k q) (children_of-append nodes out)
      ∙ contains-append (children_of c ctx_err children nodes) (children_of c ctx_err children out)
          q

  -- A level that was loaded keeps the graph sound.
  extended-IsSound :
      (roots pending batch : List Ref) (limit : ℕ) (g : Graph Doc)
      (out : List (ReferenceResult Doc))
      → IsSound roots limit g
      → Distinct batch
      → ((q : Ref) → contains batch q ≡ true → contains (refs_of g.nodes) q ≡ false)
      → ((q : Ref)
          → contains batch q ≡ true
          → (contains roots q || contains (children_of c ctx_err children g.nodes) q) ≡ true)
      → refs_of out ≡ batch
      → length g.nodes + length batch ≤ limit
      → IsSound roots limit (extended c ctx_err children g out)
  extended-IsSound roots pending batch limit g out s d u r e l = record {
    distinct =
        subst Distinct (sym nodes_refs) (Distinct-append (refs_of g.nodes) batch s.distinct d u);
    within = omega (arith, length-append g.nodes out, length_batch, l);
    reached = λ q m. reached_later q (ap (λ k. contains k q) (sym nodes_refs) ∙ m);
  }
    where
      nodes_refs : refs_of (g.nodes ++ out) ≡ refs_of g.nodes ++ batch
      nodes_refs = extended-refs g.nodes out batch e

      length_batch : length out ≡ length batch
      length_batch = sym (length-map (λ (x : ReferenceResult Doc). x.ref) out) ∙ ap length e

      reached_later :
          (q : Ref)
          → contains (refs_of g.nodes ++ batch) q ≡ true
          → (contains roots q || contains (children_of c ctx_err children (g.nodes ++ out)) q)
            ≡ true
      reached_later q m = ground (
        arith,
        contains-append (refs_of g.nodes) batch q,
        s.reached q,
        r q,
        contains-children_of g.nodes out q,
      )

  -- What is known of the references that are pending.
  abbrev AreReached : List Ref → Graph Doc → List Ref → Type 0
  AreReached roots g pending =
      (q : Ref)
      → contains pending q ≡ true
      → (contains roots q || contains (children_of c ctx_err children g.nodes) q) ≡ true

  abbrev AreSeen : Graph Doc → List Ref → Type 0
  AreSeen g seen = (q : Ref) → contains seen q ≡ contains (refs_of g.nodes) q

  walk_on-IsSound :
      (roots pending batch seen seen' : List Ref) (limit : ℕ) (g : Graph Doc) (w : c.World)
      (next : Graph Doc → List Ref → c.World → Walk c ctx_err children)
      → IsSound roots limit g
      → Fresh seen batch seen' pending
      → AreSeen g seen
      → AreReached roots g pending
      → length g.nodes + length batch ≤ limit
      → ((g' : Graph Doc) (later : List Ref) (v : c.World)
          → IsSound roots limit g'
          → AreSeen g' seen'
          → AreReached roots g' later
          → IsSound roots limit ((next g' later v).0.0))
      → IsSound roots limit
          ((walk_on c ctx_err children next g (load_with c batch no_options w)).0.0)
  walk_on-IsSound roots pending batch seen seen' limit g w next s f a r l k =
      on_answer (load_with c batch no_options w) refl
    where
      on_results :
          (out : List (ReferenceResult Doc)) (v : c.World)
          → refs_of out ≡ batch
          → IsSound roots limit (
              (next (extended c ctx_err children g out) (children_of c ctx_err children out) v).0.0)
      on_results out v e =
          k (extended c ctx_err children g out) (children_of c ctx_err children out) v
            (extended-IsSound roots pending batch limit g out s f.distinct
              (λ q m. sym (a q) ∙ f.unseen q m) (λ q m. r q (f.from q m)) e l)
            (λ q. ground (
              arith,
              f.seen_now q,
              a q,
              contains-append (refs_of g.nodes) batch q,
              ap (λ k. contains k q) (extended-refs g.nodes out batch e),
            ))
            (λ q m. ground (arith, contains-children_of g.nodes out q))

      on_answer :
          (answer : Result (List (ReferenceResult Doc)) × c.World)
          → load_with c batch no_options w ≡ answer
          → IsSound roots limit ((walk_on c ctx_err children next g answer).0.0)
      on_answer (err e, v) q = s
      on_answer (ok out, v) q = on_results out v (load_with-refs batch w v out q)

  walk-IsSound :
      (left limit : ℕ) (roots seen : List Ref) (g : Graph Doc) (pending : List Ref) (w : c.World)
      → IsSound roots limit g
      → AreSeen g seen
      → AreReached roots g pending
      → IsSound roots limit ((walk c ctx_err children left limit seen g pending w).0.0)
  unfolding walk
  walk-IsSound left limit roots seen g [] w s a r = s
  walk-IsSound zero limit roots seen g (p ∷ pending) w s a r = elim (Option-cases (ctx_err w)) [
    | inr (e, x) ↦ rw (walk, x) s
    | inl x ↦ elim (List-cases ((fresh seen (p ∷ pending)).0)) [
      | inl n ↦ rw (walk, x, n) s
      | inr (q, qs, n) ↦
          rw (walk, x, n) (record { distinct = s.distinct; within = s.within; reached = s.reached })
    ]
  ]
  walk-IsSound (suc left) limit roots seen g (p ∷ pending) w s a r =
      elim (Option-cases (ctx_err w)) [
        | inr (e, x) ↦ rw (walk, x) s
        | inl x ↦ elim (List-cases ((fresh seen (p ∷ pending)).0)) [
          | inl n ↦ rw (walk, x, n) s
          | inr (q, qs, n) ↦ elim (Bool-cases (ltb limit (length g.nodes + length (q ∷ qs)))) [
            | inl b ↦ rw (walk, x, n, b) s
            | inr b ↦
                rw (walk, x, n, b)
                  (walk_on-IsSound roots (p ∷ pending) (q ∷ qs) seen ((fresh seen (p ∷ pending)).1)
                    limit g w (walk c ctx_err children left limit ((fresh seen (p ∷ pending)).1)) s
                    (subst (λ l. Fresh seen l ((fresh seen (p ∷ pending)).1) (p ∷ pending)) n
                      (fresh-Fresh seen (p ∷ pending)))
                    a r (ground arith)
                    (λ g' later v s' a' r'.
                      walk-IsSound left limit roots ((fresh seen (p ∷ pending)).1) g' later v s' a'
                        r'))
          ]
        ]
      ]

  nothing-IsSound :
      (roots : List Ref) (limit : ℕ) → IsSound roots limit (empty_graph c ctx_err children)
  unfolding contains
  nothing-IsSound roots limit = record { distinct = tt; within = omega arith; reached = λ q m. cc }

  -- Whatever Preload returns, its graph holds no reference twice and at most MaxDocuments nodes, and
  -- every node is a root or a child of a document that was loaded.
  pub preload-IsSound :
      (roots : List Ref) (o : PreloadOptions) (w : c.World)
      → IsSound roots (pos_part (documents_of o)) ((preload c ctx_err children roots o w).0.0)
  unfolding preload contains
  preload-IsSound roots o w = elim (Bool-cases (bad_options o)) [
    | inl b ↦ rw b (nothing-IsSound roots (pos_part (documents_of o)))
    | inr b ↦ rw b (
        walk-IsSound (pos_part (depth_of o)) (pos_part (documents_of o)) roots []
          (empty_graph c ctx_err children) roots w
          (nothing-IsSound roots (pos_part (documents_of o))) (λ q. refl) (λ q m. ground arith))
  ]
