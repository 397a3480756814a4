-- ===== src/Relations/Graph.antt =====
-- relations.go: Preload, a breadth-first walk over references that loads every one once.
pub mod Bounds
use esodm.Prelude.{
  ℕ, zero, suc, ◌+◌, Bool, true, false, not, ◌&&◌, ◌||◌, Option, none, some, List, [], ◌∷◌, ◌++◌,
  length, ltb, ◌==◌, if◌then◌else◌, ℤ, pos, pos_part, ltb_ℤ, eq_ℤ,
}
use esodm.Error.{Err, Result, ok, err, sentinel, validation}
use esodm.Read.{no_options}
use esodm.Relations.{Ref, ReferenceResult, ref_eq, Reader, load_with}
use esodm.Relations.Lookup.{contains}

-- PreloadOptions
pub record PreloadOptions : Type 0 where
  pub max_depth : ℤ
  pub max_documents : ℤ

-- Graph
pub record Graph (Doc : Type 0) : Type 0 where
  pub nodes : List (ReferenceResult Doc)
  pub truncated : Bool

-- Zero selects the default.
abbrev pub depth_of : PreloadOptions → ℤ
depth_of o = if eq_ℤ o.max_depth (pos 0) then pos 3 else o.max_depth

abbrev pub documents_of : PreloadOptions → ℤ
documents_of o = if eq_ℤ o.max_documents (pos 0) then pos 10000 else o.max_documents

unfoldable pub bad_options : PreloadOptions → Bool
bad_options o =
    ltb_ℤ (depth_of o) (pos 1) || ltb_ℤ (pos 32) (depth_of o) || ltb_ℤ (documents_of o) (pos 1)

abbrev pub no_error : Option Err → Bool
no_error none = true
no_error (some e) = false

-- The loop over pending: the references that are new, and those seen after it. The map `seen` is
-- the list of its keys.
unfoldable pub fresh : List Ref → List Ref → List Ref × List Ref
fresh seen [] = ([], seen)
fresh seen (r ∷ pending) =
    let later = fresh (r ∷ seen) pending in
    let skipped = fresh seen pending in if contains seen r then skipped else (r ∷ later.0, later.1)

module _ {Doc : Type 0} (c : Reader Doc) (ctx_err : c.World → Option Err)
    (children : Doc → List Ref) where
  -- The references of the documents that were loaded.
  unfoldable pub children_of : List (ReferenceResult Doc) → List Ref
  children_of [] = []
  children_of (x ∷ xs) =
      let later = children_of xs in
      if no_error x.error && x.found then children x.hit.source ++ later else later

  abbrev pub Walk : Type 0
  Walk = (Graph Doc × Option Err) × c.World

  abbrev pub extended : Graph Doc → List (ReferenceResult Doc) → Graph Doc
  extended g results = record g { nodes = g.nodes ++ results }

  -- What follows a load.
  abbrev pub walk_on :
      (Graph Doc → List Ref → c.World → Walk)
      → Graph Doc
      → Result (List (ReferenceResult Doc)) × c.World
      → Walk
  walk_on next g (err e, w) = ((g, some e), w)
  walk_on next g (ok results, w) = next (extended g results) (children_of results) w

  -- The loop, with the levels that are left and the limit of documents.
  unfoldable pub walk : ℕ → ℕ → List Ref → Graph Doc → List Ref → c.World → Walk
  walk left limit seen g [] w = ((g, none), w)
  walk zero limit seen g (r ∷ pending) w = elim (ctx_err w) [
    | some e ↦ ((g, some e), w)
    | none ↦ elim ((fresh seen (r ∷ pending)).0) [
      | [] ↦ ((g, none), w)
      | _ ∷ _ ↦ ((record g { truncated = true }, none), w)
    ]
  ]
  walk (suc left) limit seen g (r ∷ pending) w =
      let (batch, seen') = fresh seen (r ∷ pending) in
      elim (ctx_err w) [
        | some e ↦ ((g, some e), w)
        | none ↦ elim batch [
          | [] ↦ ((g, none), w)
          | q ∷ qs ↦
              if ltb limit (length g.nodes + length (q ∷ qs))
              then ((g, some (sentinel validation)), w)
              else walk_on (walk left limit seen') g (load_with c (q ∷ qs) no_options w)
        ]
      ]

  abbrev pub empty_graph : Graph Doc
  empty_graph = record { nodes = []; truncated = false }

  -- Preload, for a function `children` that is not nil
  unfoldable pub preload : List Ref → PreloadOptions → c.World → Walk
  preload roots o w =
      if bad_options o
      then ((empty_graph, some (sentinel validation)), w)
      else walk (pos_part (depth_of o)) (pos_part (documents_of o)) [] empty_graph roots w
