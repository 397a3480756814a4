-- ===== src/Join.antt =====
-- relations.go: join fields, which relate documents of one index as parents and children.
use mathlib.Core.Path.{subst}
use esodm.Prelude.{
  ◌≡◌, ◌≢◌, ◌⊎◌, ◌↔◌, refl, sym, Bool, true, false, not, ◌&&◌, ◌||◌, Option, none, some, List, [],
  ◌∷◌, ◌++◌, Bytes, text, bytes_eq, is_empty, if◌then◌else◌, arith,
}
use esodm.Error.{Result, ok, err, reject, validation, caused, ◌>>=◌, ◌>>◌}
use esodm.Names.{Unicode, validate_id}

-- The children of a relation, as the mapping writes them; in `mixed` a value that is not a string
-- is none.
pub data RawChildren : Type 0 where
  one : Bytes → RawChildren
  several : List Bytes → RawChildren
  mixed : List (Option Bytes) → RawChildren
  unknown : RawChildren

-- FieldMapping, as far as joins are concerned.
pub record FieldMapping : Type 0 where
  pub type : Bytes
  pub relations : List (Bytes × RawChildren)

-- joinInfo, with lists for the sets.
pub record JoinInfo : Type 0 where
  pub field : Bytes
  pub parents : List Bytes
  pub children : List Bytes

-- The case of []any.
unfoldable pub strings : List (Option Bytes) → Result (List Bytes)
strings [] = ok []
strings (none ∷ rest) = reject true validation >> ok []
strings (some s ∷ rest) = do names ← strings rest; ok (s ∷ names)

abbrev pub names_of : RawChildren → Result (List Bytes)
names_of (one s) = ok (s ∷ [])
names_of (several names) = ok names
names_of (mixed names) = strings names
names_of unknown = reject true validation >> ok []

abbrev pub no_names : List Bytes → Bool
no_names [] = true
no_names (s ∷ names) = false

unfoldable pub check_children : Bytes → List Bytes → Result (Unit {0})
check_children parent [] = ok tt
check_children parent (child ∷ rest) =
    reject (is_empty child || bytes_eq child parent) validation >> check_children parent rest

-- The loop over the relations: parents and children.
unfoldable pub compile_relations : List (Bytes × RawChildren) → Result (List Bytes × List Bytes)
compile_relations [] = ok ([], [])
compile_relations ((parent, raw) ∷ rest) = do
  reject (is_empty parent) validation
  names ← names_of raw
  reject (no_names names) validation
  check_children parent names
  found ← compile_relations rest
  ok (parent ∷ found.0, names ++ found.1)

abbrev pub is_some : {A : Type 0} → Option A → Bool
is_some none = false
is_some (some a) = true

-- compileJoin, whose loop starts with no join field
unfoldable pub compile_join :
    Option JoinInfo → List (Bytes × FieldMapping) → Result (Option JoinInfo)
compile_join out [] = ok out
compile_join out ((name, f) ∷ rest) =
    let skipped = compile_join out rest in
    let found = (do
      reject (is_some out) validation
      r ← compile_relations f.relations
      reject (no_names (r.0)) validation
      compile_join (some (record { field = name; parents = r.0; children = r.1 })) rest) in
    if bytes_eq f.type (text "join") then found else skipped

-- requireJoinRouting
unfoldable pub require_join_routing : Option JoinInfo → Bytes → Result (Unit {0})
require_join_routing join routing = reject (is_some join && is_empty routing) validation

-- A set of strings.
unfoldable pub has : List Bytes → Bytes → Bool
has [] s = false
has (t ∷ rest) s = bytes_eq s t || has rest s

-- encoding/json: the raw value of a field of an object, empty where it is absent; a Join, as its
-- name and parent; a string.
pub record JoinJson : Type 0 where
  pub field : Bytes → Bytes → Result Bytes
  pub relation : Bytes → Option (Bytes × Bytes)
  pub string : Bytes → Result Bytes

-- if err != nil { return fmt.Errorf("%w: %w", ErrValidation, err) }
abbrev pub invalid : {A : Type 0} → Result A → Result A
invalid (err e) = err (caused validation e)
invalid (ok a) = ok a

module _ (u : Unicode) (j : JoinJson) where
  -- A value that is an object has a name and a parent; a string is a name.
  abbrev pub as_relation : Bytes → Option (Bytes × Bytes) → Result (Bytes × Bytes)
  as_relation raw (some r) = ok r
  as_relation raw none = do name ← invalid (j.string raw); ok (name, [])

  unfoldable pub relation_of : JoinInfo → Bytes → Result (Bytes × Bytes)
  relation_of info data_bytes = do
    raw ← invalid (j.field info.field data_bytes)
    as_relation raw (j.relation raw)

  unfoldable pub check_relation : JoinInfo → Bytes → Bytes × Bytes → Result (Unit {0})
  check_relation info routing (name, parent) = do
    reject (is_empty name) validation
    (if has info.parents name && not (has info.children name) && is_empty parent then ok tt else (do
      reject (not (has info.children name) || is_empty parent || is_empty routing) validation
      validate_id u parent))

  -- validateJoin
  unfoldable pub validate_join : Option JoinInfo → Bytes → Bytes → Result (Unit {0})
  validate_join none data_bytes routing = ok tt
  validate_join (some info) data_bytes routing = do
    r ← relation_of info data_bytes
    check_relation info routing r

  -- A root document, or a child with a parent and a route.
  abbrev pub IsRelated : JoinInfo → Bytes → Bytes × Bytes → Type 0
  IsRelated info routing r =
      (r.0 ≢ [])
      × (((has info.parents r.0 ≡ true) × (has info.children r.0 ≡ false) × (r.1 ≡ []))
          ⊎ ((has info.children r.0 ≡ true)
              × (r.1 ≢ [])
              × (routing ≢ [])
              × (validate_id u r.1 ≡ ok tt)))

  check_relation-IsRelated :
      (info : JoinInfo) (routing name parent : Bytes)
      → (check_relation info routing (name, parent) ≡ ok tt) ↔ IsRelated info routing (name, parent)
  unfolding check_relation is_empty
  check_relation-IsRelated info routing [] parent = ((λ p. cc), (λ p. absurd (p.0 refl)))
  check_relation-IsRelated info [] (c ∷ name) [] = ground arith
  check_relation-IsRelated info (r ∷ routing) (c ∷ name) [] = ground arith
  check_relation-IsRelated info [] (c ∷ name) (d ∷ parent) = ground arith
  check_relation-IsRelated info (r ∷ routing) (c ∷ name) (d ∷ parent) = ground arith

  -- A document is accepted for an index with a join field exactly when it has a named relation that
  -- is a parent only and has no parent ID, or a child with an accepted parent ID and a routing.
  pub validate_join-IsRelated :
      (info : JoinInfo) (document routing : Bytes)
      → (validate_join (some info) document routing ≡ ok tt)
        ↔ ((r : Bytes × Bytes) × (relation_of info document ≡ ok r) × IsRelated info routing r)
  unfolding validate_join
  validate_join-IsRelated info document routing = of_relation (relation_of info document)
    where
      of_relation :
          (o : Result (Bytes × Bytes))
          → ((o >>= check_relation info routing) ≡ ok tt)
            ↔ ((r : Bytes × Bytes) × (o ≡ ok r) × IsRelated info routing r)
      of_relation (err e) = ((λ p. cc), (λ p. cc))
      of_relation (ok (name, parent)) = (
        (λ p. ((name, parent), refl, (check_relation-IsRelated info routing name parent).0 p)),
        (λ p.
            (check_relation-IsRelated info routing name parent).1
              (subst (IsRelated info routing) (sym (same (p.0) (p.1))) (p.2))),
      )
        where
          same :
              (r : Bytes × Bytes)
              → ok (name, parent) ≡ ok r
              → ◌≡◌ {A = Bytes × Bytes} (name, parent) r
          same r e = cc
