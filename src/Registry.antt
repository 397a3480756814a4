-- ===== src/Registry.antt =====
-- model.go: Registry, which groups repositories under distinct index names.
pub mod Distinct
use esodm.Prelude.{
  ◌≡◌, refl, ◌⊎◌, inl, inr, sym, ap, ◌∙◌, Bool, true, false, not, ◌||◌, Option, none, some, List,
  [], ◌∷◌, ◌++◌, Bytes, bytes_eq, bytes_eq_iff, All, All-append, map, if◌then◌else◌, arith,
}
use esodm.Error.{Err, Result, ok, err, sentinel, reject, validation, ◌>>=◌, ◌>>◌, Result-cases}
use esodm.Names.{Unicode, validate_index_name}
use esodm.Join.{has}

-- Ensurer, beside the state of the world: its index and its initialization.
pub record Ensurer (World : Type 0) : Type 0 where
  pub index : Bytes
  pub ensure : World → Option Err × World

module _ {World : Type 0} where
  -- Registry.Indexes
  unfoldable pub indexes : List (Ensurer World) → List Bytes
  indexes [] = []
  indexes (e ∷ es) = e.index ∷ indexes es

module _ {World : Type 0} (u : Unicode) where
  -- The second loop of Add, with the names so far; a nil entry is none.
  unfoldable pub check_entries :
      List Bytes → List (Option (Ensurer World)) → Result (List (Ensurer World))
  check_entries names [] = ok []
  check_entries names (none ∷ rest) = err (sentinel validation)
  check_entries names (some e ∷ rest) = do
    validate_index_name u e.index
    reject (has names e.index) validation
    es ← check_entries (e.index ∷ names) rest
    ok (e ∷ es)

  -- Registry.Add: the entries afterwards, and the error
  abbrev pub appended :
      List (Ensurer World) → Result (List (Ensurer World)) → List (Ensurer World) × Option Err
  appended entries (err e) = (entries, some e)
  appended entries (ok es) = (entries ++ es, none)

  unfoldable pub add :
      List (Ensurer World) → List (Option (Ensurer World)) → List (Ensurer World) × Option Err
  add entries given = appended entries (check_entries (indexes entries) given)

module _ {World : Type 0} (ctx_err : World → Option Err) where
  abbrev pub then_next : Option Err × World → (World → Option Err × World) → Option Err × World
  then_next (some c, w) next = (some c, w)
  then_next (none, w) next = next w

  -- Registry.EnsureAll; the name in an error does not change its class.
  unfoldable pub ensure_all : List (Ensurer World) → World → Option Err × World
  ensure_all [] w = (none, w)
  ensure_all (e ∷ es) w = elim (ctx_err w) [
    | some c ↦ (some c, w)
    | none ↦ then_next (e.ensure w) (λ w'. ensure_all es w')
  ]
