-- ===== src/Names.antt =====
-- client.go and index.go: which names and document IDs are accepted. The Unicode tables of the
-- packages strings and unicode/utf8 are parameters.
pub mod Safe
use esodm.Prelude.{
  ℕ, zero, suc, Bool, true, false, not, ◌||◌, List, [], ◌∷◌, Bytes, text, bytes_eq, is_empty,
  contains_byte, contains_any, split, length, ltb, ◌==◌, if◌then◌else◌, map,
}
use esodm.Error.{Result, ok, err, reject, validation, ◌>>◌}

pub record Unicode : Type 0 where
  -- strings.ToLower
  pub to_lower : Bytes → Bytes
  -- utf8.ValidString
  pub valid_string : Bytes → Bool

-- The bytes / \ ? # CR LF NUL , * and space.
abbrev pub name_specials : Bytes
name_specials = 47 ∷ 92 ∷ 63 ∷ 35 ∷ 13 ∷ 10 ∷ 0 ∷ 44 ∷ 42 ∷ 32 ∷ []

-- The bytes : " < > | TAB VT FF.
abbrev pub index_specials : Bytes
index_specials = 58 ∷ 34 ∷ 60 ∷ 62 ∷ 124 ∷ 9 ∷ 11 ∷ 12 ∷ []

-- validateName
unfoldable pub validate_name : Bytes → Result (Unit {0})
validate_name s =
    reject
      (is_empty s
        || bytes_eq s (text ".")
        || bytes_eq s (text "..")
        || contains_any s name_specials)
      validation

-- strings.ContainsRune("-_+", rune(name[0])), where the name is not empty.
abbrev pub bad_prefix : Bytes → Bool
bad_prefix [] = false
bad_prefix (c ∷ s) = contains_byte (text "-_+") c

-- strings.ReplaceAll(name, "*", "x")
abbrev without_stars : Bytes → Bytes
without_stars = map (λ c. if c == b'*' then b'x' else c)

-- strings.Count(part, ":")
unfoldable pub count_byte : ℕ → Bytes → ℕ
count_byte c [] = 0
count_byte c (d ∷ s) = let rest = count_byte c s in if d == c then suc rest else rest

-- A loop that returns the first error.
unfoldable pub for_each : (Bytes → Result (Unit {0})) → List Bytes → Result (Unit {0})
for_each f [] = ok tt
for_each f (s ∷ rest) = f s >> for_each f rest

module _ (u : Unicode) where
  -- validateID
  unfoldable pub validate_id : Bytes → Result (Unit {0})
  validate_id id = reject (is_empty id || ltb 512 (length id) || not (u.valid_string id)) validation

  -- validateIndexName
  unfoldable pub validate_index_name : Bytes → Result (Unit {0})
  validate_index_name name =
      validate_name name
      >> (reject
            (ltb 255 (length name)
              || not (u.valid_string name)
              || not (bytes_eq (u.to_lower name) name)
              || contains_any name index_specials)
            validation
          >> reject (bad_prefix name) validation)

  -- validateReadTarget
  unfoldable pub validate_read_target : Bytes → Result (Unit {0})
  validate_read_target target =
      reject (is_empty target) validation
      >> for_each
          (λ part.
            reject (ltb 1 (count_byte b':' part)) validation
            >> for_each (λ name. validate_index_name (without_stars name)) (split b':' part))
          (split b',' target)
