-- ===== src/Names/Safe.antt =====
-- An accepted name cannot leave its place in a request path.
use esodm.Prelude.{
  ℕ, ◌≤◌, ◌≡◌, ◌≢◌, true, false, [], ◌∷◌, Bytes, All, length, contains_byte, contains_any, is_empty,
  bytes_eq_iff, text, arith,
}
use esodm.Error.{ok}
use esodm.Names.{Unicode, name_specials, index_specials, validate_name, validate_index_name}

contains_any-false :
    (s chars : Bytes) → contains_any s chars ≡ false → All (λ c. contains_byte chars c ≡ false) s
unfolding contains_any
contains_any-false [] chars h = tt
contains_any-false (c ∷ s) chars h = (ground arith, contains_any-false s chars (ground arith))

-- A byte that may stand in an index name: none of / \ ? # , * : " < > | nor a space, a NUL, a tab, a
-- line feed, a vertical tab, a form feed or a carriage return.
abbrev pub IsPlain : ℕ → Type 0
IsPlain c =
    (c ≢ b'/')
    × (c ≢ 92)
    × (c ≢ b'?')
    × (c ≢ b'#')
    × (c ≢ b',')
    × (c ≢ b'*')
    × (c ≢ b':')
    × (c ≢ 34)
    × (c ≢ b'<')
    × (c ≢ b'>')
    × (c ≢ b'|')
    × (c ≢ 32)
    × (c ≢ 0)
    × (c ≢ 9)
    × (c ≢ 10)
    × (c ≢ 11)
    × (c ≢ 12)
    × (c ≢ 13)

byte-IsPlain :
    (c : ℕ)
    → contains_byte name_specials c ≡ false
    → contains_byte index_specials c ≡ false
    → IsPlain c
unfolding contains_byte
byte-IsPlain c h k = (
  ground arith,
  ground arith,
  ground arith,
  ground arith,
  ground arith,
  ground arith,
  ground arith,
  ground arith,
  ground arith,
  ground arith,
  ground arith,
  ground arith,
  ground arith,
  ground arith,
  ground arith,
  ground arith,
  ground arith,
  ground arith,
)

All-IsPlain :
    (l : Bytes)
    → All (λ c. contains_byte name_specials c ≡ false) l
    → All (λ c. contains_byte index_specials c ≡ false) l
    → All IsPlain l
All-IsPlain [] p q = tt
All-IsPlain (c ∷ l) p q = (byte-IsPlain c (p.0) (q.0), All-IsPlain l p.1 q.1)

-- An accepted index name does not start with an underscore.
pub index_name-first :
    (u : Unicode) (c : ℕ) (name : Bytes) → validate_index_name u (c ∷ name) ≡ ok tt → c ≢ b'_'
unfolding validate_index_name contains_byte
index_name-first u c name h = ground arith

-- The first byte of a name is no hyphen, underscore or plus sign.
abbrev pub StartsPlain : Bytes → Type 0
StartsPlain [] = Unit
StartsPlain (c ∷ name) = (c ≢ b'-') × (c ≢ b'_') × (c ≢ b'+')

name-StartsPlain :
    (u : Unicode) (name : Bytes) → validate_index_name u name ≡ ok tt → StartsPlain name
unfolding validate_index_name contains_byte
name-StartsPlain u [] h = tt
name-StartsPlain u (c ∷ name) h = (ground arith, ground arith, ground arith)

-- An accepted index name is not empty, has at most 255 bytes, is neither "." nor "..", is UTF-8 and
-- in lower case, does not start with a hyphen, an underscore or a plus sign, and holds none of
-- / \ ? # , * : " < > | nor a space, a NUL, or a byte from a tab to a carriage return.
pub index_name-IsPlain :
    (u : Unicode) (name : Bytes)
    → validate_index_name u name ≡ ok tt
    → (name ≢ [])
      × (length name ≤ 255)
      × (name ≢ text ".")
      × (name ≢ text "..")
      × (u.valid_string name ≡ true)
      × (u.to_lower name ≡ name)
      × StartsPlain name
      × All IsPlain name
unfolding validate_index_name validate_name is_empty
index_name-IsPlain u name h = (
  ground (arith),
  ground arith,
  ground (arith, bytes_eq_iff name (text ".")),
  ground (arith, bytes_eq_iff name (text "..")),
  ground arith,
  ground (arith, bytes_eq_iff (u.to_lower name) name),
  name-StartsPlain u name h,
  All-IsPlain name (contains_any-false name name_specials (ground arith))
      (contains_any-false name index_specials (ground arith)),
)
