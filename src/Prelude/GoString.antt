-- ===== src/Prelude/GoString.antt =====
-- Go strings: sequences of bytes, compared and searched as package strings does.
use Prim.Native.Nat.{ℕ}
use Prim.Native.Char.{code}
use Prim.Native.String.{String}
use mathlib.Core.Path.{◌≡◌, refl}
use mathlib.Core.Logic.{◌↔◌, ◌≢◌}
use mathlib.Core.Bool.{Bool, true, false, ◌&&◌, ◌||◌}
use mathlib.Core.List.{List, [], ◌∷◌, ◌++◌}
use native.Mathlib.Omega.{arith}
use esodm.Prelude.Tests.{◌==◌, if◌then◌else◌}
use esodm.Prelude.Lists.{All}

abbrev pub Bytes : Type 0
Bytes = List ℕ

-- The bytes of an ASCII literal.
abbrev pub text : String → Bytes
text String.[] = []
text (String.◌∷◌ c s) = code c ∷ text s

-- s == t
unfoldable pub bytes_eq : Bytes → Bytes → Bool
bytes_eq [] [] = true
bytes_eq [] (d ∷ t) = false
bytes_eq (c ∷ s) [] = false
bytes_eq (c ∷ s) (d ∷ t) = (c == d) && bytes_eq s t

pub bytes_eq_iff : (s t : Bytes) → (bytes_eq s t ≡ true) ↔ (s ≡ t)
unfolding bytes_eq
bytes_eq_iff [] [] = (λ _. refl, λ _. refl)
bytes_eq_iff [] (d ∷ t) = (λ h. cc, λ h. cc)
bytes_eq_iff (c ∷ s) [] = (λ h. cc, λ h. cc)
bytes_eq_iff (c ∷ s) (d ∷ t) =
    (λ h. ground (arith, bytes_eq_iff s t), λ h. ground (arith, bytes_eq_iff s t))

pub bytes_eq_refl : (s : Bytes) → bytes_eq s s ≡ true
bytes_eq_refl s = (bytes_eq_iff s s).1 refl

-- s == ""
unfoldable pub is_empty : Bytes → Bool
is_empty [] = true
is_empty (c ∷ s) = false

-- A byte that stands in a list of bytes.
unfoldable pub contains_byte : Bytes → ℕ → Bool
contains_byte [] c = false
contains_byte (d ∷ s) c = (c == d) || contains_byte s c

-- strings.ContainsAny for a set of ASCII bytes.
unfoldable pub contains_any : Bytes → Bytes → Bool
unfolding contains_byte
contains_any [] chars = false
contains_any (c ∷ s) chars = contains_byte chars c || contains_any s chars

-- strings.HasPrefix
unfoldable pub has_prefix : Bytes → Bytes → Bool
has_prefix s [] = true
has_prefix [] (p ∷ ps) = false
has_prefix (c ∷ s) (p ∷ ps) = (c == p) && has_prefix s ps

-- The part of a string before the first separator byte: base, _, _ := strings.Cut(s, sep)
unfoldable pub before : ℕ → Bytes → Bytes
before sep [] = []
before sep (c ∷ s) = let rest = before sep s in if c == sep then [] else c ∷ rest

-- A byte in front of the first part.
abbrev pub prepend : ℕ → List Bytes → List Bytes
prepend c [] = (c ∷ []) ∷ []
prepend c (p ∷ ps) = (c ∷ p) ∷ ps

-- strings.Split(s, sep) for a separator of one byte.
unfoldable pub split : ℕ → Bytes → List Bytes
split sep [] = [] ∷ []
split sep (c ∷ s) = let rest = split sep s in if c == sep then [] ∷ rest else prepend c rest

pub before-append : (sep : ℕ) (s t : Bytes) → All (λ c. c ≢ sep) s → before sep (s ++ sep ∷ t) ≡ s
unfolding before
before-append sep [] t h = ground arith
before-append sep (c ∷ s) t h = ground (arith, before-append sep s t h.1)

pub before-none : (sep : ℕ) (s : Bytes) → All (λ c. c ≢ sep) s → before sep s ≡ s
unfolding before
before-none sep [] h = refl
before-none sep (c ∷ s) h = ground (arith, before-none sep s h.1)

pub split-append :
    (sep : ℕ) (s t : Bytes) → All (λ c. c ≢ sep) s → split sep (s ++ sep ∷ t) ≡ s ∷ split sep t
unfolding split
split-append sep [] t h = ground arith
split-append sep (c ∷ s) t h = ground (arith, split-append sep s t h.1)

pub split-none : (sep : ℕ) (s : Bytes) → All (λ c. c ≢ sep) s → split sep s ≡ s ∷ []
unfolding split
split-none sep [] h = refl
split-none sep (c ∷ s) h = ground (arith, split-none sep s h.1)
