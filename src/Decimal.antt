-- ===== src/Decimal.antt =====
-- The decimal numbers that package strconv reads and prints, as client.go and finder.go use them.
pub mod RoundTrip
use esodm.Prelude.{
  ℕ, zero, suc, ◌+◌, ◌-◌, ◌*◌, ◌/◌, ◌%◌, ◌^◌, Bool, true, false, ◌&&◌, Option, none, some, List, [],
  ◌∷◌, ◌++◌, Bytes, ltb, leb, ◌==◌, if◌then◌else◌, ℤ, pos, negsuc, sub_ℕ,
}

abbrev pub is_digit : ℕ → Bool
is_digit c = leb 48 c && leb c 57

-- The digits that are left, after a number read so far.
unfoldable pub digits_value : ℕ → Bytes → Option ℕ
digits_value n [] = some n
digits_value n (c ∷ s) =
    let rest = digits_value (n * 10 + (c - 48)) s in if is_digit c then rest else none

-- A nonempty run of digits.
unfoldable pub unsigned : Bytes → Option ℕ
unfolding digits_value
unsigned [] = none
unsigned (c ∷ s) = digits_value 0 (c ∷ s)

-- The range of a 64-bit int.
abbrev pub signed : Bool → Option ℕ → Option ℤ
signed neg none = none
signed false (some n) = if ltb n (2 ^ 63) then some (pos n) else none
signed true (some n) = if leb n (2 ^ 63) then some (sub_ℕ 0 n) else none

-- strconv.Atoi; `none` is its error.
unfoldable pub atoi : Bytes → Option ℤ
unfolding unsigned
atoi [] = none
atoi (c ∷ s) =
    if c == b'-'
    then signed true (unsigned s)
    else if c == b'+'
    then signed false (unsigned s)
    else signed false (unsigned (c ∷ s))

-- The digits of n; the fuel bounds their number.
unfoldable pub decimal_fuel : ℕ → ℕ → Bytes
decimal_fuel zero n = []
decimal_fuel (suc f) n =
    let high = decimal_fuel f (n / 10) in
    if ltb n 10 then (48 + n) ∷ [] else high ++ (48 + n % 10) ∷ []

-- A number has fewer digits than suc n.
unfoldable pub decimal : ℕ → Bytes
unfolding decimal_fuel
decimal n = decimal_fuel (suc n) n

-- %d, strconv.Itoa
unfoldable pub itoa : ℤ → Bytes
itoa (pos n) = decimal n
itoa (negsuc n) = b'-' ∷ decimal (suc n)
