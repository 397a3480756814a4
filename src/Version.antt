-- ===== src/Version.antt =====
-- client.go: Version, its parser, printer and order, and the check of the supported baseline.
pub mod Order
pub mod RoundTrip
use esodm.Prelude.{
  ℕ, Bool, true, false, ◌||◌, Option, none, some, List, [], ◌∷◌, ◌++◌, Bytes, before, split,
  if◌then◌else◌, ltb_ℤ, eq_ℤ, ℤ, pos, negsuc,
}
use esodm.Error.{Result, ok, err, sentinel, validation, unsupported, reject, ◌>>=◌, ◌>>◌}
use esodm.Decimal.{atoi, itoa}

pub record Version : Type 0 where
  pub major : ℤ
  pub minor : ℤ
  pub patch : ℤ

-- x, err := strconv.Atoi(p); if err != nil || x < 0
abbrev component : Option ℤ → Result ℤ
component none = err (sentinel validation)
component (some (pos n)) = ok (pos n)
component (some (negsuc n)) = err (sentinel validation)

-- The loop over the three parts, after the test of their number.
abbrev three : List Bytes → Result Version
three (a ∷ b ∷ c ∷ []) = do
  major ← component (atoi a)
  minor ← component (atoi b)
  patch ← component (atoi c)
  ok (record { major = major; minor = minor; patch = patch })
three _ = err (sentinel validation)

-- ParseVersion
unfoldable pub parse_version : Bytes → Result Version
parse_version s = three (split b'.' (before b'-' s))

-- Version.String
unfoldable pub show_version : Version → Bytes
show_version v = itoa v.major ++ b'.' ∷ (itoa v.minor ++ b'.' ∷ itoa v.patch)

-- cmp.Compare
abbrev pub cmp : ℤ → ℤ → ℤ
cmp a b = if ltb_ℤ a b then negsuc 0 else if ltb_ℤ b a then pos 1 else pos 0

-- Version.Compare
unfoldable pub compare_version : Version → Version → ℤ
compare_version v w =
    let n = cmp v.major w.major in
    let m = cmp v.minor w.minor in
    if eq_ℤ n (pos 0) then (if eq_ℤ m (pos 0) then cmp v.patch w.patch else m) else n

abbrev minimum_8 : Version
minimum_8 = record { major = pos 8; minor = pos 18; patch = pos 1 }

abbrev minimum_9 : Version
minimum_9 = record { major = pos 9; minor = pos 4; patch = pos 5 }

-- The test behind the switch of validateVersion.
abbrev at_least : Version → Version → Result (Unit {0})
at_least v minimum =
    reject
      (ltb_ℤ v.minor (pos 0) || ltb_ℤ v.patch (pos 0) || ltb_ℤ (compare_version v minimum) (pos 0))
      unsupported

-- validateVersion
unfoldable pub validate_version : Version → Result (Unit {0})
unfolding compare_version
validate_version v =
    if eq_ℤ v.major (pos 8)
    then at_least v minimum_8
    else if eq_ℤ v.major (pos 9)
    then at_least v minimum_9
    else err (sentinel unsupported)
