-- ===== src/Version/Order.antt =====
-- Versions are ordered lexicographically, and the baseline is an up-set within each major.
use esodm.Prelude.{
  ℕ, ◌+◌, ◌≡◌, ◌↔◌, ◌⊎◌, ◌≤◌, ◌<◌, ℤ, pos, negsuc, sub_ℕ, pos_part, neg_part, arith,
}
use esodm.Error.{ok}
use esodm.Version.{Version, compare_version, validate_version}

-- Compare is zero exactly at equal versions.
compare_version-eq : (v w : Version) → (compare_version v w ≡ pos 0) ↔ (v ≡ w)
unfolding compare_version
compare_version-eq v w = (λ h. ground arith, λ h. ground arith)

-- Swapping the arguments of Compare negates the result.
pub compare_version-swap :
    (v w : Version)
    → compare_version w v ≡ sub_ℕ (neg_part (compare_version v w)) (pos_part (compare_version v w))
unfolding compare_version
compare_version-swap v w = ground arith

-- a < b and a = b, by the two parts of an integer.
abbrev Below : ℤ → ℤ → Type 0
Below a b = pos_part a + neg_part b < pos_part b + neg_part a

abbrev Equal : ℤ → ℤ → Type 0
Equal a b = pos_part a + neg_part b ≡ pos_part b + neg_part a

-- The lexicographic order.
abbrev pub Older : Version → Version → Type 0
Older v w =
    Below v.major w.major
    ⊎ (Equal v.major w.major
        × (Below v.minor w.minor ⊎ (Equal v.minor w.minor × Below v.patch w.patch)))

Older-compare_version : (v w : Version) → compare_version v w ≡ negsuc 0 → Older v w
unfolding compare_version
Older-compare_version v w h = ground arith

compare_version-Older : (v w : Version) → Older v w → compare_version v w ≡ negsuc 0
unfolding compare_version
compare_version-Older v w h = ground arith

Newer-compare_version : (v w : Version) → compare_version v w ≡ pos 1 → Older w v
unfolding compare_version
Newer-compare_version v w h = ground arith

compare_version-Newer : (v w : Version) → Older w v → compare_version v w ≡ pos 1
unfolding compare_version
compare_version-Newer v w h = ground arith

-- Compare is -1 exactly when the first version is older in the lexicographic order, 1 exactly when
-- the second one is, and 0 exactly when the versions are equal.
pub compare_version-Older_iff :
    (v w : Version)
    → ((compare_version v w ≡ negsuc 0) ↔ Older v w)
      × ((compare_version v w ≡ pos 1) ↔ Older w v)
      × ((compare_version v w ≡ pos 0) ↔ (v ≡ w))
compare_version-Older_iff v w = (
  (Older-compare_version v w, compare_version-Older v w),
  (Newer-compare_version v w, compare_version-Newer v w),
  compare_version-eq v w,
)

-- The supported versions, written out.
abbrev pub Supported : Version → Type 0
Supported v =
    (m p : ℕ) × (v.minor ≡ pos m)
    × (v.patch ≡ pos p)
    × (((v.major ≡ pos 8) × ((18 < m) ⊎ ((m ≡ 18) × (1 ≤ p))))
        ⊎ ((v.major ≡ pos 9) × ((4 < m) ⊎ ((m ≡ 4) × (5 ≤ p)))))

validate_version_sound : (v : Version) → validate_version v ≡ ok tt → Supported v
unfolding validate_version
validate_version_sound v h =
    (pos_part v.minor, pos_part v.patch, ground arith, ground arith, ground arith)

validate_version_complete : (v : Version) → Supported v → validate_version v ≡ ok tt
unfolding validate_version
validate_version_complete v (m, p, e, f, c) = ground arith

-- validateVersion accepts exactly the versions 8.18.1 and later within major 8, and 9.4.5 and later
-- within major 9.
pub validate_version_iff : (v : Version) → (validate_version v ≡ ok tt) ↔ Supported v
validate_version_iff v = (validate_version_sound v, validate_version_complete v)
