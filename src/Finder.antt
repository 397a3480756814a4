-- ===== src/Finder.antt =====
-- finder.go: the window that Page requests, and what it says of the next one.
use native.Mathlib.Nat.{le-div_iff_mul-le, suc-mul}
use esodm.Prelude.{
  ℕ, zero, suc, sym, ap, ◌∙◌, ◌+◌, ◌-◌, ◌*◌, ◌/◌, ◌^◌, ◌≤◌, ◌≡◌, ◌↔◌, refl, Bool, false, ◌||◌,
  Option, none, some, List, length, ltb, ℤ, pos, negsuc, pos_part, ltb_ℤ, if◌then◌else◌, arith,
}
use esodm.Error.{Err, sentinel, validation}
use esodm.Iterator.{Hit}

-- int(^uint(0) >> 1) on a 64-bit machine
abbrev pub max_int : ℕ
max_int = 2 ^ 63 - 1

-- page < 1 || size < 1 || page > maxInt/size; the quotient is read only where size is positive.
unfoldable pub bad_window : ℤ → ℤ → Bool
bad_window page size =
    ltb_ℤ page (pos 1) || ltb_ℤ size (pos 1) || ltb (max_int / pos_part size) (pos_part page)

-- (page - 1) * size
abbrev pub offset : ℤ → ℤ → ℕ
offset page size = (pos_part page - 1) * pos_part size

-- What is read of a search result: the hits, the total and whether its relation is "eq".
pub record Window (Doc : Type 0) : Type 0 where
  pub hits : List (Hit Doc)
  pub total : ℤ
  pub exact : Bool

-- Page
pub record Page (Doc : Type 0) : Type 0 where
  pub hits : List (Hit Doc)
  pub number : ℤ
  pub size : ℤ
  pub total : ℤ
  pub exact : Bool
  pub has_next : Bool

-- `search` is the result of the finder with an offset and a size. The zero page is none.
module _ {Doc World : Type 0} (search : ℕ → ℤ → World → (Window Doc × Option Err) × World) where
  abbrev pub numbered :
      ℤ → ℤ → (Window Doc × Option Err) × World → (Option (Page Doc) × Option Err) × World
  numbered page size ((r, e), w) = (
    (
      some (record {
        hits = r.hits;
        number = page;
        size = size;
        total = r.total;
        exact = r.exact;
        has_next = ltb_ℤ (pos (offset page size + length r.hits)) r.total;
      }),
      e,
    ),
    w,
  )

  -- Finder.Page
  unfoldable pub page : ℤ → ℤ → World → (Option (Page Doc) × Option Err) × World
  page number size w =
      if bad_window number size
      then ((none, some (sentinel validation)), w)
      else numbered number size (search (offset number size) size w)

-- The test accepts a number and a size exactly when both are positive and their product is an int.
bad_window_iff :
    (number size : ℤ)
    → (bad_window number size ≡ false)
      ↔ ((1 ≤ pos_part number) × (1 ≤ pos_part size) × (pos_part number * pos_part size ≤ max_int))
unfolding bad_window
bad_window_iff number (negsuc s) = ground arith
bad_window_iff (negsuc n) size = ground arith
bad_window_iff (pos n) (pos s) = (
  λ h. (ground arith, ground arith, (le-div_iff_mul-le (size_positive h)).0 (small_number h)),
  λ h. small_enough h.0 h.1 ((le-div_iff_mul-le (h.1)).1 (h.2)),
)
  where
    size_positive : bad_window (pos n) (pos s) ≡ false → 1 ≤ s
    size_positive h = ground arith

    small_number : bad_window (pos n) (pos s) ≡ false → n ≤ max_int / s
    small_number h = ground arith

    small_enough : 1 ≤ n → 1 ≤ s → n ≤ max_int / s → bad_window (pos n) (pos s) ≡ false
    small_enough a b c = ground arith

-- The window of a positive page number ends where the next one starts.
offset-end : (n s : ℕ) → 1 ≤ n → (n - 1) * s + s ≡ n * s
offset-end zero s h = elim h [ ]
offset-end (suc n) s h = ap (λ k. k * s + s) (omega arith) ∙ sym (suc-mul n s)

-- If the page number and the size are positive and their product is an int, Page requests that size
-- at an offset such that the window ends at the product, and answers from that search.
pub page-numbered :
    {Doc World : Type 0} (search : ℕ → ℤ → World → (Window Doc × Option Err) × World)
    (number size : ℤ) (w : World)
    → 1 ≤ pos_part number
    → 1 ≤ pos_part size
    → pos_part number * pos_part size ≤ max_int
    → (page search number size w ≡ numbered search number size (search (offset number size) size w))
      × (offset number size + pos_part size ≡ pos_part number * pos_part size)
unfolding page
page-numbered search number size w a b m = (
  rw ((bad_window_iff number size).1 (a, b, m)) refl,
  offset-end (pos_part number) (pos_part size) a,
)
