-- ===== src/Tests/Finder.antt =====
-- The third page of ten hits, of 25.
use esodm.Prelude.{ℕ, ◌+◌, ◌*◌, ◌≡◌, true, Option, none, [], ℤ, pos, arith}
use esodm.Error.{Err}
use esodm.Finder.{Window, page, numbered, page-numbered}

abbrev search : ℕ → ℤ → ℕ → (Window ℕ × Option Err) × ℕ
search from size w = ((record { hits = []; total = pos 25; exact = true }, none), w + 1)

page-numbered_example :
    (page search (pos 3) (pos 10) 0 ≡ numbered search (pos 3) (pos 10) (search 20 (pos 10) 0))
    × (20 + 10 ≡ 3 * 10)
page-numbered_example =
    page-numbered search (pos 3) (pos 10) 0 (omega arith) (omega arith) (omega arith)
