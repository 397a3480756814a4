-- ===== src/Version/RoundTrip.antt =====
-- The parser reads back what the printer writes.
use esodm.Prelude.{
  ℕ, ◌≡◌, ◌^◌, ◌<◌, ◌≢◌, [], ◌∷◌, ◌++◌, Bytes, All, All-append, pos, arith, before-append,
  split-append, split-none,
}
use esodm.Error.{ok}
use esodm.Decimal.{itoa, decimal}
use esodm.Decimal.RoundTrip.{IsDigit, decimal-digits, atoi-decimal}
use esodm.Version.{Version, parse_version, show_version}

digits-ne : (sep : ℕ) (s : Bytes) → sep < 48 → All IsDigit s → All (λ c. c ≢ sep) s
digits-ne sep [] h d = tt
digits-ne sep (c ∷ s) h d = (λ e. omega arith, digits-ne sep s h d.1)

shown-ne : (a b c : ℕ) → All (λ d. d ≢ b'-') (decimal a ++ b'.' ∷ (decimal b ++ b'.' ∷ decimal c))
shown-ne a b c =
    let part = λ (n : ℕ). digits-ne b'-' (decimal n) (omega arith) (decimal-digits n) in
    All-append (λ d. d ≢ b'-') (decimal a) (b'.' ∷ (decimal b ++ b'.' ∷ decimal c)) (part a)
      (
        omega arith,
        All-append (λ d. d ≢ b'-') (decimal b) (b'.' ∷ decimal c) (part b) (omega arith, part c),
      )

-- ParseVersion reads back a printed version, whatever hyphen suffix follows it.
pub parse-show :
    (a b c : ℕ) (suffix : Bytes)
    → a < 2 ^ 63
    → b < 2 ^ 63
    → c < 2 ^ 63
    → let v : Version = record { major = pos a; minor = pos b; patch = pos c } in
      parse_version (show_version v ++ b'-' ∷ suffix) ≡ ok v
unfolding parse_version show_version itoa
parse-show a b c suffix ha hb hc =
    let da = digits-ne b'.' (decimal a) (omega arith) (decimal-digits a) in
    let db = digits-ne b'.' (decimal b) (omega arith) (decimal-digits b) in
    let dc = digits-ne b'.' (decimal c) (omega arith) (decimal-digits c) in
    rw
      (before-append b'-' (decimal a ++ b'.' ∷ (decimal b ++ b'.' ∷ decimal c)) suffix
        (shown-ne a b c))
      (rw (split-append b'.' (decimal a) (decimal b ++ b'.' ∷ decimal c) da) (
        rw (split-append b'.' (decimal b) (decimal c) db) (
          rw (split-none b'.' (decimal c) dc)
            (rw (atoi-decimal a ha, atoi-decimal b hb, atoi-decimal c hc)))))
