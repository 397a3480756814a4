-- ===== src/Write/Values.antt =====
-- Which write options are accepted.
use esodm.Prelude.{
  ℕ, ◌<◌, ◌≡◌, ◌≢◌, ◌↔◌, ◌⊎◌, inl, inr, Option, none, some, ◌++◌, pos, negsuc, ℤ, [], ◌∷◌, text,
  arith, refl,
}
use esodm.Error.{ok, Result-cases}
use esodm.Decimal.{itoa}
use esodm.Write.{
  Values, WriteOptions, Refresh, unset, no_refresh, now, wait_for, unknown, tokens, check_refresh,
  other_values, values,
}

-- The accepted options: a known refresh, and both concurrency tokens, a nonnegative sequence number
-- and a positive primary term, or none.
abbrev pub Accepted : WriteOptions → Type 0
Accepted o =
    (o.refresh ≢ unknown)
    × (((o.if_seq_no ≡ none) × (o.if_primary_term ≡ none))
        ⊎ ((s t : ℕ) × (o.if_seq_no ≡ some (pos s)) × (o.if_primary_term ≡ some (pos t)) × (0 < t)))

abbrev InRange : Option ℤ → Option ℤ → Type 0
InRange a b =
    ((a ≡ none) × (b ≡ none)) ⊎ ((s t : ℕ) × (a ≡ some (pos s)) × (b ≡ some (pos t)) × (0 < t))

tokens-InRange : (a b : Option ℤ) (v : Values) → tokens a b ≡ ok v → InRange a b
tokens-InRange none none v h = inl (refl, refl)
tokens-InRange none (some t) v h = absurd (ground arith)
tokens-InRange (some s) none v h = absurd (ground arith)
tokens-InRange (some (pos s)) (some (pos t)) v h = inr (s, t, refl, refl, ground arith)
tokens-InRange (some (negsuc s)) (some t) v h = absurd (ground arith)
tokens-InRange (some (pos s)) (some (negsuc t)) v h = absurd (ground arith)

InRange-tokens : (a b : Option ℤ) → InRange a b → (v : Values) × (tokens a b ≡ ok v)
InRange-tokens a b (inl (p, q)) = ([], rw (p, q) refl)
InRange-tokens a b (inr (s, t, p, q, h)) = (
  (text "if_seq_no", itoa (pos s)) ∷ (text "if_primary_term", itoa (pos t)) ∷ [],
  rw (p, q) (ground arith),
)

known : (r : Refresh) → r ≢ unknown → check_refresh r ≡ ok tt
known unset h = refl
known no_refresh h = refl
known now h = refl
known wait_for h = refl
known unknown h = absurd (h refl)

values-Accepted : (o : WriteOptions) (v : Values) → values o ≡ ok v → Accepted o
unfolding values
values-Accepted o v h = elim (Result-cases (tokens o.if_seq_no o.if_primary_term)) [
  | inl (e, p) ↦ absurd (ground arith)
  | inr (t, p) ↦ (ground arith, tokens-InRange o.if_seq_no o.if_primary_term t p)
]

Accepted-values : (o : WriteOptions) → Accepted o → (v : Values) × (values o ≡ ok v)
unfolding values
Accepted-values o (k, r) =
    let (t, p) = InRange-tokens o.if_seq_no o.if_primary_term r in
    (t ++ other_values o, rw (known o.refresh k) (rw p refl))

-- The options of a write are turned into URL parameters exactly when the refresh value is one of
-- the four known ones, and the concurrency tokens are both absent or a nonnegative sequence number
-- with a positive primary term.
pub values_iff : (o : WriteOptions) → ((v : Values) × (values o ≡ ok v)) ↔ Accepted o
values_iff o = (λ h. values-Accepted o h.0 h.1, Accepted-values o)
