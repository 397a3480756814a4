-- ===== src/Iterator/Cursors.antt =====
-- iterator.go: cursors, their encoding, and the hand-over of a point in time. Packages
-- encoding/json and encoding/base64 are parameters.
use esodm.Prelude.{
  ◌+◌, ◌*◌, ◌/◌, ◌≤◌, ◌≡◌, refl, Bool, true, false, ◌||◌, Option, none, some, List, [], ◌∷◌, Bytes,
  is_empty, length, ltb, if◌then◌else◌, arith, inl, inr,
}
use esodm.Error.{Result, ok, err, sentinel, validation, reject, ◌>>◌, ◌>>=◌, Result-cases}
use esodm.Iterator.{Iterator}

-- Cursor
pub record Cursor : Type 0 where
  pub pit : Bytes
  pub sort : List Bytes

pub record Codec : Type 0 where
  pub marshal : Cursor → Result Bytes
  pub unmarshal : Bytes → Result Cursor
  -- base64.RawURLEncoding
  pub encode_base64 : Bytes → Bytes
  pub decode_base64 : Bytes → Option Bytes

abbrev pub no_sort : List Bytes → Bool
no_sort [] = true
no_sort (v ∷ vs) = false

-- Iterator.Cursor
unfoldable pub cursor : {Doc : Type 0} → Iterator Doc → Result Cursor
cursor it = elim it.current [
  | none ↦ err (sentinel validation)
  | some hit ↦
      if it.closed || no_sort hit.sort
      then err (sentinel validation)
      else ok (record { pit = it.pit; sort = hit.sort })
]

-- Iterator.Detach
abbrev pub detached : {Doc : Type 0} → Iterator Doc → Result Cursor → Result Cursor × Iterator Doc
detached it (err e) = (err e, it)
detached it (ok c) = (ok c, record it { closed = true })

unfoldable pub detach : {Doc : Type 0} → Iterator Doc → Result Cursor × Iterator Doc
detach it = detached it (cursor it)

module _ (codec : Codec) where
  open codec use {marshal, unmarshal, encode_base64, decode_base64}

  -- EncodeCursor
  unfoldable pub encode_cursor : Cursor → Result Bytes
  encode_cursor c = marshal c >>= λ b.
      reject (ltb 16384 (length b) || is_empty c.pit || no_sort c.sort) validation
      >> ok (encode_base64 b)

  abbrev pub decoded : Bytes → Option Bytes → Result Cursor
  decoded s none = err (sentinel validation)
  decoded s (some b) = unmarshal b >>= λ c. encode_cursor c >>= λ _. ok c

  -- DecodeCursor
  unfoldable pub decode_cursor : Bytes → Result Cursor
  decode_cursor s = reject (ltb 22000 (length s)) validation >> decoded s (decode_base64 s)

-- What the two packages document, of one cursor: its document is read back as it was written, and
-- unpadded base64 writes four characters for three bytes, which are read back too.
pub record Documented (codec : Codec) (c : Cursor) : Type 0 where
  pub read_back : (b : Bytes) → codec.marshal c ≡ ok b → codec.unmarshal b ≡ ok c
  pub decode_back :
      (b : Bytes) → codec.marshal c ≡ ok b → codec.decode_base64 (codec.encode_base64 b) ≡ some b
  pub base64_length :
      (b : Bytes) → codec.marshal c ≡ ok b → length (codec.encode_base64 b) ≡ (length b * 4 + 2) / 3

module _ (codec : Codec) (c : Cursor) (d : Documented codec c) where
  -- What an accepted cursor was encoded to.
  encoded_bytes :
      (s : Bytes)
      → encode_cursor codec c ≡ ok s
      → (b : Bytes) × (codec.marshal c ≡ ok b) × (s ≡ codec.encode_base64 b) × (length b ≤ 16384)
  unfolding encode_cursor
  encoded_bytes s h = elim (Result-cases (codec.marshal c)) [
    | inl (e, m) ↦ ground arith
    | inr (b, m) ↦ (b, m, ground arith, ground arith)
  ]

  short_enough :
      (b : Bytes)
      → codec.marshal c ≡ ok b
      → length b ≤ 16384
      → ltb 22000 (length (codec.encode_base64 b)) ≡ false
  short_enough b m l = ground (arith, d.base64_length b m)

  -- If EncodeCursor accepts a cursor, its document is read back as it was written and base64 is as
  -- documented for it, DecodeCursor reads the same cursor back.
  pub decode-encode : (s : Bytes) → encode_cursor codec c ≡ ok s → decode_cursor codec s ≡ ok c
  unfolding decode_cursor
  decode-encode s h =
      let (b, m, e, l) = encoded_bytes s h in
      rw e (rw (short_enough b m l, d.decode_back b m, d.read_back b m, h) refl)
