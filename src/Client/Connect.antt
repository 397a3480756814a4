-- ===== src/Client/Connect.antt =====
-- client.go: Connect and ConnectVersion, which make a client for a supported server only.
use mathlib.Core.Path.{subst}
use esodm.Prelude.{
  ℕ, ◌*◌, ◌^◌, ◌≡◌, ◌≤◌, inl, inr, refl, ap, sym, ◌∙◌, Bool, true, false, ◌||◌, Option, none, some,
  [], Bytes, text, if◌then◌else◌, arith, ℤ, pos, negsuc, ltb_ℤ, eq_ℤ, pos_part,
}
use esodm.Error.{Err, Result, ok, err, reject, validation, ◌>>=◌, ◌>>◌, Result-cases}
use esodm.Version.Order.{Supported, validate_version_iff}
use esodm.Version.{Version, parse_version, validate_version}
use esodm.Client.{Http, Json, Decoder}
use esodm.Client.Perform.{do_json}

-- Client, beside the transport and the functions of its configuration.
pub record Client : Type 0 where
  pub version : Version
  pub limit : ℤ

abbrev pub zero_version : Version
zero_version = record { major = pos 0; minor = pos 0; patch = pos 0 }

-- config.MaxResponseBytes after its default is applied.
abbrev pub with_default : ℤ → ℤ
with_default n = if eq_ℤ n (pos 0) then pos (32 * 2 ^ 20) else n

-- newClient, for a context with an error or none, and a transport that is nil or not.
unfoldable pub new_client : Option Err → Bool → ℤ → Result Client
new_client cancelled no_transport limit = reject no_transport validation >> (elim cancelled [
  | some e ↦ err e
  | none ↦
      reject (ltb_ℤ (with_default limit) (pos 1) || ltb_ℤ (pos (2 ^ 40)) (with_default limit))
        validation
      >> ok (record { version = zero_version; limit = with_default limit })
])

-- c.version = v
abbrev pub of_version : Client → Version → Result Client
of_version c v = validate_version v >> ok (record c { version = v })

-- ConnectVersion
unfoldable pub connect_version : Option Err → Bool → Version → ℤ → Result Client
connect_version cancelled no_transport version limit = do
  c ← new_client cancelled no_transport limit
  of_version c version

-- The version number that an answer of the server holds, the empty text where it has none.
abbrev pub number_of : Option Bytes → Bytes
number_of none = []
number_of (some s) = s

-- Connect, where the decoder reads the number of the version.
module _ {World : Type 0} (h : Http World) (j : Json) (d : Decoder Bytes) where
  abbrev pub discovered : Client → (Option Bytes × Option Err) × World → Result Client × World
  discovered c ((number, some e), w) = (err e, w)
  discovered c ((number, none), w) = ((do v ← parse_version (number_of number); of_version c v), w)

  abbrev pub connected : Result Client → World → Result Client × World
  connected (err e) w = (err e, w)
  connected (ok c) w =
      discovered c (do_json h j d (pos_part c.limit) (text "GET") (text "/") [] none true w)

  unfoldable pub connect : Option Err → Bool → ℤ → World → Result Client × World
  connect cancelled no_transport limit w = connected (new_client cancelled no_transport limit) w

-- A client that the package hands out: its version is supported, and its limit is in range.
abbrev pub IsConnected : Client → Type 0
IsConnected c = Supported c.version × (n : ℕ) × (c.limit ≡ pos n) × (1 ≤ n) × (n ≤ 2 ^ 40)

abbrev HasLimit : Client → Type 0
HasLimit c = (n : ℕ) × (c.limit ≡ pos n) × (1 ≤ n) × (n ≤ 2 ^ 40)

-- The last step of newClient, for a limit with its default.
abbrev in_range : ℤ → Result Client
in_range n =
    reject (ltb_ℤ n (pos 1) || ltb_ℤ (pos (2 ^ 40)) n) validation
    >> ok (record { version = zero_version; limit = n })

in_range-HasLimit :
    (n : ℤ) (c : Client)
    → in_range n ≡ ok c
    → (◌≡◌ {A = Option Err} none none) × (c.limit ≡ n) × HasLimit c
in_range-HasLimit (negsuc n) c p = absurd (ground arith)
in_range-HasLimit (pos n) c p = (refl, ground arith, (n, ground arith, ground arith, ground arith))

new_client-HasLimit :
    (cancelled : Option Err) (no_transport : Bool) (limit : ℤ) (c : Client)
    → new_client cancelled no_transport limit ≡ ok c
    → (cancelled ≡ none) × (c.limit ≡ with_default limit) × HasLimit c
unfolding new_client
new_client-HasLimit (some e) true limit c p = cc
new_client-HasLimit (some e) false limit c p = cc
new_client-HasLimit none true limit c p = cc
new_client-HasLimit none false limit c p = in_range-HasLimit (with_default limit) c p

of_version-IsConnected :
    (c c' : Client) (v : Version)
    → HasLimit c
    → of_version c v ≡ ok c'
    → IsConnected c' × (c'.version ≡ v)
of_version-IsConnected c c' v h p = elim (Result-cases (validate_version v)) [
  | inl (e, q) ↦ absurd (refused e q)
  | inr (_, q) ↦
      let same = accepted q in
      (
        subst (λ d. IsConnected d) same ((validate_version_iff v).0 q, h.0, h.1, h.2, h.3),
        ap (λ d. d.version) (sym same),
      )
]
  where
    refused : (e : Err) → validate_version v ≡ err e → ⊥
    refused e q = cc

    accepted : validate_version v ≡ ok tt → ◌≡◌ {A = Client} (record c { version = v }) c'
    accepted q = cc

bind-ok :
    (c c' : Client) (r : Result Version)
    → (r >>= of_version c) ≡ ok c'
    → (v : Version) × (r ≡ ok v) × (of_version c v ≡ ok c')
bind-ok c c' (err e) p = absurd (apart p)
  where
    apart : err e ≡ ok c' → ⊥
    apart q = cc
bind-ok c c' (ok v) p = (v, refl, p)

-- The answer of the server that Connect decodes.
module _ {World : Type 0} (h : Http World) (j : Json) (d : Decoder Bytes) where
  -- An outcome without an error, with a number of which the version is parsed.
  abbrev pub IsDiscovered : Option Bytes × Option Err → Version → Type 0
  IsDiscovered out v =
      (number : Option Bytes) × (out ≡ (number, none)) × (parse_version (number_of number) ≡ ok v)

  discovered-IsConnected :
      (c c' : Client) (out : (Option Bytes × Option Err) × World)
      → HasLimit c
      → (discovered h j d c out).0 ≡ ok c'
      → IsConnected c' × IsDiscovered (out.0) c'.version
  discovered-IsConnected c c' ((number, some e), w) l p = absurd (apart p)
    where
      apart : err e ≡ ok c' → ⊥
      apart q = cc
  discovered-IsConnected c c' ((number, none), w) l p =
      let b = bind-ok c c' (parse_version (number_of number)) p in
      let k = of_version-IsConnected c c' (b.0) l (b.2) in
      (k.0, (number, refl, b.1 ∙ ap ok (sym (k.1))))

  -- If Connect returns a client, its context is not done, the version of the client is supported
  -- and parsed from the number that the server answers to GET /, and its limit is 1 to 2^40 bytes.
  pub connect-IsConnected :
      (cancelled : Option Err) (no_transport : Bool) (limit : ℤ) (w : World) (c : Client)
      → (connect h j d cancelled no_transport limit w).0 ≡ ok c
      → (cancelled ≡ none)
        × IsConnected c
        × IsDiscovered
            ((do_json h j d
              (pos_part (with_default limit))
              (text "GET")
              (text "/")
              []
              none
              true
              w).0)
            c.version
  unfolding connect
  connect-IsConnected cancelled no_transport limit w c p =
      of_new (new_client cancelled no_transport limit) refl p
    where
      of_new :
          (r : Result Client)
          → new_client cancelled no_transport limit ≡ r
          → (connected h j d r w).0 ≡ ok c
          → (cancelled ≡ none)
            × IsConnected c
            × IsDiscovered
                ((do_json h j d
                  (pos_part (with_default limit))
                  (text "GET")
                  (text "/")
                  []
                  none
                  true
                  w).0)
                c.version
      of_new (err e) q p = absurd (apart p)
        where
          apart : err e ≡ ok c → ⊥
          apart q = cc
      of_new (ok c') q p =
          let l = new_client-HasLimit cancelled no_transport limit c' q in
          let k =
            discovered-IsConnected c' c
              (do_json h j d (pos_part c'.limit) (text "GET") (text "/") [] none true w) (l.2) p in
          (
            l.0,
            k.0,
            subst
                (λ n.
                  IsDiscovered
                    ((do_json h j d (pos_part n) (text "GET") (text "/") [] none true w).0)
                    c.version)
                (l.1) (k.1),
          )
