-- ===== src/Text/Base64.antt =====
-- encoding/base64, StdEncoding: how `EncodeToString` and `DecodeString` translate bytes. The decoder
-- skips line ends, wants the padding, and does not look at the bits that the padding leaves over.
use anclax.Prelude.{
  ℕ, ◌+◌, ◌-◌, ◌*◌, ◌/◌, ◌%◌, ◌<◌, ◌≡◌, refl, true, false, ◌||◌, ◌&&◌, [], ◌∷◌, Option, none, some,
  arith, if◌then◌else◌, ◌==◌, ltb, leb,
}
use anclax.Text.{Bytes, lacks}

unfoldable pub sextet_char : ℕ → ℕ
sextet_char n =
    if ltb n 26
    then n + 65
    else if ltb n 52
    then n + 71
    else if ltb n 62
    then n - 4
    else if n == 62
    then b'+'
    else b'/'

unfoldable pub char_sextet : ℕ → Option ℕ
char_sextet c =
    if leb b'A' c && leb c b'Z'
    then some (c - 65)
    else if leb b'a' c && leb c b'z'
    then some (c - 71)
    else if leb b'0' c && leb c b'9'
    then some (c + 4)
    else if c == b'+'
    then some 62
    else if c == b'/'
    then some 63
    else none

abbrev pad : ℕ
pad = b'='

unfoldable pub encode : Bytes → Bytes
unfolding sextet_char
encode [] = []
encode (a ∷ []) = sextet_char (a / 4) ∷ sextet_char (a % 4 * 16) ∷ pad ∷ pad ∷ []
encode (a ∷ b ∷ []) =
    sextet_char (a / 4) ∷ sextet_char (a % 4 * 16 + b / 16) ∷ sextet_char (b % 16 * 4) ∷ pad ∷ []
encode (a ∷ b ∷ c ∷ rest) =
    sextet_char (a / 4)
    ∷ sextet_char (a % 4 * 16 + b / 16)
    ∷ sextet_char (b % 16 * 4 + c / 64)
    ∷ sextet_char (c % 64)
    ∷ encode rest

infixl 5 ◌>>=◌
abbrev ◌>>=◌ : {A B : Type 0} → Option A → (A → Option B) → Option B
none >>= f = none
some a >>= f = f a

abbrev last : Bytes → Bytes → Option Bytes
last [] out = some out
last (c ∷ rest) out = none

abbrev two_bytes : ℕ → ℕ → Option ℕ → Bytes → Option Bytes
two_bytes first second z rest = z >>= λ z. last rest (first ∷ (second + z / 4) ∷ [])

abbrev three_bytes : ℕ → ℕ → Option ℕ → Option ℕ → Option Bytes → Option Bytes
three_bytes first second z t more = do
  z ← z
  t ← t
  out ← more
  some (first ∷ (second + z / 4) ∷ (z % 4 * 64 + t) ∷ out)

-- The last two characters of a group, behind the first byte and the high half of the second.
unfoldable pub decode_tail : ℕ → ℕ → ℕ → ℕ → Bytes → Option Bytes → Option Bytes
unfolding char_sextet
decode_tail first second r s rest more =
    if s == pad
    then if r == pad then last rest (first ∷ []) else two_bytes first second (char_sextet r) rest
    else three_bytes first second (char_sextet r) (char_sextet s) more

-- One group of four, the groups after it, and their translation.
unfoldable pub decode_quad : ℕ → ℕ → ℕ → ℕ → Bytes → Option Bytes → Option Bytes
unfolding char_sextet decode_tail
decode_quad p q r s rest more = do
  x ← char_sextet p
  y ← char_sextet q
  decode_tail (x * 4 + y / 16) (y % 16 * 16) r s rest more

unfoldable pub decode_quads : Bytes → Option Bytes
unfolding decode_quad
decode_quads [] = some []
decode_quads (p ∷ q ∷ r ∷ s ∷ rest) = decode_quad p q r s rest (decode_quads rest)
decode_quads _ = none

unfoldable pub without_line_ends : Bytes → Bytes
without_line_ends [] = []
without_line_ends (c ∷ s) =
    let rest = without_line_ends s in if c == 10 || c == 13 then rest else c ∷ rest

unfoldable pub decode : Bytes → Option Bytes
unfolding decode_quads without_line_ends
decode s = decode_quads (without_line_ends s)

-- A character of the alphabet is the one of its value, and no separator, line end or padding.
char_sextet-sextet_char : (n : ℕ) → n < 64 → char_sextet (sextet_char n) ≡ some n
unfolding char_sextet sextet_char
char_sextet-sextet_char n h = ground arith

sextet_char-ne-pad : (n : ℕ) → (sextet_char n == pad) ≡ false
unfolding sextet_char
sextet_char-ne-pad n = ground arith

sextet_char-line_end : (n : ℕ) → (sextet_char n == 10 || sextet_char n == 13) ≡ false
unfolding sextet_char
sextet_char-line_end n = ground arith

sextet_char-ne-dot : (n : ℕ) → (sextet_char n == b'.') ≡ false
unfolding sextet_char
sextet_char-ne-dot n = ground arith

ruleset alphabet = (sextet_char-ne-pad, sextet_char-line_end, sextet_char-ne-dot)

without_line_ends-encode : (s : Bytes) → without_line_ends (encode s) ≡ encode s
unfolding without_line_ends encode
without_line_ends-encode [] = refl
without_line_ends-encode (a ∷ []) = simp alphabet
without_line_ends-encode (a ∷ b ∷ []) = simp alphabet
without_line_ends-encode (a ∷ b ∷ c ∷ rest) = simp (alphabet, without_line_ends-encode rest)

pub lacks_dot-encode : (s : Bytes) → lacks b'.' (encode s) ≡ true
unfolding lacks encode
lacks_dot-encode [] = refl
lacks_dot-encode (a ∷ []) = simp alphabet
lacks_dot-encode (a ∷ b ∷ []) = simp alphabet
lacks_dot-encode (a ∷ b ∷ c ∷ rest) = simp (alphabet, lacks_dot-encode rest)

abbrev pub AreBytes : Bytes → Type 0
AreBytes [] = Unit {0}
AreBytes (c ∷ s) = (c < 256) × AreBytes s

decode_quads-encode : (s : Bytes) → AreBytes s → decode_quads (encode s) ≡ some s
unfolding decode_quads decode_quad decode_tail encode
decode_quads-encode [] h = refl
decode_quads-encode (a ∷ []) h =
    rw (char_sextet-sextet_char (a / 4) (omega arith))
      (rw (char_sextet-sextet_char (a % 4 * 16) (omega arith)) (ground arith))
decode_quads-encode (a ∷ b ∷ []) h = rw (char_sextet-sextet_char (a / 4) (omega arith)) (
    rw (char_sextet-sextet_char (a % 4 * 16 + b / 16) (omega arith)) (
      rw (sextet_char-ne-pad (b % 16 * 4), char_sextet-sextet_char (b % 16 * 4) (omega arith))
        (ground arith)))
decode_quads-encode (a ∷ b ∷ c ∷ rest) h = rw (char_sextet-sextet_char (a / 4) (omega arith)) (
    rw (char_sextet-sextet_char (a % 4 * 16 + b / 16) (omega arith)) (
      rw
        (
          sextet_char-ne-pad (c % 64),
          char_sextet-sextet_char (b % 16 * 4 + c / 64) (omega arith),
          char_sextet-sextet_char (c % 64) (omega arith),
          decode_quads-encode rest h.1.1.1,
        )
        (ground arith)))

-- The decoder undoes the encoder on bytes.
pub decode-encode : (s : Bytes) → AreBytes s → decode (encode s) ≡ some s
unfolding decode
decode-encode s h = rw (without_line_ends-encode s) (decode_quads-encode s h)
