-- ===== src/Text/Decimal.antt =====
-- strconv.FormatInt and strconv.ParseInt in base 10, at 64 bits.
use anclax.Prelude.{
  ℕ, zero, suc, ◌+◌, ◌-◌, ◌*◌, ◌/◌, ◌%◌, ◌≤◌, ◌<◌, ◌≡◌, ◌&&◌, [], ◌∷◌, ◌++◌, Option, none, some,
  inl, inr, arith, if◌then◌else◌, ◌==◌, ltb, leb, Bool-cases, subst,
}
use anclax.Prelude.Int.{ℤ, pos, negsuc}
use anclax.Text.{Bytes}
use anclax.Text.Base64.{AreBytes}

-- The digits of a number, on fuel above it.
unfoldable pub format_digits : ℕ → ℕ → Bytes
format_digits zero n = []
format_digits (suc fuel) n =
    let front = format_digits fuel (n / 10) in
    if ltb n 10 then (n + b'0') ∷ [] else front ++ (n % 10 + b'0') ∷ []

unfoldable pub format_int : ℤ → Bytes
unfolding format_digits
format_int (pos n) = format_digits (suc n) n
format_int (negsuc n) = b'-' ∷ format_digits (suc (suc n)) (suc n)

unfoldable pub parse_digits : ℕ → Bytes → Option ℕ
parse_digits acc [] = some acc
parse_digits acc (c ∷ s) =
    let rest = parse_digits (acc * 10 + (c - b'0')) s in
    if leb b'0' c && leb c b'9' then rest else none

unfoldable pub parse_uint : Bytes → Option ℕ
unfolding parse_digits
parse_uint [] = none
parse_uint (c ∷ s) = parse_digits 0 (c ∷ s)

-- 2 ^ 63.
abbrev pub cutoff : ℕ
cutoff = 9223372036854775808

abbrev non_negative : Option ℕ → Option ℤ
non_negative none = none
non_negative (some n) = if ltb n cutoff then some (pos n) else none

abbrev negative : Option ℕ → Option ℤ
negative none = none
negative (some zero) = some (pos 0)
negative (some (suc n)) = if ltb n cutoff then some (negsuc n) else none

unfoldable pub parse_int : Bytes → Option ℤ
unfolding parse_uint
parse_int [] = none
parse_int (c ∷ s) =
    if c == b'-'
    then negative (parse_uint s)
    else if c == b'+'
    then non_negative (parse_uint s)
    else non_negative (parse_uint (c ∷ s))

abbrev pub IsInt64 : ℤ → Type 0
IsInt64 (pos n) = n < cutoff
IsInt64 (negsuc n) = n < cutoff

parse_digits-snoc :
    (acc : ℕ) (s : Bytes) (n d : ℕ)
    → parse_digits acc s ≡ some n
    → d < 10
    → parse_digits acc (s ++ (d + b'0') ∷ []) ≡ some (n * 10 + d)
unfolding parse_digits
parse_digits-snoc acc [] n d h k = ground arith
parse_digits-snoc acc (c ∷ s) n d h k =
    ground (arith, parse_digits-snoc (acc * 10 + (c - b'0')) s n d)

parse_digits-digit : (n : ℕ) → n < 10 → parse_digits 0 ((n + b'0') ∷ []) ≡ some n
unfolding parse_digits
parse_digits-digit n h = ground arith

parse_digits-format_digits :
    (fuel n : ℕ) → n < fuel → parse_digits 0 (format_digits fuel n) ≡ some n
unfolding format_digits
parse_digits-format_digits zero n h = absurd (omega arith)
parse_digits-format_digits (suc fuel) n h = elim (Bool-cases (ltb n 10)) [
  | inl small ↦ rw small (parse_digits-digit n (ground arith))
  | inr large ↦ rw large (
      subst (λ m. parse_digits 0 (format_digits fuel (n / 10) ++ (n % 10 + b'0') ∷ []) ≡ some m)
        (omega arith)
        (parse_digits-snoc 0 (format_digits fuel (n / 10)) (n / 10) (n % 10)
          (parse_digits-format_digits fuel (n / 10) (ground arith)) (omega arith)))
]

-- A number starts with a digit.
format_digits-head :
    (fuel n : ℕ) → n < fuel → (c : ℕ) × (s : Bytes) × (format_digits fuel n ≡ c ∷ s) × (b'0' ≤ c)
unfolding format_digits
format_digits-head zero n h = absurd (omega arith)
format_digits-head (suc fuel) n h = elim (Bool-cases (ltb n 10)) [
  | inl small ↦ (n + b'0', [], rw small, omega arith)
  | inr large ↦
      (let (c, s, e, digit) = format_digits-head fuel (n / 10) (ground arith) in
        (c, s ++ (n % 10 + b'0') ∷ [], rw (large, e), digit))
]

parse_uint-format_digits : (fuel n : ℕ) → n < fuel → parse_uint (format_digits fuel n) ≡ some n
unfolding parse_uint
parse_uint-format_digits fuel n h =
    let (c, s, e, digit) = format_digits-head fuel n h in
    rw e (subst (λ t. parse_digits 0 t ≡ some n) e (parse_digits-format_digits fuel n h))

-- Reading back what was written, at 64 bits.
pub parse_int-format_int : (i : ℤ) → IsInt64 i → parse_int (format_int i) ≡ some i
unfolding parse_int format_int
parse_int-format_int (pos n) h =
    let (c, s, e, digit) = format_digits-head (suc n) n (omega arith) in
    let whole : parse_uint (c ∷ s) ≡ some n =
      subst (λ t. parse_uint t ≡ some n) e (parse_uint-format_digits (suc n) n (omega arith)) in
    rw e (ground (arith, whole))
parse_int-format_int (negsuc n) h =
    rw (parse_uint-format_digits (suc (suc n)) (suc n) (omega arith)) (ground arith)

AreBytes-snoc : (s : Bytes) (c : ℕ) → AreBytes s → c < 256 → AreBytes (s ++ c ∷ [])
AreBytes-snoc [] c h k = (k, tt)
AreBytes-snoc (d ∷ s) c h k = (h.0, AreBytes-snoc s c h.1 k)

AreBytes-format_digits : (fuel n : ℕ) → AreBytes (format_digits fuel n)
unfolding format_digits
AreBytes-format_digits zero n = tt
AreBytes-format_digits (suc fuel) n = elim (Bool-cases (ltb n 10)) [
  | inl small ↦ rw small (ground arith)
  | inr large ↦ rw large (
      AreBytes-snoc (format_digits fuel (n / 10)) (n % 10 + b'0')
        (AreBytes-format_digits fuel (n / 10)) (omega arith))
]

pub AreBytes-format_int : (i : ℤ) → AreBytes (format_int i)
unfolding format_int
AreBytes-format_int (pos n) = AreBytes-format_digits (suc n) n
AreBytes-format_int (negsuc n) = (omega arith, AreBytes-format_digits (suc (suc n)) (suc n))
