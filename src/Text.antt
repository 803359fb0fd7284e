-- ===== src/Text.antt =====
-- Byte strings as Go's `string` and `[]byte`, with what the code uses of the package `strings`.
pub mod Base64
pub mod Decimal
use anclax.Prelude.{
  ℕ, ◌+◌, ◌-◌, ◌≡◌, refl, ap, ◌∙◌, ◌↔◌, Bool, true, false, not, ◌&&◌, ◌||◌, List, [], ◌∷◌, ◌++◌,
  inl, inr, arith, if◌then◌else◌, ◌==◌, leb, length, take, drop, length-append, Bool-cases, Eq,
}
use mathlib.Core.List.{append_assoc}

abbrev pub Bytes : Type 0
Bytes = List ℕ

unfoldable pub bytes_eq : Bytes → Bytes → Bool
bytes_eq [] [] = true
bytes_eq (x ∷ xs) (y ∷ ys) = x == y && bytes_eq xs ys
bytes_eq [] (y ∷ ys) = false
bytes_eq (x ∷ xs) [] = false

pub bytes_eq_iff : (s t : Bytes) → (bytes_eq s t ≡ true) ↔ (s ≡ t)
unfolding bytes_eq
bytes_eq_iff [] [] = ground arith
bytes_eq_iff (x ∷ xs) (y ∷ ys) = ground (arith, bytes_eq_iff xs ys)
bytes_eq_iff [] (y ∷ ys) = ground arith
bytes_eq_iff (x ∷ xs) [] = ground arith

instance abbrev pub bytes_Eq : Eq Bytes
bytes_Eq = record { beq = bytes_eq; beq_iff = bytes_eq_iff }

-- strings.Split by one byte: there is always a first part.
unfoldable pub split_at : ℕ → Bytes → Bytes × List Bytes
split_at sep [] = ([], [])
split_at sep (c ∷ s) =
    let (part, parts) = split_at sep s in if c == sep then ([], part ∷ parts) else (c ∷ part, parts)

unfoldable pub split : ℕ → Bytes → List Bytes
unfolding split_at
split sep s = let (part, parts) = split_at sep s in part ∷ parts

-- first + sep + second + …
unfoldable pub join_after : ℕ → Bytes → List Bytes → Bytes
join_after sep first [] = first
join_after sep first (part ∷ parts) = join_after sep (first ++ sep ∷ part) parts

unfoldable pub lacks : ℕ → Bytes → Bool
lacks sep [] = true
lacks sep (c ∷ s) = not (c == sep) && lacks sep s

abbrev pub AllLack : ℕ → List Bytes → Type 0
AllLack sep [] = Unit {0}
AllLack sep (part ∷ parts) = (lacks sep part ≡ true) × AllLack sep parts

pub lacks-append :
    (sep : ℕ) (s t : Bytes) → lacks sep s ≡ true → lacks sep t ≡ true → lacks sep (s ++ t) ≡ true
unfolding lacks
lacks-append sep [] t h k = k
lacks-append sep (c ∷ s) t h k = ground (arith, lacks-append sep s t)

-- The text after a part that lacks the separator.
split_at-append :
    (sep : ℕ) (s t : Bytes)
    → lacks sep s ≡ true
    → split_at sep (s ++ sep ∷ t) ≡ (s, (split_at sep t).0 ∷ (split_at sep t).1)
unfolding split_at lacks
split_at-append sep [] t h = ground arith
split_at-append sep (c ∷ s) t h = ground (arith, split_at-append sep s t)

split_at-lacks : (sep : ℕ) (s : Bytes) → lacks sep s ≡ true → split_at sep s ≡ (s, [])
unfolding split_at lacks
split_at-lacks sep [] h = refl
split_at-lacks sep (c ∷ s) h = ground (arith, split_at-lacks sep s)

-- Joining glued parts: what is in front of the first separator is untouched.
join_after-append :
    (sep : ℕ) (s t : Bytes) (parts : List Bytes)
    → join_after sep (s ++ sep ∷ t) parts ≡ s ++ sep ∷ join_after sep t parts
unfolding join_after
join_after-append sep s t [] = refl
join_after-append sep s t (part ∷ parts) =
    ap (λ (x : Bytes). join_after sep x parts) (append_assoc s (sep ∷ t) (sep ∷ part))
    ∙ join_after-append sep s (t ++ sep ∷ part) parts

-- Splitting undoes joining, when no part has the separator in it.
pub split-join_after :
    (sep : ℕ) (first : Bytes) (parts : List Bytes)
    → lacks sep first ≡ true
    → AllLack sep parts
    → split sep (join_after sep first parts) ≡ first ∷ parts
unfolding split join_after
split-join_after sep first [] h k = rw (split_at-lacks sep first h)
split-join_after sep first (part ∷ parts) h k = rw (join_after-append sep first part parts) (
    rw (split_at-append sep first (join_after sep part parts) h)
      (ap (λ (r : List Bytes). first ∷ r) (split-join_after sep part parts k.0 k.1)))

pub join_after-snoc :
    (sep : ℕ) (first : Bytes) (parts : List Bytes) (part : Bytes)
    → join_after sep first (parts ++ part ∷ []) ≡ join_after sep first parts ++ sep ∷ part
unfolding join_after
join_after-snoc sep first [] part = refl
join_after-snoc sep first (p ∷ parts) part = join_after-snoc sep (first ++ sep ∷ p) parts part

unfoldable pub has_suffix : Bytes → Bytes → Bool
unfolding bytes_eq
has_suffix s suffix =
    leb (length suffix) (length s) && bytes_eq (drop (length s - length suffix) s) suffix

unfoldable pub trim_suffix : Bytes → Bytes → Bytes
unfolding has_suffix
trim_suffix s suffix = if has_suffix s suffix then take (length s - length suffix) s else s

drop-append : (s t : Bytes) → drop (length s) (s ++ t) ≡ t
drop-append [] t = refl
drop-append (x ∷ s) t = drop-append s t

take-append : (s t : Bytes) → take (length s) (s ++ t) ≡ s
take-append [] t = refl
take-append (x ∷ s) t = ap (λ (r : Bytes). x ∷ r) (take-append s t)

pub trim_suffix-append : (s t : Bytes) → trim_suffix (s ++ t) t ≡ s
unfolding trim_suffix has_suffix
trim_suffix-append s t =
    let gap : length (s ++ t) - length t ≡ length s = omega (arith, length-append s t) in
    let whole : leb (length t) (length (s ++ t)) ≡ true = ground (arith, length-append s t) in
    rw (gap, whole, drop-append s t, take-append s t) (rw ((bytes_eq_iff t t).1 refl) refl)
