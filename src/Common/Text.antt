-- ===== src/Common/Text.antt =====
-- `str` functions of the standard library that are about whole texts: `trim`, `split_once`,
-- `contains`, and `parse::<u64>`.
use Prim.Native.Nat.{ℕ, zero, suc, ◌+◌, ◌*◌, ◌-◌, ◌/◌, ◌%◌, ◌<◌, ◌≤◌}
use mathlib.Core.Path.{◌≡◌, refl, ap}
use mathlib.Core.Logic.{◌⊎◌, inl, inr}
use mathlib.Core.Bool.{Bool, true, false, ◌&&◌, ◌||◌}
use mathlib.Core.Option.{Option, none, some}
use mathlib.Core.List.{List, [], ◌∷◌, ◌++◌, reverse, reverse-append, reverse-reverse}
use native.Mathlib.Omega.{arith}
use stuntdouble.Common.Tests.{Bool-cases, ◌==◌, ==_iff, leb, ltb, if◌then◌else◌}
use stuntdouble.Common.Lists.{All, all}
use stuntdouble.Common.Bytes.{Bytes, is_empty, is_ascii_digit}

-- The White_Space characters of Unicode, by the bytes of their UTF-8.
pub white : ℕ → Bool
white a = (leb 9 a && leb a 13) || a == 32

pub white_two : ℕ → ℕ → Bool
white_two a b = a == 194 && (b == 133 || b == 160)

pub white_three : ℕ → ℕ → ℕ → Bool
white_three a b c =
    (a == 225 && b == 154 && c == 128)
    || (a == 226 && b == 128 && ((leb 128 c && leb c 138) || c == 168 || c == 169 || c == 175))
    || (a == 226 && b == 129 && c == 159)
    || (a == 227 && b == 128 && c == 128)

-- A text without the characters that lead it and that the three tests find.
pub strip_leading : (ℕ → ℕ → Bool) → (ℕ → ℕ → ℕ → Bool) → Bytes → Bytes
strip_leading two three (a ∷ b ∷ c ∷ s) =
    let past_one = strip_leading two three (b ∷ c ∷ s) in
    let past_two = strip_leading two three (c ∷ s) in
    let past_three = strip_leading two three s in
    if white a
    then past_one
    else if two a b
    then past_two
    else if three a b c
    then past_three
    else a ∷ b ∷ c ∷ s
strip_leading two three (a ∷ b ∷ []) =
    let past_one = strip_leading two three (b ∷ []) in
    if white a then past_one else if two a b then [] else a ∷ b ∷ []
strip_leading two three (a ∷ []) = if white a then [] else a ∷ []
strip_leading two three [] = []

unfoldable pub trim : Bytes → Bytes
unfolding strip_leading white white_two white_three
trim s = reverse (
    strip_leading (λ b a. white_two a b) (λ c b a. white_three a b c)
      (reverse (strip_leading white_two white_three s)))

unfoldable pub split_once : ℕ → Bytes → Option (Bytes × Bytes)
split_once c [] = none
split_once c (x ∷ s) =
    let rest = split_once c s in
    if x == c
    then some ([], s)
    else elim rest [ none ↦ none | some (before, after) ↦ some (x ∷ before, after) ]

unfoldable pub contains : Bytes → ℕ → Bool
contains [] c = false
contains (x ∷ s) c = x == c || contains s c

abbrev pub u64_max : ℕ
u64_max = 18446744073709551615

-- The digits after a number: `checked_mul(10)` and `checked_add`, byte by byte.
pub parse_digits : ℕ → Bytes → Option ℕ
unfolding is_ascii_digit
parse_digits n [] = some n
parse_digits n (c ∷ s) =
    let more = parse_digits (n * 10 + (c - b'0')) s in
    if is_ascii_digit c then (if leb (n * 10 + (c - b'0')) u64_max then more else none) else none

-- `parse::<u64>().ok()`: a plus sign may lead, and a sign alone is no number.
unfoldable pub parse_u64 : Bytes → Option ℕ
unfolding parse_digits
parse_u64 [] = none
parse_u64 (c ∷ s) =
    if c == b'+' then (if is_empty s then none else parse_digits 0 s) else parse_digits 0 (c ∷ s)

-- The number that decimal digits write, whatever its size.
unfoldable pub decimal : ℕ → Bytes → ℕ
decimal n [] = n
decimal n (c ∷ s) = decimal (n * 10 + (c - b'0')) s

decimal-grows : (n : ℕ) (s : Bytes) → n ≤ decimal n s
unfolding decimal
decimal-grows n [] = omega arith
decimal-grows n (c ∷ s) = omega (arith, decimal-grows (n * 10 + (c - b'0')) s)

-- Digits are read exactly when the number that they write is a u64.
parse_digits-decimal :
    (n : ℕ) (s : Bytes)
    → n ≤ u64_max
    → all is_ascii_digit s ≡ true
    → parse_digits n s ≡ (if leb (decimal n s) u64_max then some (decimal n s) else none)
unfolding parse_digits decimal
parse_digits-decimal n [] h d = ground arith
parse_digits-decimal n (c ∷ s) h d = elim (Bool-cases (leb (n * 10 + (c - b'0')) u64_max)) [
  | inl fits ↦ ground (
    arith,
    fits,
    parse_digits-decimal (n * 10 + (c - b'0')) s (ground (arith, fits)) (ground arith),
  )
  | inr over ↦ ground (arith, over, decimal-grows (n * 10 + (c - b'0')) s)
]

pub parse_u64-decimal :
    (c : ℕ) (s : Bytes)
    → all is_ascii_digit (c ∷ s) ≡ true
    → parse_u64 (c ∷ s)
      ≡ (if leb (decimal 0 (c ∷ s)) u64_max then some (decimal 0 (c ∷ s)) else none)
unfolding parse_u64 is_ascii_digit
parse_u64-decimal c s d = ground (arith, parse_digits-decimal 0 (c ∷ s) (omega arith) d)

-- A text that neither begins nor ends with white space is its own trimming.
pub strip_leading-plain :
    (two : ℕ → ℕ → Bool) (three : ℕ → ℕ → ℕ → Bool) (a : ℕ) (s : Bytes)
    → white a ≡ false
    → ((b : ℕ) → two a b ≡ false)
    → ((b c : ℕ) → three a b c ≡ false)
    → strip_leading two three (a ∷ s) ≡ a ∷ s
unfolding strip_leading
strip_leading-plain two three a [] h k m = rw h
strip_leading-plain two three a (b ∷ []) h k m = rw (h, k b)
strip_leading-plain two three a (b ∷ c ∷ s) h k m = rw (h, k b, m b c)

unfoldable pub Visible : ℕ → Type 0
Visible c = (32 < c) × (c < 128)

trim-Visible :
    (a b : ℕ) (s : Bytes) → Visible a → Visible b → trim (a ∷ s ++ b ∷ []) ≡ a ∷ s ++ b ∷ []
unfolding trim Visible white white_two white_three
trim-Visible a b s h k =
    let text = a ∷ s ++ b ∷ [] in
    let turned = b ∷ reverse (a ∷ s) in
    let front : strip_leading white_two white_three text ≡ text =
      strip_leading-plain white_two white_three a (s ++ b ∷ []) (ground arith) (λ x. ground arith)
        (λ x y. ground arith) in
    let turn : reverse text ≡ turned = reverse-append (a ∷ s) (b ∷ []) in
    let back : strip_leading (λ y x. white_two x y) (λ z y x. white_three x y z) turned ≡ turned =
      strip_leading-plain (λ y x. white_two x y) (λ z y x. white_three x y z) b (reverse (a ∷ s))
        (ground arith) (λ x. ground arith) (λ x y. ground arith) in
    rw (trim, front, turn, back, ← turn, reverse-reverse text) refl

trim-one : (a : ℕ) → Visible a → trim (a ∷ []) ≡ a ∷ []
unfolding trim Visible white white_two white_three strip_leading
trim-one a h = ground arith

-- A list is empty or has a last element.
unsnoc : (s : Bytes) → (s ≡ []) ⊎ ((m : Bytes) × (z : ℕ) × (s ≡ m ++ z ∷ []))
unsnoc [] = inl refl
unsnoc (c ∷ s) = elim (unsnoc s) [
  | inl e ↦ inr ([], c, ap (λ t. c ∷ t) e)
  | inr (m, z, e) ↦ inr (c ∷ m, z, ap (λ t. c ∷ t) e)
]

All-last : (m : Bytes) (z : ℕ) → All Visible (m ++ z ∷ []) → Visible z
All-last [] z h = h.0
All-last (c ∷ m) z h = All-last m z h.1

pub trim-All : (a : ℕ) (s : Bytes) → All Visible (a ∷ s) → trim (a ∷ s) ≡ a ∷ s
trim-All a s (h, k) = elim (unsnoc s) [
  | inl e ↦ rw e (trim-one a h)
  | inr (m, z, e) ↦ rw e (trim-Visible a z m h (All-last m z (rw e at k)))
]

pub split_once-append :
    (c : ℕ) (s t : Bytes) → contains s c ≡ false → split_once c (s ++ c ∷ t) ≡ some (s, t)
unfolding split_once contains
split_once-append c [] t h = ground (arith, ==_iff c c)
split_once-append c (x ∷ s) t h = ground (arith, split_once-append c s t)

pub contains-append :
    (c : ℕ) (s t : Bytes)
    → contains s c ≡ false
    → contains t c ≡ false
    → contains (s ++ t) c ≡ false
unfolding contains
contains-append c [] t h k = k
contains-append c (x ∷ s) t h k = ground (arith, contains-append c s t)

-- Digits are visible, and are neither commas nor dashes.
pub digits-Visible : (s : Bytes) → all is_ascii_digit s ≡ true → All Visible s
unfolding is_ascii_digit Visible
digits-Visible [] h = tt
digits-Visible (c ∷ s) h = (ground arith, digits-Visible s (ground arith))

pub digits-contains :
    (c : ℕ) (s : Bytes)
    → is_ascii_digit c ≡ false
    → all is_ascii_digit s ≡ true
    → contains s c ≡ false
unfolding contains
digits-contains c [] n h = refl
digits-contains c (x ∷ s) n h = elim (Bool-cases (x == c)) [
  | inl same ↦ let e : x ≡ c = (==_iff x c).0 same in ground (arith, e)
  | inr other ↦ ground (arith, digits-contains c s n)
]

-- `{}` of an unsigned integer: its decimal digits. The fuel bounds their number.
unfoldable pub digits_of : ℕ → ℕ → Bytes → Bytes
digits_of zero n rest = rest
digits_of (suc fuel) n rest =
    let more = digits_of fuel (n / 10) ((b'0' + n % 10) ∷ rest) in
    if ltb n 10 then (b'0' + n) ∷ rest else more

unfoldable pub to_text : ℕ → Bytes
unfolding digits_of
to_text n = digits_of (suc n) n []

-- `join(separator)` of texts
pub join_with : Bytes → List Bytes → Bytes
join_with separator [] = []
join_with separator (part ∷ []) = part
join_with separator (part ∷ next ∷ parts) = part ++ separator ++ join_with separator (next ∷ parts)
