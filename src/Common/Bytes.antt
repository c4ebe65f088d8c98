-- ===== src/Common/Bytes.antt =====
-- A Rust `str` or `[u8]` is the list of its bytes. Literals are ASCII.
use Prim.Native.Char.{code}
use Prim.Native.String.{String}
use Prim.Native.Nat.{ℕ, ◌-◌, ◌+◌}
use mathlib.Core.Path.{◌≡◌, refl}
use mathlib.Core.Logic.{◌↔◌}
use mathlib.Core.Bool.{Bool, true, false, ◌&&◌}
use mathlib.Core.Option.{Option, none, some}
use mathlib.Core.List.{List, [], ◌∷◌, map}
use native.Mathlib.Omega.{arith}
use stuntdouble.Common.Tests.{◌==◌, leb, if◌then◌else◌}

abbrev pub Bytes : Type 0
Bytes = List ℕ

-- The code points of a literal: its bytes, since it is ASCII.
abbrev pub codes : String → Bytes
codes String.[] = []
codes (String.◌∷◌ c s) = code c ∷ codes s

infix 50 ◌==ᵇ◌
abbrev pub ◌==ᵇ◌ : Bytes → Bytes → Bool
[] ==ᵇ [] = true
[] ==ᵇ (_ ∷ _) = false
(_ ∷ _) ==ᵇ [] = false
(a ∷ s) ==ᵇ (b ∷ t) = a == b && s ==ᵇ t

pub ==ᵇ_iff : (s t : Bytes) → ((s ==ᵇ t) ≡ true) ↔ (s ≡ t)
==ᵇ_iff [] [] = ground arith
==ᵇ_iff [] (_ ∷ _) = ground arith
==ᵇ_iff (_ ∷ _) [] = ground arith
==ᵇ_iff (a ∷ s) (b ∷ t) = ground (arith, ==ᵇ_iff s t)

pub ==ᵇ_self : (s : Bytes) → (s ==ᵇ s) ≡ true
==ᵇ_self s = (==ᵇ_iff s s).1 refl

abbrev pub is_empty : Bytes → Bool
is_empty [] = true
is_empty (_ ∷ _) = false

-- u8::to_ascii_uppercase, u8::to_ascii_lowercase
abbrev pub upper : ℕ → ℕ
upper c = if leb b'a' c && leb c b'z' then c - 32 else c

abbrev pub lower : ℕ → ℕ
lower c = if leb b'A' c && leb c b'Z' then c + 32 else c

unfoldable pub to_ascii_uppercase : Bytes → Bytes
to_ascii_uppercase s = map upper s

unfoldable pub to_ascii_lowercase : Bytes → Bytes
to_ascii_lowercase s = map lower s

unfoldable pub eq_ignore_ascii_case : Bytes → Bytes → Bool
unfolding to_ascii_lowercase
eq_ignore_ascii_case s t = to_ascii_lowercase s ==ᵇ to_ascii_lowercase t

unfoldable pub is_ascii_digit : ℕ → Bool
is_ascii_digit c = leb b'0' c && leb c b'9'

-- `str::split(c)`: one part more than there are separators.
abbrev pub extend_first : ℕ → List Bytes → List Bytes
extend_first x [] = (x ∷ []) ∷ []
extend_first x (part ∷ parts) = (x ∷ part) ∷ parts

unfoldable pub split_on : ℕ → Bytes → List Bytes
split_on c [] = [] ∷ []
split_on c (x ∷ s) = let rest = split_on c s in if x == c then [] ∷ rest else extend_first x rest

-- `str::strip_prefix(c)`
abbrev pub strip_prefix : ℕ → Bytes → Option Bytes
strip_prefix c [] = none
strip_prefix c (x ∷ s) = if x == c then some s else none
