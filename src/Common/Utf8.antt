-- ===== src/Common/Utf8.antt =====
-- `std::str::from_utf8` and `String::from_utf8_lossy`, one byte at a time.
use Prim.Native.Nat.{ℕ, zero, suc}
use mathlib.Core.Path.{◌≡◌, refl, sym, ◌∙◌, ap}
use mathlib.Core.Logic.{inl, inr}
use mathlib.Core.Bool.{Bool, true, false, ◌&&◌}
use mathlib.Core.Option.{Option, none, some}
use mathlib.Core.List.{[], ◌∷◌, ◌++◌, append_assoc, append-nil}
use native.Mathlib.Omega.{arith}
use stuntdouble.Common.Tests.{◌==◌, ltb, leb, if◌then◌else◌, Bool-cases, Option-cases}
use stuntdouble.Common.Bytes.{Bytes}

abbrev within : ℕ → ℕ → ℕ → Bool
within lo hi c = leb lo c && leb c hi

-- What a first byte announces: the range of the second byte, and how many more follow that one.
pub data Lead : Type 0 where
  ascii : Lead
  multi : ℕ → ℕ → ℕ → Lead
  bad : Lead

pub lead : ℕ → Lead
lead c =
    if ltb c 0x80
    then ascii
    else if within 0xC2 0xDF c
    then multi 0x80 0xBF 0
    else if c == 0xE0
    then multi 0xA0 0xBF 1
    else if c == 0xED
    then multi 0x80 0x9F 1
    else if within 0xE1 0xEF c
    then multi 0x80 0xBF 1
    else if c == 0xF0
    then multi 0x90 0xBF 2
    else if within 0xF1 0xF3 c
    then multi 0x80 0xBF 2
    else if c == 0xF4
    then multi 0x80 0x8F 2
    else bad

-- Between two characters, or inside one: the bytes that were read, the range of the next byte, and
-- how many follow it.
pub data Progress : Type 0 where
  idle : Progress
  need : Bytes → ℕ → ℕ → ℕ → Progress

-- U+FFFD
abbrev pub replacement : Bytes
replacement = 0xEF ∷ 0xBF ∷ 0xBD ∷ []

abbrev begin : Lead → ℕ → Bytes × Progress
begin ascii c = (c ∷ [], idle)
begin (multi lo hi left) c = ([], need (c ∷ []) lo hi left)
begin bad c = (replacement, idle)

abbrev advance : ℕ → Bytes → Bytes × Progress
advance zero read = (read, idle)
advance (suc left) read = ([], need read 0x80 0xBF left)

-- The bytes that are written when a byte is read, and what is read next. A byte that does not go on
-- with the character ends it, and is read again as a first byte.
step : Progress → ℕ → Bytes × Progress
step idle c = begin (lead c) c
step (need read lo hi left) c =
    if within lo hi c
    then advance left (read ++ c ∷ [])
    else let (out, next) = begin (lead c) c in (replacement ++ out, next)

lossy_from : Progress → Bytes → Bytes
lossy_from idle [] = []
lossy_from (need _ _ _ _) [] = replacement
lossy_from p (c ∷ s) = let (out, next) = step p c in out ++ lossy_from next s

unfoldable pub from_utf8_lossy : Bytes → Bytes
unfolding lossy_from step lead
from_utf8_lossy s = lossy_from idle s

accept_lead : Lead → ℕ → Option Progress
accept_lead ascii c = some idle
accept_lead (multi lo hi left) c = some (need (c ∷ []) lo hi left)
accept_lead bad c = none

accept : Progress → ℕ → Option Progress
unfolding accept_lead
accept idle c = accept_lead (lead c) c
accept (need read lo hi left) c =
    if within lo hi c then some (advance left (read ++ c ∷ [])).1 else none

valid_from : Progress → Bytes → Bool
valid_from idle [] = true
valid_from (need _ _ _ _) [] = false
valid_from p (c ∷ s) = elim (accept p c) [ none ↦ false | some next ↦ valid_from next s ]

-- `std::str::from_utf8(s).is_ok()`
unfoldable pub is_utf8 : Bytes → Bool
unfolding valid_from accept lead
is_utf8 s = valid_from idle s

abbrev pending : Progress → Bytes
pending idle = []
pending (need read _ _ _) = read

begin_accepted :
    (l : Lead) (c : ℕ) (next : Progress)
    → accept_lead l c ≡ some next
    → ((begin l c).1 ≡ next) × ((begin l c).0 ++ pending (begin l c).1 ≡ c ∷ [])
unfolding accept_lead
begin_accepted ascii c next h = (ground arith, refl)
begin_accepted (multi lo hi left) c next h = (ground arith, refl)
begin_accepted bad c next h = cc

advance_lem :
    (left : ℕ) (read : Bytes) → (advance left read).0 ++ pending (advance left read).1 ≡ read
advance_lem zero read = append-nil read
advance_lem (suc left) read = refl

-- One accepted byte: what is written and what is pending are the bytes that were read.
step_accepted :
    (p : Progress) (c : ℕ) (next : Progress)
    → accept p c ≡ some next
    → ((step p c).1 ≡ next) × ((step p c).0 ++ pending (step p c).1 ≡ pending p ++ c ∷ [])
unfolding step accept
step_accepted idle c next h = begin_accepted (lead c) c next h
step_accepted (need read lo hi left) c next h = elim (Bool-cases (within lo hi c)) [
  | inl fits ↦ rw fits (ground arith, advance_lem left (read ++ c ∷ []))
  | inr off ↦ cc (rw off at h)
]

lossy_from_valid :
    (p : Progress) (s : Bytes) → valid_from p s ≡ true → lossy_from p s ≡ pending p ++ s
unfolding lossy_from valid_from
lossy_from_valid idle [] h = refl
lossy_from_valid (need r lo hi left) [] h = cc
lossy_from_valid p (c ∷ s) h = elim (Option-cases (accept p c)) [
  | inl refused ↦ cc (rw (refused, valid_from) at h)
  | inr (next, taken) ↦
      let (same, bytes) = step_accepted p c next taken in
      let rest = lossy_from_valid (step p c).1 s (rw same (rw (taken, valid_from) at h)) in
      ap (λ t. (step p c).0 ++ t) rest
      ∙ sym (append_assoc (step p c).0 _ s)
      ∙ ap (λ t. t ++ s) bytes
      ∙ append_assoc (pending p) (c ∷ []) s
]

-- Well-formed text is passed on as it is.
pub from_utf8_lossy-valid : (s : Bytes) → is_utf8 s ≡ true → from_utf8_lossy s ≡ s
unfolding from_utf8_lossy is_utf8
from_utf8_lossy-valid s h = lossy_from_valid idle s h

-- The pending bytes are the beginning of a character.
abbrev IsBegun : Progress → Type 0
IsBegun p = (t : Bytes) → valid_from idle (pending p ++ t) ≡ valid_from p t

-- The bytes are whole characters.
abbrev IsWhole : Bytes → Type 0
IsWhole out = (t : Bytes) → valid_from idle (out ++ t) ≡ valid_from idle t

replacement-IsWhole : IsWhole replacement
unfolding valid_from accept accept_lead lead
replacement-IsWhole t = refl

append-IsWhole : (a b : Bytes) → IsWhole a → IsWhole b → IsWhole (a ++ b)
append-IsWhole a b whole_a whole_b t = rw append_assoc (whole_a (b ++ t) ∙ whole_b t)

begin-IsWhole : (c : ℕ) (l : Lead) → lead c ≡ l → IsWhole (begin l c).0 × IsBegun (begin l c).1
unfolding valid_from accept accept_lead
begin-IsWhole c ascii e = (λ t. rw (valid_from, accept, e), λ t. refl)
begin-IsWhole c (multi lo hi left) e = (λ t. refl, λ t. rw (valid_from, accept, e))
begin-IsWhole c bad e = (replacement-IsWhole, λ t. refl)

advance-IsWhole :
    (lo hi left c : ℕ) (read : Bytes)
    → within lo hi c ≡ true
    → IsBegun (need read lo hi left)
    → IsWhole (advance left (read ++ c ∷ [])).0 × IsBegun (advance left (read ++ c ∷ [])).1
unfolding valid_from accept
advance-IsWhole lo hi zero c read fits begun =
    (λ t. rw append_assoc (begun (c ∷ t) ∙ rw (valid_from, accept, fits)), λ t. refl)
advance-IsWhole lo hi (suc left) c read fits begun =
    (λ t. refl, λ t. rw append_assoc (begun (c ∷ t) ∙ rw (valid_from, accept, fits)))

step-IsWhole : (p : Progress) (c : ℕ) → IsBegun p → IsWhole (step p c).0 × IsBegun (step p c).1
unfolding step
step-IsWhole idle c begun = begin-IsWhole c (lead c) refl
step-IsWhole (need read lo hi left) c begun = elim (Bool-cases (within lo hi c)) [
  | inl fits ↦ rw fits (advance-IsWhole lo hi left c read fits begun)
  | inr off ↦
      let (whole, next) = begin-IsWhole c (lead c) refl in
      rw off (append-IsWhole replacement (begin (lead c) c).0 replacement-IsWhole whole, next)
]

lossy_from-is_utf8 :
    (p : Progress) (s : Bytes) → IsBegun p → valid_from idle (lossy_from p s) ≡ true
unfolding lossy_from
lossy_from-is_utf8 idle [] begun = unfold valid_from in refl
lossy_from-is_utf8 (need r lo hi left) [] begun = unfold valid_from accept accept_lead lead in refl
lossy_from-is_utf8 p (c ∷ s) begun =
    let (whole, next) = step-IsWhole p c begun in
    whole (lossy_from (step p c).1 s) ∙ lossy_from-is_utf8 (step p c).1 s next

-- Whatever the bytes, the result is well-formed.
pub from_utf8_lossy-is_utf8 : (s : Bytes) → is_utf8 (from_utf8_lossy s) ≡ true
unfolding from_utf8_lossy is_utf8
from_utf8_lossy-is_utf8 s = lossy_from-is_utf8 idle s (λ t. refl)
