-- ===== src/Files/Range/Selects.antt =====
-- src/files.rs: which bytes of a file a range selects.
use stuntdouble.Common.{
  ℕ, ◌+◌, ◌-◌, ◌≤◌, ◌<◌, min, ◌≡◌, ◌≢◌, ◌↔◌, refl, true, false, ◌||◌, not, Option, none, some, [],
  ◌∷◌, ◌++◌, leb, ltb, ◌==◌, if◌then◌else◌, arith, All, All-append, all, Bool-cases, Option-cases,
  inl, inr,
}
use stuntdouble.Common.Bytes.{
  Bytes, codes, is_empty, is_ascii_digit, eq_ignore_ascii_case, to_ascii_lowercase,
}
use stuntdouble.Common.Text.{
  trim, split_once, contains, decimal, u64_max, split_once-append, digits-contains, digits-Visible,
  contains-append, trim-All, Visible,
}
use stuntdouble.Files.Range.{
  RangeDecision, full, partial, unsatisfiable, parse_index, decide_suffix, last_index, decide_from,
  decide_spec, decide_range,
}
use stuntdouble.Files.Range.Index.{parse_index_iff}

-- The answer carries byte i of a file of this size.
abbrev pub Carries : ℕ → RangeDecision → ℕ → Type 0
Carries size full i = i < size
Carries size (partial start len) i = (start ≤ i) × (i < start + len)
Carries size unsatisfiable i = ⊥

-- The answer lies within the file and is not empty.
abbrev pub IsWithin : ℕ → RangeDecision → Type 0
IsWithin size full = Unit
IsWithin size (partial start len) = (0 < len) × (start + len ≤ size)
IsWithin size unsatisfiable = Unit

decide_suffix-IsWithin :
    (size : ℕ) (last : Bytes) → (size == 0) ≡ false → IsWithin size (decide_suffix size last)
unfolding decide_suffix
decide_suffix-IsWithin size last h = ground arith

decide_from-IsWithin : (size : ℕ) (first last : Bytes) → IsWithin size (decide_from size first last)
unfolding decide_from last_index
decide_from-IsWithin size first last = ground arith

decide_spec-IsWithin :
    (size : ℕ) (spec : Bytes) → (size == 0) ≡ false → IsWithin size (decide_spec size spec)
unfolding decide_spec
decide_spec-IsWithin size spec h = elim (Option-cases (split_once b'-' spec)) [
  | inl uncut ↦ rw (uncut, decide_spec) tt
  | inr ((first, last), cut) ↦
      rw (cut, decide_spec)
        elim (Bool-cases (is_empty first)) [
          | inl blank ↦ rw blank (decide_suffix-IsWithin size last h)
          | inr some_first ↦ rw some_first (decide_from-IsWithin size first last)
        ]
]

-- A partial answer has at least one byte and lies within the file, whatever the header says.
pub decide_range-IsWithin :
    (size : ℕ) (range : Option Bytes) → IsWithin size (decide_range size range)
unfolding decide_range
decide_range-IsWithin size none = tt
decide_range-IsWithin size (some header) = elim (Option-cases (split_once b'=' (trim header))) [
  | inl uncut ↦ rw (uncut, decide_range) tt
  | inr ((unit, spec), cut) ↦
      rw (cut, decide_range)
        elim (Bool-cases
          (not (eq_ignore_ascii_case unit (codes "bytes")) || contains spec b',' || size == 0)) [
            | inl bad ↦ rw bad tt
            | inr good ↦ rw good (decide_spec-IsWithin size spec (ground (arith, good)))
          ]
]

-- The ranges of RFC 9110: `first-last`, `first-` and `-suffix`.
pub data Spec : Type 0 where
  between : Bytes → Bytes → Spec
  from : Bytes → Spec
  suffix : Bytes → Spec

abbrev pub spec_text : Spec → Bytes
spec_text (between first last) = first ++ b'-' ∷ last
spec_text (from first) = first ++ b'-' ∷ []
spec_text (suffix last) = b'-' ∷ last

-- A decimal number of at most 64 bits.
abbrev pub IsIndex : Bytes → Type 0
IsIndex text = (text ≢ []) × (all is_ascii_digit text ≡ true) × (decimal 0 text ≤ u64_max)

abbrev pub AreIndices : Spec → Type 0
AreIndices (between first last) = IsIndex first × IsIndex last
AreIndices (from first) = IsIndex first
AreIndices (suffix last) = IsIndex last

-- The range asks for byte i of a file of this size.
abbrev pub Asks : ℕ → Spec → ℕ → Type 0
Asks size (between first last) i = (decimal 0 first ≤ i) × (i ≤ decimal 0 last) × (i < size)
Asks size (from first) i = (decimal 0 first ≤ i) × (i < size)
Asks size (suffix last) i = (i < size) × (size ≤ i + decimal 0 last)

read_index : (text : Bytes) → IsIndex text → parse_index text ≡ some (decimal 0 text)
read_index text (some_text, digits, fits) =
    (parse_index_iff text (decimal 0 text)).1 (some_text, digits, refl, fits)

-- A range within the text of a specification.
cut_digits :
    (first last : Bytes)
    → IsIndex first
    → split_once b'-' (first ++ b'-' ∷ last) ≡ some (first, last)
unfolding is_ascii_digit
cut_digits first last f =
    split_once-append b'-' first last
      (digits-contains b'-' first (unfold is_ascii_digit in refl) f.1)

decide_spec-between :
    (size : ℕ) (first last : Bytes)
    → IsIndex first
    → IsIndex last
    → decide_spec size (first ++ b'-' ∷ last) ≡ (
        if leb size (decimal 0 first) || ltb (decimal 0 last) (decimal 0 first)
        then unsatisfiable
        else partial (decimal 0 first) (min (decimal 0 last) (size - 1) - decimal 0 first + 1))
unfolding decide_spec decide_from last_index
decide_spec-between size first last f l =
    ground (arith, cut_digits first last f, read_index first f, read_index last l)

decide_spec-from :
    (size : ℕ) (first : Bytes)
    → IsIndex first
    → decide_spec size (first ++ b'-' ∷ []) ≡ (
        if leb size (decimal 0 first)
        then unsatisfiable
        else partial (decimal 0 first) (size - 1 - decimal 0 first + 1))
unfolding decide_spec decide_from last_index
decide_spec-from size first f = ground (arith, cut_digits first [] f, read_index first f)

decide_spec-suffix :
    (size : ℕ) (last : Bytes)
    → IsIndex last
    → decide_spec size (b'-' ∷ last) ≡ (
        if decimal 0 last == 0
        then unsatisfiable
        else partial (size - min (decimal 0 last) size) (min (decimal 0 last) size))
unfolding decide_spec decide_suffix split_once
decide_spec-suffix size last l = ground (arith, read_index last l)

decide_spec-Asks :
    (size i : ℕ) (spec : Spec)
    → AreIndices spec
    → Carries size (decide_spec size (spec_text spec)) i ↔ Asks size spec i
decide_spec-Asks size i (between first last) (f, l) =
    rw (decide_spec-between size first last f l) (ground arith)
decide_spec-Asks size i (from first) f = rw (decide_spec-from size first f) (ground arith)
decide_spec-Asks size i (suffix last) l = rw (decide_spec-suffix size last l) (ground arith)

dash-Visible : Visible b'-'
unfolding Visible
dash-Visible = ground arith

spec_text-Visible : (spec : Spec) → AreIndices spec → All Visible (spec_text spec)
spec_text-Visible (between first last) (f, l) =
    All-append Visible first (b'-' ∷ last) (digits-Visible first f.1)
      (dash-Visible, digits-Visible last l.1)
spec_text-Visible (from first) f =
    All-append Visible first (b'-' ∷ []) (digits-Visible first f.1) (dash-Visible, tt)
spec_text-Visible (suffix last) l = (dash-Visible, digits-Visible last l.1)

no_comma : (text : Bytes) → all is_ascii_digit text ≡ true → contains text b',' ≡ false
no_comma text digits = digits-contains b',' text (unfold is_ascii_digit in refl) digits

dash-no_comma :
    (text : Bytes) → all is_ascii_digit text ≡ true → contains (b'-' ∷ text) b',' ≡ false
unfolding contains
dash-no_comma text digits = no_comma text digits

spec_text-comma : (spec : Spec) → AreIndices spec → contains (spec_text spec) b',' ≡ false
spec_text-comma (between first last) (f, l) =
    contains-append b',' first (b'-' ∷ last) (no_comma first f.1) (dash-no_comma last l.1)
spec_text-comma (from first) f =
    contains-append b',' first (b'-' ∷ []) (no_comma first f.1) (dash-no_comma [] refl)
spec_text-comma (suffix last) l = dash-no_comma last l.1

header-Visible : (spec : Spec) → AreIndices spec → All Visible (codes "bytes=" ++ spec_text spec)
unfolding Visible
header-Visible spec h =
    All-append Visible (codes "bytes=") (spec_text spec) (ground arith) (spec_text-Visible spec h)

decide_range-spec :
    (size : ℕ) (spec : Spec)
    → AreIndices spec
    → decide_range size (some (codes "bytes=" ++ spec_text spec))
      ≡ (if size == 0 then unsatisfiable else decide_spec size (spec_text spec))
unfolding decide_range split_once eq_ignore_ascii_case to_ascii_lowercase
decide_range-spec size spec h =
    let trimmed = trim-All b'b' (codes "ytes=" ++ spec_text spec) (header-Visible spec h) in
    rw (decide_range, trimmed, spec_text-comma spec h) refl

empty-Asks : (size i : ℕ) (spec : Spec) → (size == 0) ≡ true → ⊥ ↔ Asks size spec i
empty-Asks size i (between first last) h = ground arith
empty-Asks size i (from first) h = ground arith
empty-Asks size i (suffix last) h = ground arith

-- The bytes that answer a well-formed range are the bytes of the file that it asks for.
pub decide_range-Asks :
    (size i : ℕ) (spec : Spec)
    → AreIndices spec
    → Carries size (decide_range size (some (codes "bytes=" ++ spec_text spec))) i
      ↔ Asks size spec i
decide_range-Asks size i spec h = elim (Bool-cases (size == 0)) [
  | inl none_left ↦ rw (decide_range-spec size spec h, none_left) (empty-Asks size i spec none_left)
  | inr some_left ↦ rw (decide_range-spec size spec h, some_left) (decide_spec-Asks size i spec h)
]
