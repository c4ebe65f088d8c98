-- ===== src/Files/Range.antt =====
-- src/files.rs: the single range of a streamed file (`parse_index`, `decide_range`).
pub mod Index
pub mod Selects
mod Tests
use stuntdouble.Common.{
  ℕ, suc, ◌+◌, ◌-◌, min, Bool, true, false, ◌||◌, not, Option, none, some, List, [], ◌∷◌, leb, ltb,
  ◌==◌, if◌then◌else◌, all,
}
use stuntdouble.Common.Bytes.{Bytes, codes, is_empty, is_ascii_digit, eq_ignore_ascii_case}
use stuntdouble.Common.Text.{trim, split_once, contains, parse_u64}

pub data RangeDecision : Type 0 where
  full : RangeDecision
  -- `partial start len`
  partial : ℕ → ℕ → RangeDecision
  unsatisfiable : RangeDecision

pub parse_index : Bytes → Option ℕ
parse_index raw = if is_empty raw || not (all is_ascii_digit raw) then none else parse_u64 raw

-- `bytes=-N`: the last N bytes.
pub decide_suffix : ℕ → Bytes → RangeDecision
decide_suffix size last = elim (parse_index last) [
  | none ↦ unsatisfiable
  | some suffix ↦
      if suffix == 0 then unsatisfiable else partial (size - min suffix size) (min suffix size)
]

-- The end of a range that starts at `start`; `none` is the early return.
pub last_index : ℕ → ℕ → Bytes → Option ℕ
last_index size start last = if is_empty last then some (size - 1) else elim (parse_index last) [
  | none ↦ none
  | some end ↦ if ltb end start then none else some (min end (size - 1))
]

-- `bytes=A-` and `bytes=A-B`.
pub decide_from : ℕ → Bytes → Bytes → RangeDecision
decide_from size first last = elim (parse_index first) [
  | none ↦ unsatisfiable
  | some start ↦ if leb size start then unsatisfiable else elim (last_index size start last) [
    | none ↦ unsatisfiable
    | some end ↦ partial start (end - start + 1)
  ]
]

-- What follows the equals sign.
pub decide_spec : ℕ → Bytes → RangeDecision
decide_spec size spec = elim (split_once b'-' spec) [
  | none ↦ unsatisfiable
  | some (first, last) ↦
      if is_empty first then decide_suffix size last else decide_from size first last
]

unfoldable pub decide_range : ℕ → Option Bytes → RangeDecision
decide_range size none = full
decide_range size (some header) = elim (split_once b'=' (trim header)) [
  | none ↦ unsatisfiable
  | some (unit, spec) ↦
      if not (eq_ignore_ascii_case unit (codes "bytes")) || contains spec b',' || size == 0
      then unsatisfiable
      else decide_spec size spec
]
