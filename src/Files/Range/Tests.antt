-- ===== src/Files/Range/Tests.antt =====
-- Runs of the range decision at concrete headers, and the theorems applied to them.
use stuntdouble.Common.{◌≡◌, ◌↔◌, refl, some, ◌++◌, arith}
use stuntdouble.Common.Bytes.{codes, eq_ignore_ascii_case, to_ascii_lowercase, is_ascii_digit}
use stuntdouble.Common.Text.{trim, split_once, contains, parse_u64, decimal}
use stuntdouble.Files.Range.{
  partial, unsatisfiable, parse_index, decide_range, decide_suffix, last_index, decide_from,
  decide_spec,
}
use stuntdouble.Files.Range.Selects.{Carries, suffix, spec_text, Asks, decide_range-Asks}

range_runs : Unit {0}
unfolding decide_range decide_suffix last_index decide_from decide_spec parse_index trim split_once
    contains parse_u64 eq_ignore_ascii_case to_ascii_lowercase is_ascii_digit
range_runs = tt

clamp_test : decide_range 10 (some (codes " Bytes=4-99 ")) ≡ partial 4 6
unfolding range_runs
clamp_test = refl

suffix_test : decide_range 10 (some (codes "bytes=-3")) ≡ partial 7 3
unfolding range_runs
suffix_test = refl

space_test : decide_range 10 (some (codes "bytes=1 -3")) ≡ unsatisfiable
unfolding range_runs
space_test = refl

-- An end that is past the file is cut to it, but not when it is past 64 bits.
huge_test :
    (decide_range 10 (some (codes "bytes=4-18446744073709551615")) ≡ partial 4 6)
    × (decide_range 10 (some (codes "bytes=4-18446744073709551616")) ≡ unsatisfiable)
unfolding range_runs
huge_test = (refl, refl)

decide_range-Asks_example :
    Carries 10 (decide_range 10 (some (codes "bytes=" ++ spec_text (suffix (codes "3"))))) 8
    ↔ Asks 10 (suffix (codes "3")) 8
unfolding decimal is_ascii_digit
decide_range-Asks_example =
    decide_range-Asks 10 8 (suffix (codes "3")) (ground arith, refl, ground arith)
