-- ===== src/Files/Range/Index.antt =====
-- src/files.rs: what `parse_index` reads.
use stuntdouble.Common.{
  ℕ, ◌≤◌, ◌≡◌, ◌≢◌, ◌↔◌, true, some, [], ◌∷◌, arith, all, Bool-cases, inl, inr,
}
use stuntdouble.Common.Bytes.{Bytes, is_ascii_digit}
use stuntdouble.Common.Text.{decimal, u64_max, parse_u64-decimal}
use stuntdouble.Files.Range.{parse_index}

-- An index is read exactly from a text that has digits only, at least one, and that writes a number
-- of 64 bits at most; it is that number.
pub parse_index_iff :
    (raw : Bytes) (n : ℕ)
    → (parse_index raw ≡ some n)
      ↔ ((raw ≢ []) × (all is_ascii_digit raw ≡ true) × (decimal 0 raw ≡ n) × (n ≤ u64_max))
unfolding parse_index
parse_index_iff [] n = ground arith
parse_index_iff (c ∷ s) n = elim (Bool-cases (all is_ascii_digit (c ∷ s))) [
  | inl digits ↦ ground (arith, parse_u64-decimal c s digits)
  | inr other ↦ ground arith
]
