-- ===== src/Config/Sound/Numbers.antt =====
-- src/config.rs: the numbers of a configuration.
use stuntdouble.Common.{ℕ, ◌≤◌, Option, none, some, leb, ◌==◌, arith, Bool-cases, inl, inr}
use stuntdouble.Common.Bytes.{Bytes, codes}
use stuntdouble.Config
use stuntdouble.Config.{I64, nonneg, negative, Table, Checked, pure}
use stuntdouble.Config.Fields.{
  as_u64, as_u16, positive, at_floor, opt_positive_bytes, opt_port, opt_duration_ms,
  opt_memory_limit_mb,
}
use stuntdouble.Config.Sound.{Sound, Sound-pure, Sound-refuse, Sound-on_integer}

-- A number, if one is given, is within these bounds.
abbrev pub IsFrom : ℕ → ℕ → Option ℕ → Type 0
IsFrom lo hi none = Unit
IsFrom lo hi (some n) = (lo ≤ n) × (n ≤ hi)

abbrev pub IsAtLeast : ℕ → Option ℕ → Type 0
IsAtLeast lo none = Unit
IsAtLeast lo (some n) = lo ≤ n

positive-IsAtLeast :
    (o : Option ℕ) (field expected : Bytes) (i : I64)
    → Sound (IsAtLeast 1) (positive o field expected i)
positive-IsAtLeast none field expected i = Sound-refuse _ _
positive-IsAtLeast (some n) field expected i = elim (Bool-cases (n == 0)) [
  | inl empty ↦ rw empty (Sound-refuse _ _)
  | inr given ↦ rw given (Sound-pure _ _ (ground (arith, given)))
]

positive-IsFrom :
    (field expected : Bytes) (i : I64)
    → Sound (IsFrom 1 65535) (positive (as_u16 i) field expected i)
positive-IsFrom field expected (negative n) = Sound-refuse _ _
positive-IsFrom field expected (nonneg n) = elim (Bool-cases (leb n 65535)) [
  | inr large ↦ rw large (Sound-refuse _ _)
  | inl small ↦ rw small elim (Bool-cases (n == 0)) [
    | inl empty ↦ rw empty (Sound-refuse _ _)
    | inr given ↦ rw given (Sound-pure _ _ (ground (arith, given, small)))
  ]
]

at_floor-IsAtLeast :
    (o : Option ℕ) (field : Bytes) (i : I64) → Sound (IsAtLeast 64) (at_floor o field i)
at_floor-IsAtLeast none field i = Sound-refuse _ _
at_floor-IsAtLeast (some n) field i = elim (Bool-cases (leb 64 n)) [
  | inl fine ↦ rw fine (Sound-pure _ _ (ground (arith, fine)))
  | inr low ↦ rw low (Sound-refuse _ _)
]

pub opt_duration_ms-IsAtLeast :
    (t : Table) (key field : Bytes) → Sound (IsAtLeast 1) (opt_duration_ms t key field)
unfolding opt_duration_ms
opt_duration_ms-IsAtLeast t key field =
    Sound-on_integer _ _ _ (Sound-pure _ _ tt) (λ other. Sound-refuse _ _) (Config.get key t) _
      (λ n. positive-IsAtLeast (as_u64 n) field _ n)

pub opt_positive_bytes-IsAtLeast :
    (t : Table) (key field : Bytes) → Sound (IsAtLeast 1) (opt_positive_bytes t key field)
unfolding opt_positive_bytes
opt_positive_bytes-IsAtLeast t key field =
    Sound-on_integer _ _ _ (Sound-pure _ _ tt) (λ other. Sound-refuse _ _) (Config.get key t) _
      (λ n. positive-IsAtLeast (as_u64 n) field _ n)

pub opt_port-IsFrom : (t : Table) (field : Bytes) → Sound (IsFrom 1 65535) (opt_port t field)
unfolding opt_port
opt_port-IsFrom t field =
    Sound-on_integer _ _ _ (Sound-pure _ _ tt) (λ other. Sound-refuse _ _)
      (Config.get (codes "port") t) _ (λ n. positive-IsFrom field _ n)

pub opt_memory_limit_mb-IsAtLeast :
    (t : Table) (field : Bytes) → Sound (IsAtLeast 64) (opt_memory_limit_mb t field)
unfolding opt_memory_limit_mb
opt_memory_limit_mb-IsAtLeast t field =
    Sound-on_integer _ _ _ (Sound-pure _ _ tt) (λ other. Sound-refuse _ _)
      (Config.get (codes "script_memory_limit_mb") t) _ (λ n. at_floor-IsAtLeast (as_u64 n) field n)
