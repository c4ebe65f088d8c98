-- ===== src/State/Model.antt =====
-- src/state.rs: the limits of the store, its errors and its data.
use stuntdouble.Common.{ℕ, ◌+◌, ◌-◌, ◌*◌, ◌^◌, Option, none, some, leb, if◌then◌else◌}
use stuntdouble.Common.Bytes.{Bytes}
use stuntdouble.Common.Dict.{Dict}
use stuntdouble.Json.{Json}

abbrev pub max_key_bytes : ℕ
max_key_bytes = 256

abbrev pub max_value_bytes : ℕ
max_value_bytes = 16 * 1024

abbrev pub max_total_bytes : ℕ
max_total_bytes = 8 * 1024 * 1024

abbrev pub max_entries : ℕ
max_entries = 1024

abbrev pub max_ttl_ms : ℕ
max_ttl_ms = 604800000

abbrev pub max_value_depth : ℕ
max_value_depth = 32

-- `usize` on the 64-bit targets that are released.
abbrev pub usize_max : ℕ
usize_max = 2 ^ 64 - 1

abbrev pub checked_add : ℕ → ℕ → Option ℕ
checked_add a b = if leb (a + b) usize_max then some (a + b) else none

abbrev pub checked_sub : ℕ → ℕ → Option ℕ
checked_sub a b = if leb b a then some (a - b) else none

-- A `Duration` and an `Instant` are counts of nanoseconds.
abbrev pub from_millis : ℕ → ℕ
from_millis ms = ms * 1000000

-- What the store takes from outside: `serde_json::to_vec`, and the platform's last `Instant`.
pub record Host : Type 0 where
  pub to_vec : Json → Option Bytes
  pub instant_max : ℕ

pub data StateError : Type 0 where
  invalid_input capacity_exceeded internal : StateError

pub record Entry : Type 0 where
  pub value : Json
  pub value_bytes : ℕ
  pub expires_at : Option ℕ

pub record Store : Type 0 where
  pub entries : Dict Entry
  pub used_bytes : ℕ
