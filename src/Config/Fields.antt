-- ===== src/Config/Fields.antt =====
-- src/config.rs: the parsers of single fields.
use stuntdouble.Common.{
  ℕ, suc, Bool, not, Option, none, some, List, [], ◌∷◌, ◌++◌, leb, ◌==◌, if◌then◌else◌, any,
}
use stuntdouble.Common.Bytes.{Bytes, codes, ◌==ᵇ◌, is_empty, to_ascii_uppercase}
use stuntdouble.Common.Text.{to_text, join_with}
use stuntdouble.Config
use stuntdouble.Config.{
  Value, string, integer, array, table, I64, nonneg, negative, Table, Violation, Platform, Checked,
  pure, push, ◌>>=◌, ◌>>◌, integer_text, describe, missing, bad,
}

abbrev pub http_methods : List Bytes
http_methods =
    codes "GET"
    ∷ codes "POST"
    ∷ codes "PUT"
    ∷ codes "DELETE"
    ∷ codes "PATCH"
    ∷ codes "HEAD"
    ∷ codes "OPTIONS"
    ∷ []

abbrev pub script_memory_limit_floor_mb : ℕ
script_memory_limit_floor_mb = 64

-- `u64::try_from` and `u16::try_from` of an i64
abbrev pub as_u64 : I64 → Option ℕ
as_u64 (nonneg n) = some n
as_u64 (negative _) = none

abbrev pub as_u16 : I64 → Option ℕ
as_u16 (nonneg n) = if leb n 65535 then some n else none
as_u16 (negative _) = none

-- `match table.get(key)`: no value, a value of one kind, and any other.
unfoldable pub on_integer :
    {A : Type 0} → Option Value → Checked A → (I64 → Checked A) → (Value → Checked A) → Checked A
on_integer none absent f g = absent
on_integer (some (integer i)) absent f g = f i
on_integer (some other) absent f g = g other

unfoldable pub on_string :
    {A : Type 0} → Option Value → Checked A → (Bytes → Checked A) → (Value → Checked A) → Checked A
on_string none absent f g = absent
on_string (some (string s)) absent f g = f s
on_string (some other) absent f g = g other

unfoldable pub on_array :
    {A : Type 0}
    → Option Value
    → Checked A
    → (Config.Values → Checked A)
    → (Value → Checked A)
    → Checked A
on_array none absent f g = absent
on_array (some (array items)) absent f g = f items
on_array (some other) absent f g = g other

unfoldable pub on_table :
    {A : Type 0} → Option Value → Checked A → (Table → Checked A) → (Value → Checked A) → Checked A
on_table none absent f g = absent
on_table (some (table t)) absent f g = f t
on_table (some other) absent f g = g other

-- Push a violation and return none.
abbrev pub refuse : {A : Type 0} → Violation → Checked (Option A)
refuse violation = do push violation; pure none

-- A number that passes, or the violation for it.
abbrev pub positive : Option ℕ → Bytes → Bytes → I64 → Checked (Option ℕ)
positive (some n) field expected i =
    if n == 0
    then refuse (record { field = field; expected = expected; actual = integer_text i })
    else pure (some n)
positive none field expected i =
    refuse (record { field = field; expected = expected; actual = integer_text i })

unfoldable pub opt_positive_bytes : Table → Bytes → Bytes → Checked (Option ℕ)
opt_positive_bytes t key field =
    on_integer (Config.get key t) (pure none)
      (λ n. positive (as_u64 n) field (codes "integer number of bytes greater than 0") n)
      (λ other. refuse (bad field (codes "integer number of bytes") other))

unfoldable pub opt_port : Table → Bytes → Checked (Option ℕ)
opt_port t field =
    on_integer (Config.get (codes "port") t) (pure none)
      (λ n. positive (as_u16 n) field (codes "integer in [1, 65535]") n)
      (λ other. refuse (bad field (codes "integer in [1, 65535]") other))

unfoldable pub opt_duration_ms : Table → Bytes → Bytes → Checked (Option ℕ)
opt_duration_ms t key field =
    on_integer (Config.get key t) (pure none)
      (λ n. positive (as_u64 n) field (codes "integer number of milliseconds greater than 0") n)
      (λ other. refuse (bad field (codes "integer number of milliseconds") other))

abbrev pub at_floor : Option ℕ → Bytes → I64 → Checked (Option ℕ)
at_floor (some mb) field n =
    if leb script_memory_limit_floor_mb mb
    then pure (some mb)
    else refuse (record {
      field = field;
      expected = codes "integer number of MiB >= 64";
      actual = integer_text n;
    })
at_floor none field n = refuse (record {
  field = field;
  expected = codes "integer number of MiB >= 64";
  actual = integer_text n;
})

unfoldable pub opt_memory_limit_mb : Table → Bytes → Checked (Option ℕ)
opt_memory_limit_mb t field =
    on_integer (Config.get (codes "script_memory_limit_mb") t) (pure none)
      (λ n. at_floor (as_u64 n) field n)
      (λ other. refuse (bad field (codes "integer number of MiB >= 64") other))

unfoldable pub opt_string : Table → Bytes → Bytes → Checked (Option Bytes)
opt_string t key field =
    on_string (Config.get key t) (pure none)
      (λ s.
        if not (is_empty s)
        then pure (some s)
        else refuse (record { field = field; expected = codes "non-empty string"; actual = s }))
      (λ other. refuse (bad field (codes "string") other))

unfoldable pub req_string : Table → Bytes → Bytes → Checked (Option Bytes)
req_string t key field = elim (Config.get key t) [
  | none ↦ refuse (missing field (codes "string"))
  | some _ ↦ opt_string t key field
]

abbrev pub has : List Bytes → Bytes → Bool
has names name = any (λ n. n ==ᵇ name) names

unfoldable pub normalize_method : Bytes → Option Bytes
normalize_method method =
    if has http_methods (to_ascii_uppercase method) then some (to_ascii_uppercase method) else none

-- The loop of `reject_unknown`, over the keys.
unfoldable pub reject_keys : List Bytes → List Bytes → Bytes → Checked (Unit {0})
reject_keys [] allowed prefix = pure tt
reject_keys (key ∷ rest) allowed prefix =
    let later = reject_keys rest allowed prefix in
    if has allowed key then later else do
      push (record {
        field = if is_empty prefix then key else prefix ++ codes "." ++ key;
        expected = codes "one of [" ++ join_with (codes ", ") allowed ++ codes "]";
        actual = codes "unknown key";
      })
      later

unfoldable pub reject_unknown : Table → List Bytes → Bytes → Checked (Unit {0})
reject_unknown t allowed prefix = reject_keys (Config.keys t) allowed prefix

module _ (platform : Platform) where
  unfoldable pub opt_bind : Table → Bytes → Checked (Option Bytes)
  opt_bind t field =
      on_string (Config.get (codes "bind") t) (pure none)
        (λ value.
          if is_empty value
          then refuse
              (record { field = field; expected = codes "non-empty string"; actual = value })
          else if platform.is_address value
          then pure (some value)
          else refuse (record {
            field = field;
            expected = codes "IP address literal";
            actual = codes "string " ++ platform.debug value;
          }))
        (λ other. refuse (bad field (codes "IP address literal") other))

  -- One entry of the allowlist.
  unfoldable pub check_host : Bytes → ℕ → Value → Checked (Option Bytes)
  check_host field index (string host) =
      if is_empty host
      then refuse (record {
        field = field ++ codes "[" ++ to_text index ++ codes "]";
        expected = codes "non-empty host string";
        actual = describe (string host);
      })
      else elim (platform.normalize_host host) [
        | some normal ↦ pure (some normal)
        | none ↦ refuse (record {
          field = field ++ codes "[" ++ to_text index ++ codes "]";
          expected = codes "host name or IP literal without scheme or port";
          actual = codes "string " ++ platform.debug host;
        })
      ]
  check_host field index other = refuse (record {
    field = field ++ codes "[" ++ to_text index ++ codes "]";
    expected = codes "non-empty host string";
    actual = describe other;
  })

  abbrev pub kept : {A : Type 0} → Option A → List A → List A
  kept none rest = rest
  kept (some a) rest = a ∷ rest

  unfoldable pub check_hosts : Bytes → ℕ → List Value → Checked (List Bytes)
  check_hosts field index [] = pure []
  check_hosts field index (item ∷ items) = do
    host ← check_host field index item
    hosts ← check_hosts field (suc index) items
    pure (kept host hosts)

  unfoldable pub opt_host_list : Table → Bytes → Checked (Option (List Bytes))
  opt_host_list t field =
      on_array (Config.get (codes "allow_hosts") t) (pure none)
        (λ items. do hosts ← check_hosts field 0 (Config.values items); pure (some hosts))
        (λ other. refuse (bad field (codes "array of host strings") other))

  unfoldable pub validate_script_extension : Bytes → Bytes → Checked (Unit {0})
  validate_script_extension script prefix = elim (platform.extension script) [
    | none ↦ push (record {
      field = prefix ++ codes ".script";
      expected = codes "file name ending in .js";
      actual = script;
    })
    | some ext ↦
        if ext ==ᵇ codes "py"
        then push (record {
          field = prefix ++ codes ".script";
          expected = codes "JavaScript file (the Python runtime is not supported in this slice)";
          actual = script;
        })
        else if has (codes "js" ∷ codes "mjs" ∷ codes "cjs" ∷ []) ext
        then pure tt
        else push (record {
          field = prefix ++ codes ".script";
          expected = codes "file name ending in .js, not ." ++ ext;
          actual = script;
        })
  ]
