-- ===== src/Config.antt =====
-- src/config.rs: the configuration, its violations, and the TOML values that it is read from.
pub mod Fields
pub mod Tables
pub mod Load
pub mod Sound
mod Tests
use stuntdouble.Common.{
  ℕ, suc, ◌+◌, Bool, true, false, Option, none, some, List, [], ◌∷◌, ◌++◌, length, if◌then◌else◌,
}
use stuntdouble.Common.Bytes.{Bytes, codes, ◌==ᵇ◌}
use stuntdouble.Common.Text.{to_text, join_with}
use stuntdouble.Matcher.{Route}

-- An i64: `nonneg n` is n, `negative n` is -(n + 1).
pub data I64 : Type 0 where
  nonneg : ℕ → I64
  negative : ℕ → I64

-- `toml::Value`, with the texts that a float and a date print; a table in the order of its keys.
mutual
  pub data Value : Type 0 where
    string : Bytes → Value
    integer : I64 → Value
    float : Bytes → Value
    boolean : Bool → Value
    datetime : Bytes → Value
    array : Values → Value
    table : Table → Value

  pub data Values : Type 0 where
    nil : Values
    cons : Value → Values → Values

  pub data Table : Type 0 where
    end : Table
    entry : Bytes → Value → Table → Table

abbrev pub keys : Table → List Bytes
keys end = []
keys (entry key _ rest) = key ∷ keys rest

abbrev pub values : Values → List Value
values nil = []
values (cons value rest) = value ∷ values rest

-- `Map::get`
unfoldable pub get : Bytes → Table → Option Value
get key end = none
get key (entry k value rest) = let later = get key rest in if k ==ᵇ key then some value else later

pub record Violation : Type 0 where
  pub field : Bytes
  pub expected : Bytes
  pub actual : Bytes

pub record ServerConfig : Type 0 where
  pub bind : Bytes
  pub port : ℕ
  pub request_timeout_ms : ℕ

pub record FilesConfig : Type 0 where
  pub root : Bytes
  pub upload_max_bytes : ℕ

pub record SandboxConfig : Type 0 where
  pub script_timeout_ms : ℕ
  pub script_memory_limit_mb : ℕ

pub record UpstreamConfig : Type 0 where
  pub allow_hosts : List Bytes
  pub timeout_ms : ℕ

pub record Fallback : Type 0 where
  pub name : Option Bytes
  pub script : Bytes

pub record Config : Type 0 where
  pub config_version : Bytes
  pub server : ServerConfig
  pub files : FilesConfig
  pub sandbox : SandboxConfig
  pub upstream : UpstreamConfig
  pub routes : List Route
  pub fallback : Option Fallback

-- Paths, addresses, hosts and `{:?}`: `join` is `base.join` for the directory of the configuration
-- file, `extension` is `Path::extension` as a text, `normalize_host` is by `url::Host::parse`.
pub record Platform : Type 0 where
  pub is_absolute : Bytes → Bool
  pub join : Bytes → Bytes
  pub extension : Bytes → Option Bytes
  pub is_dir : Bytes → Bool
  pub is_address : Bytes → Bool
  pub normalize_host : Bytes → Option Bytes
  pub debug : Bytes → Bytes

-- A parser that pushes violations: the vector `out` is its state.
abbrev pub Checked : Type 0 → Type 0
Checked A = List Violation → A × List Violation

abbrev pub pure : {A : Type 0} → A → Checked A
pure a out = (a, out)

abbrev pub push : Violation → Checked (Unit {0})
push violation out = (tt, out ++ violation ∷ [])

abbrev pub proceed : {A B : Type 0} → (A → Checked B) → A × List Violation → B × List Violation
proceed f (a, out) = f a out

infixl 5 ◌>>=◌ ◌>>◌
unfoldable pub ◌>>=◌ : {A B : Type 0} → Checked A → (A → Checked B) → Checked B
◌>>=◌ m f out = proceed f (m out)

abbrev pub ◌>>◌ : {B : Type 0} → Checked (Unit {0}) → Checked B → Checked B
m >> k = m >>= λ _. k

pub integer_text : I64 → Bytes
integer_text (nonneg n) = to_text n
integer_text (negative n) = b'-' ∷ to_text (suc n)

pub describe : Value → Bytes
describe (string s) = codes "string \"" ++ s ++ codes "\""
describe (integer i) = codes "integer " ++ integer_text i
describe (float f) = codes "float " ++ f
describe (boolean b) = codes "boolean " ++ (if b then codes "true" else codes "false")
describe (datetime d) = codes "datetime " ++ d
describe (array a) = codes "array of " ++ to_text (length (values a))
describe (table t) = codes "table with keys [" ++ join_with (codes ", ") (keys t) ++ codes "]"

abbrev pub missing : Bytes → Bytes → Violation
missing field expected = record { field = field; expected = expected; actual = codes "missing" }

abbrev pub bad : Bytes → Bytes → Value → Violation
bad field expected value = record { field = field; expected = expected; actual = describe value }
