-- ===== src/Config/Sound.antt =====
-- src/config.rs: what a parser that leaves no violation has returned, field by field.
pub mod Numbers
pub mod Texts
pub mod Tables
pub mod Loaded
use stuntdouble.Common.{
  ℕ, suc, ◌+◌, ◌≤◌, ◌<◌, ◌≡◌, ◌≢◌, ◌⊎◌, inl, inr, refl, sym, ap, ◌∙◌, Bool, true, false, not, ◌&&◌,
  Option, none, some, List, [], ◌∷◌, ◌++◌, leb, ◌==◌, ==_iff, if◌then◌else◌, All, any, arith,
  Bool-cases, Option-cases,
}
use stuntdouble.Common.Bytes.{Bytes, codes, ◌==ᵇ◌, is_empty, to_ascii_uppercase}
use stuntdouble.Config
use stuntdouble.Config.{
  Value, string, integer, float, boolean, datetime, array, table, I64, nonneg, negative, Table,
  Violation, Platform, Checked, pure, push, proceed, ◌>>=◌, ◌>>◌, integer_text, bad, missing,
}
use stuntdouble.Config.Fields.{
  http_methods, has, as_u64, as_u16, refuse, positive, at_floor, opt_positive_bytes, opt_port,
  opt_duration_ms, opt_memory_limit_mb, opt_string, req_string, normalize_method, on_integer,
  on_string, on_array, on_table, reject_keys, reject_unknown, opt_bind, check_host, check_hosts,
  opt_host_list, validate_script_extension, kept,
}

-- If the parser leaves no violation, there was none before it, and its result is as it should be.
pub Sound : {A : Type 0} → (A → Type 0) → Checked A → Type 0
Sound P m = (out : List Violation) → (m out).1 ≡ [] → (out ≡ []) × P (m out).0

abbrev pub Any : {A : Type 0} → A → Type 0
Any a = Unit

snoc-ne : {A : Type 0} (xs : List A) (x : A) → (xs ++ x ∷ []) ≢ []
snoc-ne [] x e = cc
snoc-ne (y ∷ xs) x e = cc

pub Sound-pure : {A : Type 0} (P : A → Type 0) (a : A) → P a → Sound P (pure a)
unfolding Sound
Sound-pure P a p out e = (e, p)

pub Sound-push : (P : Unit {0} → Type 0) (violation : Violation) → Sound P (push violation)
unfolding Sound
Sound-push P violation out e = absurd (snoc-ne out violation e)

pub Sound-refuse :
    {A : Type 0} (P : Option A → Type 0) (violation : Violation) → Sound P (refuse violation)
unfolding Sound Config.◌>>=◌
Sound-refuse P violation out e = absurd (snoc-ne out violation e)

-- What follows may count on the first result only once it is known to leave no violation either.
pub Sound-bind :
    {A B : Type 0} (P : A → Type 0) (Q : B → Type 0) (m : Checked A) (f : A → Checked B)
    → Sound P m
    → ((a : A) → Sound (λ b. P a → Q b) (f a))
    → Sound Q (m >>= f)
unfolding Sound Config.◌>>=◌
Sound-bind P Q m f s k out e =
    let (clean, q) = k (m out).0 (m out).1 e in let (empty, p) = s out clean in (empty, q p)

pub Sound-weaken :
    {A : Type 0} (P Q : A → Type 0) (m : Checked A) → Sound P m → ((a : A) → P a → Q a) → Sound Q m
unfolding Sound
Sound-weaken P Q m s k out e = let (clean, p) = s out e in (clean, k (m out).0 p)

-- A push spoils whatever follows it.
pub Sound-spoiled :
    {B : Type 0} (Q : B → Type 0) (violation : Violation) (k : Checked B)
    → Sound Any k
    → Sound Q (push violation >> k)
unfolding Sound Config.◌>>=◌
Sound-spoiled Q violation k s out e = absurd (snoc-ne out violation (s (out ++ violation ∷ []) e).0)

module _ {A : Type 0} (P : A → Type 0) (absent : Checked A) (g : Value → Checked A)
    (s : Sound P absent) (w : (other : Value) → Sound P (g other)) where
  pub Sound-on_integer :
      (v : Option Value) (f : I64 → Checked A)
      → ((i : I64) → Sound P (f i))
      → Sound P (on_integer v absent f g)
  unfolding on_integer
  Sound-on_integer none f t = s
  Sound-on_integer (some (integer i)) f t = t i
  Sound-on_integer (some (string x)) f t = w (string x)
  Sound-on_integer (some (float x)) f t = w (float x)
  Sound-on_integer (some (boolean x)) f t = w (boolean x)
  Sound-on_integer (some (datetime x)) f t = w (datetime x)
  Sound-on_integer (some (array x)) f t = w (array x)
  Sound-on_integer (some (table x)) f t = w (table x)

  pub Sound-on_string :
      (v : Option Value) (f : Bytes → Checked A)
      → ((i : Bytes) → Sound P (f i))
      → Sound P (on_string v absent f g)
  unfolding on_string
  Sound-on_string none f t = s
  Sound-on_string (some (string i)) f t = t i
  Sound-on_string (some (integer x)) f t = w (integer x)
  Sound-on_string (some (float x)) f t = w (float x)
  Sound-on_string (some (boolean x)) f t = w (boolean x)
  Sound-on_string (some (datetime x)) f t = w (datetime x)
  Sound-on_string (some (array x)) f t = w (array x)
  Sound-on_string (some (table x)) f t = w (table x)

  pub Sound-on_array :
      (v : Option Value) (f : Config.Values → Checked A)
      → ((i : Config.Values) → Sound P (f i))
      → Sound P (on_array v absent f g)
  unfolding on_array
  Sound-on_array none f t = s
  Sound-on_array (some (array i)) f t = t i
  Sound-on_array (some (integer x)) f t = w (integer x)
  Sound-on_array (some (float x)) f t = w (float x)
  Sound-on_array (some (boolean x)) f t = w (boolean x)
  Sound-on_array (some (datetime x)) f t = w (datetime x)
  Sound-on_array (some (string x)) f t = w (string x)
  Sound-on_array (some (table x)) f t = w (table x)

  pub Sound-on_table :
      (v : Option Value) (f : Table → Checked A)
      → ((i : Table) → Sound P (f i))
      → Sound P (on_table v absent f g)
  unfolding on_table
  Sound-on_table none f t = s
  Sound-on_table (some (table i)) f t = t i
  Sound-on_table (some (integer x)) f t = w (integer x)
  Sound-on_table (some (float x)) f t = w (float x)
  Sound-on_table (some (boolean x)) f t = w (boolean x)
  Sound-on_table (some (datetime x)) f t = w (datetime x)
  Sound-on_table (some (string x)) f t = w (string x)
  Sound-on_table (some (array x)) f t = w (array x)
