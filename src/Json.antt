-- ===== src/Json.antt =====
-- `serde_json::Value`, imported by every module of src as `Json`: the constructors that its
-- documentation gives. Integers are exact; a float is the bit pattern of its binary64.
use stuntdouble.Common.{ℕ, ◌≡◌, arith, Bool, Option, none, some, List, [], ◌∷◌, if◌then◌else◌}
use stuntdouble.Common.Bytes.{Bytes, ◌==ᵇ◌}

pub data Number : Type 0 where
  pos_int : ℕ → Number
  -- `neg_int n` is -(n + 1).
  neg_int : ℕ → Number
  float : ℕ → Number

mutual
  pub data Json : Type 0 where
    null : Json
    bool : Bool → Json
    number : Number → Json
    string : Bytes → Json
    array : Items → Json
    object : Members → Json

  pub data Items : Type 0 where
    nil : Items
    cons : Json → Items → Items

  pub data Members : Type 0 where
    end : Members
    member : Bytes → Json → Members → Members

abbrev pub items : Items → List Json
items nil = []
items (cons x xs) = x ∷ items xs

abbrev pub keys : Members → List Bytes
keys end = []
keys (member k v m) = k ∷ keys m

-- `Map::get`
unfoldable pub find : Bytes → Members → Option Json
find k end = none
find k (member j v m) = if j ==ᵇ k then some v else find k m

-- `Value::get`: none on anything but an object.
unfoldable pub get : Bytes → Json → Option Json
unfolding find
get k (object m) = find k m
get k _ = none

abbrev pub as_str : Json → Option Bytes
as_str (string s) = some s
as_str _ = none

-- `Map::get` and `Value::get`, then `Json::as_str`.
unfoldable pub find_str : Bytes → Members → Option Bytes
find_str name fields = elim (find name fields) [ none ↦ none | some value ↦ as_str value ]

unfoldable pub get_str : Bytes → Json → Option Bytes
get_str name payload = elim (get name payload) [ none ↦ none | some value ↦ as_str value ]

abbrev pub as_u64 : Json → Option ℕ
as_u64 (number (pos_int n)) = some n
as_u64 _ = none

pub as_u64-some : (v : Json) (n : ℕ) → as_u64 v ≡ some n → v ≡ number (pos_int n)
as_u64-some (number (pos_int m)) n e = ground (arith, e)
as_u64-some (number (neg_int m)) n e = cc
as_u64-some (number (float m)) n e = cc
as_u64-some null n e = cc
as_u64-some (bool b) n e = cc
as_u64-some (string s) n e = cc
as_u64-some (array xs) n e = cc
as_u64-some (object m) n e = cc

abbrev pub members_of : List (Bytes × Json) → Members
members_of [] = end
members_of ((k, v) ∷ rest) = member k v (members_of rest)

-- `json!({ … })`: the members in the order in which the code lists them.
abbrev pub json : List (Bytes × Json) → Json
json fields = object (members_of fields)
