-- ===== src/State/Writes.antt =====
-- src/state.rs: validation of a write, and what `commit_write` does to a valid store.
use stuntdouble.Common.{
  ℕ, ◌+◌, ◌-◌, ◌≤◌, ◌≡◌, inl, inr, Bool, true, ◌&&◌, ◌||◌, Option, arith, ltb, leb, if◌then◌else◌,
  length, Result, ok, err, map_ok, and_then, Bool-cases, Option-cases,
}
use stuntdouble.Common.Bytes.{Bytes}
use stuntdouble.Common.Dict.{
  lookup, insert, weight_at, IsMap-insert, All-remove, All-lookup, total-remove, length-remove,
  contains_key,
}
use stuntdouble.Json.{Json, array, object, Items, nil, cons, Members, end, member}
use stuntdouble.State.{
  max_key_bytes, max_value_bytes, max_total_bytes, max_entries, max_value_depth, Host, Store,
  entry_cost, StateError, capacity_exceeded, invalid_input, plan_write, deadline,
  validate_json_value, validate_items, validate_members,
}
use stuntdouble.State.Accounting.{
  cost, height, items_height, members_height, max, IsStored, IsValid,
}

abbrev depth_result : ℕ → Result (Unit {0}) StateError
depth_result deepest = if leb deepest max_value_depth then ok tt else err invalid_input

depth_result-deep :
    (d h : ℕ) → ltb max_value_depth d ≡ true → err invalid_input ≡ depth_result (d + h)
depth_result-deep d h e = ground arith

-- A child of height `a` one level down, then siblings of height `b`.
depth_result-max :
    (d a b : ℕ)
    → and_then (depth_result (d + 1 + a)) (λ _. depth_result (d + b))
      ≡ depth_result (d + max (a + 1) b)
depth_result-max d a b = ground arith

mutual
  unfolding validate_json_value validate_items validate_members height items_height members_height

  validate_json_value_lem :
      (value : Json) (depth : ℕ)
      → validate_json_value value depth ≡ depth_result (depth + height value)
  validate_json_value_lem (array values) depth = elim (Bool-cases (ltb max_value_depth depth)) [
    | inl deep ↦ rw deep (depth_result-deep depth (items_height values) deep)
    | inr fine ↦ rw fine (validate_items_lem values depth (ground arith))
  ]
  validate_json_value_lem (object members) depth = elim (Bool-cases (ltb max_value_depth depth)) [
    | inl deep ↦ rw deep (depth_result-deep depth (members_height members) deep)
    | inr fine ↦ rw fine (validate_members_lem members depth (ground arith))
  ]
  validate_json_value_lem _ depth = ground arith

  validate_items_lem :
      (values : Items) (depth : ℕ)
      → depth ≤ max_value_depth
      → validate_items values depth ≡ depth_result (depth + items_height values)
  validate_items_lem nil depth h = ground arith
  validate_items_lem (cons value values) depth h =
      rw (validate_json_value_lem value (depth + 1), validate_items_lem values depth h)
        (depth_result-max depth (height value) (items_height values))

  validate_members_lem :
      (members : Members) (depth : ℕ)
      → depth ≤ max_value_depth
      → validate_members members depth ≡ depth_result (depth + members_height members)
  validate_members_lem end depth h = ground arith
  validate_members_lem (member _ value members) depth h =
      rw (validate_json_value_lem value (depth + 1), validate_members_lem members depth h)
        (depth_result-max depth (height value) (members_height members))

-- A value passes the depth check exactly when its containers are nested 32 deep at most.
pub validate_json_value-height :
    (value : Json)
    → validate_json_value value 0
      ≡ (if leb (height value) max_value_depth then ok tt else err invalid_input)
validate_json_value-height value = ground (arith, validate_json_value_lem value 0)

-- The bytes in use once `key` holds a value of `n` bytes.
abbrev pub used_after : Bytes → ℕ → Store → ℕ
used_after key n s = s.used_bytes - weight_at cost key (lookup key s.entries) + (length key + n)

-- A write fits: the key is there or an entry is free, and the bytes are.
abbrev pub has_room : Bytes → ℕ → Store → Bool
has_room key n s =
    (contains_key key s.entries || ltb (length s.entries) max_entries)
    && leb (used_after key n s) max_total_bytes

-- The store that a successful write leaves.
unfoldable pub written : Bytes → Json → ℕ → Option ℕ → Store → Store
written key value n expires_at s = record {
  entries =
      insert key (record { value = value; value_bytes = n; expires_at = expires_at }) s.entries;
  used_bytes = used_after key n s;
}

module _ (host : Host) (s : Store) (v : IsValid host s) (key : Bytes) (n : ℕ) where
  charged : weight_at cost key (lookup key s.entries) ≤ s.used_bytes
  charged = omega (arith, total-remove cost key s.entries v.distinct, v.accounted)

  pub plan_write_lem :
      (ttl : Option ℕ) (now : ℕ)
      → length key ≤ max_key_bytes
      → n ≤ max_value_bytes
      → plan_write host key n ttl now s ≡ (
          if has_room key n s
          then map_ok (λ d. (used_after key n s, d)) (deadline host now ttl)
          else err capacity_exceeded)
  unfolding plan_write entry_cost
  plan_write_lem ttl now k b = elim (Option-cases (lookup key s.entries)) [
    | inl missing ↦ rw missing (ground (arith, v.within))
    | inr (e, found) ↦
        let paid : cost key e ≤ s.used_bytes = rw found at charged in
        let fits = All-lookup (IsStored host) key e s.entries v.stored found in
        rw found (ground (arith, v.within, fits.value_fits))
  ]

  pub written-IsValid :
      (value : Json) (expires_at : Option ℕ)
      → IsStored host (key, record { value = value; value_bytes = n; expires_at = expires_at })
      → has_room key n s ≡ true
      → IsValid host (written key value n expires_at s)
  unfolding written insert
  written-IsValid value expires_at fits room = record {
    distinct =
        IsMap-insert key (record { value = value; value_bytes = n; expires_at = expires_at })
          s.entries v.distinct;
    accounted = omega (arith, total-remove cost key s.entries v.distinct, charged, v.accounted);
    within = ground arith;
    few = ground (arith, length-remove key s.entries v.distinct, v.few);
    stored = (fits, All-remove (IsStored host) key s.entries v.stored);
  }
