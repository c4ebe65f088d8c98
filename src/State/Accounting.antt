-- ===== src/State/Accounting.antt =====
-- src/state.rs: the store's invariant, and what the removals of entries do to it.
use stuntdouble.Common.{
  ℕ, ◌+◌, ◌-◌, ◌≤◌, ◌<◌, ◌≡◌, refl, inl, inr, Bool, true, false, ◌||◌, Option, none, some, List, [],
  ◌∷◌, arith, leb, if◌then◌else◌, length, All, ok, Bool-cases, Option-cases,
}
use stuntdouble.Common.Bytes.{Bytes, ◌==ᵇ◌, ==ᵇ_iff, ==ᵇ_self}
use stuntdouble.Common.Dict.{
  Dict, lookup, remove, IsMap, total, weight_at, lookup-remove, IsMap-remove, All-remove,
  All-lookup, total-remove, length-remove, contains_key, lookup_of_Lacks,
}
use stuntdouble.Json.{Json, array, object, Items, nil, cons, Members, end, member}
use stuntdouble.State.{
  max_key_bytes, max_value_bytes, max_total_bytes, max_entries, max_value_depth, Host, Entry, Store,
  entry_cost, remove_entry, remove_present, remove_each, expired_keys, remove_all_expired,
  remove_if_expired, is_expired, is_some_and,
}

abbrev pub max : ℕ → ℕ → ℕ
max a b = if leb a b then b else a

-- How deep the containers of a value are nested.
unfoldable mutual
  pub height : Json → ℕ
  height (array values) = items_height values
  height (object members) = members_height members
  height _ = 0

  pub items_height : Items → ℕ
  items_height nil = 0
  items_height (cons value values) = max (height value + 1) (items_height values)

  pub members_height : Members → ℕ
  members_height end = 0
  members_height (member _ value members) = max (height value + 1) (members_height members)

abbrev pub cost : Bytes → Entry → ℕ
cost key entry = length key + entry.value_bytes

pub record IsStored (host : Host) (kv : Bytes × Entry) : Type 0 where
  pub key_nonempty : 0 < length kv.0
  pub key_fits : length kv.0 ≤ max_key_bytes
  pub value_fits : kv.1.value_bytes ≤ max_value_bytes
  pub shallow : height kv.1.value ≤ max_value_depth
  pub compact : Bytes
  pub printed : host.to_vec kv.1.value ≡ some compact
  pub measured : length compact ≡ kv.1.value_bytes

pub record IsValid (host : Host) (s : Store) : Type 0 where
  pub distinct : IsMap s.entries
  pub accounted : s.used_bytes ≡ total cost s.entries
  pub within : s.used_bytes ≤ max_total_bytes
  pub few : length s.entries ≤ max_entries
  pub stored : All (IsStored host) s.entries

-- The store without a key, its bytes given back.
unfoldable pub without : Bytes → Store → Store
without key s = record {
  entries = remove key s.entries;
  used_bytes = s.used_bytes - weight_at cost key (lookup key s.entries);
}

pub without_all : List Bytes → Store → Store
unfolding without
without_all [] s = s
without_all (key ∷ keys) s = without_all keys (without key s)

abbrev pub member_of : Bytes → List Bytes → Bool
member_of j [] = false
member_of j (k ∷ ks) = k ==ᵇ j || member_of j ks

-- What is left of an entry at a time.
abbrev pub live : ℕ → Option Entry → Option Entry
live now none = none
live now (some entry) = if is_expired entry now then none else some entry

-- Every key is there when its turn comes.
abbrev Removable : List Bytes → Store → Type 0
Removable [] s = Unit
Removable (key ∷ keys) s = (contains_key key s.entries ≡ true) × Removable keys (without key s)

Removable-expired_keys :
    (now : ℕ) (es : Dict Entry) (s : Store)
    → IsMap es
    → ((j : Bytes) → contains_key j es ≡ true → contains_key j s.entries ≡ true)
    → Removable (expired_keys now es) s
unfolding expired_keys lookup without
Removable-expired_keys now [] s m covers = tt
Removable-expired_keys now ((k, e) ∷ es) s (lacks, m) covers =
    elim (Bool-cases (is_expired e now)) [
      | inl gone ↦ rw gone (
        covers k (rw (==ᵇ_self k)),
        Removable-expired_keys now es (without k s) m (λ j h. still j h (covers j (kept j h))),
      )
      | inr live ↦ rw live (Removable-expired_keys now es s m (λ j h. covers j (kept j h)))
    ]
  where
    kept : (j : Bytes) → contains_key j es ≡ true → contains_key j ((k, e) ∷ es) ≡ true
    kept j h = ground arith

    still :
        (j : Bytes)
        → contains_key j es ≡ true
        → contains_key j s.entries ≡ true
        → contains_key j (without k s).entries ≡ true
    still j h g =
        ground (arith, lookup-remove k j s.entries, lookup_of_Lacks k es lacks, ==ᵇ_iff k j)

pub remove_entry-absent :
    (key : Bytes) (s : Store) → lookup key s.entries ≡ none → remove_entry key s ≡ (ok none, s)
unfolding remove_entry
remove_entry-absent key s h = rw (h, remove_entry)

module _ (host : Host) where
  pub without-IsValid : (key : Bytes) (s : Store) → IsValid host s → IsValid host (without key s)
  unfolding without
  without-IsValid key s v = record {
    distinct = IsMap-remove key s.entries v.distinct;
    accounted = omega (arith, total-remove cost key s.entries v.distinct);
    within = omega arith;
    few = omega (arith, length-remove key s.entries v.distinct);
    stored = All-remove (IsStored host) key s.entries v.stored;
  }

  pub remove_entry-present :
      (key : Bytes) (e : Entry) (s : Store)
      → IsValid host s
      → lookup key s.entries ≡ some e
      → remove_entry key s ≡ (ok (some e), without key s)
  unfolding remove_entry entry_cost without
  remove_entry-present key e s v h =
      let fits = All-lookup (IsStored host) key e s.entries v.stored h in
      let charged : cost key e ≤ s.used_bytes =
        omega (arith, rw h at (total-remove cost key s.entries v.distinct)) in
      ground (arith, fits.key_fits, fits.value_fits, charged)

  pub remove_present_lem :
      (key : Bytes) (s : Store)
      → IsValid host s
      → contains_key key s.entries ≡ true
      → remove_present key s ≡ (ok tt, without key s)
  unfolding remove_present
  remove_present_lem key s v h = elim (Option-cases (lookup key s.entries)) [
    | inl missing ↦ cc (rw missing at h)
    | inr (e, found) ↦ rw (remove_entry-present key e s v found)
  ]

  pub remove_each_lem :
      (keys : List Bytes) (s : Store)
      → IsValid host s
      → Removable keys s
      → (remove_each keys s ≡ (ok tt, without_all keys s)) × IsValid host (without_all keys s)
  unfolding remove_each without_all
  remove_each_lem [] s v r = (refl, v)
  remove_each_lem (key ∷ keys) s v (present, r) =
      rw (remove_present_lem key s v present)
        (remove_each_lem keys (without key s) (without-IsValid key s v) r)

lookup-without_all :
    (j : Bytes) (keys : List Bytes) (s : Store)
    → lookup j (without_all keys s).entries
      ≡ (if member_of j keys then none else lookup j s.entries)
unfolding without_all without
lookup-without_all j [] s = refl
lookup-without_all j (k ∷ keys) s =
    ground (arith, lookup-without_all j keys (without k s), lookup-remove k j s.entries)

member_of-expired_keys :
    (now : ℕ) (j : Bytes) (es : Dict Entry)
    → IsMap es
    → member_of j (expired_keys now es) ≡ is_some_and (λ e. is_expired e now) (lookup j es)
unfolding expired_keys lookup
member_of-expired_keys now j [] m = refl
member_of-expired_keys now j ((k, e) ∷ es) (lacks, m) =
    ground (arith, member_of-expired_keys now j es m, lookup_of_Lacks k es lacks, ==ᵇ_iff k j)

pub lookup-swept :
    (now : ℕ) (j : Bytes) (s : Store)
    → IsMap s.entries
    → lookup j (without_all (expired_keys now s.entries) s).entries ≡ live now (lookup j s.entries)
lookup-swept now j s m = ground (
  arith,
  lookup-without_all j (expired_keys now s.entries) s,
  member_of-expired_keys now j s.entries m,
)

-- The store that `remove_all_expired` leaves.
abbrev pub swept : ℕ → Store → Store
swept now s = without_all (expired_keys now s.entries) s

module _ (host : Host) (now : ℕ) (s : Store) (v : IsValid host s) where
  pub remove_all_expired_lem :
      (remove_all_expired now s ≡ (ok tt, swept now s)) × IsValid host (swept now s)
  unfolding remove_all_expired
  remove_all_expired_lem =
      remove_each_lem host (expired_keys now s.entries) s v
        (Removable-expired_keys now s.entries s v.distinct (λ j h. h))

  -- `remove_if_expired` drops the key exactly when its entry has expired.
  pub remove_if_expired-expired :
      (key : Bytes)
      → is_some_and (λ e. is_expired e now) (lookup key s.entries) ≡ true
      → remove_if_expired key now s ≡ (ok true, without key s)
  unfolding remove_if_expired
  remove_if_expired-expired key h =
      let present : contains_key key s.entries ≡ true = ground arith in
      rw (h, remove_present_lem host key s v present)

  pub remove_if_expired-live :
      (key : Bytes)
      → is_some_and (λ e. is_expired e now) (lookup key s.entries) ≡ false
      → remove_if_expired key now s ≡ (ok false, s)
  unfolding remove_if_expired
  remove_if_expired-live key h = rw h
