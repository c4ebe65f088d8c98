-- ===== src/State.antt =====
-- src/state.rs: the shared state of one running server. A `&mut self` method is a `Method`; the
-- clock's reading is an argument of each public method, which reads it once.
mod Model
pub mod Accounting
pub mod Writes
pub mod Steps
pub mod View
pub mod Contract
pub mod Invariant
pub mod Internal
pub mod Dispatch
pub mod Race
mod Tests
pub use Model.*
use stuntdouble.Common.{
  ℕ, ◌+◌, ◌-◌, ◌*◌, ◌^◌, Bool, true, false, not, ◌&&◌, ◌||◌, Option, none, some, List, [], ◌∷◌, ltb,
  leb, ◌==◌, if◌then◌else◌, length, Result, ok, err, ok_or, and_then,
}
use stuntdouble.Common.Bytes.{Bytes, is_empty}
use stuntdouble.Common.Dict.{Dict, lookup, remove, insert, contains_key}
use stuntdouble.Json.{Json, array, object, Items, nil, cons, Members, end, member}

-- `Store::new`
pub new : Store
new = record { entries = []; used_bytes = 0 }

abbrev pub Method : Type 0 → Type 0
Method A = Store → Result A StateError × Store

abbrev pub pure : {A : Type 0} → A → Method A
pure a s = (ok a, s)

abbrev pub lift : {A : Type 0} → Result A StateError → Method A
lift r s = (r, s)

abbrev pub gets : {A : Type 0} → (Store → A) → Method A
gets f s = (ok (f s), s)

abbrev pub modify : (Store → Store) → Method (Unit {0})
modify f s = (ok tt, f s)

abbrev pub continue :
    {A B : Type 0} → (A → Method B) → Result A StateError × Store → Result B StateError × Store
continue f (ok a, s) = f a s
continue f (err e, s) = (err e, s)

infixl 5 ◌>>=◌ ◌>>◌
abbrev pub ◌>>=◌ : {A B : Type 0} → Method A → (A → Method B) → Method B
◌>>=◌ m f s = continue f (m s)

abbrev pub ◌>>◌ : {B : Type 0} → Method (Unit {0}) → Method B → Method B
m >> k = m >>= λ _. k

-- `Entry::is_expired`
pub is_expired : Entry → ℕ → Bool
is_expired entry now = elim entry.expires_at [ none ↦ false | some expires_at ↦ leb expires_at now ]

unfoldable pub entry_cost : Bytes → ℕ → Option ℕ
entry_cost key value_bytes = checked_add (length key) value_bytes

mutual
  pub validate_json_value : Json → ℕ → Result (Unit {0}) StateError
  validate_json_value (array values) depth =
      if ltb max_value_depth depth then err invalid_input else validate_items values depth
  validate_json_value (object members) depth =
      if ltb max_value_depth depth then err invalid_input else validate_members members depth
  validate_json_value _ depth = if ltb max_value_depth depth then err invalid_input else ok tt

  pub validate_items : Items → ℕ → Result (Unit {0}) StateError
  validate_items nil depth = ok tt
  validate_items (cons value values) depth =
      and_then (validate_json_value value (depth + 1)) (λ _. validate_items values depth)

  pub validate_members : Members → ℕ → Result (Unit {0}) StateError
  validate_members end depth = ok tt
  validate_members (member _ value members) depth =
      and_then (validate_json_value value (depth + 1)) (λ _. validate_members members depth)

pub validate_key : Bytes → Result (Unit {0}) StateError
validate_key key =
    if is_empty key || ltb max_key_bytes (length key) then err invalid_input else ok tt

pub validate_ttl : Option ℕ → Result (Unit {0}) StateError
validate_ttl none = ok tt
validate_ttl (some ttl) =
    if ttl == 0 || ltb (from_millis max_ttl_ms) ttl then err invalid_input else ok tt

pub remove_entry : Bytes → Method (Option Entry)
remove_entry key s = elim (lookup key s.entries) [
  | none ↦ (ok none, s)
  | some entry ↦
      (do
        cost ← lift (ok_or (entry_cost key entry.value_bytes) internal)
        new_used ← lift (ok_or (checked_sub s.used_bytes cost) internal)
        removed ← lift (ok_or (lookup key s.entries) internal)
        modify (λ t. record t { entries = remove key t.entries; used_bytes = new_used })
        pure (some removed))
        s
]

-- `remove_entry(key)?.ok_or(StateError::Internal)?`
pub remove_present : Bytes → Method (Unit {0})
unfolding remove_entry
remove_present key = do
  removed ← remove_entry key
  lift (and_then (ok_or removed internal) (λ _. ok tt))

abbrev pub is_some_and : {A : Type 0} → (A → Bool) → Option A → Bool
is_some_and p none = false
is_some_and p (some a) = p a

pub remove_if_expired : Bytes → ℕ → Method Bool
unfolding remove_present is_expired
remove_if_expired key now = do
  expired ← gets (λ s. is_some_and (λ entry. is_expired entry now) (lookup key s.entries))
  if expired then (do remove_present key; pure true) else pure false

-- The keys that `remove_all_expired` collects, in the order of iteration.
pub expired_keys : ℕ → Dict Entry → List Bytes
unfolding is_expired
expired_keys now [] = []
expired_keys now ((key, entry) ∷ entries) =
    let rest = expired_keys now entries in if is_expired entry now then key ∷ rest else rest

pub remove_each : List Bytes → Method (Unit {0})
unfolding remove_present
remove_each [] = pure tt
remove_each (key ∷ keys) = do remove_present key; remove_each keys

pub remove_all_expired : ℕ → Method (Unit {0})
unfolding expired_keys remove_each
remove_all_expired now s = remove_each (expired_keys now s.entries) s

pub get : Bytes → ℕ → Method (Option Json)
unfolding validate_key remove_if_expired
get key now = do
  lift (validate_key key)
  gone ← remove_if_expired key now
  if gone
      then pure none
      else gets (λ s. elim (lookup key s.entries) [ none ↦ none | some entry ↦ some entry.value ])

pub take : Bytes → ℕ → Method (Option Json)
unfolding validate_key remove_if_expired remove_entry
take key now = do
  lift (validate_key key)
  gone ← remove_if_expired key now
  if gone then pure none else do
    removed ← remove_entry key
    pure (elim removed [ none ↦ none | some entry ↦ some entry.value ])

-- What the entry under a key is charged, nothing if there is none.
pub old_cost : Bytes → Option Entry → Result ℕ StateError
old_cost key none = ok 0
old_cost key (some entry) = ok_or (entry_cost key entry.value_bytes) internal

module _ (host : Host) where
  pub validate_value : Json → Result ℕ StateError
  unfolding validate_json_value
  validate_value value = and_then (validate_json_value value 0) λ _.
      and_then (ok_or (host.to_vec value) invalid_input) λ compact.
        if ltb max_value_bytes (length compact) then err invalid_input else ok (length compact)

  -- `Store::expires_at`
  pub deadline : ℕ → Option ℕ → Result (Option ℕ) StateError
  deadline now none = ok none
  deadline now (some ttl) =
      if leb (now + ttl) host.instant_max then ok (some (now + ttl)) else err internal

  -- What `commit_write` computes before it writes: the new `used_bytes` and the expiry.
  pub plan_write : Bytes → ℕ → Option ℕ → ℕ → Store → Result (ℕ × Option ℕ) StateError
  unfolding deadline entry_cost old_cost
  plan_write key value_bytes ttl now s =
      and_then (ok_or (entry_cost key value_bytes) capacity_exceeded) λ new_cost.
        if not (contains_key key s.entries) && leb max_entries (length s.entries)
        then err capacity_exceeded
        else and_then (old_cost key (lookup key s.entries)) λ old.
          and_then (ok_or (checked_sub s.used_bytes old) internal) λ after_removal.
            and_then (ok_or (checked_add after_removal new_cost) capacity_exceeded) λ new_used.
              if ltb max_total_bytes new_used
              then err capacity_exceeded
              else and_then (deadline now ttl) λ expires_at. ok (new_used, expires_at)

  pub commit_write : Bytes → Json → ℕ → Option ℕ → ℕ → Method (Unit {0})
  unfolding plan_write
  commit_write key value value_bytes ttl now s =
      (do
        (new_used, expires_at) ← lift (plan_write key value_bytes ttl now s)
        modify λ t. record t {
          entries =
              insert key
                (record { value = value; value_bytes = value_bytes; expires_at = expires_at })
                t.entries;
          used_bytes = new_used;
        })
        s

  pub set : Bytes → Json → Option ℕ → ℕ → Method (Unit {0})
  unfolding validate_key validate_value validate_ttl remove_all_expired commit_write
  set key value ttl now = do
    lift (validate_key key)
    value_bytes ← lift (validate_value value)
    lift (validate_ttl ttl)
    remove_all_expired now
    commit_write key value value_bytes ttl now

  pub set_if_absent : Bytes → Json → Option ℕ → ℕ → Method Bool
  unfolding validate_key validate_value validate_ttl remove_all_expired commit_write
  set_if_absent key value ttl now = do
    lift (validate_key key)
    value_bytes ← lift (validate_value value)
    lift (validate_ttl ttl)
    remove_all_expired now
    present ← gets (λ s. contains_key key s.entries)
    if present then pure false else do commit_write key value value_bytes ttl now; pure true
