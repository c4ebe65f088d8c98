-- ===== src/State/Steps.antt =====
-- src/state.rs: each public method of the store in one equation, on a valid store.
use stuntdouble.Common.{
  ℕ, ◌≤◌, ◌<◌, ◌≡◌, refl, ap, ◌∙◌, ◌⊎◌, inl, inr, Bool, true, false, Option, none, some, arith,
  if◌then◌else◌, length, Result, ok, err, and_then, Bool-cases, Option-cases,
}
use stuntdouble.Common.Bytes.{Bytes}
use stuntdouble.Common.Dict.{lookup, contains_key}
use stuntdouble.Json.{Json}
use stuntdouble.State.{
  max_key_bytes, max_value_bytes, max_value_depth, Host, Entry, Store, StateError,
  capacity_exceeded, deadline, validate_key, validate_value, validate_ttl, is_expired, is_some_and,
  remove_entry, get, take, set, set_if_absent, commit_write, continue, pure, lift, gets,
  remove_all_expired, Method, ◌>>=◌, ◌>>◌,
}
use stuntdouble.State.Accounting.{
  height, IsValid, live, without, swept, remove_all_expired_lem, remove_if_expired-expired,
  remove_if_expired-live, remove_entry-present, remove_entry-absent,
}
use stuntdouble.State.Writes.{has_room, written, plan_write_lem, validate_json_value-height}

-- The checks that a write makes before it looks at the store: the size of the value, or an error.
abbrev pub validated : Host → Bytes → Json → Option ℕ → Result ℕ StateError
validated host key value ttl =
    and_then (validate_key key)
      λ _. and_then (validate_value host value) λ n. and_then (validate_ttl ttl) λ _. ok n

-- What a store of `n` checked bytes does to a swept store.
pub stored : Host → Bytes → Json → ℕ → Option ℕ → ℕ → Store → Result (Unit {0}) StateError × Store
stored host key value n ttl now s =
    if has_room key n s
    then elim (deadline host now ttl) [
      | err e ↦ (err e, s)
      | ok expires_at ↦ (ok tt, written key value n expires_at s)
    ]
    else (err capacity_exceeded, s)

-- The three ways in which a checked write ends.
pub data Stored (host : Host) (key : Bytes) (value : Json) (n : ℕ) (ttl : Option ℕ) (now : ℕ)
    (s : Store) : Type 0 where
  full :
      has_room key n s ≡ false
      → stored host key value n ttl now s ≡ (err capacity_exceeded, s)
      → Stored host key value n ttl now s
  unscheduled :
      (e : StateError)
      → has_room key n s ≡ true
      → deadline host now ttl ≡ err e
      → stored host key value n ttl now s ≡ (err e, s)
      → Stored host key value n ttl now s
  landed :
      (d : Option ℕ)
      → has_room key n s ≡ true
      → deadline host now ttl ≡ ok d
      → stored host key value n ttl now s ≡ (ok tt, written key value n d s)
      → Stored host key value n ttl now s

pub Result-cases :
    {A : Type 0} (r : Result A StateError)
    → ((a : A) × (r ≡ ok a)) ⊎ ((e : StateError) × (r ≡ err e))
Result-cases (ok a) = inl (a, refl)
Result-cases (err e) = inr (e, refl)

pub Stored-cases :
    (host : Host) (key : Bytes) (value : Json) (n : ℕ) (ttl : Option ℕ) (now : ℕ) (s : Store)
    → Stored host key value n ttl now s
unfolding stored
Stored-cases host key value n ttl now s = elim (Bool-cases (has_room key n s)) [
  | inr no_room ↦ full no_room (rw no_room)
  | inl room ↦ elim (Result-cases (deadline host now ttl)) [
    | inl (d, e) ↦ landed d room e (rw (room, e))
    | inr (x, e) ↦ unscheduled x room e (rw (room, e))
  ]
]

-- The value that a client sees under a key at a time.
abbrev pub seen : Option Entry → Option Json
seen none = none
seen (some entry) = some entry.value

abbrev pub visible : ℕ → Bytes → Store → Option Json
visible now key s = seen (live now (lookup key s.entries))

-- The stores that `get` and `take` leave.
abbrev pub touched : ℕ → Bytes → Store → Store
touched now key s =
    if is_some_and (λ e. is_expired e now) (lookup key s.entries) then without key s else s

abbrev pub emptied : Bytes → Store → Store
emptied key s = if contains_key key s.entries then without key s else s

pub validate_key-fits :
    (key : Bytes) → validate_key key ≡ ok tt → (0 < length key) × (length key ≤ max_key_bytes)
unfolding validate_key
validate_key-fits key h = ground arith

pub validate_value-fits :
    (host : Host) (value : Json) (n : ℕ)
    → validate_value host value ≡ ok n
    → (n ≤ max_value_bytes)
      × (height value ≤ max_value_depth)
      × ((compact : Bytes) × (host.to_vec value ≡ some compact) × (length compact ≡ n))
unfolding validate_value
validate_value-fits host value n h = elim (Option-cases (host.to_vec value)) [
  | inl failed ↦ ground (arith, validate_json_value-height value)
  | inr (compact, printed) ↦ (
    ground (arith, validate_json_value-height value),
    ground (arith, validate_json_value-height value),
    (compact, printed, ground (arith, validate_json_value-height value)),
  )
]

-- `if present { return Ok(false) }`, then a write and `Ok(true)`.
unless_lem :
    (present : Bool) (m : Method (Unit {0})) (t : Store) {r : Result (Unit {0}) StateError × Store}
    → m t ≡ r
    → (if present then pure false else (do m; pure true)) t
      ≡ (if present then (ok false, t) else continue (λ _. pure true) r)
unless_lem true m t e = refl
unless_lem false m t e = ap (continue (λ _. pure true)) e

-- The checks at the start of a write, run one after another, are `validated`.
gate :
    {A : Type 0} (r : Result (Unit {0}) StateError) (q : Result ℕ StateError)
    (p : Result (Unit {0}) StateError) (k : ℕ → Method A) (s : Store)
    → (do lift r; n ← lift q; lift p; k n) s
      ≡ continue k (and_then r (λ _. and_then q (λ n. and_then p (λ _. ok n))), s)
gate (err e) q p k s = refl
gate (ok _) (err e) p k s = refl
gate (ok _) (ok n) (err e) k s = refl
gate (ok _) (ok n) (ok _) k s = refl

-- `set_if_absent` after the sweep.
abbrev write_unless : Host → Bytes → Json → ℕ → Option ℕ → ℕ → Method Bool
write_unless host key value n ttl now = do
  present ← gets (λ s. contains_key key s.entries)
  if present then pure false else (do commit_write host key value n ttl now; pure true)

pub validated-eq-ok :
    (host : Host) (key : Bytes) (value : Json) (ttl : Option ℕ) {n : ℕ}
    → validated host key value ttl ≡ ok n
    → (validate_key key ≡ ok tt) × (validate_value host value ≡ ok n) × (validate_ttl ttl ≡ ok tt)
validated-eq-ok host key value ttl h = ground arith

module _ (host : Host) (now : ℕ) (s : Store) (v : IsValid host s) where
  commit_write_lem :
      (key : Bytes) (value : Json) (n : ℕ) (ttl : Option ℕ)
      → length key ≤ max_key_bytes
      → n ≤ max_value_bytes
      → commit_write host key value n ttl now s ≡ stored host key value n ttl now s
  unfolding commit_write written stored
  commit_write_lem key value n ttl k b =
      rw (plan_write_lem host s v key n ttl now k b) (ground arith)

module _ (host : Host) (now : ℕ) (s : Store) (v : IsValid host s) where
  pub get_lem :
      (key : Bytes)
      → validate_key key ≡ ok tt
      → get key now s ≡ (ok (visible now key s), touched now key s)
  unfolding get
  get_lem key h = elim (Bool-cases (is_some_and (λ e. is_expired e now) (lookup key s.entries))) [
    | inl gone ↦ rw (h, remove_if_expired-expired host now s v key gone) (ground arith)
    | inr kept ↦ rw (h, remove_if_expired-live host now s v key kept) (ground arith)
  ]

  take_kept :
      (key : Bytes)
      → is_some_and (λ e. is_expired e now) (lookup key s.entries) ≡ false
      → (remove_entry key >>= λ removed. pure (seen removed)) s
        ≡ (ok (visible now key s), emptied key s)
  take_kept key kept = elim (Option-cases (lookup key s.entries)) [
    | inl missing ↦ rw missing (rw (remove_entry-absent key s missing))
    | inr (e, found) ↦ rw (remove_entry-present host key e s v found) (ground arith)
  ]

  pub take_lem :
      (key : Bytes)
      → validate_key key ≡ ok tt
      → take key now s ≡ (ok (visible now key s), emptied key s)
  unfolding take
  take_lem key h = elim (Bool-cases (is_some_and (λ e. is_expired e now) (lookup key s.entries))) [
    | inl gone ↦ rw (h, remove_if_expired-expired host now s v key gone) (ground arith)
    | inr kept ↦ rw (h, remove_if_expired-live host now s v key kept) (take_kept key kept)
  ]

  pub set_lem :
      (key : Bytes) (value : Json) (ttl : Option ℕ) {n : ℕ}
      → validated host key value ttl ≡ ok n
      → set host key value ttl now s ≡ stored host key value n ttl now (swept now s)
  unfolding set
  set_lem key value ttl {n} h =
      let (k, w, t) = validated-eq-ok host key value ttl h in
      let (ran, v') = remove_all_expired_lem host now s v in
      let fits = validate_key-fits key k in
      rw (k, w, t, ran)
        (commit_write_lem host now (swept now s) v' key value n ttl fits.1
          (validate_value-fits host value n w).0)

  pub set_if_absent_lem :
      (key : Bytes) (value : Json) (ttl : Option ℕ) {n : ℕ}
      → validated host key value ttl ≡ ok n
      → set_if_absent host key value ttl now s ≡ (
          if contains_key key (swept now s).entries
          then (ok false, swept now s)
          else continue (λ _. pure true) (stored host key value n ttl now (swept now s)))
  unfolding set_if_absent
  set_if_absent_lem key value ttl {n} h =
      let (k, w, t) = validated-eq-ok host key value ttl h in
      let (ran, v') = remove_all_expired_lem host now s v in
      let fits = validate_key-fits key k in
      let wrote =
        commit_write_lem host now (swept now s) v' key value n ttl fits.1
          (validate_value-fits host value n w).0 in
      rw (k, w, t, ran)
        (unless_lem (contains_key key (swept now s).entries) (commit_write host key value n ttl now)
          (swept now s) wrote)

  pub get-invalid :
      (key : Bytes) {e : StateError} → validate_key key ≡ err e → get key now s ≡ (err e, s)
  unfolding get
  get-invalid key h = rw h

  pub take-invalid :
      (key : Bytes) {e : StateError} → validate_key key ≡ err e → take key now s ≡ (err e, s)
  unfolding take
  take-invalid key h = rw h

  pub set-invalid :
      (key : Bytes) (value : Json) (ttl : Option ℕ) {e : StateError}
      → validated host key value ttl ≡ err e
      → set host key value ttl now s ≡ (err e, s)
  unfolding set
  set-invalid key value ttl h =
      gate (validate_key key) (validate_value host value) (validate_ttl ttl)
        (λ n. remove_all_expired now >> commit_write host key value n ttl now) s
      ∙ ap
          (λ r.
            continue (λ n. remove_all_expired now >> commit_write host key value n ttl now) (r, s))
          h

  pub set_if_absent-invalid :
      (key : Bytes) (value : Json) (ttl : Option ℕ) {e : StateError}
      → validated host key value ttl ≡ err e
      → set_if_absent host key value ttl now s ≡ (err e, s)
  unfolding set_if_absent
  set_if_absent-invalid key value ttl h =
      gate (validate_key key) (validate_value host value) (validate_ttl ttl)
        (λ n. remove_all_expired now >> write_unless host key value n ttl now) s
      ∙ ap
          (λ r.
            continue (λ n. remove_all_expired now >> write_unless host key value n ttl now) (r, s))
          h
