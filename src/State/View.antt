-- ===== src/State/View.antt =====
-- src/state.rs: the store as its clients see it, a map from keys to values that expire.
use stuntdouble.Common.{
  ℕ, ◌+◌, ◌≤◌, ◌≡◌, refl, ap, ◌∙◌, ◌≢◌, Bool, true, false, ◌&&◌, Option, none, some, [], ◌∷◌, arith,
  leb, ltb, if◌then◌else◌, length, Result, ok, err,
}
use stuntdouble.Common.Bytes.{Bytes, ◌==ᵇ◌, ==ᵇ_iff}
use stuntdouble.Common.Dict.{is_some, lookup, contains_key, lookup-remove, lookup-insert}
use stuntdouble.Json.{Json}
use stuntdouble.State.{
  max_key_bytes, invalid_input, Host, Entry, Store, StateError, deadline, validate_key, is_expired,
  continue, pure,
}
use stuntdouble.State.Accounting.{IsValid, live, without, swept, lookup-swept}
use stuntdouble.State.Writes.{written}
use stuntdouble.State.Steps.{
  stored, seen, visible, touched, emptied, full, unscheduled, landed, Stored-cases,
}

-- A value that is written at `now` is there at `later`.
abbrev pub lasts : ℕ → Option ℕ → ℕ → Bool
lasts now none later = true
lasts now (some ttl) later = ltb later (now + ttl)

visible-without :
    (t : ℕ) (key j : Bytes) (s : Store)
    → visible t j (without key s) ≡ (if key ==ᵇ j then none else visible t j s)
unfolding without
visible-without t key j s = ground (arith, lookup-remove key j s.entries)

live_mono :
    (now later : ℕ) (o : Option Entry) → now ≤ later → live later (live now o) ≡ live later o
unfolding is_expired
live_mono now later none h = refl
live_mono now later (some e) h = ground arith

module _ (host : Host) (now : ℕ) (s : Store) (v : IsValid host s) (later : ℕ) (h : now ≤ later)
    (j : Bytes) where
  pub visible-swept : visible later j (swept now s) ≡ visible later j s
  visible-swept = ap seen (
      ap (live later) (lookup-swept now j s v.distinct)
      ∙ live_mono now later (lookup j s.entries) h)

  pub visible-touched : (key : Bytes) → visible later j (touched now key s) ≡ visible later j s
  unfolding is_expired
  visible-touched key = ground (arith, visible-without later key j s, ==ᵇ_iff key j)

  pub visible-emptied :
      (key : Bytes)
      → visible later j (emptied key s) ≡ (if key ==ᵇ j then none else visible later j s)
  visible-emptied key = ground (arith, visible-without later key j s, ==ᵇ_iff key j)

visible-written :
    (t : ℕ) (key j : Bytes) (value : Json) (n : ℕ) (d : Option ℕ) (s : Store)
    → visible t j (written key value n d s) ≡ (
        if key ==ᵇ j
        then seen (live t (some (record { value = value; value_bytes = n; expires_at = d })))
        else visible t j s)
unfolding written
visible-written t key j value n d s = ground (
  arith,
  lookup-insert key j (record { value = value; value_bytes = n; expires_at = d }) s.entries,
)

-- A value written at `now` with its deadline is visible as long as it lasts.
seen-written :
    (host : Host) (now later n : ℕ) (value : Json) (ttl d : Option ℕ)
    → deadline host now ttl ≡ ok d
    → seen (live later (some (record { value = value; value_bytes = n; expires_at = d })))
      ≡ (if lasts now ttl later then some value else none)
unfolding deadline is_expired
seen-written host now later n value none d e = ground arith
seen-written host now later n value (some t) d e = ground arith

-- Whether a write was made.
abbrev pub is_ok : {A : Type 0} → Result A StateError → Bool
is_ok (ok _) = true
is_ok (err _) = false

abbrev pub is_stored : Result Bool StateError → Bool
is_stored (ok b) = b
is_stored (err _) = false

-- A key that the store accepts.
abbrev pub is_usable : Bytes → Bool
is_usable key = ltb 0 (length key) && leb (length key) max_key_bytes

-- What is visible after a write that was made, or was not.
abbrev pub updated : Bool → Bytes → Bytes → Option Json → Option Json → Option Json
updated done key j new old = if done && key ==ᵇ j then new else old

pub validate_key_lem :
    (key : Bytes) → validate_key key ≡ (if is_usable key then ok tt else err invalid_input)
unfolding validate_key
validate_key_lem [] = refl
validate_key_lem (c ∷ key) = ground arith

seen-some : (o : Option Entry) → is_some o ≡ true → seen o ≢ none
seen-some none e = cc
seen-some (some x) e = λ p. cc

seen-none : (o : Option Entry) → is_some o ≡ false → seen o ≡ none
seen-none none e = refl
seen-none (some x) e = cc

module _ (host : Host) (now : ℕ) (s : Store) (v : IsValid host s) (later : ℕ)
    (h : now ≤ later) where
  pub stored-visible :
      (key : Bytes) (value : Json) (n : ℕ) (ttl : Option ℕ) (j : Bytes)
      → visible later j (stored host key value n ttl now (swept now s)).1
        ≡ updated
            (is_ok (stored host key value n ttl now (swept now s)).0)
            key
            j
            (if lasts now ttl later then some value else none)
            (visible later j s)
  stored-visible key value n ttl j = elim (Stored-cases host key value n ttl now (swept now s)) [
    | full room e ↦ rw e (visible-swept host now s v later h j)
    | unscheduled x room d e ↦ rw e (visible-swept host now s v later h j)
    | landed d room p e ↦ rw (
      e,
      visible-written later key j value n d (swept now s),
      seen-written host now later n value ttl d p,
      visible-swept host now s v later h j,
    )
  ]

  -- `set_if_absent` finds the key in the swept store exactly when its value is visible.
  pub found_visible :
      (key : Bytes) → contains_key key (swept now s).entries ≡ true → visible now key s ≢ none
  found_visible key there =
      seen-some (live now (lookup key s.entries)) (rw (lookup-swept now key s v.distinct) at there)

  pub missing_visible :
      (key : Bytes) → contains_key key (swept now s).entries ≡ false → visible now key s ≡ none
  missing_visible key absent =
      seen-none (live now (lookup key s.entries)) (rw (lookup-swept now key s v.distinct) at absent)

  pub unless-visible :
      (key : Bytes) (value : Json) (n : ℕ) (ttl : Option ℕ) (j : Bytes)
      → visible later j
          (continue (λ _. pure true) (stored host key value n ttl now (swept now s))).1
        ≡ updated
            (is_stored
              (continue (λ _. pure true) (stored host key value n ttl now (swept now s))).0)
            key
            j
            (if lasts now ttl later then some value else none)
            (visible later j s)
  unless-visible key value n ttl j = elim (Stored-cases host key value n ttl now (swept now s)) [
    | full room e ↦ rw e (rw e at (stored-visible key value n ttl j))
    | unscheduled x room d e ↦ rw e (rw e at (stored-visible key value n ttl j))
    | landed d room p e ↦ rw e (rw e at (stored-visible key value n ttl j))
  ]

  pub unless_stored :
      (key : Bytes) (value : Json) (n : ℕ) (ttl : Option ℕ) (b : Bool)
      → (continue (λ _. pure true) (stored host key value n ttl now (swept now s))).0 ≡ ok b
      → b ≡ true
  unless_stored key value n ttl b = elim (Stored-cases host key value n ttl now (swept now s)) [
    | full room e ↦ rw e (λ p. cc)
    | unscheduled x room d e ↦ rw e (λ p. cc)
    | landed d room p e ↦ rw e (λ q. cc)
  ]
