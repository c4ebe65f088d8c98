-- ===== src/State/Contract.antt =====
-- src/state.rs: what the four public methods promise their clients, over the view of `State.View`.
use stuntdouble.Common.{
  ℕ, ◌≤◌, ◌≡◌, refl, inl, inr, ◌↔◌, Bool, true, Option, none, some, if◌then◌else◌, ok, err,
  Bool-cases,
}
use stuntdouble.Common.Bytes.{Bytes}
use stuntdouble.Common.Dict.{contains_key}
use stuntdouble.Json.{Json}
use stuntdouble.State.{invalid_input, Host, Store, get, take, set, set_if_absent}
use stuntdouble.State.Accounting.{IsValid, swept}
use stuntdouble.State.Steps.{
  validated, visible, Result-cases, get_lem, take_lem, get-invalid, take-invalid, set-invalid,
  set_if_absent-invalid, set_lem, set_if_absent_lem,
}
use stuntdouble.State.View.{
  lasts, is_ok, is_stored, is_usable, updated, validate_key_lem, visible-swept, visible-touched,
  visible-emptied, stored-visible, found_visible, missing_visible, unless-visible, unless_stored,
}

-- A read returns the visible value, and changes nothing that is seen from then on.
pub get-visible :
    (host : Host) (now : ℕ) (s : Store)
    → IsValid host s
    → (later : ℕ) → now ≤ later
    → (key j : Bytes)
    → ((get key now s).0 ≡ (if is_usable key then ok (visible now key s) else err invalid_input))
      × (visible later j (get key now s).1 ≡ visible later j s)
get-visible host now s v later h key j = elim (Bool-cases (is_usable key)) [
  | inl fine ↦
      rw (fine, get_lem host now s v key (rw fine at (validate_key_lem key)))
        (refl, visible-touched host now s v later h j key)
  | inr bad ↦ rw (bad, get-invalid host now s v key (rw bad at (validate_key_lem key))) (refl, refl)
]

-- A take returns the visible value and makes its key absent; the other keys stay as they are.
pub take-visible :
    (host : Host) (now : ℕ) (s : Store)
    → IsValid host s
    → (later : ℕ) → now ≤ later
    → (key j : Bytes)
    → ((take key now s).0 ≡ (if is_usable key then ok (visible now key s) else err invalid_input))
      × (visible later j (take key now s).1
          ≡ updated (is_usable key) key j none (visible later j s))
take-visible host now s v later h key j = elim (Bool-cases (is_usable key)) [
  | inl fine ↦
      rw (fine, take_lem host now s v key (rw fine at (validate_key_lem key)))
        (refl, visible-emptied host now s v later h j key)
  | inr bad ↦
      rw (bad, take-invalid host now s v key (rw bad at (validate_key_lem key))) (refl, refl)
]

-- A set that succeeds makes the value visible under its key for as long as its ttl lasts, and one
-- that fails changes nothing that is seen from then on; nor does it change the other keys.
pub set-visible :
    (host : Host) (now : ℕ) (s : Store)
    → IsValid host s
    → (later : ℕ) → now ≤ later
    → (key : Bytes) (value : Json) (ttl : Option ℕ) (j : Bytes)
    → visible later j (set host key value ttl now s).1
      ≡ updated
          (is_ok (set host key value ttl now s).0)
          key
          j
          (if lasts now ttl later then some value else none)
          (visible later j s)
set-visible host now s v later h key value ttl j =
    elim (Result-cases (validated host key value ttl)) [
      | inl (n, e) ↦
          rw (set_lem host now s v key value ttl e)
            (stored-visible host now s v later h key value n ttl j)
      | inr (x, e) ↦ rw (set-invalid host now s v key value ttl e)
    ]

-- When it returns without an error it has stored exactly if the key was not visible. If it stored,
-- the value is visible for as long as its ttl lasts; all else that is seen from then on stays.
pub set_if_absent-visible :
    (host : Host) (now : ℕ) (s : Store)
    → IsValid host s
    → (later : ℕ) → now ≤ later
    → (key : Bytes) (value : Json) (ttl : Option ℕ) (j : Bytes)
    → ((b : Bool)
        → (set_if_absent host key value ttl now s).0 ≡ ok b
        → (b ≡ true) ↔ (visible now key s ≡ none))
      × (visible later j (set_if_absent host key value ttl now s).1
          ≡ updated
              (is_stored (set_if_absent host key value ttl now s).0)
              key
              j
              (if lasts now ttl later then some value else none)
              (visible later j s))
set_if_absent-visible host now s v later h key value ttl j =
    elim (Result-cases (validated host key value ttl)) [
      | inr (x, e) ↦ rw (set_if_absent-invalid host now s v key value ttl e) (λ b p. cc, refl)
      | inl (n, e) ↦
          rw (set_if_absent_lem host now s v key value ttl e)
            elim (Bool-cases (contains_key key (swept now s).entries)) [
              | inl there ↦ rw there (
                (λ b p. (λ t. cc, λ m. absurd (found_visible host now s v later h key there m))),
                visible-swept host now s v later h j,
              )
              | inr absent ↦ rw absent (
                (λ b p. (
                  λ _. missing_visible host now s v later h key absent,
                  λ _. unless_stored host now s v later h key value n ttl b p,
                )),
                unless-visible host now s v later h key value n ttl j,
              )
            ]
    ]
