-- ===== src/State/Race.antt =====
-- src/state.rs: callers that race for one key. The mutex orders them; whatever the order, one wins.
use stuntdouble.Common.{
  ℕ, suc, ◌≤◌, ◌≡◌, ◌≢◌, refl, sym, ◌∙◌, Bool, true, false, Option, none, some, List, [], ◌∷◌,
  arith, if◌then◌else◌, Result, ok, err, inl, inr, Bool-cases,
}
use stuntdouble.Common.Bytes.{Bytes, ==ᵇ_self}
use stuntdouble.Json.{Json}
use stuntdouble.State.{Host, Store, StateError, take, set_if_absent}
use stuntdouble.State.Accounting.{IsValid}
use stuntdouble.State.Steps.{visible}
use stuntdouble.State.View.{is_stored, is_usable}
use stuntdouble.State.Contract.{take-visible, set_if_absent-visible}
use stuntdouble.State.Invariant.{take-IsValid, set_if_absent-IsValid}

-- How many callers were told that they stored their value; their values have no ttl.
unfoldable pub stores_won : Host → Bytes → List (ℕ × Json) → Store → ℕ
stores_won host key [] s = 0
stores_won host key ((now, value) ∷ callers) s =
    let rest = stores_won host key callers (set_if_absent host key value none now s).1 in
    if is_stored (set_if_absent host key value none now s).0 then suc rest else rest

-- Whether a taker was given a value.
abbrev got_value : Result (Option Json) StateError → Bool
got_value (ok (some _)) = true
got_value _ = false

unfoldable pub takes_won : Bytes → List ℕ → Store → ℕ
takes_won key [] s = 0
takes_won key (now ∷ takers) s =
    let rest = takes_won key takers (take key now s).1 in
    if got_value (take key now s).0 then suc rest else rest

-- The clock does not run backwards.
abbrev pub IsOrdered : ℕ → List (ℕ × Json) → Type 0
IsOrdered t [] = Unit
IsOrdered t ((now, _) ∷ callers) = (t ≤ now) × IsOrdered now callers

abbrev pub IsAscending : ℕ → List ℕ → Type 0
IsAscending t [] = Unit
IsAscending t (now ∷ takers) = (t ≤ now) × IsAscending now takers

-- A value that is there for good.
abbrev Held : ℕ → Bytes → Store → Type 0
Held t key s = (later : ℕ) → t ≤ later → visible later key s ≢ none

stored_true : (r : Result Bool StateError) → is_stored r ≡ true → r ≡ ok true
stored_true (ok true) h = refl
stored_true (ok false) h = cc
stored_true (err e) h = cc

module _ (host : Host) (key : Bytes) (now : ℕ) (value : Json) (s : Store) (v : IsValid host s) where
  -- While the key is visible, nobody else stores.
  held_refuses :
      visible now key s ≢ none → is_stored (set_if_absent host key value none now s).0 ≡ false
  held_refuses held = elim (Bool-cases (is_stored (set_if_absent host key value none now s).0)) [
    | inl won ↦
        let contract = set_if_absent-visible host now s v now (omega arith) key value none key in
        absurd (held ((contract.0 true (stored_true _ won)).0 refl))
    | inr lost ↦ lost
  ]

  -- A call leaves a value that is there for good if it stored one, or if there was one.
  won_holds :
      is_stored (set_if_absent host key value none now s).0 ≡ true
      → Held now key (set_if_absent host key value none now s).1
  won_holds won later le seen =
      let contract = set_if_absent-visible host now s v later le key value none key in
      cc (sym (rw (won, ==ᵇ_self key) at contract.1) ∙ seen)

  lost_holds :
      is_stored (set_if_absent host key value none now s).0 ≡ false
      → Held now key s
      → Held now key (set_if_absent host key value none now s).1
  lost_holds lost held later le seen =
      let contract = set_if_absent-visible host now s v later le key value none key in
      held later le (sym (rw lost at contract.1) ∙ seen)

module _ (host : Host) (key : Bytes) where
  stores_won-Held :
      (t : ℕ) (callers : List (ℕ × Json)) (s : Store)
      → IsValid host s
      → IsOrdered t callers
      → Held t key s
      → stores_won host key callers s ≡ 0
  unfolding stores_won
  stores_won-Held t [] s v o held = refl
  stores_won-Held t ((now, value) ∷ callers) s v (le, o) held =
      let still : Held now key s = λ later h. held later (omega arith) in
      let lost = held_refuses host key now value s v (still now (omega arith)) in
      rw lost (
        stores_won-Held now callers (set_if_absent host key value none now s).1
          (set_if_absent-IsValid host now s v key value none) o
          (lost_holds host key now value s v lost still))

-- Of the callers that race to store a value without a ttl under a key, one at most is told that it
-- did.
pub stores_won_le :
    (host : Host) (key : Bytes) (t : ℕ) (callers : List (ℕ × Json)) (s : Store)
    → IsValid host s
    → IsOrdered t callers
    → stores_won host key callers s ≤ 1
unfolding stores_won
stores_won_le host key t [] s v o = omega arith
stores_won_le host key t ((now, value) ∷ callers) s v (le, o) =
    let next = set_if_absent-IsValid host now s v key value none in
    elim (Bool-cases (is_stored (set_if_absent host key value none now s).0)) [
      | inl won ↦ rw won (
          omega (
            arith,
            stores_won-Held host key now callers _ next o (won_holds host key now value s v won),
          ))
      | inr lost ↦
          rw lost
            (stores_won_le host key now callers (set_if_absent host key value none now s).1 next o)
    ]

module _ (host : Host) (key : Bytes) where
  Gone : ℕ → Store → Type 0
  Gone t s = (later : ℕ) → t ≤ later → visible later key s ≡ none

  take-Gone :
      (now : ℕ) (s : Store) → IsValid host s → is_usable key ≡ true → Gone now (take key now s).1
  unfolding Gone
  take-Gone now s v fine later le =
      rw (fine, ==ᵇ_self key) at ((take-visible host now s v later le key key).1)

  takes_won-Gone :
      (t : ℕ) (takers : List ℕ) (s : Store)
      → IsValid host s
      → is_usable key ≡ true
      → IsAscending t takers
      → Gone t s
      → takes_won key takers s ≡ 0
  unfolding takes_won Gone
  takes_won-Gone t [] s v fine o gone = refl
  takes_won-Gone t (now ∷ takers) s v fine (le, o) gone =
      let contract = (take-visible host now s v now (omega arith) key key).0 in
      let nothing : (take key now s).0 ≡ ok none = rw (fine, gone now le) at contract in
      rw nothing (
        takes_won-Gone now takers (take key now s).1 (take-IsValid host now s v key) fine o
          (take-Gone now s v fine))

-- Of the callers that race to take the value of a key, one at most is given it.
pub takes_won_le :
    (host : Host) (key : Bytes) (t : ℕ) (takers : List ℕ) (s : Store)
    → IsValid host s
    → is_usable key ≡ true
    → IsAscending t takers
    → takes_won key takers s ≤ 1
unfolding takes_won
takes_won_le host key t [] s v fine o = omega arith
takes_won_le host key t (now ∷ takers) s v fine (le, o) =
    let none_left =
      takes_won-Gone host key now takers (take key now s).1 (take-IsValid host now s v key) fine o
        (take-Gone host key now s v fine) in
    ground (arith, none_left)
