-- ===== src/State/Tests.antt =====
-- Runs of the shared state at concrete inputs, and the theorems applied to them.
use stuntdouble.Common.{
  ℕ, ◌≤◌, ◌≡◌, ◌≢◌, ◌↔◌, refl, Bool, true, false, none, some, List, [], ◌∷◌, arith, if◌then◌else◌,
  ok, err,
}
use stuntdouble.Common.Bytes.{Bytes, codes}
use stuntdouble.Common.Dict.{lookup, remove, insert}
use stuntdouble.Json.{get_str, Json, null, string, number, pos_int, array, cons, nil, json}
use stuntdouble.State.{Host, Store, new, set, get, take, set_if_absent, capacity_exceeded, internal}
use stuntdouble.State.Accounting.{IsValid, swept}
use stuntdouble.State.Writes.{has_room}
use stuntdouble.State.Steps.{visible, validated}
use stuntdouble.State.View.{is_ok, is_stored, updated}
use stuntdouble.State.Contract.{get-visible, take-visible, set-visible, set_if_absent-visible}
use stuntdouble.State.Invariant.{new-IsValid, set-IsValid}
use stuntdouble.State.Internal.{ne-internal, set-has_room}
use stuntdouble.State.Dispatch.{new_shared_state, serve, parse_state_ttl}
use stuntdouble.State.Dispatch.Laws.{IsServing, serve-IsServing, new_shared_state-IsServing}
use stuntdouble.State.Race.{stores_won, stores_won_le, takes_won, takes_won_le}

-- A printer that gives every value the five bytes `"abc"`.
abbrev fixed_host : Host
fixed_host = record { to_vec = λ _. some (codes "\"abc\""); instant_max = 1000000000000000000000 }

abbrev value : Json
value = string (codes "abc")

abbrev key : Bytes
key = codes "k"

abbrev seeded : Store
seeded = (set fixed_host key value (some 100) 7 new).1

store_runs : Unit {0}
unfolding set get take set_if_absent lookup remove insert new
store_runs = tt

-- The value is there before the deadline and gone at it.
expiry_test :
    ((get key 106 seeded).0 ≡ ok (some value))
    × ((get key 107 seeded).0 ≡ ok none)
    × ((take key 50 seeded).0 ≡ ok (some value))
    × ((set_if_absent fixed_host key value none 50 seeded).0 ≡ ok false)
    × ((set_if_absent fixed_host key value none 107 seeded).0 ≡ ok true)
unfolding store_runs
expiry_test = (refl, refl, refl, refl, refl)

seeded-IsValid : IsValid fixed_host seeded
seeded-IsValid = set-IsValid fixed_host 7 new (new-IsValid fixed_host) key value (some 100)

get-visible_example :
    ((get key 50 seeded).0 ≡ ok (visible 50 key seeded))
    × (visible 60 key (get key 50 seeded).1 ≡ visible 60 key seeded)
get-visible_example = get-visible fixed_host 50 seeded seeded-IsValid 60 (omega arith) key key

take-visible_example :
    ((take key 50 seeded).0 ≡ ok (visible 50 key seeded))
    × (visible 60 key (take key 50 seeded).1 ≡ none)
take-visible_example = take-visible fixed_host 50 seeded seeded-IsValid 60 (omega arith) key key

set-visible_example :
    visible 30 key (set fixed_host key value (some 100) 7 new).1
    ≡ updated
        (is_ok (set fixed_host key value (some 100) 7 new).0)
        key
        key
        (some value)
        (visible 30 key new)
set-visible_example =
    set-visible fixed_host 7 new (new-IsValid fixed_host) 30 (omega arith) key value (some 100) key

set_if_absent-visible_example :
    ((b : Bool)
      → (set_if_absent fixed_host key value none 50 seeded).0 ≡ ok b
      → (b ≡ true) ↔ (visible 50 key seeded ≡ none))
    × (visible 60 key (set_if_absent fixed_host key value none 50 seeded).1
        ≡ updated
            (is_stored (set_if_absent fixed_host key value none 50 seeded).0)
            key
            key
            (some value)
            (visible 60 key seeded))
set_if_absent-visible_example =
    set_if_absent-visible fixed_host 50 seeded seeded-IsValid 60 (omega arith) key value none key

ne-internal_example :
    ((get key 50 seeded).0 ≢ err internal)
    × ((take key 50 seeded).0 ≢ err internal)
    × ((set fixed_host key value (some 9) 50 seeded).0 ≢ err internal)
    × ((set_if_absent fixed_host key value (some 9) 50 seeded).0 ≢ err internal)
ne-internal_example =
    ne-internal fixed_host 50 seeded seeded-IsValid key value (some 9) (omega arith)

validated_test : validated fixed_host key value (some 9) ≡ ok 5
unfolding store_runs
validated_test = refl

set-has_room_example :
    (set fixed_host key value (some 9) 50 seeded).0
    ≡ (if has_room key 5 (swept 50 seeded) then ok tt else err capacity_exceeded)
set-has_room_example =
    set-has_room fixed_host 50 seeded seeded-IsValid key value (some 9) 5 validated_test
      (omega arith)

abbrev ttl_payload : Json
ttl_payload = json ((codes "ttl_ms", number (pos_int 250)) ∷ [])

parsed_ttl : parse_state_ttl ttl_payload ≡ ok (some 250000000)
unfolding parse_state_ttl stuntdouble.Json.get
parsed_ttl = refl

abbrev calls : List (ℕ × Json)
calls =
    (
      5,
      json (
          (codes "op", string (codes "set"))
          ∷ (codes "key", string key)
          ∷ (codes "value", value)
          ∷ []),
    )
    ∷ (3, json ((codes "op", string (codes "take")) ∷ (codes "key", string key) ∷ []))
    ∷ []

serve-IsServing_example : IsServing fixed_host (serve fixed_host calls new_shared_state)
serve-IsServing_example =
    serve-IsServing fixed_host calls new_shared_state (new_shared_state-IsServing fixed_host)

stores_won_le_example : stores_won fixed_host key ((3, value) ∷ (3, null) ∷ []) new ≤ 1
stores_won_le_example =
    stores_won_le fixed_host key 0 ((3, value) ∷ (3, null) ∷ []) new (new-IsValid fixed_host)
      (omega arith)

takes_won_le_example : takes_won key (50 ∷ 50 ∷ 51 ∷ []) seeded ≤ 1
takes_won_le_example =
    takes_won_le fixed_host key 7 (50 ∷ 50 ∷ 51 ∷ []) seeded seeded-IsValid refl (omega arith)

race_test :
    (stores_won fixed_host key ((3, value) ∷ (3, null) ∷ []) new ≡ 1)
    × (takes_won key (50 ∷ 50 ∷ 51 ∷ []) seeded ≡ 1)
unfolding store_runs stores_won takes_won
race_test = (refl, refl)
