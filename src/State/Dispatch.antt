-- ===== src/State/Dispatch.antt =====
-- src/script.rs: the bridge from `ctx.state` to the one store that every script worker shares. The
-- mutex makes each call one step, so concurrent callers are a sequence of calls, in any order.
pub mod Laws
use Prim.Native.String.{String}
use stuntdouble.Common.{
  ℕ, ◌≤◌, ◌<◌, Bool, true, false, ◌&&◌, Option, none, some, List, [], ◌∷◌, ltb, leb, if◌then◌else◌,
  Result, ok, err,
}
use stuntdouble.Common.Bytes.{Bytes, codes, ◌==ᵇ◌}
use stuntdouble.Json.{
  get_str, Json, bool, string, object, Members, end, member, as_str, as_u64, json,
}
use stuntdouble.Json
use stuntdouble.State.{
  Host, Store, StateError, invalid_input, capacity_exceeded, internal, max_ttl_ms, from_millis, new,
}
use stuntdouble.State

-- `SharedState`: the mutex is poisoned once a holder has panicked, which no operation here does.
pub record Shared : Type 0 where
  pub poisoned : Bool
  pub store : Store

-- `new_shared_state`
pub new_shared_state : Shared
new_shared_state = record { poisoned = false; store = new }

-- `StateError::code`
abbrev pub code : StateError → Bytes
code invalid_input = codes "state_invalid_input"
code capacity_exceeded = codes "state_capacity_exceeded"
code internal = codes "state_internal_error"

abbrev pub state_error_json : StateError → Json
state_error_json error = json (
    (codes "ok", bool false)
    ∷ (codes "code", string (code error))
    ∷ (codes "message", string (code error))
    ∷ [])

ttl_of : Option ℕ → Result (Option ℕ) StateError
ttl_of none = err invalid_input
ttl_of (some ttl_ms) =
    if ltb 0 ttl_ms && leb ttl_ms max_ttl_ms
    then ok (some (from_millis ttl_ms))
    else err invalid_input

unfoldable pub parse_state_ttl : Json → Result (Option ℕ) StateError
unfolding ttl_of
parse_state_ttl payload = elim (Json.get (codes "ttl_ms") payload) [
  | none ↦ ok none
  | some ttl_ms ↦ ttl_of (as_u64 ttl_ms)
]

-- The answers of `get` and `take`, of `set`, and of `setIfAbsent`.
abbrev pub found_json : Result (Option Json) StateError → Json
found_json (ok (some value)) =
    json ((codes "ok", bool true) ∷ (codes "found", bool true) ∷ (codes "value", value) ∷ [])
found_json (ok none) = json ((codes "ok", bool true) ∷ (codes "found", bool false) ∷ [])
found_json (err error) = state_error_json error

abbrev pub done_json : Result (Unit {0}) StateError → Json
done_json (ok _) = json ((codes "ok", bool true) ∷ [])
done_json (err error) = state_error_json error

abbrev pub stored_json : Result Bool StateError → Json
stored_json (ok stored) = json ((codes "ok", bool true) ∷ (codes "stored", bool stored) ∷ [])
stored_json (err error) = state_error_json error

abbrev answer : {A : Type 0} → (A → Json) → A × Store → Json × Store
answer render (result, store) = (render result, store)

module _ (host : Host) (now : ℕ) where
  -- The `match operation` of `dispatch_state`, under the lock.
  pub run_operation : Bytes → Bytes → Option ℕ → Option Json → Store → Json × Store
  run_operation operation key ttl value store =
      if operation ==ᵇ codes "get"
      then answer found_json (State.get key now store)
      else if operation ==ᵇ codes "set"
      then elim value [
        | none ↦ (state_error_json invalid_input, store)
        | some v ↦ answer done_json (State.set host key v ttl now store)
      ]
      else if operation ==ᵇ codes "take"
      then answer found_json (State.take key now store)
      else if operation ==ᵇ codes "setIfAbsent"
      then elim value [
        | none ↦ (state_error_json invalid_input, store)
        | some v ↦ answer stored_json (State.set_if_absent host key v ttl now store)
      ]
      else (state_error_json invalid_input, store)

  abbrev relock : Shared → Json × Store → Json × Shared
  relock shared (reply, store) = (reply, record shared { store = store })

  pub dispatch_state : Json → Shared → Json × Shared
  dispatch_state payload shared = elim (get_str (codes "op") payload) [
    | none ↦ (state_error_json invalid_input, shared)
    | some operation ↦ elim (get_str (codes "key") payload) [
      | none ↦ (state_error_json invalid_input, shared)
      | some key ↦ elim (parse_state_ttl payload) [
        | err error ↦ (state_error_json error, shared)
        | ok ttl ↦
            if shared.poisoned
            then (state_error_json internal, shared)
            else relock shared
                (run_operation operation key ttl (Json.get (codes "value") payload) shared.store)
      ]
    ]
  ]

-- One call after another, each at its own reading of the clock.
pub serve : Host → List (ℕ × Json) → Shared → Shared
serve host [] shared = shared
serve host ((now, payload) ∷ calls) shared =
    serve host calls (dispatch_state host now payload shared).1
