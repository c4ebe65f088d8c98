-- ===== src/State/Dispatch/Laws.antt =====
-- src/script.rs: what a sequence of `ctx.state` calls keeps.
use stuntdouble.Common.{
  ℕ, ◌≡◌, refl, Bool, true, false, Option, none, some, List, [], ◌∷◌, arith, if◌then◌else◌, ok, inl,
  inr, Option-cases,
}
use stuntdouble.Common.Bytes.{Bytes, codes}
use stuntdouble.Json
use stuntdouble.Json.{get_str, Json}
use stuntdouble.State.{Host, Store, validate_ttl}
use stuntdouble.State.Accounting.{IsValid}
use stuntdouble.State.Steps.{Result-cases}
use stuntdouble.State.Invariant.{
  new-IsValid, get-IsValid, take-IsValid, set-IsValid, set_if_absent-IsValid,
}
use stuntdouble.State.Dispatch.{
  Shared, new_shared_state, parse_state_ttl, run_operation, dispatch_state, serve,
}

-- A ttl that the bridge accepts is one that the store accepts.
pub validate_ttl-parse_state_ttl :
    (payload : Json) (ttl : Option ℕ) → parse_state_ttl payload ≡ ok ttl → validate_ttl ttl ≡ ok tt
unfolding parse_state_ttl validate_ttl
validate_ttl-parse_state_ttl payload none h = refl
validate_ttl-parse_state_ttl payload (some ttl) h = ground arith

module _ (host : Host) (now : ℕ) where
  -- One arm of the `match`.
  arm-IsValid :
      (b : Bool) (x y : Json × Store)
      → IsValid host x.1
      → IsValid host y.1
      → IsValid host (if b then x else y).1
  arm-IsValid true x y p q = p
  arm-IsValid false x y p q = q

  run_operation-IsValid :
      (operation key : Bytes) (ttl : Option ℕ) (value : Option Json) (s : Store)
      → IsValid host s
      → IsValid host (run_operation host now operation key ttl value s).1
  unfolding run_operation
  run_operation-IsValid operation key ttl none s v =
      search (arm-IsValid, get-IsValid host now s v key, take-IsValid host now s v key)
  run_operation-IsValid operation key ttl (some value) s v = search (
    arm-IsValid,
    get-IsValid host now s v key,
    take-IsValid host now s v key,
    set-IsValid host now s v key value ttl,
    set_if_absent-IsValid host now s v key value ttl,
  )

-- The mutex is not poisoned, and the store under it is valid.
pub record IsServing (host : Host) (shared : Shared) : Type 0 where
  pub healthy : shared.poisoned ≡ false
  pub valid : IsValid host shared.store

dispatch_state-IsServing :
    (host : Host) (now : ℕ) (payload : Json) (shared : Shared)
    → IsServing host shared
    → IsServing host (dispatch_state host now payload shared).1
unfolding dispatch_state
dispatch_state-IsServing host now payload shared v =
    elim (Option-cases (get_str (codes "op") payload)) [
      | inl e ↦ rw (e, dispatch_state) v
      | inr (operation, e) ↦
          rw (e, dispatch_state)
            elim (Option-cases (get_str (codes "key") payload)) [
              | inl f ↦ rw f v
              | inr (key, f) ↦ rw f elim (Result-cases (parse_state_ttl payload)) [
                | inr (x, g) ↦ rw g v
                | inl (ttl, g) ↦
                    rw (g, v.healthy)
                      (record {
                        healthy = refl;
                        valid =
                            run_operation-IsValid host now operation key ttl
                              (Json.get (codes "value") payload) shared.store v.valid;
                      })
              ]
            ]
    ]

-- Whatever calls the scripts make, in whatever order and at whatever times, the store stays valid:
-- distinct keys, exact byte accounting, and every limit on keys, values, entries and bytes.
pub serve-IsServing :
    (host : Host) (calls : List (ℕ × Json)) (shared : Shared)
    → IsServing host shared
    → IsServing host (serve host calls shared)
unfolding serve
serve-IsServing host [] shared v = v
serve-IsServing host ((now, payload) ∷ calls) shared v =
    serve-IsServing host calls (dispatch_state host now payload shared).1
      (dispatch_state-IsServing host now payload shared v)

pub new_shared_state-IsServing : (host : Host) → IsServing host new_shared_state
unfolding new_shared_state
new_shared_state-IsServing host = record { healthy = refl; valid = new-IsValid host }
