-- ===== src/RequestLog.antt =====
-- src/request_log.rs: the chain of calls of one request, and the handle that closes a streamed call.
pub mod Slots
pub mod Settle
mod Tests
use stuntdouble.Common.{
  ℕ, zero, suc, ◌+◌, ◌-◌, Bool, true, false, Option, none, some, List, [], ◌∷◌, ◌++◌, length, map,
  if◌then◌else◌,
}
use stuntdouble.Json.{Json}

-- `trait LogRecord`. A duration is a type of its own: `elapsed_ms` rounds to a binary64.
pub record LogRecord (T Duration : Type 0) : Type 0 where
  pub to_json : T → Json
  pub set_duration_ms : Duration → T → T
  pub set_bytes : ℕ → T → T

-- `Chain::begin`: the slot of the call that it appends. A lock that a panic has poisoned is taken
-- all the same, so the chain is its list.
abbrev pub begin : {T : Type 0} → T → List T → ℕ × List T
begin call calls = (length (calls ++ call ∷ []) - 1, calls ++ call ∷ [])

-- `Chain::update`
unfoldable pub update : {T : Type 0} → ℕ → (T → T) → List T → List T
update i f [] = []
update zero f (call ∷ calls) = f call ∷ calls
update (suc i) f (call ∷ calls) = call ∷ update i f calls

-- `Pending`: the handle of one call; `finished` is its atomic flag. Times are in nanoseconds.
pub record Pending : Type 0 where
  pub index : ℕ
  pub started : ℕ
  pub finished : Bool

module _ {T Duration : Type 0} (log : LogRecord T Duration) (elapsed_ms : ℕ → Duration) where
  -- `Chain::snapshot`
  pub snapshot : List T → List Json
  snapshot calls = map log.to_json calls

  -- `Pending::new`
  abbrev pub new : ℕ → ℕ → Pending
  new index started = record { index = index; started = started; finished = false }

  abbrev settled : Pending → Pending
  settled pending = record { index = pending.index; started = pending.started; finished = true }

  -- `finish_with` at a time: the flag is swapped first, and only the call that finds it down writes.
  pub finish_with : ℕ → ℕ → (T → T) → Pending × List T → Pending × List T
  finish_with now bytes change (pending, calls) =
      if pending.finished then (settled pending, calls) else (
        settled pending,
        update pending.index
            (λ call.
              change (
                log.set_bytes bytes
                  (log.set_duration_ms (elapsed_ms (now - pending.started)) call)))
            calls,
      )

  -- `Drop::drop`
  pub drop : ℕ → Pending × List T → Pending × List T
  drop now (pending, calls) = if pending.finished then (settled pending, calls) else (
    settled pending,
    update pending.index
        (λ call. log.set_bytes 0 (log.set_duration_ms (elapsed_ms (now - pending.started)) call))
        calls,
  )
