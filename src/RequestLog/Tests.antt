-- ===== src/RequestLog/Tests.antt =====
-- Runs of the request log at a chain of two calls, and the theorems applied to them.
use stuntdouble.Common.{ℕ, ◌≡◌, refl, Bool, true, false, Option, none, some, List, [], ◌∷◌}
use stuntdouble.Json.{null}
use stuntdouble.RequestLog.{LogRecord, update, finish_with, drop, new}
use stuntdouble.RequestLog.Settle.{finish, dropped, settle, settle_all, settle_all-first}

record Call : Type 0 where
  duration : Option ℕ
  bytes : Option ℕ
  failed : Bool

abbrev fresh_call : Call
fresh_call = record { duration = none; bytes = none; failed = false }

abbrev call_log : LogRecord Call ℕ
call_log = record {
  to_json = λ _. null;
  set_duration_ms = λ d c. record { duration = some d; bytes = c.bytes; failed = c.failed };
  set_bytes = λ b c. record { duration = c.duration; bytes = some b; failed = c.failed };
}

abbrev elapsed : ℕ → ℕ
elapsed n = n

abbrev fail : Call → Call
fail c = record { duration = c.duration; bytes = c.bytes; failed = true }

abbrev calls : List Call
calls = fresh_call ∷ fresh_call ∷ []

-- The drop after a finish writes nothing.
finish_test :
    (settle_all call_log elapsed
      (finish 9 5 fail ∷ dropped 12 ∷ [])
      (new call_log elapsed 1 2, calls)).1
    ≡ fresh_call ∷ record { duration = some 7; bytes = some 5; failed = true } ∷ []
unfolding settle_all settle finish_with drop update
finish_test = refl

drop_test :
    (settle_all call_log elapsed (dropped 12 ∷ []) (new call_log elapsed 1 2, calls)).1
    ≡ fresh_call ∷ record { duration = some 10; bytes = some 0; failed = false } ∷ []
unfolding settle_all settle finish_with drop update
drop_test = refl

settle_all-first_example :
    (settle_all call_log elapsed
      (finish 9 5 fail ∷ dropped 12 ∷ [])
      (new call_log elapsed 1 2, calls)).1
    ≡ (settle call_log elapsed (finish 9 5 fail) (new call_log elapsed 1 2, calls)).1
settle_all-first_example =
    settle_all-first call_log elapsed (finish 9 5 fail) (dropped 12 ∷ []) (new call_log elapsed 1 2)
      calls
