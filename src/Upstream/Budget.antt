-- ===== src/Upstream/Budget.antt =====
-- src/upstream.rs: the time that one call may take.
use stuntdouble.Common.{
  ℕ, ◌+◌, ◌-◌, ◌/◌, ◌≤◌, ◌<◌, min, ◌≡◌, ◌↔◌, ◌⊎◌, Option, none, some, ok, err, arith,
}
use stuntdouble.Upstream.{Access, Error, budget, timeout_error}

-- The time that is asked for: the call's own, or the configured one.
abbrev pub wanted : Access → Option ℕ → ℕ
wanted access none = access.default_timeout
wanted access (some duration) = duration

-- A budget that is granted is positive, is no more than the time that is asked for, and ends by the
-- script's deadline; a call that asks for all the time that is left ends before it by a tenth of that
-- time or 100 ms, whichever is less.
pub budget-bounds :
    (access : Access) (requested : Option ℕ) (now granted : ℕ)
    → budget access requested now ≡ ok granted
    → (0 < granted)
      × (granted ≤ wanted access requested)
      × (now + granted ≤ access.script_deadline)
      × (access.script_deadline - now ≤ wanted access requested
          → granted + min ((access.script_deadline - now) / 10) 100000000
            ≤ access.script_deadline - now)
unfolding budget
budget-bounds access none now granted e = ground arith
budget-bounds access (some d) now granted e = ground arith

-- A call is refused exactly when the script's deadline is reached or no time is asked for, and it is
-- refused with a timeout.
pub budget-refused_iff :
    (access : Access) (requested : Option ℕ) (now : ℕ)
    → ((e : Error) × (budget access requested now ≡ err e)) ↔ (
        (budget access requested now ≡ err timeout_error)
        × ((access.script_deadline ≤ now) ⊎ (wanted access requested ≡ 0)))
unfolding budget
budget-refused_iff access none now = (λ (e, h). ground arith, λ (h, k). (timeout_error, h))
budget-refused_iff access (some d) now = (λ (e, h). ground arith, λ (h, k). (timeout_error, h))
