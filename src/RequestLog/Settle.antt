-- ===== src/RequestLog/Settle.antt =====
-- src/request_log.rs: a streamed call is closed once.
use stuntdouble.Common.{
  ℕ, ◌≡◌, ◌≢◌, refl, ◌∙◌, true, false, List, [], ◌∷◌, get_elem?, Bool-cases, inl, inr, ◌==◌, ==_iff,
  arith,
}
use stuntdouble.RequestLog
use stuntdouble.RequestLog.{LogRecord, Pending, update, finish_with, drop}
use stuntdouble.RequestLog.Slots.{get_elem?-update}

-- What may be done to a handle, with the time of it.
pub data Ending (T : Type 0) : Type 0 where
  -- `finish now bytes change`
  finish : ℕ → ℕ → (T → T) → Ending T
  dropped : ℕ → Ending T

module _ {T Duration : Type 0} (log : LogRecord T Duration) (elapsed_ms : ℕ → Duration) where
  unfoldable pub settle : Ending T → Pending × List T → Pending × List T
  settle (finish now bytes change) at = finish_with log elapsed_ms now bytes change at
  settle (dropped now) at = drop log elapsed_ms now at

  unfoldable pub settle_all : List (Ending T) → Pending × List T → Pending × List T
  settle_all [] at = at
  settle_all (e ∷ es) at = settle_all es (settle e at)

  settle_settled :
      (e : Ending T) (p : Pending) (calls : List T)
      → p.finished ≡ true
      → ((settle e (p, calls)).1 ≡ calls) × ((settle e (p, calls)).0.finished ≡ true)
  unfolding settle RequestLog.finish_with RequestLog.drop
  settle_settled (finish now bytes change) p calls h = rw h (refl, refl)
  settle_settled (dropped now) p calls h = rw h (refl, refl)

  settle-finished : (e : Ending T) (at : Pending × List T) → (settle e at).0.finished ≡ true
  unfolding settle RequestLog.finish_with RequestLog.drop
  settle-finished (finish now bytes change) (p, calls) = ground arith
  settle-finished (dropped now) (p, calls) = ground arith

  settle_all-settled :
      (es : List (Ending T)) (p : Pending) (calls : List T)
      → p.finished ≡ true
      → (settle_all es (p, calls)).1 ≡ calls
  unfolding settle_all
  settle_all-settled [] p calls h = refl
  settle_all-settled (e ∷ es) p calls h =
      let (same, still) = settle_settled e p calls h in
      settle_all-settled es (settle e (p, calls)).0 (settle e (p, calls)).1 still ∙ same

  -- Of all the finishes and drops of a handle only the first writes to the chain.
  pub settle_all-first :
      (e : Ending T) (es : List (Ending T)) (p : Pending) (calls : List T)
      → (settle_all (e ∷ es) (p, calls)).1 ≡ (settle e (p, calls)).1
  unfolding settle_all
  settle_all-first e es p calls =
      settle_all-settled es (settle e (p, calls)).0 (settle e (p, calls)).1
        (settle-finished e (p, calls))

  update-others :
      (index i : ℕ) (f : T → T) (calls : List T)
      → i ≢ index
      → get_elem? (update index f calls) i ≡ get_elem? calls i
  update-others index i f calls h =
      let other : (index == i) ≡ false = ground (arith, ==_iff index i) in
      rw (get_elem?-update index i f calls, other) refl

  -- Closing a handle leaves the calls in the other slots alone.
  pub settle-others :
      (e : Ending T) (p : Pending) (calls : List T) (i : ℕ)
      → i ≢ p.index
      → get_elem? (settle e (p, calls)).1 i ≡ get_elem? calls i
  unfolding settle RequestLog.finish_with RequestLog.drop
  settle-others (finish now bytes change) p calls i h = elim (Bool-cases p.finished) [
    | inl done ↦ rw done refl
    | inr open_still ↦ rw open_still (update-others p.index i _ calls h)
  ]
  settle-others (dropped now) p calls i h = elim (Bool-cases p.finished) [
    | inl done ↦ rw done refl
    | inr open_still ↦ rw open_still (update-others p.index i _ calls h)
  ]
