-- ===== src/Script/Exchange/Complete.antt =====
-- src/script.rs: which exchanges end with a result.
use stuntdouble.Common.{
  ◌≡◌, ◌↔◌, refl, sym, ap, inl, inr, Bool, true, false, Option, none, some, List, [], ◌∷◌, ok,
  arith, Option-cases,
}
use stuntdouble.Common.Bytes.{Bytes}
use stuntdouble.Json.{Json}
use stuntdouble.Script.Protocol.{BridgeName, FinalResult, WorkerMessage, host_call, final_result}
use stuntdouble.Script.Exchange.{
  WorkerReply, final, expired, unexpected, Service, call_expired, call_lost, write_expired,
  write_failed, served, Trace, deadline, read_failed, closed, heard, End, serve, pump, exchange,
  Exit, exited, wait_failed, lingered, conclude,
}

module _ {Host : Type 0} (parse : Bytes → Option WorkerMessage)
    (dispatch : BridgeName → Json → Host → Option Json × Host) where
  -- A well-behaved run of the worker, from a host on: host calls, each of which the host answers and
  -- the worker is sent the answer of, then one final result, then the end of the stream. The host
  -- after it, and the answers in the order of the calls.
  pub data IsComplete (result : FinalResult) : Trace → Host → List Json → Host → Type 0 where
    last :
        {line : Bytes} {service : Service} {host : Host}
        → parse line ≡ some (final_result result)
        → IsComplete result (heard line service closed) host [] host
    call :
        {line : Bytes} {name : BridgeName} {payload answer : Json} {answers : List Json}
        {rest : Trace} {host next after : Host}
        → parse line ≡ some (host_call name payload)
        → dispatch name payload host ≡ (some answer, next)
        → IsComplete result rest next answers after
        → IsComplete result (heard line served rest) host (answer ∷ answers) after

  abbrev pub IsEnd : FinalResult → List Json → Host → Trace → Host → Type 0
  IsEnd result answers after trace host =
      pump parse dispatch trace none host
      ≡ record { reply = final result; results = answers; host = after }

  IsComplete-pump :
      {result : FinalResult} {trace : Trace} {host after : Host} {answers : List Json}
      → IsComplete result trace host answers after
      → IsEnd result answers after trace host
  unfolding pump serve
  IsComplete-pump (last e) = rw (pump, e) refl
  IsComplete-pump (call e d c) = rw (pump, e, serve, d, IsComplete-pump c) refl

  pump-last :
      (heard_last result : FinalResult) (trace : Trace) (host after : Host) (answers : List Json)
      → pump parse dispatch trace (some heard_last) host
        ≡ record { reply = final result; results = answers; host = after }
      → (trace ≡ closed) × (heard_last ≡ result) × (answers ≡ []) × (after ≡ host)
  unfolding pump
  pump-last heard_last result deadline host after answers e = absurd (ground arith)
  pump-last heard_last result read_failed host after answers e = absurd (ground arith)
  pump-last heard_last result closed host after answers e =
      (refl, ground arith, ground arith, ground arith)
  pump-last heard_last result (heard line service rest) host after answers e = absurd (ground arith)

  -- A call that is served and answered is the first of the run.
  serve-inv :
      (service : Service) (r : Option Json × Host) (later : Host → End parse dispatch)
      (host after : Host) (result : FinalResult) (answers : List Json)
      → serve parse dispatch service r later host
        ≡ record { reply = final result; results = answers; host = after }
      → (answer : Json) × (service ≡ served)
        × (r ≡ (some answer, r.1))
        × (answers ≡ answer ∷ (later r.1).results)
        × (later r.1 ≡ record { reply = final result; results = (later r.1).results; host = after })
  unfolding serve
  serve-inv call_expired (o, next) later host after result answers e = absurd (ground arith)
  serve-inv call_lost (o, next) later host after result answers e = absurd (ground arith)
  serve-inv write_expired (none, next) later host after result answers e = absurd (ground arith)
  serve-inv write_failed (none, next) later host after result answers e = absurd (ground arith)
  serve-inv served (none, next) later host after result answers e = absurd (ground arith)
  serve-inv write_expired (some a, next) later host after result answers e = absurd (ground arith)
  serve-inv write_failed (some a, next) later host after result answers e = absurd (ground arith)
  serve-inv served (some a, next) later host after result answers e =
      (a, refl, refl, sym (ap (λ x. x.results) e), ground arith)

  pump-IsComplete :
      (result : FinalResult) (trace : Trace) (host after : Host) (answers : List Json)
      → IsEnd result answers after trace host
      → IsComplete result trace host answers after
  unfolding pump serve
  pump-IsComplete result deadline host after answers e = absurd (ground arith)
  pump-IsComplete result read_failed host after answers e = absurd (ground arith)
  pump-IsComplete result closed host after answers e = absurd (ground arith)
  pump-IsComplete result (heard line service rest) host after answers e =
      elim (Option-cases (parse line)) [
        | inl bad ↦ absurd (ground (arith, rw (pump, bad) at e))
        | inr (final_result r, read) ↦
            let (rest_is, same, no_more, host_is) =
              pump-last r result rest host after answers (rw (pump, read) at e) in
            rw (rest_is, no_more, host_is) (last (rw (← same) read))
        | inr (host_call name payload, read) ↦
            let (answer, is_served, answered, answers_are, later) =
              serve-inv service (dispatch name payload host) (λ h. pump parse dispatch rest none h)
                host after result answers (rw (pump, read) at e) in
            rw (is_served, answers_are)
              (call read answered (
                pump-IsComplete result rest (dispatch name payload host).1 after
                  (pump parse dispatch rest none (dispatch name payload host).1).results later))
      ]

  -- The exchange ends with a final result exactly if the job was written and the worker ran well: it
  -- made calls that were each answered, sent one result, and closed its output behind it. The worker
  -- was then sent the answers, one for each call and in their order, and the host is as the calls
  -- left it.
  pub exchange-IsComplete :
      (written : Bool) (trace : Trace) (host after : Host) (result : FinalResult)
      (answers : List Json)
      → (exchange parse dispatch written trace host
          ≡ record { reply = final result; results = answers; host = after })
        ↔ ((written ≡ true) × IsComplete result trace host answers after)
  unfolding exchange
  exchange-IsComplete true trace host after result answers =
      (λ e. (refl, pump-IsComplete result trace host after answers e), λ c. IsComplete-pump c.1)
  exchange-IsComplete false trace host after result answers =
      (λ e. absurd (ground arith), λ c. absurd (ground arith))

-- The result of a run counts exactly if the exchange ended with it and the process then exited with
-- success before the deadline.
pub conclude-ok_iff :
    (reply : WorkerReply) (exit : Exit) (memory : Bool) (result : FinalResult)
    → (conclude reply exit memory ≡ ok result) ↔ ((reply ≡ final result) × (exit ≡ exited true))
unfolding conclude
conclude-ok_iff expired exit memory result =
    (λ e. absurd (ground arith), λ c. absurd (ground arith))
conclude-ok_iff unexpected exit memory result =
    (λ e. absurd (ground arith), λ c. absurd (ground arith))
conclude-ok_iff (final r) (exited true) memory result =
    (λ e. (ground arith, refl), λ c. ground arith)
conclude-ok_iff (final r) (exited false) memory result =
    (λ e. absurd (ground arith), λ c. absurd (ground arith))
conclude-ok_iff (final r) wait_failed memory result =
    (λ e. absurd (ground arith), λ c. absurd (ground arith))
conclude-ok_iff (final r) lingered memory result =
    (λ e. absurd (ground arith), λ c. absurd (ground arith))
