-- ===== src/Script/Exchange.antt =====
-- src/script.rs: the exchange of the host with a worker, and what its end is worth.
pub mod Complete
use stuntdouble.Common.{
  ℕ, Bool, true, false, Option, none, some, List, [], ◌∷◌, if◌then◌else◌, Result, ok, err, ◌&&◌,
}
use stuntdouble.Common.Bytes.{Bytes}
use stuntdouble.Json.{Json}
use stuntdouble.Script.Protocol.{
  Error, timed_out, memory_limit_exceeded, worker_terminated, BridgeName, FinalResult,
  WorkerMessage, host_call, final_result,
}

pub data WorkerReply : Type 0 where
  final : FinalResult → WorkerReply
  expired : WorkerReply
  unexpected : WorkerReply

-- How the awaits after a host call end: the deadline or a lost task while it is carried out, the
-- deadline or an error while the reply is written, or none of them.
pub data Service : Type 0 where
  call_expired : Service
  call_lost : Service
  write_expired : Service
  write_failed : Service
  served : Service

-- What the awaited reads give, one after the other, up to the deadline: `heard line service trace`.
-- The service counts if the line is a host call.
pub data Trace : Type 0 where
  deadline : Trace
  read_failed : Trace
  closed : Trace
  heard : Bytes → Service → Trace → Trace

-- `parse` is serde's reading of a `WorkerMessage`; `dispatch` is `HostState::dispatch`.
module _ {Host : Type 0} (parse : Bytes → Option WorkerMessage)
    (dispatch : BridgeName → Json → Host → Option Json × Host) where
  -- The end of an exchange: the reply, the results that the worker was sent, and the host.
  pub record End : Type 0 where
    pub reply : WorkerReply
    pub results : List Json
    pub host : Host

  abbrev stop : WorkerReply → Host → End
  stop reply host = record { reply = reply; results = []; host = host }

  abbrev sent : Json → End → End
  sent result end = record { reply = end.reply; results = result ∷ end.results; host = end.host }

  abbrev ended : Option FinalResult → WorkerReply
  ended none = unexpected
  ended (some result) = final result

  -- A host call: with the host after it, and the end of the exchange that follows it if it is served.
  serve : Service → Option Json × Host → (Host → End) → Host → End
  serve call_expired (answer, after) later host = stop expired after
  serve call_lost (answer, after) later host = stop unexpected after
  serve service (none, after) later host = stop unexpected after
  serve write_expired (some result, after) later host = stop expired after
  serve write_failed (some result, after) later host = stop unexpected after
  serve served (some result, after) later host = sent result (later after)

  -- The loop, with the final result if it was heard.
  pub pump : Trace → Option FinalResult → Host → End
  pump deadline last host = stop expired host
  pump read_failed last host = stop unexpected host
  pump closed last host = stop (ended last) host
  pump (heard line service rest) (some result) host = stop unexpected host
  pump (heard line service rest) none host = elim (parse line) [
    | none ↦ stop unexpected host
    | some message ↦ elim message [
      | final_result result ↦ pump rest (some result) host
      | host_call name payload ↦
          serve service (dispatch name payload host) (λ h. pump rest none h) host
    ]
  ]

  -- `exchange`: whether the job could be written, and what is heard then.
  pub exchange : Bool → Trace → Host → End
  exchange written trace host = if written then pump trace none host else stop unexpected host

-- How the wait for the process ends: with its success or not, with an error, or by the deadline.
pub data Exit : Type 0 where
  exited : Bool → Exit
  wait_failed : Exit
  lingered : Exit

-- `unexpected_worker_error` on Linux and Windows: whether the worker's stderr had a line of an
-- allocator that aborts.
pub unexpected_worker_error : Bool → Error
unexpected_worker_error memory_allocation_failed =
    if memory_allocation_failed then memory_limit_exceeded else worker_terminated

-- `run_worker`, from the reply on: the result that is mapped, or the error.
pub conclude : WorkerReply → Exit → Bool → Result FinalResult Error
conclude expired exit memory = err timed_out
conclude unexpected exit memory = err (unexpected_worker_error memory)
conclude (final result) (exited true) memory = ok result
conclude (final result) (exited false) memory = err (unexpected_worker_error memory)
conclude (final result) wait_failed memory = err worker_terminated
conclude (final result) lingered memory = err timed_out
