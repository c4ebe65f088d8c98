-- ===== src/Script/Tests.antt =====
-- Small runs of the protocol, and the theorems applied to them.
use stuntdouble.Common.{
  ℕ, suc, ◌≡◌, ◌↔◌, refl, true, Option, none, some, List, [], ◌∷◌, err, arith, if◌then◌else◌,
  Result, inl, inr,
}
use stuntdouble.Common.Bytes.{Bytes, codes, ◌==ᵇ◌}
use stuntdouble.Json.{Json, null, bool}
use stuntdouble.Script.Protocol.{
  Error, upstream_unreachable, success, WorkerMessage, host_call, final_result, file, BridgeName,
  report,
}
use stuntdouble.Script.Protocol.RoundTrip.{Arrives, report-Arrives}
use stuntdouble.Script.Lines.{Source, eof, buffer, read_limited_line, max_protocol_line_bytes}
use stuntdouble.Script.Lines.Chunking.{flat, Reads, read_limited_line-Reads}
use stuntdouble.Script.Exchange.{final, Trace, closed, heard, served, exchange}
use stuntdouble.Script.Exchange.Complete.{IsComplete, exchange-IsComplete}
use stuntdouble.Script.Record.{LogRecord, parse_host_record}
use stuntdouble.Script.Record.Reads.{
  Recorded, of_bytes, record_of, body_of, Maps, parse_host_record-Maps,
}

abbrev source : Source
source = buffer (codes "ab") (buffer (b'c' ∷ 10 ∷ b'd' ∷ []) eof)

read_limited_line-Reads_example :
    Reads max_protocol_line_bytes [] (flat source) (read_limited_line source)
read_limited_line-Reads_example = read_limited_line-Reads source tt

abbrev lost : Result Json Error
lost = err (upstream_unreachable (codes "no host") (codes "dns"))

report-Arrives_example : Arrives lost (report lost)
report-Arrives_example = report-Arrives lost (inr (inl refl))

-- The line `c` is a call of the host, and every other line a result.
abbrev parse : Bytes → Option WorkerMessage
parse line =
    if line ==ᵇ codes "c" then some (host_call file null) else some (final_result (success null))

-- The host counts its calls.
abbrev dispatch : BridgeName → Json → ℕ → Option Json × ℕ
dispatch name payload host = (some (bool true), suc host)

abbrev trace : Trace
trace = heard (codes "c") served (heard (codes "r") served closed)

exchange-IsComplete_example :
    (exchange parse dispatch true trace 0
      ≡ record { reply = final (success null); results = bool true ∷ []; host = 1 })
    ↔ ((true ≡ true) × IsComplete parse dispatch (success null) trace 0 (bool true ∷ []) 1)
exchange-IsComplete_example =
    exchange-IsComplete parse dispatch true trace 0 1 (success null) (bool true ∷ [])

abbrev logged : List LogRecord
logged = record { level = codes "info"; message = codes "hi" } ∷ []

abbrev headers : List (Bytes × Bytes)
headers = (codes "x-a", codes "1") ∷ []

abbrev body : Recorded
body = of_bytes (1 ∷ 255 ∷ [])

parse_host_record-Maps_example :
    Maps {Pipe = ℕ} {File = ℕ} logged 200 headers
      (body_of none none none body)
      (parse_host_record (record_of logged 200 headers body) none none none)
parse_host_record-Maps_example =
    parse_host_record-Maps {Pipe = ℕ} {File = ℕ} logged 200 headers body none none none
      (omega arith) (omega arith, (omega arith, tt))
