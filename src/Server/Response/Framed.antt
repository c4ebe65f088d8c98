-- ===== src/Server/Response/Framed.antt =====
-- src/server.rs: the status and the framing of a file's response.
use stuntdouble.Common.{
  ℕ, ◌+◌, ◌-◌, ◌*◌, ◌≤◌, ◌<◌, ◌≡◌, ap, false, not, ◌&&◌, Option, List, [], ◌∷◌, ◌++◌, leb,
  if◌then◌else◌,
}
use stuntdouble.Common.Bytes.{Bytes, codes}
use stuntdouble.Common.Text.{to_text}
use stuntdouble.Json.{Json}
use stuntdouble.Files.{FileBody}
use stuntdouble.Files.Range.{RangeDecision, full, partial, unsatisfiable}
use stuntdouble.Script.Protocol
use stuntdouble.Script.Protocol.{Error, failed}
use stuntdouble.Server.Headers
use stuntdouble.Server.Headers.{Headers, get_all, has}
use stuntdouble.Server.Response.Requested.{length_name, range_name, accept_name}
use stuntdouble.Server.Response.{Mapped, ready, opened}

-- The headers that the host owns: the length of what is sent, the range of it, and that ranges are
-- served.
abbrev pub Owns : Headers → ℕ → List Bytes → Type 0
Owns headers len ranges =
    (get_all length_name headers ≡ to_text len ∷ [])
    × (get_all range_name headers ≡ ranges)
    × (get_all accept_name headers ≡ codes "bytes" ∷ [])

module _ {Pipe File : Type 0} where
  -- The answer to a decision about the range.
  abbrev pub IsAnswer : FileBody File → RangeDecision → Mapped Pipe File → Type 0
  IsAnswer body full m = (m.code ≡ 200) × (m.body ≡ opened body) × Owns m.headers body.size []
  IsAnswer body (partial start len) m =
      (m.code ≡ 206)
      × (m.body ≡ opened (record body { offset = start; len = len }))
      × Owns m.headers len (
          (codes "bytes "
            ++ to_text start
            ++ codes "-"
            ++ to_text (start + len - 1)
            ++ codes "/"
            ++ to_text body.size)
          ∷ [])
      × (0 < len)
      × (start + len ≤ body.size)
  IsAnswer body unsatisfiable m =
      (m.code ≡ 416)
      × (m.body ≡ ready [])
      × Owns m.headers 0 ((codes "bytes */" ++ to_text body.size) ∷ [])
