-- ===== src/Script/Lines.antt =====
-- src/script.rs: the reader of protocol lines, over a buffered reader.
pub mod Chunking
use stuntdouble.Common.{
  ℕ, zero, suc, ◌+◌, ◌*◌, min, Bool, true, false, Option, none, some, List, [], ◌∷◌, ◌++◌, ltb,
  ◌==◌, if◌then◌else◌, length, Result, ok, err,
}
use stuntdouble.Common.Bytes.{Bytes}
use stuntdouble.Common.Text.{u64_max}
use stuntdouble.Common.Utf8.{is_utf8}

abbrev pub max_protocol_line_bytes : ℕ
max_protocol_line_bytes = 64 * 1024 * 1024

-- What `fill_buf` gives, one buffer after the other; an empty one is the end as well.
pub data Source : Type 0 where
  eof : Source
  failed : Source
  buffer : Bytes → Source → Source

pub data LineError : Type 0 where
  read_error : LineError
  too_long : LineError
  not_utf8 : LineError

-- The bytes up to the first newline and with it, whether there is one, and the bytes after it.
pub record Cut : Type 0 where
  pub taken : Bytes
  pub complete : Bool
  pub left : Bytes

abbrev pub prepend : ℕ → Cut → Cut
prepend c cut = record { taken = c ∷ cut.taken; complete = cut.complete; left = cut.left }

pub cut_line : Bytes → Cut
cut_line [] = record { taken = []; complete = false; left = [] }
cut_line (c ∷ s) =
    let more = cut_line s in
    if c == b'\n' then record { taken = c ∷ []; complete = true; left = s } else prepend c more

-- `append_protocol_chunk`
pub append_protocol_chunk : Bytes → Bytes → ℕ → Result Bytes LineError
append_protocol_chunk line bytes limit =
    if ltb limit (min (length line + length bytes) u64_max)
    then err too_long
    else ok (line ++ bytes)

-- What the reader gives next, once it has consumed a part of its buffer.
abbrev pub unread : Bytes → Source → Source
unread [] rest = rest
unread (c ∷ s) rest = buffer (c ∷ s) rest

pub finish_line : Bytes → Result (Option Bytes) LineError
finish_line [] = ok none
finish_line (c ∷ s) = if is_utf8 (c ∷ s) then ok (some (c ∷ s)) else err not_utf8

-- `read_limited_line_with_limit`, and its twin for an asynchronous reader, behind the bytes of the
-- line that are there already.
pub read_line : ℕ → Bytes → Source → Result (Option Bytes) LineError × Source
read_line limit line eof = (finish_line line, eof)
read_line limit line failed = (err read_error, failed)
read_line limit line (buffer [] rest) = (finish_line line, rest)
read_line limit line (buffer (c ∷ s) rest) =
    let cut = cut_line (c ∷ s) in
    elim (append_protocol_chunk line cut.taken limit) [
      | err e ↦ (err e, buffer (c ∷ s) rest)
      | ok longer ↦ elim cut.complete [
        | true ↦ (finish_line longer, unread cut.left rest)
        | false ↦ read_line limit longer rest
      ]
    ]

-- `read_limited_line` and `read_limited_line_async`
pub read_limited_line : Source → Result (Option Bytes) LineError × Source
read_limited_line source = read_line max_protocol_line_bytes [] source
