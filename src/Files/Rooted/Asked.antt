-- ===== src/Files/Rooted/Asked.antt =====
-- src/files.rs: what the payload of a call to `ctx.file` asks for.
use stuntdouble.Common.{◌≡◌, inl, inr, none, some, arith, Bool-cases}
use stuntdouble.Common.Bytes.{Bytes, codes, ◌==ᵇ◌, ==ᵇ_iff}
use stuntdouble.Json.{Json, get_str}
use stuntdouble.Files.Rooted.{FileOp, read_text, read_bytes, stream, parse_op}

-- The operations, by the words of the script's calls.
abbrev pub asked_name : FileOp → Bytes
asked_name read_text = codes "readText"
asked_name read_bytes = codes "readBytes"
asked_name stream = codes "stream"

pub parse_op-some : (raw : Bytes) (op : FileOp) → parse_op raw ≡ some op → raw ≡ asked_name op
unfolding parse_op
parse_op-some raw op e = elim (Bool-cases (raw ==ᵇ codes "readText")) [
  | inl a ↦
      let is_text : read_text ≡ op = ground (arith, rw a at e) in
      rw (← is_text) ((==ᵇ_iff raw (codes "readText")).0 a)
  | inr a ↦ elim (Bool-cases (raw ==ᵇ codes "readBytes")) [
    | inl b ↦
        let is_bytes : read_bytes ≡ op = ground (arith, rw (a, b) at e) in
        rw (← is_bytes) ((==ᵇ_iff raw (codes "readBytes")).0 b)
    | inr b ↦ elim (Bool-cases (raw ==ᵇ codes "stream")) [
      | inl c ↦
          let is_stream : stream ≡ op = ground (arith, rw (a, b, c) at e) in
          rw (← is_stream) ((==ᵇ_iff raw (codes "stream")).0 c)
      | inr c ↦ absurd (cc (rw (a, b, c) at e))
    ]
  ]
]

asked_name-known : (op : FileOp) → ¬ (parse_op (asked_name op) ≡ none)
unfolding parse_op
asked_name-known read_text e = cc
asked_name-known read_bytes e = cc
asked_name-known stream e = cc

pub parse_op-none : (raw : Bytes) → parse_op raw ≡ none → (op : FileOp) → ¬ (raw ≡ asked_name op)
parse_op-none raw e op same = asked_name-known op (rw same at e)

-- The payload asks for an operation on a path.
abbrev pub Asks : Json → FileOp → Bytes → Type 0
Asks payload op path =
    (get_str (codes "op") payload ≡ some (asked_name op))
    × (get_str (codes "path") payload ≡ some path)
