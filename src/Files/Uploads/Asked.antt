-- ===== src/Files/Uploads/Asked.antt =====
-- src/files.rs: what the payload of a call to `ctx.request.files` asks for.
use stuntdouble.Common.{
  ℕ, ◌≡◌, ap, ◌∙◌, get_elem?, Option-cases, inl, inr, none, some, arith, Bool-cases,
}
use stuntdouble.Common.Bytes.{Bytes, codes, ◌==ᵇ◌, ==ᵇ_iff}
use stuntdouble.Json.{Json, number, pos_int, get, get_str, as_u64-some}
use stuntdouble.Files.{UploadStore, UploadedFile}
use stuntdouble.Files.Uploads.{UploadOp, read_text, read_bytes, stream, parse_upload_op, get_index}

-- The operations, by the words of the script's calls.
abbrev pub asked_name : UploadOp → Bytes
asked_name read_text = codes "readText"
asked_name read_bytes = codes "readBytes"
asked_name stream = codes "stream"

pub parse_upload_op-some :
    (raw : Bytes) (op : UploadOp) → parse_upload_op raw ≡ some op → raw ≡ asked_name op
unfolding parse_upload_op
parse_upload_op-some raw op e = elim (Bool-cases (raw ==ᵇ codes "readText")) [
  | inl a ↦
      let is_text : read_text ≡ op = ground (arith, rw a at e) in
      rw (← is_text) ((==ᵇ_iff raw (codes "readText")).0 a)
  | inr a ↦ elim (Bool-cases (raw ==ᵇ codes "readBytes")) [
    | inl b ↦
        let is_bytes : read_bytes ≡ op = ground (arith, rw (a, b) at e) in
        rw (← is_bytes) ((==ᵇ_iff raw (codes "readBytes")).0 b)
    | inr b ↦ elim (Bool-cases (raw ==ᵇ codes "stream")) [
      | inl c ↦
          let is_stream : stream ≡ op = ground (arith, rw (a, b, c) at e) in
          rw (← is_stream) ((==ᵇ_iff raw (codes "stream")).0 c)
      | inr c ↦ absurd (cc (rw (a, b, c) at e))
    ]
  ]
]

asked_name-known : (op : UploadOp) → ¬ (parse_upload_op (asked_name op) ≡ none)
unfolding parse_upload_op
asked_name-known read_text e = cc
asked_name-known read_bytes e = cc
asked_name-known stream e = cc

pub parse_upload_op-none :
    (raw : Bytes) → parse_upload_op raw ≡ none → (op : UploadOp) → ¬ (raw ≡ asked_name op)
parse_upload_op-none raw e op same = asked_name-known op (rw same at e)

-- The payload asks for an operation on the upload of an index.
abbrev pub Asks : UploadStore → Json → UploadOp → ℕ → UploadedFile → Type 0
Asks store payload op index uploaded =
    (get_str (codes "op") payload ≡ some (asked_name op))
    × (get (codes "index") payload ≡ some (number (pos_int index)))
    × (get_elem? store.files index ≡ some uploaded)

pub get_index-some :
    (payload : Json) (n : ℕ)
    → get_index payload ≡ some n
    → get (codes "index") payload ≡ some (number (pos_int n))
unfolding get_index
get_index-some payload n e = elim (Option-cases (get (codes "index") payload)) [
  | inl gone ↦ absurd (cc (rw (get_index, gone) at e))
  | inr (v, there) ↦ there ∙ ap some (as_u64-some v n (rw (get_index, there) at e))
]

pub get_index-none :
    (payload : Json) (n : ℕ)
    → get_index payload ≡ none
    → ¬ (get (codes "index") payload ≡ some (number (pos_int n)))
unfolding get_index
get_index-none payload n e there = cc (rw (get_index, there) at e)

pub same_index :
    (payload : Json) (store : UploadStore) (index n : ℕ) (uploaded : UploadedFile)
    → get (codes "index") payload ≡ some (number (pos_int index))
    → get_elem? store.files index ≡ none
    → get (codes "index") payload ≡ some (number (pos_int n))
    → ¬ (get_elem? store.files n ≡ some uploaded)
same_index payload store index n uploaded there gone also found =
    let same : n ≡ index = ground (arith, there, also) in cc (rw same at found)
