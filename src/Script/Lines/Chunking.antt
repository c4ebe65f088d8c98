-- ===== src/Script/Lines/Chunking.antt =====
-- src/script.rs: a line does not depend on how the reader's buffers divide the stream.
use stuntdouble.Common.{
  ℕ, ◌≤◌, ◌<◌, ◌≡◌, refl, ap, sym, ◌∙◌, inl, inr, true, false, Option, [], ◌∷◌, ◌++◌, ltb, ◌==◌,
  if◌then◌else◌, length, length-append, Result, ok, err, arith, Bool-cases,
}
use mathlib.Core.List.{append_assoc, append-nil}
use stuntdouble.Common.Bytes.{Bytes}
use stuntdouble.Common.Text.{u64_max}
use stuntdouble.Script.Lines.{
  Source, eof, failed, buffer, LineError, too_long, cut_line, append_protocol_chunk, unread,
  finish_line, read_line, max_protocol_line_bytes, read_limited_line,
}

-- The stream as one text, where every buffer has bytes and no read fails.
abbrev pub flat : Source → Bytes
flat eof = []
flat failed = []
flat (buffer s rest) = s ++ flat rest

abbrev pub IsPlain : Source → Type 0
IsPlain eof = Unit
IsPlain failed = ⊥
IsPlain (buffer [] rest) = ⊥
IsPlain (buffer (c ∷ s) rest) = IsPlain rest

-- The text cut behind its first newline.
abbrev pub first_line : Bytes → Bytes
first_line s = (cut_line s).taken

-- A whole line, judged as one: its size first, then its encoding.
abbrev pub judge : ℕ → Bytes → Result (Option Bytes) LineError
judge limit line = if ltb limit (length line) then err too_long else finish_line line

nothing_more : (line : Bytes) → line ++ first_line [] ≡ line
unfolding cut_line
nothing_more line = append-nil line

nothing_left : [] ≡ (cut_line []).left
unfolding cut_line
nothing_left = refl

cut-complete :
    (s t : Bytes)
    → (cut_line s).complete ≡ true
    → ((cut_line (s ++ t)).taken ≡ (cut_line s).taken)
      × ((cut_line (s ++ t)).left ≡ (cut_line s).left ++ t)
unfolding cut_line
cut-complete [] t e = absurd (ground arith)
cut-complete (c ∷ s) t e = elim (Bool-cases (c == b'\n')) [
  | inl h ↦ rw h (refl, refl)
  | inr h ↦
      let (taken, left) = cut-complete s t (rw (cut_line, h) at e) in
      rw h (ap (λ x. c ∷ x) taken, left)
]

cut-open :
    (s t : Bytes)
    → (cut_line s).complete ≡ false
    → ((cut_line s).taken ≡ s)
      × ((cut_line s).left ≡ [])
      × ((cut_line (s ++ t)).taken ≡ s ++ (cut_line t).taken)
      × ((cut_line (s ++ t)).left ≡ (cut_line t).left)
unfolding cut_line
cut-open [] t e = (refl, refl, refl, refl)
cut-open (c ∷ s) t e = elim (Bool-cases (c == b'\n')) [
  | inl h ↦ absurd (ground (arith, rw (cut_line, h) at e))
  | inr h ↦
      let (taken, none_left, later, left) = cut-open s t (rw (cut_line, h) at e) in
      rw h (ap (λ x. c ∷ x) taken, none_left, ap (λ x. c ∷ x) later, left)
]

flat-unread : (s : Bytes) (rest : Source) → flat (unread s rest) ≡ s ++ flat rest
flat-unread [] rest = refl
flat-unread (c ∷ s) rest = refl

unread-IsPlain : (s : Bytes) (rest : Source) → IsPlain rest → IsPlain (unread s rest)
unread-IsPlain [] rest h = h
unread-IsPlain (c ∷ s) rest h = h

-- What a read of a line leads to, from the line so far and the text ahead.
abbrev pub Reads : ℕ → Bytes → Bytes → Result (Option Bytes) LineError × Source → Type 0
Reads limit line ahead (r, after) =
    (r ≡ judge limit (line ++ first_line ahead))
    × (length (line ++ first_line ahead) ≤ limit
        → (flat after ≡ (cut_line ahead).left) × IsPlain after)

append-small :
    (limit : ℕ) (line bytes : Bytes)
    → limit < u64_max
    → ltb limit (length (line ++ bytes)) ≡ false
    → append_protocol_chunk line bytes limit ≡ ok (line ++ bytes)
unfolding append_protocol_chunk
append-small limit line bytes room h = ground (arith, h, length-append line bytes)

append-large :
    (limit : ℕ) (line bytes : Bytes)
    → limit < u64_max
    → ltb limit (length (line ++ bytes)) ≡ true
    → append_protocol_chunk line bytes limit ≡ err too_long
unfolding append_protocol_chunk
append-large limit line bytes room h = ground (arith, h, length-append line bytes)

judge-large :
    (limit : ℕ) (line : Bytes) → ltb limit (length line) ≡ true → judge limit line ≡ err too_long
judge-large limit line h = rw h refl

judge-small :
    (limit : ℕ) (line : Bytes)
    → ltb limit (length line) ≡ false
    → judge limit line ≡ finish_line line
judge-small limit line h = rw h refl

-- From a line so far that is within the limit, the next line is that of the text ahead, whatever the
-- buffers that hold it.
read_line-Reads :
    (limit : ℕ) (line : Bytes) (source : Source)
    → limit < u64_max
    → IsPlain source
    → length line ≤ limit
    → Reads limit line (flat source) (read_line limit line source)
unfolding read_line
read_line-Reads limit line eof room h k = (
  sym (ap (judge limit) (nothing_more line) ∙ judge-small limit line (ground arith)),
  λ _. (nothing_left, tt),
)
read_line-Reads limit line failed room h k = absurd h
read_line-Reads limit line (buffer [] rest) room h k = absurd h
read_line-Reads limit line (buffer (c ∷ s) rest) room h k =
    let text = c ∷ s in
    let cut = cut_line text in
    elim (Bool-cases cut.complete) [
      | inl whole ↦
          let (taken, left) = cut-complete text (flat rest) whole in
          elim (Bool-cases (ltb limit (length (line ++ cut.taken)))) [
            | inl over ↦
                rw (taken, read_line, append-large limit line cut.taken room over)
                  (
                    sym (judge-large limit (line ++ cut.taken) over),
                    λ small. absurd (ground (arith, over, small)),
                  )
            | inr under ↦
                rw (taken, left, read_line, append-small limit line cut.taken room under, whole)
                  (
                    sym (judge-small limit (line ++ cut.taken) under),
                    λ _. (flat-unread cut.left rest, unread-IsPlain cut.left rest h),
                  )
          ]
      | inr part ↦
          let (all, none_left, later, left) = cut-open text (flat rest) part in
          let same : (line ++ text) ++ first_line (flat rest)
              ≡ line ++ first_line (flat (buffer text rest)) =
            append_assoc line text (first_line (flat rest)) ∙ ap (λ t. line ++ t) (sym later) in
          elim (Bool-cases (ltb limit (length (line ++ text)))) [
            | inl over ↦
                let longer : ltb limit (length ((line ++ text) ++ first_line (flat rest))) ≡ true =
                  ground (arith, over, length-append (line ++ text) (first_line (flat rest))) in
                rw (← same, read_line, all, append-large limit line text room over)
                  (
                    sym (judge-large limit ((line ++ text) ++ first_line (flat rest)) longer),
                    λ small. absurd (ground (arith, longer, small)),
                  )
            | inr under ↦
                rw (← same, left, read_line, all, append-small limit line text room under, part)
                  (read_line-Reads limit (line ++ text) rest room h (ground (arith, under)))
          ]
    ]

-- A line is read as its text says, however the buffers divide the stream: it goes up to the first
-- newline, which it keeps, or to the end; it is refused when it is longer than 64 MiB, and otherwise
-- when it is not UTF-8; nothing at all is the end. After a line within the limit the text behind it
-- is ahead.
pub read_limited_line-Reads :
    (source : Source)
    → IsPlain source
    → Reads max_protocol_line_bytes [] (flat source) (read_limited_line source)
unfolding read_limited_line
read_limited_line-Reads source h =
    read_line-Reads max_protocol_line_bytes [] source (omega arith) h (omega arith)
