-- ===== src/Files/Rooted/Replies.antt =====
-- src/files.rs: the reply and the record of a file call that ends.
use stuntdouble.Common.{
  ℕ, ◌-◌, ◌<◌, ◌≡◌, ◌⊎◌, inl, inr, refl, ap, suc, true, false, Option, none, some, List, [], ◌∷◌,
  ◌++◌, Result, ok, err, arith, length, length-append, get_elem?, Bool-cases,
}
use stuntdouble.Common.Bytes.{Bytes, codes}
use stuntdouble.Common.Utf8.{is_utf8}
use stuntdouble.Json.{Json, bool, number, pos_int, json}
use stuntdouble.RequestLog.Slots.{
  begin-update, length-begin, length-begin-update, get_elem?-begin, get_elem?-earlier,
}
use stuntdouble.Files
use stuntdouble.Files.{
  Error, code, error_json, CallRecord, new_call, begin_call, finish_call, FileBody, UploadStore,
  Streams, register_stream,
}
use stuntdouble.Files.Disk
use stuntdouble.Files.Disk.{Disk, Io, Ensures, Ensures-bind, Outcome-cases}
use stuntdouble.Files.Rooted
use stuntdouble.Files.Rooted.{
  FileOp, read_text, read_bytes, stream, api, parse_op, Session, conclude, conclude_stream, perform,
  begin_and_perform, call, bad_call, open_file, read_capped, read_text_file, text_json, bytes_json,
  as_text,
}

module _ (disk : Disk) where
  abbrev closed : Bytes → Option ℕ → disk.Duration → Option Bytes → CallRecord disk.Duration
  closed name size ms failure = record {
    api = name;
    bytes = size;
    duration_ms = some ms;
    error = failure;
  }

  -- The reply and the closed record of a call that failed.
  pub record IsFailed (name : Bytes) (reply : Json) (slot : Option (CallRecord disk.Duration))
      : Type 0 where
    pub failure : Error
    pub ms : disk.Duration
    pub replied : reply ≡ error_json failure
    pub logged : slot ≡ some (closed name none ms (some (code failure)))

  -- The reply and the closed record of a read that went well.
  pub record IsReply (P : Bytes → Type 0) (name : Bytes) (render : Bytes → Json) (reply : Json)
      (slot : Option (CallRecord disk.Duration)) : Type 0 where
    pub content : Bytes
    pub ms : disk.Duration
    pub as_it_should : P content
    pub replied : reply ≡ render content
    pub logged : slot ≡ some (closed name (some (length content)) ms none)

  -- The reply, the open record and the waiting body of a stream: the whole file, whose record is the
  -- one in the call's slot, under a handle that no body had.
  pub record IsWaiting (P : disk.File × ℕ → Type 0) (kept : Option UploadStore) (name : Bytes)
      (index : ℕ) (reply : Json) (slot : Option (CallRecord disk.Duration))
      (before after : Streams disk.File) : Type 0 where
    pub body : FileBody disk.File
    pub as_it_should : P (body.file, body.size)
    pub kept_is : body.guard ≡ kept
    pub whole : (body.offset ≡ 0) × (body.len ≡ body.size)
    pub handle_of : (body.call.index ≡ index) × (body.call.finished ≡ false)
    pub replied :
        reply
        ≡ json ((codes "ok", bool true) ∷ (codes "handle", number (pos_int (length before))) ∷ [])
    pub waiting : after ≡ before ++ some body ∷ []
    pub logged : slot ≡ some (new_call name)

  pub as_text-is_utf8 :
      (P : Bytes → Type 0) (s : Bytes)
      → P s
      → Ensures (λ t. P t × (is_utf8 t ≡ true)) (as_text disk s)
  unfolding as_text Disk.Ensures
  as_text-is_utf8 P s p w after t e = elim (Bool-cases (is_utf8 s)) [
    | inl well ↦ let same : s ≡ t = ground (arith, well) in rw (← same) (p, well)
    | inr ill ↦ absurd (ground (arith, ill))
  ]

  pub conclude-Reply :
      (P : Bytes → Type 0) (m : Io disk.World Bytes) (name : Bytes) (render : Bytes → Json)
      (started : ℕ) (w : disk.World) (calls : List (CallRecord disk.Duration))
      (streams : Streams disk.File)
      → Ensures P m
      → let begun = begin_call name calls in
        let done = conclude disk begun.0 started render (m w) begun.1 streams in
        (IsReply P name render done.0 (get_elem? done.1.calls begun.0)
          ⊎ IsFailed name done.0 (get_elem? done.1.calls begun.0))
        × (done.1.streams ≡ streams)
  unfolding conclude finish_call begin_call Disk.Ensures
  conclude-Reply P m name render started w calls streams s = elim (Outcome-cases (m w)) [
    | inl (a, v, t) ↦ rw t (
      inl (record {
        content = a;
        ms = disk.elapsed_ms ((disk.now v).0 - started);
        as_it_should = s w v a t;
        replied = refl;
        logged = (begin-update (new_call name) calls _).0;
      }),
      refl,
    )
    | inr (e, v, t) ↦ rw t (
      inr (record {
        failure = e;
        ms = disk.elapsed_ms ((disk.now v).0 - started);
        replied = refl;
        logged = (begin-update (new_call name) calls _).0;
      }),
      refl,
    )
  ]

  new_handle :
      (streams : Streams disk.File) (slot : Option (FileBody disk.File))
      → length (streams ++ slot ∷ []) - 1 ≡ length streams
  new_handle streams slot = omega (arith, length-append streams (slot ∷ []))

  pub conclude_stream-Waiting :
      (P : disk.File × ℕ → Type 0) (m : Io disk.World (disk.File × ℕ)) (kept : Option UploadStore)
      (name : Bytes) (started : ℕ) (w : disk.World) (calls : List (CallRecord disk.Duration))
      (streams : Streams disk.File)
      → Ensures P m
      → let begun = begin_call name calls in
        let done = conclude_stream disk kept begun.0 started (m w) begun.1 streams in
        IsWaiting P kept name begun.0 done.0 (get_elem? done.1.calls begun.0) streams done.1.streams
        ⊎ (IsFailed name done.0 (get_elem? done.1.calls begun.0) × (done.1.streams ≡ streams))
  unfolding Rooted.conclude_stream Rooted.conclude Files.finish_call Files.begin_call
      Files.register_stream Disk.Ensures
  conclude_stream-Waiting P m kept name started w calls streams s = elim (Outcome-cases (m w)) [
    | inl ((file, size), v, t) ↦ rw t (
        inl (record {
          body = _;
          as_it_should = s w v (file, size) t;
          kept_is = refl;
          whole = (refl, refl);
          handle_of = (refl, refl);
          replied =
              ap (λ n. json ((codes "ok", bool true) ∷ (codes "handle", number (pos_int n)) ∷ []))
                (new_handle streams _);
          waiting = refl;
          logged = get_elem?-begin (new_call name) calls;
        }))
    | inr (e, v, t) ↦ rw t (
        inr (
          record {
            failure = e;
            ms = disk.elapsed_ms ((disk.now v).0 - started);
            replied = refl;
            logged = (begin-update (new_call name) calls _).0;
          },
          refl,
        ))
  ]

  -- The log has one record more, and the records of earlier calls stay as they are.
  abbrev pub Keeps : List (CallRecord disk.Duration) → List (CallRecord disk.Duration) → Type 0
  Keeps before after =
      (length after ≡ suc (length before))
      × ((i : ℕ) → i < length before → get_elem? after i ≡ get_elem? before i)

  pub conclude-Keeps :
      (name : Bytes) (render : Bytes → Json) (started : ℕ) (r : Result Bytes Error × disk.World)
      (calls : List (CallRecord disk.Duration)) (streams : Streams disk.File)
      → let begun = begin_call name calls in
        Keeps calls (conclude disk begun.0 started render r begun.1 streams).1.calls
  unfolding conclude finish_call begin_call
  conclude-Keeps name render started (ok bytes, w) calls streams =
      (length-begin-update (new_call name) calls _, (begin-update (new_call name) calls _).1)
  conclude-Keeps name render started (err e, w) calls streams =
      (length-begin-update (new_call name) calls _, (begin-update (new_call name) calls _).1)

  pub conclude_stream-Keeps :
      (kept : Option UploadStore) (name : Bytes) (started : ℕ)
      (r : Result (disk.File × ℕ) Error × disk.World) (calls : List (CallRecord disk.Duration))
      (streams : Streams disk.File)
      → let begun = begin_call name calls in
        Keeps calls (conclude_stream disk kept begun.0 started r begun.1 streams).1.calls
  unfolding conclude_stream conclude finish_call begin_call
  conclude_stream-Keeps kept name started (ok (file, size), w) calls streams =
      (length-begin (new_call name) calls, get_elem?-earlier (new_call name) calls)
  conclude_stream-Keeps kept name started (err e, w) calls streams =
      (length-begin-update (new_call name) calls _, (begin-update (new_call name) calls _).1)
