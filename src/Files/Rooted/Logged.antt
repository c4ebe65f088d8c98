-- ===== src/Files/Rooted/Logged.antt =====
-- src/files.rs: what a call to `ctx.file` answers, logs and opens.
use stuntdouble.Common.{
  ℕ, ◌≡◌, ◌⊎◌, inl, inr, refl, sym, ap, ◌∙◌, true, Option, none, some, arith, length, get_elem?,
  Option-cases,
}
use stuntdouble.Common.Bytes.{Bytes, codes}
use stuntdouble.Common.Utf8.{is_utf8}
use stuntdouble.Json.{Json, get_str}
use stuntdouble.RequestLog.Slots.{begin-index}
use stuntdouble.Files.{CallRecord, new_call, begin_call, Streams}
use stuntdouble.Files.Disk.{Disk, Ensures-bind}
use stuntdouble.Files.Rooted.{
  FileOp, read_text, read_bytes, stream, api, parse_op, Session, perform, begin_and_perform, call,
  bad_call, open_file, read_text_file, text_json, bytes_json,
}
use stuntdouble.Files.Rooted.Asked.{Asks, parse_op-some, parse_op-none}
use stuntdouble.Files.Rooted.Replies.{
  IsFailed, IsReply, IsWaiting, as_text-is_utf8, conclude-Reply, conclude_stream-Waiting, Keeps,
  conclude-Keeps, conclude_stream-Keeps,
}
use stuntdouble.Files.Rooted.Inside.{IsRead, Opened, open_file-Opened, read_capped-Ensures}

module _ (disk : Disk) where
  abbrev pub Ends :
      Bytes
      → FileOp
      → Bytes
      → ℕ
      → Json
      → Option (CallRecord disk.Duration)
      → Streams disk.File
      → Streams disk.File
      → Type 0
  Ends configured read_text path index reply slot before after =
      (IsReply disk (λ s. IsRead disk configured path s × (is_utf8 s ≡ true))
          (codes "file.readText") (text_json disk) reply slot
        ⊎ IsFailed disk (codes "file.readText") reply slot)
      × (after ≡ before)
  Ends configured read_bytes path index reply slot before after =
      (IsReply disk (IsRead disk configured path) (codes "file.readBytes") (bytes_json disk) reply
          slot
        ⊎ IsFailed disk (codes "file.readBytes") reply slot)
      × (after ≡ before)
  Ends configured stream path index reply slot before after =
      IsWaiting disk (Opened disk configured path) none (codes "file.stream") index reply slot
        before after
      ⊎ (IsFailed disk (codes "file.stream") reply slot × (after ≡ before))

  perform-Ends :
      (configured : Bytes) (op : FileOp) (path : Bytes) (started : ℕ) (s : Session disk)
      → let begun = begin_call (api op) s.calls in
        let done =
          perform disk configured op path begun.0 started
            (record { world = s.world; calls = begun.1; streams = s.streams }) in
        Ends configured op path begun.0 done.0
          (get_elem? done.1.calls begun.0)
          s.streams
          done.1.streams
  unfolding perform read_text_file
  perform-Ends configured read_text path started s =
      conclude-Reply disk _ _ (api read_text) (text_json disk) started s.world s.calls s.streams (
        Ensures-bind _ _ _ _ (read_capped-Ensures disk configured path)
          (λ bytes p. as_text-is_utf8 disk (IsRead disk configured path) bytes p))
  perform-Ends configured read_bytes path started s =
      conclude-Reply disk _ _ (api read_bytes) (bytes_json disk) started s.world s.calls s.streams
        (read_capped-Ensures disk configured path)
  perform-Ends configured stream path started s =
      conclude_stream-Waiting disk (Opened disk configured path) (open_file disk configured path)
        none (api stream) started s.world s.calls s.streams (open_file-Opened disk configured path)

  perform-Keeps :
      (configured : Bytes) (op : FileOp) (path : Bytes) (started : ℕ) (s : Session disk)
      → let begun = begin_call (api op) s.calls in
        Keeps disk s.calls
          (perform disk configured op path begun.0 started
            (record { world = s.world; calls = begun.1; streams = s.streams })).1.calls
  unfolding perform
  perform-Keeps configured read_text path started s =
      conclude-Keeps disk (api read_text) (text_json disk) started _ s.calls s.streams
  perform-Keeps configured read_bytes path started s =
      conclude-Keeps disk (api read_bytes) (bytes_json disk) started _ s.calls s.streams
  perform-Keeps configured stream path started s =
      conclude_stream-Keeps disk none (api stream) started _ s.calls s.streams

  -- How a call ends that names an operation and a path; its record is behind the earlier ones.
  pub record IsServed (configured : Bytes) (payload : Json) (s : Session disk) : Type 0 where
    pub op : FileOp
    pub path : Bytes
    pub asked : Asks payload op path
    pub ends :
        let index = length s.calls in
        let done = call disk configured payload s in
        Ends configured op path index done.0 (get_elem? done.1.calls index) s.streams done.1.streams
    pub keeps : Keeps disk s.calls (call disk configured payload s).1.calls

  -- A call that is refused: it asks for nothing, is answered with an error, and has no effect.
  pub record IsRefused (configured : Bytes) (payload : Json) (s : Session disk) : Type 0 where
    pub kind : Bytes
    pub text : Bytes
    pub replied : call disk configured payload s ≡ (bad_call disk kind text, s)
    pub asks_nothing : (op : FileOp) (path : Bytes) → ¬ Asks payload op path

  -- A call to `ctx.file` that asks for no known operation on a path is refused, with an error, no
  -- record and no effect. Every other call adds one record to the log, behind the earlier ones, which
  -- stay as they are. A read answers what it read and logs its size, or answers an error and logs its
  -- code; what it answers is the content of a file that was opened in the root, of at most 8 MiB, and
  -- well-formed UTF-8 if it is a text. A stream leaves its record open and the whole file behind a new
  -- handle, or fails as a read does.
  pub call-IsServed :
      (configured : Bytes) (payload : Json) (s : Session disk)
      → IsRefused configured payload s ⊎ IsServed configured payload s
  unfolding call begin_and_perform begin_call
  call-IsServed configured payload s = elim (Option-cases (get_str (codes "op") payload)) [
    | inl e ↦ inl (record {
      kind = codes "script_error";
      text = codes "ctx.file: missing operation";
      replied = rw (call, e) refl;
      asks_nothing = λ op path asks. cc (sym e ∙ asks.0);
    })
    | inr (raw, e) ↦ elim (Option-cases (get_str (codes "path") payload)) [
      | inl f ↦ inl (record {
        kind = codes "file_path_invalid";
        text = codes "ctx.file: path must be a string";
        replied = rw (call, e, f) refl;
        asks_nothing = λ op path asks. cc (sym f ∙ asks.1);
      })
      | inr (path, f) ↦ elim (Option-cases (parse_op raw)) [
        | inl g ↦ inl (record {
          kind = codes "script_error";
          text = codes "ctx.file: unknown operation";
          replied = rw (call, e, f, g) refl;
          asks_nothing = λ op path asks. parse_op-none raw g op (ground (arith, sym e ∙ asks.0));
        })
        | inr (op, g) ↦
            let started = disk.now s.world in
            let here : Session disk = record {
              world = started.1;
              calls = s.calls;
              streams = s.streams;
            } in
            inr (record {
              op = op;
              path = path;
              asked = (e ∙ ap some (parse_op-some raw op g), f);
              ends =
                  rw (← begin-index (new_call (api op)) s.calls)
                    (rw (call, e, f, g) (perform-Ends configured op path started.0 here));
              keeps = rw (call, e, f, g) (perform-Keeps configured op path started.0 here);
            })
      ]
    ]
  ]
