-- ===== src/Files/Uploads/Served.antt =====
-- src/files.rs: what a call to `ctx.request.files` answers, logs and opens.
use stuntdouble.Common.{
  ℕ, ◌≡◌, ◌⊎◌, inl, inr, refl, sym, ap, ◌∙◌, length, arith, true, Option, some, ok, get_elem?,
  Option-cases,
}
use stuntdouble.Common.Bytes.{Bytes, codes}
use stuntdouble.Common.Utf8.{is_utf8}
use stuntdouble.Json.{Json, get_str}
use stuntdouble.Files.{
  CallRecord, Streams, UploadStore, UploadedFile, uploaded_file, new_call, begin_call,
}
use stuntdouble.Files.Disk.{
  Disk, Metadata, Ensures, Ensures-pure, Ensures-bind, Ensures-weaken, Ensures-guard,
  Ensures-map_err,
}
use stuntdouble.Files.Rooted.{Session, bad_call, text_json, bytes_json}
use stuntdouble.Files.Rooted.Inside.{IsReading, read_capped_file-IsReading, not-false}
use stuntdouble.Files.Rooted.Replies.{
  IsFailed, IsReply, IsWaiting, as_text-is_utf8, conclude-Reply, conclude_stream-Waiting, Keeps,
  conclude-Keeps, conclude_stream-Keeps,
}
use stuntdouble.RequestLog.Slots.{begin-index}
use stuntdouble.Files
use stuntdouble.Files.Uploads.Asked.{
  Asks, parse_upload_op-some, parse_upload_op-none, get_index-some, get_index-none, same_index,
}
use stuntdouble.Files.Uploads.{
  UploadOp, read_text, read_bytes, stream, parse_upload_op, upload_api, get_index, open_upload,
  read_upload_capped, perform_upload, begin_upload, upload_call,
}

module _ (disk : Disk) where
  -- The file was opened at the path, which was that of a regular file of this size.
  pub record IsAt (path : Bytes) (opened : disk.File × ℕ) : Type 0 where
    pub at_size : disk.World
    pub at_open : disk.World
    pub found : Metadata
    pub found_is : (disk.metadata path at_size).0 ≡ ok found
    pub regular : (found.is_file ≡ true) × (found.len ≡ opened.1)
    pub open_is : (disk.open_file path at_open).0 ≡ ok opened.0

  open_upload-IsAt : (path : Bytes) → Ensures (IsAt path) (open_upload disk path)
  unfolding open_upload
  open_upload-IsAt path = Ensures-bind _ _ _ _ (Ensures-map_err _ _) (λ found found_is.
      Ensures-bind _ _ _ _ (Ensures-guard _ _ _) (λ _ regular.
        Ensures-bind _ _ _ _ (Ensures-map_err _ _) (λ file open_is.
          Ensures-pure _ (IsAt path) (file, found.len)
            (record {
              at_size = found_is.0;
              at_open = open_is.0;
              found = found;
              found_is = found_is.1;
              regular = (not-false _ regular, refl);
              open_is = open_is.1;
            }))))

  -- What was read of the file at the path.
  pub record IsUpload (path bytes : Bytes) : Type 0 where
    pub opened : disk.File × ℕ
    pub at : IsAt path opened
    pub reading : IsReading disk opened.0 bytes

  read_upload_capped-IsUpload :
      (path : Bytes) → Ensures (IsUpload path) (read_upload_capped disk path)
  unfolding read_upload_capped
  read_upload_capped-IsUpload path =
      Ensures-bind (IsAt path) _ _ _ (open_upload-IsAt path) (λ (opened : disk.File × ℕ) at.
        Ensures-weaken _ _ _ (read_capped_file-IsReading disk opened.0 opened.1)
          (λ bytes reading. record { opened = opened; at = at; reading = reading }))

  abbrev pub UploadEnds :
      UploadStore
      → UploadOp
      → Bytes
      → ℕ
      → Json
      → Option (CallRecord disk.Duration)
      → Streams disk.File
      → Streams disk.File
      → Type 0
  UploadEnds store read_text path index reply slot before after =
      (IsReply disk (λ s. IsUpload path s × (is_utf8 s ≡ true)) (codes "upload.text")
          (text_json disk) reply slot
        ⊎ IsFailed disk (codes "upload.text") reply slot)
      × (after ≡ before)
  UploadEnds store read_bytes path index reply slot before after =
      (IsReply disk (IsUpload path) (codes "upload.bytes") (bytes_json disk) reply slot
        ⊎ IsFailed disk (codes "upload.bytes") reply slot)
      × (after ≡ before)
  UploadEnds store stream path index reply slot before after =
      IsWaiting disk (IsAt path) (some store) (codes "upload.stream") index reply slot before after
      ⊎ (IsFailed disk (codes "upload.stream") reply slot × (after ≡ before))

  perform_upload-Ends :
      (store : UploadStore) (op : UploadOp) (path : Bytes) (started : ℕ) (s : Session disk)
      → let begun = begin_call (upload_api op) s.calls in
        let done =
          perform_upload disk store op path begun.0 started
            (record { world = s.world; calls = begun.1; streams = s.streams }) in
        UploadEnds store op path begun.0 done.0
          (get_elem? done.1.calls begun.0)
          s.streams
          done.1.streams
        × Keeps disk s.calls done.1.calls
  unfolding perform_upload
  perform_upload-Ends store read_text path started s = (
    conclude-Reply disk _ _ (upload_api read_text) (text_json disk) started s.world s.calls
        s.streams
        (Ensures-bind _ _ _ _ (read_upload_capped-IsUpload path)
          (λ bytes p. as_text-is_utf8 disk (IsUpload path) bytes p)),
    conclude-Keeps disk (upload_api read_text) (text_json disk) started _ s.calls s.streams,
  )
  perform_upload-Ends store read_bytes path started s = (
    conclude-Reply disk _ _ (upload_api read_bytes) (bytes_json disk) started s.world s.calls
        s.streams (read_upload_capped-IsUpload path),
    conclude-Keeps disk (upload_api read_bytes) (bytes_json disk) started _ s.calls s.streams,
  )
  perform_upload-Ends store stream path started s = (
    conclude_stream-Waiting disk (IsAt path) (open_upload disk path) (some store)
        (upload_api stream) started s.world s.calls s.streams (open_upload-IsAt path),
    conclude_stream-Keeps disk (some store) (upload_api stream) started _ s.calls s.streams,
  )

  -- How a call ends that names an operation and an uploaded file; its record is behind the earlier
  -- ones.
  pub record IsUploadServed (store : UploadStore) (payload : Json) (s : Session disk) : Type 0 where
    pub op : UploadOp
    pub number : ℕ
    pub uploaded : UploadedFile
    pub asked : Asks store payload op number uploaded
    pub ends :
        let index = length s.calls in
        let done = upload_call disk store payload s in
        UploadEnds store op uploaded.path index done.0
          (get_elem? done.1.calls index)
          s.streams
          done.1.streams
    pub keeps : Keeps disk s.calls (upload_call disk store payload s).1.calls

  -- A call that is refused: it asks for nothing, is answered with an error, and has no effect.
  pub record IsUploadRefused (store : UploadStore) (payload : Json) (s : Session disk)
      : Type 0 where
    pub text : Bytes
    pub replied : upload_call disk store payload s ≡ (bad_call disk (codes "script_error") text, s)
    pub asks_nothing :
        (op : UploadOp) (number : ℕ) (uploaded : UploadedFile)
        → ¬ Asks store payload op number uploaded

  -- A call to `ctx.request.files` that asks for no known operation on an upload of the request is
  -- refused, with an error, no record and no effect. Every other call adds one record to the log,
  -- behind the earlier ones, which stay as they are. The path that is opened is the one under which
  -- the upload with the index was stored. A read answers at most 8 MiB of that file, well-formed UTF-8
  -- if it is a text, and logs the size, or it answers an error and logs its code. A stream leaves its
  -- record open and the whole file, which keeps the uploads alive, behind a new handle, or it fails as
  -- a read does.
  pub upload_call-IsUploadServed :
      (store : UploadStore) (payload : Json) (s : Session disk)
      → IsUploadRefused store payload s ⊎ IsUploadServed store payload s
  unfolding upload_call begin_upload Files.uploaded_file Files.begin_call
  upload_call-IsUploadServed store payload s = elim (Option-cases (get_str (codes "op") payload)) [
    | inl e ↦ inl (record {
      text = codes "ctx.request.files: missing operation";
      replied = rw (upload_call, e) refl;
      asks_nothing = λ op n uploaded asks. cc (sym e ∙ asks.0);
    })
    | inr (raw, e) ↦ elim (Option-cases (parse_upload_op raw)) [
      | inl f ↦ inl (record {
        text = codes "ctx.request.files: unknown operation";
        replied = rw (upload_call, e, f) refl;
        asks_nothing =
            λ op n uploaded asks. parse_upload_op-none raw f op (ground (arith, sym e ∙ asks.0));
      })
      | inr (op, f) ↦ elim (Option-cases (get_index payload)) [
        | inl g ↦ inl (record {
          text = codes "ctx.request.files: index must be a non-negative integer";
          replied = rw (upload_call, e, f, g) refl;
          asks_nothing = λ op n uploaded asks. get_index-none payload n g asks.1;
        })
        | inr (index, g) ↦
            let there = get_index-some payload index g in
            elim (Option-cases (uploaded_file store index)) [
              | inl h ↦ inl (record {
                text = codes "ctx.request.files: index out of range";
                replied = rw (upload_call, e, f, g, h) refl;
                asks_nothing = λ op n uploaded asks.
                    same_index payload store index n uploaded there h asks.1 asks.2;
              })
              | inr (uploaded, h) ↦
                  let started = disk.now s.world in
                  let here : Session disk = record {
                    world = started.1;
                    calls = s.calls;
                    streams = s.streams;
                  } in
                  let (ends, keeps) = perform_upload-Ends store op uploaded.path started.0 here in
                  inr (record {
                    op = op;
                    number = index;
                    uploaded = uploaded;
                    asked = (e ∙ ap some (parse_upload_op-some raw op f), there, h);
                    ends =
                        rw (← begin-index (new_call (upload_api op)) s.calls)
                          (rw (upload_call, e, f, g, h) ends);
                    keeps = rw (upload_call, e, f, g, h) keeps;
                  })
            ]
      ]
    ]
  ]
