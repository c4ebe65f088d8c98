-- ===== src/Files/Rooted.antt =====
-- src/files.rs: `FileAccess`, the files under the configured root.
pub mod Inside
pub mod Asked
pub mod Replies
pub mod Logged
pub mod Tests
use stuntdouble.Common.{
  ℕ, suc, ◌+◌, ◌-◌, Bool, true, false, not, Option, none, some, List, [], ◌∷◌, ltb, if◌then◌else◌,
  Result, ok, err, length,
}
use stuntdouble.Common.Bytes.{Bytes, codes, ◌==ᵇ◌, is_empty}
use stuntdouble.Common.Utf8.{is_utf8}
use stuntdouble.Json.{Json, bool, string, number, pos_int, json, get_str}
use stuntdouble.RequestLog
use stuntdouble.Files.{
  Error, path_invalid, too_large, encoding, io, code, error_json, CallRecord, log_record,
  begin_call, finish_call, UploadStore, FileBody, Streams, max_read_bytes, register_stream,
}
use stuntdouble.Files.Disk.{
  Disk, Metadata, Component, prefix, root_dir, cur_dir, parent_dir, normal, components, starts_with,
  join, Io, pure, fail, map_err, map_open_error, io_error, guard, ◌>>=◌, ◌>>◌,
}

pub data FileOp : Type 0 where
  read_text : FileOp
  read_bytes : FileOp
  stream : FileOp

unfoldable pub parse_op : Bytes → Option FileOp
parse_op raw =
    if raw ==ᵇ codes "readText"
    then some read_text
    else if raw ==ᵇ codes "readBytes"
    then some read_bytes
    else if raw ==ᵇ codes "stream"
    then some stream
    else none

abbrev pub api : FileOp → Bytes
api read_text = codes "file.readText"
api read_bytes = codes "file.readBytes"
api stream = codes "file.stream"

-- The error of the first component that a script may not use.
unfoldable pub refused : List Component → Option Error
refused [] = none
refused (parent_dir ∷ rest) = some (path_invalid (codes "`..` components are not allowed"))
refused (root_dir ∷ rest) = some (path_invalid (codes "absolute paths are not allowed"))
refused (prefix ∷ rest) = some (path_invalid (codes "absolute paths are not allowed"))
refused (cur_dir ∷ rest) = refused rest
refused (normal s ∷ rest) = refused rest

pub check : {W : Type 0} → Option Error → Io W (Unit {0})
check none = pure tt
check (some e) = fail e

abbrev pub not_regular : Error
not_regular = io (codes "path is not a regular file")

abbrev escapes : Error
escapes = path_invalid (codes "path escapes the static file root")

module _ (disk : Disk) where
  -- `read_capped_file`; what the file holds may have changed since its size was taken.
  pub read_capped_file : disk.File → ℕ → Io disk.World Bytes
  read_capped_file file size = do
    guard (ltb max_read_bytes size) too_large
    bytes ← map_err (io_error disk) (disk.read_to_end (suc max_read_bytes) file)
    guard (ltb max_read_bytes (length bytes)) too_large
    pure bytes

  total : {A : Type 0} → (disk.World → A × disk.World) → Io disk.World A
  total m w = let (a, v) = m w in pure a v

  -- `verify_open_target` on Linux
  judge_target : Bytes → Result Bytes disk.IoError → Io disk.World (Unit {0})
  judge_target root (err e) = pure tt
  judge_target root (ok canonical) = guard (not (starts_with canonical root)) escapes

  judge : Bytes → Option Bytes → Io disk.World (Unit {0})
  judge root none = pure tt
  judge root (some actual) = total (disk.canonicalize actual) >>= judge_target root

  pub verify_open_target : disk.File → Bytes → Io disk.World (Unit {0})
  verify_open_target file root = total (disk.fd_link file) >>= judge root

  -- `FileAccess`: the configured root.
  pub resolve : Bytes → Bytes → Io disk.World (Bytes × Bytes)
  resolve configured raw = do
    guard (is_empty raw) (path_invalid (codes "path must not be empty"))
    check (refused (components raw))
    root ← map_err (io_error disk) (disk.canonicalize configured)
    directory ← total (disk.is_dir root)
    guard (not directory) (io (codes "static file root is not a directory"))
    target ← map_err (map_open_error disk) (disk.canonicalize (join root raw))
    guard (not (starts_with target root)) escapes
    pure (target, root)

  -- `File::open` between its two checks of the type, and the size of what was opened.
  pub open_regular : Bytes → Bytes → Io disk.World (disk.File × ℕ)
  open_regular target root = do
    metadata ← map_err (map_open_error disk) (disk.metadata target)
    guard (not metadata.is_file) not_regular
    file ← map_err (map_open_error disk) (disk.open_file target)
    opened ← map_err (io_error disk) (disk.file_metadata file)
    guard (not opened.is_file) not_regular
    verify_open_target file root
    pure (file, opened.len)

  pub open_file : Bytes → Bytes → Io disk.World (disk.File × ℕ)
  open_file configured raw =
      resolve configured raw >>= (λ (at : Bytes × Bytes). open_regular at.0 at.1)

  pub read_capped : Bytes → Bytes → Io disk.World Bytes
  read_capped configured raw =
      open_file configured raw >>= (λ (opened : disk.File × ℕ). read_capped_file opened.0 opened.1)

  -- `String::from_utf8`
  pub as_text : Bytes → Io disk.World Bytes
  as_text bytes = if is_utf8 bytes then pure bytes else fail encoding

  pub read_text_file : Bytes → Bytes → Io disk.World Bytes
  read_text_file configured raw = read_capped configured raw >>= as_text

  -- What one request keeps: the world, its log of file calls, and its opened bodies.
  pub record Session : Type 0 where
    pub world : disk.World
    pub calls : List (CallRecord disk.Duration)
    pub streams : Streams disk.File

  unfoldable pub bad_call : Bytes → Bytes → Json
  bad_call kind text =
      json (
        (codes "ok", bool false)
        ∷ (codes "code", string kind)
        ∷ (codes "message", string text)
        ∷ [])

  -- A buffered read is over: its record is closed, and its answer is made.
  unfoldable pub conclude :
      ℕ
      → ℕ
      → (Bytes → Json)
      → Result Bytes Error × disk.World
      → List (CallRecord disk.Duration)
      → Streams disk.File
      → Json × Session
  conclude index started render (ok bytes, w) calls streams =
      let (time, after) = disk.now w in
      (
        render bytes,
        record {
          world = after;
          calls =
              finish_call index (disk.elapsed_ms (time - started)) (some (length bytes)) none calls;
          streams = streams;
        },
      )
  conclude index started render (err e, w) calls streams =
      let (time, after) = disk.now w in
      (
        error_json e,
        record {
          world = after;
          calls = finish_call index (disk.elapsed_ms (time - started)) none (some (code e)) calls;
          streams = streams;
        },
      )

  -- The end of `open_stream`: an opened body leaves its record open, and waits under a new handle.
  unfoldable pub conclude_stream :
      Option UploadStore
      → ℕ
      → ℕ
      → Result (disk.File × ℕ) Error × disk.World
      → List (CallRecord disk.Duration)
      → Streams disk.File
      → Json × Session
  conclude_stream kept index started (err e, w) calls streams =
      conclude index started (λ _. error_json e) (err e, w) calls streams
  conclude_stream kept index started (ok (file, size), w) calls streams =
      let (handle, opened) =
        register_stream
          (record {
            file = file;
            size = size;
            offset = 0;
            len = size;
            call = RequestLog.new (log_record disk.ms_json) disk.elapsed_ms index started;
            guard = kept;
          })
          streams in
      (
        json ((codes "ok", bool true) ∷ (codes "handle", number (pos_int handle)) ∷ []),
        record { world = w; calls = calls; streams = opened },
      )

  unfoldable pub text_json : Bytes → Json
  text_json text = json ((codes "ok", bool true) ∷ (codes "text", string text) ∷ [])

  unfoldable pub bytes_json : Bytes → Json
  bytes_json bytes =
      json ((codes "ok", bool true) ∷ (codes "bytes_base64", string (disk.encode bytes)) ∷ [])

  -- One operation on a path, with the slot of its record and the time of its start.
  pub perform : Bytes → FileOp → Bytes → ℕ → ℕ → Session → Json × Session
  perform configured read_text path index started s =
      conclude index started text_json (read_text_file configured path s.world) s.calls s.streams
  perform configured read_bytes path index started s =
      conclude index started bytes_json (read_capped configured path s.world) s.calls s.streams
  perform configured stream path index started s =
      conclude_stream none index started (open_file configured path s.world) s.calls s.streams

  -- The call is in the log before it is carried out.
  pub begin_and_perform : Bytes → FileOp → Bytes → Session → Json × Session
  begin_and_perform configured op path s =
      let (index, calls) = begin_call (api op) s.calls in
      let (started, w) = disk.now s.world in
      perform configured op path index started
        (record { world = w; calls = calls; streams = s.streams })

  -- `FileAccess::call`
  pub call : Bytes → Json → Session → Json × Session
  call configured payload s = elim (get_str (codes "op") payload) [
    | none ↦ (bad_call (codes "script_error") (codes "ctx.file: missing operation"), s)
    | some raw ↦ elim (get_str (codes "path") payload) [
      | none ↦ (bad_call (codes "file_path_invalid") (codes "ctx.file: path must be a string"), s)
      | some path ↦ elim (parse_op raw) [
        | none ↦ (bad_call (codes "script_error") (codes "ctx.file: unknown operation"), s)
        | some op ↦ begin_and_perform configured op path s
      ]
    ]
  ]
