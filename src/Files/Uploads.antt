-- ===== src/Files/Uploads.antt =====
-- src/files.rs: `UploadAccess`, the files that came with a request.
pub mod Asked
pub mod Served
use stuntdouble.Common.{ℕ, not, Option, none, some, List, [], ◌∷◌, if◌then◌else◌}
use stuntdouble.Common.Bytes.{Bytes, codes, ◌==ᵇ◌}
use stuntdouble.Json.{Json, get, get_str, as_u64}
use stuntdouble.Files.{UploadStore, UploadedFile, uploaded_file, begin_call}
use stuntdouble.Files.Disk.{Disk, Io, pure, map_err, map_open_error, guard, ◌>>=◌, ◌>>◌}
use stuntdouble.Files.Rooted.{
  not_regular, read_capped_file, as_text, Session, bad_call, conclude, conclude_stream, text_json,
  bytes_json,
}

pub data UploadOp : Type 0 where
  read_text : UploadOp
  read_bytes : UploadOp
  stream : UploadOp

unfoldable pub parse_upload_op : Bytes → Option UploadOp
parse_upload_op raw =
    if raw ==ᵇ codes "readText"
    then some read_text
    else if raw ==ᵇ codes "readBytes"
    then some read_bytes
    else if raw ==ᵇ codes "stream"
    then some stream
    else none

abbrev pub upload_api : UploadOp → Bytes
upload_api read_text = codes "upload.text"
upload_api read_bytes = codes "upload.bytes"
upload_api stream = codes "upload.stream"

-- `payload.get("index")` as a usize
unfoldable pub get_index : Json → Option ℕ
get_index payload = elim (get (codes "index") payload) [ none ↦ none | some v ↦ as_u64 v ]

module _ (disk : Disk) where
  -- What `read_upload_capped` and `open_stream` begin with.
  pub open_upload : Bytes → Io disk.World (disk.File × ℕ)
  open_upload path = do
    metadata ← map_err (map_open_error disk) (disk.metadata path)
    guard (not metadata.is_file) not_regular
    file ← map_err (map_open_error disk) (disk.open_file path)
    pure (file, metadata.len)

  pub read_upload_capped : Bytes → Io disk.World Bytes
  read_upload_capped path =
      open_upload path >>= (λ (opened : disk.File × ℕ). read_capped_file disk opened.0 opened.1)

  pub perform_upload : UploadStore → UploadOp → Bytes → ℕ → ℕ → Session disk → Json × Session disk
  perform_upload store read_text path index started s =
      conclude disk index started (text_json disk)
        ((read_upload_capped path >>= as_text disk) s.world) s.calls s.streams
  perform_upload store read_bytes path index started s =
      conclude disk index started (bytes_json disk) (read_upload_capped path s.world) s.calls
        s.streams
  perform_upload store stream path index started s =
      conclude_stream disk (some store) index started (open_upload path s.world) s.calls s.streams

  pub begin_upload : UploadStore → UploadOp → Bytes → Session disk → Json × Session disk
  begin_upload store op path s =
      let (index, calls) = begin_call (upload_api op) s.calls in
      let (started, w) = disk.now s.world in
      perform_upload store op path index started
        (record { world = w; calls = calls; streams = s.streams })

  abbrev refuse : Bytes → Session disk → Json × Session disk
  refuse text s = (bad_call disk (codes "script_error") text, s)

  -- `UploadAccess::call`
  pub upload_call : UploadStore → Json → Session disk → Json × Session disk
  upload_call store payload s = elim (get_str (codes "op") payload) [
    | none ↦ refuse (codes "ctx.request.files: missing operation") s
    | some raw ↦ elim (parse_upload_op raw) [
      | none ↦ refuse (codes "ctx.request.files: unknown operation") s
      | some op ↦ elim (get_index payload) [
        | none ↦ refuse (codes "ctx.request.files: index must be a non-negative integer") s
        | some index ↦ elim (uploaded_file store index) [
          | none ↦ refuse (codes "ctx.request.files: index out of range") s
          | some uploaded ↦ begin_upload store op uploaded.path s
        ]
      ]
    ]
  ]
