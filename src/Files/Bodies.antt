-- ===== src/Files/Bodies.antt =====
-- src/files.rs: errors, records of the log, uploaded files, and opened bodies.
use stuntdouble.Common.{
  ℕ, zero, suc, ◌-◌, false, Option, none, some, List, [], ◌∷◌, ◌++◌, map, ◌==◌, if◌then◌else◌,
  length, get_elem?,
}
use stuntdouble.Common.Bytes.{Bytes, codes}
use stuntdouble.Common.Text.{to_text}
use stuntdouble.Json.{Json, null, bool, string, number, pos_int, json}
use stuntdouble.RequestLog
use stuntdouble.RequestLog.{LogRecord, Pending, update}

abbrev pub max_read_bytes : ℕ
max_read_bytes = 8388608

pub data Error : Type 0 where
  path_invalid : Bytes → Error
  not_found : Error
  too_large : Error
  encoding : Error
  io : Bytes → Error

abbrev pub code : Error → Bytes
code (path_invalid _) = codes "file_path_invalid"
code not_found = codes "file_not_found"
code too_large = codes "file_too_large"
code encoding = codes "file_encoding_error"
code (io _) = codes "file_io_error"

pub message : Error → Bytes
message (path_invalid reason) = reason
message not_found = codes "file not found"
message too_large = codes "file exceeds the " ++ to_text max_read_bytes ++ codes "-byte read cap"
message encoding = codes "file is not valid UTF-8"
message (io text) = text

unfoldable pub error_json : Error → Json
error_json error = json (
    (codes "ok", bool false)
    ∷ (codes "code", string (code error))
    ∷ (codes "message", string (message error))
    ∷ [])

pub record CallRecord (Duration : Type 0) : Type 0 where
  pub api : Bytes
  pub bytes : Option ℕ
  pub duration_ms : Option Duration
  pub error : Option Bytes

abbrev optional : {A : Type 0} → (A → Json) → Option A → Json
optional f none = null
optional f (some a) = f a

-- `impl LogRecord for CallRecord`; the argument is the number that `json!` makes of a duration.
pub log_record : {Duration : Type 0} → (Duration → Json) → LogRecord (CallRecord Duration) Duration
log_record ms_json = record {
  to_json = λ c. json (
      (codes "api", string c.api)
      ∷ (codes "bytes", optional (λ n. number (pos_int n)) c.bytes)
      ∷ (codes "duration_ms", optional ms_json c.duration_ms)
      ∷ (codes "error", optional string c.error)
      ∷ []);
  set_duration_ms = λ ms c. record c { duration_ms = some ms };
  set_bytes = λ n c. record c { bytes = some n };
}

-- `CallRecord::new`
abbrev pub new_call : {Duration : Type 0} → Bytes → CallRecord Duration
new_call api = record { api = api; bytes = none; duration_ms = none; error = none }

unfoldable pub begin_call :
    {Duration : Type 0} → Bytes → List (CallRecord Duration) → ℕ × List (CallRecord Duration)
begin_call api calls = RequestLog.begin (new_call api) calls

-- `finish_call`; the duration is the rounded time since the start.
unfoldable pub finish_call :
    {Duration : Type 0}
    → ℕ
    → Duration
    → Option ℕ
    → Option Bytes
    → List (CallRecord Duration)
    → List (CallRecord Duration)
finish_call index ms n failure calls =
    update index (λ c. record { api = c.api; bytes = n; duration_ms = some ms; error = failure })
      calls

pub record UploadFileMeta : Type 0 where
  pub field : Bytes
  pub filename : Bytes
  pub content_type : Option Bytes
  pub size : ℕ

pub upload_json : UploadFileMeta → Json
upload_json m = json (
    (codes "field", string m.field)
    ∷ (codes "filename", string m.filename)
    ∷ (codes "contentType", optional string m.content_type)
    ∷ (codes "size", number (pos_int m.size))
    ∷ [])

pub record UploadedFile : Type 0 where
  pub meta : UploadFileMeta
  pub path : Bytes

-- `dir` is the temporary directory that the store's guard removes.
pub record UploadStore : Type 0 where
  pub dir : Option Bytes
  pub files : List UploadedFile
  pub total_bytes : ℕ

unfoldable pub metas : UploadStore → List UploadFileMeta
metas store = map (λ f. f.meta) store.files

unfoldable pub uploaded_file : UploadStore → ℕ → Option UploadedFile
uploaded_file store index = get_elem? store.files index

-- An opened body. A `File` is a type of the platform.
pub record FileBody (File : Type 0) : Type 0 where
  pub file : File
  pub size : ℕ
  pub offset : ℕ
  pub len : ℕ
  pub call : Pending
  pub guard : Option UploadStore

abbrev pub Streams : Type 0 → Type 0
Streams File = List (Option (FileBody File))

-- `register_stream`: the handle, and the streams with the body behind them.
unfoldable pub register_stream : {File : Type 0} → FileBody File → Streams File → ℕ × Streams File
register_stream body streams = (length (streams ++ some body ∷ []) - 1, streams ++ some body ∷ [])

-- `Option::take` in one slot
abbrev pub clear : {A : Type 0} → ℕ → List (Option A) → List (Option A)
clear i [] = []
clear zero (slot ∷ slots) = none ∷ slots
clear (suc i) (slot ∷ slots) = slot ∷ clear i slots

abbrev pub flatten : {A : Type 0} → Option (Option A) → Option A
flatten none = none
flatten (some slot) = slot

-- `take_stream` of both accesses
unfoldable pub take_stream :
    {File : Type 0} → ℕ → Streams File → Option (FileBody File) × Streams File
take_stream handle streams = (flatten (get_elem? streams handle), clear handle streams)

pub data StreamOutcome : Type 0 where
  complete : StreamOutcome
  file_error : StreamOutcome
  client_disconnected : StreamOutcome

unfoldable pub from_channel_close : ℕ → Option ℕ → StreamOutcome
from_channel_close sent none = client_disconnected
from_channel_close sent (some announced) =
    if announced == sent then complete else client_disconnected

abbrev pub error_class : StreamOutcome → Option Bytes
error_class complete = none
error_class file_error = some (codes "file_stream_error")
error_class client_disconnected = some (codes "client_disconnected")

-- `Pending<CallRecord>::finish`
unfoldable pub finish :
    {Duration : Type 0}
    → LogRecord (CallRecord Duration) Duration
    → (ℕ → Duration)
    → ℕ
    → StreamOutcome
    → ℕ
    → Pending × List (CallRecord Duration)
    → Pending × List (CallRecord Duration)
finish log elapsed_ms now outcome sent at =
    RequestLog.finish_with log elapsed_ms now sent
      (λ c. record {
        api = c.api;
        bytes = c.bytes;
        duration_ms = c.duration_ms;
        error = error_class outcome;
      })
      at
