-- ===== src/Files/Multipart.antt =====
-- src/files.rs: `parse_multipart`, from the parts that the crate multer reads on.
pub mod Stored
pub mod Refused
pub mod Given
pub mod Announced
mod Tests
use stuntdouble.Common.{
  ℕ, zero, suc, ◌+◌, min, Bool, true, false, ◌||◌, Option, none, some, List, [], ◌∷◌, ◌++◌, ltb,
  ◌==◌, if◌then◌else◌, length, any, Result, ok, err,
}
use stuntdouble.Common.Bytes.{Bytes, codes, eq_ignore_ascii_case, split_on}
use stuntdouble.Common.Text.{trim, parse_u64, to_text, u64_max}
use stuntdouble.Files.{UploadFileMeta, UploadedFile, UploadStore}
use stuntdouble.Files.Disk.{join}

abbrev first_part : List Bytes → Bytes
first_part [] = []
first_part (part ∷ parts) = part

-- `is_multipart`, of the text of a `Content-Type` header, if it is there and is a text.
pub is_multipart : Option Bytes → Bool
is_multipart none = false
is_multipart (some text) =
    eq_ignore_ascii_case (trim (first_part (split_on b';' text))) (codes "multipart/form-data")

-- `content_length`, of the text of the header.
pub content_length : Option Bytes → Option ℕ
content_length none = none
content_length (some text) = parse_u64 (trim text)

pub data ParseFailure : Type 0 where
  invalid : ℕ → Option ℕ → ParseFailure
  too_large : ℕ → Option ℕ → ParseFailure
  io : ℕ → Option ℕ → ParseFailure

abbrev pub failure_code : ParseFailure → Bytes
failure_code (invalid _ _) = codes "invalid_multipart"
failure_code (too_large _ _) = codes "upload_too_large"
failure_code (io _ _) = codes "upload_io_error"

abbrev pub failure_files : ParseFailure → ℕ
failure_files (invalid files _) = files
failure_files (too_large files _) = files
failure_files (io files _) = files

abbrev pub counted_bytes : ParseFailure → Option ℕ
counted_bytes (invalid _ counted) = counted
counted_bytes (too_large _ counted) = counted
counted_bytes (io _ counted) = counted

abbrev pub status_code : ParseFailure → ℕ
status_code (too_large _ _) = 413
status_code (invalid _ _) = 400
status_code (io _ _) = 500

abbrev pub detail : ParseFailure → Bytes
detail (too_large _ _) = codes "upload exceeds files.upload_max_bytes"
detail (invalid _ _) = codes "multipart body is malformed"
detail (io _ _) = codes "upload temporary storage failed"

-- What the parser reads of one part: its chunks, and whether an error is of status 413.
pub data Chunks : Type 0 where
  done : Chunks
  broken : Bool → Chunks
  chunk : Bytes → Chunks → Chunks

-- `part name file_name content_type chunks parts`
pub data Parts : Type 0 where
  end : Parts
  broken_off : Bool → Parts
  part : Option Bytes → Option Bytes → Option Bytes → Chunks → Parts → Parts

-- `map_multipart_error`
pub map_multipart_error : Bool → ℕ → Option ℕ → ParseFailure
map_multipart_error payload_too_large files counted =
    if payload_too_large then too_large files counted else invalid files counted

abbrev is_separator : ℕ → Bool
is_separator c = c == b'/' || c == b'\\'

-- `client_basename`: what follows the last separator.
unfoldable pub client_basename : Bytes → Bytes
client_basename [] = []
client_basename (c ∷ s) =
    let rest = client_basename s in
    if any is_separator s then rest else if is_separator c then s else c ∷ s

-- The temporary directory and its files, by the calls of tempfile and tokio; `none` and `false` are
-- errors.
pub record Storage : Type 1 where
  pub World : Type 0
  pub Writer : Type 0
  pub create_dir : World → Option Bytes × World
  pub create : Bytes → World → Option Writer × World
  pub write_all : Writer → Bytes → World → Bool × World
  pub flush : Writer → World → Bool × World
  pub shutdown : Writer → World → Bool × World

-- `saturating_add`
abbrev pub saturating_add : ℕ → ℕ → ℕ
saturating_add a b = min (a + b) u64_max

module _ (storage : Storage) where
  -- A part that is no file has no writer.
  abbrev put : Option storage.Writer → Bytes → storage.World → Bool × storage.World
  put none bytes w = (true, w)
  put (some writer) bytes w = storage.write_all writer bytes w

  abbrev grown : Option storage.Writer → ℕ → ℕ → ℕ
  grown none size n = size
  grown (some writer) size n = saturating_add size n

  -- The inner loop: the size of the file and the total, or the failure.
  pub read_chunks :
      ℕ
      → ℕ
      → Option storage.Writer
      → Chunks
      → ℕ
      → ℕ
      → storage.World
      → Result (ℕ × ℕ) ParseFailure × storage.World
  read_chunks most files writer done size total w = (ok (size, total), w)
  read_chunks most files writer (broken large) size total w =
      (err (map_multipart_error large files (some total)), w)
  read_chunks most files writer (chunk bytes rest) size total w =
      let now = saturating_add total (length bytes) in
      let (written, after) = put writer bytes w in
      elim (ltb most now) [
        | true ↦ (err (too_large files (some now)), w)
        | false ↦ elim written [
          | true ↦ read_chunks most files writer rest (grown writer size (length bytes)) now after
          | false ↦ (err (io files (some now)), after)
        ]
      ]

  -- The writer of a part under its number, if it is a file; the outer `none` is an error.
  open_writer :
      Bytes → ℕ → Option Bytes → storage.World → Option (Option storage.Writer) × storage.World
  open_writer dir number none w = (some none, w)
  open_writer dir number (some filename) w =
      let (writer, after) = storage.create (join dir (to_text number)) w in
      (elim writer [ none ↦ none | some opened ↦ some (some opened) ], after)

  -- `flush` and `shutdown`
  close_writer : Option storage.Writer → storage.World → Bool × storage.World
  close_writer none w = (true, w)
  close_writer (some writer) w =
      let (flushed, after) = storage.flush writer w in
      elim flushed [ true ↦ storage.shutdown writer after | false ↦ (false, after) ]

  abbrev pushed :
      Bytes → Bytes → Option Bytes → Option Bytes → ℕ → List UploadedFile → List UploadedFile
  pushed dir field none content_type size files = files
  pushed dir field (some filename) content_type size files =
      files
      ++ record {
        meta = record {
          field = field;
          filename = client_basename filename;
          content_type = content_type;
          size = size;
        };
        path = join dir (to_text (length files));
      }
        ∷ []

  -- The outer loop: the files and the total, or the failure.
  pub parse_parts :
      ℕ
      → Bytes
      → Parts
      → List UploadedFile
      → ℕ
      → Option ℕ
      → storage.World
      → Result (List UploadedFile × ℕ) ParseFailure × storage.World
  parse_parts most dir end files total counted w = (ok (files, total), w)
  parse_parts most dir (broken_off large) files total counted w =
      (err (map_multipart_error large (length files) counted), w)
  parse_parts most dir (part none file_name content_type chunks rest) files total counted w =
      (err (invalid (length files) counted), w)
  parse_parts most dir (part (some field) file_name content_type chunks rest) files total counted
        w =
      let (opened, ready) = open_writer dir (length files) file_name w in
      elim opened [
        | none ↦ (err (io (length files) counted), ready)
        | some writer ↦
            let (read, after) = read_chunks most (length files) writer chunks 0 total ready in
            elim read [
              | err e ↦ (err e, after)
              | ok (size, now) ↦
                  let (closed, last) = close_writer writer after in
                  elim closed [
                    | false ↦ (err (io (length files) (some now)), last)
                    | true ↦
                        parse_parts most dir rest
                          (pushed dir field file_name content_type size files) now (some now) last
                  ]
            ]
      ]

  -- `parse_multipart`; no parts are an error of the parser before the first one.
  pub parse_multipart :
      Option Parts → ℕ → storage.World → Result UploadStore ParseFailure × storage.World
  parse_multipart request most w =
      let (temp, there) = storage.create_dir w in
      elim temp [
        | none ↦ (err (io 0 none), there)
        | some dir ↦ elim request [
          | none ↦ (err (invalid 0 none), there)
          | some parts ↦
              let (parsed, after) = parse_parts most dir parts [] 0 none there in
              elim parsed [
                | err e ↦ (err e, after)
                | ok (files, total) ↦
                    (ok (record { dir = some dir; files = files; total_bytes = total }), after)
              ]
        ]
      ]
