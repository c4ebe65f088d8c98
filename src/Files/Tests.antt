-- ===== src/Files/Tests.antt =====
-- The theorems about uploads and streams, applied to the disk of the files' tests.
use stuntdouble.Common.{ℕ, ◌≤◌, ◌≡◌, ◌⊎◌, false, none, some, List, [], ◌∷◌, All}
use stuntdouble.Common.Bytes.{codes}
use stuntdouble.Json.{Json, number, pos_int, string, json}
use stuntdouble.Files.{FileBody, UploadStore, register_stream, take_stream}
use stuntdouble.Files.Rooted.Tests.{disk, start}
use stuntdouble.Files.Uploads.Served.{IsUploadRefused, IsUploadServed, upload_call-IsUploadServed}
use stuntdouble.Files.Claims.{
  Use, opens, claims, run, given, IsNotFor, register_stream-claimed_once,
}

abbrev store : UploadStore
store = record {
  dir = some (codes "/tmp/up");
  files =
      record {
        meta = record { field = codes "f"; filename = codes "a"; content_type = none; size = 2 };
        path = codes "/tmp/up/0";
      }
      ∷ [];
  total_bytes = 2;
}

abbrev payload : Json
payload = json ((codes "op", string (codes "stream")) ∷ (codes "index", number (pos_int 0)) ∷ [])

upload_call-IsUploadServed_example :
    IsUploadRefused disk store payload start ⊎ IsUploadServed disk store payload start
upload_call-IsUploadServed_example = upload_call-IsUploadServed disk store payload start

abbrev body : ℕ → FileBody ℕ
body n = record {
  file = n;
  size = 2;
  offset = 0;
  len = 2;
  call = record { index = 0; started = 0; finished = false };
  guard = none;
}

abbrev uses : List (Use ℕ)
uses = opens (body 8) ∷ claims 1 ∷ claims 5 ∷ []

register_stream-claimed_once_example :
    let (handle, opened) = register_stream (body 7) [] in
    (given handle uses opened ≤ 1)
    × (All (IsNotFor handle) uses → (take_stream handle (run uses opened)).0 ≡ some (body 7))
register_stream-claimed_once_example = register_stream-claimed_once (body 7) [] uses
