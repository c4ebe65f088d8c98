-- ===== src/Files/Multipart/Tests.antt =====
-- Runs of the multipart parser on a small storage, and the theorems applied to them.
use stuntdouble.Common.{ℕ, suc, ◌≡◌, refl, true, none, some, [], ◌∷◌, ok, err, arith}
use stuntdouble.Common.Bytes.{Bytes, codes}
use stuntdouble.Common.Text.{to_text}
use stuntdouble.Files.{UploadStore}
use stuntdouble.Files.Disk
use stuntdouble.Files.Multipart.{
  Storage, Parts, end, part, done, chunk, too_large, parse_multipart, parse_parts, read_chunks,
  open_writer, close_writer, client_basename,
}
use stuntdouble.Files.Multipart.Stored.{IsAccepted, data_bytes, parse_multipart-IsAccepted}
use stuntdouble.Files.Multipart.Refused.{IsReliable, Judged, parse_multipart-Judged}

-- A storage that counts what it is asked to do.
abbrev storage : Storage
storage = record {
  World = ℕ;
  Writer = Bytes;
  create_dir = λ w. (some (codes "/tmp/u"), suc w);
  create = λ path w. (some path, suc w);
  write_all = λ writer bytes w. (true, suc w);
  flush = λ writer w. (true, suc w);
  shutdown = λ writer w. (true, suc w);
}

-- A field of two bytes, and a file of three in two chunks.
abbrev parts : Parts
parts = part (some (codes "a")) none none (chunk (codes "xy") done) (
    part (some (codes "f")) (some (codes "../../etc/x.txt")) (some (codes "text/plain"))
      (chunk (codes "1") (chunk (codes "23") done)) end)

abbrev stored : UploadStore
stored = record {
  dir = some (codes "/tmp/u");
  files =
      record {
        meta = record {
          field = codes "f";
          filename = codes "x.txt";
          content_type = some (codes "text/plain");
          size = 3;
        };
        path = codes "/tmp/u/0";
      }
      ∷ [];
  total_bytes = 5;
}

stored_test : parse_multipart storage (some parts) 5 0 ≡ (ok stored, 6)
unfolding parse_multipart parse_parts read_chunks open_writer close_writer client_basename Disk.join
    to_text
stored_test = refl

large_test : parse_multipart storage (some parts) 4 0 ≡ (err (too_large 0 (some 5)), 3)
unfolding parse_multipart parse_parts read_chunks open_writer close_writer client_basename Disk.join
    to_text
large_test = refl

parse_multipart-IsAccepted_example : IsAccepted 5 parts stored
parse_multipart-IsAccepted_example =
    parse_multipart-IsAccepted storage 5 (omega arith) parts 0 6 stored stored_test

storage-IsReliable : IsReliable storage
storage-IsReliable = record {
  makes_dir = λ w e. cc;
  makes_file = λ path w e. cc;
  writes = λ writer bytes w. refl;
  flushes = λ writer w. refl;
  shuts = λ writer w. refl;
}

parse_multipart-Judged_example :
    Judged
      (λ (store : UploadStore). Unit)
      4
      (data_bytes parts)
      (parse_multipart storage (some parts) 4 0).0
parse_multipart-Judged_example =
    parse_multipart-Judged storage storage-IsReliable 4 (omega arith) parts 0 (tt, (tt, tt))
