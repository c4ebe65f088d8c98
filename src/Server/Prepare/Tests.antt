-- ===== src/Server/Prepare/Tests.antt =====
-- A small upload, and the theorem applied to it.
use stuntdouble.Common.{ℕ, suc, true, Option, none, some, arith}
use stuntdouble.Common.Bytes.{codes}
use stuntdouble.Files.Multipart.{Storage, part, end, chunk, done}
use stuntdouble.Files.Multipart.Announced.{Declares}
use stuntdouble.Server.Prepare.{Inbound, prepare_request}
use stuntdouble.Server.Prepare.Prepared.{IsPrepared, prepare_request-IsPrepared}

abbrev storage : Storage
storage = record {
  World = ℕ;
  Writer = ℕ;
  create_dir = λ w. (some (codes "/tmp/u"), suc w);
  create = λ path w. (some w, suc w);
  write_all = λ writer bytes w. (true, suc w);
  flush = λ writer w. (true, suc w);
  shutdown = λ writer w. (true, suc w);
}

abbrev upload : Inbound
upload = record {
  method = codes "POST";
  path = codes "/u";
  content_type = some (codes "multipart/form-data; boundary=x");
  length_header = some (codes "120");
  parts = some (part (some (codes "f")) (some (codes "a.txt")) none (chunk (codes "xyz") done) end);
  body = none;
}

prepare_request-IsPrepared_example :
    let done = prepare_request storage 10 upload 0 in
    (declared : Option ℕ) × Declares upload.length_header declared
    × IsPrepared storage 10 upload declared done.0 0 done.1
prepare_request-IsPrepared_example = prepare_request-IsPrepared storage 10 (omega arith) upload 0
