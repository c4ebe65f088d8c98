-- ===== src/Files/Rooted/Tests.antt =====
-- A small disk, and the theorems about the files under its root applied to it.
use stuntdouble.Common.{
  ℕ, suc, ◌≡◌, ◌⊎◌, refl, Bool, true, not, some, [], ◌∷◌, if◌then◌else◌, ok, err,
}
use stuntdouble.Common.Bytes.{Bytes, codes, ◌==ᵇ◌, split_on}
use stuntdouble.Json.{Json, string, number, pos_int, json}
use stuntdouble.Files.{path_invalid, not_found}
use stuntdouble.Files.Disk
use stuntdouble.Files.Disk.{Disk, Metadata, components, starts_with, join, ◌>>=◌}
use stuntdouble.Files.Rooted.{
  resolve, open_regular, verify_open_target, judge, judge_target, total, check, refused, Session,
  open_file,
}
use stuntdouble.Files.Rooted.Inside.{IsInside, open_file-IsInside}
use stuntdouble.Files.Rooted.Logged.{IsRefused, IsServed, call-IsServed}

-- Every path under `/srv` is a file of two bytes, except the root itself and what is not there; the
-- name `link` leads out of the root. The world counts the readings of the clock.
abbrev pub disk : Disk
disk = record {
  World = ℕ;
  File = Bytes;
  IoError = Bool;
  Duration = ℕ;
  is_not_found = λ missing. missing;
  io_text = λ _. codes "io";
  canonicalize = λ path w. (
    if path ==ᵇ codes "/srv/gone"
        then err true
        else if path ==ᵇ codes "/srv/link"
        then ok (codes "/etc/passwd")
        else ok path,
    w,
  );
  is_dir = λ path w. (path ==ᵇ codes "/srv", w);
  metadata = λ path w. (ok (record { is_file = not (path ==ᵇ codes "/srv"); len = 2 }), w);
  open_file = λ path w. (ok path, w);
  file_metadata = λ file w. (ok (record { is_file = true; len = 2 }), w);
  fd_link = λ file w. (some file, w);
  read_to_end = λ n file w. (ok (codes "hi"), w);
  now = λ w. (w, suc w);
  elapsed_ms = λ n. n;
  ms_json = λ n. number (pos_int n);
  encode = λ bytes. bytes;
}

abbrev pub root : Bytes
root = codes "/srv"

abbrev pub start : Session disk
start = record { world = 0; calls = []; streams = [] }

abbrev pub payload : Bytes → Bytes → Json
payload op path = json ((codes "op", string op) ∷ (codes "path", string path) ∷ [])

disk_runs : Unit {0}
unfolding open_file resolve open_regular verify_open_target judge judge_target total check refused
    Disk.◌>>=◌ Disk.map_err Disk.guard Disk.io_error Disk.map_open_error Disk.components
    Disk.starts_with Disk.join split_on
disk_runs = tt

opened_test : open_file disk root (codes "a/b.txt") 0 ≡ (ok (codes "/srv/a/b.txt", 2), 0)
unfolding disk_runs
opened_test = refl

link_test :
    open_file disk root (codes "link") 0
    ≡ (err (path_invalid (codes "path escapes the static file root")), 0)
unfolding disk_runs
link_test = refl

parent_test :
    open_file disk root (codes "a/../b") 0
    ≡ (err (path_invalid (codes "`..` components are not allowed")), 0)
unfolding disk_runs
parent_test = refl

gone_test : open_file disk root (codes "gone") 0 ≡ (err not_found, 0)
unfolding disk_runs
gone_test = refl

open_file-IsInside_example : IsInside disk root (codes "a/b.txt") (codes "/srv/a/b.txt") 2
open_file-IsInside_example =
    open_file-IsInside disk root (codes "a/b.txt") 0 0 (codes "/srv/a/b.txt") 2 opened_test

call-IsServed_example :
    IsRefused disk root (payload (codes "readText") (codes "a/b.txt")) start
    ⊎ IsServed disk root (payload (codes "readText") (codes "a/b.txt")) start
call-IsServed_example = call-IsServed disk root (payload (codes "readText") (codes "a/b.txt")) start
