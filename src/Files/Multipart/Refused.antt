-- ===== src/Files/Multipart/Refused.antt =====
-- src/files.rs: which well-formed multipart requests are accepted.
use stuntdouble.Common.{
  ℕ, ◌+◌, ◌≤◌, ◌<◌, ◌≡◌, ◌≢◌, ◌⊎◌, refl, inl, inr, true, Option, none, some, List, [], ltb, length,
  Result, ok, err, arith, Bool-cases,
}
use stuntdouble.Common.Bytes.{Bytes}
use stuntdouble.Common.Text.{to_text, u64_max}
use stuntdouble.Files.{UploadedFile, UploadStore}
use stuntdouble.Files.Disk.{join}
use stuntdouble.Files.Multipart.{
  Storage, Chunks, done, broken, chunk, Parts, end, broken_off, part, ParseFailure, too_large,
  saturating_add, put, grown, read_chunks, open_writer, close_writer, pushed, parse_parts,
  parse_multipart,
}
use stuntdouble.Files.Multipart.Stored.{data_of, data_bytes}

-- The parser meets no error, and every part has a name.
abbrev pub AreWhole : Chunks → Type 0
AreWhole done = Unit
AreWhole (broken large) = ⊥
AreWhole (chunk bytes rest) = AreWhole rest

abbrev pub IsWhole : Parts → Type 0
IsWhole end = Unit
IsWhole (broken_off large) = ⊥
IsWhole (part none file_name content_type chunks rest) = ⊥
IsWhole (part (some field) file_name content_type chunks rest) = AreWhole chunks × IsWhole rest

-- The temporary storage does what it is asked to.
pub record IsReliable (storage : Storage) : Type 0 where
  pub makes_dir : (w : storage.World) → (storage.create_dir w).0 ≢ none
  pub makes_file : (path : Bytes) (w : storage.World) → (storage.create path w).0 ≢ none
  pub writes :
      (writer : storage.Writer) (bytes : Bytes) (w : storage.World)
      → (storage.write_all writer bytes w).0 ≡ true
  pub flushes : (writer : storage.Writer) (w : storage.World) → (storage.flush writer w).0 ≡ true
  pub shuts : (writer : storage.Writer) (w : storage.World) → (storage.shutdown writer w).0 ≡ true

there : {A : Type 0} (o : Option A) → o ≢ none → (a : A) × (o ≡ some a)
there none n = absurd (n refl)
there (some a) n = (a, refl)

-- A result for data that are counted from a total: good while they are within the limit, and
-- otherwise the failure that tells a count above it.
abbrev pub Judged : {A : Type 0} → (A → Type 0) → ℕ → ℕ → Result A ParseFailure → Type 0
Judged {A} P most bytes r =
    ((bytes ≤ most) × (a : A) × (r ≡ ok a) × P a)
    ⊎ ((most < bytes)
        × (files : ℕ) × (counted : ℕ) × (r ≡ err (too_large files (some counted)))
        × (most < counted))

module _ (storage : Storage) (reliable : IsReliable storage) (most : ℕ)
    (room : most < u64_max) where
  put-true :
      (writer : Option storage.Writer) (bytes : Bytes) (w : storage.World)
      → (put storage writer bytes w).0 ≡ true
  put-true none bytes w = refl
  put-true (some writer) bytes w = reliable.writes writer bytes w

  read_chunks-Judged :
      (files : ℕ) (writer : Option storage.Writer) (chunks : Chunks) (size total : ℕ)
      (w : storage.World)
      → AreWhole chunks
      → total ≤ most
      → Judged
          (λ (r : ℕ × ℕ). r.1 ≡ total + data_of chunks)
          most
          (total + data_of chunks)
          (read_chunks storage most files writer chunks size total w).0
  unfolding read_chunks
  read_chunks-Judged files writer done size total w h k =
      inl (omega arith, (size, total), refl, omega arith)
  read_chunks-Judged files writer (broken large) size total w h k = absurd h
  read_chunks-Judged files writer (chunk bytes rest) size total w h k =
      elim (Bool-cases (ltb most (saturating_add total (length bytes)))) [
        | inl over ↦ inr (
          ground (arith, over),
          files,
          saturating_add total (length bytes),
          rw (read_chunks, over) refl,
          ground (arith, over),
        )
        | inr under ↦
            let n = length bytes in
            let plain : saturating_add total n ≡ total + n = ground (arith, under) in
            let put_well = put-true writer bytes w in
            let ih =
              read_chunks-Judged files writer rest (grown storage writer size n)
                (saturating_add total n) (put storage writer bytes w).1 h (ground (arith, under)) in
            elim ih [
              | inl (small, r, good, total_is) ↦ inl (
                omega (arith, small, plain),
                r,
                rw (read_chunks, under, put_well) good,
                omega (arith, total_is, plain),
              )
              | inr (big, f, c, bad, above) ↦
                  inr
                    (omega (arith, big, plain), f, c, rw (read_chunks, under, put_well) bad, above)
            ]
      ]

  open_writer-some :
      (dir : Bytes) (number : ℕ) (file_name : Option Bytes) (w : storage.World)
      → (writer : Option storage.Writer) × ((open_writer storage dir number file_name w).0
          ≡ some writer)
  unfolding open_writer
  open_writer-some dir number none w = (none, refl)
  open_writer-some dir number (some filename) w =
      let (writer, made) =
        there (storage.create (join dir (to_text number)) w).0
          (reliable.makes_file (join dir (to_text number)) w) in
      (some writer, rw (open_writer, made) refl)

  close_writer-true :
      (writer : Option storage.Writer) (w : storage.World)
      → (close_writer storage writer w).0 ≡ true
  unfolding close_writer
  close_writer-true none w = refl
  close_writer-true (some writer) w =
      let flushed = reliable.flushes writer w in
      rw (close_writer, flushed) (reliable.shuts writer (storage.flush writer w).1)

  parse_parts-Judged :
      (dir : Bytes) (parts : Parts) (files : List UploadedFile) (total : ℕ) (counted : Option ℕ)
      (w : storage.World)
      → IsWhole parts
      → total ≤ most
      → Judged
          (λ (r : List UploadedFile × ℕ). Unit)
          most
          (total + data_bytes parts)
          (parse_parts storage most dir parts files total counted w).0
  unfolding parse_parts
  parse_parts-Judged dir end files total counted w h k = inl (omega arith, (files, total), refl, tt)
  parse_parts-Judged dir (broken_off large) files total counted w h k = absurd h
  parse_parts-Judged dir (part none file_name content_type chunks rest) files total counted w h k =
      absurd h
  parse_parts-Judged dir (part (some field) file_name content_type chunks rest) files total counted
        w (whole, h) k =
      let opening = open_writer storage dir (length files) file_name w in
      let (writer, opened) = open_writer-some dir (length files) file_name w in
      let reading = read_chunks storage most (length files) writer chunks 0 total opening.1 in
      elim (read_chunks-Judged (length files) writer chunks 0 total opening.1 whole k) [
        | inr (big, f, c, bad, above) ↦
            inr (omega arith, f, c, rw (parse_parts, opened, bad) refl, above)
        | inl (small, (s, t), good, total_is) ↦
            let closed = close_writer-true writer reading.1 in
            elim (parse_parts-Judged dir rest
              (pushed storage dir field file_name content_type s files) t (some t)
              (close_writer storage writer reading.1).1 h (omega (arith, total_is, small))) [
                | inl (fits, r, parsed, u) ↦ inl (
                  omega (arith, fits, total_is),
                  r,
                  rw (parse_parts, opened, good, closed) parsed,
                  tt,
                )
                | inr (big, f, c, bad, above) ↦ inr (
                  omega (arith, big, total_is),
                  f,
                  c,
                  rw (parse_parts, opened, good, closed) bad,
                  above,
                )
              ]
      ]

  -- On storage that works, a request whose parts all have a name and that the parser reads to its end
  -- is accepted exactly if its data are within the limit, which is below 2 ^ 64 - 1. Otherwise it is
  -- refused as too large, and the count that is told is above the limit.
  pub parse_multipart-Judged :
      (parts : Parts) (w : storage.World)
      → IsWhole parts
      → Judged
          (λ (store : UploadStore). Unit)
          most
          (data_bytes parts)
          (parse_multipart storage (some parts) most w).0
  unfolding parse_multipart
  parse_multipart-Judged parts w h =
      let (dir, made) = there (storage.create_dir w).0 (reliable.makes_dir w) in
      elim (parse_parts-Judged dir parts [] 0 none (storage.create_dir w).1 h (omega arith)) [
        | inl (fits, (files, total), parsed, u) ↦ inl (
          omega (arith, fits),
          record { dir = some dir; files = files; total_bytes = total },
          rw (parse_multipart, made, parsed) refl,
          tt,
        )
        | inr (big, f, c, bad, above) ↦
            inr (omega (arith, big), f, c, rw (parse_multipart, made, bad) refl, above)
      ]
