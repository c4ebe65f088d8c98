-- ===== src/Files/Multipart/Stored.antt =====
-- src/files.rs: what an accepted multipart request has stored.
use stuntdouble.Common.{
  ℕ, suc, ◌+◌, ◌≤◌, ◌<◌, ◌≡◌, refl, ◌∙◌, inl, inr, Option, none, some, List, [], ◌∷◌, ◌++◌, map,
  ltb, length, length-append, ok, arith, Bool-cases, Option-cases, Result-cases,
}
use mathlib.Core.List.{append_assoc, append-nil, map-append}
use stuntdouble.Common.Bytes.{Bytes}
use stuntdouble.Common.Text.{to_text, u64_max}
use stuntdouble.Files
use stuntdouble.Files.{UploadFileMeta, UploadedFile, UploadStore, metas}
use stuntdouble.Files.Disk.{join}
use stuntdouble.Files.Multipart.{
  Storage, Chunks, done, broken, chunk, Parts, end, broken_off, part, client_basename,
  saturating_add, put, grown, read_chunks, open_writer, close_writer, pushed, parse_parts,
  parse_multipart,
}

-- The bytes of a part, and of all parts.
abbrev pub data_of : Chunks → ℕ
data_of done = 0
data_of (broken large) = 0
data_of (chunk bytes rest) = length bytes + data_of rest

abbrev pub data_bytes : Parts → ℕ
data_bytes end = 0
data_bytes (broken_off large) = 0
data_bytes (part name file_name content_type chunks rest) = data_of chunks + data_bytes rest

-- The parts that are files, as the script sees them.
abbrev pub file_metas : Parts → List UploadFileMeta
file_metas end = []
file_metas (broken_off large) = []
file_metas (part (some field) (some filename) content_type chunks rest) =
    record {
      field = field;
      filename = client_basename filename;
      content_type = content_type;
      size = data_of chunks;
    }
    ∷ file_metas rest
file_metas (part _ _ content_type chunks rest) = file_metas rest

-- The paths of this many files, from a number on.
abbrev pub numbered : Bytes → ℕ → List UploadFileMeta → List Bytes
numbered dir n [] = []
numbered dir n (m ∷ ms) = join dir (to_text n) ∷ numbered dir (suc n) ms

-- An accepted request: its data are within the limit, all of it is counted, the script sees every
-- file in order with its size and the last component of its name, and the path of a file is its
-- number in the temporary directory.
pub record IsAccepted (most : ℕ) (parts : Parts) (store : UploadStore) : Type 0 where
  pub temp : Bytes
  pub dir_is : store.dir ≡ some temp
  pub total_is : store.total_bytes ≡ data_bytes parts
  pub small : data_bytes parts ≤ most
  pub metas_are : metas store ≡ file_metas parts
  pub paths_are : map (λ f. f.path) store.files ≡ numbered temp 0 (file_metas parts)

module _ (storage : Storage) (most : ℕ) (room : most < u64_max) where
  abbrev size_by : Option storage.Writer → ℕ → ℕ → ℕ
  size_by none size n = size
  size_by (some writer) size n = size + n

  grown-size_by :
      (writer : Option storage.Writer) (size n m : ℕ)
      → size + n < u64_max
      → size_by writer (grown storage writer size n) m ≡ size_by writer size (n + m)
  grown-size_by none size n m h = refl
  grown-size_by (some writer) size n m h = ground arith

  grown_le :
      (writer : Option storage.Writer) (size total n : ℕ)
      → size ≤ total
      → grown storage writer size n ≤ total + n
  grown_le none size total n h = omega arith
  grown_le (some writer) size total n h = ground arith

  read_chunks-data_of :
      (files : ℕ) (writer : Option storage.Writer) (chunks : Chunks) (size total : ℕ)
      (w after : storage.World) (s t : ℕ)
      → size ≤ total
      → total ≤ most
      → read_chunks storage most files writer chunks size total w ≡ (ok (s, t), after)
      → (t ≡ total + data_of chunks) × (t ≤ most) × (s ≡ size_by writer size (data_of chunks))
  unfolding read_chunks
  read_chunks-data_of files none done size total w after s t h k e = ground arith
  read_chunks-data_of files (some writer) done size total w after s t h k e = ground arith
  read_chunks-data_of files writer (broken large) size total w after s t h k e =
      absurd (ground arith)
  read_chunks-data_of files writer (chunk bytes rest) size total w after s t h k e =
      elim (Bool-cases (ltb most (saturating_add total (length bytes)))) [
        | inl over ↦ absurd (ground (arith, over))
        | inr under ↦ elim (Bool-cases (put storage writer bytes w).0) [
          | inr failed ↦ absurd (ground (arith, under, failed))
          | inl written ↦
              let n = length bytes in
              let fits : total + n ≤ most = ground (arith, under) in
              let plain : saturating_add total n ≡ total + n = ground (arith, fits) in
              let (t_is, small, s_is) =
                read_chunks-data_of files writer rest (grown storage writer size n)
                  (saturating_add total n) (put storage writer bytes w).1 after s t
                  (rw plain (grown_le writer size total n h)) (rw plain fits)
                  (rw (read_chunks, under, written) at e) in
              (
                omega (arith, t_is, plain),
                small,
                s_is ∙ grown-size_by writer size n (data_of rest) (omega arith),
              )
        ]
      ]

  -- What the loop adds to the files and the total that it starts from.
  record IsStored (dir : Bytes) (parts : Parts) (files : List UploadedFile) (total : ℕ)
      (stored : List UploadedFile) (counted : ℕ) : Type 0 where
    counted_is : counted ≡ total + data_bytes parts
    small : counted ≤ most
    metas_are : map (λ f. f.meta) stored ≡ map (λ f. f.meta) files ++ file_metas parts
    paths_are :
        map (λ f. f.path) stored
        ≡ map (λ f. f.path) files ++ numbered dir (length files) (file_metas parts)

  -- One file more before the others.
  IsStored-file :
      (dir field filename : Bytes) (content_type : Option Bytes) (chunks : Chunks) (rest : Parts)
      (files : List UploadedFile) (total s t : ℕ) (stored : List UploadedFile) (now : ℕ)
      → t ≡ total + data_of chunks
      → s ≡ 0 + data_of chunks
      → IsStored dir rest
          (pushed storage dir field (some filename) content_type s files)
          t
          stored
          now
      → IsStored dir
          (part (some field) (some filename) content_type chunks rest)
          files
          total
          stored
          now
  IsStored-file dir field filename content_type chunks rest files total s t stored now t_is s_is
        ih =
      let size_is : s ≡ data_of chunks = omega (arith, s_is) in
      let one_more : length (pushed storage dir field (some filename) content_type s files)
          ≡ suc (length files) =
        omega (arith, length-append files (_ ∷ [])) in
      record {
        counted_is = omega (arith, ih.counted_is, t_is);
        small = ih.small;
        metas_are = rw (← size_is) (
            ih.metas_are ∙ rw (map-append (λ (f : UploadedFile). f.meta) files, append_assoc) refl);
        paths_are =
            ih.paths_are
            ∙ rw (one_more, map-append (λ (f : UploadedFile). f.path) files, append_assoc) refl;
      }

  parse_parts-IsStored :
      (dir : Bytes) (parts : Parts) (files : List UploadedFile) (total : ℕ) (counted : Option ℕ)
      (w after : storage.World) (stored : List UploadedFile) (now : ℕ)
      → total ≤ most
      → parse_parts storage most dir parts files total counted w ≡ (ok (stored, now), after)
      → IsStored dir parts files total stored now
  unfolding parse_parts open_writer close_writer
  parse_parts-IsStored dir end files total counted w after stored now h e =
      let same : files ≡ stored = ground arith in
      record {
        counted_is = ground arith;
        small = ground arith;
        metas_are = rw (← same, append-nil) refl;
        paths_are = rw (← same, append-nil) refl;
      }
  parse_parts-IsStored dir (broken_off large) files total counted w after stored now h e =
      absurd (ground arith)
  parse_parts-IsStored dir (part none file_name content_type chunks rest) files total counted w
        after stored now h e =
      absurd (ground arith)
  parse_parts-IsStored dir (part (some field) none content_type chunks rest) files total counted w
        after stored now h e =
      elim (Result-cases (read_chunks storage most (length files) none chunks 0 total w).0) [
        | inr (x, bad) ↦ absurd (ground (arith, bad))
        | inl ((s, t), read) ↦
            let (t_is, small, s_is) =
              read_chunks-data_of (length files) none chunks 0 total w
                (read_chunks storage most (length files) none chunks 0 total w).1 s t (omega arith)
                h
                (λ i.
                  (read i, (read_chunks storage most (length files) none chunks 0 total w).1)) in
            let ih =
              parse_parts-IsStored dir rest files t (some t) _ after stored now small
                (rw (parse_parts, read) at e) in
            record {
              counted_is = omega (arith, ih.counted_is, t_is);
              small = ih.small;
              metas_are = ih.metas_are;
              paths_are = ih.paths_are;
            }
      ]
  parse_parts-IsStored dir (part (some field) (some filename) content_type chunks rest) files total
        counted w after stored now h e =
      let made = storage.create (join dir (to_text (length files))) w in
      elim (Option-cases made.0) [
        | inl failed ↦ absurd (ground (arith, rw (parse_parts, open_writer, failed) at e))
        | inr (writer, opened) ↦
            let read_all =
              read_chunks storage most (length files) (some writer) chunks 0 total made.1 in
            elim (Result-cases read_all.0) [
              | inr (x, bad) ↦
                  absurd (ground (arith, rw (parse_parts, open_writer, opened, bad) at e))
              | inl ((s, t), read) ↦ elim (Bool-cases (storage.flush writer read_all.1).0) [
                | inr failed ↦ absurd (
                    ground (
                      arith,
                      rw (parse_parts, open_writer, close_writer, opened, read, failed) at e,
                    ))
                | inl flushed ↦
                    let closing = storage.shutdown writer (storage.flush writer read_all.1).1 in
                    elim (Bool-cases closing.0) [
                      | inr failed ↦ absurd (
                          ground (
                            arith,
                            rw
                                (
                                  parse_parts, open_writer, close_writer, opened, read, flushed,
                                  failed,
                                )
                                at e,
                          ))
                      | inl shut ↦
                          let (t_is, small, s_is) =
                            read_chunks-data_of (length files) (some writer) chunks 0 total made.1
                              read_all.1 s t (omega arith) h (λ i. (read i, read_all.1)) in
                          let ih =
                            parse_parts-IsStored dir rest
                              (pushed storage dir field (some filename) content_type s files) t
                              (some t) _ after stored now small
                              (rw
                                (
                                  parse_parts, open_writer, close_writer, opened, read, flushed,
                                  shut,
                                )
                                at e) in
                          IsStored-file dir field filename content_type chunks rest files total s t
                            stored now t_is s_is ih
                    ]
              ]
            ]
      ]

  -- Whatever the storage answers, a request that is accepted with a limit below 2 ^ 64 - 1 is within
  -- the limit. Its total is that of the data of its parts, and the field, name, content type and size of
  -- each file are those of its part, under paths that are numbered in the order of the files.
  pub parse_multipart-IsAccepted :
      (parts : Parts) (w after : storage.World) (store : UploadStore)
      → parse_multipart storage (some parts) most w ≡ (ok store, after)
      → IsAccepted most parts store
  unfolding parse_multipart Files.metas
  parse_multipart-IsAccepted parts w after store e =
      let made = storage.create_dir w in
      elim (Option-cases made.0) [
        | inl failed ↦ absurd (ground (arith, rw (parse_multipart, failed) at e))
        | inr (dir, there) ↦
            let parsed = parse_parts storage most dir parts [] 0 none made.1 in
            elim (Result-cases parsed.0) [
              | inr (x, bad) ↦ absurd (ground (arith, rw (parse_multipart, there, bad) at e))
              | inl ((files, total), good) ↦
                  let it =
                    parse_parts-IsStored dir parts [] 0 none made.1 parsed.1 files total
                      (omega arith) (λ i. (good i, parsed.1)) in
                  let same : ◌≡◌ {A = UploadStore}
                      (record { dir = some dir; files = files; total_bytes = total }) store =
                    ground (arith, rw (parse_multipart, there, good) at e) in
                  rw (← same) (record {
                    temp = dir;
                    dir_is = refl;
                    total_is = omega (arith, it.counted_is);
                    small = omega (arith, it.counted_is, it.small);
                    metas_are = it.metas_are;
                    paths_are = it.paths_are;
                  })
            ]
      ]
