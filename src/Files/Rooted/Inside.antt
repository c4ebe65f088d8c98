-- ===== src/Files/Rooted/Inside.antt =====
-- src/files.rs: which files a script's path can open.
use stuntdouble.Common.{
  ℕ, suc, ◌≤◌, ◌≡◌, refl, ◌⊎◌, inl, inr, Bool, true, false, not, Option, none, some, List, [], ◌∷◌,
  ok, All, arith, length, ltb,
}
use stuntdouble.Common.Bytes.{Bytes, is_empty}
use stuntdouble.Files.{Error, max_read_bytes}
use stuntdouble.Files.Disk
use stuntdouble.Files.Disk.{
  Disk, Metadata, Component, prefix, root_dir, cur_dir, parent_dir, normal, components, starts_with,
  join, Io, map_err, io_error, map_open_error, guard, Ensures, Ensures-pure, Ensures-bind,
  Ensures-skip, Ensures-weaken, Ensures-guard, Ensures-map_err,
}
use stuntdouble.Files.Rooted.{
  refused, check, resolve, open_regular, open_file, read_capped_file, read_capped,
}

-- A component that neither leaves the directory nor starts elsewhere.
abbrev pub IsPlain : Component → Type 0
IsPlain c = (c ≡ cur_dir) ⊎ ((s : Bytes) × (c ≡ normal s))

refused-IsPlain : (cs : List Component) → refused cs ≡ none → All IsPlain cs
unfolding refused
refused-IsPlain [] e = tt
refused-IsPlain (prefix ∷ cs) e = absurd (ground arith)
refused-IsPlain (root_dir ∷ cs) e = absurd (ground arith)
refused-IsPlain (parent_dir ∷ cs) e = absurd (ground arith)
refused-IsPlain (cur_dir ∷ cs) e = (inl refl, refused-IsPlain cs e)
refused-IsPlain (normal s ∷ cs) e = (inr (s, refl), refused-IsPlain cs e)

ltb-le : (a b : ℕ) → ltb a b ≡ false → b ≤ a
ltb-le a b h = ground arith

pub not-false : (b : Bool) → not b ≡ false → b ≡ true
not-false true e = refl
not-false false e = absurd (ground arith)

Ensures-check : (W : Type 0) (o : Option Error) → Ensures {W = W} (λ _. o ≡ none) (check o)
unfolding check Disk.Ensures
Ensures-check W none w after a e = refl
Ensures-check W (some x) w after a e = absurd (ground arith)

module _ (disk : Disk) where
  -- What the disk answered on the way to an opened file. The worlds are those at the four accesses.
  pub record IsInside (configured raw : Bytes) (file : disk.File) (size : ℕ) : Type 0 where
    pub root : Bytes
    pub target : Bytes
    pub at_root : disk.World
    pub at_target : disk.World
    pub at_open : disk.World
    pub at_size : disk.World
    pub opened : Metadata
    pub named : is_empty raw ≡ false
    pub plain : All IsPlain (components raw)
    pub root_is : (disk.canonicalize configured at_root).0 ≡ ok root
    pub target_is : (disk.canonicalize (join root raw) at_target).0 ≡ ok target
    pub inside : starts_with target root ≡ true
    pub open_is : (disk.open_file target at_open).0 ≡ ok file
    pub size_is : (disk.file_metadata file at_size).0 ≡ ok opened
    pub regular : (opened.is_file ≡ true) × (opened.len ≡ size)

  -- What `resolve` has checked.
  record IsResolved (configured raw target root : Bytes) : Type 0 where
    at_root : disk.World
    at_target : disk.World
    named : is_empty raw ≡ false
    plain : All IsPlain (components raw)
    root_is : (disk.canonicalize configured at_root).0 ≡ ok root
    target_is : (disk.canonicalize (join root raw) at_target).0 ≡ ok target
    inside : starts_with target root ≡ true

  abbrev Resolved : Bytes → Bytes → Bytes × Bytes → Type 0
  Resolved configured raw (target, root) = IsResolved configured raw target root

  resolve-IsResolved :
      (configured raw : Bytes) → Ensures (Resolved configured raw) (resolve disk configured raw)
  unfolding resolve
  resolve-IsResolved configured raw = Ensures-bind _ _ _ _ (Ensures-guard _ _ _) (λ _ named.
      Ensures-bind _ _ _ _ (Ensures-check _ _) (λ _ plain.
        Ensures-bind _ _ _ _ (Ensures-map_err _ _) (λ root root_is. Ensures-skip _ _ _ (λ directory.
          Ensures-skip _ _ _ (λ _. Ensures-bind _ _ _ _ (Ensures-map_err _ _) (λ target target_is.
            Ensures-bind _ _ _ _ (Ensures-guard _ _ _) (λ _ inside.
              Ensures-pure _ (Resolved configured raw) (target, root)
                (record {
                  at_root = root_is.0;
                  at_target = target_is.0;
                  named = named;
                  plain = refused-IsPlain (components raw) plain;
                  root_is = root_is.1;
                  target_is = target_is.1;
                  inside = not-false _ inside;
                }))))))))

  abbrev pub Opened : Bytes → Bytes → disk.File × ℕ → Type 0
  Opened configured raw (file, size) = IsInside configured raw file size

  open_regular-Opened :
      (configured raw target root : Bytes)
      → IsResolved configured raw target root
      → Ensures (Opened configured raw) (open_regular disk target root)
  unfolding open_regular
  open_regular-Opened configured raw target root at = Ensures-skip _ _ _ (λ before.
      Ensures-skip _ _ _ (λ _. Ensures-bind _ _ _ _ (Ensures-map_err _ _) (λ file open_is.
        Ensures-bind _ _ _ _ (Ensures-map_err _ _) (λ opened size_is.
          Ensures-bind _ _ _ _ (Ensures-guard _ _ _) (λ _ regular. Ensures-skip _ _ _ (λ _.
            Ensures-pure _ (Opened configured raw) (file, opened.len)
              (record {
                root = root;
                target = target;
                at_root = at.at_root;
                at_target = at.at_target;
                at_open = open_is.0;
                at_size = size_is.0;
                opened = opened;
                named = at.named;
                plain = at.plain;
                root_is = at.root_is;
                target_is = at.target_is;
                inside = at.inside;
                open_is = open_is.1;
                size_is = size_is.1;
                regular = (not-false _ regular, refl);
              })))))))

  pub open_file-Opened :
      (configured raw : Bytes) → Ensures (Opened configured raw) (open_file disk configured raw)
  unfolding open_file
  open_file-Opened configured raw =
      Ensures-bind (Resolved configured raw) _ _ _ (resolve-IsResolved configured raw)
        (λ (at : Bytes × Bytes) resolved. open_regular-Opened configured raw at.0 at.1 resolved)

  -- A file that a script's path opens lies in the root. The path is not empty, and neither absolute
  -- nor with a `..`. The root is what the configured one canonicalizes to, the file was opened at
  -- what the joined path canonicalizes to, which is inside that root, and the file is a regular one
  -- of the size that is told. The worlds in which the disk answers may differ.
  pub open_file-IsInside :
      (configured raw : Bytes) (w after : disk.World) (file : disk.File) (size : ℕ)
      → open_file disk configured raw w ≡ (ok (file, size), after)
      → IsInside configured raw file size
  unfolding Disk.Ensures
  open_file-IsInside configured raw w after file size e =
      open_file-Opened configured raw w after (file, size) e

  -- What was read of a file under the cap.
  pub record IsReading (file : disk.File) (bytes : Bytes) : Type 0 where
    pub at_read : disk.World
    pub read_is : (disk.read_to_end (suc max_read_bytes) file at_read).0 ≡ ok bytes
    pub small : length bytes ≤ max_read_bytes

  pub read_capped_file-IsReading :
      (file : disk.File) (size : ℕ) → Ensures (IsReading file) (read_capped_file disk file size)
  unfolding read_capped_file
  read_capped_file-IsReading file size = Ensures-skip _ _ _ (λ _.
      Ensures-bind _ _ _ _ (Ensures-map_err _ _) (λ bytes read_is.
        Ensures-bind _ _ _ _ (Ensures-guard _ _ _) (λ _ small.
          Ensures-pure _ (IsReading file) bytes
            (record { at_read = read_is.0; read_is = read_is.1; small = ltb-le _ _ small }))))

  -- What a buffered read has read, and from which file.
  pub record IsRead (configured raw bytes : Bytes) : Type 0 where
    pub file : disk.File
    pub size : ℕ
    pub inside : IsInside configured raw file size
    pub reading : IsReading file bytes

  pub read_capped-Ensures :
      (configured raw : Bytes) → Ensures (IsRead configured raw) (read_capped disk configured raw)
  unfolding read_capped
  read_capped-Ensures configured raw =
      Ensures-bind (Opened configured raw) _ _ _ (open_file-Opened configured raw)
        (λ (opened : disk.File × ℕ) inside.
          Ensures-weaken _ _ _ (read_capped_file-IsReading opened.0 opened.1) (λ bytes reading.
            record { file = opened.0; size = opened.1; inside = inside; reading = reading }))

  -- A buffered read that succeeds hands on all that the disk has read, which is at most 8 MiB, from a
  -- file in the root.
  pub read_capped-IsRead :
      (configured raw bytes : Bytes) (w after : disk.World)
      → read_capped disk configured raw w ≡ (ok bytes, after)
      → IsRead configured raw bytes
  unfolding Disk.Ensures
  read_capped-IsRead configured raw bytes w after e =
      read_capped-Ensures configured raw w after bytes e
