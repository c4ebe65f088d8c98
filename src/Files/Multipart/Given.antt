-- ===== src/Files/Multipart/Given.antt =====
-- src/files.rs: a request of which the parser gives no parts.
use stuntdouble.Common.{
  ℕ, ◌<◌, ◌≡◌, refl, inl, inr, Option, none, some, ok, err, arith, Option-cases,
}
use stuntdouble.Common.Text.{u64_max}
use stuntdouble.Files.{UploadStore}
use stuntdouble.Files.Multipart.{Storage, Parts, ParseFailure, invalid, io, parse_multipart}
use stuntdouble.Files.Multipart.Stored.{IsAccepted, parse_multipart-IsAccepted}

module _ (storage : Storage) (most : ℕ) (room : most < u64_max) where
  parse_multipart-none :
      (w : storage.World) → (e : ParseFailure) × ((parse_multipart storage none most w).0 ≡ err e)
  unfolding parse_multipart
  parse_multipart-none w = elim (Option-cases (storage.create_dir w).0) [
    | inl failed ↦ (io 0 none, rw (parse_multipart, failed) refl)
    | inr (dir, there) ↦ (invalid 0 none, rw (parse_multipart, there) refl)
  ]

  pub parse_multipart-some :
      (parts : Option Parts) (w : storage.World) (store : UploadStore)
      → (parse_multipart storage parts most w).0 ≡ ok store
      → (read : Parts) × (parts ≡ some read) × IsAccepted most read store
  parse_multipart-some none w store e =
      let (x, bad) = parse_multipart-none w in absurd (ground (arith, bad, e))
  parse_multipart-some (some read) w store e = (
    read,
    refl,
    parse_multipart-IsAccepted storage most room read w
        (parse_multipart storage (some read) most w).1 store
        (λ i. (e i, (parse_multipart storage (some read) most w).1)),
  )
