-- ===== src/Server/Prepare/Prepared.antt =====
-- src/server.rs: what a script is handed of a request, and what a request that no script sees is
-- answered.
use stuntdouble.Common.{
  ℕ, ◌<◌, ◌≡◌, ◌⊎◌, refl, ◌+◌, ◌≤◌, ◌↔◌, Option, arith, inl, inr, true, false, none, some, [],
  length, Result, ok, err, Bool-cases, Option-cases, Result-cases,
}
use stuntdouble.Common.Bytes.{Bytes}
use stuntdouble.Common.Text.{u64_max}
use stuntdouble.Files.{UploadStore, metas}
use stuntdouble.Files.Multipart.{
  Storage, Parts, too_large, is_multipart, content_length, parse_multipart, counted_bytes,
}
use stuntdouble.Files.Multipart.Stored.{IsAccepted}
use stuntdouble.Files.Multipart.Announced.{
  IsForm, Declares, is_multipart_iff, content_length-Declares,
}
use stuntdouble.Files.Multipart.Given.{parse_multipart-some}
use stuntdouble.Server.Prepare.{
  Inbound, PreparedRequest, PrepareError, upload_error, oversized, prepare_request, is_beyond,
  or_else,
}

-- The declared length is beyond the limit and the allowance for framing of 1 MiB.
abbrev pub IsBeyond : ℕ → Option ℕ → Type 0
IsBeyond most declared = (n : ℕ) × (declared ≡ some n) × (most + 1048576 < n)

-- The count of a body: as declared, and otherwise as received.
abbrev pub Counts : Option ℕ → Option ℕ → Option ℕ → Type 0
Counts (some n) received count = count ≡ some n
Counts none received count = count ≡ received

-- A request whose body was stored: within the limit, and only if its declared length allows it.
pub record IsUploaded (most : ℕ) (request : Inbound) (declared : Option ℕ)
    (prepared : PreparedRequest) : Type 0 where
  pub parts : Parts
  pub store : UploadStore
  pub parts_are : request.parts ≡ some parts
  pub accepted : IsAccepted most parts store
  pub uploads_are : prepared.uploads ≡ some store
  pub files_are : prepared.files ≡ metas store
  pub no_bytes : prepared.body_bytes ≡ none
  pub counted : Counts declared (some store.total_bytes) prepared.request_body_bytes
  pub near : ¬ IsBeyond most declared

-- A request whose body was buffered.
pub record IsBuffered (request : Inbound) (prepared : PreparedRequest) : Type 0 where
  pub bytes : Bytes
  pub body_is : request.body ≡ some bytes
  pub bytes_are : prepared.body_bytes ≡ some bytes
  pub no_uploads : (prepared.uploads ≡ none) × (prepared.files ≡ [])
  pub counted : prepared.request_body_bytes ≡ some (length bytes)

-- A request that is not prepared: a multipart request whose declared length is beyond the limit, of
-- which nothing is read, one that the parser refuses, or another body that is beyond 2 MiB.
abbrev pub IsRefused :
    (storage : Storage)
    → ℕ
    → Inbound
    → Option ℕ
    → PrepareError
    → storage.World
    → storage.World
    → Type 0
IsRefused storage most request declared (upload_error failure n) w after =
    IsForm request.content_type
    × ((IsBeyond most declared × (failure ≡ too_large 0 none) × (n ≡ declared) × (after ≡ w))
        ⊎ ((¬ IsBeyond most declared)
            × (parse_multipart storage request.parts most w ≡ (err failure, after))
            × Counts declared (counted_bytes failure) n))
IsRefused storage most request declared (oversized n) w after =
    (¬ IsForm request.content_type) × (request.body ≡ none) × (n ≡ declared) × (after ≡ w)

-- What the preparation of a request gives.
abbrev pub IsPrepared :
    (storage : Storage)
    → ℕ
    → Inbound
    → Option ℕ
    → Result PreparedRequest PrepareError
    → storage.World
    → storage.World
    → Type 0
IsPrepared storage most request declared (ok prepared) w after =
    (IsForm request.content_type × IsUploaded most request declared prepared)
    ⊎ ((¬ IsForm request.content_type) × IsBuffered request prepared × (after ≡ w))
IsPrepared storage most request declared (err e) w after =
    IsRefused storage most request declared e w after

module _ (storage : Storage) (most : ℕ) (room : most + 1048576 ≤ u64_max) where
  is_beyond-IsBeyond :
      (declared : Option ℕ) → (is_beyond most declared ≡ true) ↔ IsBeyond most declared
  is_beyond-IsBeyond none = (λ e. absurd (cc e), λ far. cc far.1)
  is_beyond-IsBeyond (some n) = (
    λ e. (n, refl, ground (arith, e)),
    λ far.
        let same : n ≡ far.0 = ground (arith, far.1) in
        let more = far.2 in ground (arith, same, more),
  )

  or_else-Counts :
      (declared received : Option ℕ) → Counts declared received (or_else declared received)
  or_else-Counts none received = refl
  or_else-Counts (some n) received = refl

  request_cases :
      (request : Inbound)
      → let declared = content_length request.length_header in
        ((¬ IsForm request.content_type) × (is_multipart request.content_type ≡ false))
        ⊎ (IsForm request.content_type
            × (is_multipart request.content_type ≡ true)
            × ((IsBeyond most declared × (is_beyond most declared ≡ true))
                ⊎ ((¬ IsBeyond most declared) × (is_beyond most declared ≡ false))))
  request_cases request =
      let declared = content_length request.length_header in
      let form_iff = is_multipart_iff request.content_type in
      let beyond_iff = is_beyond-IsBeyond declared in
      elim (Bool-cases (is_multipart request.content_type)) [
        | inr single ↦ inl (λ form. cc (single, form_iff.1 form), single)
        | inl multi ↦ inr (
          form_iff.0 multi,
          multi,
          elim (Bool-cases (is_beyond most declared)) [
            | inl beyond ↦ inl (beyond_iff.0 beyond, beyond)
            | inr near ↦ inr (λ far. cc (near, beyond_iff.1 far), near)
          ],
        )
      ]

  prepare_request_lem :
      (request : Inbound) (w : storage.World)
      → let done = prepare_request storage most request w in
        IsPrepared storage most request (content_length request.length_header) done.0 w done.1
  unfolding prepare_request
  prepare_request_lem request w =
      let declared = content_length request.length_header in
      let parsing = parse_multipart storage request.parts most w in
      elim (request_cases request) [
        | inl (plain, single) ↦ elim (Option-cases request.body) [
          | inl beyond ↦ rw (prepare_request, single, beyond) (plain, refl, refl, refl)
          | inr (bytes, body_is) ↦
              rw (prepare_request, single, body_is)
                (inr (
                  plain,
                  record {
                    bytes = bytes;
                    body_is = refl;
                    bytes_are = refl;
                    no_uploads = (refl, refl);
                    counted = refl;
                  },
                  refl,
                ))
        ]
        | inr (form, multi, inl (far, beyond)) ↦
            rw (prepare_request, multi, beyond) (form, inl (far, refl, refl, refl))
        | inr (form, multi, inr (near, not_beyond)) ↦ elim (Result-cases parsing.0) [
          | inr (failure, bad) ↦
              rw (prepare_request, multi, not_beyond, bad)
                (form, inr (near, λ i. (bad i, parsing.1), or_else-Counts declared _))
          | inl (store, good) ↦
              let (read, parts_are, accepted) =
                parse_multipart-some storage most (omega (arith, room)) request.parts w store
                  good in
              rw (prepare_request, multi, not_beyond, good)
                (inl (
                  form,
                  record {
                    parts = read;
                    store = store;
                    parts_are = parts_are;
                    accepted = accepted;
                    uploads_are = refl;
                    files_are = refl;
                    no_bytes = refl;
                    counted = or_else-Counts declared _;
                    near = near;
                  },
                ))
        ]
      ]

  -- Under a limit that the allowance for framing keeps below 2 ^ 64: a multipart request is prepared
  -- with its uploads stored within the limit and its bytes counted as declared, or as received if no
  -- length is declared. If its declared length is beyond the limit and the allowance, nothing of it is
  -- read, and otherwise it is refused only by the parser. Any other request is prepared with its body
  -- buffered, or refused if the body is too large.
  pub prepare_request-IsPrepared :
      (request : Inbound) (w : storage.World)
      → let done = prepare_request storage most request w in
        (declared : Option ℕ) × Declares request.length_header declared
        × IsPrepared storage most request declared done.0 w done.1
  prepare_request-IsPrepared request w = (
    content_length request.length_header,
    content_length-Declares request.length_header,
    prepare_request_lem request w,
  )
