-- ===== src/Crypto/Answers.antt =====
-- src/crypto.rs: what each operation answers, by the bytes of its inputs.
use stuntdouble.Common.{
  ℕ, ◌≡◌, refl, ap, true, ◌&&◌, ◌||◌, none, some, [], ◌∷◌, ltb, leb, ◌==◌, ==_iff, if◌then◌else◌,
  length, ok, err, arith, inl, inr, Bool-cases,
}
use stuntdouble.Common.Bytes.{Bytes, codes, ◌==ᵇ◌, ==ᵇ_iff}
use stuntdouble.Json
use stuntdouble.Json.{Json, string, number, pos_int, json, find, get}
use stuntdouble.Crypto.{
  Primitives, invalid_input, crypto_error_json, max_sha256_input_bytes, max_hmac_key_bytes,
  max_hmac_message_bytes, sha256_digest, hmac_sha256_digest, timing_safe_equal, input_bytes,
  decode_crypto_input, bytes_response_json, equal_json, render, sha256_of, hmac_sha256_of,
  timing_safe_equal_of, dispatch_crypto,
}

-- base64 undoes its own encoding.
abbrev pub IsDecoding : Primitives → Type 0
IsDecoding prim = (s : Bytes) → prim.decode (prim.encode s) ≡ some s

-- The comparison is that of texts, on texts of one length.
abbrev pub IsComparing : Primitives → Type 0
IsComparing prim = (s t : Bytes) → length s ≡ length t → prim.constant_time_eq s t ≡ (s ==ᵇ t)

-- The two ways in which a script gives bytes: as a text, and in base64.
pub data Input : Type 0 where
  text : Bytes → Input
  base64 : Bytes → Input

abbrev pub content : Input → Bytes
content (text s) = s
content (base64 s) = s

abbrev pub input_json : Primitives → Input → Json
input_json prim (text s) =
    json ((codes "type", string (codes "string")) ∷ (codes "value", string s) ∷ [])
input_json prim (base64 s) =
    json ((codes "type", string (codes "bytes")) ∷ (codes "value", string (prim.encode s)) ∷ [])

-- The answer to an input whose size is out of range.
abbrev pub out_of_range : Json
out_of_range = crypto_error_json (invalid_input (codes "crypto: input size out of range"))

module _ (prim : Primitives) (decoding : IsDecoding prim) where
  decode_crypto_input-content :
      (input : Input) (lo hi : ℕ)
      → decode_crypto_input prim (some (input_json prim input)) lo hi ≡ (
          if ltb (length (content input)) lo || ltb hi (length (content input))
          then err (invalid_input (codes "crypto: input size out of range"))
          else ok (content input))
  unfolding decode_crypto_input Json.find_str input_bytes Json.find
  decode_crypto_input-content (text s) lo hi = refl
  decode_crypto_input-content (base64 s) lo hi = rw (decoding s) refl

  -- The answer to `sha256` is the digest of the input's bytes, in whichever form they come, if they
  -- are 8 MiB at most, and otherwise the error for their size.
  pub dispatch_crypto-sha256 :
      (input : Input)
      → dispatch_crypto prim (
          json
            ((codes "op", string (codes "sha256")) ∷ (codes "input", input_json prim input) ∷ []))
        ≡ (if leb (length (content input)) max_sha256_input_bytes
            then bytes_response_json prim (prim.sha256 (content input))
            else out_of_range)
  unfolding dispatch_crypto sha256_of sha256_digest render Json.get_str Json.get Json.find
  dispatch_crypto-sha256 input =
      rw (decode_crypto_input-content input 0 max_sha256_input_bytes)
        elim (Bool-cases (leb (length (content input)) max_sha256_input_bytes)) [
          | inl fits ↦ ground (arith, fits)
          | inr large ↦ ground (arith, large)
        ]

  timing_safe_equal-==ᵇ :
      (s t : Bytes)
      → IsComparing prim
      → (leb 1 (length s) && leb (length s) 1024) ≡ true
      → (leb 1 (length t) && leb (length t) 1024) ≡ true
      → timing_safe_equal prim s t ≡ ok (s ==ᵇ t)
  unfolding timing_safe_equal
  timing_safe_equal-==ᵇ s t comparing h k = elim (Bool-cases (length s == length t)) [
    | inl same ↦ ground (arith, h, k, same, comparing s t ((==_iff (length s) (length t)).0 same))
    | inr other ↦ ground (arith, h, k, other, ==ᵇ_iff s t, ap length {x = s} {y = t})
  ]

  -- The answer to `timing_safe_equal` tells whether the two inputs have the same bytes, in whichever
  -- form they come, if each has from 1 to 1024 bytes, and otherwise is the error for their size.
  pub dispatch_crypto-timing_safe_equal :
      (left right : Input)
      → IsComparing prim
      → dispatch_crypto prim (
          json (
            (codes "op", string (codes "timing_safe_equal"))
            ∷ (codes "left", input_json prim left)
            ∷ (codes "right", input_json prim right)
            ∷ []))
        ≡ (if (leb 1 (length (content left)) && leb (length (content left)) 1024)
              && (leb 1 (length (content right)) && leb (length (content right)) 1024)
            then equal_json prim (content left ==ᵇ content right)
            else out_of_range)
  unfolding dispatch_crypto timing_safe_equal_of timing_safe_equal render Json.get_str Json.get
      Json.find
  dispatch_crypto-timing_safe_equal left right comparing =
      rw (decode_crypto_input-content left 1 1024, decode_crypto_input-content right 1 1024)
        elim (Bool-cases (leb 1 (length (content left)) && leb (length (content left)) 1024)) [
          | inr bad ↦ ground (arith, bad)
          | inl fine ↦
              elim (Bool-cases
                (leb 1 (length (content right)) && leb (length (content right)) 1024)) [
                  | inr bad ↦ ground (arith, fine, bad)
                  | inl well ↦ ground (
                    arith,
                    fine,
                    well,
                    timing_safe_equal-==ᵇ (content left) (content right) comparing fine well,
                  )
                ]
        ]

  -- The answer to `hmac_sha256` is the code of the message's bytes under the key's bytes, in whichever
  -- form they come, if the key has 1 KiB and the message 8 MiB at most, and otherwise the error for
  -- their size; a key that the primitive refuses is reported as invalid.
  pub dispatch_crypto-hmac_sha256 :
      (key message : Input)
      → dispatch_crypto prim (
          json (
            (codes "op", string (codes "hmac_sha256"))
            ∷ (codes "key", input_json prim key)
            ∷ (codes "message", input_json prim message)
            ∷ []))
        ≡ (if leb (length (content key)) max_hmac_key_bytes
              && leb (length (content message)) max_hmac_message_bytes
            then elim (prim.hmac_sha256 (content key) (content message)) [
              | none ↦ crypto_error_json (invalid_input (codes "hmacSha256: invalid key"))
              | some mac ↦ bytes_response_json prim mac
            ]
            else out_of_range)
  unfolding dispatch_crypto hmac_sha256_of hmac_sha256_digest render Json.get_str Json.get Json.find
  dispatch_crypto-hmac_sha256 key message =
      rw
        (
          decode_crypto_input-content key 0 max_hmac_key_bytes,
          decode_crypto_input-content message 0 max_hmac_message_bytes,
        )
        elim (Bool-cases (leb (length (content key)) max_hmac_key_bytes)) [
          | inr bad ↦ ground (arith, bad)
          | inl fine ↦ elim (Bool-cases (leb (length (content message)) max_hmac_message_bytes)) [
            | inr bad ↦ ground (arith, fine, bad)
            | inl well ↦ ground (arith, fine, well)
          ]
        ]
