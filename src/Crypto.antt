-- ===== src/Crypto.antt =====
-- src/crypto.rs: the bridge to `ctx.crypto`. Digests, entropy and base64 are a parameter.
pub mod Answers
mod Tests
use stuntdouble.Common.{
  ℕ, ◌*◌, Bool, true, false, ◌&&◌, ◌||◌, not, Option, none, some, List, [], ◌∷◌, ltb, leb, ◌==◌,
  if◌then◌else◌, length, Result, ok, err, ok_or, and_then,
}
use stuntdouble.Common.Bytes.{Bytes, codes, ◌==ᵇ◌}
use stuntdouble.Json
use stuntdouble.Json.{Json, bool, string, object, as_u64, json, find_str, get_str}
use stuntdouble.State.{usize_max}

abbrev pub min_random_bytes : ℕ
min_random_bytes = 1

abbrev pub max_random_bytes : ℕ
max_random_bytes = 1024

abbrev pub max_sha256_input_bytes : ℕ
max_sha256_input_bytes = 8 * 1024 * 1024

abbrev pub max_hmac_key_bytes : ℕ
max_hmac_key_bytes = 1024

abbrev pub max_hmac_message_bytes : ℕ
max_hmac_message_bytes = 8 * 1024 * 1024

abbrev pub min_timing_safe_equal_bytes : ℕ
min_timing_safe_equal_bytes = 1

abbrev pub max_timing_safe_equal_bytes : ℕ
max_timing_safe_equal_bytes = 1024

pub data CryptoError : Type 0 where
  invalid_input : Bytes → CryptoError
  random_unavailable : CryptoError

abbrev code : CryptoError → Bytes
code (invalid_input _) = codes "crypto_invalid_input"
code random_unavailable = codes "crypto_random_unavailable"

abbrev message : CryptoError → Bytes
message (invalid_input msg) = msg
message random_unavailable = codes "system random entropy unavailable"

pub crypto_error_json : CryptoError → Json
crypto_error_json error = json (
    (codes "ok", bool false)
    ∷ (codes "code", string (code error))
    ∷ (codes "message", string (message error))
    ∷ [])

-- The crates sha2, hmac, constant_time_eq and base64. `hmac` is none where `new_from_slice` fails.
-- An `EntropySource` gives this many bytes, or fails.
pub record Primitives : Type 0 where
  pub sha256 : Bytes → Bytes
  pub hmac_sha256 : Bytes → Bytes → Option Bytes
  pub constant_time_eq : Bytes → Bytes → Bool
  pub encode : Bytes → Bytes
  pub decode : Bytes → Option Bytes
  pub fill : ℕ → Option Bytes

module _ (prim : Primitives) where
  pub sha256_digest : Bytes → Result Bytes CryptoError
  sha256_digest input =
      if ltb max_sha256_input_bytes (length input)
      then err (invalid_input (codes "sha256: input exceeds 8 MiB"))
      else ok (prim.sha256 input)

  pub hmac_sha256_digest : Bytes → Bytes → Result Bytes CryptoError
  hmac_sha256_digest key message =
      if ltb max_hmac_key_bytes (length key)
      then err (invalid_input (codes "hmacSha256: key exceeds 1 KiB"))
      else if ltb max_hmac_message_bytes (length message)
      then err (invalid_input (codes "hmacSha256: message exceeds 8 MiB"))
      else ok_or (prim.hmac_sha256 key message) (invalid_input (codes "hmacSha256: invalid key"))

  abbrev pub in_range : ℕ → ℕ → ℕ → Bool
  in_range lo hi n = leb lo n && leb n hi

  pub timing_safe_equal : Bytes → Bytes → Result Bool CryptoError
  timing_safe_equal left right =
      if not (in_range min_timing_safe_equal_bytes max_timing_safe_equal_bytes (length left))
      then err (invalid_input (codes "timingSafeEqual: left length must be in [1, 1024] bytes"))
      else if not (in_range min_timing_safe_equal_bytes max_timing_safe_equal_bytes (length right))
      then err (invalid_input (codes "timingSafeEqual: right length must be in [1, 1024] bytes"))
      else if not (length left == length right)
      then ok false
      else ok (prim.constant_time_eq left right)

  pub generate_random_bytes : ℕ → Result Bytes CryptoError
  generate_random_bytes byte_length =
      if not (in_range min_random_bytes max_random_bytes byte_length)
      then err (invalid_input (codes "randomBytes: byteLength must be in [1, 1024]"))
      else ok_or (prim.fill byte_length) random_unavailable

  -- `value.and_then(Json::as_object)`, then a member that is a text.
  abbrev as_object : Option Json → Option Json.Members
  as_object (some (object fields)) = some fields
  as_object _ = none

  -- The `match kind`.
  input_bytes : Bytes → Json.Members → Result Bytes CryptoError
  input_bytes kind fields =
      if kind ==ᵇ codes "string"
      then ok_or (find_str (codes "value") fields)
          (invalid_input (codes "crypto: invalid string value"))
      else if kind ==ᵇ codes "bytes"
      then and_then
          (ok_or (find_str (codes "value") fields)
            (invalid_input (codes "crypto: invalid bytes value")))
          (λ b64. ok_or (prim.decode b64) (invalid_input (codes "crypto: invalid base64 input")))
      else err (invalid_input (codes "crypto: unsupported input type"))

  pub decode_crypto_input : Option Json → ℕ → ℕ → Result Bytes CryptoError
  decode_crypto_input value min_bytes max_bytes =
      and_then (ok_or (as_object value) (invalid_input (codes "crypto: input must be an object")))
        λ fields.
          and_then
            (ok_or (find_str (codes "type") fields)
              (invalid_input (codes "crypto: missing input type")))
            λ kind. and_then (input_bytes kind fields) λ bytes.
              if ltb (length bytes) min_bytes || ltb max_bytes (length bytes)
              then err (invalid_input (codes "crypto: input size out of range"))
              else ok bytes

  pub bytes_response_json : Bytes → Json
  bytes_response_json bytes =
      json ((codes "ok", bool true) ∷ (codes "bytes_base64", string (prim.encode bytes)) ∷ [])

  pub equal_json : Bool → Json
  equal_json equal = json ((codes "ok", bool true) ∷ (codes "equal", bool equal) ∷ [])

  -- A result as the script sees it.
  render : {A : Type 0} → (A → Json) → Result A CryptoError → Json
  render f (ok a) = f a
  render f (err e) = crypto_error_json e

  random_bytes : Json → Result Bytes CryptoError
  random_bytes payload =
      and_then
        (ok_or (elim (Json.get (codes "byte_length") payload) [ none ↦ none | some n ↦ as_u64 n ])
          (invalid_input (codes "randomBytes: byteLength must be a positive integer")))
        λ byte_length.
          if ltb usize_max byte_length
          then err (invalid_input (codes "randomBytes: byteLength out of range"))
          else generate_random_bytes byte_length

  sha256_of : Json → Result Bytes CryptoError
  sha256_of payload =
      and_then (decode_crypto_input (Json.get (codes "input") payload) 0 max_sha256_input_bytes)
        sha256_digest

  hmac_sha256_of : Json → Result Bytes CryptoError
  hmac_sha256_of payload =
      and_then (decode_crypto_input (Json.get (codes "key") payload) 0 max_hmac_key_bytes) λ key.
        and_then (decode_crypto_input (Json.get (codes "message") payload) 0 max_hmac_message_bytes)
          λ message. hmac_sha256_digest key message

  timing_safe_equal_of : Json → Result Bool CryptoError
  timing_safe_equal_of payload =
      and_then
        (decode_crypto_input (Json.get (codes "left") payload) min_timing_safe_equal_bytes
          max_timing_safe_equal_bytes)
        λ left.
          and_then
            (decode_crypto_input (Json.get (codes "right") payload) min_timing_safe_equal_bytes
              max_timing_safe_equal_bytes)
            λ right. timing_safe_equal left right

  -- `dispatch_crypto_with_entropy`
  pub dispatch_crypto : Json → Json
  dispatch_crypto payload = elim (get_str (codes "op") payload) [
    | none ↦ crypto_error_json (invalid_input (codes "crypto: missing op"))
    | some op ↦
        if op ==ᵇ codes "random_bytes"
        then render bytes_response_json (random_bytes payload)
        else if op ==ᵇ codes "sha256"
        then render bytes_response_json (sha256_of payload)
        else if op ==ᵇ codes "hmac_sha256"
        then render bytes_response_json (hmac_sha256_of payload)
        else if op ==ᵇ codes "timing_safe_equal"
        then render equal_json (timing_safe_equal_of payload)
        else crypto_error_json (invalid_input (codes "crypto: unknown operation"))
  ]
