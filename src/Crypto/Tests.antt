-- ===== src/Crypto/Tests.antt =====
-- Runs of the crypto bridge with stand-ins for the primitives, and the theorems applied to them.
use stuntdouble.Common.{◌≡◌, refl, ◌&&◌, none, some, [], ◌∷◌, leb, if◌then◌else◌, length}
use stuntdouble.Common.Bytes.{Bytes, codes, ◌==ᵇ◌}
use stuntdouble.Json
use stuntdouble.Json.{Json, string, number, pos_int, json}
use stuntdouble.Crypto.{
  Primitives, invalid_input, crypto_error_json, max_sha256_input_bytes, max_hmac_key_bytes,
  max_hmac_message_bytes, bytes_response_json, equal_json, dispatch_crypto, generate_random_bytes,
  random_bytes, render,
}
use stuntdouble.Crypto.Answers.{
  text, base64, input_json, out_of_range, dispatch_crypto-sha256, dispatch_crypto-timing_safe_equal,
  dispatch_crypto-hmac_sha256,
}

-- The encoding is the text itself, the digest its first byte.
abbrev first_byte : Bytes → Bytes
first_byte [] = []
first_byte (c ∷ s) = c ∷ []

abbrev prim : Primitives
prim = record {
  sha256 = first_byte;
  hmac_sha256 = λ key message. some (first_byte message);
  constant_time_eq = λ s t. s ==ᵇ t;
  encode = λ s. s;
  decode = λ s. some s;
  fill = λ n. none;
}

random_test :
    dispatch_crypto prim (
      json (
        (codes "op", string (codes "random_bytes"))
        ∷ (codes "byte_length", number (pos_int 0))
        ∷ []))
    ≡ crypto_error_json (invalid_input (codes "randomBytes: byteLength must be in [1, 1024]"))
unfolding dispatch_crypto random_bytes generate_random_bytes render Json.get_str Json.get Json.find
random_test = refl

dispatch_crypto-sha256_example :
    dispatch_crypto prim (
      json (
        (codes "op", string (codes "sha256"))
        ∷ (codes "input", input_json prim (base64 (codes "ab")))
        ∷ []))
    ≡ (if leb (length (codes "ab")) max_sha256_input_bytes
        then bytes_response_json prim (codes "a")
        else out_of_range)
dispatch_crypto-sha256_example = dispatch_crypto-sha256 prim (λ s. refl) (base64 (codes "ab"))

dispatch_crypto-timing_safe_equal_example :
    dispatch_crypto prim (
      json (
        (codes "op", string (codes "timing_safe_equal"))
        ∷ (codes "left", input_json prim (text (codes "ab")))
        ∷ (codes "right", input_json prim (base64 (codes "ac")))
        ∷ []))
    ≡ equal_json prim (codes "ab" ==ᵇ codes "ac")
dispatch_crypto-timing_safe_equal_example =
    dispatch_crypto-timing_safe_equal prim (λ s. refl) (text (codes "ab")) (base64 (codes "ac"))
      (λ s t h. refl)

dispatch_crypto-hmac_sha256_example :
    dispatch_crypto prim (
      json (
        (codes "op", string (codes "hmac_sha256"))
        ∷ (codes "key", input_json prim (text (codes "k")))
        ∷ (codes "message", input_json prim (text (codes "m")))
        ∷ []))
    ≡ (if leb (length (codes "k")) max_hmac_key_bytes
          && leb (length (codes "m")) max_hmac_message_bytes
        then bytes_response_json prim (codes "m")
        else out_of_range)
dispatch_crypto-hmac_sha256_example =
    dispatch_crypto-hmac_sha256 prim (λ s. refl) (text (codes "k")) (text (codes "m"))
