-- ===== src/Matcher/Decode.antt =====
-- src/matcher.rs: percent-decoding undoes percent-encoding.
use stuntdouble.Common.{
  ℕ, ◌+◌, ◌-◌, ◌/◌, ◌%◌, ◌<◌, ◌≡◌, refl, ap, ◌∙◌, Bool, true, false, some, [], ◌∷◌, ltb, ◌==◌,
  if◌then◌else◌, arith, All, inl, inr, Bool-cases, ==_iff,
}
use stuntdouble.Common.Bytes.{Bytes}
use stuntdouble.Common.Utf8.{
  from_utf8_lossy, is_utf8, from_utf8_lossy-valid, from_utf8_lossy-is_utf8,
}
use stuntdouble.Matcher.{hex_byte, decode_bytes, percent_decode}

-- An upper-case hexadecimal digit.
hex_char : ℕ → ℕ
hex_char n = if ltb n 10 then b'0' + n else b'A' + (n - 10)

-- The reference encoder: every byte for which `safe` fails is written %XY.
pub percent_encode : (ℕ → Bool) → Bytes → Bytes
unfolding hex_char
percent_encode safe [] = []
percent_encode safe (c ∷ s) =
    let rest = percent_encode safe s in
    if safe c then c ∷ rest else b'%' ∷ hex_char (c / 16) ∷ hex_char (c % 16) ∷ rest

hex_byte-hex_char : (c : ℕ) → c < 256 → hex_byte (hex_char (c / 16)) (hex_char (c % 16)) ≡ some c
unfolding hex_byte hex_char
hex_byte-hex_char c h = ground arith

decode_plain : (c : ℕ) (s : Bytes) → (c == b'%') ≡ false → decode_bytes (c ∷ s) ≡ c ∷ decode_bytes s
unfolding decode_bytes
decode_plain c [] h = refl
decode_plain c (a ∷ []) h = refl
decode_plain c (a ∷ b ∷ s) h = rw h

decode_escape :
    (a b c : ℕ) (s : Bytes)
    → hex_byte a b ≡ some c
    → decode_bytes (b'%' ∷ a ∷ b ∷ s) ≡ c ∷ decode_bytes s
unfolding decode_bytes
decode_escape a b c s h = rw h

decode_bytes-percent_encode :
    (safe : ℕ → Bool) (s : Bytes)
    → safe b'%' ≡ false
    → All (λ c. c < 256) s
    → decode_bytes (percent_encode safe s) ≡ s
unfolding percent_encode
decode_bytes-percent_encode safe [] p h = unfold decode_bytes in refl
decode_bytes-percent_encode safe (c ∷ s) p (small, h) =
    let ih = decode_bytes-percent_encode safe s p h in
    elim (Bool-cases (safe c)) [
      | inl kept ↦ rw kept (decode_plain c _ (ground (arith, ==_iff c b'%')) ∙ ap (λ t. c ∷ t) ih)
      | inr escaped ↦
          rw escaped (decode_escape _ _ c _ (hex_byte-hex_char c small) ∙ ap (λ t. c ∷ t) ih)
    ]

-- Decoding gives back every well-formed text that was encoded, whichever bytes the encoder leaves
-- as they are, the percent sign excepted.
pub percent_decode-percent_encode :
    (safe : ℕ → Bool) (s : Bytes)
    → safe b'%' ≡ false
    → All (λ c. c < 256) s
    → is_utf8 s ≡ true
    → percent_decode (percent_encode safe s) ≡ s
unfolding percent_decode
percent_decode-percent_encode safe s p h v =
    ap from_utf8_lossy (decode_bytes-percent_encode safe s p h) ∙ from_utf8_lossy-valid s v

-- Whatever the bytes of the request, what is decoded is well-formed text.
pub percent_decode-is_utf8 : (bytes : Bytes) → is_utf8 (percent_decode bytes) ≡ true
unfolding percent_decode
percent_decode-is_utf8 bytes = from_utf8_lossy-is_utf8 (decode_bytes bytes)
