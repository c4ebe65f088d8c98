-- ===== src/Files/Multipart/Announced.antt =====
-- src/files.rs: what the headers of a request announce of its body.
use stuntdouble.Common.{
  ℕ, ◌≡◌, ◌↔◌, refl, ap, ◌∙◌, inl, inr, true, false, Option, none, some, List, [], ◌∷◌, ◌++◌, ◌==◌,
  ==_iff, arith, Bool-cases,
}
use stuntdouble.Common.Bytes.{
  Bytes, codes, split_on, extend_first, eq_ignore_ascii_case, to_ascii_lowercase, ==ᵇ_iff,
}
use stuntdouble.Common.Text.{trim, parse_u64, contains}
use stuntdouble.Files.Multipart.{first_part, is_multipart, content_length}

-- A text that is empty or begins with a byte.
abbrev pub Begins : ℕ → Bytes → Type 0
Begins c [] = Unit
Begins c (x ∷ s) = x ≡ c

-- A header of the media type `multipart/form-data`, letter case and white space aside, with its
-- parameters behind the first semicolon.
pub record IsForm (header : Option Bytes) : Type 0 where
  pub media : Bytes
  pub parameters : Bytes
  pub header_is : header ≡ some (media ++ parameters)
  pub whole : contains media b';' ≡ false
  pub cut : Begins b';' parameters
  pub named : to_ascii_lowercase (trim media) ≡ codes "multipart/form-data"

-- The length that a header declares, which is the u64 that it writes, white space aside.
abbrev pub Declares : Option Bytes → Option ℕ → Type 0
Declares none n = n ≡ none
Declares (some text) n = n ≡ parse_u64 (trim text)

first_part-extend_first :
    (x : ℕ) (parts : List Bytes) → first_part (extend_first x parts) ≡ x ∷ first_part parts
first_part-extend_first x [] = refl
first_part-extend_first x (part ∷ parts) = refl

-- What precedes the first occurrence of a byte.
first_part-split_on :
    (c : ℕ) (s t : Bytes) → contains s c ≡ false → Begins c t → first_part (split_on c (s ++ t)) ≡ s
unfolding split_on contains
first_part-split_on c [] [] h b = refl
first_part-split_on c [] (x ∷ t) h b = rw ((==_iff x c).1 b) refl
first_part-split_on c (y ∷ s) t h b =
    let other : (y == c) ≡ false = ground (arith, h) in
    let rest : contains s c ≡ false = ground (arith, h) in
    rw other (
      first_part-extend_first y (split_on c (s ++ t))
      ∙ ap (λ r. y ∷ r) (first_part-split_on c s t rest b))

split_on-cut :
    (c : ℕ) (s : Bytes)
    → (t : Bytes) × (s ≡ first_part (split_on c s) ++ t)
      × (contains (first_part (split_on c s)) c ≡ false)
      × Begins c t
unfolding split_on contains
split_on-cut c [] = ([], refl, refl, tt)
split_on-cut c (x ∷ s) = elim (Bool-cases (x == c)) [
  | inl here ↦ rw here (x ∷ s, refl, refl, (==_iff x c).0 here)
  | inr other ↦
      let (t, joined, whole, cut) = split_on-cut c s in
      rw (other, first_part-extend_first x (split_on c s))
        (t, ap (λ r. x ∷ r) joined, rw (contains, other) whole, cut)
]

pub is_multipart_iff : (header : Option Bytes) → (is_multipart header ≡ true) ↔ IsForm header
unfolding is_multipart eq_ignore_ascii_case to_ascii_lowercase
is_multipart_iff none = (λ e. absurd (cc e), λ form. cc form.header_is)
is_multipart_iff (some text) =
    let (parameters, joined, whole, cut) = split_on-cut b';' text in
    let media = first_part (split_on b';' text) in
    (
      λ e. record {
        media = media;
        parameters = parameters;
        header_is = ap some joined;
        whole = whole;
        cut = cut;
        named = (==ᵇ_iff (to_ascii_lowercase (trim media)) (codes "multipart/form-data")).0 e;
      },
      λ form.
          let same : text ≡ form.media ++ form.parameters = ground (arith, form.header_is) in
          rw (same, first_part-split_on b';' form.media form.parameters form.whole form.cut)
            ((==ᵇ_iff (to_ascii_lowercase (trim form.media)) (codes "multipart/form-data")).1
              form.named),
    )

pub content_length-Declares : (header : Option Bytes) → Declares header (content_length header)
unfolding content_length
content_length-Declares none = refl
content_length-Declares (some text) = refl
