-- ===== src/Files/Disk.antt =====
-- std::path on Unix, and the parameter that stands for the file system, the clock and base64.
use stuntdouble.Common.{
  ℕ, Bool, true, false, ◌&&◌, ◌||◌, refl, ap, ◌∙◌, ◌⊎◌, inl, inr, arith, Option, List, [], ◌∷◌,
  ◌++◌, ◌==◌, if◌then◌else◌, Result, ok, err, ◌≡◌,
}
use stuntdouble.Common.Bytes.{Bytes, codes, ◌==ᵇ◌, is_empty, split_on}
use stuntdouble.Json.{Json}
use stuntdouble.Files.{Error, not_found, io}

-- `std::path::Component`
pub data Component : Type 0 where
  prefix : Component
  root_dir : Component
  cur_dir : Component
  parent_dir : Component
  normal : Bytes → Component

-- One segment between slashes; empty ones and single dots are passed over.
segment : Bytes → List Component → List Component
segment s rest =
    if is_empty s || s ==ᵇ codes "."
    then rest
    else if s ==ᵇ codes ".."
    then parent_dir ∷ rest
    else normal s ∷ rest

segments : List Bytes → List Component
segments [] = []
segments (s ∷ parts) = segment s (segments parts)

-- Of a relative path a dot that leads it is kept.
from_first : List Bytes → List Component
from_first [] = []
from_first (s ∷ parts) =
    if s ==ᵇ codes "." then cur_dir ∷ segments parts else segment s (segments parts)

-- `Path::components` on Unix, where no path has a prefix.
unfoldable pub components : Bytes → List Component
unfolding segment segments from_first
components [] = []
components (c ∷ s) =
    if c == b'/' then root_dir ∷ segments (split_on b'/' s) else from_first (split_on b'/' (c ∷ s))

abbrev same : Component → Component → Bool
same prefix prefix = true
same root_dir root_dir = true
same cur_dir cur_dir = true
same parent_dir parent_dir = true
same (normal s) (normal t) = s ==ᵇ t
same _ _ = false

abbrev begins : List Component → List Component → Bool
begins xs [] = true
begins [] (y ∷ ys) = false
begins (x ∷ xs) (y ∷ ys) = same x y && begins xs ys

-- `target.starts_with(root)`: by whole components.
unfoldable pub starts_with : Bytes → Bytes → Bool
unfolding components
starts_with target root = begins (components target) (components root)

abbrev ends_in_slash : Bytes → Bool
ends_in_slash [] = true
ends_in_slash (c ∷ []) = c == b'/'
ends_in_slash (c ∷ d ∷ s) = ends_in_slash (d ∷ s)

abbrev is_absolute : Bytes → Bool
is_absolute [] = false
is_absolute (c ∷ s) = c == b'/'

-- `Path::join`
unfoldable pub join : Bytes → Bytes → Bytes
join root raw =
    if is_absolute raw then raw else if ends_in_slash root then root ++ raw else root ++ b'/' ∷ raw

pub record Metadata : Type 0 where
  pub is_file : Bool
  pub len : ℕ

-- Each access to the file system or the clock moves the world on, so that it may change between two
-- of them. `fd_link` is `read_link` of /proc/self/fd of an open file, and `read_to_end` that of
-- `file.take`.
pub record Disk : Type 1 where
  pub World : Type 0
  pub File : Type 0
  pub IoError : Type 0
  pub Duration : Type 0
  pub is_not_found : IoError → Bool
  pub io_text : IoError → Bytes
  pub canonicalize : Bytes → World → Result Bytes IoError × World
  pub is_dir : Bytes → World → Bool × World
  pub metadata : Bytes → World → Result Metadata IoError × World
  pub open_file : Bytes → World → Result File IoError × World
  pub file_metadata : File → World → Result Metadata IoError × World
  pub fd_link : File → World → Option Bytes × World
  pub read_to_end : ℕ → File → World → Result Bytes IoError × World
  pub now : World → ℕ × World
  pub elapsed_ms : ℕ → Duration
  pub ms_json : Duration → Json
  pub encode : Bytes → Bytes

module _ (disk : Disk) where
  unfoldable pub map_open_error : disk.IoError → Error
  map_open_error error = if disk.is_not_found error then not_found else io (disk.io_text error)

  unfoldable pub io_error : disk.IoError → Error
  io_error error = io (disk.io_text error)

pub Outcome-cases :
    {A E W : Type 0} (r : Result A E × W)
    → ((a : A) × (w : W) × (r ≡ (ok a, w))) ⊎ ((e : E) × (w : W) × (r ≡ (err e, w)))
Outcome-cases (ok a, w) = inl (a, w, refl)
Outcome-cases (err e, w) = inr (e, w, refl)

-- A fallible function on the world; the world comes back beside an error too.
abbrev pub Io : Type 0 → Type 0 → Type 0
Io W A = W → Result A Error × W

module _ {W A : Type 0} where
  abbrev pub pure : A → Io W A
  pure a w = (ok a, w)

  abbrev pub fail : Error → Io W A
  fail e w = (err e, w)

  abbrev with_error : {E : Type 0} → (E → Error) → Result A E × W → Result A Error × W
  with_error f (ok a, w) = (ok a, w)
  with_error f (err e, w) = (err (f e), w)

  -- `.map_err(f)`
  unfoldable pub map_err : {E : Type 0} → (E → Error) → (W → Result A E × W) → Io W A
  map_err f m w = with_error f (m w)

module _ {W : Type 0} where
  abbrev go_on : {A B : Type 0} → Result A Error × W → (A → Io W B) → Result B Error × W
  go_on (ok a, w) f = f a w
  go_on (err e, w) f = (err e, w)

  infixl 10 ◌>>=◌
  infixl 10 ◌>>◌
  -- `?`
  unfoldable pub ◌>>=◌ : {A B : Type 0} → Io W A → (A → Io W B) → Io W B
  (m >>= f) w = go_on (m w) f

  abbrev pub ◌>>◌ : {A B : Type 0} → Io W A → Io W B → Io W B
  m >> k = m >>= (λ _. k)

  -- `if test { return Err(e) }`
  unfoldable pub guard : Bool → Error → Io W (Unit {0})
  guard true e w = (err e, w)
  guard false e w = (ok tt, w)

-- Whenever the function succeeds, `P` holds of its result.
unfoldable pub Ensures : {W A : Type 0} → (A → Type 0) → Io W A → Type 0
Ensures {W} {A} P m = (w after : W) (a : A) → m w ≡ (ok a, after) → P a

pub Ensures-pure :
    (W : Type 0) {A : Type 0} (P : A → Type 0) (a : A) → P a → Ensures P (pure {W = W} {A = A} a)
unfolding Ensures
Ensures-pure W P a p w after b e = let same : a ≡ b = ground arith in rw (← same) p

module _ {W A : Type 0} where
  pub Ensures-map_err :
      {E : Type 0} (f : E → Error) (m : W → Result A E × W)
      → Ensures (λ a. (at : W) × ((m at).0 ≡ ok a)) (map_err f m)
  unfolding Ensures map_err
  Ensures-map_err f m w after a e = elim (Outcome-cases (m w)) [
    | inl (x, v, s) ↦ (w, ap (λ o. o.0) s ∙ ground (arith, rw (s) at e))
    | inr (x, v, s) ↦ absurd (ground (arith, rw (s) at e))
  ]

  -- What follows may count on what the first part ensures.
  pub Ensures-bind :
      {B : Type 0} (P : A → Type 0) (Q : B → Type 0) (m : Io W A) (f : A → Io W B)
      → Ensures P m
      → ((a : A) → P a → Ensures Q (f a))
      → Ensures Q (m >>= f)
  unfolding Ensures ◌>>=◌
  Ensures-bind P Q m f s k w after b e = elim (Outcome-cases (m w)) [
    | inl (a, v, t) ↦ k a (s w v a t) v after b (rw (t) at e)
    | inr (x, v, t) ↦ absurd (ground (arith, rw (t) at e))
  ]

  pub Ensures-weaken :
      (P Q : A → Type 0) (m : Io W A) → Ensures P m → ((a : A) → P a → Q a) → Ensures Q m
  unfolding Ensures
  Ensures-weaken P Q m s k w after a e = k a (s w after a e)

  pub Ensures-skip :
      {B : Type 0} (Q : B → Type 0) (m : Io W A) (f : A → Io W B)
      → ((a : A) → Ensures Q (f a))
      → Ensures Q (m >>= f)
  unfolding Ensures ◌>>=◌
  Ensures-skip Q m f k w after b e = elim (Outcome-cases (m w)) [
    | inl (a, v, t) ↦ k a v after b (rw (t) at e)
    | inr (x, v, t) ↦ absurd (ground (arith, rw (t) at e))
  ]

pub Ensures-guard :
    (W : Type 0) (test : Bool) (e : Error) → Ensures {W = W} (λ _. test ≡ false) (guard test e)
unfolding Ensures guard
Ensures-guard W true e w after a h = absurd (ground arith)
Ensures-guard W false e w after a h = refl
