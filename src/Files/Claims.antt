-- ===== src/Files/Claims.antt =====
-- src/files.rs: the handles of opened bodies, over any sequence of opens and claims.
use stuntdouble.Common.{
  ℕ, zero, suc, ◌+◌, ◌-◌, ◌≤◌, ◌≡◌, ◌≢◌, refl, ap, ◌∙◌, Option, none, some, List, [], ◌∷◌, ◌++◌,
  inl, inr, ◌==◌, ==_iff, if◌then◌else◌, length, length-append, get_elem?, All, arith, Bool-cases,
}
use stuntdouble.RequestLog.Slots.{get_elem?-last}
use stuntdouble.Files
use stuntdouble.Files.{FileBody, Streams, register_stream, clear, flatten, take_stream}

pub data Use (File : Type 0) : Type 0 where
  opens : FileBody File → Use File
  claims : ℕ → Use File

module _ {File : Type 0} where
  pub run : List (Use File) → Streams File → Streams File
  run [] streams = streams
  run (opens body ∷ us) streams = run us (register_stream body streams).1
  run (claims handle ∷ us) streams = run us (take_stream handle streams).1

  -- Whether a claim was given a body.
  abbrev pub is_given : Option (FileBody File) → ℕ
  is_given none = 0
  is_given (some body) = 1

  -- How many of the claims of a handle were given a body.
  pub given : ℕ → List (Use File) → Streams File → ℕ
  given h [] streams = 0
  given h (opens body ∷ us) streams = given h us (register_stream body streams).1
  given h (claims handle ∷ us) streams =
      (if handle == h then is_given (take_stream handle streams).0 else 0)
      + given h us (take_stream handle streams).1

  abbrev pub IsNotFor : ℕ → Use File → Type 0
  IsNotFor h (opens body) = Unit
  IsNotFor h (claims handle) = handle ≢ h

  -- How many claims a slot may still serve.
  abbrev left : ℕ → Streams File → ℕ
  left h [] = 1
  left zero (none ∷ slots) = 0
  left zero (some body ∷ slots) = 1
  left (suc h) (slot ∷ slots) = left h slots

  left_le : (h : ℕ) (streams : Streams File) → left h streams ≤ 1
  left_le h [] = omega arith
  left_le zero (none ∷ slots) = omega arith
  left_le zero (some body ∷ slots) = omega arith
  left_le (suc h) (slot ∷ slots) = left_le h slots

  left-append :
      (h : ℕ) (body : FileBody File) (streams : Streams File)
      → left h (streams ++ some body ∷ []) ≤ left h streams
  left-append h body [] = left_le h (some body ∷ [])
  left-append zero body (none ∷ slots) = omega arith
  left-append zero body (some b ∷ slots) = omega arith
  left-append (suc h) body (slot ∷ slots) = left-append h body slots

  left-clear :
      (h : ℕ) (streams : Streams File)
      → is_given (flatten (get_elem? streams h)) + left h (clear h streams) ≤ left h streams
  left-clear h [] = omega arith
  left-clear zero (none ∷ slots) = omega arith
  left-clear zero (some body ∷ slots) = omega arith
  left-clear (suc h) (slot ∷ slots) = left-clear h slots

  left-clear_other :
      (h k : ℕ) (streams : Streams File) → k ≢ h → left h (clear k streams) ≡ left h streams
  left-clear_other h k [] n = refl
  left-clear_other zero zero (slot ∷ slots) n = absurd (n refl)
  left-clear_other zero (suc k) (none ∷ slots) n = refl
  left-clear_other zero (suc k) (some body ∷ slots) n = refl
  left-clear_other (suc h) zero (slot ∷ slots) n = refl
  left-clear_other (suc h) (suc k) (slot ∷ slots) n = left-clear_other h k slots (λ e. n (ap suc e))

  given_le :
      (h : ℕ) (us : List (Use File)) (streams : Streams File) → given h us streams ≤ left h streams
  unfolding given Files.register_stream Files.take_stream
  given_le h [] streams = omega arith
  given_le h (opens body ∷ us) streams =
      omega (arith, given_le h us (streams ++ some body ∷ []), left-append h body streams)
  given_le h (claims k ∷ us) streams = elim (Bool-cases (k == h)) [
    | inl same ↦
        let e : k ≡ h = (==_iff k h).0 same in
        rw (same, e) (omega (arith, given_le h us (clear h streams), left-clear h streams))
    | inr other ↦
        let n : k ≢ h = ground (arith, other) in
        rw other (omega (arith, given_le h us (clear k streams), left-clear_other h k streams n))
  ]

  get_elem?-clear :
      (h k : ℕ) (streams : Streams File)
      → k ≢ h
      → get_elem? (clear k streams) h ≡ get_elem? streams h
  get_elem?-clear h k [] n = refl
  get_elem?-clear zero zero (slot ∷ slots) n = absurd (n refl)
  get_elem?-clear zero (suc k) (slot ∷ slots) n = refl
  get_elem?-clear (suc h) zero (slot ∷ slots) n = refl
  get_elem?-clear (suc h) (suc k) (slot ∷ slots) n = get_elem?-clear h k slots (λ e. n (ap suc e))

  get_elem?-append :
      (h : ℕ) (slot : Option (FileBody File)) (body : FileBody File) (streams : Streams File)
      → get_elem? streams h ≡ some slot
      → get_elem? (streams ++ some body ∷ []) h ≡ some slot
  get_elem?-append h slot body [] e = absurd (ground arith)
  get_elem?-append zero slot body (s ∷ slots) e = e
  get_elem?-append (suc h) slot body (s ∷ slots) e = get_elem?-append h slot body slots e

  run-keeps :
      (h : ℕ) (slot : Option (FileBody File)) (us : List (Use File)) (streams : Streams File)
      → All (IsNotFor h) us
      → get_elem? streams h ≡ some slot
      → get_elem? (run us streams) h ≡ some slot
  unfolding run Files.register_stream Files.take_stream
  run-keeps h slot [] streams a e = e
  run-keeps h slot (opens body ∷ us) streams a e =
      run-keeps h slot us (streams ++ some body ∷ []) a.1 (get_elem?-append h slot body streams e)
  run-keeps h slot (claims k ∷ us) streams a e =
      run-keeps h slot us (clear k streams) a.1 (get_elem?-clear h k streams a.0 ∙ e)

  get_elem?-new :
      (streams : Streams File) (body : FileBody File)
      → get_elem? (streams ++ some body ∷ []) (length (streams ++ some body ∷ []) - 1)
        ≡ some (some body)
  get_elem?-new streams body =
      let e : length (streams ++ some body ∷ []) - 1 ≡ length streams =
        omega (arith, length-append streams (some body ∷ [])) in
      rw e (get_elem?-last (some body) streams)

  -- A body that is opened is given to the first claim of its handle, whatever is opened and whichever
  -- other handles are claimed before; and in every sequence of opens and claims at most one claim of
  -- the handle is given a body.
  pub register_stream-claimed_once :
      (body : FileBody File) (streams : Streams File) (us : List (Use File))
      → let (handle, opened) = register_stream body streams in
        (given handle us opened ≤ 1)
        × (All (IsNotFor handle) us → (take_stream handle (run us opened)).0 ≡ some body)
  unfolding Files.register_stream Files.take_stream
  register_stream-claimed_once body streams us =
      let opened : Streams File = streams ++ some body ∷ [] in
      let h : ℕ = length opened - 1 in
      (
        omega (arith, given_le h us opened, left_le h opened),
        λ a. ap flatten (run-keeps h (some body) us opened a (get_elem?-new streams body)),
      )
