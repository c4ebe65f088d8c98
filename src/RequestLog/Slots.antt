-- ===== src/RequestLog/Slots.antt =====
-- src/request_log.rs: every call keeps its slot of the chain.
use stuntdouble.Common.{
  ℕ, zero, suc, ◌<◌, ◌≡◌, refl, ap, ◌∙◌, false, Option, none, some, List, [], ◌∷◌, ◌++◌, length,
  length-append, get_elem?, Bool-cases, inl, inr, ◌==◌, ==_iff, if◌then◌else◌, arith,
}
use stuntdouble.RequestLog.{begin, update}

abbrev pub map_some : {A : Type 0} → (A → A) → Option A → Option A
map_some f none = none
map_some f (some a) = some (f a)

module _ {T : Type 0} where
  pub length-update :
      (i : ℕ) (f : T → T) (calls : List T) → length (update i f calls) ≡ length calls
  unfolding update
  length-update i f [] = refl
  length-update zero f (call ∷ calls) = refl
  length-update (suc i) f (call ∷ calls) = ap suc (length-update i f calls)

  pub get_elem?-update :
      (i j : ℕ) (f : T → T) (calls : List T)
      → get_elem? (update i f calls) j
        ≡ (if i == j then map_some f (get_elem? calls j) else get_elem? calls j)
  unfolding update
  get_elem?-update i j f [] = elim (Bool-cases (i == j)) [ inl e ↦ rw e refl | inr e ↦ rw e refl ]
  get_elem?-update zero zero f (call ∷ calls) = ground arith
  get_elem?-update zero (suc j) f (call ∷ calls) = ground arith
  get_elem?-update (suc i) zero f (call ∷ calls) = ground arith
  get_elem?-update (suc i) (suc j) f (call ∷ calls) = ground (arith, get_elem?-update i j f calls)

  pub get_elem?-last :
      (call : T) (calls : List T) → get_elem? (calls ++ call ∷ []) (length calls) ≡ some call
  get_elem?-last call [] = refl
  get_elem?-last call (c ∷ calls) = get_elem?-last call calls

  pub get_elem?-earlier :
      (call : T) (calls : List T) (i : ℕ)
      → i < length calls
      → get_elem? (calls ++ call ∷ []) i ≡ get_elem? calls i
  get_elem?-earlier call [] i h = absurd (omega arith)
  get_elem?-earlier call (c ∷ calls) zero h = refl
  get_elem?-earlier call (c ∷ calls) (suc i) h = get_elem?-earlier call calls i (omega arith)

  pub begin-index : (call : T) (calls : List T) → (begin call calls).0 ≡ length calls
  begin-index call calls = omega (arith, length-append calls (call ∷ []))

  pub get_elem?-begin :
      (call : T) (calls : List T) → get_elem? (begin call calls).1 (begin call calls).0 ≡ some call
  get_elem?-begin call calls = rw (begin-index call calls) (get_elem?-last call calls)

  -- A call that begins stands in the slot that it gets, behind the earlier ones, which keep theirs,
  -- and a later update of that slot reaches this call and no other.
  pub begin-update :
      (call : T) (calls : List T) (f : T → T)
      → (get_elem? (update (begin call calls).0 f (begin call calls).1) (begin call calls).0
          ≡ some (f call))
        × ((i : ℕ)
            → i < length calls
            → get_elem? (update (begin call calls).0 f (begin call calls).1) i ≡ get_elem? calls i)
  begin-update call calls f =
      let slot = begin-index call calls in
      (
        rw
            (
              slot,
              get_elem?-update (length calls) (length calls) f (calls ++ call ∷ []),
              (==_iff (length calls) (length calls)).1 refl,
              get_elem?-last call calls,
            )
            refl,
        λ i h.
            let other : (length calls == i) ≡ false = ground arith in
            rw (slot, get_elem?-update (length calls) i f (calls ++ call ∷ []), other)
              (get_elem?-earlier call calls i h),
      )

  pub length-begin : (call : T) (calls : List T) → length (begin call calls).1 ≡ suc (length calls)
  length-begin call calls = omega (arith, length-append calls (call ∷ []))

  pub length-begin-update :
      (call : T) (calls : List T) (f : T → T)
      → length (update (begin call calls).0 f (begin call calls).1) ≡ suc (length calls)
  length-begin-update call calls f =
      length-update (begin call calls).0 f (begin call calls).1 ∙ length-begin call calls
