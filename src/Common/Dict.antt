-- ===== src/Common/Dict.antt =====
-- Rust's `HashMap<String, V>` as an association list. Its order is the iteration order, of which
-- the program makes no use.
use Prim.Native.Nat.{ℕ, ◌+◌}
use mathlib.Core.Path.{◌≡◌, refl, subst}
use mathlib.Core.Logic.{◌≢◌, inl, inr}
use mathlib.Core.Bool.{Bool, true, false}
use mathlib.Core.Option.{Option, none, some}
use mathlib.Core.List.{List, [], ◌∷◌}
use native.Mathlib.Omega.{arith}
use stuntdouble.Common.Tests.{if◌then◌else◌, Bool-cases}
use stuntdouble.Common.Lists.{length, All}
use stuntdouble.Common.Bytes.{Bytes, ◌==ᵇ◌, ==ᵇ_iff}

abbrev pub Dict {ℓ} : Type ℓ → Type ℓ
Dict V = List (Bytes × V)

module _ {ℓ} {V : Type ℓ} where
  unfoldable pub lookup : Bytes → Dict V → Option V
  lookup k [] = none
  lookup k ((j, v) ∷ m) = if j ==ᵇ k then some v else lookup k m

  unfoldable pub remove : Bytes → Dict V → Dict V
  remove k [] = []
  remove k ((j, v) ∷ m) = let rest = remove k m in if j ==ᵇ k then rest else (j, v) ∷ rest

  unfoldable pub insert : Bytes → V → Dict V → Dict V
  unfolding remove
  insert k v m = (k, v) ∷ remove k m

  abbrev pub is_some : Option V → Bool
  is_some none = false
  is_some (some _) = true

  abbrev pub contains_key : Bytes → Dict V → Bool
  contains_key k m = is_some (lookup k m)

  abbrev pub values : Dict V → List V
  values [] = []
  values ((_, v) ∷ m) = v ∷ values m

  -- No entry has the key `k`.
  abbrev pub Lacks : Bytes → Dict V → Type 0
  Lacks k [] = Unit
  Lacks k ((j, _) ∷ m) = (j ≢ k) × Lacks k m

  -- The keys are distinct.
  abbrev pub IsMap : Dict V → Type 0
  IsMap [] = Unit
  IsMap ((k, _) ∷ m) = Lacks k m × IsMap m

  pub lookup-remove :
      (k j : Bytes) (m : Dict V) → lookup j (remove k m) ≡ (if k ==ᵇ j then none else lookup j m)
  unfolding lookup remove
  lookup-remove k j [] = ground arith
  lookup-remove k j ((i, v) ∷ m) =
      ground (arith, lookup-remove k j m, ==ᵇ_iff i k, ==ᵇ_iff i j, ==ᵇ_iff k j)

module _ {ℓ} {V : Type ℓ} where
  pub lookup-insert :
      (k j : Bytes) (v : V) (m : Dict V)
      → lookup j (insert k v m) ≡ (if k ==ᵇ j then some v else lookup j m)
  unfolding lookup insert
  lookup-insert k j v m = ground (arith, lookup-remove k j m)

  pub Lacks-remove_self : (k : Bytes) (m : Dict V) → Lacks k (remove k m)
  unfolding remove
  Lacks-remove_self k [] = tt
  Lacks-remove_self k ((i, v) ∷ m) = ground (arith, Lacks-remove_self k m, ==ᵇ_iff i k)

  pub Lacks-remove : (k j : Bytes) (m : Dict V) → Lacks j m → Lacks j (remove k m)
  unfolding remove
  Lacks-remove k j [] h = tt
  Lacks-remove k j ((i, v) ∷ m) h = ground (arith, Lacks-remove k j m h.1)

  pub lookup_of_Lacks : (k : Bytes) (m : Dict V) → Lacks k m → lookup k m ≡ none
  unfolding lookup
  lookup_of_Lacks k [] h = refl
  lookup_of_Lacks k ((i, v) ∷ m) h = ground (arith, lookup_of_Lacks k m h.1, ==ᵇ_iff i k)

  pub remove_of_Lacks : (k : Bytes) (m : Dict V) → Lacks k m → remove k m ≡ m
  unfolding remove
  remove_of_Lacks k [] h = refl
  remove_of_Lacks k ((i, v) ∷ m) h = ground (arith, remove_of_Lacks k m h.1, ==ᵇ_iff i k)

module _ {ℓ} {V : Type ℓ} where
  pub IsMap-remove : (k : Bytes) (m : Dict V) → IsMap m → IsMap (remove k m)
  unfolding remove
  IsMap-remove k [] h = tt
  IsMap-remove k ((i, v) ∷ m) h = ground (arith, IsMap-remove k m h.1, Lacks-remove k i m h.0)

  pub IsMap-insert : (k : Bytes) (v : V) (m : Dict V) → IsMap m → IsMap (insert k v m)
  unfolding insert
  IsMap-insert k v m h = (Lacks-remove_self k m, IsMap-remove k m h)

  pub length-remove :
      (k : Bytes) (m : Dict V)
      → IsMap m
      → length (remove k m) + (if contains_key k m then 1 else 0) ≡ length m
  unfolding remove lookup
  length-remove k [] h = omega arith
  length-remove k ((i, v) ∷ m) h = elim (Bool-cases (i ==ᵇ k)) [
    | inl same ↦
        let e : i ≡ k = (==ᵇ_iff i k).0 same in
        let gone : remove k m ≡ m = remove_of_Lacks k m (subst (λ j. Lacks j m) e h.0) in
        rw (same, gone) (omega arith)
    | inr other ↦ ground (arith, length-remove k m h.1)
  ]

  pub All-remove {κ} :
      (P : Bytes × V → Type κ) (k : Bytes) (m : Dict V) → All P m → All P (remove k m)
  unfolding remove
  All-remove P k [] h = tt
  All-remove P k ((i, v) ∷ m) h = ground (arith, All-remove P k m h.1)

  pub All-lookup {κ} :
      (P : Bytes × V → Type κ) (k : Bytes) (v : V) (m : Dict V)
      → All P m
      → lookup k m ≡ some v
      → P (k, v)
  unfolding lookup
  All-lookup P k v [] h e = cc
  All-lookup P k v ((i, w) ∷ m) h e = ground (arith, All-lookup P k v m h.1, ==ᵇ_iff i k)

module _ {ℓ} {V : Type ℓ} (weight : Bytes → V → ℕ) where
  -- The sum of a weight over the entries.
  abbrev pub total : Dict V → ℕ
  total [] = 0
  total ((k, v) ∷ m) = weight k v + total m

  abbrev pub weight_at : Bytes → Option V → ℕ
  weight_at k none = 0
  weight_at k (some v) = weight k v

  -- Removing a key takes exactly its weight off the sum.
  pub total-remove :
      (k : Bytes) (m : Dict V) → IsMap m → total (remove k m) + weight_at k (lookup k m) ≡ total m
  unfolding remove lookup
  total-remove k [] h = omega arith
  total-remove k ((i, v) ∷ m) h = elim (Bool-cases (i ==ᵇ k)) [
    | inl same ↦
        let e : i ≡ k = (==ᵇ_iff i k).0 same in
        let gone : remove k m ≡ m = remove_of_Lacks k m (subst (λ j. Lacks j m) e h.0) in
        rw (same, gone, e) (omega arith)
    | inr other ↦ ground (arith, total-remove k m h.1)
  ]
