-- ===== src/Config/Sound/Texts.antt =====
-- src/config.rs: the texts of a configuration.
use stuntdouble.Common.{
  ℕ, suc, ◌≡◌, refl, true, not, Option, none, some, List, [], ◌∷◌, if◌then◌else◌, All, arith,
  Bool-cases, Option-cases, inl, inr,
}
use stuntdouble.Common.Bytes.{Bytes, codes, ◌==ᵇ◌, ==ᵇ_iff, is_empty, to_ascii_uppercase}
use stuntdouble.Config
use stuntdouble.Config.{
  Value, string, integer, float, boolean, datetime, array, table, Table, Platform, Checked, pure,
  push, ◌>>=◌,
}
use stuntdouble.Config.Fields.{
  http_methods, has, refuse, opt_string, req_string, normalize_method, reject_keys, reject_unknown,
  opt_bind, check_host, check_hosts, opt_host_list, validate_script_extension, kept, on_string,
}
use stuntdouble.Config.Tables.{
  validate_config_version, existing_dir, checked_method, starts_with_slash, check_path,
}
use stuntdouble.Config.Sound.{
  Any, Sound, Sound-pure, Sound-push, Sound-refuse, Sound-bind, Sound-spoiled, Sound-on_string,
  Sound-on_array,
}

reject_keys-Any :
    (names allowed : List Bytes) (prefix : Bytes) → Sound Any (reject_keys names allowed prefix)
unfolding reject_keys
reject_keys-Any [] allowed prefix = Sound-pure _ _ tt
reject_keys-Any (name ∷ names) allowed prefix = elim (Bool-cases (has allowed name)) [
  | inl known ↦ rw known (reject_keys-Any names allowed prefix)
  | inr other ↦ rw other (Sound-spoiled _ _ _ (reject_keys-Any names allowed prefix))
]

pub reject_unknown-Any :
    (t : Table) (allowed : List Bytes) (prefix : Bytes)
    → Sound Any (reject_unknown t allowed prefix)
unfolding reject_unknown
reject_unknown-Any t allowed prefix = reject_keys-Any (Config.keys t) allowed prefix

pub opt_string-Any : (t : Table) (key field : Bytes) → Sound Any (opt_string t key field)
unfolding opt_string
opt_string-Any t key field =
    Sound-on_string _ _ _ (Sound-pure _ _ tt) (λ other. Sound-refuse _ _) (Config.get key t) _
      (λ s. elim (Bool-cases (not (is_empty s))) [
        | inl given ↦ rw given (Sound-pure _ _ tt)
        | inr empty ↦ rw empty (Sound-refuse _ _)
      ])

-- A value is there.
abbrev pub IsGiven {ℓ} : {A : Type ℓ} → Option A → Type 0
IsGiven none = ⊥
IsGiven (some _) = Unit

IsGiven-string :
    (value : Value) (field : Bytes)
    → Sound IsGiven (
        on_string
          (some value)
          (pure none)
          (λ s.
            if not (is_empty s)
            then pure (some s)
            else refuse (record { field = field; expected = codes "non-empty string"; actual = s }))
          (λ other. refuse (Config.bad field (codes "string") other)))
unfolding on_string
IsGiven-string (string s) field = elim (Bool-cases (not (is_empty s))) [
  | inl given ↦ rw given (Sound-pure _ _ tt)
  | inr empty ↦ rw empty (Sound-refuse _ _)
]
IsGiven-string (integer x) field = Sound-refuse _ _
IsGiven-string (float x) field = Sound-refuse _ _
IsGiven-string (boolean x) field = Sound-refuse _ _
IsGiven-string (datetime x) field = Sound-refuse _ _
IsGiven-string (array x) field = Sound-refuse _ _
IsGiven-string (table x) field = Sound-refuse _ _

pub req_string-IsGiven : (t : Table) (key field : Bytes) → Sound IsGiven (req_string t key field)
unfolding req_string opt_string
req_string-IsGiven t key field = elim (Option-cases (Config.get key t)) [
  | inl absent ↦ rw (absent, req_string) (Sound-refuse _ _)
  | inr (value, found) ↦
      rw (found, req_string) (rw (opt_string, found) (IsGiven-string value field))
]

pub validate_config_version-one :
    (version : Option Bytes) (debug : Bytes → Bytes)
    → Sound
        (λ _. IsGiven version → version ≡ some (codes "1"))
        (validate_config_version version debug)
unfolding validate_config_version
validate_config_version-one none debug = Sound-pure _ _ (λ g. absurd g)
validate_config_version-one (some value) debug = elim (Bool-cases (value ==ᵇ codes "1")) [
  | inl one ↦ rw one (Sound-pure _ _ (λ g. ground (arith, (==ᵇ_iff value (codes "1")).0 one)))
  | inr other ↦ rw other (Sound-push _ _)
]

module _ (platform : Platform) where
  -- An address, if one is given, is an IP address.
  abbrev pub IsAddress : Option Bytes → Type 0
  IsAddress none = Unit
  IsAddress (some bind) = platform.is_address bind ≡ true

  pub opt_bind-IsAddress : (t : Table) (field : Bytes) → Sound IsAddress (opt_bind platform t field)
  unfolding opt_bind
  opt_bind-IsAddress t field =
      Sound-on_string _ _ _ (Sound-pure _ _ tt) (λ other. Sound-refuse _ _)
        (Config.get (codes "bind") t) _
        (λ s. elim (Bool-cases (is_empty s)) [
          | inl empty ↦ rw empty (Sound-refuse _ _)
          | inr given ↦ rw given elim (Bool-cases (platform.is_address s)) [
            | inl fine ↦ rw fine (Sound-pure _ _ fine)
            | inr other ↦ rw other (Sound-refuse _ _)
          ]
        ])

  -- The host is what some entry is normalized to.
  abbrev pub IsHost : Bytes → Type 0
  IsHost host = (raw : Bytes) × (platform.normalize_host raw ≡ some host)

  abbrev pub IfGiven : {A : Type 0} → (A → Type 0) → Option A → Type 0
  IfGiven P none = Unit
  IfGiven P (some a) = P a

  check_host-IsHost :
      (field : Bytes) (index : ℕ) (value : Value)
      → Sound (IfGiven IsHost) (check_host platform field index value)
  unfolding check_host
  check_host-IsHost field index (string s) = elim (Bool-cases (is_empty s)) [
    | inl empty ↦ rw empty (Sound-refuse _ _)
    | inr given ↦ rw given elim (Option-cases (platform.normalize_host s)) [
      | inl bad ↦ rw bad (Sound-refuse _ _)
      | inr (host, fine) ↦ rw fine (Sound-pure _ _ (s, fine))
    ]
  ]
  check_host-IsHost field index (integer x) = Sound-refuse _ _
  check_host-IsHost field index (float x) = Sound-refuse _ _
  check_host-IsHost field index (boolean x) = Sound-refuse _ _
  check_host-IsHost field index (datetime x) = Sound-refuse _ _
  check_host-IsHost field index (array x) = Sound-refuse _ _
  check_host-IsHost field index (table x) = Sound-refuse _ _

  pub All-kept :
      {A : Type 0} (P : A → Type 0) (o : Option A) (rest : List A)
      → All P rest
      → IfGiven P o
      → All P (kept platform o rest)
  All-kept P none rest h k = h
  All-kept P (some a) rest h k = (k, h)

  check_hosts-All :
      (field : Bytes) (index : ℕ) (items : List Value)
      → Sound (All IsHost) (check_hosts platform field index items)
  unfolding check_hosts
  check_hosts-All field index [] = Sound-pure _ _ tt
  check_hosts-All field index (item ∷ items) =
      Sound-bind _ _ _ _ (check_host-IsHost field index item) λ host.
        Sound-bind _ _ _ _ (check_hosts-All field (suc index) items)
          λ hosts. Sound-pure _ _ (λ h k. All-kept IsHost host hosts h k)

  pub opt_host_list-All :
      (t : Table) (field : Bytes) → Sound (IfGiven (All IsHost)) (opt_host_list platform t field)
  unfolding opt_host_list
  opt_host_list-All t field =
      Sound-on_array _ _ _ (Sound-pure _ _ tt) (λ other. Sound-refuse _ _)
        (Config.get (codes "allow_hosts") t) _
        (λ items.
          Sound-bind _ _ _ _ (check_hosts-All field 0 (Config.values items))
            λ hosts. Sound-pure _ (some hosts) (λ h. h))

  -- The file has one of the extensions of a script.
  abbrev pub IsScript : Bytes → Type 0
  IsScript script =
      (ext : Bytes) × (platform.extension script ≡ some ext)
      × (has (codes "js" ∷ codes "mjs" ∷ codes "cjs" ∷ []) ext ≡ true)

  pub validate_script_extension-IsScript :
      (script prefix : Bytes)
      → Sound (λ _. IsScript script) (validate_script_extension platform script prefix)
  unfolding validate_script_extension
  validate_script_extension-IsScript script prefix =
      elim (Option-cases (platform.extension script)) [
        | inl absent ↦ rw (absent, validate_script_extension) (Sound-push _ _)
        | inr (ext, found) ↦
            rw (found, validate_script_extension)
              elim (Bool-cases (ext ==ᵇ codes "py")) [
                | inl python ↦ rw python (Sound-push _ _)
                | inr fine ↦
                    rw fine
                      elim (Bool-cases (has (codes "js" ∷ codes "mjs" ∷ codes "cjs" ∷ []) ext)) [
                        | inl known ↦ rw known (Sound-pure _ _ (ext, refl, known))
                        | inr other ↦ rw other (Sound-push _ _)
                      ]
              ]
      ]

  pub checked_method-has :
      (prefix method : Bytes)
      → Sound (λ m. has http_methods m ≡ true) (checked_method platform prefix method)
  unfolding checked_method normalize_method
  checked_method-has prefix method =
      elim (Bool-cases (has http_methods (to_ascii_uppercase method))) [
        | inl known ↦ rw (checked_method, normalize_method, known) (Sound-pure _ _ known)
        | inr other ↦
            rw (checked_method, normalize_method, other) (Sound-spoiled _ _ _ (Sound-pure _ _ tt))
      ]

  pub check_path-slash :
      (prefix path : Bytes)
      → Sound (λ _. starts_with_slash platform path ≡ true) (check_path platform prefix path)
  unfolding check_path
  check_path-slash prefix path = elim (Bool-cases (starts_with_slash platform path)) [
    | inl fine ↦ rw fine (Sound-pure _ _ refl)
    | inr other ↦ rw other (Sound-push _ _)
  ]

  -- A directory that is given is there.
  pub existing_dir-is_dir :
      (root : Option Bytes)
      → Sound
          (λ r. IsGiven root → (dir : Bytes) × (r ≡ some dir) × (platform.is_dir dir ≡ true))
          (existing_dir platform root)
  unfolding existing_dir
  existing_dir-is_dir none = Sound-pure _ _ (λ g. absurd g)
  existing_dir-is_dir (some root) = elim (Bool-cases (platform.is_dir root)) [
    | inl there ↦ rw there (Sound-pure _ _ (λ g. (root, refl, there)))
    | inr other ↦ rw other (Sound-refuse _ _)
  ]
