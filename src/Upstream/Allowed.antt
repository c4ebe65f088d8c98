-- ===== src/Upstream/Allowed.antt =====
-- src/upstream.rs: what `validate` lets pass.
use stuntdouble.Common.{
  ◌≡◌, ◌↔◌, ◌⊎◌, inl, inr, true, some, List, [], ◌∷◌, any, ok, arith, Option-cases,
}
use stuntdouble.Common.Bytes.{Bytes, codes, ==ᵇ_iff, eq_ignore_ascii_case, to_ascii_lowercase}
use stuntdouble.Upstream.{Net, Access, Error, validate_host, validate}

-- The text is in the list, letter case aside.
abbrev pub Listed : Bytes → List Bytes → Type 0
Listed host [] = ⊥
Listed host (allowed ∷ hosts) =
    (to_ascii_lowercase allowed ≡ to_ascii_lowercase host) ⊎ Listed host hosts

any-Listed :
    (host : Bytes) (hosts : List Bytes)
    → (any (λ allowed. eq_ignore_ascii_case allowed host) hosts ≡ true) ↔ Listed host hosts
unfolding eq_ignore_ascii_case
any-Listed host [] = ground arith
any-Listed host (allowed ∷ hosts) =
    ground
      (arith, any-Listed host hosts, ==ᵇ_iff (to_ascii_lowercase allowed) (to_ascii_lowercase host))

module _ (net : Net) (access : Access) where
  -- The url's scheme is http or https, and its host is on the allowlist.
  abbrev pub IsAllowed : net.Url → Type 0
  IsAllowed url =
      ((net.scheme url ≡ codes "http") ⊎ (net.scheme url ≡ codes "https"))
      × ((host : Bytes) × (net.host url ≡ some host) × Listed host access.allow_hosts)

  validate_host-Listed :
      (url : net.Url)
      → (validate_host net access url ≡ ok tt)
        ↔ ((host : Bytes) × (net.host url ≡ some host) × Listed host access.allow_hosts)
  unfolding validate_host
  validate_host-Listed url = elim (Option-cases (net.host url)) [
    | inl missing ↦ rw (validate_host, missing) (λ e. cc, λ (host, e, _). cc)
    | inr (host, found) ↦
        rw (validate_host, found) ground (arith, any-Listed host access.allow_hosts)
  ]

  -- A url passes exactly when its scheme is http or https and its host is on the allowlist in some
  -- letter case.
  pub validate_iff :
      (url : net.Url) (url_error : Bytes → Error)
      → (validate net access url url_error ≡ ok tt) ↔ IsAllowed url
  unfolding validate
  validate_iff url url_error = ground (
    arith,
    validate_host-Listed url,
    ==ᵇ_iff (net.scheme url) (codes "http"),
    ==ᵇ_iff (net.scheme url) (codes "https"),
  )
