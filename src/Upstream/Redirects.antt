-- ===== src/Upstream/Redirects.antt =====
-- src/upstream.rs: the loop of `send_following_redirects`.
use stuntdouble.Common.{
  ℕ, zero, suc, ◌+◌, ◌-◌, ◌≤◌, ◌<◌, ◌≡◌, ◌⊎◌, inl, inr, refl, ap, sym, ◌∙◌, Bool, false, Option,
  none, some, List, [], ◌∷◌, ◌++◌, ◌==◌, Result, ok, err, All, length, arith, Bool-cases,
  Result-cases,
}
use mathlib.Core.List.{append_assoc, append-nil}
use stuntdouble.Common.Bytes.{Bytes}
use stuntdouble.Upstream.{
  Net, Access, Error, Session, final, next, is_redirect, max_redirects, timeout_error,
  map_ureq_error, validate, locate, decide_hop, fetch, follow, rounds, send_following_redirects,
}
use stuntdouble.Upstream.Allowed.{IsAllowed, validate_iff}

module _ (net : Net) (access : Access) where
  -- What is handed on is no redirect, or one without a target where that is not an error.
  abbrev pub IsSettled : Bool → Result net.Response Error → Type 0
  IsSettled missing (ok response) =
      (is_redirect (net.response_status response) ≡ false)
      ⊎ ((net.location response ≡ none) × (missing ≡ false))
  IsSettled missing (err e) = Unit

  locate-IsAllowed :
      (url to : net.Url) (location : net.HeaderValue) (call : Bytes)
      (redirect_error : Bytes → Error)
      → locate net access url location call redirect_error ≡ ok to
      → IsAllowed net access to
  unfolding locate
  locate-IsAllowed url to location call redirect_error e =
      let passed : validate net access to redirect_error ≡ ok tt = ground arith in
      (validate_iff net access to redirect_error).0 passed

  decide_hop-next :
      (url to : net.Url) (response : net.Response) (redirects : ℕ) (call : Bytes)
      (redirect_error : Bytes → Error) (missing : Bool)
      → decide_hop net access url response redirects call redirect_error missing ≡ ok (next to)
      → IsAllowed net access to × (redirects < max_redirects)
  unfolding decide_hop
  decide_hop-next url to response redirects call redirect_error missing e =
      let (location, there, small, led) : (location : net.HeaderValue) × (net.location response
            ≡ some location)
          × (redirects < max_redirects)
          × (locate net access url location call redirect_error ≡ ok to) =
        ground arith in
      (locate-IsAllowed url to location call redirect_error led, small)

  decide_hop-final :
      (url : net.Url) (response handed : net.Response) (redirects : ℕ) (call : Bytes)
      (redirect_error : Bytes → Error) (missing : Bool)
      → decide_hop net access url response redirects call redirect_error missing ≡ ok (final handed)
      → (handed ≡ response) × IsSettled missing (ok response)
  unfolding decide_hop
  decide_hop-final url response handed redirects call redirect_error missing e = ground arith

  -- What one run of the loop leaves: the urls that it sent, and what it hands on.
  pub record IsRun (missing : Bool) (s : Session net) (most : ℕ)
      (run : Option (Result net.Response Error × Session net)) : Type 0 where
    pub answer : Result net.Response Error
    pub after : Session net
    pub ends : run ≡ some (answer, after)
    pub new : List net.Url
    pub sent : after.sent ≡ s.sent ++ new
    pub allowed : All (IsAllowed net access) new
    pub bounded : length new ≤ most
    pub settled : IsSettled missing answer

  -- A run that ends after this url, and one that goes on.
  module _ (missing : Bool) (url : net.Url) (s : Session net) (a : IsAllowed net access url) where
    IsRun-end :
        (most : ℕ) (answer : Result net.Response Error) (world : net.World)
        → IsSettled missing answer
        → IsRun missing s
            (suc most)
            (some (answer, record { world = world; calls = s.calls; sent = s.sent ++ url ∷ [] }))
    IsRun-end most answer world settled = record {
      answer = answer;
      after = record { world = world; calls = s.calls; sent = s.sent ++ url ∷ [] };
      ends = refl;
      new = url ∷ [];
      sent = refl;
      allowed = (a, tt);
      bounded = omega arith;
      settled = settled;
    }

    IsRun-on :
        {most : ℕ} {t : Session net} {run : Option (Result net.Response Error × Session net)}
        → t.sent ≡ s.sent ++ url ∷ []
        → IsRun missing t most run
        → IsRun missing s (suc most) run
    IsRun-on {t} e r = record {
      answer = r.answer;
      after = r.after;
      ends = r.ends;
      new = url ∷ r.new;
      sent = r.sent ∙ ap (λ x. x ++ r.new) e ∙ append_assoc s.sent (url ∷ []) r.new;
      allowed = (a, r.allowed);
      bounded = omega (arith, r.bounded);
      settled = r.settled;
    }

  IsRun-timeout :
      (missing : Bool) (most : ℕ) (s : Session net) (world : net.World)
      → IsRun missing s most
          (some (err timeout_error, record { world = world; calls = s.calls; sent = s.sent }))
  IsRun-timeout missing most s world = record {
    answer = err timeout_error;
    after = record { world = world; calls = s.calls; sent = s.sent };
    ends = refl;
    new = [];
    sent = sym (append-nil s.sent);
    allowed = tt;
    bounded = omega arith;
    settled = tt;
  }

  follow-IsRun :
      (fuel : ℕ) (url : net.Url) (deadline : ℕ) (range : Option Bytes) (call : Bytes)
      (redirect_error : Bytes → Error) (missing : Bool) (index redirects : ℕ) (s : Session net)
      → IsAllowed net access url
      → suc max_redirects ≤ redirects + fuel
      → redirects ≤ max_redirects
      → IsRun missing s fuel
          (follow net access fuel url deadline range call redirect_error missing index redirects s)
  unfolding follow fetch
  follow-IsRun zero url deadline range call redirect_error missing index redirects s a h k =
      absurd (omega arith)
  follow-IsRun (suc fuel) url deadline range call redirect_error missing index redirects s a h k =
      let time = (net.now s.world).0 in
      let reply = net.call url (deadline - time) range (net.now s.world).1 in
      elim (Bool-cases (deadline - time == 0)) [
        | inl late ↦ rw late (IsRun-timeout missing (suc fuel) s (net.now s.world).1)
        | inr early ↦ elim (Result-cases reply.0) [
          | inr (error, failed) ↦
              rw (early, failed)
                (IsRun-end missing url s a fuel (err (map_ureq_error error)) reply.1 tt)
          | inl (response, came) ↦
              elim (Result-cases
                (decide_hop net access url response redirects call redirect_error missing)) [
                  | inr (error, refused) ↦
                      rw (early, came, refused)
                        (IsRun-end missing url s a fuel (err error) reply.1 tt)
                  | inl (final handed, done) ↦
                      let (same, ends) =
                        decide_hop-final url response handed redirects call redirect_error missing
                          done in
                      rw (early, came, done, same)
                        (IsRun-end missing url s a fuel (ok response) reply.1 ends)
                  | inl (next to, on) ↦
                      let (b, small) =
                        decide_hop-next url to response redirects call redirect_error missing on in
                      rw (early, came, on)
                        (IsRun-on missing url s a refl (
                          follow-IsRun fuel to deadline range call redirect_error missing index
                            (suc redirects) _ b (omega arith) (omega arith)))
                ]
        ]
      ]

  -- From an allowed url, the loop ends within its rounds whatever the network answers: it sends four
  -- requests at most, each to an allowed url, and what it hands on is an error, an answer that is no
  -- redirect, or, where a missing target is no error, a redirect without a target.
  pub send_following_redirects-IsRun :
      (url : net.Url) (deadline : ℕ) (range : Option Bytes) (call : Bytes)
      (redirect_error : Bytes → Error) (missing : Bool) (index : ℕ) (s : Session net)
      → IsAllowed net access url
      → IsRun missing s 4 (
          send_following_redirects net access url deadline range call redirect_error missing index
            s)
  unfolding send_following_redirects
  send_following_redirects-IsRun url deadline range call redirect_error missing index s a =
      follow-IsRun (rounds net access) url deadline range call redirect_error missing index 0 s a
        (omega arith) (omega arith)
