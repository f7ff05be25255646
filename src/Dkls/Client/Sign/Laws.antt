-- ===== src/Dkls/Client/Sign/Laws.antt =====
-- How a request for a signature ends (src/protocols/dkls/dkls-client.ts).
use text.Mathlib.Text.{◌==◌ as str_eq}
use text.Mathlib.TextEquality.{eq_iff}
use nero_mpc_sdk.Base.{
  ℕ, ◌==◌, ==_iff, ◌≡◌, ◌≢◌, refl, sym, ap, ◌∙◌, true, false, Bool-cases, inl, inr, List, [], ◌∷◌,
  Option, none, some, ◌&&◌, subst,
}
use nero_mpc_sdk.Noble.{Noble}
use nero_mpc_sdk.Hex.{Text, is_empty}
use nero_mpc_sdk.Dkls.Keygen.{KeyShare}
use nero_mpc_sdk.Dkls.Client.{DklsClient, load_dkls_key_share}
use nero_mpc_sdk.Dkls.Client.Sign.{
  SdkError, Attempt, SignRequest, DklsSigningResult, DklsSigningApi, SigningDraw,
  execute_signing_flow, is_conflict, cancelled, wrapped, after_first, without_states, sign_with,
  sign_loaded, dkls_sign, refused,
}
use nero_mpc_sdk.Dkls.Client.Sign.Flow.{
  IsKept, IsKept-trans, Fits, IsAnswered, execute_signing_flow-Fits,
}

-- The backend is busy with another session.
unfoldable pub IsConflict : SdkError → Type 0
IsConflict e = (e.status_code ≡ 409) × (e.code ≡ "SIGNING_SESSION_CONFLICT")

-- What is cancelled for the session that an error names: nothing for none and for an empty name.
pub data Cancels : Option Text → List Text → Type 0 where
  nothing_named : Cancels none []
  empty_name : Cancels (some []) []
  one_named : (c : ℕ) (session : Text) → Cancels (some (c ∷ session)) ((c ∷ session) ∷ [])

is_conflict-true : (lib : Noble) (e : SdkError) → is_conflict lib e ≡ true → IsConflict e
unfolding is_conflict IsConflict
is_conflict-true lib e h = elim (Bool-cases (e.status_code == 409)) [
  | inl same ↦ (
    (==_iff e.status_code 409).0 same,
    (eq_iff e.code _).0 (sym (ap (λ b. b && str_eq e.code "SIGNING_SESSION_CONFLICT") same) ∙ h),
  )
  | inr other ↦
      absurd (differ (sym (ap (λ b. b && str_eq e.code "SIGNING_SESSION_CONFLICT") other) ∙ h))
]
  where
    differ : false ≡ true → ⊥
    differ e = cc

is_conflict-false : (lib : Noble) (e : SdkError) → is_conflict lib e ≡ false → ¬ IsConflict e
unfolding is_conflict IsConflict
is_conflict-false lib e h (status, code) =
    differ (sym h ∙ rw ((==_iff e.status_code 409).1 status) ((eq_iff e.code _).1 code))
  where
    differ : false ≡ true → ⊥
    differ e = cc

cancelled-Cancels : (lib : Noble) (o : Option Text) → Cancels o (cancelled lib o)
unfolding cancelled is_empty
cancelled-Cancels lib none = nothing_named
cancelled-Cancels lib (some []) = empty_name
cancelled-Cancels lib (some (c ∷ session)) = one_named c session

is_empty-true : (s : Text) → is_empty s ≡ true → s ≡ []
unfolding is_empty
is_empty-true [] h = refl
is_empty-true (c ∷ s) h = cc

is_empty-false : (s : Text) → is_empty s ≡ false → s ≢ []
unfolding is_empty
is_empty-false [] h = cc
is_empty-false (c ∷ s) h = λ e. cc

module _ (lib : Noble) (draws : ℕ → SigningDraw) (apis : ℕ → DklsSigningApi)
    (request : SignRequest) where
  abbrev pub Outcome : Type 0
  Outcome = DklsClient lib × Attempt DklsSigningResult × List Text

  -- One attempt, numbered from 0.
  abbrev pub attempt : ℕ → KeyShare → DklsClient lib → DklsClient lib × Attempt DklsSigningResult
  attempt n = λ share. execute_signing_flow lib (draws n) (apis n) share request

  -- A result, if there is one, is what the backend of this attempt answered.
  abbrev pub Ends : ℕ → Attempt DklsSigningResult → Type 0
  Ends n (Attempt.done result) = IsAnswered lib (apis n) request result
  Ends n (Attempt.failed e) = Unit {0}

  -- No state of a signature is left, and the share is as it was.
  unfoldable pub IsIdle : DklsClient lib → DklsClient lib → Type 0
  IsIdle before after =
      (after.signing_state ≡ none) × (after.mta_state ≡ none) × IsKept lib before after

  -- The five ways in which a request may end, from the client that has loaded its share.
  pub data SignRun (client : DklsClient lib) : Outcome → Type 0 where
    no_share :
        (c : DklsClient lib)
        → load_dkls_key_share lib client ≡ (c, none)
        → SignRun client (
          c,
          Attempt.failed (record {
            message = "No key share found. Run keygen first.";
            code = "NO_KEY_SHARE";
            status_code = 0;
            active_session_id = none;
          }),
          [],
        )
    no_session :
        (c : DklsClient lib) (share : KeyShare)
        → load_dkls_key_share lib client ≡ (c, some share)
        → request.dkg_session_id ≡ []
        → SignRun client (
          c,
          Attempt.failed (record {
            message = "dkgSessionId is required for signing";
            code = "MISSING_DKG_SESSION_ID";
            status_code = 0;
            active_session_id = none;
          }),
          [],
        )
    at_once :
        (c last : DklsClient lib) (share : KeyShare) (result : DklsSigningResult)
        → load_dkls_key_share lib client ≡ (c, some share)
        → request.dkg_session_id ≢ []
        → (attempt 0 share c).1 ≡ Attempt.done result
        → Ends 0 (Attempt.done result)
        → IsIdle c last
        → SignRun client (last, Attempt.done result, [])
    given_up :
        (c last : DklsClient lib) (share : KeyShare) (e : SdkError)
        → load_dkls_key_share lib client ≡ (c, some share)
        → request.dkg_session_id ≢ []
        → (attempt 0 share c).1 ≡ Attempt.failed e
        → ¬ IsConflict e
        → IsIdle c last
        → SignRun client (
          last,
          Attempt.failed (record {
            message = e.message;
            code = "DKLS_SIGNING_FAILED";
            status_code = 0;
            active_session_id = none;
          }),
          [],
        )
    retried :
        (c last : DklsClient lib) (share : KeyShare) (e : SdkError) (sessions : List Text)
        (second : Attempt DklsSigningResult)
        → load_dkls_key_share lib client ≡ (c, some share)
        → request.dkg_session_id ≢ []
        → (attempt 0 share c).1 ≡ Attempt.failed e
        → IsConflict e
        → Cancels e.active_session_id sessions
        → (attempt 1 share (attempt 0 share c).0).1 ≡ second
        → Ends 1 second
        → IsIdle c last
        → SignRun client (last, second, sessions)

  attempt-Fits :
      (n : ℕ) (share : KeyShare) (c : DklsClient lib)
      → IsKept lib c (attempt n share c).0 × Ends n (attempt n share c).1
  unfolding Fits
  attempt-Fits n share c =
      let (kept, value) = execute_signing_flow-Fits lib (draws n) (apis n) share request c in
      (kept, ends (attempt n share c).1 value)
    where
      ends :
          (t : Attempt DklsSigningResult)
          → ((r : DklsSigningResult) → t ≡ Attempt.done r → IsAnswered lib (apis n) request r)
          → Ends n t
      ends (Attempt.done r) value = value r refl
      ends (Attempt.failed e) value = tt

  without_states-IsIdle :
      (c mid : DklsClient lib) → IsKept lib c mid → IsIdle c (without_states lib mid)
  unfolding without_states IsIdle IsKept
  without_states-IsIdle c mid kept = (refl, refl, kept)

  -- From the first attempt on.
  attempted :
      (client c : DklsClient lib) (share : KeyShare)
      (first : DklsClient lib × Attempt DklsSigningResult)
      → load_dkls_key_share lib client ≡ (c, some share)
      → request.dkg_session_id ≢ []
      → attempt 0 share c ≡ first
      → SignRun client (
          let outcome = after_first lib (attempt 1 share) first in
          (without_states lib outcome.0, outcome.1, outcome.2))
  unfolding after_first wrapped
  attempted client c share (mid, Attempt.done result) found session e =
      let (kept, ends) = attempt-Fits 0 share c in
      SignRun.at_once c _ share result found session (ap (λ t. t.1) e)
        (subst (λ t. Ends 0 t.1) e ends)
        (without_states-IsIdle c mid (subst (λ t. IsKept lib c t.0) e kept))
  attempted client c share (mid, Attempt.failed error) found session e =
      let (kept, ends) = attempt-Fits 0 share c in
      let kept_mid = subst (λ t. IsKept lib c t.0) e kept in
      let (kept_again, ends_again) = attempt-Fits 1 share mid in
      elim (Bool-cases (is_conflict lib error)) [
        | inl conflict ↦ rw conflict (
            SignRun.retried c _ share error _ (attempt 1 share mid).1 found session
              (ap (λ t. t.1) e) (is_conflict-true lib error conflict)
              (cancelled-Cancels lib error.active_session_id) (ap (λ t. (attempt 1 share t.0).1) e)
              ends_again (without_states-IsIdle c _ (IsKept-trans lib c mid _ kept_mid kept_again)))
        | inr other ↦ rw other (
            SignRun.given_up c _ share error found session (ap (λ t. t.1) e)
              (is_conflict-false lib error other) (without_states-IsIdle c mid kept_mid))
      ]

  loaded :
      (client : DklsClient lib) (found : DklsClient lib × Option KeyShare)
      → load_dkls_key_share lib client ≡ found
      → SignRun client (sign_loaded lib draws apis request found)
  unfolding sign_loaded sign_with refused
  loaded client (c, none) e = SignRun.no_share c e
  loaded client (c, some share) e = elim (Bool-cases (is_empty request.dkg_session_id)) [
    | inl empty ↦ rw empty (SignRun.no_session c share e (is_empty-true _ empty))
    | inr filled ↦
        rw filled (attempted client c share (attempt 0 share c) e (is_empty-false _ filled) refl)
  ]

  -- For any client, backend and draws, a request for a signature ends in one of five ways. Without a
  -- key share or a session it is refused, and the client is as loading the share left it. Otherwise
  -- one attempt is made, and a second one just if the first failed with status 409 and the code
  -- "SIGNING_SESSION_CONFLICT", after the session that this error names was cancelled. A result is
  -- what the backend of the attempt answered to a partial signature, in a session that it opened for
  -- the request; a failure of the first attempt that is no conflict keeps its message, with the code
  -- "DKLS_SIGNING_FAILED". After attempts no state of a signature is left, and the stored entry, the
  -- share, its session and the state of a key generation are as they were before.
  pub dkls_sign-SignRun :
      (client : DklsClient lib) → SignRun client (dkls_sign lib draws apis request client)
  unfolding dkls_sign
  dkls_sign-SignRun client = loaded client (load_dkls_key_share lib client) refl
