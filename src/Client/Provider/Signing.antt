-- ===== src/Client/Provider/Signing.antt =====
-- Who may have a message signed through `request` of `NeroProvider` (src/core/provider.ts).
use nero_mpc_sdk.Base.{
  ◌≡◌, ◌⊎◌, ◌↔◌, refl, sym, ap, ◌∙◌, Bool, true, false, not, Bool-cases, if◌then◌else◌, inl, inr,
  List, [], ◌∷◌, ◌++◌, drop,
}
use nero_mpc_sdk.Hex.{Text, Bytes, text, same_text, same_text_self, same_text-eq}
use nero_mpc_sdk.Client.Provider.State.{NeroProvider, unauthorized}
use nero_mpc_sdk.Client.Provider.Host.{
  Host, Result, returned, thrown, Answer, text_answer, eth_sign, personal_sign,
}
use nero_mpc_sdk.Client.Provider.Request.{
  request, unchanged, answered, then_do, refuse, some_account, validate_address, message_bytes,
  handle_eth_sign, handle_personal_sign,
}

module _ {V : Type 0} (host : Host V) where
  -- One of the accounts is the address up to the case of its letters.
  unfoldable pub IsAmong : Text → List Text → Type 0
  IsAmong address [] = ⊥
  IsAmong address (a ∷ accounts) =
      (host.to_lower_case a ≡ host.to_lower_case address) ⊎ IsAmong address accounts

  -- The address is an account, the message is read as bytes and those are what is signed.
  unfoldable pub IsSigned : Text → Result V Bytes → Text → Type 0
  IsSigned address read signature =
      IsAmong address host.accounts
      × (bytes : Bytes) × (read ≡ returned bytes)
      × (host.sign_message bytes ≡ returned signature)

  some_account-IsAmong :
      (address : Text) (accounts : List Text)
      → (some_account host (host.to_lower_case address) accounts ≡ true) ↔ IsAmong address accounts
  unfolding some_account IsAmong
  some_account-IsAmong address [] = (λ h. cc, λ h. absurd h)
  some_account-IsAmong address (a ∷ accounts) =
      elim (Bool-cases (same_text (host.to_lower_case a) (host.to_lower_case address))) [
        | inl e ↦ (λ h. inl (same_text-eq _ _ e), λ h. rw e refl)
        | inr e ↦ (
          λ h. inr ((some_account-IsAmong address accounts).0 (sym (decided e) ∙ h)),
          λ h. elim h [
            | inl same ↦ absurd (differ (sym e ∙ as_same same))
            | inr later ↦ decided e ∙ (some_account-IsAmong address accounts).1 later
          ],
        )
      ]
    where
      decided :
          same_text (host.to_lower_case a) (host.to_lower_case address) ≡ false
          → some_account host (host.to_lower_case address) (a ∷ accounts)
            ≡ some_account host (host.to_lower_case address) accounts
      decided e =
          ap (λ b. if b then true else some_account host (host.to_lower_case address) accounts) e

      differ : false ≡ true → ⊥
      differ e = cc

      as_same :
          host.to_lower_case a ≡ host.to_lower_case address
          → same_text (host.to_lower_case a) (host.to_lower_case address) ≡ true
      as_same e =
          ap (λ t. same_text t (host.to_lower_case address)) e
          ∙ same_text_self (host.to_lower_case address)

  then_do-returned :
      {A B : Type 0} (first : Result V A) (rest : A → Result V B) (b : B)
      → (then_do first rest ≡ returned b) ↔ ((a : A) × (first ≡ returned a) × (rest a ≡ returned b))
  unfolding then_do
  then_do-returned (returned a) rest b = (λ h. (a, refl, h), λ (x, e, h). ap rest (value_of e) ∙ h)
    where
      value_of : {A : Type 0} {x y : A} → ◌≡◌ {A = Result V A} (returned x) (returned y) → x ≡ y
      value_of e = cc
  then_do-returned (thrown error) rest b = (λ h. absurd (differ h), λ (x, e, h). absurd (differ e))
    where
      differ : {A : Type 0} {a : A} → ◌≡◌ {A = Result V A} (thrown error) (returned a) → ⊥
      differ e = cc

  validate_address-IsAmong :
      (address : Text)
      → (validate_address host address ≡ returned tt) ↔ IsAmong address host.accounts
  unfolding validate_address refuse
  validate_address-IsAmong address =
      elim (Bool-cases (some_account host (host.to_lower_case address) host.accounts)) [
        | inl e ↦ (λ h. (some_account-IsAmong address host.accounts).0 e, λ h. rw e refl)
        | inr e ↦ (
          λ h. absurd (refused (sym (ap checked e) ∙ h)),
          λ h. absurd (differ (sym e ∙ (some_account-IsAmong address host.accounts).1 h)),
        )
      ]
    where
      checked : Bool → Result V (Unit {0})
      checked b =
          if not b
          then refuse unauthorized (text "Address " ++ address ++ text " is not authorized")
          else returned tt

      refused : checked false ≡ returned tt → ⊥
      refused e = cc

      differ : false ≡ true → ⊥
      differ e = cc

  -- A request to sign, as both methods make it.
  signing :
      (address : Text) (read : Result V Bytes) (signature : Text)
      → (then_do (validate_address host address) (λ valid. then_do read host.sign_message)
          ≡ returned signature)
        ↔ IsSigned address read signature
  unfolding IsSigned
  signing address read signature = (
    λ h.
        let (valid, among, rest) = (then_do-returned _ _ signature).0 h in
        let (bytes, read_as, signed) = (then_do-returned read _ signature).0 rest in
        ((validate_address-IsAmong address).0 among, bytes, read_as, signed),
    λ (among, bytes, read_as, signed). (then_do-returned _ _ signature).1 (
      tt,
      (validate_address-IsAmong address).1 among,
      (then_do-returned read _ signature).1 (bytes, read_as, signed),
    ),
  )

  as_answer :
      (p : NeroProvider) (result : Result V Text) (signature : Text)
      → ((answered text_answer (unchanged p result)).result ≡ returned (text_answer signature))
        ↔ (result ≡ returned signature)
  unfolding answered unchanged then_do
  as_answer p (returned t) signature =
      (λ h. ap returned (text_of h), λ h. ap (λ r. then_do r (λ s. returned (text_answer s))) h)
    where
      text_of :
          ◌≡◌ {A = Result V (Answer V)}
            (returned (text_answer t))
            (returned (text_answer signature))
          → t ≡ signature
      text_of e = cc
  as_answer p (thrown error) signature = (λ h. cc, λ h. cc)

-- `personal_sign` and `eth_sign` answer a signature exactly when the address they name is an account
-- up to the case of its letters, the message is read as bytes (for `eth_sign` as hexadecimal digits
-- behind two characters) and the signer answers that signature for those bytes.
pub request-IsSigned :
    {V : Type 0} (host : Host V) (p : NeroProvider) (address message signature : Text)
    → (((request host p (personal_sign message address)).result ≡ returned (text_answer signature))
        ↔ IsSigned host address (message_bytes host message) signature)
      × (((request host p (eth_sign address message)).result ≡ returned (text_answer signature))
          ↔ IsSigned host address (host.hex_to_bytes (drop 2 message)) signature)
unfolding request handle_personal_sign handle_eth_sign
request-IsSigned host p address message signature = (
  both (as_answer host p _ signature) (signing host address (message_bytes host message) signature),
  both (as_answer host p _ signature)
      (signing host address (host.hex_to_bytes (drop 2 message)) signature),
)
  where
    both : {A B C : Type 0} → A ↔ B → B ↔ C → A ↔ C
    both f g = (λ a. g.0 (f.0 a), λ c. f.1 (g.1 c))
