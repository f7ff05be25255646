-- ===== src/Dkg/Client.antt =====
-- The client of a key generation by polynomials (src/protocols/dkg/dkg-client.ts). The backend's
-- answers are the functions of `DkgApi`; what the code draws at random is the record `DkgDraws`. The
-- maps of the session's state, which nothing reads or writes, are left out.
pub mod Share
pub mod Honest
pub mod Inversion
pub mod Laws
mod Tests
use mathlib.Core.Option
use Prim.Native.String.{String}
use nero_mpc_sdk.Base.{
  ℕ, Bool, true, false, not, if◌then◌else◌, List, [], ◌∷◌, Option, none, some, ◌==◌,
}
use nero_mpc_sdk.Base.Throws.{Throws, ok, throw, or_throw, throw_if}
use nero_mpc_sdk.Base.Steps.{Steps, continue, ◌>>=◌, ◌>>◌, call, return, update, read}
use nero_mpc_sdk.Base.Maps.{get, set}
use nero_mpc_sdk.Bigint.{ℤ, pos, beq_ℤ}
use nero_mpc_sdk.Hex.{Text, Bytes, text, scalar_to_hex}
use nero_mpc_sdk.Noble.{Noble}
use nero_mpc_sdk.Dkg.{
  generate_polynomial, evaluate_polynomial, verify_vsss_commitment, aggregate_shares,
}
use nero_mpc_sdk.Dkg.Commitments.{
  KnowledgeProof, VsssCommitment, verify_proof_of_knowledge, create_vsss_commitments,
  combine_vsss_commitments,
}
use nero_mpc_sdk.Dkg.Exchange.{
  Webcrypto, EncryptedShare, DecryptedShare, EphemeralKeyPair, generate_ephemeral_key_pair,
  encrypt_share, decrypt_share,
}

-- The rounds that the client enters.
pub data DkgRound : Type 0 where
  commitment : DkgRound
  complete : DkgRound

pub record DkgSessionState : Type 0 where
  pub session_id : Text
  pub round : DkgRound
  pub party_id : ℕ
  pub participant_count : ℕ
  pub threshold : ℕ
  pub private_share : Option ℤ
  pub public_key : Option Text
  pub backend_share : Option Text

pub record DkgClient : Type 0 where
  pub state : Option DkgSessionState
  pub polynomial : List ℤ
  pub ephemeral_key_pair : Option EphemeralKeyPair
  pub received_commitments : List (ℕ × VsssCommitment)
  pub received_shares : List (ℕ × ℤ)

unfoldable pub new_dkg_client : DkgClient
new_dkg_client = record {
  state = none;
  polynomial = [];
  ephemeral_key_pair = none;
  received_commitments = [];
  received_shares = [];
}

pub record DkgInit : Type 0 where
  pub session_id : Text
  pub backend_commitment : VsssCommitment
  pub ephemeral_public_key : Text

-- The client's commitment with the public key of its ephemeral pair.
pub record CommitmentMessage : Type 0 where
  pub vsss : VsssCommitment
  pub public_key : Text

pub record ShareAnswer : Type 0 where
  pub wallet_address : Text
  pub backend_share : Text

-- The three requests of `apiClient.dkg`; `throw` is a rejection.
pub record DkgApi : Type 0 where
  pub initiate : Throws DkgInit
  pub submit_commitment : Text → CommitmentMessage → Throws EncryptedShare
  pub submit_share : Text → EncryptedShare → Throws ShareAnswer

pub record DkgDraws : Type 0 where
  pub coefficient : ℕ → ℤ
  pub ephemeral_bytes : Bytes
  pub knowledge_nonce : ℤ
  pub share_key_bytes : Bytes
  pub share_nonce : Bytes

pub data DkgResult : Type 0 where
  success : (public_key wallet_address : Text) (party_id : ℕ) → DkgResult
  failure : (error : String) → DkgResult

-- `commitments[0]`, whose use throws where it is undefined.
unfoldable pub first_commitment : List Text → Throws Text
first_commitment [] = throw "fromHex"
first_commitment (first ∷ rest) = ok first

unfoldable pub opened_state : Text → DkgSessionState
opened_state session_id = record {
  session_id = session_id;
  round = DkgRound.commitment;
  party_id = 1;
  participant_count = 2;
  threshold = 2;
  private_share = none;
  public_key = none;
  backend_share = none;
}

unfoldable pub completed_state : ℤ → Text → Text → DkgSessionState → DkgSessionState
completed_state final_share public_key backend_share state = record state {
  round = DkgRound.complete;
  private_share = some final_share;
  public_key = some public_key;
  backend_share = some backend_share;
}

-- `this.receivedCommitments.set` and `this.receivedShares.set`.
unfoldable pub receive_commitment : ℕ → VsssCommitment → DkgClient → DkgClient
receive_commitment party value client = record client {
  received_commitments = set party value client.received_commitments;
}

unfoldable pub receive_share : ℕ → ℤ → DkgClient → DkgClient
receive_share party value client = record client {
  received_shares = set party value client.received_shares;
}

-- The values of a map in the order of insertion.
unfoldable pub values : {V : Type 0} → List (ℕ × V) → List V
values [] = []
values (entry ∷ entries) = entry.1 ∷ values entries

module _ (lib : Noble) (web : Webcrypto) where
  open lib use {base, multiply, to_hex, sha256, bytes_to_hex, hex_to_bytes}

  -- `backendVsss && !verifyVSSSCommitment(backendVsss, share, partyId)`, negated.
  unfoldable pub share_accepted : Option VsssCommitment → ℤ → Throws Bool
  share_accepted none share = ok true
  share_accepted (some vsss) share = verify_vsss_commitment lib vsss.coefficient_commitments share 1

  -- Step 1: the session, the client's secrets, and the backend's proof of knowledge.
  unfoldable pub initiate_step : DkgDraws → DkgApi → Steps DkgClient (DkgInit × EphemeralKeyPair)
  initiate_step draws api = do
    init ← call api.initiate
    update (λ c. record c { state = some (opened_state init.session_id) })
    polynomial ← call (generate_polynomial draws.coefficient (pos 1))
    update (λ c. record c { polynomial = polynomial })
    pair ← call (generate_ephemeral_key_pair lib draws.ephemeral_bytes)
    update (λ c. record c { ephemeral_key_pair = some pair })
    first ← call (first_commitment init.backend_commitment.coefficient_commitments)
    accepted ← call (
        verify_proof_of_knowledge lib init.backend_commitment.proof_of_knowledge
          init.backend_commitment.party_id first)
    call (throw_if (not accepted) "Invalid proof of knowledge from backend")
    update (receive_commitment init.backend_commitment.party_id init.backend_commitment)
    return (init, pair)

  -- Step 2: the client's commitment against the backend's encrypted share, which is checked.
  unfoldable pub commit_step :
      DkgDraws → DkgApi → DkgInit → EphemeralKeyPair → Steps DkgClient (Unit {0})
  commit_step draws api init pair = do
    polynomial ← read (λ c. c.polynomial)
    vsss ← call (create_vsss_commitments lib draws.knowledge_nonce 1 polynomial)
    update (receive_commitment 1 vsss)
    sealed ← call (
        api.submit_commitment init.session_id
          (record { vsss = vsss; public_key = pair.public_key }))
    decrypted ← call (decrypt_share lib web sealed pair.private_key)
    received ← read (λ c. c.received_commitments)
    accepted ← call (share_accepted (get init.backend_commitment.party_id received) decrypted.share)
    call (throw_if (not accepted) "Invalid share from backend")
    update (receive_share init.backend_commitment.party_id decrypted.share)
    update (receive_share 1 (evaluate_polynomial lib polynomial (pos 1)))

  -- Step 3: the client's share for the backend, and the results.
  unfoldable pub share_step : DkgDraws → DkgApi → DkgInit → Steps DkgClient (Text × Text)
  share_step draws api init = do
    polynomial ← read (λ c. c.polynomial)
    let party = init.backend_commitment.party_id
    encrypted ← call (
        encrypt_share lib web draws.share_key_bytes draws.share_nonce
          (evaluate_polynomial lib polynomial (pos party)) 1 party init.ephemeral_public_key)
    answer ← call (api.submit_share init.session_id encrypted)
    shares ← read (λ c. c.received_shares)
    received ← read (λ c. c.received_commitments)
    public_key ← call (combine_vsss_commitments lib (values received))
    update (λ c. record c {
      state =
          Option.map
            (completed_state (aggregate_shares lib (values shares) (pos 0)) public_key
              answer.backend_share)
            c.state;
    })
    return (public_key, answer.wallet_address)

  unfoldable pub execute_steps : DkgDraws → DkgApi → Steps DkgClient (Text × Text)
  execute_steps draws api = do
    (init, pair) ← initiate_step draws api
    commit_step draws api init pair
    share_step draws api init

  -- `try { … } catch`.
  unfoldable pub dkg_result : Throws (Text × Text) → DkgResult
  dkg_result (ok (public_key, wallet_address)) = DkgResult.success public_key wallet_address 1
  dkg_result (throw message) = DkgResult.failure message

  unfoldable pub execute : DkgDraws → DkgApi → DkgClient → DkgClient × DkgResult
  execute draws api client =
      let (after, result) = execute_steps draws api client in (after, dkg_result result)
