-- ===== src/Dkls/Client.antt =====
-- The client of the two-party protocol (src/protocols/dkls/dkls-client.ts): its state, the stored key
-- share, and key generation. The backend's answers are functions; drawn scalars are arguments. The
-- entry "dkls_key_share" of the storage is part of the state: the storage keeps what it is given.
pub mod Honest
pub mod Sign
mod Tests
use Prim.Native.String.{String}
use nero_mpc_sdk.Base.{ℕ, Bool, true, false, if◌then◌else◌, List, [], ◌∷◌, Option, none, some}
use nero_mpc_sdk.Base.Throws.{Throws, ok, throw, or_throw}
use nero_mpc_sdk.Base.Steps.{Steps, continue, ◌>>=◌, ◌>>◌, call, return, update, read, finally}
use nero_mpc_sdk.Bigint.{ℤ}
use nero_mpc_sdk.Hex.{Text, Bytes, is_empty}
use nero_mpc_sdk.Noble.{Noble}
use nero_mpc_sdk.Dkls.Address.{derive_ethereum_address}
use nero_mpc_sdk.Dkls.Keygen.{
  KeyShare, KeygenCommitment, KeygenPublicShare, KeygenClientState, keygen_init_client,
  keygen_process_backend_commitment, keygen_generate_reveal, keygen_complete,
}
use nero_mpc_sdk.Dkls.Signing.{SigningClientState, MtaClientState}

-- The JSON of the entry: a share with its session, a share alone as older versions wrote it, or a
-- text that is no JSON.
pub data Stored : Type 0 where
  with_session : KeyShare → Text → Stored
  bare : KeyShare → Stored
  unreadable : Stored

-- An entry whose session is the empty text is taken for a share alone, which has none of its fields.
unfoldable pub hollow : KeyShare
hollow = record { party_id = 0; secret_share = []; public_share = []; joint_public_key = [] }

pub record KeygenApi : Type 0 where
  pub keygen_init : Throws (Text × KeygenCommitment)
  pub keygen_commitment : Text → KeygenCommitment → Throws KeygenPublicShare
  pub keygen_complete : Text → KeygenPublicShare → Throws Text

pub record KeygenResult : Type 0 where
  pub wallet_address : Text
  pub joint_public_key : Text

module _ (lib : Noble) where
  pub record DklsClient : Type 0 where
    pub keygen_state : Option (KeygenClientState lib)
    pub signing_state : Option (SigningClientState lib)
    pub mta_state : Option (MtaClientState lib)
    pub key_share : Option KeyShare
    pub dkg_session_id : Option Text
    pub stored : Option Stored

  unfoldable pub new_dkls_client : Option Stored → DklsClient
  new_dkls_client stored = record {
    keygen_state = none;
    signing_state = none;
    mta_state = none;
    key_share = none;
    dkg_session_id = none;
    stored = stored;
  }

  unfoldable pub take_entry : Option Stored → DklsClient → DklsClient × Option KeyShare
  take_entry none client = (client, none)
  take_entry (some Stored.unreadable) client = (client, none)
  take_entry (some (Stored.bare share)) client =
      (record client { key_share = some share; dkg_session_id = none }, some share)
  take_entry (some (Stored.with_session share session)) client =
      if is_empty session
      then (record client { key_share = some hollow; dkg_session_id = none }, some hollow)
      else (record client { key_share = some share; dkg_session_id = some session }, some share)

  unfoldable pub load_dkls_key_share : DklsClient → DklsClient × Option KeyShare
  load_dkls_key_share client = take_entry client.stored client

  unfoldable pub save_key_share : KeyShare → Text → DklsClient → DklsClient
  save_key_share share session client = record client {
    stored = some (Stored.with_session share session);
    key_share = some share;
    dkg_session_id = some session;
  }

  unfoldable pub clear_key_share : DklsClient → DklsClient
  clear_key_share client = record client { stored = none; key_share = none; dkg_session_id = none }

  unfoldable pub has_dkls_key_share : DklsClient → Bool
  has_dkls_key_share client = is_some (load_dkls_key_share client).1
    where
      is_some : Option KeyShare → Bool
      is_some none = false
      is_some (some share) = true

  unfoldable pub as_present : Throws Text → Throws (Option Text)
  as_present (ok address) = ok (some address)
  as_present (throw error) = throw error

  unfoldable pub address_of : (Bytes → Bytes) → Option KeyShare → Throws (Option Text)
  address_of keccak_256 none = ok none
  address_of keccak_256 (some share) =
      as_present (derive_ethereum_address lib keccak_256 share.joint_public_key)

  -- The first argument is keccak_256.
  unfoldable pub get_wallet_address : (Bytes → Bytes) → Steps DklsClient (Option Text)
  get_wallet_address keccak_256 client =
      let (next, share) = load_dkls_key_share client in (next, address_of keccak_256 share)

  -- `completeResult.walletAddress || walletAddress`.
  unfoldable pub or_derived : Text → Text → Text
  or_derived answered derived = if is_empty answered then derived else answered

  -- The first argument is keccak_256; the scalars are the secret share and the nonce of the proof.
  unfoldable pub keygen_steps : (Bytes → Bytes) → ℤ → ℤ → KeygenApi → Steps DklsClient KeygenResult
  keygen_steps keccak_256 secret k api = do
    (state, commitment) ← call (keygen_init_client lib secret)
    update (λ c. record c { keygen_state = some state })
    (session_id, backend_commitment) ← call api.keygen_init
    committed ← call (keygen_process_backend_commitment lib state backend_commitment)
    update (λ c. record c { keygen_state = some committed })
    client_reveal ← call (keygen_generate_reveal lib k committed)
    backend_public_share ← call (api.keygen_commitment session_id commitment)
    key_share ← call (keygen_complete lib committed backend_public_share)
    answered ← call (api.keygen_complete session_id client_reveal)
    update (save_key_share key_share session_id)
    derived ← call (derive_ethereum_address lib keccak_256 key_share.joint_public_key)
    return (record {
      wallet_address = or_derived answered derived;
      joint_public_key = key_share.joint_public_key;
    })

  -- The error that is thrown keeps the message; the key generation's state is dropped in any case.
  unfoldable pub execute_keygen :
      (Bytes → Bytes) → ℤ → ℤ → KeygenApi → Steps DklsClient KeygenResult
  execute_keygen keccak_256 secret k api =
      finally (keygen_steps keccak_256 secret k api) (λ c. record c { keygen_state = none })
