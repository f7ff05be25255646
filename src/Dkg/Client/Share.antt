-- ===== src/Dkg/Client/Share.antt =====
-- What the client hands out after a key generation (src/protocols/dkg/dkg-client.ts).
use nero_mpc_sdk.Base.{ℕ, true, if◌then◌else◌, List, [], ◌∷◌, Option, none, some}
use nero_mpc_sdk.Base.Throws.{Throws, ok, ◌>>=◌, or_throw}
use nero_mpc_sdk.Base.Maps.{set}
use nero_mpc_sdk.Bigint.{ℤ, pos, beq_ℤ}
use nero_mpc_sdk.Hex.{Text, text, scalar_to_hex}
use nero_mpc_sdk.Noble.{Noble}
use nero_mpc_sdk.Dkg.Commitments.{VsssCommitment}
use nero_mpc_sdk.Dkg.Client.{DkgSessionState, DkgClient, new_dkg_client}

pub record DkgKeyShare : Type 0 where
  pub party_id : ℕ
  pub private_share : Text
  pub public_share : Text
  pub commitment : Text
  pub threshold : ℕ
  pub total_parties : ℕ
  pub protocol_version : Text

unfoldable pub protocol_version : Text
protocol_version = text "pedersen-dkg-v2"

module _ (lib : Noble) where
  open lib use {base, multiply, to_hex, sha256, bytes_to_hex, hex_to_bytes}

  unfoldable pub compute_share_commitment : ℤ → Throws Text
  compute_share_commitment share = do
    bytes ← or_throw (hex_to_bytes (scalar_to_hex share)) "hexToBytes"
    ok (bytes_to_hex (sha256 bytes))

  unfoldable pub key_share_of : DkgSessionState → ℤ → Throws (Option DkgKeyShare)
  key_share_of state share = do
    point ← or_throw (multiply base share) "multiply"
    public_share ← or_throw (to_hex true point) "toHex"
    commitment ← compute_share_commitment share
    ok (
        some (record {
          party_id = state.party_id;
          private_share = scalar_to_hex share;
          public_share = public_share;
          commitment = commitment;
          threshold = state.threshold;
          total_parties = state.participant_count;
          protocol_version = protocol_version;
        }))

  -- A private share that is missing, or 0n, counts as none.
  unfoldable pub share_if_any : DkgSessionState → Option ℤ → Throws (Option DkgKeyShare)
  share_if_any state none = ok none
  share_if_any state (some share) =
      let found = key_share_of state share in if beq_ℤ share (pos 0) then ok none else found

  unfoldable pub dkg_key_share : Option DkgSessionState → Throws (Option DkgKeyShare)
  dkg_key_share none = ok none
  dkg_key_share (some state) = share_if_any state state.private_share

unfoldable pub get_backend_share : Option DkgSessionState → Option Text
get_backend_share none = none
get_backend_share (some state) = state.backend_share

unfoldable pub public_shares_loop : List (ℕ × VsssCommitment) → List (ℕ × Text) → List (ℕ × Text)
public_shares_loop [] shares = shares
public_shares_loop ((party_id, vsss) ∷ received) shares =
    public_shares_loop received (with_first party_id vsss.coefficient_commitments shares)
  where
    with_first : ℕ → List Text → List (ℕ × Text) → List (ℕ × Text)
    with_first party [] shares = shares
    with_first party (first ∷ rest) shares = set party first shares

unfoldable pub dkg_party_public_shares : DkgClient → List (ℕ × Text)
dkg_party_public_shares client = public_shares_loop client.received_commitments []

unfoldable pub cleanup : DkgClient → DkgClient
cleanup client = new_dkg_client
