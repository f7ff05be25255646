-- ===== src/Dkls/Signing/Tests.antt =====
-- Signing in the group of seven elements.
use nero_mpc_sdk.Base.{ℕ, ◌<◌, ◌≡◌, refl, arith, true, [], ◌∷◌, none, some}
use nero_mpc_sdk.Base.Throws.{ok}
use nero_mpc_sdk.Bigint.{pos, ◌+ℤ◌, ◌*ℤ◌, residue}
use nero_mpc_sdk.Hex.{scalar_to_hex}
use nero_mpc_sdk.Noble.{scale}
use nero_mpc_sdk.Noble.Toy.{toy, toy_laws}
use nero_mpc_sdk.Dkls.Sample.{sample_draws, sample_draws-IsGood, sample_hash, sample_committed}
use nero_mpc_sdk.Dkls.Keygen.{KeyShare, commit_to_point}
use nero_mpc_sdk.Dkls.Signing.{SigningClientState, NonceReveal, signing_process_backend_nonce}
use nero_mpc_sdk.Dkls.Signing.Laws.{signing_exchange, signing_exchange_completes}
use nero_mpc_sdk.Dkls.Signing.Nonce.{
  Agreed, signing_process_backend_nonce-Agreed, message_text, nonce_run, nonce_run_completes,
}

abbrev key_share : KeyShare
key_share = record {
  party_id = 1;
  secret_share = scalar_to_hex (pos 5);
  public_share = 5 ∷ [];
  joint_public_key = 1 ∷ [];
}

abbrev stored : SigningClientState toy
stored = record {
  party_id = 1;
  key_share = key_share;
  message_hash = pos 6;
  message_hash_bytes = 6 ∷ [];
  nonce_share = pos 3;
  nonce_public = scale toy (pos 3) toy.base;
  nonce_commitment = sample_hash;
  peer_nonce_commitment = some sample_hash;
  peer_nonce_public = none;
  combined_nonce = none;
  r_value = none;
}

abbrev reveal : NonceReveal
reveal = record { party_id = 2; nonce_public = 3 ∷ [] }

-- Both nonces are 3, so that the combined one is 9 * G, the point 2.
abbrev agreed : SigningClientState toy
agreed = record stored {
  peer_nonce_public = some (scale toy (pos 3) toy.base);
  combined_nonce = toy.multiply (scale toy (pos 3) toy.base) (pos 3);
  r_value = some (pos 2);
}

process_accepts : signing_process_backend_nonce toy stored reveal ≡ ok agreed
unfolding signing_process_backend_nonce commit_to_point scale residue
    nero_mpc_sdk.Dkls.Keygen.verify_commitment nero_mpc_sdk.Dkls.Keygen.same_bytes
    nero_mpc_sdk.Noble.times nero_mpc_sdk.Modular.mod_once nero_mpc_sdk.Bigint.tmod
process_accepts = refl

signing_process_backend_nonce-Agreed_example : Agreed toy stored reveal agreed
signing_process_backend_nonce-Agreed_example =
    signing_process_backend_nonce-Agreed toy toy_laws stored reveal agreed process_accepts

nonce_run_completes_example :
    (state : SigningClientState toy) × (nonce_run toy
        (pos 2)
        key_share
        (message_text true 6)
        (toy.bytes_to_hex sample_hash)
        (3 ∷ [])
      ≡ ok state)
    × (state.key_share ≡ key_share)
    × (state.message_hash ≡ pos 6)
    × (state.nonce_share ≡ pos 2)
    × (state.combined_nonce ≡ some (scale toy (pos 2 *ℤ pos 3) toy.base))
    × (state.r_value
        ≡ some (pos (residue toy.order (pos (toy.affine_x (scale toy (pos 2 *ℤ pos 3) toy.base))))))
unfolding scale nero_mpc_sdk.Noble.times residue
nonce_run_completes_example =
    nonce_run_completes toy toy_laws 2 3 6 true key_share sample_hash (3 ∷ []) (omega arith)
      (omega arith) (omega arith) sample_committed refl

-- The backend's nonce is 2, with inverse 4, and its key share 3.
signing_exchange_completes_example :
    (s_a : ℕ) × (y1 : ℕ) × (y2 : ℕ) × (signing_exchange toy sample_draws sample_draws "mta_1"
        "mta_2" agreed
        (pos 4)
        (pos 5)
      ≡ ok (record { party_id = 1; s = scalar_to_hex (pos s_a) }, pos y1, pos y2))
    × (s_a < 7)
    × (residue 7 ((pos s_a +ℤ (pos 6 *ℤ pos y1 +ℤ pos 2 *ℤ pos y2)) *ℤ (pos 3 *ℤ pos 2))
        ≡ residue 7 (pos 6 +ℤ pos 2 *ℤ (pos 5 *ℤ pos 3)))
unfolding residue ◌*ℤ◌
signing_exchange_completes_example =
    signing_exchange_completes toy toy_laws sample_draws sample_draws "mta_1" "mta_2" agreed 3 2 5 3
      2 4 5 (pos 6) (omega arith) refl refl refl refl (omega arith) refl refl
      (sample_draws-IsGood 4) (sample_draws-IsGood 5) (omega arith) (omega arith)
