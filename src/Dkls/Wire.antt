-- ===== src/Dkls/Wire.antt =====
-- What the parties send each other, as texts: the serialisations of
-- src/protocols/dkls/oblivious-transfer.ts and src/protocols/dkls/mta-protocol.ts.
use nero_mpc_sdk.Base.{◌≡◌, ◌≢◌, refl, List, [], ◌∷◌, All, true}
use nero_mpc_sdk.Base.Throws.{Throws, ok, ◌>>=◌, or_throw}
use nero_mpc_sdk.Hex.{Text}
use nero_mpc_sdk.Noble.{Noble, Lawful, IsByte}
use nero_mpc_sdk.Dkls.Ot.{OtSenderEncrypted}

pub record EncryptedText : Type 0 where
  pub e0 : Text
  pub e1 : Text

module _ (lib : Noble) where
  open lib use {Point, to_hex, from_hex, bytes_to_hex, hex_to_bytes}

  abbrev pub IsFinite : Point → Type 0
  IsFinite p = p ≢ lib.infinity

  abbrev pub IsBytes : OtSenderEncrypted lib → Type 0
  IsBytes m = All IsByte m.e0 × All IsByte m.e1

  unfoldable pub serialize_batch_cot_setup : List Point → Throws (List Text)
  serialize_batch_cot_setup [] = ok []
  serialize_batch_cot_setup (p ∷ setups) = do
    a ← or_throw (to_hex true p) "toHex"
    rest ← serialize_batch_cot_setup setups
    ok (a ∷ rest)

  unfoldable pub deserialize_batch_cot_setup : List Text → Throws (List Point)
  deserialize_batch_cot_setup [] = ok []
  deserialize_batch_cot_setup (a ∷ setups) = do
    p ← or_throw (from_hex a) "fromHex"
    rest ← deserialize_batch_cot_setup setups
    ok (p ∷ rest)

  unfoldable pub serialize_batch_cot_response : List Point → Throws (List Text)
  unfolding serialize_batch_cot_setup
  serialize_batch_cot_response responses = serialize_batch_cot_setup responses

  unfoldable pub deserialize_batch_cot_response : List Text → Throws (List Point)
  unfolding deserialize_batch_cot_setup
  deserialize_batch_cot_response responses = deserialize_batch_cot_setup responses

  unfoldable pub serialize_batch_cot_encrypted : List (OtSenderEncrypted lib) → List EncryptedText
  serialize_batch_cot_encrypted [] = []
  serialize_batch_cot_encrypted (m ∷ encrypted) =
      record { e0 = bytes_to_hex m.e0; e1 = bytes_to_hex m.e1 }
      ∷ serialize_batch_cot_encrypted encrypted

  unfoldable pub deserialize_batch_cot_encrypted :
      List EncryptedText → Throws (List (OtSenderEncrypted lib))
  deserialize_batch_cot_encrypted [] = ok []
  deserialize_batch_cot_encrypted (m ∷ encrypted) = do
    e0 ← or_throw (hex_to_bytes m.e0) "hexToBytes"
    e1 ← or_throw (hex_to_bytes m.e1) "hexToBytes"
    rest ← deserialize_batch_cot_encrypted encrypted
    ok (record { e0 = e0; e1 = e1 } ∷ rest)

module _ (lib : Noble) (laws : Lawful lib) where
  -- Points other than the one at infinity survive the wire.
  pub setup_round_trip :
      (ps : List lib.Point)
      → All (IsFinite lib) ps
      → (hs : List Text) × (serialize_batch_cot_setup lib ps ≡ ok hs)
        × (deserialize_batch_cot_setup lib hs ≡ ok ps)
  unfolding serialize_batch_cot_setup deserialize_batch_cot_setup
  setup_round_trip [] h = ([], refl, refl)
  setup_round_trip (p ∷ ps) (f, h) =
      let (a, written, read) = laws.to_hex_finite true p f in
      let (hs, all_written, all_read) = setup_round_trip ps h in
      (a ∷ hs, rw (written, all_written), rw (read, all_read))

  pub response_round_trip :
      (ps : List lib.Point)
      → All (IsFinite lib) ps
      → (hs : List Text) × (serialize_batch_cot_response lib ps ≡ ok hs)
        × (deserialize_batch_cot_response lib hs ≡ ok ps)
  unfolding serialize_batch_cot_response deserialize_batch_cot_response
  response_round_trip ps h = setup_round_trip ps h

  pub encrypted_round_trip :
      (ms : List (OtSenderEncrypted lib))
      → All (IsBytes lib) ms
      → deserialize_batch_cot_encrypted lib (serialize_batch_cot_encrypted lib ms) ≡ ok ms
  unfolding serialize_batch_cot_encrypted deserialize_batch_cot_encrypted
  encrypted_round_trip [] h = refl
  encrypted_round_trip (m ∷ ms) ((h0, h1), h) = rw (
    laws.hex_to_bytes-bytes_to_hex m.e0 h0,
    laws.hex_to_bytes-bytes_to_hex m.e1 h1,
    encrypted_round_trip ms h,
  )
