-- ===== src/Client/Storage/Tests.antt =====
-- A share stored and deleted with a cipher that leaves its text as it is.
use nero_mpc_sdk.Base.{
  ℕ, zero, suc, ◌<◌, ◌≡◌, ◌≢◌, refl, sym, ap, ◌∙◌, arith, [], ◌∷◌, Option, none, some, length,
  replicate, All,
}
use nero_mpc_sdk.Base.Throws.{ok}
use nero_mpc_sdk.Hex.{Bytes}
use nero_mpc_sdk.Noble.{IsByte}
use nero_mpc_sdk.Noble.Toy.{toy, toy_laws}
use nero_mpc_sdk.Dkg.Exchange.Toy.{toy_web, toy-Sealing}
use nero_mpc_sdk.Client.Keys.{
  ClientKeyShare, KeyManager, store_key_share, delete_key_share, get_key_share,
}
use nero_mpc_sdk.Client.Storage.Secure.{ShareJson, hash_sha256, secure_storage}
use nero_mpc_sdk.Client.Storage.Laws.{reopened, IsVault, store_then_delete}

abbrev own_share : ClientKeyShare
own_share = record {
  party_id = 1;
  private_share = "aa";
  public_share = "bb";
  commitment = "cc";
  threshold = 2;
  total_parties = 2;
  protocol_version = "pedersen-dkg-v1";
}

abbrev one_json : ShareJson
one_json = record {
  write_share = λ share. 123 ∷ 125 ∷ [];
  read_share = λ s. some own_share;
  write_parties = λ shares. [];
  read_parties = λ s. none;
}

abbrev stretch : Bytes → Bytes → Bytes
stretch password salt = replicate 32 (length password)

abbrev fixed_draws : ℕ → Bytes × Bytes
fixed_draws n = (5 ∷ [], 6 ∷ [])

one-IsVault : IsVault toy toy_web stretch one_json fixed_draws own_share
one-IsVault = record {
  length-pbkdf2 = λ password salt. refl;
  read-write = refl;
  written_bytes = (omega arith, (omega arith, tt));
  decode-written = refl;
  drawn_bytes = λ n. ((omega arith, tt), (omega arith, tt));
}

abbrev owner : KeyManager (secure_storage toy toy_web stretch one_json fixed_draws)
owner = record {
  store = record { memory = record { store = []; prefix = [] }; device_key = 9 ∷ []; drawn = 0 };
  current_user_id = some (7 ∷ []);
  cached_key_share = none;
  cached_party_shares = none;
}

first_byte : Option Bytes → ℕ
first_byte none = 0
first_byte (some []) = 0
first_byte (some (b ∷ bytes)) = b

all_bytes : (n b : ℕ) → b < 256 → All IsByte (replicate n b)
all_bytes zero b h = tt
all_bytes (suc n) b h = (h, all_bytes n b h)

hashes_differ :
    hash_sha256 toy toy_web stretch one_json fixed_draws (7 ∷ 8 ∷ [])
    ≢ hash_sha256 toy toy_web stretch one_json fixed_draws (7 ∷ [])
unfolding hash_sha256 first_byte
hashes_differ e =
    let bytes : ◌≡◌ {A = Option Bytes} (some (replicate 32 2)) (some (replicate 32 1)) =
      sym (toy_laws.hex_to_bytes-bytes_to_hex (replicate 32 2) (all_bytes 32 2 (omega arith)))
      ∙ ap toy.hex_to_bytes e
      ∙ toy_laws.hex_to_bytes-bytes_to_hex (replicate 32 1) (all_bytes 32 1 (omega arith)) in
    let two_is_one : ◌≡◌ {A = ℕ} 2 1 = ap first_byte bytes in omega arith

store_then_delete_example :
    let vault = secure_storage toy toy_web stretch one_json fixed_draws in
    (next : KeyManager vault) × (gone : KeyManager vault) × (store_key_share vault own_share owner
      ≡ (next, ok tt))
    × (reopened vault (7 ∷ []) next.store ≡ ok (some own_share))
    × (reopened vault (7 ∷ 8 ∷ []) next.store ≡ reopened vault (7 ∷ 8 ∷ []) owner.store)
    × (delete_key_share vault next ≡ (gone, ok tt))
    × (reopened vault (7 ∷ []) gone.store ≡ ok none)
    × ((get_key_share vault gone).1 ≡ ok none)
store_then_delete_example =
    store_then_delete toy toy_laws toy_web toy-Sealing stretch one_json fixed_draws own_share
      one-IsVault 7 [] (7 ∷ 8 ∷ []) owner refl hashes_differ
