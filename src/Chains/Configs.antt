-- ===== src/Chains/Configs.antt =====
-- The built-in chains (src/chains/configs.ts) and the type of a configuration (src/chains/types.ts).
use Prim.Native.String.{String}
use nero_mpc_sdk.Base.{ℕ, Bool, true, false, List, [], ◌∷◌, Option, none, some}
use nero_mpc_sdk.Base.Maps.{get}

pub record NativeCurrency : Type 0 where
  pub name : String
  pub symbol : String
  pub decimals : ℕ

pub record ChainConfig : Type 0 where
  pub chain_id : ℕ
  pub chain_name : String
  pub display_name : String
  pub native_currency : NativeCurrency
  pub rpc_urls : List String
  pub block_explorer_urls : Option (List String)
  pub icon_url : Option String
  pub is_testnet : Bool
  pub bundler_url : Option String
  pub paymaster_url : Option String
  pub entry_point_address : Option String
  pub simple_account_factory_address : Option String

abbrev pub nero_testnet : ChainConfig
nero_testnet = record {
  chain_id = 689;
  chain_name = "nero-testnet";
  display_name = "NERO Testnet";
  native_currency = record { name = "NERO"; symbol = "NERO"; decimals = 18 };
  rpc_urls = "https://rpc-testnet.nerochain.io" ∷ [];
  block_explorer_urls = some ("https://testnet.neroscan.io" ∷ []);
  icon_url = none;
  is_testnet = true;
  bundler_url = some "https://bundler-testnet.nerochain.io";
  paymaster_url = some "https://paymaster-testnet.nerochain.io";
  entry_point_address = some "0x5FF137D4b0FDCD49DcA30c7CF57E578a026d2789";
  simple_account_factory_address = some "0x9406Cc6185a346906296840746125a0E44976454";
}

abbrev pub nero_mainnet : ChainConfig
nero_mainnet = record {
  chain_id = 1689;
  chain_name = "nero-mainnet";
  display_name = "NERO Mainnet";
  native_currency = record { name = "NERO"; symbol = "NERO"; decimals = 18 };
  rpc_urls = "https://rpc.nerochain.io" ∷ [];
  block_explorer_urls = some ("https://neroscan.io" ∷ []);
  icon_url = none;
  is_testnet = false;
  bundler_url = some "https://bundler-mainnet.nerochain.io";
  paymaster_url = some "https://paymaster-mainnet.nerochain.io";
  entry_point_address = some "0x5FF137D4b0FDCD49DcA30c7CF57E578a026d2789";
  simple_account_factory_address = some "0x9406Cc6185a346906296840746125a0E44976454";
}

abbrev pub ethereum_mainnet : ChainConfig
ethereum_mainnet = record {
  chain_id = 1;
  chain_name = "ethereum";
  display_name = "Ethereum";
  native_currency = record { name = "Ether"; symbol = "ETH"; decimals = 18 };
  rpc_urls = "https://eth.llamarpc.com" ∷ "https://rpc.ankr.com/eth" ∷ [];
  block_explorer_urls = some ("https://etherscan.io" ∷ []);
  icon_url = none;
  is_testnet = false;
  bundler_url = none;
  paymaster_url = none;
  entry_point_address = some "0x5FF137D4b0FDCD49DcA30c7CF57E578a026d2789";
  simple_account_factory_address = none;
}

abbrev pub ethereum_sepolia : ChainConfig
ethereum_sepolia = record {
  chain_id = 11155111;
  chain_name = "sepolia";
  display_name = "Sepolia Testnet";
  native_currency = record { name = "Sepolia Ether"; symbol = "ETH"; decimals = 18 };
  rpc_urls = "https://rpc.sepolia.org" ∷ "https://rpc.ankr.com/eth_sepolia" ∷ [];
  block_explorer_urls = some ("https://sepolia.etherscan.io" ∷ []);
  icon_url = none;
  is_testnet = true;
  bundler_url = none;
  paymaster_url = none;
  entry_point_address = some "0x5FF137D4b0FDCD49DcA30c7CF57E578a026d2789";
  simple_account_factory_address = none;
}

abbrev pub polygon_mainnet : ChainConfig
polygon_mainnet = record {
  chain_id = 137;
  chain_name = "polygon";
  display_name = "Polygon";
  native_currency = record { name = "MATIC"; symbol = "MATIC"; decimals = 18 };
  rpc_urls = "https://polygon-rpc.com" ∷ "https://rpc.ankr.com/polygon" ∷ [];
  block_explorer_urls = some ("https://polygonscan.com" ∷ []);
  icon_url = none;
  is_testnet = false;
  bundler_url = none;
  paymaster_url = none;
  entry_point_address = some "0x5FF137D4b0FDCD49DcA30c7CF57E578a026d2789";
  simple_account_factory_address = none;
}

abbrev pub arbitrum_one : ChainConfig
arbitrum_one = record {
  chain_id = 42161;
  chain_name = "arbitrum";
  display_name = "Arbitrum One";
  native_currency = record { name = "Ether"; symbol = "ETH"; decimals = 18 };
  rpc_urls = "https://arb1.arbitrum.io/rpc" ∷ "https://rpc.ankr.com/arbitrum" ∷ [];
  block_explorer_urls = some ("https://arbiscan.io" ∷ []);
  icon_url = none;
  is_testnet = false;
  bundler_url = none;
  paymaster_url = none;
  entry_point_address = some "0x5FF137D4b0FDCD49DcA30c7CF57E578a026d2789";
  simple_account_factory_address = none;
}

abbrev pub base_mainnet : ChainConfig
base_mainnet = record {
  chain_id = 8453;
  chain_name = "base";
  display_name = "Base";
  native_currency = record { name = "Ether"; symbol = "ETH"; decimals = 18 };
  rpc_urls = "https://mainnet.base.org" ∷ "https://base.llamarpc.com" ∷ [];
  block_explorer_urls = some ("https://basescan.org" ∷ []);
  icon_url = none;
  is_testnet = false;
  bundler_url = none;
  paymaster_url = none;
  entry_point_address = some "0x5FF137D4b0FDCD49DcA30c7CF57E578a026d2789";
  simple_account_factory_address = none;
}

abbrev pub builtin_chains : List (ℕ × ChainConfig)
builtin_chains =
    (nero_testnet.chain_id, nero_testnet)
    ∷ (nero_mainnet.chain_id, nero_mainnet)
    ∷ (ethereum_mainnet.chain_id, ethereum_mainnet)
    ∷ (ethereum_sepolia.chain_id, ethereum_sepolia)
    ∷ (polygon_mainnet.chain_id, polygon_mainnet)
    ∷ (arbitrum_one.chain_id, arbitrum_one)
    ∷ (base_mainnet.chain_id, base_mainnet)
    ∷ []

unfoldable pub get_chain_config : ℕ → Option ChainConfig
unfolding get
get_chain_config chain_id = get chain_id builtin_chains
