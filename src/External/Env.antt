-- ===== src/External/Env.antt =====
-- src/utils/constant/env.ts. `process.env` and `Address.parse` are parameters; the address is kept in
-- its raw form.
use vnst_be.Base.{ℕ, Bool, Option, some, Text, txt, option_text_eq, option_truthy, if◌then◌else◌}
use vnst_be.Schema.Chains.{Network, bnb, ton}

pub record Env : Type 0 where
  pub node_env : Option Text
  pub mongo_url : Option Text
  pub port : Option Text
  pub is_production : Bool
  pub jwt_secret_key : Option Text
  pub redis_port : ℕ
  pub redis_host : Option Text
  pub redis_password : Option Text
  pub redis_user_name : Option Text
  pub end_point_nami : Option Text
  pub mailgun_api_key : Option Text
  pub mailgun_domain : Option Text
  pub email_from : Option Text
  pub api_key_bsc : Option Text
  pub address_smart_contract : Option Text
  pub bsc_tx_link : Option Text
  pub ton_tx_link : Option Text
  pub is_mainnet : Bool
  pub ton_smc_address : Text

-- `to_number` is `Number`, `parse_address` the raw form of `Address.parse`.
unfoldable pub load_env : (Text → Option Text) → (Option Text → ℕ) → (Option Text → Text) → Env
load_env get to_number parse_address = record {
  node_env = get (txt "NODE_ENV");
  mongo_url = get (txt "MONGO_URL");
  port = get (txt "PORT");
  is_production = option_text_eq (get (txt "NODE_ENV")) (some (txt "production"));
  jwt_secret_key = get (txt "JWT_SECRET_KEY");
  redis_port =
      if option_truthy (get (txt "REDIS_PORT")) then to_number (get (txt "REDIS_PORT")) else 6379;
  redis_host = get (txt "REDIS_HOST");
  redis_password = get (txt "REDIS_PASSWORD");
  redis_user_name = get (txt "REDIS_USER_NAME");
  end_point_nami = get (txt "END_POINT_NAMI");
  mailgun_api_key = get (txt "MAILGUN_API_KEY");
  mailgun_domain = get (txt "MAILGUN_DOMAIN");
  email_from = get (txt "EMAIL_FROM");
  api_key_bsc = get (txt "API_KEY_BSC");
  address_smart_contract = get (txt "ADDRESS_SMART_CONTRACT");
  bsc_tx_link = get (txt "BSC_TX_LINK");
  ton_tx_link = get (txt "TON_TX_LINK");
  is_mainnet = option_text_eq (get (txt "IS_MAINNET")) (some (txt "true"));
  ton_smc_address = parse_address (get (txt "TON_SMC_ADDRESS"));
}

-- `network === NETWORK.TON ? env.TON_TX_LINK : env.BSC_TX_LINK`.
abbrev pub tx_link : Env → Network → Option Text
tx_link env ton = env.ton_tx_link
tx_link env bnb = env.bsc_tx_link
