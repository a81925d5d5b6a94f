-- ===== src/Settings.antt =====
-- The settings of config.py that the modelled code reads.
pub mod Database
use leaf_flow_chat.Prelude.{ℕ, String, Option, none}

-- "hs256" and "jwks"
pub data VerifyMode : Type 0 where
  hs256 jwks : VerifyMode

pub record Settings : Type 0 where
  pub outbox_batch_size : ℕ
  pub outbox_max_attempts : ℕ
  pub redis_pubsub_channel : String
  pub jwt_secret : String
  pub jwt_verify_mode : VerifyMode
  pub jwt_algorithm : String
  pub jwks_url : Option String

-- the defaults
abbrev pub defaults : Settings
defaults = record {
  outbox_batch_size = 50;
  outbox_max_attempts = 5;
  redis_pubsub_channel = "chat.fanout";
  jwt_secret = "";
  jwt_verify_mode = hs256;
  jwt_algorithm = "HS256";
  jwks_url = none;
}
