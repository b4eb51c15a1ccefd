-- ===== src/Config.antt =====
-- internal/config/config.go: the configuration as the rest of the program reads it, after the YAML
-- decoder (a library that is not part of the repository) has filled it in.
pub mod Priorities
pub mod Checks
pub mod Schema
pub mod Valid
pub mod Load
mod Examples
use local_router.Prelude.{String, Bool, Option, List}
use local_router.Prelude.Int.{ℤ}
use local_router.Prelude.Time.{Duration}
use local_router.Provider.{Float64}

pub record LimitEntry : Type 0 where
  pub requests : ℤ
  pub window : String
  pub concurrent_requests : ℤ
  pub window_dur : Duration

pub record ModelConfig : Type 0 where
  pub id : String
  pub priority : ℤ
  pub is_free : Bool
  pub api_key : String
  pub limits : List LimitEntry
  pub temperature : Option Float64
  pub top_p : Option Float64
  pub max_tokens : Option ℤ
  pub seed : Option ℤ

pub record ProviderConfig : Type 0 where
  pub id : String
  pub type : String
  pub endpoint : String
  pub api_key : String
  pub timeout_ms : ℤ
  pub stream_timeout_ms : ℤ
  pub chat_path : String
  pub health_check_path : String
  pub recovery_window : String
  pub limits : List LimitEntry
  pub models : List ModelConfig
  pub is_remote : Bool
  pub skipped : Bool
  pub recovery_window_dur : Duration

pub record LocalNodeConfig : Type 0 where
  pub id : String
  pub type : String
  pub endpoint : String
  pub timeout_ms : ℤ
  pub api_key : String

pub record RemoteProviderConfig : Type 0 where
  pub id : String
  pub type : String
  pub endpoint : String
  pub api_key : String
  pub timeout_ms : ℤ

pub record Config : Type 0 where
  pub version : ℤ
  pub port : ℤ
  pub default_model : String
  pub latency_threshold_ms : ℤ
  pub fallback_enabled : Bool
  pub level : String
  pub providers : List ProviderConfig
  pub nodes : List LocalNodeConfig
  pub remotes : List RemoteProviderConfig
