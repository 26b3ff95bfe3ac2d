-- ===== src/Config.antt =====
-- internal/config/config.go: the schema of the configuration file, and its defaults. A duration is
-- kept as a text, and is parsed by the validation.
pub mod Validation
pub mod Devices
pub mod Validate
pub mod Loading
use azath.Prelude.{◌==◌, if◌then◌else◌, length, Text, codes, Bool, Option, none, some, List}

pub record ServerConfig : Type 0 where
  pub listen : Text
  pub metrics_listen : Text
  pub log_level : Text
  pub log_format : Text
  pub seal_token_ref : Text
  pub name : Text

pub record MasterKeyConfig : Type 0 where
  pub source : Text
  pub path : Text

-- notifications.telegram
pub record TelegramConfig : Type 0 where
  pub bot_token_ref : Text
  pub chat_id : Text
  pub rate_limit : Text
  pub approval_ttl : Text

pub record DeviceConfig : Type 0 where
  pub name : Text
  pub uuid : Text
  pub disabled : Bool

-- gate.telegram
pub record GateSettings : Type 0 where
  pub bot_token_ref : Text
  pub chat_id : Text
  pub authorized_user_id : Text
  pub rate_limit : Text
  pub approval_ttl : Text
  pub approval_cache_ttl : Text

pub record GateConfig : Type 0 where
  pub gate_type : Text
  pub telegram : Option GateSettings

pub record Config : Type 0 where
  pub server : ServerConfig
  pub master_key : MasterKeyConfig
  pub notifications : Option TelegramConfig
  pub devices : List DeviceConfig
  pub gate : Option GateConfig

abbrev pub or_default : Text → Text → Text
or_default s d = if length s == 0 then d else s

default_telegram : Option TelegramConfig → Option TelegramConfig
default_telegram none = none
default_telegram (some t) = some (record t {
  rate_limit = or_default t.rate_limit (codes "5m");
  approval_ttl = or_default t.approval_ttl (codes "10m");
})

-- applyDefaults
unfoldable pub apply_defaults : Config → Config
unfolding default_telegram
apply_defaults cfg = record cfg {
  server = record cfg.server {
    metrics_listen = or_default cfg.server.metrics_listen (codes "127.0.0.1:9090");
    log_level = or_default cfg.server.log_level (codes "info");
    log_format = or_default cfg.server.log_format (codes "json");
  };
  notifications = default_telegram cfg.notifications;
}
