-- ===== src/Config/Validate.antt =====
-- Validate of internal/config/validate.go.
pub mod Outcome
pub mod Startup
pub mod Served
use azath.Prelude.{Result, ok, err, ◌&&◌, List, [], ◌∷◌, ◌++◌}
use azath.Uuid.{UuidLibrary}
use azath.Config.{Config}
use azath.Config.Devices.{validate_devices}
use azath.Config.Validation.{
  StandardLibrary, ConfigError, ValidatedConfig, is_required, server_name, zero_config, is_empty,
  is_telegram, when, validate_server, validate_master_key, validate_notifications, validate_gate,
}

-- All errors, in the order of the code, and the validated values.
unfoldable pub collected :
    StandardLibrary → UuidLibrary → Config → ValidatedConfig × List ConfigError
collected lib u cfg =
    let (vc, notify_errs) = validate_notifications lib cfg.notifications zero_config in
    let (vc', gate_errs) = validate_gate lib cfg.gate cfg vc in
    (
      vc',
      validate_server lib cfg.server
          ++ (validate_master_key lib cfg.master_key
              ++ (validate_devices u cfg.devices
                  ++ (notify_errs
                      ++ (gate_errs
                          ++ when (is_telegram lib cfg.gate && is_empty cfg.server.name)
                              (is_required server_name))))),
    )

pub no_errors : ValidatedConfig → List ConfigError → Result (List ConfigError) ValidatedConfig
no_errors vc [] = ok vc
no_errors vc (e ∷ es) = err (e ∷ es)

-- Validate
unfoldable pub validate :
    StandardLibrary → UuidLibrary → Config → Result (List ConfigError) ValidatedConfig
unfolding no_errors
validate lib u cfg = let (vc, errs) = collected lib u cfg in no_errors vc errs
