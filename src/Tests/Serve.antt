-- ===== src/Tests/Serve.antt =====
-- The properties of the serve command at concrete inputs.
use azath.Prelude.{
  ok, replicate, text_eq, codes, lookup, insert, ◌≡◌, refl, true, false, none, some, [], ◌∷◌,
}
use azath.Prelude.Int.{pos}
use azath.Server.{KmsServer}
use azath.Config.{Config}
use azath.Config.Devices.{device_table}
use azath.Config.Loading.{ServerYaml, load}
use azath.Config.Validation.{ValidatedConfig}
use azath.Config.Validate.{validate, collected}
use azath.Gate.Construction.{new_telegram_gate}
use azath.Commands.Serve.{World, context_done, run_serve}
use azath.Commands.Serve.Ended.{IsCleanedUp, run_serve-IsCleanedUp}
use azath.Commands.Serve.Started.{IsStarted, run_serve-IsStarted}
use azath.Tests.Fixtures.{toy_uuid, manager, master_key, metrics, approving}
use azath.Tests.Config.{nas, tv, library, settings, config, values}
use azath.Observability.{format_of, level_of, new_logger}

-- The configuration with an approval TTL of its own.
abbrev served_config : Config
served_config = record config {
  gate = some (record {
    gate_type = codes "telegram";
    telegram = some (record settings { approval_ttl = codes "a" });
  });
}

abbrev served_values : ValidatedConfig
served_values = record values { approval_ttl = pos 7 }

abbrev yaml : ServerYaml
yaml = record { decode = λ file. some served_config; at_end = λ file. true }

abbrev world : World
world = record {
  parse_url = λ s. none;
  lower = λ s. s;
  file = some [];
  yaml = yaml;
  lib = library;
  uuids = toy_uuid;
  key_file = λ path. some master_key;
  resolve_dev = λ ref. ok (1 ∷ []);
  resolve_op = λ ref. ok (5 ∷ 5 ∷ []);
  random_key = some (replicate 32 6);
  answers = λ gate. approving;
  metrics = metrics;
  listens = λ address. true;
  stopping = context_done;
  graceful = true;
  http_stops = true;
}

config_loads : load yaml (some []) ≡ ok served_config
unfolding load azath.Config.apply_defaults
config_loads = refl

config_valid : validate library toy_uuid served_config ≡ ok served_values
unfolding validate collected azath.Config.Validation.validate_server
    azath.Config.Validation.validate_loopback_addr text_eq azath.Config.Validation.validate_op_ref
    azath.Config.Validation.validate_master_key azath.Config.Devices.validate_devices
    azath.Config.Devices.validate_from lookup insert azath.Config.Validation.validate_notifications
    azath.Config.Validation.validate_gate azath.Config.Validation.validate_duration
    azath.Gate.Construction.parse_int
config_valid = refl

abbrev started : KmsServer
started = record {
  km = manager;
  metrics = metrics;
  gate = some approving;
  devices = device_table toy_uuid [] (nas ∷ tv ∷ []);
}

starts : (run_serve world false []).server ≡ some started
unfolding run_serve new_logger level_of format_of text_eq azath.Keymanager.load
    azath.Keymanager.check_state azath.Keymanager.check_source azath.Keymanager.file_source
    azath.Keymanager.commit azath.Keymanager.new new_telegram_gate azath.Gate.Construction.parse_int
    azath.Observability.register lookup azath.Keymanager.copy_bytes
starts = rw (config_loads, config_valid) refl

run_serve-IsStarted_example : IsStarted world false started
run_serve-IsStarted_example = run_serve-IsStarted world started false [] starts

run_serve-IsCleanedUp_example : IsCleanedUp (run_serve world false [])
run_serve-IsCleanedUp_example = run_serve-IsCleanedUp world false []
