-- ===== src/Tests/Config.antt =====
-- The properties of the configuration and of atomic writes at concrete inputs.
use azath.Prelude.{
  ok, ◌==◌, length, replicate, IsIn, text_eq, text_eq_refl, Text, Bytes, codes, lookup, insert, ℕ,
  ◌≡◌, refl, ◌≢◌, ◌↔◌, inl, inr, true, false, Option, none, some, [], ◌∷◌, arith,
}
use azath.Prelude.Int.{ℤ, pos, negsuc}
use azath.Fsutil.{Calls, Directory, Disk, write, last_disk, synced_files, seen}
use azath.Fsutil.Crashes.{IsLeft, Crashes, reads, after_crash, synced_of, lookup-synced_files}
use azath.Fsutil.Atomicity.{IsIntact, write_atomic}
use azath.Fsutil.Durability.{write_durable}
use azath.Gate.{TelegramGate, new}
use azath.Gate.Construction.{GateArguments, NewGate, parse_int, new_telegram_gate}
use azath.Gate.Construction.Accepted.{IsAcceptable, gate_of, new_telegram_gate_iff}
use azath.Config.{Config, GateSettings, GateConfig, DeviceConfig}
use azath.Config.Validation.{
  validate_server, validate_loopback_addr, validate_op_ref, validate_master_key, validate_gate,
  validate_duration, StandardLibrary, ValidatedConfig, validate_notifications,
}
use azath.Config.Devices.{validate_devices, validate_from}
use azath.Config.Validate.{validate, collected}
use azath.Config.Validate.Startup.{unset_ttl_refused}
use azath.Tests.Fixtures.{toy_uuid, toy_to_string, nas_uuid, gate_config}

abbrev pub calls : Calls
calls = record {
  create_fails = false;
  chmod_fails = false;
  write_fails = false;
  sync_fails = false;
  close_fails = false;
  rename_fails = false;
  open_dir_fails = false;
  sync_dir_fails = false;
  close_dir_fails = false;
  removes = true;
  written = 0;
}

abbrev pub tmp : Text
tmp = 1 ∷ []

abbrev pub path : Text
path = 2 ∷ []

abbrev pub directory : Directory
directory = (path, 1 ∷ []) ∷ []

pub tmp-ne-path : tmp ≢ path
tmp-ne-path h = ground arith

-- The sync of the directory fails, and a crash undoes the rename.
abbrev undone : Calls
undone = record calls { sync_dir_fails = true; removes = false }

abbrev renamed : Disk
renamed = last_disk directory (write undone tmp path (5 ∷ 6 ∷ []) directory).trace

old-IsLeft : (o : Option Bytes) → IsLeft (synced_of o) o
old-IsLeft none = refl
old-IsLeft (some b) = inl refl

undoes : Crashes renamed directory
unfolding write azath.Fsutil.rename lookup azath.Fsutil.sync_file insert synced_files text_eq
undoes = record {
  entries = synced_files directory;
  on_disk = inr (inr (inl refl));
  left = λ name. rw (lookup-synced_files name directory) (old-IsLeft (lookup name directory));
}

renamed_in : IsIn renamed (write undone tmp path (5 ∷ 6 ∷ []) directory).trace
unfolding write
renamed_in = inl refl

write_atomic_example : IsIntact path (5 ∷ 6 ∷ []) directory directory
write_atomic_example =
    write_atomic undone tmp path (5 ∷ 6 ∷ []) directory renamed directory tmp-ne-path renamed_in
      (after_crash directory undoes)

-- All calls succeed.
abbrev replaced : Disk
replaced = last_disk directory (write calls tmp path (5 ∷ 6 ∷ []) directory).trace

write_done : (write calls tmp path (5 ∷ 6 ∷ []) directory).error ≡ none
unfolding write
write_done = refl

write_durable_example :
    (lookup path (seen replaced.live) ≡ some (5 ∷ 6 ∷ []))
    × (lookup tmp (seen replaced.live) ≡ none)
write_durable_example =
    write_durable tmp path (5 ∷ 6 ∷ []) directory tmp-ne-path calls (seen replaced.live) write_done
      reads

abbrev arguments : GateArguments
arguments = record {
  server_name = codes "home";
  bot_token = codes "token";
  chat_id = codes "-100";
  authorized_user_id = pos 12345;
  approval_ttl = pos 1000;
  approval_cache_ttl = pos 500;
  intervals = 60 ∷ [];
  random_key = some (replicate 32 6);
}

abbrev made_gate : NewGate
made_gate = gate_of arguments (negsuc 99) 12345 1000 500 (replicate 32 6)

new_telegram_gate_iff_example : (new_telegram_gate arguments ≡ ok made_gate) ↔ (
    (chat : ℤ) × (user : ℕ) × (ttl : ℕ) × (cache : ℕ) × (key : Bytes) × IsAcceptable arguments chat
      user ttl cache key
    × (made_gate ≡ gate_of arguments chat user ttl cache key))
new_telegram_gate_iff_example = new_telegram_gate_iff arguments made_gate

abbrev gate : TelegramGate
gate = new gate_config 60

abbrev pub nas : DeviceConfig
nas = record { name = codes "nas"; uuid = nas_uuid; disabled = false }

abbrev pub tv : DeviceConfig
tv = record { name = codes "tv"; uuid = toy_to_string (replicate 16 4); disabled = true }

devices_pass : validate_devices toy_uuid (nas ∷ tv ∷ []) ≡ []
unfolding validate_devices validate_from lookup insert text_eq
devices_pass = refl

abbrev pub library : StandardLibrary
library = record {
  split_host = λ s. some s;
  parse_ip = λ s. some [];
  is_loopback = λ ip. true;
  parse_duration = λ s. some (pos 7);
  trims_to_nothing = λ s. length s == 0;
}

abbrev pub settings : GateSettings
settings = record {
  bot_token_ref = codes "op://v/i/f";
  chat_id = codes "-100";
  authorized_user_id = codes "12345";
  rate_limit = [];
  approval_ttl = [];
  approval_cache_ttl = [];
}

abbrev pub telegram : GateConfig
telegram = record { gate_type = codes "telegram"; telegram = some settings }

abbrev pub config : Config
config = record {
  server = record {
    listen = codes "l";
    metrics_listen = codes "m";
    log_level = codes "info";
    log_format = codes "json";
    seal_token_ref = [];
    name = codes "home";
  };
  master_key = record { source = codes "file"; path = codes "k" };
  notifications = none;
  devices = nas ∷ tv ∷ [];
  gate = some telegram;
}

abbrev pub values : ValidatedConfig
values = record {
  bot_token_ref = codes "op://v/i/f";
  chat_id = codes "-100";
  rate_limit = pos 0;
  approval_ttl = pos 0;
  authorized_user = pos 12345;
  cache_ttl = pos 120000000000;
}

pub config_valid : validate library toy_uuid config ≡ ok values
unfolding validate collected validate_server validate_loopback_addr text_eq validate_op_ref
    validate_master_key validate_devices validate_from lookup insert validate_notifications
    validate_gate validate_duration parse_int
config_valid = refl

is_telegram_gate : text_eq (codes "telegram") (codes "telegram") ≡ true
is_telegram_gate = text_eq_refl (codes "telegram")

abbrev startup : GateArguments
startup = record arguments { approval_ttl = pos 0 }

unset_ttl_refused_example : new_telegram_gate startup ≢ ok made_gate
unset_ttl_refused_example =
    unset_ttl_refused library toy_uuid config telegram settings values startup made_gate refl
      is_telegram_gate refl refl refl config_valid refl
