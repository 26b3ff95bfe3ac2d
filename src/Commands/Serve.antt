-- ===== src/Commands/Serve.antt =====
-- cmd/azath/serve.go: runServe, from its flags to its return. The log lines and the metrics
-- registry are left out.
pub mod Undone
pub mod Ended
pub mod Made
pub mod Started
use azath.Prelude.{
  Result, ok, err, ◌==◌, if◌then◌else◌, length, text_eq, Text, Bytes, codes, zero_bytes, Bool, not,
  ◌&&◌, ◌||◌, Option, none, some, List, [], ◌∷◌, ◌++◌,
}
use azath.Uuid.{UuidLibrary}
use azath.Keymanager.{Manager, file_source, is_loaded, destroy, unloaded, Loading}
use azath.Keymanager
use azath.Gate.Construction.{GateArguments, NewGate, NewGateError, new_telegram_gate, magnitude}
use azath.Server.{KmsServer, Gate, Metrics}
use azath.Config.{Config}
use azath.Config.Devices.{device_table}
use azath.Config.Loading.{ServerYaml, LoadError, load}
use azath.Config.Validation.{StandardLibrary, ConfigError, ValidatedConfig, is_telegram}
use azath.Config.Validate.{validate}
use azath.Client.{Url}
use azath.Observability.{
  CheckFunc, passes, returns_error, HealthChecker, register, LoggerError, Level, Format, new_logger,
}
use azath.Secret.{SecretError}

-- How the select ends: by the context, or by the error of one of the two servers.
pub data Stopping : Type 0 where
  context_done server_error : Stopping

-- What runServe calls: url.Parse, strings.ToLower, the file of the configuration, the decoder and
-- the validation's libraries, the file of the master key, none for an error or the end of its
-- timeout; the secret that the resolver of each mode gives; the entropy and the answers of a
-- Telegram gate; net.Listen; how serving ends; whether GracefulStop ends within its timeout; and
-- whether the HTTP server shuts down without an error.
pub record World : Type 0 where
  pub parse_url : Text → Option Url
  pub lower : Text → Text
  pub file : Option Bytes
  pub yaml : ServerYaml
  pub lib : StandardLibrary
  pub uuids : UuidLibrary
  pub key_file : Text → Option Bytes
  pub resolve_dev : Text → Result SecretError Bytes
  pub resolve_op : Text → Result SecretError Bytes
  pub random_key : Option Bytes
  pub answers : NewGate → Gate
  pub metrics : Metrics
  pub listens : Text → Bool
  pub stopping : Stopping
  pub graceful : Bool
  pub http_stops : Bool

pub data ServeError : Type 0 where
  api_base_needs_dev bad_api_base unsupported_source check_registered not_listening served_error :
      ServeError
  not_loaded : LoadError → ServeError
  no_logger : LoggerError → ServeError
  invalid_config : List ConfigError → ServeError
  no_master_key : Keymanager.LoadError → ServeError
  no_bot_token : SecretError → ServeError
  no_gate : NewGateError → ServeError

-- What runServe does, in its order.
pub data Event : Type 0 where
  memory_locked manager_made key_loaded token_read gate_made server_made listening serving : Event
  not_serving graceful_stop forced_stop http_stopped : Event
  server_closed gate_closed token_wiped key_destroyed : Event

-- The error, the events, and what runServe has made, none if it has not: the key manager and the
-- buffer of the bot token, as they are when it returns, and the server; and the health checks.
pub record Serving : Type 0 where
  pub error : Option ServeError
  pub events : List Event
  pub manager : Option Manager
  pub bot_token : Option Bytes
  pub server : Option KmsServer
  pub checks : HealthChecker Manager

abbrev pub returns : ServeError → List Event → Serving
returns e events = record {
  error = some e;
  events = events;
  manager = none;
  bot_token = none;
  server = none;
  checks = [];
}

-- km and botToken are made, before what follows; nothing but the deferred calls changes them.
abbrev pub with_manager : Manager → Serving → Serving
with_manager km s = record s { events = manager_made ∷ s.events; manager = some km }

abbrev pub with_bot_token : Bytes → Serving → Serving
with_bot_token token s = record s { events = token_read ∷ s.events; bot_token = some token }

-- What a deferred call does to what has been made.
abbrev pub changed {ℓ} : {A : Type ℓ} → (A → A) → Option A → Option A
changed f none = none
changed f (some a) = some (f a)

-- The deferred calls, each after what follows it.
abbrev pub then_destroy : Serving → Serving
then_destroy s = record s {
  events = s.events ++ (key_destroyed ∷ []);
  manager = changed destroy s.manager;
}

abbrev pub then_wipe : Serving → Serving
then_wipe s = record s {
  events = s.events ++ (token_wiped ∷ []);
  bot_token = changed zero_bytes s.bot_token;
}

abbrev pub then_close_gate : Serving → Serving
then_close_gate s = record s { events = s.events ++ (gate_closed ∷ []) }

abbrev pub then_close_server : Serving → Serving
then_close_server s = record s { events = s.events ++ (server_closed ∷ []) }

abbrev pub after_event : Event → Serving → Serving
after_event e s = record s { events = e ∷ s.events }

-- The function under "master_key_loaded".
unfoldable pub key_check : CheckFunc Manager
key_check km = if not (is_loaded km) then returns_error else passes

module _ (w : World) where
  -- From the select on: the shutdown.
  shutdown : List Event
  shutdown =
      not_serving
      ∷ graceful_stop
      ∷ (if w.graceful then http_stopped ∷ [] else forced_stop ∷ http_stopped ∷ [])

  stop_error : Stopping → Option ServeError
  stop_error context_done = none
  stop_error server_error = some served_error

  with_checks : Config → KmsServer → Option (HealthChecker Manager) → Serving
  unfolding shutdown stop_error
  with_checks cfg srv none = then_close_server (returns check_registered [])
  with_checks cfg srv (some checks) =
      if not (w.listens cfg.server.listen)
      then then_close_server
          (record (returns not_listening []) { server = some srv; checks = checks })
      else then_close_server (record {
        error = stop_error w.stopping;
        events = listening ∷ serving ∷ shutdown;
        manager = none;
        bot_token = none;
        server = some srv;
        checks = checks;
      })

  -- From server.New on.
  unfoldable pub serve_with : Config → Manager → Option Gate → Serving
  unfolding with_checks key_check
  serve_with cfg km gate = after_event server_made (
      with_checks cfg
        (record {
          km = km;
          metrics = w.metrics;
          gate = gate;
          devices = device_table w.uuids [] cfg.devices;
        })
        (register (codes "master_key_loaded") key_check []))

  gate_arguments : Config → ValidatedConfig → Bytes → GateArguments
  gate_arguments cfg vc token = record {
    server_name = cfg.server.name;
    bot_token = token;
    chat_id = vc.chat_id;
    authorized_user_id = vc.authorized_user;
    approval_ttl = vc.approval_ttl;
    approval_cache_ttl = vc.cache_ttl;
    intervals = magnitude vc.rate_limit ∷ [];
    random_key = w.random_key;
  }

  with_new_gate : Config → Manager → Result NewGateError NewGate → Serving
  unfolding serve_with
  with_new_gate cfg km (err e) = returns (no_gate e) []
  with_new_gate cfg km (ok gate) =
      after_event gate_made (then_close_gate (serve_with cfg km (some (w.answers gate))))

  with_token : Config → ValidatedConfig → Manager → Result SecretError Bytes → Serving
  unfolding with_new_gate gate_arguments
  with_token cfg vc km (err e) = returns (no_bot_token e) []
  with_token cfg vc km (ok token) = then_wipe (
      with_bot_token token (with_new_gate cfg km (new_telegram_gate (gate_arguments cfg vc token))))

  -- The gate, if one is configured.
  with_gate : Bool → Config → ValidatedConfig → Manager → Serving
  unfolding with_token serve_with
  with_gate dev cfg vc km =
      if is_telegram w.lib cfg.gate
      then with_token cfg vc km
          (if dev then w.resolve_dev vc.bot_token_ref else w.resolve_op vc.bot_token_ref)
      else serve_with cfg km none

  after_key : Bool → Config → ValidatedConfig → Loading → Serving
  unfolding with_gate
  after_key dev cfg vc loading = then_destroy (
      with_manager loading.manager (elim loading.error [
        | some e ↦ returns (no_master_key e) []
        | none ↦ after_event key_loaded (with_gate dev cfg vc loading.manager)
      ]))

  -- newKeySource and km.Load.
  pub load_key : Bool → Config → ValidatedConfig → Serving
  unfolding after_key
  load_key dev cfg vc =
      if not (text_eq cfg.master_key.source (codes "file"))
      then returns unsupported_source []
      else after_key dev cfg vc
          (Keymanager.load unloaded (file_source (w.key_file cfg.master_key.path)) Keymanager.new)

  validated : Bool → Config → Result (List ConfigError) ValidatedConfig → Serving
  unfolding load_key
  validated dev cfg (err es) = returns (invalid_config es) []
  validated dev cfg (ok vc) = load_key dev cfg vc

  logged : Bool → Config → Result LoggerError (Level × Format) → Serving
  unfolding validated
  logged dev cfg (err e) = returns (no_logger e) []
  logged dev cfg (ok logger) = validated dev cfg (validate w.lib w.uuids cfg)

  -- cfg.Server.LogFormat = "text" in the development mode.
  abbrev pub in_mode : Bool → Config → Config
  in_mode dev cfg =
      if dev then record cfg { server = record cfg.server { log_format = codes "text" } } else cfg

  loaded_config : Bool → Result LoadError Config → Serving
  unfolding logged
  loaded_config dev (err e) = returns (not_loaded e) []
  loaded_config dev (ok cfg) =
      let cfg' = in_mode dev cfg in
      logged dev cfg' (new_logger w.lower cfg'.server.log_level cfg'.server.log_format)

  -- From platform.LockMemory on.
  start_up : Bool → Serving
  unfolding loaded_config
  start_up dev =
      if dev
      then loaded_config dev (load w.yaml w.file)
      else after_event memory_locked (loaded_config dev (load w.yaml w.file))

  abbrev is_origin : Url → Bool
  is_origin u =
      (text_eq u.scheme (codes "http") || text_eq u.scheme (codes "https"))
      && (not (length u.host == 0)
          && (not u.has_user
              && (length u.path == 0 && (length u.raw_query == 0 && length u.fragment == 0))))

  with_base : Bool → Option Url → Serving
  unfolding start_up
  with_base dev none = returns bad_api_base []
  with_base dev (some u) = if not (is_origin u) then returns bad_api_base [] else start_up dev

  -- runServe; the base URL is empty if its flag is not given.
  unfoldable pub run_serve : Bool → Text → Serving
  unfolding with_base start_up
  run_serve dev api_base =
      if length api_base == 0
      then start_up dev
      else if not dev
      then returns api_base_needs_dev []
      else with_base dev (w.parse_url api_base)
