-- ===== src/Config/Validation.antt =====
-- internal/config/validate.go. The errors are collected in the order of the code; the validated
-- values are those of the Telegram gate.
use azath.Prelude.{
  ◌==◌, if◌then◌else◌, length, text_eq, Text, Bytes, codes, contains_byte, ℕ, Bool, false, not,
  ◌||◌, Option, none, some, List, [], ◌∷◌, ◌++◌,
}
use azath.Prelude.Int.{ℤ, pos, int_lt}
use azath.Gate.Construction.{parse_int}
use azath.Config.{Config, ServerConfig, MasterKeyConfig, TelegramConfig, GateSettings, GateConfig}

-- net.SplitHostPort (its host), net.ParseIP, IP.IsLoopback, time.ParseDuration in nanoseconds, and
-- whether strings.TrimSpace leaves nothing.
pub record StandardLibrary : Type 0 where
  pub split_host : Text → Option Text
  pub parse_ip : Text → Option Bytes
  pub is_loopback : Bytes → Bool
  pub parse_duration : Text → Option ℤ
  pub trims_to_nothing : Text → Bool

pub data Field : Type 0 where
  server_listen metrics_listen seal_token_ref : Field
  notify_bot_token_ref notify_chat_id notify_rate_limit notify_approval_ttl : Field
  gate_bot_token_ref gate_chat_id gate_rate_limit gate_approval_ttl : Field
  authorized_user_id approval_cache_ttl server_name master_key_path gate_telegram gate_field : Field

pub data ConfigError : Type 0 where
  is_required : Field → ConfigError
  invalid_address all_interfaces not_an_ip not_loopback : Field → ConfigError
  bad_log_level bad_log_format bad_key_source bad_gate_type user_not_positive : ConfigError
  not_op_ref bad_op_ref : Field → ConfigError
  invalid_duration duration_not_positive : Field → ConfigError
  bad_uuid duplicate_uuid name_required control_characters duplicate_name : ℕ → ConfigError

pub record ValidatedConfig : Type 0 where
  pub bot_token_ref : Text
  pub chat_id : Text
  pub rate_limit : ℤ
  pub approval_ttl : ℤ
  pub authorized_user : ℤ
  pub cache_ttl : ℤ

abbrev pub zero_config : ValidatedConfig
zero_config = record {
  bot_token_ref = [];
  chat_id = [];
  rate_limit = pos 0;
  approval_ttl = pos 0;
  authorized_user = pos 0;
  cache_ttl = pos 0;
}

abbrev pub is_empty : Text → Bool
is_empty s = length s == 0

abbrev pub when : Bool → ConfigError → List ConfigError
when b e = if b then e ∷ [] else []

-- Texts ----------------------------------------------------------------------------------------

after_byte : ℕ → Option (Text × Text) → Option (Text × Text)
after_byte c none = none
after_byte c (some (a, b)) = some (c ∷ a, b)

-- The text before and after the first '/', if there is one.
unfoldable pub cut_slash : Text → Option (Text × Text)
unfolding after_byte
cut_slash [] = none
cut_slash (c ∷ cs) =
    let rest = cut_slash cs in if c == b'/' then some ([], cs) else after_byte c rest

-- strings.CutPrefix
abbrev pub cut_prefix : Text → Text → Option Text
cut_prefix s [] = some s
cut_prefix [] (p ∷ ps) = none
cut_prefix (x ∷ xs) (p ∷ ps) = let rest = cut_prefix xs ps in if x == p then rest else none

module _ (lib : StandardLibrary) where
  field_errors : Field → Text → Text → Option (Text × Text) → List ConfigError
  field_errors f vault item none = bad_op_ref f ∷ []
  field_errors f vault item (some (second, third)) =
      when
        (lib.trims_to_nothing vault
          || (lib.trims_to_nothing second
              || (lib.trims_to_nothing third || contains_byte third b'/')))
        (bad_op_ref f)

  segment_errors : Field → Option (Text × Text) → List ConfigError
  unfolding field_errors cut_slash
  segment_errors f none = bad_op_ref f ∷ []
  segment_errors f (some (vault, rest)) = field_errors f vault rest (cut_slash rest)

  prefix_errors : Field → Option Text → List ConfigError
  unfolding segment_errors cut_slash
  prefix_errors f none = not_op_ref f ∷ []
  prefix_errors f (some rest) = segment_errors f (cut_slash rest)

  -- validateOpRef
  unfoldable pub validate_op_ref : Field → Text → List ConfigError
  unfolding prefix_errors
  validate_op_ref f value =
      if is_empty value then [] else prefix_errors f (cut_prefix value (codes "op://"))

  parsed_duration : Field → Option ℤ → ℤ → ℤ × List ConfigError
  parsed_duration f none dest = (dest, invalid_duration f ∷ [])
  parsed_duration f (some d) dest =
      if not (int_lt (pos 0) d) then (dest, duration_not_positive f ∷ []) else (d, [])

  -- validateDuration, with the new value of dest
  unfoldable pub validate_duration : Field → Text → ℤ → ℤ × List ConfigError
  unfolding parsed_duration
  validate_duration f value dest =
      if is_empty value then (dest, []) else parsed_duration f (lib.parse_duration value) dest

  ip_errors : Field → Option Bytes → List ConfigError
  ip_errors f none = not_an_ip f ∷ []
  ip_errors f (some ip) = when (not (lib.is_loopback ip)) (not_loopback f)

  host_errors : Field → Option Text → List ConfigError
  unfolding ip_errors
  host_errors f none = invalid_address f ∷ []
  host_errors f (some host) =
      if is_empty host then all_interfaces f ∷ [] else ip_errors f (lib.parse_ip host)

  -- validateLoopbackAddr
  unfoldable pub validate_loopback_addr : Field → Text → List ConfigError
  unfolding host_errors
  validate_loopback_addr f addr = if is_empty addr then [] else host_errors f (lib.split_host addr)

  is_one_of : Text → List Text → Bool
  is_one_of s [] = false
  is_one_of s (t ∷ ts) = text_eq s t || is_one_of s ts

  -- validateServer
  unfoldable pub validate_server : ServerConfig → List ConfigError
  unfolding is_one_of
  validate_server s =
      (if is_empty s.listen
        then is_required server_listen ∷ []
        else validate_loopback_addr server_listen s.listen)
      ++ (when
            (not (
              is_one_of s.log_level
                (codes "debug" ∷ codes "info" ∷ codes "warn" ∷ codes "error" ∷ [])))
            bad_log_level
          ++ (when (not (is_one_of s.log_format (codes "json" ∷ codes "text" ∷ []))) bad_log_format
              ++ (validate_op_ref seal_token_ref s.seal_token_ref
                  ++ validate_loopback_addr metrics_listen s.metrics_listen)))

  -- validateMasterKey
  unfoldable pub validate_master_key : MasterKeyConfig → List ConfigError
  validate_master_key m =
      if not (text_eq m.source (codes "file"))
      then bad_key_source ∷ []
      else when (is_empty m.path) (is_required master_key_path)

  -- validateNotifications
  unfoldable pub validate_notifications :
      Option TelegramConfig → ValidatedConfig → ValidatedConfig × List ConfigError
  validate_notifications none vc = (vc, [])
  validate_notifications (some t) vc =
      let (rate, rate_errs) = validate_duration notify_rate_limit t.rate_limit vc.rate_limit in
      let (ttl, ttl_errs) = validate_duration notify_approval_ttl t.approval_ttl vc.approval_ttl in
      (
        record vc { rate_limit = rate; approval_ttl = ttl },
        when (is_empty t.bot_token_ref) (is_required notify_bot_token_ref)
            ++ (when (is_empty t.chat_id) (is_required notify_chat_id)
                ++ (validate_op_ref notify_bot_token_ref t.bot_token_ref
                    ++ (rate_errs ++ ttl_errs))),
      )

  -- A setting of the gate, or else the one of the notifications.
  abbrev pub fall_back : Text → Option TelegramConfig → (TelegramConfig → Text) → Text
  fall_back s none f = s
  fall_back s (some t) f = if is_empty s then f t else s

  abbrev pub fall_back_field : Text → Option TelegramConfig → Field → Field → Field
  fall_back_field s none f g = f
  fall_back_field s (some t) f g = if is_empty s then g else f

  user_of : Option ℤ → ℤ × List ConfigError
  user_of none = (pos 0, user_not_positive ∷ [])
  user_of (some id) = if not (int_lt (pos 0) id) then (pos 0, user_not_positive ∷ []) else (id, [])

  unfoldable pub validate_user : Text → ℤ × List ConfigError
  unfolding user_of
  validate_user s =
      if is_empty s then (pos 0, is_required authorized_user_id ∷ []) else user_of (parse_int s)

  abbrev pub two_minutes : ℤ
  two_minutes = pos 120000000000

  unfoldable pub validate_cache : Text → ℤ × List ConfigError
  validate_cache s =
      if is_empty s then (two_minutes, []) else validate_duration approval_cache_ttl s (pos 0)

  -- The telegram case of validateGate.
  unfoldable pub validate_telegram :
      GateSettings → Option TelegramConfig → ValidatedConfig → ValidatedConfig × List ConfigError
  unfolding validate_user validate_cache
  validate_telegram t notify vc =
      let ref = fall_back t.bot_token_ref notify (λ n. n.bot_token_ref) in
      let chat = fall_back t.chat_id notify (λ n. n.chat_id) in
      let (rate, rate_errs) =
        validate_duration (fall_back_field t.rate_limit notify gate_rate_limit notify_rate_limit)
          (fall_back t.rate_limit notify (λ n. n.rate_limit)) vc.rate_limit in
      let (ttl, ttl_errs) =
        validate_duration
          (fall_back_field t.approval_ttl notify gate_approval_ttl notify_approval_ttl)
          (fall_back t.approval_ttl notify (λ n. n.approval_ttl)) vc.approval_ttl in
      let (user, user_errs) = validate_user t.authorized_user_id in
      let (cache, cache_errs) = validate_cache t.approval_cache_ttl in
      (
        record {
          bot_token_ref = ref;
          chat_id = chat;
          rate_limit = rate;
          approval_ttl = ttl;
          authorized_user = user;
          cache_ttl = cache;
        },
        (if is_empty ref
              then is_required gate_bot_token_ref ∷ []
              else validate_op_ref gate_bot_token_ref ref)
            ++ (when (is_empty chat) (is_required gate_chat_id)
                ++ (rate_errs ++ (ttl_errs ++ (user_errs ++ cache_errs)))),
      )

  validate_settings :
      Option GateSettings
      → Option TelegramConfig
      → ValidatedConfig
      → ValidatedConfig × List ConfigError
  unfolding validate_telegram
  validate_settings none notify vc = (vc, is_required gate_telegram ∷ [])
  validate_settings (some t) notify vc = validate_telegram t notify vc

  -- validateGate
  unfoldable pub validate_gate :
      Option GateConfig → Config → ValidatedConfig → ValidatedConfig × List ConfigError
  unfolding validate_settings
  validate_gate none cfg vc = (vc, when (not (length cfg.devices == 0)) (is_required gate_field))
  validate_gate (some g) cfg vc =
      if text_eq g.gate_type (codes "telegram")
      then validate_settings g.telegram cfg.notifications vc
      else (vc, bad_gate_type ∷ [])

  abbrev pub is_telegram : Option GateConfig → Bool
  is_telegram none = false
  is_telegram (some g) = text_eq g.gate_type (codes "telegram")
