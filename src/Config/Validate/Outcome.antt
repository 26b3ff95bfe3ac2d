-- ===== src/Config/Validate/Outcome.antt =====
-- What a configuration that Validate accepts gives to the gate (internal/config/validate.go and
-- cmd/azath/serve.go).
use azath.Prelude.{
  ok, if◌then◌else◌, Bool-cases, Option-cases, append_parts, text_eq, Text, codes, ◌≡◌, refl, sym,
  ap, subst, ◌∙◌, ◌⊎◌, inl, inr, Bool, true, false, ◌&&◌, Option, some, List, [], ◌∷◌, arith,
}
use azath.Prelude.Int.{ℤ, pos, int_lt}
use azath.Uuid.{UuidLibrary}
use azath.Gate.Construction.{parse_int}
use azath.Config.{Config, TelegramConfig, GateSettings, GateConfig}
use azath.Config.Devices.{validate_devices}
use azath.Config.Validation.{
  StandardLibrary, Field, ConfigError, ValidatedConfig, zero_config, is_empty, when,
  validate_duration, validate_notifications, fall_back, fall_back_field, validate_user,
  validate_cache, validate_telegram, validate_gate, is_telegram, notify_approval_ttl,
  gate_approval_ttl, approval_cache_ttl, server_name, is_required,
}
use azath.Config.Validate.{collected, no_errors, validate}

-- What a value of the gate is, if its text is given.
validate_duration_ok :
    (lib : StandardLibrary) (f : Field) (s : Text) (dest : ℤ)
    → (validate_duration lib f s dest).1 ≡ []
    → ((is_empty s ≡ true) × ((validate_duration lib f s dest).0 ≡ dest))
      ⊎ ((is_empty s ≡ false)
          × (int_lt (pos 0) (validate_duration lib f s dest).0 ≡ true)
          × (lib.parse_duration s ≡ some (validate_duration lib f s dest).0))
unfolding validate_duration
validate_duration_ok lib f s dest h = elim (Bool-cases (is_empty s)) [
  | inl y ↦ inl (y, rw y refl)
  | inr n ↦ elim (Option-cases (lib.parse_duration s)) [
    | inl bad ↦ absurd (ground arith)
    | inr (d, p) ↦ elim (Bool-cases (int_lt (pos 0) d)) [
      | inr low ↦ absurd (ground arith)
      | inl good ↦ inr (n, rw (n, p, good) good, rw (n, p, good) refl)
    ]
  ]
]

-- The values of a telegram gate that the server relies on: an approver, a token reference, a chat,
-- a positive cache time, and positive durations where they are given, by the gate or by the
-- notifications.
pub record IsUsable (lib : StandardLibrary) (t : GateSettings) (notify : Option TelegramConfig)
    (before after : ValidatedConfig) : Type 0 where
  pub user :
      (parse_int t.authorized_user_id ≡ some after.authorized_user)
      × (int_lt (pos 0) after.authorized_user ≡ true)
  pub token : is_empty after.bot_token_ref ≡ false
  pub chat : is_empty after.chat_id ≡ false
  pub cache : int_lt (pos 0) after.cache_ttl ≡ true
  pub ttl :
      ((is_empty (fall_back lib t.approval_ttl notify (λ n. n.approval_ttl)) ≡ true)
        × (after.approval_ttl ≡ before.approval_ttl))
      ⊎ ((is_empty (fall_back lib t.approval_ttl notify (λ n. n.approval_ttl)) ≡ false)
          × (int_lt (pos 0) after.approval_ttl ≡ true))

user_ok :
    (lib : StandardLibrary) (s : Text)
    → (validate_user lib s).1 ≡ []
    → (parse_int s ≡ some (validate_user lib s).0) × (int_lt (pos 0) (validate_user lib s).0 ≡ true)
unfolding validate_user
user_ok lib s h = elim (Option-cases (parse_int s)) [
  | inl n ↦ absurd (ground arith)
  | inr (id, p) ↦ elim (Bool-cases (is_empty s)) [
    | inl y ↦ absurd (ground arith)
    | inr n ↦ elim (Bool-cases (int_lt (pos 0) id)) [
      | inr low ↦ absurd (ground arith)
      | inl good ↦ (rw (n, p, good) refl, rw (n, p, good) good)
    ]
  ]
]

cache_ok :
    (lib : StandardLibrary) (s : Text)
    → (validate_cache lib s).1 ≡ []
    → int_lt (pos 0) (validate_cache lib s).0 ≡ true
unfolding validate_cache
cache_ok lib s h = elim (Bool-cases (is_empty s)) [
  | inl y ↦ rw y refl
  | inr n ↦ elim (validate_duration_ok lib approval_cache_ttl s (pos 0) (rw n at h)) [
    | inl (y, e) ↦ absurd (ground arith)
    | inr (m, good, p) ↦ rw n good
  ]
]

else_empty :
    (b : Bool) (e : ConfigError) (rest : List ConfigError)
    → (if b then e ∷ [] else rest) ≡ []
    → b ≡ false
else_empty true e rest h = absurd (cc h)
else_empty false e rest h = refl

validate_telegram_ok :
    (lib : StandardLibrary) (t : GateSettings) (notify : Option TelegramConfig)
    (vc : ValidatedConfig)
    → (validate_telegram lib t notify vc).1 ≡ []
    → IsUsable lib t notify vc (validate_telegram lib t notify vc).0
unfolding validate_telegram
validate_telegram_ok lib t notify vc h =
    let (ref_ok, h1) = append_parts _ _ h in
    let (chat_ok, h2) = append_parts _ _ h1 in
    let (rate_ok, h3) = append_parts _ _ h2 in
    let (ttl_ok, h4) = append_parts _ _ h3 in
    let (id_ok, last_ok) = append_parts _ _ h4 in
    record {
      user = user_ok lib t.authorized_user_id id_ok;
      token = else_empty _ _ _ ref_ok;
      chat = else_empty _ _ _ chat_ok;
      cache = cache_ok lib t.approval_cache_ttl last_ok;
      ttl =
          elim (validate_duration_ok lib
            (fall_back_field lib t.approval_ttl notify gate_approval_ttl notify_approval_ttl)
            (fall_back lib t.approval_ttl notify (λ n. n.approval_ttl)) vc.approval_ttl ttl_ok) [
              | inl (y, e) ↦ inl (y, e)
              | inr (n, good, p) ↦ inr (n, good)
            ];
    }

pub no_errors_ok :
    (vc v : ValidatedConfig) (errs : List ConfigError)
    → no_errors vc errs ≡ ok v
    → (errs ≡ []) × (vc ≡ v)
unfolding no_errors
no_errors_ok vc v [] h = (refl, cc h)
no_errors_ok vc v (e ∷ es) h = absurd (cc h)

gate_settings :
    (lib : StandardLibrary) (cfg : Config) (g : GateConfig) (t : GateSettings)
    (vc : ValidatedConfig)
    → cfg.gate ≡ some g
    → text_eq g.gate_type (codes "telegram") ≡ true
    → g.telegram ≡ some t
    → validate_gate lib cfg.gate cfg vc ≡ validate_telegram lib t cfg.notifications vc
unfolding validate_gate
gate_settings lib cfg g t vc eg et es = rw (eg, et, es) refl

named :
    (lib : StandardLibrary) (cfg : Config) (g : GateConfig)
    → cfg.gate ≡ some g
    → text_eq g.gate_type (codes "telegram") ≡ true
    → when (is_telegram lib cfg.gate && is_empty cfg.server.name) (is_required server_name) ≡ []
    → is_empty cfg.server.name ≡ false
named lib cfg g eg et h = else_empty (is_empty cfg.server.name) _ [] (rw (eg, et) at h)

-- A configuration with a telegram gate that Validate accepts is fit to serve: its devices pass
-- validateDevices, the server has a name, and the gate has a positive user, a token reference, a
-- chat, a positive cache time, and a positive approval TTL wherever one is given.
pub validated_gate :
    (lib : StandardLibrary) (u : UuidLibrary) (cfg : Config) (g : GateConfig) (t : GateSettings)
    (vc : ValidatedConfig)
    → cfg.gate ≡ some g
    → text_eq g.gate_type (codes "telegram") ≡ true
    → g.telegram ≡ some t
    → validate lib u cfg ≡ ok vc
    → IsUsable lib t cfg.notifications
        (validate_notifications lib cfg.notifications zero_config).0
        vc
      × (validate_devices u cfg.devices ≡ [])
      × (is_empty cfg.server.name ≡ false)
unfolding validate collected
validated_gate lib u cfg g t vc eg et es h =
    let before = (validate_notifications lib cfg.notifications zero_config).0 in
    let (errs, e) = no_errors_ok _ vc _ h in
    let (server_ok, h1) = append_parts _ _ errs in
    let (key_ok, h2) = append_parts _ _ h1 in
    let (devices_ok, h3) = append_parts _ _ h2 in
    let (notify_ok, h4) = append_parts _ _ h3 in
    let (gate_ok, h5) = append_parts _ _ h4 in
    let same = gate_settings lib cfg g t before eg et es in
    (
      subst (IsUsable lib t cfg.notifications before) (ap (λ r. r.0) (sym same) ∙ e) (
          validate_telegram_ok lib t cfg.notifications before (ap (λ r. r.1) (sym same) ∙ gate_ok)),
      devices_ok,
      named lib cfg g eg et h5,
    )
