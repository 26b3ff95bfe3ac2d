-- ===== src/Config/Validate/Served.antt =====
-- What every configuration that Validate of internal/config/validate.go accepts has.
use azath.Prelude.{
  ok, ◌==◌, Bool-cases, length, append_parts, text_eq, codes, ◌≡◌, refl, ◌⊎◌, inl, inr, true, not,
  Option, none, some, List, [], ◌∷◌, arith,
}
use azath.Uuid.{UuidLibrary}
use azath.Config.{DeviceConfig, Config, GateConfig}
use azath.Config.Devices.{validate_devices}
use azath.Config.Validation.{
  StandardLibrary, ValidatedConfig, when, validate_gate, is_telegram, gate_field, is_required,
}
use azath.Config.Validate.{collected, validate}
use azath.Config.Validate.Outcome.{no_errors_ok}

-- Without an error, the gate is a Telegram gate, or there is none and there are no devices.
gate_or_no_devices :
    (lib : StandardLibrary) (o : Option GateConfig) (cfg : Config) (vc : ValidatedConfig)
    → (validate_gate lib o cfg vc).1 ≡ []
    → (is_telegram lib o ≡ true) ⊎ ((o ≡ none) × (cfg.devices ≡ []))
unfolding validate_gate
gate_or_no_devices lib none cfg vc h = inr (refl, no_devices cfg.devices h)
  where
    no_devices :
        (ds : List DeviceConfig)
        → when (not (length ds == 0)) (is_required gate_field) ≡ []
        → ds ≡ []
    no_devices [] k = refl
    no_devices (d ∷ ds) k = absurd (ground arith)
gate_or_no_devices lib (some g) cfg vc h =
    elim (Bool-cases (text_eq g.gate_type (codes "telegram"))) [
      | inl y ↦ inl y
      | inr n ↦ absurd (cc (rw n at h))
    ]

-- The devices of an accepted configuration pass their checks, and they have a Telegram gate, or
-- there are none of them.
pub validated_served :
    (lib : StandardLibrary) (u : UuidLibrary) (cfg : Config) (vc : ValidatedConfig)
    → validate lib u cfg ≡ ok vc
    → (validate_devices u cfg.devices ≡ [])
      × ((is_telegram lib cfg.gate ≡ true) ⊎ ((cfg.gate ≡ none) × (cfg.devices ≡ [])))
unfolding validate collected
validated_served lib u cfg vc h =
    let (errs, e) = no_errors_ok _ vc _ h in
    let (server_ok, h1) = append_parts _ _ errs in
    let (key_ok, h2) = append_parts _ _ h1 in
    let (devices_ok, h3) = append_parts _ _ h2 in
    let (notify_ok, h4) = append_parts _ _ h3 in
    let (gate_ok, h5) = append_parts _ _ h4 in
    (devices_ok, gate_or_no_devices lib cfg.gate cfg _ gate_ok)
