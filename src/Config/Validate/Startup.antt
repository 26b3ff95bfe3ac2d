-- ===== src/Config/Validate/Startup.antt =====
-- From a validated configuration to the gate that runServe of cmd/azath/serve.go starts.
use azath.Prelude.{ok, text_eq, codes, ◌≡◌, sym, subst, ◌∙◌, ◌≢◌, inl, inr, true, none, some, arith}
use azath.Prelude.Int.{pos}
use azath.Uuid.{UuidLibrary}
use azath.Gate.Construction.{GateArguments, NewGate, new_telegram_gate}
use azath.Gate.Construction.Accepted.{new_telegram_gate_iff}
use azath.Config.{Config, GateSettings, GateConfig}
use azath.Config.Validation.{
  StandardLibrary, ValidatedConfig, is_empty, zero_config, validate_notifications,
}
use azath.Config.Validate.{validate}
use azath.Config.Validate.Outcome.{IsUsable, validated_gate}

unset_ttl :
    (lib : StandardLibrary) (t : GateSettings) (vc : ValidatedConfig)
    → is_empty t.approval_ttl ≡ true
    → IsUsable lib t none (validate_notifications lib none zero_config).0 vc
    → vc.approval_ttl ≡ pos 0
unfolding validate_notifications
unset_ttl lib t vc empty x = elim (x.ttl) [ inl (y, e) ↦ e | inr (n, p) ↦ absurd (cc (empty, n)) ]

-- A configuration whose approval_ttl is unset in gate.telegram, with no notifications.telegram, may
-- pass Validate, but NewTelegramGate then refuses its approval TTL, whatever the other arguments.
pub unset_ttl_refused :
    (lib : StandardLibrary) (u : UuidLibrary) (cfg : Config) (g : GateConfig) (t : GateSettings)
    (vc : ValidatedConfig) (a : GateArguments) (r : NewGate)
    → cfg.gate ≡ some g
    → text_eq g.gate_type (codes "telegram") ≡ true
    → g.telegram ≡ some t
    → cfg.notifications ≡ none
    → is_empty t.approval_ttl ≡ true
    → validate lib u cfg ≡ ok vc
    → a.approval_ttl ≡ vc.approval_ttl
    → new_telegram_gate a ≢ ok r
unset_ttl_refused lib u cfg g t vc a r eg et es alone empty h same made =
    let (usable, devices_ok, has_name) = validated_gate lib u cfg g t vc eg et es h in
    let zero_ttl = unset_ttl lib t vc empty (
      subst (λ n. IsUsable lib t n (validate_notifications lib n zero_config).0 vc) alone usable) in
    let (chat, user, ttl, cache, key, x, e) = (new_telegram_gate_iff a r).0 made in
    let (is_ttl, positive) = x.has_ttl in
    let zero_eq : pos 0 ≡ pos ttl = sym zero_ttl ∙ (sym same ∙ is_ttl) in absurd (ground arith)
