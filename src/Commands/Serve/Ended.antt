-- ===== src/Commands/Serve/Ended.antt =====
-- What runServe of cmd/azath/serve.go has undone when it returns.
use azath.Prelude.{
  Result, Result-cases, ok, err, ◌==◌, if◌then◌else◌, Bool-cases, Option-cases, is_some, length,
  text_eq, Text, Bytes, codes, zero_bytes-zero, ◌≡◌, refl, ap, ◌∙◌, ◌≢◌, inl, inr, Bool, true,
  false, not, ◌||◌, Option, none, some, [], ◌∷◌, arith,
}
use azath.Keymanager.{
  Manager, ManagerState, SourceResult, file_source, destroy, unloaded, loaded, destroyed, load, new,
}
use azath.Gate.Construction.{new_telegram_gate}
use azath.Config.{Config}
use azath.Config.Loading.{LoadError}
use azath.Config.Loading
use azath.Config.Validation.{ValidatedConfig, is_telegram}
use azath.Config.Validate.{validate}
use azath.Observability.{register, new_logger}
use azath.Server.{Gate}
use azath.Commands.Serve.{
  gate_arguments, with_token, load_key, is_origin, shutdown, with_gate, start_up, loaded_config,
  World, ServeError, Serving, returns, then_destroy, with_manager, manager_made, then_close_gate,
  after_event, key_check, serve_with, in_mode, run_serve, api_base_needs_dev, bad_api_base,
  unsupported_source, not_loaded, no_logger, invalid_config, no_master_key, no_bot_token, no_gate,
  key_loaded, gate_made, key_destroyed,
}
use azath.Keymanager.Load.{load_error, load_effect}
use azath.Secret.{SecretError}
use azath.Commands.Serve.Undone.{
  has, is_key_loaded, is_gate_made, undos, reversed, IsDestroyed, IsZero, HasToken, IsUndone,
  has-append, in_order, returns-IsUndone, wiped-IsUndone, wiped-HasToken, gate-IsUndone,
}

-- What is left of the secrets, and of all that was made.
pub record IsCleanedUp (s : Serving) : Type 0 where
  pub key : IsDestroyed s.manager
  pub has_manager : (not (has is_key_loaded s.events) || is_some s.manager) ≡ true
  pub token : IsZero s.bot_token
  pub has_token : (not (has is_gate_made s.events) || is_some s.bot_token) ≡ true
  pub order : undos s.events ≡ reversed s.events

returns-IsCleanedUp : (e : ServeError) → IsCleanedUp (returns e [])
returns-IsCleanedUp e = record {
  key = tt;
  has_manager = refl;
  token = tt;
  has_token = refl;
  order = refl;
}

destroy-IsDestroyed :
    (m : Manager) (s : ManagerState) → m.state ≡ s → s ≢ destroyed → IsDestroyed (some (destroy m))
unfolding destroy
destroy-IsDestroyed m unloaded e n = rw e (refl, zero_bytes-zero m.key)
destroy-IsDestroyed m loaded e n = rw e (refl, zero_bytes-zero m.key)
destroy-IsDestroyed m destroyed e n = absurd (n refl)

-- The manager after its one Load, whether it succeeds or not.
fresh-destroyed : (r : SourceResult) → IsDestroyed (some (destroy (load unloaded r new).manager))
fresh-destroyed r = elim (Option-cases (load unloaded r new).error) [
  | inl n ↦
      destroy-IsDestroyed (load unloaded r new).manager loaded (load_effect unloaded r new n).2
        (λ h. cc h)
  | inr (e, f) ↦
      destroy-IsDestroyed (load unloaded r new).manager unloaded
        (ap (λ (m : Manager). m.state) (load_error unloaded r new e f) ∙ unfold new in refl)
        (λ h. cc h)
]

module _ (w : World) where
  serve_with-IsUndone :
      (cfg : Config) (km : Manager) (gate : Option Gate)
      → IsUndone (serve_with w cfg km gate) × HasToken (serve_with w cfg km gate)
  unfolding serve_with shutdown
  serve_with-IsUndone cfg km gate =
      elim (Option-cases (register (codes "master_key_loaded") key_check [])) [
        | inl n ↦ rw n (record { key = tt; token = tt; order = refl }, refl)
        | inr (checks, r) ↦ rw r (elim (Bool-cases (w.listens cfg.server.listen)) [
          | inr n ↦ rw n (record { key = tt; token = tt; order = refl }, refl)
          | inl y ↦ rw y (elim (Bool-cases w.graceful) [
            | inl g ↦ rw g (record { key = tt; token = tt; order = refl }, refl)
            | inr g ↦ rw g (record { key = tt; token = tt; order = refl }, refl)
          ])
        ])
      ]

  with_gate-IsUndone :
      (dev : Bool) (cfg : Config) (vc : ValidatedConfig) (km : Manager)
      → IsUndone (with_gate w dev cfg vc km) × HasToken (with_gate w dev cfg vc km)
  unfolding with_gate
  with_gate-IsUndone dev cfg vc km = elim (Bool-cases (is_telegram w.lib cfg.gate)) [
    | inr n ↦ rw n (serve_with-IsUndone cfg km none)
    | inl y ↦ rw y (
        token_stage (if dev then w.resolve_dev vc.bot_token_ref else w.resolve_op vc.bot_token_ref))
  ]
    where
      token_stage :
          (r : Result SecretError Bytes)
          → IsUndone (with_token w cfg vc km r) × HasToken (with_token w cfg vc km r)
      token_stage (err e) = (returns-IsUndone (no_bot_token e), refl)
      token_stage (ok token) =
          elim (Result-cases (new_telegram_gate (gate_arguments w cfg vc token))) [
            | inl (e, b) ↦ rw b (wiped-IsUndone token _ (returns-IsUndone (no_gate e)), refl)
            | inr (gate, g) ↦
                let served = serve_with w cfg km (some (w.answers gate)) in
                rw g (
                  wiped-IsUndone token _
                      (gate-IsUndone _ (serve_with-IsUndone cfg km (some (w.answers gate))).0),
                  wiped-HasToken token (after_event gate_made (then_close_gate served)),
                )
          ]

  destroyed-IsCleanedUp :
      (r : SourceResult) (s : Serving)
      → IsUndone s
      → HasToken s
      → IsCleanedUp (then_destroy (with_manager (load unloaded r new).manager s))
  destroyed-IsCleanedUp r s c t = record {
    key = fresh-destroyed r;
    has_manager = ground arith;
    token = c.token;
    has_token = ground (arith, has-append is_gate_made s.events (key_destroyed ∷ []));
    order = in_order manager_made key_destroyed s.events refl refl refl refl c.order;
  }

  load_key-IsCleanedUp :
      (dev : Bool) (cfg : Config) (vc : ValidatedConfig) → IsCleanedUp (load_key w dev cfg vc)
  unfolding load_key
  load_key-IsCleanedUp dev cfg vc =
      let r = file_source (w.key_file cfg.master_key.path) in
      elim (Bool-cases (text_eq cfg.master_key.source (codes "file"))) [
        | inr n ↦ rw n (returns-IsCleanedUp unsupported_source)
        | inl y ↦ rw y (elim (Option-cases (load unloaded r new).error) [
          | inr (e, f) ↦ rw f (destroyed-IsCleanedUp r _ (returns-IsUndone (no_master_key e)) refl)
          | inl n ↦
              let (c, t) = with_gate-IsUndone dev cfg vc (load unloaded r new).manager in
              rw n (
                destroyed-IsCleanedUp r
                  (after_event key_loaded (with_gate w dev cfg vc (load unloaded r new).manager))
                  (record { key = c.key; token = c.token; order = c.order }) t)
        ])
      ]

  loaded_config-IsCleanedUp :
      (dev : Bool) (r : Result Loading.LoadError Config) → IsCleanedUp (loaded_config w dev r)
  unfolding loaded_config
  loaded_config-IsCleanedUp dev (err e) = returns-IsCleanedUp (not_loaded e)
  loaded_config-IsCleanedUp dev (ok cfg) =
      let cfg' = in_mode w dev cfg in
      elim (Result-cases (new_logger w.lower cfg'.server.log_level cfg'.server.log_format)) [
        | inl (e, b) ↦ rw b (returns-IsCleanedUp (no_logger e))
        | inr (l, g) ↦ rw g (elim (Result-cases (validate w.lib w.uuids cfg')) [
          | inl (es, b) ↦ rw b (returns-IsCleanedUp (invalid_config es))
          | inr (vc, v) ↦ rw v (load_key-IsCleanedUp dev cfg' vc)
        ])
      ]

  start-IsCleanedUp : (dev : Bool) → IsCleanedUp (start_up w dev)
  unfolding start_up
  start-IsCleanedUp true = loaded_config-IsCleanedUp true (Loading.load w.yaml w.file)
  start-IsCleanedUp false =
      let c = loaded_config-IsCleanedUp false (Loading.load w.yaml w.file) in
      record {
        key = c.key;
        has_manager = c.has_manager;
        token = c.token;
        has_token = c.has_token;
        order = c.order;
      }

  -- However runServe ends, with an error at any of its stages or after serving: the key manager that
  -- it made is destroyed, with every byte of its key zero, and there is one if the key was loaded;
  -- every byte of the buffer of the bot token that was read is zero, and there is one if the gate was
  -- made; and the manager, the token, the gate and the server are undone exactly if they were made,
  -- in the reverse order.
  pub run_serve-IsCleanedUp :
      (dev : Bool) (api_base : Text) → IsCleanedUp (run_serve w dev api_base)
  unfolding run_serve
  run_serve-IsCleanedUp dev api_base = elim (Bool-cases (length api_base == 0)) [
    | inl y ↦ rw y (start-IsCleanedUp dev)
    | inr n ↦ rw n (elim (Bool-cases dev) [
      | inr d ↦ rw d (returns-IsCleanedUp api_base_needs_dev)
      | inl d ↦ elim (Option-cases (w.parse_url api_base)) [
        | inl b ↦ rw (d, b) (returns-IsCleanedUp bad_api_base)
        | inr (u, p) ↦
            rw (d, p)
              (elim (Bool-cases (is_origin w u)) [
                | inr o ↦ rw o (returns-IsCleanedUp bad_api_base)
                | inl o ↦ rw o (start-IsCleanedUp true)
              ])
      ]
    ])
  ]
