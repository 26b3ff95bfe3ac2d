-- ===== src/Commands/Serve/Made.antt =====
-- The key manager and the gate that runServe of cmd/azath/serve.go makes for a server.
use azath.Prelude.{
  Result-cases, ok, ◌==◌, if◌then◌else◌, Bool-cases, Option-cases, length, text_eq, Bytes, codes,
  ◌≡◌, refl, ◌⊎◌, inl, inr, Bool, true, false, Option, none, some, [], ◌∷◌,
}
use azath.Keymanager.{Manager, loaded, unloaded, file_source, load, new}
use azath.Keymanager.Load.{load_effect, load-Accepts}
use azath.Gate.Construction.{NewGate, magnitude, new_telegram_gate}
use azath.Config.{Config}
use azath.Config.Devices.{device_table}
use azath.Config.Validation.{ValidatedConfig, is_telegram}
use azath.Observability.{register}
use azath.Server.{KmsServer, Gate}
use azath.Commands.Serve.{gate_arguments, load_key, with_gate, World, key_check, serve_with}

-- A Telegram gate made from the validated configuration and the bot token that its reference names.
pub record IsGate (w : World) (dev : Bool) (cfg : Config) (vc : ValidatedConfig) (g : NewGate)
    : Type 0 where
  pub token : Bytes
  pub resolves :
      (if dev then w.resolve_dev vc.bot_token_ref else w.resolve_op vc.bot_token_ref) ≡ ok token
  pub makes :
      new_telegram_gate (record {
        server_name = cfg.server.name;
        bot_token = token;
        chat_id = vc.chat_id;
        authorized_user_id = vc.authorized_user;
        approval_ttl = vc.approval_ttl;
        approval_cache_ttl = vc.cache_ttl;
        intervals = magnitude vc.rate_limit ∷ [];
        random_key = w.random_key;
      })
      ≡ ok g

key_source : (o : Option Bytes) → (file_source o).fails ≡ false → o ≡ some (file_source o).raw
unfolding file_source
key_source none h = absurd (cc h)
key_source (some b) h = elim (Bool-cases (length b == 32)) [
  | inl y ↦ rw y refl
  | inr n ↦ absurd (cc (rw n at h))
]

module _ (w : World) (srv : KmsServer) where
  serve_with_server :
      (cfg : Config) (km : Manager) (gate : Option Gate)
      → (serve_with w cfg km gate).server ≡ some srv
      → srv ≡ record {
        km = km;
        metrics = w.metrics;
        gate = gate;
        devices = device_table w.uuids [] cfg.devices;
      }
  unfolding serve_with
  serve_with_server cfg km gate h =
      elim (Option-cases (register (codes "master_key_loaded") key_check [])) [
        | inl n ↦ absurd (cc (rw n at h))
        | inr (checks, r) ↦ elim (Bool-cases (w.listens cfg.server.listen)) [
          | inr n ↦ cc (rw (r, n) at h)
          | inl y ↦ cc (rw (r, y) at h)
        ]
      ]

  -- The gate of a server, and the server around it.
  abbrev pub HasGate : Bool → Config → ValidatedConfig → Manager → Type 0
  HasGate dev cfg vc km =
      (gate : Option Gate) × (((is_telegram w.lib cfg.gate ≡ true)
          × (g : NewGate) × IsGate w dev cfg vc g
          × (gate ≡ some (w.answers g)))
        ⊎ ((is_telegram w.lib cfg.gate ≡ false) × (gate ≡ none)))
      × (srv ≡ record {
        km = km;
        metrics = w.metrics;
        gate = gate;
        devices = device_table w.uuids [] cfg.devices;
      })

  with_gate_server :
      (dev : Bool) (cfg : Config) (vc : ValidatedConfig) (km : Manager)
      → (with_gate w dev cfg vc km).server ≡ some srv
      → HasGate dev cfg vc km
  unfolding with_gate gate_arguments
  with_gate_server dev cfg vc km h = elim (Bool-cases (is_telegram w.lib cfg.gate)) [
    | inr n ↦ (none, inr (n, refl), serve_with_server cfg km none (rw n at h))
    | inl y ↦
        elim (Result-cases
          (if dev then w.resolve_dev vc.bot_token_ref else w.resolve_op vc.bot_token_ref)) [
            | inl (e, b) ↦ absurd (cc (rw (y, b) at h))
            | inr (token, r) ↦
                elim (Result-cases (new_telegram_gate (gate_arguments w cfg vc token))) [
                  | inl (e, b) ↦ absurd (cc (rw (y, r, b) at h))
                  | inr (g, k) ↦ (
                    some (w.answers g),
                    inl (y, g, record { token = token; resolves = r; makes = k }, refl),
                    serve_with_server cfg km (some (w.answers g)) (rw (y, r, k) at h),
                  )
                ]
          ]
  ]

  -- The key that the server works with.
  abbrev pub HasKey : Bool → Config → ValidatedConfig → Type 0
  HasKey dev cfg vc =
      (km : Manager) × (key : Bytes) × (w.key_file cfg.master_key.path ≡ some key)
      × (length key ≡ 32)
      × (km.key ≡ key)
      × (km.state ≡ loaded)
      × HasGate dev cfg vc km

  pub load_key_server :
      (dev : Bool) (cfg : Config) (vc : ValidatedConfig)
      → (load_key w dev cfg vc).server ≡ some srv
      → HasKey dev cfg vc
  unfolding load_key
  load_key_server dev cfg vc h =
      let r = file_source (w.key_file cfg.master_key.path) in
      elim (Bool-cases (text_eq cfg.master_key.source (codes "file"))) [
        | inr n ↦ absurd (cc (rw n at h))
        | inl y ↦ elim (Option-cases (load unloaded r new).error) [
          | inr (e, f) ↦ absurd (cc (rw (y, f) at h))
          | inl n ↦
              let a = (load-Accepts unloaded r new).0 n in
              let (k, nil, state, gauge) = load_effect unloaded r new n in
              let g = with_gate_server dev cfg vc (load unloaded r new).manager (rw (y, n) at h) in
              let f = key_source (w.key_file cfg.master_key.path) a.no_error in
              (
                (load unloaded r new).manager,
                (file_source (w.key_file cfg.master_key.path)).raw,
                f,
                a.right_size,
                k,
                state,
                g,
              )
        ]
      ]
