-- ===== src/Commands/Serve/Started.antt =====
-- What runServe of cmd/azath/serve.go has made sure of before there is a server.
use azath.Prelude.{
  Result-cases, ok, ◌==◌, Bool-cases, Option-cases, length, All, Text, Bytes, size, ◌≡◌, refl, ap,
  ◌∙◌, ◌⊎◌, inl, inr, Bool, true, false, Option, none, some, List, [],
}
use azath.Keymanager.{is_loaded, Manager, loaded}
use azath.Gate.Construction.{NewGate}
use azath.Config.{GateConfig, DeviceConfig, Config}
use azath.Config.Loading
use azath.Config.Devices.Table.{IsServed, validated-IsServed}
use azath.Config.Validation.{ValidatedConfig, is_telegram}
use azath.Config.Validate.{validate}
use azath.Config.Validate.Served.{validated_served}
use azath.Observability.{passes, new_logger}
use azath.Server.{KmsServer}
use azath.Commands.Serve.{
  start_up, loaded_config, is_origin, load_key, World, key_check, in_mode, run_serve,
}
use azath.Commands.Serve.Made.{IsGate, HasGate, load_key_server}

-- The key manager, the devices and the gate that a server is made with.
pub record IsStarted (w : World) (dev : Bool) (srv : KmsServer) : Type 0 where
  pub read : Config
  pub loads : Loading.load w.yaml w.file ≡ ok read
  pub vc : ValidatedConfig
  pub valid : validate w.lib w.uuids (in_mode w dev read) ≡ ok vc
  pub key : Bytes
  pub key_file : w.key_file read.master_key.path ≡ some key
  pub key_size : length key ≡ 32
  pub has_key : (srv.km.key ≡ key) × (srv.km.state ≡ loaded)
  pub devices : All (IsServed w.uuids srv.devices) read.devices
  pub gate :
      ((is_telegram w.lib read.gate ≡ true)
        × (g : NewGate) × IsGate w dev (in_mode w dev read) vc g
        × (srv.gate ≡ some (w.answers g)))
      ⊎ ((read.gate ≡ none) × (read.devices ≡ []) × (srv.gate ≡ none))

module _ (w : World) (srv : KmsServer) where
  -- A gate, and devices that are served with it.
  gate_of_valid :
      (dev : Bool) (cfg : Config) (vc : ValidatedConfig) (km : Manager)
      → validate w.lib w.uuids cfg ≡ ok vc
      → HasGate w srv dev cfg vc km
      → (srv.km ≡ km)
        × All (IsServed w.uuids srv.devices) cfg.devices
        × (((is_telegram w.lib cfg.gate ≡ true)
              × (g : NewGate) × IsGate w dev cfg vc g
              × (srv.gate ≡ some (w.answers g)))
            ⊎ ((cfg.gate ≡ none) × (cfg.devices ≡ []) × (srv.gate ≡ none)))
  gate_of_valid dev cfg vc km v (gate, k, e) =
      let (devices, telegram) = validated_served w.lib w.uuids cfg vc v in
      let same : srv.gate ≡ gate = ap (λ (s : KmsServer). s.gate) e in
      (
        ap (λ (s : KmsServer). s.km) e,
        rw e (validated-IsServed w.uuids cfg.devices devices),
        elim k [
          | inl (y, g, made, there) ↦ inl (y, g, made, same ∙ there)
          | inr (n, there) ↦ elim telegram [
            | inl y ↦ absurd (cc (n, y))
            | inr (o, d) ↦ inr (o, d, same ∙ there)
          ]
        ],
      )

  -- What a server shows of the path of its key, its devices and its gate.
  abbrev Facts : (NewGate → Type 0) → Text → List DeviceConfig → Option GateConfig → Type 0
  Facts Made path ds gate =
      (key : Bytes) × (w.key_file path ≡ some key)
      × (length key ≡ 32)
      × ((srv.km.key ≡ key) × (srv.km.state ≡ loaded))
      × All (IsServed w.uuids srv.devices) ds
      × (((is_telegram w.lib gate ≡ true)
            × (g : NewGate) × Made g
            × (srv.gate ≡ some (w.answers g)))
          ⊎ ((gate ≡ none) × (ds ≡ []) × (srv.gate ≡ none)))

  facts :
      (dev : Bool) (cfg : Config) (vc : ValidatedConfig)
      → validate w.lib w.uuids cfg ≡ ok vc
      → (load_key w dev cfg vc).server ≡ some srv
      → Facts (IsGate w dev cfg vc) cfg.master_key.path cfg.devices cfg.gate
  facts dev cfg vc v h =
      let (km, key, f, size, k, state, g) = load_key_server w srv dev cfg vc h in
      let (same, devices, gate) = gate_of_valid dev cfg vc km v g in
      (
        key,
        f,
        size,
        (ap (λ (m : Manager). m.key) same ∙ k, ap (λ (m : Manager). m.state) same ∙ state),
        devices,
        gate,
      )

  -- The development mode changes none of what the facts are about.
  Facts-in_mode :
      (dev : Bool) (read : Config) (vc : ValidatedConfig)
      → validate w.lib w.uuids (in_mode w dev read) ≡ ok vc
      → (load_key w dev (in_mode w dev read) vc).server ≡ some srv
      → Facts (IsGate w dev (in_mode w dev read) vc) read.master_key.path read.devices read.gate
  Facts-in_mode true read vc v h = facts true (in_mode w true read) vc v h
  Facts-in_mode false read vc v h = facts false read vc v h

  IsStarted-of :
      (dev : Bool) (read : Config) (vc : ValidatedConfig)
      → Loading.load w.yaml w.file ≡ ok read
      → validate w.lib w.uuids (in_mode w dev read) ≡ ok vc
      → (load_key w dev (in_mode w dev read) vc).server ≡ some srv
      → IsStarted w dev srv
  IsStarted-of dev read vc l v h =
      let (key, f, size, k, devices, gate) = Facts-in_mode dev read vc v h in
      record {
        read = read;
        loads = l;
        vc = vc;
        valid = v;
        key = key;
        key_file = f;
        key_size = size;
        has_key = k;
        devices = devices;
        gate = gate;
      }

  loaded_config_server :
      (dev : Bool)
      → (loaded_config w dev (Loading.load w.yaml w.file)).server ≡ some srv
      → IsStarted w dev srv
  unfolding loaded_config
  loaded_config_server dev h = elim (Result-cases (Loading.load w.yaml w.file)) [
    | inl (e, b) ↦ absurd (cc (rw b at h))
    | inr (cfg, l) ↦
        let cfg' = in_mode w dev cfg in
        elim (Result-cases (new_logger w.lower cfg'.server.log_level cfg'.server.log_format)) [
          | inl (e, b) ↦ absurd (cc (rw (l, b) at h))
          | inr (x, g) ↦ elim (Result-cases (validate w.lib w.uuids cfg')) [
            | inl (es, b) ↦ absurd (cc (rw (l, g, b) at h))
            | inr (vc, v) ↦ IsStarted-of dev cfg vc l v (rw (l, g, v) at h)
          ]
        ]
  ]

  start_up_server : (dev : Bool) → (start_up w dev).server ≡ some srv → IsStarted w dev srv
  unfolding start_up
  start_up_server true h = loaded_config_server true h
  start_up_server false h = loaded_config_server false h

  -- runServe makes a server only from a file that loads and, in its mode, is valid, and with a key
  -- manager that holds the 32 bytes of the configured key file. The server serves every configured
  -- device under its canonical UUID, and its gate is a Telegram gate that NewTelegramGate makes from
  -- the validated user, chat, times and prompt interval, and from the bot token to which the validated reference
  -- resolves in its mode; only a configuration without any devices is served without a gate.
  pub run_serve-IsStarted :
      (dev : Bool) (api_base : Text)
      → (run_serve w dev api_base).server ≡ some srv
      → IsStarted w dev srv
  unfolding run_serve
  run_serve-IsStarted dev api_base h = elim (Bool-cases (length api_base == 0)) [
    | inl y ↦ start_up_server dev (rw y at h)
    | inr n ↦ elim (Bool-cases dev) [
      | inr d ↦ absurd (cc (rw (n, d) at h))
      | inl d ↦ elim (Option-cases (w.parse_url api_base)) [
        | inl b ↦ absurd (cc (rw (n, d, b) at h))
        | inr (u, p) ↦ elim (Bool-cases (is_origin w u)) [
          | inr o ↦ absurd (cc (rw (n, d, p, o) at h))
          | inl o ↦ rw d (start_up_server true (rw (n, d, p, o) at h))
        ]
      ]
    ]
  ]

-- Until the shutdown the readiness check of a started server passes.
pub key_check-Passes :
    (w : World) (dev : Bool) (srv : KmsServer) → IsStarted w dev srv → key_check srv.km ≡ passes
unfolding key_check is_loaded
key_check-Passes w dev srv s = rw (s.has_key.1) refl
