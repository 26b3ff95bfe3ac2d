-- ===== src/Commands/Devices/Runs/Checked.antt =====
-- The validate command of cmd/azath/config_cmd.go.
use azath.Prelude.{
  Result, Result-cases, ok, err, if◌then◌else◌, Bytes, ◌≡◌, refl, ◌↔◌, inl, inr, Bool, true, Option,
  List,
}
use azath.Uuid.{UuidLibrary}
use azath.Config.{Config}
use azath.Config.Validation.{StandardLibrary, ConfigError, ValidatedConfig}
use azath.Config.Validate.{validate}
use azath.Config.Loading.{ServerYaml, LoadError, load}
use azath.Client.{
  ClientConfig, ClientError, YamlDecoder, NetLibrary, FileContents, load_client_config,
}

pub data CheckedType : Type 0 where
  server_config client_config : CheckedType

pub data CheckError : Type 0 where
  validation_failed : List ConfigError → CheckError
  loading_failed : LoadError → CheckError
  not_printed : CheckError

module _ (lib : StandardLibrary) (u : UuidLibrary) (net : NetLibrary) (prints : Bool) where
  print_valid : CheckedType → Result CheckError CheckedType
  print_valid t = if prints then ok t else err not_printed

  after_validation : Result (List ConfigError) ValidatedConfig → Result CheckError CheckedType
  unfolding print_valid
  after_validation (ok vc) = print_valid server_config
  after_validation (err es) = err (validation_failed es)

  after_client : LoadError → Result ClientError ClientConfig → Result CheckError CheckedType
  unfolding print_valid
  after_client e (ok cfg) = print_valid client_config
  after_client e (err _) = err (loading_failed e)

  after_load :
      Result ClientError ClientConfig → Result LoadError Config → Result CheckError CheckedType
  unfolding after_validation after_client
  after_load client (ok cfg) = after_validation (validate lib u cfg)
  after_load client (err e) = after_client e client

  -- RunE of newConfigValidateCmd: the type that it prints, or its error. The file is none if it
  -- cannot be read as a whole, and `again` is what the second read, for the client, finds.
  unfoldable pub validate_command :
      ServerYaml → YamlDecoder → Option Bytes → FileContents → Result CheckError CheckedType
  unfolding after_load
  validate_command server client file again =
      after_load (load_client_config client net u again) (load server file)

  -- The command reports a server configuration exactly if the file loads as one and is valid, and a
  -- client configuration exactly if it does not load as a server's and is usable as a client's; a
  -- server configuration that is not valid is never taken for a client's.
  pub validate_command_iff :
      (server : ServerYaml) (client : YamlDecoder) (file : Option Bytes) (again : FileContents)
      → prints ≡ true
      → ((validate_command server client file again ≡ ok server_config) ↔ (
          (cfg : Config) × (vc : ValidatedConfig) × (load server file ≡ ok cfg)
          × (validate lib u cfg ≡ ok vc)))
        × ((validate_command server client file again ≡ ok client_config) ↔ (
            (e : LoadError) × (cfg : ClientConfig) × (load server file ≡ err e)
            × (load_client_config client net u again ≡ ok cfg)))
  unfolding validate_command
  validate_command_iff server client file again p = elim (Result-cases (load server file)) [
    | inl (e, b) ↦ elim (Result-cases (load_client_config client net u again)) [
      | inl (x, n) ↦
          rw (b, n)
            (
              (λ h. absurd (cc h), λ k. absurd (cc (k.2))),
              (λ h. absurd (cc h), λ k. absurd (cc (k.3))),
            )
      | inr (cfg, g) ↦
          rw (b, g, p)
            ((λ h. absurd (cc h), λ k. absurd (cc (k.2))), (λ h. (e, cfg, refl, refl), λ k. refl))
    ]
    | inr (cfg, g) ↦ elim (Result-cases (validate lib u cfg)) [
      | inl (es, n) ↦
          rw (g, n)
            (
              (λ h. absurd (cc h), λ k. absurd (cc (n, k.2, k.3))),
              (λ h. absurd (cc h), λ k. absurd (cc (k.2))),
            )
      | inr (vc, v) ↦
          rw (g, v, p)
            ((λ h. (cfg, vc, refl, v), λ k. refl), (λ h. absurd (cc h), λ k. absurd (cc (k.2))))
    ]
  ]
