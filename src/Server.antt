-- ===== src/Server.antt =====
-- internal/server: the KMS service (server.go, response.go) and its interceptors
-- (interceptors.go). The UUID library, the gate and the entropy are parameters.
pub mod Handlers
pub mod Unseal
pub mod Seal
pub mod Interceptors
use azath.Prelude.{Text, Bytes, Assoc, ℕ, Bool, Option}
use azath.Crypto.Sealer.{Sealer}
use azath.Crypto.Sealer
use azath.Keymanager.{Manager}
use azath.Keymanager
use azath.Gate.{Device, Decision}

pub record DeviceInfo : Type 0 where
  pub name : Text
  pub uuid : Text
  pub disabled : Bool

-- What gate.Check does: it decides, returns an error, or panics.
pub data GateAnswer : Type 0 where
  decides : Decision → GateAnswer
  fails panics : GateAnswer

abbrev pub Gate : Type 0
Gate = Device → GateAnswer

-- The labels of azath_unseal_total.
pub data Reason : Type 0 where
  done unknown_uuid disabled master_key_not_loaded gate_denied decrypt_error wrong_instance_reason :
      Reason

pub Reason-discrete : Discrete Reason
Reason-discrete = hlevel

-- The metrics that the service writes; a histogram counts its observations.
pub record Metrics : Type 0 where
  pub seal_total : ℕ
  pub seal_duration : ℕ
  pub unseal_total : Reason → ℕ
  pub unseal_duration : ℕ
  pub gate_api_errors : ℕ

-- KMSServer; a nil gate is none.
pub record KmsServer : Type 0 where
  pub km : Manager
  pub metrics : Metrics
  pub gate : Option Gate
  pub devices : Assoc DeviceInfo

pub record Request : Type 0 where
  pub node_uuid : Text
  pub payload : Bytes

pub data Code : Type 0 where
  invalid_argument permission_denied internal : Code

-- What a handler does: it returns a response with its data, a status, or panics.
pub data Reply : Type 0 where
  response : Bytes → Reply
  status : Code → Reply
  panicked : Reply

-- crypto/rand: the seed of NewSealer, and the bytes that fill a buffer of a given length.
pub record Entropy : Type 0 where
  pub seed : Option Bytes
  pub fill : ℕ → Bytes
