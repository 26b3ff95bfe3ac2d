-- ===== src/Server/Handlers.antt =====
-- The handlers of internal/server/server.go and randomResponse of response.go.
use azath.Prelude.{
  Result, ok, err, leb, if◌then◌else◌, length, Text, Bytes, lookup, Assoc, ℕ, ◌+◌, ◌-◌, Option,
  none, some, [],
}
use azath.Crypto.Primitives.{Primitives}
use azath.Crypto.Sealer.{
  Sealer, SealerError, destroyed_error, wrong_instance, decrypt_failed, short_blob, nil_aead,
  min_sealed_len, key_size,
}
use azath.Crypto.Sealer
use azath.Keymanager.{GetError}
use azath.Keymanager
use azath.Uuid.{UuidLibrary}
use azath.Gate.{Device, denied, approved}
use azath.Server.{
  DeviceInfo, GateAnswer, decides, fails, panics, Gate, Reason, done, unknown_uuid, disabled,
  master_key_not_loaded, gate_denied, decrypt_error, wrong_instance_reason, Reason-discrete,
  Metrics, KmsServer, Request, invalid_argument, permission_denied, internal, Reply, response,
  status, panicked, Entropy,
}

-- The length of randomResponse's data.
unfoldable pub random_len : Bytes → ℕ
random_len payload =
    if leb (length payload) min_sealed_len then key_size else length payload - min_sealed_len

-- randomResponse; the request is none where the interceptor has no *kms.Request.
unfoldable pub random_response : Entropy → Option Request → Bytes
random_response e none = e.fill (random_len [])
random_response e (some req) = e.fill (random_len req.payload)

-- The device of a canonical UUID, or why it is refused.
pub data Lookup : Type 0 where
  not_a_uuid not_configured is_disabled : Lookup
  serves : Text → DeviceInfo → Lookup

found_device : Text → Option DeviceInfo → Lookup
found_device id none = not_configured
found_device id (some dev) = if dev.disabled then is_disabled else serves id dev

parsed_device : UuidLibrary → Assoc DeviceInfo → Option Bytes → Lookup
unfolding found_device
parsed_device u devices none = not_a_uuid
parsed_device u devices (some bits) =
    let id = u.to_string bits in found_device id (lookup id devices)

-- The first checks of Seal and Unseal.
unfoldable pub find_device : UuidLibrary → Assoc DeviceInfo → Text → Lookup
unfolding parsed_device
find_device u devices node_uuid = parsed_device u devices (u.parse node_uuid)

-- Seal ---------------------------------------------------------------------------------------

sealed_reply : KmsServer → Result SealerError Bytes → Reply × KmsServer
sealed_reply s (err e) = (status internal, s)
sealed_reply s (ok sealed) = (
  response sealed,
  record s {
    metrics = record s.metrics {
      seal_total = s.metrics.seal_total + 1;
      seal_duration = s.metrics.seal_duration + 1;
    };
  },
)

seal_with : Primitives → KmsServer → Bytes → Text → Result GetError Sealer → Reply × KmsServer
unfolding sealed_reply
seal_with c s payload id (err e) = (status internal, s)
seal_with c s payload id (ok sealer) = sealed_reply s (Sealer.seal c sealer payload id).0

seal_for : Primitives → KmsServer → Entropy → Bytes → Lookup → Reply × KmsServer
unfolding seal_with
seal_for c s e payload not_a_uuid = (status invalid_argument, s)
seal_for c s e payload not_configured = (status permission_denied, s)
seal_for c s e payload is_disabled = (status permission_denied, s)
seal_for c s e payload (serves id dev) = seal_with c s payload id (Keymanager.sealer c s.km e.seed)

-- Seal.
unfoldable pub seal : Primitives → UuidLibrary → KmsServer → Entropy → Request → Reply × KmsServer
unfolding seal_for
seal c u s e req = seal_for c s e req.payload (find_device u s.devices req.node_uuid)

-- Unseal -------------------------------------------------------------------------------------

-- How an Unseal ends, before metrics are written and the response is made.
pub data Ending : Type 0 where
  opened : Bytes → Ending
  refused : Reason → Ending
  gate_failed gate_panicked : Ending

-- The `errors.Is` tests on the error of Sealer.Unseal.
unfoldable pub reason_of : SealerError → Reason
reason_of short_blob = wrong_instance_reason
reason_of wrong_instance = wrong_instance_reason
reason_of destroyed_error = decrypt_error
reason_of decrypt_failed = decrypt_error
reason_of nil_aead = decrypt_error

-- The second Sealer.Unseal, after the approval.
unfoldable pub open_blob : Result SealerError Bytes → Ending
unfolding reason_of
open_blob (ok plaintext) = opened plaintext
open_blob (err e) = refused (reason_of e)

after_answer : Result SealerError Bytes → GateAnswer → Ending
unfolding open_blob
after_answer r (decides approved) = open_blob r
after_answer r (decides denied) = refused gate_denied
after_answer r fails = gate_failed
after_answer r panics = gate_panicked

ask_gate : Option Gate → Device → Result SealerError Bytes → Ending
unfolding after_answer
ask_gate none dev r = refused gate_denied
ask_gate (some gate) dev r = after_answer r (gate dev)

-- The first Sealer.Unseal checks the blob before anybody is asked; the second follows the answer.
validated : Option Gate → Device → Result SealerError Bytes → Result SealerError Bytes → Ending
unfolding ask_gate reason_of
validated gate dev (err e) second = refused (reason_of e)
validated gate dev (ok plaintext) second = ask_gate gate dev second

unseal_with : Primitives → Option Gate → Bytes → Text → DeviceInfo → Result GetError Sealer → Ending
unfolding validated
unseal_with c gate payload id dev (err e) = refused master_key_not_loaded
unseal_with c gate payload id dev (ok sealer) =
    validated gate (record { name = dev.name; uuid = id }) (Sealer.unseal c sealer payload id)
      (Sealer.unseal c sealer payload id)

unseal_for : Primitives → KmsServer → Entropy → Bytes → Lookup → Ending
unfolding unseal_with
unseal_for c s e payload not_a_uuid = refused unknown_uuid
unseal_for c s e payload not_configured = refused unknown_uuid
unseal_for c s e payload is_disabled = refused disabled
unseal_for c s e payload (serves id dev) =
    unseal_with c s.gate payload id dev (Keymanager.sealer c s.km e.seed)

unfoldable pub ending : Primitives → UuidLibrary → KmsServer → Entropy → Request → Ending
unfolding unseal_for
ending c u s e req = unseal_for c s e req.payload (find_device u s.devices req.node_uuid)

-- UnsealTotal.WithLabelValues(reason).Inc() and UnsealDuration.Observe
unfoldable pub count_unseal : Reason → Metrics → Metrics
count_unseal r m = record m {
  unseal_total =
      λ q. elim (Reason-discrete q r) [ yes _ ↦ m.unseal_total q + 1 | no _ ↦ m.unseal_total q ];
  unseal_duration = m.unseal_duration + 1;
}

unfoldable pub finish : Entropy → Request → KmsServer → Ending → Reply × KmsServer
unfolding random_response
finish e req s (opened plaintext) =
    (response plaintext, record s { metrics = count_unseal done s.metrics })
finish e req s (refused r) =
    (response (random_response e (some req)), record s { metrics = count_unseal r s.metrics })
finish e req s gate_failed = (
  response (random_response e (some req)),
  record s {
    metrics =
        count_unseal gate_denied
          (record s.metrics { gate_api_errors = s.metrics.gate_api_errors + 1 });
  },
)
finish e req s gate_panicked = (panicked, s)

-- Unseal.
unfoldable pub unseal : Primitives → UuidLibrary → KmsServer → Entropy → Request → Reply × KmsServer
unfolding finish
unseal c u s e req = finish e req s (ending c u s e req)
