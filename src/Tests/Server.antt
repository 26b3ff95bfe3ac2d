-- ===== src/Tests/Server.antt =====
-- The properties of the KMS service at concrete inputs.
use azath.Prelude.{
  ok, length, replicate, length-replicate, text_eq, has_suffix, Text, Bytes, codes, lookup, ◌-◌,
  ◌≡◌, refl, ap, ◌⊎◌, true, false, none, some, [], ◌∷◌, arith,
}
use azath.Crypto.Sealer.{Sealer, new_sealer}
use azath.Crypto.Sealer
use azath.Crypto.Words.{u64_le}
use azath.Keymanager.{key_copy, sealer, copy_bytes}
use azath.Server.{KmsServer, Gate, response, panics}
use azath.Server.Handlers.{random_len, ending, find_device, seal, unseal}
use azath.Server.Unseal.{Authorised}
use azath.Server.Unseal.Oracle.{response_length}
use azath.Server.Unseal.Prompts.{Prompts, gate_not_asked, label, IsCounted, unseal-IsCounted}
use azath.Server.Seal.{Admits, unseal-seal_served}
use azath.Server.Interceptors.{served, intercept, served_outcome, served_alike, unseal_suffix}
use azath.Tests.Fixtures.{
  toy, toy-IsLawful, toy_uuid, entropy, server, good_request, bad_request, nas_uuid, nas_bits,
  nas_info, master_key, seed, manager, blob, approving, metrics,
}

abbrev pub method : Text
method = codes "/kms.KMSService/Unseal"

pub method_is_unseal : has_suffix method unseal_suffix ≡ true
unfolding has_suffix
method_is_unseal = refl

served_outcome_example :
    ((plain : Bytes) × Authorised toy toy_uuid server entropy good_request plain
      × (served toy toy_uuid entropy method server good_request ≡ response plain))
    ⊎ (((plain : Bytes) → ¬ Authorised toy toy_uuid server entropy good_request plain)
        × (served toy toy_uuid entropy method server good_request
            ≡ response (replicate (random_len blob) 8)))
served_outcome_example =
    served_outcome toy toy_uuid entropy method method_is_unseal server good_request

-- The server gives the plaintext to the good request.
good_reply : served toy toy_uuid entropy method server good_request ≡ response (6 ∷ 6 ∷ 6 ∷ [])
unfolding served intercept unseal ending find_device lookup text_eq sealer key_copy new_sealer
    copy_bytes Sealer.unseal
good_reply = refl

-- The same server with a gate that panics, and with no devices.
abbrev panicking : KmsServer
panicking = record server { gate = some (λ d. panics) }

abbrev pub empty_server : KmsServer
empty_server = record server { devices = [] }

panicking_refuses : (plain : Bytes) → ¬ Authorised toy toy_uuid panicking entropy good_request plain
panicking_refuses plain a =
    let same : ◌≡◌ {A = Gate} (λ d. panics) a.gate = cc (a.has_gate) in
    cc (
      ap (λ g. g (record { name = a.dev.name; uuid = toy_uuid.to_string a.bits })) same,
      a.approves,
    )

pub empty_refuses :
    (plain : Bytes) → ¬ Authorised toy toy_uuid empty_server entropy good_request plain
unfolding lookup
empty_refuses plain a = cc (a.configured)

served_alike_example :
    served toy toy_uuid entropy method panicking good_request
    ≡ served toy toy_uuid entropy method empty_server good_request
served_alike_example =
    served_alike toy toy_uuid entropy method method_is_unseal panicking empty_server good_request
      panicking_refuses empty_refuses

pub nas_configured : lookup nas_uuid server.devices ≡ some nas_info
unfolding lookup text_eq
nas_configured = refl

abbrev admitted : Admits toy_uuid server (record { node_uuid = nas_uuid; payload = 1 ∷ 2 ∷ [] })
admitted = record {
  bits = nas_bits;
  parses = refl;
  dev = nas_info;
  configured = nas_configured;
  enabled = refl;
}

abbrev pub built : Sealer
built = record {
  key = master_key;
  key_nil = false;
  instance_tag = replicate 4 7;
  aead = some master_key;
  destroyed = false;
  nonce_prefix = replicate 4 2;
  nonce_ctr = 144680345676153346;
}

pub manager_key : key_copy manager ≡ ok master_key
unfolding key_copy copy_bytes
manager_key = refl

pub manager_sealer : sealer toy manager (some seed) ≡ ok built
unfolding sealer key_copy new_sealer copy_bytes u64_le
manager_sealer = refl

unseal-seal_served_example :
    (b : Bytes) × ((seal toy toy_uuid server entropy
        (record { node_uuid = nas_uuid; payload = 1 ∷ 2 ∷ [] })).0
      ≡ response b)
    × ((unseal toy toy_uuid server entropy (record { node_uuid = nas_uuid; payload = b })).0
        ≡ response (1 ∷ 2 ∷ []))
unseal-seal_served_example =
    unseal-seal_served toy toy_uuid server server entropy entropy nas_uuid nas_uuid (1 ∷ 2 ∷ [])
      master_key built built approving admitted toy-IsLawful (refl, omega arith) (refl, omega arith)
      manager_key manager_key manager_sealer manager_sealer refl nas_configured refl refl

bad_reply : (unseal toy toy_uuid server entropy bad_request).0 ≡ response (replicate 3 8)
unfolding unseal ending find_device random_len
bad_reply = refl

response_length_example : 3 ≡ length blob - 32
response_length_example =
    response_length toy toy_uuid server entropy bad_request (replicate 3 8) toy-IsLawful
      (λ n. length-replicate n 8) (refl, omega arith) (omega arith) bad_reply

bad-Prompts : ¬ Prompts toy toy_uuid server entropy bad_request
bad-Prompts a = cc (a.parses)

gate_not_asked_example :
    ending toy toy_uuid (record server { gate = none }) entropy bad_request
    ≡ ending toy toy_uuid panicking entropy bad_request
gate_not_asked_example =
    gate_not_asked toy toy_uuid server entropy bad_request none (some (λ d. panics)) bad-Prompts

unseal-IsCounted_example :
    IsCounted
      (label (ending toy toy_uuid server entropy good_request))
      metrics
      (unseal toy toy_uuid server entropy good_request).1.metrics
unseal-IsCounted_example = unseal-IsCounted toy toy_uuid server entropy good_request
