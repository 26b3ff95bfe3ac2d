-- ===== src/Server/Unseal.antt =====
-- What Unseal of internal/server/server.go gives to its callers.
pub mod Oracle
pub mod Prompts
use azath.Prelude.{
  Result-cases, ok, Option-cases, Bytes, lookup, ◌≡◌, refl, ap, ◌≢◌, ◌⊎◌, inl, inr, false, some,
  arith,
}
use azath.Crypto.Primitives.{Primitives}
use azath.Crypto.Sealer.{Sealer}
use azath.Crypto.Sealer
use azath.Keymanager
use azath.Uuid.{UuidLibrary}
use azath.Gate.{approved}
use azath.Server.{
  DeviceInfo, Gate, Reason, Reason-discrete, Metrics, KmsServer, Request, Entropy, decides, done,
  unknown_uuid, gate_denied, response,
}
use azath.Server.Handlers.{
  random_len, find_device, Ending, open_blob, ending, count_unseal, finish, unseal, opened, refused,
  gate_failed, gate_panicked,
}

-- Everything that has to hold for the plaintext to leave the server: the request names a
-- configured and enabled device by a valid UUID, the master key is there, a gate is configured and
-- approves exactly that device, and the blob decrypts under the key with the canonical UUID as its
-- additional data.
pub record Authorised (c : Primitives) (u : UuidLibrary) (s : KmsServer) (e : Entropy)
    (req : Request) (plain : Bytes) : Type 0 where
  pub bits : Bytes
  pub parses : u.parse req.node_uuid ≡ some bits
  pub dev : DeviceInfo
  pub configured : lookup (u.to_string bits) s.devices ≡ some dev
  pub enabled : dev.disabled ≡ false
  pub sealer : Sealer
  pub has_key : Keymanager.sealer c s.km e.seed ≡ ok sealer
  pub opens : Sealer.unseal c sealer req.payload (u.to_string bits) ≡ ok plain
  pub gate : Gate
  pub has_gate : s.gate ≡ some gate
  pub approves : gate (record { name = dev.name; uuid = u.to_string bits }) ≡ decides approved

module _ (c : Primitives) (u : UuidLibrary) (s : KmsServer) (e : Entropy) (req : Request) where
  opened_Authorised :
      (plain : Bytes) → ending c u s e req ≡ opened plain → Authorised c u s e req plain
  unfolding ending find_device open_blob
  opened_Authorised plain h = elim (Option-cases (u.parse req.node_uuid)) [
    | inl n ↦ absurd (ground arith)
    | inr (bits, p) ↦ elim (Option-cases (lookup (u.to_string bits) s.devices)) [
      | inl n ↦ absurd (ground arith)
      | inr (dev, q) ↦ elim (Result-cases (Keymanager.sealer c s.km e.seed)) [
        | inl (x, n) ↦ absurd (ground arith)
        | inr (sealer, k) ↦ elim (Option-cases s.gate) [
          | inl n ↦ absurd (ground arith)
          | inr (gate, g) ↦ record {
            bits = bits;
            parses = p;
            dev = dev;
            configured = q;
            enabled = ground arith;
            sealer = sealer;
            has_key = k;
            opens = ground arith;
            gate = gate;
            has_gate = g;
            approves = ground arith;
          }
        ]
      ]
    ]
  ]

  pub Authorised-opened :
      (plain : Bytes) → Authorised c u s e req plain → ending c u s e req ≡ opened plain
  unfolding ending find_device open_blob
  Authorised-opened plain a = rw (a.parses) (ground arith)

  ending-ne-refused_done : ending c u s e req ≢ refused done
  unfolding ending find_device open_blob
  ending-ne-refused_done h = ground arith

  refused_done :
      (r : Reason) (m : Metrics)
      → r ≢ done
      → (count_unseal r m).unseal_total done ≡ m.unseal_total done
  unfolding count_unseal Reason-discrete
  refused_done done m h = absurd (h refl)
  refused_done unknown_uuid m h = refl
  refused_done _ m h = refl

  -- The reply to a request that is not authorised, and the count of successes after it.
  refused_reply :
      (x : Ending)
      → ((plain : Bytes) → x ≢ opened plain)
      → x ≢ refused done
      → x ≢ gate_panicked
      → ((finish e req s x).0 ≡ response (e.fill (random_len req.payload)))
        × ((finish e req s x).1.metrics.unseal_total done ≡ s.metrics.unseal_total done)
  unfolding finish
  refused_reply (opened p) n d h = absurd (n p refl)
  refused_reply (refused r) n d h = (refl, refused_done r s.metrics (λ q. d (ap refused q)))
  refused_reply gate_failed n d h = (refl, refused_done gate_denied _ (λ q. cc))
  refused_reply gate_panicked n d h = absurd (h refl)

  opened-cases :
      (x : Ending) → ((plain : Bytes) × (x ≡ opened plain)) ⊎ ((plain : Bytes) → x ≢ opened plain)
  opened-cases (opened p) = inl (p, refl)
  opened-cases (refused r) = inr (λ p h. cc)
  opened-cases gate_failed = inr (λ p h. cc)
  opened-cases gate_panicked = inr (λ p h. cc)

  -- A caller gets a plaintext exactly when the request is authorised: then the reply is that
  -- plaintext and the call is counted as ok. Otherwise, unless the gate panics, the reply is random
  -- data of the length that the request fixes and nothing is counted as ok.
  pub unseal_outcome :
      ending c u s e req ≢ gate_panicked
      → ((plain : Bytes) × Authorised c u s e req plain
          × (unseal c u s e req
              ≡ (response plain, record s { metrics = count_unseal done s.metrics })))
        ⊎ (((plain : Bytes) → ¬ Authorised c u s e req plain)
            × ((unseal c u s e req).0 ≡ response (e.fill (random_len req.payload)))
            × ((unseal c u s e req).1.metrics.unseal_total done ≡ s.metrics.unseal_total done))
  unfolding unseal
  unseal_outcome h = elim (opened-cases (ending c u s e req)) [
    | inl (plain, x) ↦ inl (plain, opened_Authorised plain x, ap (finish e req s) x)
    | inr n ↦
        let (reply, count) = refused_reply (ending c u s e req) n ending-ne-refused_done h in
        inr (λ plain a. n plain (Authorised-opened plain a), reply, count)
  ]
