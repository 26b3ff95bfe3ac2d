-- ===== src/Server/Unseal/Prompts.antt =====
-- When Unseal of internal/server/server.go asks the gate, and what it counts.
use azath.Prelude.{
  Result-cases, ok, Bool-cases, Option-cases, Bytes, lookup, ℕ, ◌+◌, ◌≤◌, ◌≡◌, refl, inl, inr,
  false, Option, none, some, arith,
}
use azath.Crypto.Primitives.{Primitives}
use azath.Crypto.Sealer.{Sealer}
use azath.Crypto.Sealer
use azath.Keymanager
use azath.Uuid.{UuidLibrary}
use azath.Server.{
  DeviceInfo, Gate, Reason, Reason-discrete, Metrics, KmsServer, Request, Entropy, done,
  gate_denied,
}
use azath.Server.Handlers.{
  find_device, Ending, open_blob, ending, count_unseal, finish, unseal, opened, refused,
  gate_failed, gate_panicked,
}

-- The checks before the gate have passed: an enabled device, a key, and a blob that decrypts.
pub record Prompts (c : Primitives) (u : UuidLibrary) (s : KmsServer) (e : Entropy) (req : Request)
    : Type 0 where
  pub bits : Bytes
  pub parses : u.parse req.node_uuid ≡ some bits
  pub dev : DeviceInfo
  pub configured : lookup (u.to_string bits) s.devices ≡ some dev
  pub enabled : dev.disabled ≡ false
  pub sealer : Sealer
  pub has_key : Keymanager.sealer c s.km e.seed ≡ ok sealer
  pub plain : Bytes
  pub opens : Sealer.unseal c sealer req.payload (u.to_string bits) ≡ ok plain

module _ (c : Primitives) (u : UuidLibrary) (s : KmsServer) (e : Entropy) (req : Request) where
  -- A request that does not pass the checks is decided without the gate: the ending is the same
  -- whatever gate stands there, also one that fails or panics. So no operator is asked about a
  -- disabled or unknown device, without a key, or about a blob that does not decrypt.
  pub gate_not_asked :
      (g h : Option Gate)
      → ¬ Prompts c u s e req
      → ending c u (record s { gate = g }) e req ≡ ending c u (record s { gate = h }) e req
  unfolding ending find_device open_blob
  gate_not_asked g h n = elim (Option-cases (u.parse req.node_uuid)) [
    | inl p ↦ rw p
    | inr (bits, p) ↦ rw p (elim (Option-cases (lookup (u.to_string bits) s.devices)) [
      | inl q ↦ rw q
      | inr (dev, q) ↦ rw q (elim (Bool-cases dev.disabled) [
        | inl d ↦ rw d
        | inr d ↦ rw d (elim (Result-cases (Keymanager.sealer c s.km e.seed)) [
          | inl (x, k) ↦ rw k
          | inr (sealer, k) ↦
              rw k (elim (Result-cases (Sealer.unseal c sealer req.payload (u.to_string bits))) [
                | inl (x, o) ↦ rw o
                | inr (plain, o) ↦ absurd (
                    n (record {
                      bits = bits;
                      parses = p;
                      dev = dev;
                      configured = q;
                      enabled = d;
                      sealer = sealer;
                      has_key = k;
                      plain = plain;
                      opens = o;
                    }))
              ])
        ])
      ])
    ])
  ]

-- The label under which an ending is counted.
abbrev pub label : Ending → Option Reason
label (opened plain) = some done
label (refused r) = some r
label gate_failed = some gate_denied
label gate_panicked = none

abbrev pub one_if {ℓ} : {P : Type ℓ} → Dec P → ℕ
one_if (yes p) = 1
one_if (no p) = 0

-- What a call of Unseal adds to the metrics.
abbrev pub IsCounted : Option Reason → Metrics → Metrics → Type 0
IsCounted none before after = after ≡ before
IsCounted (some r) before after =
    ((q : Reason) → after.unseal_total q ≡ before.unseal_total q + one_if (Reason-discrete q r))
    × (after.unseal_duration ≡ before.unseal_duration + 1)
    × (after.seal_total ≡ before.seal_total)
    × (after.seal_duration ≡ before.seal_duration)
    × (after.gate_api_errors ≤ before.gate_api_errors + 1)

count_at :
    (q r : Reason) (m : Metrics)
    → (count_unseal r m).unseal_total q ≡ m.unseal_total q + one_if (Reason-discrete q r)
unfolding count_unseal
count_at q r m =
    elim (Reason-discrete q r)
      as (λ d.
        elim d [ yes _ ↦ m.unseal_total q + 1 | no _ ↦ m.unseal_total q ]
        ≡ m.unseal_total q + one_if d) [ yes _ ↦ refl | no _ ↦ omega arith ]

finish-IsCounted :
    (e : Entropy) (req : Request) (s : KmsServer) (x : Ending)
    → IsCounted (label x) s.metrics (finish e req s x).1.metrics
unfolding finish
finish-IsCounted e req s (opened p) = (
  λ q. count_at q done s.metrics,
  unfold count_unseal in refl,
  unfold count_unseal in refl,
  unfold count_unseal in refl,
  unfold count_unseal in omega arith,
)
finish-IsCounted e req s (refused r) = (
  λ q. count_at q r s.metrics,
  unfold count_unseal in refl,
  unfold count_unseal in refl,
  unfold count_unseal in refl,
  unfold count_unseal in omega arith,
)
finish-IsCounted e req s gate_failed = (
  λ q. count_at q gate_denied _,
  unfold count_unseal in refl,
  unfold count_unseal in refl,
  unfold count_unseal in refl,
  unfold count_unseal in omega arith,
)
finish-IsCounted e req s gate_panicked = refl

-- Every Unseal that does not panic is counted once: exactly one reason's counter goes up, by one,
-- together with the duration histogram; the Seal metrics stay, and the count of gate errors grows
-- by one at most. A call in which the gate panics writes no metrics.
pub unseal-IsCounted :
    (c : Primitives) (u : UuidLibrary) (s : KmsServer) (e : Entropy) (req : Request)
    → IsCounted (label (ending c u s e req)) s.metrics (unseal c u s e req).1.metrics
unfolding unseal
unseal-IsCounted c u s e req = finish-IsCounted e req s (ending c u s e req)
