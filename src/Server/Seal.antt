-- ===== src/Server/Seal.antt =====
-- What Seal of internal/server/server.go answers, and how it meets Unseal.
use azath.Prelude.{
  Result-cases, ok, err, Bool-cases, Option-cases, length, Text, Bytes, lookup, ◌+◌, ◌≡◌, ap, ◌≢◌,
  ◌⊎◌, inl, inr, true, false, none, some,
}
use azath.Crypto.Primitives.{Primitives, IsLawful}
use azath.Crypto.Sealer.{Sealer, SealerError}
use azath.Crypto.Sealer
use azath.Crypto.Sealer.Live.{IsEntropy}
use azath.Crypto.Sealer.Format.{unseal-seal}
use azath.Keymanager.{key_copy, sealer, GetError}
use azath.Keymanager.Sealing.{IsLive-of_IsSealerFor, sealer-IsSealerFor}
use azath.Uuid.{UuidLibrary}
use azath.Gate.{approved}
use azath.Server.{
  DeviceInfo, Gate, KmsServer, Request, Entropy, decides, invalid_argument, permission_denied,
  internal, response, status,
}
use azath.Server.Handlers.{find_device, seal, finish, unseal}
use azath.Server.Unseal.{Authorised-opened, Authorised}

-- A request that names an enabled device of the server.
pub record Admits (u : UuidLibrary) (s : KmsServer) (req : Request) : Type 0 where
  pub bits : Bytes
  pub parses : u.parse req.node_uuid ≡ some bits
  pub dev : DeviceInfo
  pub configured : lookup (u.to_string bits) s.devices ≡ some dev
  pub enabled : dev.disabled ≡ false

-- The metrics of a successful Seal.
abbrev pub count_seal : KmsServer → KmsServer
count_seal s = record s {
  metrics = record s.metrics {
    seal_total = s.metrics.seal_total + 1;
    seal_duration = s.metrics.seal_duration + 1;
  };
}

module _ (c : Primitives) (u : UuidLibrary) (s : KmsServer) (e : Entropy) (req : Request) where
  invalid_reply : u.parse req.node_uuid ≡ none → seal c u s e req ≡ (status invalid_argument, s)
  unfolding seal find_device
  invalid_reply h = rw h

  denied_reply :
      (bits : Bytes)
      → u.parse req.node_uuid ≡ some bits
      → ¬ Admits u s req
      → seal c u s e req ≡ (status permission_denied, s)
  unfolding seal find_device
  denied_reply bits p n = rw p (elim (Option-cases (lookup (u.to_string bits) s.devices)) [
    | inl q ↦ rw q
    | inr (dev, q) ↦ rw q (elim (Bool-cases dev.disabled) [
      | inl d ↦ rw d
      | inr d ↦
          absurd (n (record { bits = bits; parses = p; dev = dev; configured = q; enabled = d }))
    ])
  ])

  admitted_reply :
      (a : Admits u s req) (k : Sealer)
      → sealer c s.km e.seed ≡ ok k
      → (blob : Bytes) → (Sealer.seal c k req.payload (u.to_string a.bits)).0 ≡ ok blob
      → seal c u s e req ≡ (response blob, count_seal s)
  unfolding seal find_device
  admitted_reply a k h blob o = rw (a.parses) (rw (a.configured) (rw (a.enabled, h, o)))

  no_sealer_reply :
      (a : Admits u s req) (x : GetError)
      → sealer c s.km e.seed ≡ err x
      → seal c u s e req ≡ (status internal, s)
  unfolding seal find_device
  no_sealer_reply a x h = rw (a.parses) (rw (a.configured) (rw (a.enabled, h)))

  seal_error_reply :
      (a : Admits u s req) (k : Sealer) (x : SealerError)
      → sealer c s.km e.seed ≡ ok k
      → (Sealer.seal c k req.payload (u.to_string a.bits)).0 ≡ err x
      → seal c u s e req ≡ (status internal, s)
  unfolding seal find_device
  seal_error_reply a k x h o = rw (a.parses) (rw (a.configured) (rw (a.enabled, h, o)))

  not_configured_admits :
      (bits : Bytes)
      → u.parse req.node_uuid ≡ some bits
      → lookup (u.to_string bits) s.devices ≡ none
      → ¬ Admits u s req
  not_configured_admits bits p q a = cc (p, q, a.parses, a.configured)

  disabled_admits :
      (bits : Bytes) (dev : DeviceInfo)
      → u.parse req.node_uuid ≡ some bits
      → lookup (u.to_string bits) s.devices ≡ some dev
      → dev.disabled ≡ true
      → ¬ Admits u s req
  disabled_admits bits dev p q d a = cc (p, q, d, a.parses, a.configured, a.enabled)

  admitted_cases :
      Admits u s req
      → (seal c u s e req ≡ (status internal, s))
        ⊎ ((blob : Bytes) × (seal c u s e req ≡ (response blob, count_seal s)))
  admitted_cases a = elim (Result-cases (sealer c s.km e.seed)) [
    | inl (x, h) ↦ inl (no_sealer_reply a x h)
    | inr (k, h) ↦ elim (Result-cases (Sealer.seal c k req.payload (u.to_string a.bits)).0) [
      | inl (x, o) ↦ inl (seal_error_reply a k x h o)
      | inr (blob, o) ↦ inr (blob, admitted_reply a k h blob o)
    ]
  ]

  -- Every answer of Seal: a node UUID that does not parse gives InvalidArgument; an unknown or
  -- disabled device gives PermissionDenied; for an enabled device the answer is the sealed blob,
  -- counted once, or Internal if the key or the sealer is not to be had. No failure is counted.
  pub seal_outcome :
      ((u.parse req.node_uuid ≡ none) × (seal c u s e req ≡ (status invalid_argument, s)))
      ⊎ ((u.parse req.node_uuid ≢ none)
          × (¬ Admits u s req)
          × (seal c u s e req ≡ (status permission_denied, s)))
      ⊎ (Admits u s req
          × ((seal c u s e req ≡ (status internal, s))
              ⊎ ((blob : Bytes) × (seal c u s e req ≡ (response blob, count_seal s)))))
  seal_outcome = elim (Option-cases (u.parse req.node_uuid)) [
    | inl n ↦ inl (n, invalid_reply n)
    | inr (bits, p) ↦ elim (Option-cases (lookup (u.to_string bits) s.devices)) [
      | inl q ↦ inr (inl (refuses bits p (λ a. not_configured_admits bits p q a)))
      | inr (dev, q) ↦ elim (Bool-cases dev.disabled) [
        | inl d ↦ inr (inl (refuses bits p (λ a. disabled_admits bits dev p q d a)))
        | inr d ↦
            let a : Admits u s req = record {
              bits = bits;
              parses = p;
              dev = dev;
              configured = q;
              enabled = d;
            } in
            inr (inr (a, admitted_cases a))
      ]
    ]
  ]
    where
      refuses :
          (bits : Bytes)
          → u.parse req.node_uuid ≡ some bits
          → ¬ Admits u s req
          → (u.parse req.node_uuid ≢ none)
            × (¬ Admits u s req)
            × (seal c u s e req ≡ (status permission_denied, s))
      refuses bits p n = ((λ h. cc), n, denied_reply bits p n)

opened_reply :
    (c : Primitives) (u : UuidLibrary) (s : KmsServer) (e : Entropy) (req : Request) (plain : Bytes)
    → Authorised c u s e req plain
    → (unseal c u s e req).0 ≡ response plain
unfolding unseal finish
opened_reply c u s e req plain a = rw (Authorised-opened c u s e req plain a)

-- What a server seals is 32 bytes longer than the plaintext, and a server with the same master key,
-- with the device enabled and approved, is authorised to open it.
pub sealed-Authorised :
    (c : Primitives) (u : UuidLibrary) (s t : KmsServer) (e f : Entropy) (to back : Text)
    (plain raw : Bytes) (k l : Sealer) (gate : Gate)
    (a : Admits u s (record { node_uuid = to; payload = plain }))
    → IsLawful c
    → IsEntropy e.seed
    → IsEntropy f.seed
    → key_copy s.km ≡ ok raw
    → key_copy t.km ≡ ok raw
    → sealer c s.km e.seed ≡ ok k
    → sealer c t.km f.seed ≡ ok l
    → u.parse back ≡ some a.bits
    → lookup (u.to_string a.bits) t.devices ≡ some a.dev
    → t.gate ≡ some gate
    → gate (record { name = a.dev.name; uuid = u.to_string a.bits }) ≡ decides approved
    → (blob : Bytes) × ((seal c u s e (record { node_uuid = to; payload = plain })).0
        ≡ response blob)
      × (length blob ≡ length plain + 32)
      × Authorised c u t f (record { node_uuid = back; payload = blob }) plain
sealed-Authorised c u s t e f to back plain raw k l gate a lawful se sf ks kt hk hl p q g h =
    let id : Text = u.to_string a.bits in
    let kl = IsLive-of_IsSealerFor c raw _ k (sealer-IsSealerFor c s.km raw e.seed ks se) hk in
    let ll = IsLive-of_IsSealerFor c raw _ l (sealer-IsSealerFor c t.km raw f.seed kt sf) hl in
    let (blob, sealed, len, opens) = unseal-seal c raw k l plain id lawful kl ll in
    (
      blob,
      ap (λ r. r.0) (admitted_reply c u s e _ a k hk blob sealed),
      len,
      record {
        bits = a.bits;
        parses = p;
        dev = a.dev;
        configured = q;
        enabled = a.enabled;
        sealer = l;
        has_key = hl;
        opens = opens;
        gate = gate;
        has_gate = g;
        approves = h;
      },
    )

-- A blob that one server seals, a server with the same master key unseals, with lawful primitives
-- and where both can make a sealer: the requests may spell the device's UUID differently, both
-- servers have the device configured and enabled, and the second one's gate approves it.
pub unseal-seal_served :
    (c : Primitives) (u : UuidLibrary) (s t : KmsServer) (e f : Entropy) (to back : Text)
    (plain raw : Bytes) (k l : Sealer) (gate : Gate)
    (a : Admits u s (record { node_uuid = to; payload = plain }))
    → IsLawful c
    → IsEntropy e.seed
    → IsEntropy f.seed
    → key_copy s.km ≡ ok raw
    → key_copy t.km ≡ ok raw
    → sealer c s.km e.seed ≡ ok k
    → sealer c t.km f.seed ≡ ok l
    → u.parse back ≡ some a.bits
    → lookup (u.to_string a.bits) t.devices ≡ some a.dev
    → t.gate ≡ some gate
    → gate (record { name = a.dev.name; uuid = u.to_string a.bits }) ≡ decides approved
    → (blob : Bytes) × ((seal c u s e (record { node_uuid = to; payload = plain })).0
        ≡ response blob)
      × ((unseal c u t f (record { node_uuid = back; payload = blob })).0 ≡ response plain)
unseal-seal_served c u s t e f to back plain raw k l gate a lawful se sf ks kt hk hl p q g h =
    let (blob, sealed, len, opens) =
      sealed-Authorised c u s t e f to back plain raw k l gate a lawful se sf ks kt hk hl p q g h in
    (blob, sealed, opened_reply c u t f _ plain opens)
