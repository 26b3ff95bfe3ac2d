-- ===== src/Server/Unseal/Oracle.antt =====
-- The oracle contract of Unseal in internal/server/server.go: what a caller can tell from a reply.
use azath.Prelude.{length, Bytes, ℕ, ◌-◌, ◌<◌, ◌≡◌, sym, ap, ◌∙◌, ◌≢◌, inl, inr, arith}
use azath.Crypto.Primitives.{Primitives, IsLawful}
use azath.Crypto.Sealer.Live.{IsEntropy}
use azath.Crypto.Sealer.Format.{length-unseal}
use azath.Uuid.{UuidLibrary}
use azath.Server.{KmsServer, Request, Entropy, response, panicked}
use azath.Server.Handlers.{random_len, ending, finish, unseal, gate_panicked}
use azath.Server.Unseal.{unseal_outcome}
use azath.Keymanager.Sealing.{sealer-IsLive}

response_eq : {a b : Bytes} → response a ≡ response b → a ≡ b
response_eq h = cc h

pub panicked_reply :
    (c : Primitives) (u : UuidLibrary) (s : KmsServer) (e : Entropy) (req : Request)
    → ending c u s e req ≡ gate_panicked
    → (unseal c u s e req).0 ≡ panicked
unfolding unseal finish
panicked_reply c u s e req h = rw h

-- The length of the reply does not tell success from failure: for a payload longer than the 32
-- bytes of an empty blob every response has 32 bytes less than the payload, given lawful
-- primitives, a seed of 12 bytes and a random source that fills the buffers it is given.
pub response_length :
    (c : Primitives) (u : UuidLibrary) (s : KmsServer) (e : Entropy) (req : Request) (data' : Bytes)
    → IsLawful c
    → ((n : ℕ) → length (e.fill n) ≡ n)
    → IsEntropy e.seed
    → 32 < length req.payload
    → (unseal c u s e req).0 ≡ response data'
    → length data' ≡ length req.payload - 32
unfolding random_len
response_length c u s e req data' lawful filled seeded long h =
    elim (unseal_outcome c u s e req unpanicked) [
      | inl (plain, a, x) ↦
          let (key, live) = sealer-IsLive c s.km e.seed a.sealer seeded a.has_key in
          let whole =
            length-unseal c key a.sealer req.payload (u.to_string a.bits) plain lawful live
              a.opens in
          omega (arith, ap length (response_eq (sym h ∙ ap (λ r. r.0) x)))
      | inr (n, x, y) ↦ ap length (response_eq (sym h ∙ x)) ∙ (filled _ ∙ ground arith)
    ]
  where
    unpanicked : ending c u s e req ≢ gate_panicked
    unpanicked p = cc (sym h ∙ panicked_reply c u s e req p)
