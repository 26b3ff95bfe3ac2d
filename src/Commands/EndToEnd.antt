-- ===== src/Commands/EndToEnd.antt =====
-- cmd/azath/client.go and internal/server together: what the server seals, the synology command
-- mounts, and what it makes of a refusal.
use azath.Prelude.{
  ok, ltb, ◌==◌, if◌then◌else◌, Bool-cases, length, has_suffix, Text, Bytes, IsBytes, contains_byte,
  lookup, ℕ, suc, ◌≤◌, ◌≡◌, refl, sym, ap, ◌∙◌, inl, inr, true, false, Option, none, some, List, [],
  ◌∷◌, arith,
}
use azath.Uuid.{UuidLibrary}
use azath.Crypto.Primitives.{Primitives, IsLawful}
use azath.Crypto.Sealer.{Sealer}
use azath.Gate.{approved}
use azath.Keymanager.{key_copy, sealer}
use azath.Server.{Request, KmsServer, Entropy, Gate, Reply, response, status, panicked, decides}
use azath.Server.Handlers.{seal, random_len}
use azath.Server.Interceptors.{served, served_outcome, unseal_suffix}
use azath.Server.Unseal.{Authorised-opened, Authorised}
use azath.Server.Seal.{Admits, sealed-Authorised}
use azath.Client.{ShareConfig, ClientConfig, NetLibrary, endpoint_target}
use azath.Commands.Synology.{
  Unlocked, invalid_passphrase, World, Mount, mounted, mount_failed, read_blob, unlock_share,
  use_plaintext, try_endpoints, try_unseal, mount_synology_share,
}
use azath.Commands.Synology.Blobs.{read_blob_limits, TrimsSpace, IsBlobFile, read_blob_iff}
use azath.Crypto.Sealer.Live.{IsEntropy}

-- What a client has of a reply: the data of a response, or an error.
abbrev pub answer : Reply → Option Bytes
answer (response b) = some b
answer (status code) = none
answer panicked = none

-- The first endpoint of the configuration is the server `t`, and its calls come through.
pub record IsEndpoint (c : Primitives) (u : UuidLibrary) (t : KmsServer) (f : Entropy)
    (method : Text) (w : World) (net : NetLibrary) (cfg : ClientConfig) : Type 0 where
  pub is_unseal : has_suffix method unseal_suffix ≡ true
  pub endpoint : Text
  pub others : List Text
  pub listed : cfg.endpoints ≡ endpoint ∷ others
  pub target : Text
  pub targets : endpoint_target net endpoint ≡ ok target
  pub dials : w.dials target ≡ true
  pub goes_on : (now : ℕ) → w.canceled now ≡ false
  pub calls :
      (now : ℕ) (blob : Bytes)
      → w.call now target cfg.device.uuid blob
        ≡ answer (served c u f method t (record { node_uuid = cfg.device.uuid; payload = blob }))

module _ (c : Primitives) (u : UuidLibrary) (t : KmsServer) (f : Entropy) (method : Text)
    (w : World) (net : NetLibrary) (cfg : ClientConfig)
    (server : IsEndpoint c u t f method w net cfg) where
  stops_at :
      (blob reply : Bytes) (now : ℕ)
      → (length reply == 0) ≡ false
      → w.call (suc now) server.target cfg.device.uuid blob ≡ some reply
      → try_endpoints w net cfg.device.uuid blob (server.endpoint ∷ server.others) now (some [])
        ≡ (some reply, suc (suc now))
  unfolding try_endpoints try_unseal
  stops_at blob reply now n a = rw (server.goes_on now, server.targets, server.dials, a, n) refl

  -- A reply that is not empty ends the loop: the other endpoints are not asked.
  first_reply :
      (blob reply : Bytes) (now : ℕ)
      → 1 ≤ length reply
      → served c u f method t (record { node_uuid = cfg.device.uuid; payload = blob })
        ≡ response reply
      → try_endpoints w net cfg.device.uuid blob cfg.endpoints now (some [])
        ≡ (some reply, suc (suc now))
  first_reply blob reply now l s =
      ap (λ es. try_endpoints w net cfg.device.uuid blob es now (some [])) server.listed
      ∙ stops_at blob reply now (ground arith) (server.calls (suc now) blob ∙ ap answer s)

  -- The call of mount that a share comes to, if its passphrase has no NUL.
  abbrev pub mount_of : ShareConfig → Bytes → ℕ → Mount
  mount_of share p now = record { share = share.name; passphrase = p; moment = suc (suc (suc now)) }

  -- How a passphrase is used: without a NUL byte it is mounted, once.
  abbrev pub IsUsed : ShareConfig → Bytes → ℕ → Unlocked → Type 0
  IsUsed share p now one =
      (one.mounts ≡ (if contains_byte p 0 then [] else mount_of share p now ∷ []))
      × (one.status ≡ (
          if contains_byte p 0
          then invalid_passphrase
          else if mount_synology_share w (suc (suc (suc now))) share.name p
          then mounted
          else mount_failed))

  -- What is done with a reply of 1 to 4096 bytes.
  IsUsed-reply :
      (share : ShareConfig) (p : Bytes) (now : ℕ)
      → 1 ≤ length p
      → length p ≤ 4096
      → IsUsed share p now (use_plaintext w share.name (some p) (suc (suc now)))
  unfolding use_plaintext
  IsUsed-reply share p now l m =
      let n : (length p == 0) ≡ false = ground arith in
      let s : ltb 4096 (length p) ≡ false = ground arith in
      elim (Bool-cases (contains_byte p 0)) [
        | inl y ↦ rw (n, y) (refl, refl)
        | inr k ↦ rw (n, k, s, server.goes_on (suc (suc now))) (refl, refl)
      ]

  share_reply :
      (share : ShareConfig) (blob reply : Bytes) (now : ℕ)
      → read_blob w share.sealed_blob ≡ ok blob
      → 1 ≤ length reply
      → served c u f method t (record { node_uuid = cfg.device.uuid; payload = blob })
        ≡ response reply
      → unlock_share w net cfg share now ≡ use_plaintext w share.name (some reply) (suc (suc now))
  unfolding unlock_share
  share_reply share blob reply now r l s =
      let e = first_reply blob reply now l s in
      rw r (ap (λ (x : Option Bytes × ℕ). use_plaintext w share.name x.0 x.1) e)

response_eq : {a b : Bytes} → response a ≡ response b → a ≡ b
response_eq h = cc h

served-Authorised :
    (c : Primitives) (u : UuidLibrary) (t : KmsServer) (f : Entropy) (method : Text) (req : Request)
    (plain : Bytes)
    → has_suffix method unseal_suffix ≡ true
    → Authorised c u t f req plain
    → served c u f method t req ≡ response plain
served-Authorised c u t f method req plain m a = elim (served_outcome c u f method m t req) [
  | inr (n, x) ↦ absurd (n plain a)
  | inl (p, b, x) ↦
      let e = Authorised-opened c u t f req plain a in
      let g = Authorised-opened c u t f req p b in cc (e, g, x)
]

-- What one server seals, the synology command mounts, at a share whose file holds the base64 of the
-- sealed blob: if the secret has 1 to 4096 bytes, none of them NUL, then mount is called once, with the
-- share's name and the very secret that was sealed, and the share is mounted exactly if that call
-- returns no error; with a NUL byte mount is not called. The first endpoint is a server with the same
-- master key that has the same device configured and enabled and gets it approved, its calls come
-- through, and the command is not canceled; the secret was sealed for that device.
pub sealed_mounts :
    (c : Primitives) (u : UuidLibrary) (s t : KmsServer) (e f : Entropy) (to : Text)
    (plain raw blob : Bytes) (k l : Sealer) (gate : Gate)
    (a : Admits u s (record { node_uuid = to; payload = plain })) (method : Text) (w : World)
    (net : NetLibrary) (cfg : ClientConfig) (share : ShareConfig) (now : ℕ)
    → IsLawful c
    → IsEntropy e.seed
    → IsEntropy f.seed
    → key_copy s.km ≡ ok raw
    → key_copy t.km ≡ ok raw
    → sealer c s.km e.seed ≡ ok k
    → sealer c t.km f.seed ≡ ok l
    → u.parse cfg.device.uuid ≡ some a.bits
    → lookup (u.to_string a.bits) t.devices ≡ some a.dev
    → t.gate ≡ some gate
    → gate (record { name = a.dev.name; uuid = u.to_string a.bits }) ≡ decides approved
    → (seal c u s e (record { node_uuid = to; payload = plain })).0 ≡ response blob
    → (server : IsEndpoint c u t f method w net cfg) → TrimsSpace w
    → IsBytes blob
    → IsBlobFile w share.sealed_blob blob
    → 1 ≤ length plain
    → length plain ≤ 4096
    → IsUsed c u t f method w net cfg server share plain now (unlock_share w net cfg share now)
sealed_mounts c u s t e f to plain raw blob k l gate a method w net cfg share now lawful se sf ks kt
      hk hl p q g h sealed server trims bytes file long short =
    let (blob', sealed', len, opens) =
      sealed-Authorised c u s t e f to cfg.device.uuid plain raw k l gate a lawful se sf ks kt hk hl
        p q g h in
    let same : blob' ≡ blob = response_eq (sym sealed' ∙ sealed) in
    let r =
      (read_blob_iff w share.sealed_blob blob bytes trims file).1
        (omega (arith, len, ap (length {A = ℕ}) same)) in
    let reply =
      served-Authorised c u t f method (record { node_uuid = cfg.device.uuid; payload = blob })
        plain server.is_unseal (rw same at opens) in
    rw (share_reply c u t f method w net cfg server share blob plain now r long reply)
      (IsUsed-reply c u t f method w net cfg server share plain now long short)

-- A refusal looks like a passphrase: if the first endpoint is a server that does not authorise the
-- request, its calls come through and the command is not canceled, then the random data of its reply
-- is handed to mount, once, and the status is that call's; with a NUL byte in that data, mount is not
-- called and the status is "invalid_passphrase".
pub refusal_mounts_noise :
    (c : Primitives) (u : UuidLibrary) (t : KmsServer) (f : Entropy) (method : Text) (w : World)
    (net : NetLibrary) (cfg : ClientConfig) (share : ShareConfig) (blob : Bytes) (now : ℕ)
    → (server : IsEndpoint c u t f method w net cfg) → ((n : ℕ) → length (f.fill n) ≡ n)
    → ((plain : Bytes)
        → ¬ Authorised c u t f (record { node_uuid = cfg.device.uuid; payload = blob }) plain)
    → read_blob w share.sealed_blob ≡ ok blob
    → IsUsed c u t f method w net cfg server share
        (f.fill (random_len blob))
        now
        (unlock_share w net cfg share now)
unfolding random_len
refusal_mounts_noise c u t f method w net cfg share blob now server filled refused r =
    let limits = read_blob_limits w share.sealed_blob blob r in
    let n = filled (random_len blob) in
    let long : 1 ≤ length (f.fill (random_len blob)) = ground (arith, n, limits) in
    let short : length (f.fill (random_len blob)) ≤ 4096 = ground (arith, n, limits) in
    elim (served_outcome c u f method server.is_unseal t
      (record { node_uuid = cfg.device.uuid; payload = blob })) [
        | inl (plain, a, x) ↦ absurd (refused plain a)
        | inr (m, x) ↦
            rw (share_reply c u t f method w net cfg server share blob _ now r long x)
              (IsUsed-reply c u t f method w net cfg server share _ now long short)
      ]
