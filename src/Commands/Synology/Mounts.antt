-- ===== src/Commands/Synology/Mounts.antt =====
-- What the synology command of cmd/azath/client.go hands to mount.
use azath.Prelude.{
  Result-cases, ok, ltb, ◌==◌, if◌then◌else◌, Bool-cases, length, All, All-append, All-mono, IsIn,
  All-IsIn, Text, Bytes, contains_byte, ℕ, suc, ◌≤◌, ◌≡◌, refl, inl, inr, Bool, true, false, not,
  ◌&&◌, ◌||◌, Option, none, some, List, [], ◌∷◌, arith,
}
use azath.Prelude.Int.{int_lt, pos, ℤ}
use azath.Uuid.{UuidLibrary}
use azath.Client.{
  ShareConfig, ClientConfig, NetLibrary, YamlDecoder, FileContents, endpoint_target,
  load_client_config, is_share,
}
use azath.Commands.Synology.{
  thirty_minutes, World, Mount, read_blob, try_unseal, has_plaintext, try_endpoints, use_plaintext,
  unlock_share, run_shares, synology,
}
use azath.Client.Names.{share-IsArgument, IsArgument}
use azath.Client.Accepted.{load_client_config-IsUsable}

-- What an endpoint answered at some moment: a plaintext of the blob.
pub record IsAnswer (w : World) (net : NetLibrary) (uuid : Text) (blob : Bytes)
    (endpoints : List Text) (plaintext : Bytes) : Type 0 where
  pub endpoint : Text
  pub listed : IsIn endpoint endpoints
  pub target : Text
  pub targets : endpoint_target net endpoint ≡ ok target
  pub moment : ℕ
  pub answered : w.call moment target uuid blob ≡ some plaintext

module _ (w : World) (net : NetLibrary) (uuid : Text) (blob : Bytes) where
  try_unseal_parts :
      (now : ℕ) (e : Text) (p : Bytes)
      → try_unseal w net uuid blob now e ≡ some p
      → (target : Text) × (endpoint_target net e ≡ ok target)
        × (w.call now target uuid blob ≡ some p)
  unfolding try_unseal
  try_unseal_parts now e p h = elim (Result-cases (endpoint_target net e)) [
    | inl (x, b) ↦ absurd (cc (rw b at h))
    | inr (t, g) ↦ (t, g, ground arith)
  ]

  answer_later :
      (e : Text) (es : List Text) (p : Bytes)
      → IsAnswer w net uuid blob es p
      → IsAnswer w net uuid blob (e ∷ es) p
  answer_later e es p a = record {
    endpoint = a.endpoint;
    listed = inr a.listed;
    target = a.target;
    targets = a.targets;
    moment = a.moment;
    answered = a.answered;
  }

  -- A plaintext that the loop ends with is the answer of one of its endpoints.
  pub try_endpoints-IsAnswer :
      (es : List Text) (now : ℕ) (last : Option Bytes) (p : Bytes)
      → has_plaintext w net uuid blob last ≡ false
      → (try_endpoints w net uuid blob es now last).0 ≡ some p
      → has_plaintext w net uuid blob (some p) ≡ true
      → IsAnswer w net uuid blob es p
  unfolding try_endpoints
  try_endpoints-IsAnswer [] now last p l h k = absurd (ground arith)
  try_endpoints-IsAnswer (e ∷ es) now last p l h k = elim (Bool-cases (w.canceled now)) [
    | inl y ↦ absurd (ground arith)
    | inr n ↦
        elim (Bool-cases (has_plaintext w net uuid blob (try_unseal w net uuid blob (suc now) e))) [
          | inr m ↦ answer_later e es p (
              try_endpoints-IsAnswer es (suc (suc now)) (try_unseal w net uuid blob (suc now) e) p m
                (rw (n, m) at h) k)
          | inl y ↦
              let (t, g, a) = try_unseal_parts (suc now) e p (rw (n, y) at h) in
              record {
                endpoint = e;
                listed = inl refl;
                target = t;
                targets = g;
                moment = suc now;
                answered = a;
              }
        ]
  ]

-- A passphrase that may be mounted.
pub record IsPassphrase (p : Bytes) : Type 0 where
  pub not_empty : 1 ≤ length p
  pub short : length p ≤ 4096
  pub no_nul : contains_byte p 0 ≡ false

-- A call of mount that the configuration and an endpoint account for: it is for a configured share,
-- and its passphrase is what an endpoint answered to the blob of that share.
pub record IsSupplied (w : World) (net : NetLibrary) (cfg : ClientConfig) (m : Mount) : Type 0 where
  pub share : ShareConfig
  pub configured : IsIn share cfg.shares
  pub named : m.share ≡ share.name
  pub blob : Bytes
  pub reads : read_blob w share.sealed_blob ≡ ok blob
  pub answer : IsAnswer w net cfg.device.uuid blob cfg.endpoints m.passphrase
  pub passphrase : IsPassphrase m.passphrase

use_plaintext-mounts :
    (w : World) (name : Text) (reply : Option Bytes) (now : ℕ)
    → All
        (λ m. (m.share ≡ name) × (reply ≡ some m.passphrase) × IsPassphrase m.passphrase)
        (use_plaintext w name reply now).mounts
unfolding use_plaintext
use_plaintext-mounts w name none now = tt
use_plaintext-mounts w name (some p) now = elim (Bool-cases (length p == 0)) [
  | inl y ↦ rw y tt
  | inr n ↦ rw n (elim (Bool-cases (contains_byte p 0 || ltb 4096 (length p))) [
    | inl y ↦ rw y tt
    | inr m ↦ rw m (elim (Bool-cases (w.canceled now)) [
      | inl y ↦ rw y tt
      | inr l ↦ rw l (
        (
          refl,
          refl,
          record { not_empty = ground arith; short = ground arith; no_nul = ground arith },
        ),
        tt,
      )
    ])
  ])
]

module _ (w : World) (net : NetLibrary) (cfg : ClientConfig) where
  filled : (p : Bytes) → IsPassphrase p → (not (length p == 0)) ≡ true
  filled p h = ground (arith, h.not_empty)

  unlock_share-IsSupplied :
      (s : ShareConfig) (now : ℕ)
      → IsIn s cfg.shares
      → All (IsSupplied w net cfg) (unlock_share w net cfg s now).mounts
  unfolding unlock_share
  unlock_share-IsSupplied s now i = elim (Result-cases (read_blob w s.sealed_blob)) [
    | inl (e, b) ↦ rw b tt
    | inr (blob, r) ↦
        let tried = try_endpoints w net cfg.device.uuid blob cfg.endpoints now (some []) in
        rw r (
          All-mono (use_plaintext w s.name tried.0 tried.1).mounts
            (λ m q. record {
              share = s;
              configured = i;
              named = q.0;
              blob = blob;
              reads = r;
              answer =
                  try_endpoints-IsAnswer w net cfg.device.uuid blob cfg.endpoints now (some [])
                    m.passphrase refl q.1 (filled m.passphrase q.2);
              passphrase = q.2;
            })
            (use_plaintext-mounts w s.name tried.0 tried.1))
  ]

  -- What holds of the mounts of each share holds of all mounts of the loop.
  run_shares-All :
      (P : Mount → Type 0) (json : Bool) (ss : List ShareConfig) (now : ℕ)
      → ((s : ShareConfig) (t : ℕ) → IsIn s ss → All P (unlock_share w net cfg s t).mounts)
      → All P (run_shares w net cfg json ss now).mounts
  unfolding run_shares
  run_shares-All P json [] now h = tt
  run_shares-All P json (s ∷ ss) now h =
      let one = unlock_share w net cfg s (suc now) in
      elim (Bool-cases (w.canceled now)) [
        | inl y ↦ rw y tt
        | inr n ↦ rw n (elim (Bool-cases (not json && not (w.writes one.moment))) [
          | inl y ↦ rw y (h s (suc now) (inl refl))
          | inr m ↦ rw m (
              All-append P one.mounts _ (h s (suc now) (inl refl)) (
                run_shares-All P json ss (if json then one.moment else suc one.moment)
                  (λ t k i. h t k (inr i))))
        ])
      ]

-- Every call of mount that the command makes, failing runs included, is for a configured share, and
-- has a passphrase that one of the configured endpoints answered to the blob in the file of that
-- share; it has 1 to 4096 bytes, none of them NUL. The share's name does not start with a dash, has
-- at most 80 bytes and none of them NUL.
pub mounts-IsSupplied :
    (w : World) (yaml : YamlDecoder) (net : NetLibrary) (u : UuidLibrary) (timeout : ℤ)
    (json : Bool) (file : FileContents) (cfg : ClientConfig)
    → load_client_config yaml net u file ≡ ok cfg
    → All
        (λ m. IsSupplied w net cfg m × IsArgument m.share)
        (synology w yaml net u timeout json file).mounts
unfolding synology
mounts-IsSupplied w yaml net u timeout json file cfg h =
    elim (Bool-cases (not (int_lt (pos 0) timeout) || int_lt thirty_minutes timeout)) [
      | inl y ↦ rw y tt
      | inr n ↦
          rw (n, h)
            (elim (Bool-cases (length cfg.shares == 0)) [
              | inl y ↦ rw y tt
              | inr m ↦ rw m (
                  All-mono (run_shares w net cfg json cfg.shares 0).mounts
                    (λ x k. (k, named_argument x k))
                    (run_shares-All w net cfg (IsSupplied w net cfg) json cfg.shares 0
                      (λ s t i. unlock_share-IsSupplied w net cfg s t i)))
            ])
    ]
  where
    named_argument : (m : Mount) → IsSupplied w net cfg m → IsArgument m.share
    named_argument m k =
        let good =
          All-IsIn (λ s. is_share s ≡ true) k.share cfg.shares
            (load_client_config-IsUsable yaml net u file cfg h).shares k.configured in
        rw (k.named) (share-IsArgument k.share good)
