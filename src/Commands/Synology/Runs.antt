-- ===== src/Commands/Synology/Runs.antt =====
-- What a whole run of the synology command of cmd/azath/client.go reports.
use azath.Prelude.{
  Result-cases, ok, ltb, ◌==◌, if◌then◌else◌, Bool-cases, Option-cases, length, All, Text, Bytes,
  contains_byte, ℕ, suc, ◌≤◌, ◌≡◌, refl, ap, ◌↔◌, inl, inr, Bool, true, false, not, ◌&&◌, ◌||◌,
  Option, none, some, List, [], ◌∷◌, map, arith,
}
use azath.Prelude.Int.{int_lt, pos, ℤ}
use azath.Uuid.{UuidLibrary}
use azath.Client.{
  ShareConfig, ClientConfig, NetLibrary, YamlDecoder, FileContents, load_client_config,
}
use azath.Commands.Synology.{
  World, Status, ShareResult, Mount, read_blob, mount_synology_share, try_endpoints, use_plaintext,
  is_mounted, Run, unlock_share, run_shares, ending, thirty_minutes, synology, mounted,
  invalid_blob, unseal_failed, invalid_passphrase, canceled_status, mount_failed,
}

abbrev pub Succeeded : ShareResult → Type 0
Succeeded r = r.status ≡ mounted

is_mounted_iff : (s : Status) → (is_mounted s ≡ true) ↔ (s ≡ mounted)
is_mounted_iff mounted = (λ h. refl, λ h. refl)
is_mounted_iff invalid_blob = (λ h. cc, λ h. cc)
is_mounted_iff unseal_failed = (λ h. cc, λ h. cc)
is_mounted_iff invalid_passphrase = (λ h. cc, λ h. cc)
is_mounted_iff canceled_status = (λ h. cc, λ h. cc)
is_mounted_iff mount_failed = (λ h. cc, λ h. cc)

-- The one call of mount of a share that is mounted.
record IsMountedBy (w : World) (name : Text) (mounts : List Mount) : Type 0 where
  pub mount : Mount
  pub only : mounts ≡ mount ∷ []
  pub named : mount.share ≡ name
  pub worked : mount_synology_share w mount.moment mount.share mount.passphrase ≡ true

use_plaintext_mounted :
    (w : World) (name : Text) (reply : Option Bytes) (now : ℕ)
    → (use_plaintext w name reply now).status ≡ mounted
    → IsMountedBy w name (use_plaintext w name reply now).mounts
unfolding use_plaintext
use_plaintext_mounted w name none now h = absurd (cc h)
use_plaintext_mounted w name (some p) now h = elim (Bool-cases (length p == 0)) [
  | inl y ↦ absurd (cc (rw y at h))
  | inr n ↦ elim (Bool-cases (contains_byte p 0 || ltb 4096 (length p))) [
    | inl y ↦ absurd (cc (rw (n, y) at h))
    | inr m ↦ elim (Bool-cases (w.canceled now)) [
      | inl y ↦ absurd (cc (rw (n, m, y) at h))
      | inr l ↦ elim (Bool-cases (mount_synology_share w (suc now) name p)) [
        | inr k ↦ absurd (cc (rw (n, m, l, k) at h))
        | inl k ↦
            rw (n, m, l)
              (record {
                mount = record { share = name; passphrase = p; moment = suc now };
                only = refl;
                named = refl;
                worked = k;
              })
      ]
    ]
  ]
]

module _ (w : World) (net : NetLibrary) (cfg : ClientConfig) where
  unlock_share_mounted :
      (s : ShareConfig) (now : ℕ)
      → (unlock_share w net cfg s now).status ≡ mounted
      → IsMountedBy w s.name (unlock_share w net cfg s now).mounts
  unfolding unlock_share
  unlock_share_mounted s now h = elim (Result-cases (read_blob w s.sealed_blob)) [
    | inl (e, b) ↦ absurd (cc (rw b at h))
    | inr (blob, r) ↦
        let tried = try_endpoints w net cfg.device.uuid blob cfg.endpoints now (some []) in
        rw r (use_plaintext_mounted w s.name tried.0 tried.1 (rw r at h))
  ]

  -- A loop that ends by itself has one result for each share, in order, and `failed` says whether
  -- one of them is not mounted.
  run_complete :
      (json : Bool) (ss : List ShareConfig) (now : ℕ)
      → (run_shares w net cfg json ss now).error ≡ none
      → (map (λ (r : ShareResult). r.name) (run_shares w net cfg json ss now).results
          ≡ map (λ (s : ShareConfig). s.name) ss)
        × (((run_shares w net cfg json ss now).failed ≡ false)
            ↔ All Succeeded (run_shares w net cfg json ss now).results)
  unfolding run_shares
  run_complete json [] now h = (refl, (λ k. tt, λ k. refl))
  run_complete json (s ∷ ss) now h =
      let one = unlock_share w net cfg s (suc now) in
      let (q, p) = is_mounted_iff one.status in
      elim (Bool-cases (w.canceled now)) [
        | inl y ↦ absurd (cc (rw y at h))
        | inr n ↦ elim (Bool-cases (not json && not (w.writes one.moment))) [
          | inl y ↦ absurd (cc (rw (n, y) at h))
          | inr m ↦
              let (names, verdict) =
                run_complete json ss (if json then one.moment else suc one.moment)
                  (rw (n, m) at h) in
              rw (n, m)
                (
                  ap (◌∷◌ s.name) names,
                  (
                    λ k. (q (ground arith), verdict.0 (ground arith)),
                    λ k. ground (arith, p k.0, verdict.1 k.1),
                  ),
                )
        ]
      ]

  abbrev Worked : Mount → Type 0
  Worked m = mount_synology_share w m.moment m.share m.passphrase ≡ true

  -- In a loop that ends by itself without a failure, each share is mounted once, in order.
  run_mounted :
      (json : Bool) (ss : List ShareConfig) (now : ℕ)
      → (run_shares w net cfg json ss now).error ≡ none
      → (run_shares w net cfg json ss now).failed ≡ false
      → (map (λ (m : Mount). m.share) (run_shares w net cfg json ss now).mounts
          ≡ map (λ (s : ShareConfig). s.name) ss)
        × All Worked (run_shares w net cfg json ss now).mounts
  unfolding run_shares
  run_mounted json [] now h f = (refl, tt)
  run_mounted json (s ∷ ss) now h f =
      let one = unlock_share w net cfg s (suc now) in
      elim (Bool-cases (w.canceled now)) [
        | inl y ↦ absurd (cc (rw y at h))
        | inr n ↦ elim (Bool-cases (not json && not (w.writes one.moment))) [
          | inl y ↦ absurd (cc (rw (n, y) at h))
          | inr m ↦
              let f' = rw (n, m) at f in
              let k =
                unlock_share_mounted s (suc now) ((is_mounted_iff one.status).0 (ground arith)) in
              let (shares, worked) =
                run_mounted json ss (if json then one.moment else suc one.moment) (rw (n, m) at h)
                  (ground arith) in
              rw (n, m, k.only) (cc (k.named, shares), (k.worked, worked))
        ]
      ]

-- A result without an error comes of a loop that ends by itself and in which nothing fails.
ending-none :
    (w : World) (json : Bool) (run : Run)
    → (ending w json run).result ≡ none
    → (run.error ≡ none) × (run.failed ≡ false)
unfolding ending
ending-none w json run h = elim (Option-cases run.error) [
  | inl n ↦ (n, ground arith)
  | inr (e, s) ↦ absurd (ground arith)
]

ending-report :
    (w : World) (json : Bool) (run : Run) (success : Bool) (results : List ShareResult)
    → (ending w json run).report ≡ some (success, results)
    → (run.error ≡ none) × (success ≡ not run.failed) × (results ≡ run.results)
unfolding ending
ending-report w json run success results h = elim (Option-cases run.error) [
  | inl n ↦ (n, ground arith, ground arith)
  | inr (e, s) ↦ absurd (ground arith)
]

module _ (w : World) (yaml : YamlDecoder) (net : NetLibrary) (u : UuidLibrary) (timeout : ℤ)
    (json : Bool) (file : FileContents) (cfg : ClientConfig)
    (loaded : load_client_config yaml net u file ≡ ok cfg) where
  -- The command returns no error only if there are shares and every one of them is mounted: there
  -- is a result for each share, in the order of the configuration, and it is "mounted"; and mount is
  -- called once for each share, in that order, and returns no error.
  pub synology_success :
      (synology w yaml net u timeout json file).result ≡ none
      → (1 ≤ length cfg.shares)
        × (map (λ (r : ShareResult). r.name) (synology w yaml net u timeout json file).results
            ≡ map (λ (s : ShareConfig). s.name) cfg.shares)
        × All Succeeded (synology w yaml net u timeout json file).results
        × (map (λ (m : Mount). m.share) (synology w yaml net u timeout json file).mounts
            ≡ map (λ (s : ShareConfig). s.name) cfg.shares)
        × All
            (λ m. mount_synology_share w m.moment m.share m.passphrase ≡ true)
            (synology w yaml net u timeout json file).mounts
  unfolding synology
  synology_success h =
      elim (Bool-cases (not (int_lt (pos 0) timeout) || int_lt thirty_minutes timeout)) [
        | inl y ↦ absurd (cc (rw y at h))
        | inr n ↦ elim (Bool-cases (length cfg.shares == 0)) [
          | inl y ↦ absurd (cc (rw (n, loaded, y) at h))
          | inr m ↦
              let (e, f) =
                ending-none w json (run_shares w net cfg json cfg.shares 0)
                  (rw (n, loaded, m) at h) in
              let (names, verdict) = run_complete w net cfg json cfg.shares 0 e in
              let (shares, worked) = run_mounted w net cfg json cfg.shares 0 e f in
              rw (n, loaded, m) (ground arith, names, verdict.0 f, shares, worked)
        ]
      ]

  -- The JSON report has one result for each share, in the order of the configuration, and says
  -- success exactly if all of them are "mounted".
  pub synology_report :
      (success : Bool) (results : List ShareResult)
      → (synology w yaml net u timeout json file).report ≡ some (success, results)
      → (map (λ (r : ShareResult). r.name) results ≡ map (λ (s : ShareConfig). s.name) cfg.shares)
        × ((success ≡ true) ↔ All Succeeded results)
  unfolding synology
  synology_report success results h =
      elim (Bool-cases (not (int_lt (pos 0) timeout) || int_lt thirty_minutes timeout)) [
        | inl y ↦ absurd (cc (rw y at h))
        | inr n ↦ elim (Bool-cases (length cfg.shares == 0)) [
          | inl y ↦ absurd (cc (rw (n, loaded, y) at h))
          | inr m ↦
              let run = run_shares w net cfg json cfg.shares 0 in
              let (e, f, g) = ending-report w json run success results (rw (n, loaded, m) at h) in
              let (names, verdict) = run_complete w net cfg json cfg.shares 0 e in
              rw g (names, (λ k. verdict.0 (ground arith), λ k. ground (arith, verdict.1 k)))
        ]
      ]
