-- ===== src/Tests/Commands.antt =====
-- The properties of the synology and seal commands at concrete inputs.
use azath.Prelude.{
  ok, ◌==◌, if◌then◌else◌, length, drop, replicate, length-replicate, All, text_eq, Text, Bytes,
  codes, IsBytes, lookup, ◌≤◌, ◌≡◌, refl, ◌↔◌, ◌⊎◌, inl, true, false, none, some, [], ◌∷◌, ◌++◌,
  map, arith,
}
use azath.Prelude.Int.{pos}
use azath.Base64.Standard.{std_encode, IsGraphic}
use azath.Crypto.Sealer.{Sealer, new_sealer}
use azath.Crypto.Sealer
use azath.Keymanager.{key_copy, sealer, copy_bytes}
use azath.Server.{Request, response}
use azath.Server.Handlers.{seal, ending, random_len}
use azath.Server.Interceptors.{served}
use azath.Server.Seal.{Admits}
use azath.Client.{contents}
use azath.Client.Names.{IsArgument}
use azath.Commands.Synology.{
  use_plaintext, try_unseal, try_endpoints, read_blob, run_shares, ShareResult, Mount, synology,
  unlock_share, mount_synology_share,
}
use azath.Commands.Synology
use azath.Commands.Synology.Mounts.{IsSupplied, mounts-IsSupplied}
use azath.Commands.Synology.Runs.{Succeeded, synology_success}
use azath.Commands.Synology.Blobs.{read_blob_iff, TrimsSpace}
use azath.Commands.Seal.{max_plaintext_size, read_plaintext}
use azath.Commands.Seal
use azath.Commands.Seal.Plaintext.{read_plaintext_iff}
use azath.Commands.EndToEnd.{answer, IsEndpoint, IsUsed, sealed_mounts, refusal_mounts_noise}
use azath.Tests.Fixtures.{
  toy, toy-IsLawful, toy_uuid, entropy, server, nas_uuid, nas_bits, nas_info, master_key, blob,
  approving,
}
use azath.Tests.Server.{
  method, method_is_unseal, nas_configured, built, manager_key, manager_sealer, empty_server,
  empty_refuses,
}
use azath.Tests.Config.{calls}
use azath.Tests.Client.{target, toy_net, toy_yaml, client, share, client_loads}

-- Without the line ends.
unfoldable without_line_ends : Text → Text
without_line_ends [] = []
without_line_ends (c ∷ cs) = let rest = without_line_ends cs in if c == 10 then rest else c ∷ rest

-- The files hold a blob of the server, and the endpoint is the server.
abbrev world : Synology.World
world = record {
  canceled = λ now. false;
  file = λ path. contents (std_encode blob);
  trim_space = without_line_ends;
  dials = λ target. true;
  call = λ now target uuid payload.
      answer (
        served toy toy_uuid entropy method server (record { node_uuid = uuid; payload = payload }));
  runs = λ now arguments. true;
  writes = λ now. true;
}

mounts-IsSupplied_example :
    All
      (λ m. IsSupplied world toy_net client m × IsArgument m.share)
      (synology world toy_yaml toy_net toy_uuid (pos 600000000000) true (contents (1 ∷ []))).mounts
mounts-IsSupplied_example =
    mounts-IsSupplied world toy_yaml toy_net toy_uuid (pos 600000000000) true (contents (1 ∷ []))
      client client_loads

drops_line_end :
    (s : Text)
    → All IsGraphic s
    → (without_line_ends s ≡ s) × (without_line_ends (s ++ (10 ∷ [])) ≡ s)
unfolding without_line_ends
drops_line_end [] h = (refl, refl)
drops_line_end (c ∷ cs) h =
    let n : (c == 10) ≡ false = ground arith in
    let (p, q) = drops_line_end cs h.1 in (rw (n, p) refl, rw (n, q) refl)

world-TrimsSpace : TrimsSpace world
world-TrimsSpace = record {
  keeps = λ s h. (drops_line_end s h).0;
  cuts = λ s h. (drops_line_end s h).1;
}

blob-IsBytes : IsBytes blob
blob-IsBytes = omega arith

read_ok : read_blob world (codes "/homes") ≡ ok blob
read_ok =
    (read_blob_iff world (codes "/homes") blob blob-IsBytes world-TrimsSpace (inl refl)).1
      (omega arith)

-- A world whose endpoint answers at once.
abbrev plain_world : Synology.World
plain_world = record world { call = λ now target uuid payload. some (6 ∷ 6 ∷ 6 ∷ []) }

plain_read : read_blob plain_world (codes "/homes") ≡ ok blob
unfolding read_blob
plain_read = read_ok

succeeds :
    (synology plain_world toy_yaml toy_net toy_uuid
      (pos 600000000000)
      false
      (contents (1 ∷ []))).result
    ≡ none
unfolding synology run_shares unlock_share try_endpoints try_unseal use_plaintext ending
    mount_synology_share Synology.ending
succeeds = rw (client_loads, plain_read, target) refl

synology_success_example :
    (1 ≤ length client.shares)
    × (map
          (λ (r : ShareResult). r.name)
          (synology plain_world toy_yaml toy_net toy_uuid
            (pos 600000000000)
            false
            (contents (1 ∷ []))).results
        ≡ codes "homes" ∷ [])
    × All Succeeded
        (synology plain_world toy_yaml toy_net toy_uuid
          (pos 600000000000)
          false
          (contents (1 ∷ []))).results
    × (map
          (λ (m : Mount). m.share)
          (synology plain_world toy_yaml toy_net toy_uuid
            (pos 600000000000)
            false
            (contents (1 ∷ []))).mounts
        ≡ codes "homes" ∷ [])
    × All
        (λ m. mount_synology_share plain_world m.moment m.share m.passphrase ≡ true)
        (synology plain_world toy_yaml toy_net toy_uuid
          (pos 600000000000)
          false
          (contents (1 ∷ []))).mounts
synology_success_example =
    synology_success plain_world toy_yaml toy_net toy_uuid (pos 600000000000) false
      (contents (1 ∷ [])) client client_loads succeeds

abbrev request : Request
request = record { node_uuid = nas_uuid; payload = 6 ∷ 6 ∷ 6 ∷ [] }

abbrev sealed_blob : Bytes
sealed_blob = replicate 4 7 ++ (replicate 4 2 ++ (3 ∷ (replicate 7 2 ++ drop 16 blob)))

sealed : (seal toy toy_uuid server entropy request).0 ≡ response sealed_blob
unfolding seal azath.Server.Handlers.find_device lookup text_eq sealer key_copy new_sealer
    copy_bytes Sealer.seal azath.Crypto.Words.put_u64_le azath.Crypto.Words.u64_le
sealed = refl

-- The file of the share holds the sealed blob.
abbrev home : Synology.World
home = record world { file = λ path. contents (std_encode sealed_blob) }

home-TrimsSpace : TrimsSpace home
home-TrimsSpace = record { keeps = world-TrimsSpace.keeps; cuts = world-TrimsSpace.cuts }

sealed-IsBytes : IsBytes sealed_blob
sealed-IsBytes = omega arith

abbrev admitted : Admits toy_uuid server request
admitted = record {
  bits = nas_bits;
  parses = refl;
  dev = nas_info;
  configured = nas_configured;
  enabled = refl;
}

home_endpoint : IsEndpoint toy toy_uuid server entropy method home toy_net client
home_endpoint = record {
  is_unseal = method_is_unseal;
  endpoint = codes "https://kms:443";
  others = [];
  listed = refl;
  target = codes "kms:443";
  targets = target;
  dials = refl;
  goes_on = λ now. refl;
  calls = λ now payload. refl;
}

sealed_mounts_example :
    IsUsed toy toy_uuid server entropy method home toy_net client home_endpoint share
      (6 ∷ 6 ∷ 6 ∷ [])
      7
      (unlock_share home toy_net client share 7)
sealed_mounts_example =
    sealed_mounts toy toy_uuid server server entropy entropy nas_uuid (6 ∷ 6 ∷ 6 ∷ []) master_key
      sealed_blob built built approving admitted method home toy_net client share 7 toy-IsLawful
      (refl, omega arith) (refl, omega arith) manager_key manager_key manager_sealer manager_sealer
      refl nas_configured refl refl sealed home_endpoint home-TrimsSpace sealed-IsBytes (inl refl)
      (omega arith) (omega arith)

-- The same with a server that has no devices.
abbrev refusing : Synology.World
refusing = record world {
  call = λ now target uuid payload. answer (
      served toy toy_uuid entropy method empty_server
        (record { node_uuid = uuid; payload = payload }));
}

refusing_endpoint : IsEndpoint toy toy_uuid empty_server entropy method refusing toy_net client
refusing_endpoint = record {
  is_unseal = method_is_unseal;
  endpoint = codes "https://kms:443";
  others = [];
  listed = refl;
  target = codes "kms:443";
  targets = target;
  dials = refl;
  goes_on = λ now. refl;
  calls = λ now payload. refl;
}

refusing_read : read_blob refusing (codes "/homes") ≡ ok blob
unfolding read_blob
refusing_read = read_ok

refusal_mounts_noise_example :
    IsUsed toy toy_uuid empty_server entropy method refusing toy_net client refusing_endpoint share
      (replicate (random_len blob) 8)
      7
      (unlock_share refusing toy_net client share 7)
refusal_mounts_noise_example =
    refusal_mounts_noise toy toy_uuid empty_server entropy method refusing toy_net client share blob
      7 refusing_endpoint (λ n. length-replicate n 8) empty_refuses refusing_read

-- The seal command -----------------------------------------------------------------------------

abbrev terminal : Seal.World
terminal = record {
  stdin = none;
  is_terminal = true;
  first = some (6 ∷ 6 ∷ []);
  second = some (6 ∷ 6 ∷ []);
  dials = λ target. true;
  call = λ target uuid payload. some (9 ∷ payload);
  calls = calls;
  temporary = 1 ∷ [];
  prints = true;
}

read_plaintext_iff_example : ((read_plaintext terminal true).result ≡ ok (6 ∷ 6 ∷ [])) ↔ (
    ((true ≡ false) × (terminal.stdin ≡ some (6 ∷ 6 ∷ [])) × (2 ≤ max_plaintext_size))
    ⊎ ((true ≡ true)
        × (terminal.is_terminal ≡ true)
        × (terminal.first ≡ some (6 ∷ 6 ∷ []))
        × (terminal.second ≡ some (6 ∷ 6 ∷ []))
        × (1 ≤ 2)))
read_plaintext_iff_example = read_plaintext_iff terminal true (6 ∷ 6 ∷ [])
