-- ===== src/Commands/Synology.antt =====
-- cmd/azath/client.go: the synology command, which unlocks the configured shares one after another.
-- Each read of the context and each call of the outside world has a moment of its own, a number that
-- is counted up.
pub mod Runs
pub mod Mounts
pub mod Blobs
use azath.Prelude.{
  Result, ok, err, ltb, ◌==◌, if◌then◌else◌, length, Text, Bytes, codes, contains_byte, zero_bytes,
  ℕ, suc, Bool, true, false, not, ◌&&◌, ◌||◌, Option, none, some, List, [], ◌∷◌, ◌++◌,
}
use azath.Prelude.Int.{int_lt, pos, ℤ}
use azath.Uuid.{UuidLibrary}
use azath.Base64.Standard.{std_decode}
use azath.Client.{
  ShareConfig, ClientConfig, NetLibrary, YamlDecoder, ClientError, EndpointError, FileContents,
  ReadError, read_bounded_file, endpoint_target, load_client_config,
}

-- What the command meets: whether the context is canceled; the files; bytes.TrimSpace; whether
-- grpc.NewClient takes a target; the Unseal RPC at a target, none for its error or the end of its
-- timeout; whether a process with these arguments ends well; whether output is written.
pub record World : Type 0 where
  pub canceled : ℕ → Bool
  pub file : Text → FileContents
  pub trim_space : Bytes → Bytes
  pub dials : Text → Bool
  pub call : ℕ → Text → Text → Bytes → Option Bytes
  pub runs : ℕ → List Bytes → Bool
  pub writes : ℕ → Bool

pub data Status : Type 0 where
  mounted invalid_blob unseal_failed invalid_passphrase canceled_status mount_failed : Status

pub record ShareResult : Type 0 where
  pub name : Text
  pub status : Status

pub data CommandError : Type 0 where
  bad_timeout no_shares synology_canceled writing_result writing_json shares_failed : CommandError
  loading : ClientError → CommandError

-- A call of `mount`, with the moment at which it starts.
pub record Mount : Type 0 where
  pub share : Text
  pub passphrase : Bytes
  pub moment : ℕ

pub data BlobError : Type 0 where
  not_readable : ReadError → BlobError
  invalid_sealed_blob : BlobError

blob_of : Option Bytes → Result BlobError Bytes
blob_of none = err invalid_sealed_blob
blob_of (some blob) =
    if ltb (length blob) 32 || ltb 4128 (length blob) then err invalid_sealed_blob else ok blob

after_blob_read : World → Result ReadError Bytes → Result BlobError Bytes
unfolding blob_of
after_blob_read w (err e) = err (not_readable e)
after_blob_read w (ok text) = blob_of (std_decode (w.trim_space text))

-- readBlob; readBounded is the same code as readBoundedFile.
unfoldable pub read_blob : World → Text → Result BlobError Bytes
unfolding after_blob_read
read_blob w path = after_blob_read w (read_bounded_file 16384 (w.file path))

-- The command line of synoshare.
abbrev pub mount_arguments : Text → Bytes → List Bytes
mount_arguments name plaintext =
    codes "/usr/syno/sbin/synoshare" ∷ codes "--enc_mount" ∷ name ∷ plaintext ∷ []

-- mountSynologyShare: whether it returns no error.
unfoldable pub mount_synology_share : World → ℕ → Text → Bytes → Bool
mount_synology_share w now name plaintext =
    if w.canceled now then false else w.runs (suc now) (mount_arguments name plaintext)

module _ (w : World) (net : NetLibrary) (uuid : Text) (blob : Bytes) where
  dialled : ℕ → Result EndpointError Text → Option Bytes
  dialled now (err e) = none
  dialled now (ok target) = if not (w.dials target) then none else w.call now target uuid blob

  -- tryUnseal
  unfoldable pub try_unseal : ℕ → Text → Option Bytes
  unfolding dialled
  try_unseal now endpoint = dialled now (endpoint_target net endpoint)

  abbrev pub has_plaintext : Option Bytes → Bool
  has_plaintext none = false
  has_plaintext (some plaintext) = not (length plaintext == 0)

  -- The loop over the endpoints, with the moment, and what `plaintext` and `err` hold: none for an
  -- error.
  unfoldable pub try_endpoints : List Text → ℕ → Option Bytes → Option Bytes × ℕ
  unfolding try_unseal
  try_endpoints [] now last = (last, now)
  try_endpoints (e ∷ es) now last =
      let reply = try_unseal (suc now) e in
      let rest = try_endpoints es (suc (suc now)) reply in
      if w.canceled now
      then (last, suc now)
      else if has_plaintext reply
      then (reply, suc (suc now))
      else rest

-- What one share comes to: its status, the call of mount if there is one, what the buffer of the
-- plaintext holds at the end, and the moment.
pub record Unlocked : Type 0 where
  pub status : Status
  pub mounts : List Mount
  pub buffer : Bytes
  pub moment : ℕ

module _ (w : World) (name : Text) where
  -- The default case of the switch.
  mount_share : Bytes → ℕ → Unlocked
  mount_share plaintext now = record {
    status = if mount_synology_share w now name plaintext then mounted else mount_failed;
    mounts = record { share = name; passphrase = plaintext; moment = now } ∷ [];
    buffer = zero_bytes plaintext;
    moment = suc (suc now);
  }

  abbrev without_mount : Status → Bytes → ℕ → Unlocked
  without_mount status plaintext now = record {
    status = status;
    mounts = [];
    buffer = zero_bytes plaintext;
    moment = now;
  }

  -- The switch, and the wiping of the plaintext.
  unfoldable pub use_plaintext : Option Bytes → ℕ → Unlocked
  unfolding mount_share
  use_plaintext none now = without_mount unseal_failed [] now
  use_plaintext (some plaintext) now =
      if length plaintext == 0
      then without_mount unseal_failed plaintext now
      else if contains_byte plaintext 0 || ltb 4096 (length plaintext)
      then without_mount invalid_passphrase plaintext now
      else if w.canceled now
      then without_mount canceled_status plaintext (suc now)
      else mount_share plaintext (suc now)

abbrev pub is_mounted : Status → Bool
is_mounted mounted = true
is_mounted _ = false

-- What a run of the loop shows and does: the error, the results that were shown or collected, `failed`, the
-- calls of mount in their order, and the moment at which the loop ends.
pub record Run : Type 0 where
  pub error : Option CommandError
  pub failed : Bool
  pub results : List ShareResult
  pub mounts : List Mount
  pub moment : ℕ

abbrev pub then_run : ShareResult → Unlocked → Run → Run
then_run r one rest = record rest {
  failed = not (is_mounted r.status) || rest.failed;
  results = r ∷ rest.results;
  mounts = one.mounts ++ rest.mounts;
}

abbrev pub stopped : CommandError → Bool → List Mount → ℕ → Run
stopped e failed mounts now = record {
  error = some e;
  failed = failed;
  results = [];
  mounts = mounts;
  moment = now;
}

-- The JSON output and the result of the command, after the loop.
pub record Ending : Type 0 where
  pub result : Option CommandError
  pub report : Option (Bool × List ShareResult)

-- What the command shows and does.
pub record Outcome : Type 0 where
  pub result : Option CommandError
  pub report : Option (Bool × List ShareResult)
  pub results : List ShareResult
  pub mounts : List Mount

abbrev verdict : Bool → Option CommandError
verdict failed = if failed then some shares_failed else none

abbrev refused : CommandError → Outcome
refused e = record { result = some e; report = none; results = []; mounts = [] }

module _ (w : World) (net : NetLibrary) (cfg : ClientConfig) where
  unlock_blob : Text → ℕ → Result BlobError Bytes → Unlocked
  unfolding use_plaintext
  unlock_blob name now (err e) = without_mount w name invalid_blob [] now
  unlock_blob name now (ok blob) =
      let (reply, later) = try_endpoints w net cfg.device.uuid blob cfg.endpoints now (some []) in
      use_plaintext w name reply later

  -- The body of the loop over the shares, up to the result.
  unfoldable pub unlock_share : ShareConfig → ℕ → Unlocked
  unfolding unlock_blob
  unlock_share s now = unlock_blob s.name now (read_blob w s.sealed_blob)

  -- The loop over the shares. A result is collected for the JSON output, or else printed.
  unfoldable pub run_shares : Bool → List ShareConfig → ℕ → Run
  unfolding unlock_share
  run_shares json [] now = record {
    error = none;
    failed = false;
    results = [];
    mounts = [];
    moment = now;
  }
  run_shares json (s ∷ ss) now =
      let one = unlock_share s (suc now) in
      let result : ShareResult = record { name = s.name; status = one.status } in
      let rest = run_shares json ss (if json then one.moment else suc one.moment) in
      if w.canceled now
      then stopped synology_canceled false [] now
      else if not json && not (w.writes one.moment)
      then stopped writing_result (not (is_mounted one.status)) one.mounts one.moment
      else then_run result one rest

after_loop : World → Bool → Run → Option CommandError → Ending
after_loop w json run (some e) = record { result = some e; report = none }
after_loop w json run none =
    if not json
    then record { result = verdict run.failed; report = none }
    else if w.writes run.moment
    then record { result = verdict run.failed; report = some (not run.failed, run.results) }
    else record { result = some writing_json; report = none }

unfoldable pub ending : World → Bool → Run → Ending
unfolding after_loop
ending w json run = after_loop w json run run.error

abbrev pub thirty_minutes : ℤ
thirty_minutes = pos 1800000000000

module _ (w : World) (yaml : YamlDecoder) (net : NetLibrary) (u : UuidLibrary) where
  with_config : Bool → Result ClientError ClientConfig → Outcome
  with_config json (err e) = refused (loading e)
  with_config json (ok cfg) =
      let run = run_shares w net cfg json cfg.shares 0 in
      let end = ending w json run in
      if length cfg.shares == 0 then refused no_shares else record {
        result = end.result;
        report = end.report;
        results = run.results;
        mounts = run.mounts;
      }

  -- RunE of newSynologyCmdWithMount; `file` is what the configuration's path names.
  unfoldable pub synology : ℤ → Bool → FileContents → Outcome
  unfolding with_config
  synology timeout json file =
      if not (int_lt (pos 0) timeout) || int_lt thirty_minutes timeout
      then refused bad_timeout
      else with_config json (load_client_config yaml net u file)
