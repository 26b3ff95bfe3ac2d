-- ===== src/Commands/Seal.antt =====
-- cmd/azath/seal.go: the seal command, which reads a secret, has it sealed and writes the blob.
pub mod Plaintext
pub mod Output
use Prim.Native.Nat.{bit_or, bit_xor}
use azath.Prelude.{
  Result, ok, err, ltb, ◌==◌, if◌then◌else◌, length, take, Text, Bytes, zero_bytes, ℕ, suc, Bool,
  false, not, Option, none, some, List, [], ◌∷◌, ◌++◌,
}
use azath.Uuid.{UuidLibrary}
use azath.Base64.Standard.{std_encode}
use azath.Fsutil.{Calls, Directory, Disk, WriteError, write}
use azath.Client.{
  ClientConfig, NetLibrary, YamlDecoder, ClientError, EndpointError, FileContents, endpoint_target,
  load_client_config,
}

-- 1 MiB
abbrev pub max_plaintext_size : ℕ
max_plaintext_size = 1048576

-- What the terminal and stdin give, none for an error; whether grpc.NewClient takes a target; the
-- Seal RPC at a target, none for its error or the end of its timeout; the system calls of Write and
-- the name of its temporary file; and whether stdout is written.
pub record World : Type 0 where
  pub stdin : Option Bytes
  pub is_terminal : Bool
  pub first : Option Bytes
  pub second : Option Bytes
  pub dials : Text → Bool
  pub call : Text → Text → Bytes → Option Bytes
  pub calls : Calls
  pub temporary : Text
  pub prints : Bool

-- Reading the plaintext ------------------------------------------------------------------------

pub data PlaintextError : Type 0 where
  reading_stdin over_limit not_a_terminal reading_password reading_confirmation : PlaintextError
  no_match secret_empty : PlaintextError

-- The loop of constantTimeEqual: result |= a[i] ^ b[i].
differences : Bytes → Bytes → ℕ → ℕ
differences [] bs result = result
differences (a ∷ rest) [] result = result
differences (a ∷ rest) (b ∷ bs) result = differences rest bs (bit_or result (bit_xor a b))

-- constantTimeEqual
unfoldable pub constant_time_equal : Bytes → Bytes → Bool
unfolding differences
constant_time_equal a b = if not (length a == length b) then false else differences a b 0 == 0

-- What readPlaintext returns, and what the two password buffers hold then.
pub record Reading : Type 0 where
  pub result : Result PlaintextError Bytes
  pub first : Bytes
  pub second : Bytes

abbrev failed_reading : PlaintextError → Bytes → Bytes → Reading
failed_reading e first second = record { result = err e; first = first; second = second }

-- io.ReadAll(io.LimitReader(os.Stdin, limit+1)), and the test of its length.
at_most : ℕ → Bytes → Result PlaintextError Bytes
at_most limit input =
    let read = take (suc limit) input in if ltb limit (length read) then err over_limit else ok read

read_stdin : Option Bytes → Result PlaintextError Bytes
unfolding at_most
read_stdin none = err reading_stdin
read_stdin (some input) = at_most max_plaintext_size input

confirm : Bytes → Bytes → Reading
confirm first second =
    if not (constant_time_equal first second)
    then failed_reading no_match (zero_bytes first) (zero_bytes second)
    else if length first == 0
    then failed_reading secret_empty (zero_bytes first) (zero_bytes second)
    else record { result = ok first; first = first; second = zero_bytes second }

read_second : Bytes → Option Bytes → Reading
unfolding confirm
read_second first none = failed_reading reading_confirmation (zero_bytes first) []
read_second first (some second) = confirm first second

read_first : World → Option Bytes → Reading
unfolding read_second
read_first w none = failed_reading reading_password [] []
read_first w (some first) = read_second first w.second

-- readPlaintext
unfoldable pub read_plaintext : World → Bool → Reading
unfolding read_stdin read_first
read_plaintext w prompt =
    if not prompt
    then record { result = read_stdin w.stdin; first = []; second = [] }
    else if not w.is_terminal
    then failed_reading not_a_terminal [] []
    else read_first w w.first

-- The command ----------------------------------------------------------------------------------

pub data SealCommandError : Type 0 where
  loading : ClientError → SealCommandError
  no_endpoint plaintext_empty client_failed rpc_failed writing_stdout : SealCommandError
  no_plaintext : PlaintextError → SealCommandError
  no_target : EndpointError → SealCommandError
  writing_output : WriteError → SealCommandError

-- What the command comes to: its error; the text on stdout; the disks between the calls of Write, the
-- last one first; and the buffer of the plaintext, which the deferred ZeroOnReturn wipes.
pub record Sealing : Type 0 where
  pub error : Option SealCommandError
  pub stdout : Text
  pub trace : List Disk
  pub buffer : Bytes

abbrev sealing_fails : SealCommandError → Bytes → Sealing
sealing_fails e buffer = record { error = some e; stdout = []; trace = []; buffer = buffer }

file_error : Option WriteError → Option SealCommandError
file_error none = none
file_error (some e) = some (writing_output e)

module _ (w : World) (net : NetLibrary) (uuid out : Text) (fs : Directory) (plaintext : Bytes) where
  -- The output: to the file if there is a path, or else to stdout with a line end.
  output : Text → Sealing
  unfolding file_error
  output encoded =
      let writing = write w.calls w.temporary out encoded fs in
      if not (length out == 0)
      then record {
        error = file_error writing.error;
        stdout = [];
        trace = writing.trace;
        buffer = zero_bytes plaintext;
      }
      else if w.prints
      then record {
        error = none;
        stdout = encoded ++ (10 ∷ []);
        trace = [];
        buffer = zero_bytes plaintext;
      }
      else sealing_fails writing_stdout (zero_bytes plaintext)

  replied : Option Bytes → Sealing
  unfolding output
  replied none = sealing_fails rpc_failed (zero_bytes plaintext)
  replied (some blob) = output (std_encode blob)

  with_target : Result EndpointError Text → Sealing
  unfolding replied
  with_target (err e) = sealing_fails (no_target e) (zero_bytes plaintext)
  with_target (ok target) =
      if not (w.dials target)
      then sealing_fails client_failed (zero_bytes plaintext)
      else replied (w.call target uuid plaintext)

  -- From the plaintext on, with the first endpoint.
  unfoldable pub send_plaintext : Text → Sealing
  unfolding with_target
  send_plaintext endpoint =
      if length plaintext == 0
      then sealing_fails plaintext_empty plaintext
      else with_target (endpoint_target net endpoint)

module _ (w : World) (net : NetLibrary) (out : Text) (prompt : Bool) (fs : Directory) where
  with_plaintext : Text → Text → Result PlaintextError Bytes → Sealing
  unfolding send_plaintext
  with_plaintext uuid endpoint (err e) = sealing_fails (no_plaintext e) []
  with_plaintext uuid endpoint (ok plaintext) = send_plaintext w net uuid out fs plaintext endpoint

  with_endpoints : Text → List Text → Sealing
  unfolding with_plaintext
  with_endpoints uuid [] = sealing_fails no_endpoint []
  with_endpoints uuid (e ∷ es) = with_plaintext uuid e (read_plaintext w prompt).result

  -- --endpoint overrides the endpoints of the configuration.
  abbrev chosen : List Text → ClientConfig → List Text
  chosen endpoints cfg = if length endpoints == 0 then cfg.endpoints else endpoints

  configured : List Text → Result ClientError ClientConfig → Sealing
  unfolding with_endpoints
  configured endpoints (err e) = sealing_fails (loading e) []
  configured endpoints (ok cfg) = with_endpoints cfg.device.uuid (chosen endpoints cfg)

  -- runSeal; `file` is what the configuration's path names.
  unfoldable pub run_seal : YamlDecoder → UuidLibrary → FileContents → List Text → Sealing
  unfolding configured
  run_seal yaml u file endpoints = configured endpoints (load_client_config yaml net u file)
