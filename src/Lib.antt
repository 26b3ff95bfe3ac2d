-- ===== src/Lib.antt =====
-- Azath seals and unseals disk keys: a gRPC service encrypts a key under a master key, and gives the
-- plaintext back only after an operator has approved the device in Telegram. This library models the
-- program and shows what each part promises to the others.
--
-- The parts and their files. Paths are from the root of the repository.
-- - Crypto/Sealer, Crypto/Words, Crypto/Primitives: internal/crypto/aes.go and wipe.go. new_sealer,
--   seal, unseal, destroy and instance_tag_of are NewSealer, Seal, Unseal, Destroy and InstanceTag;
--   the nonce counter is a number modulo 2^64. HKDF, AES and GCM are the record Primitives, with
--   their documented behaviour in IsLawful.
-- - Keymanager: internal/keymanager/manager.go and source_file.go. load is Load, as a check, a call of
--   the source and a commit; the state that the check saw is an argument, so that a list of actions
--   stands for any interleaving of concurrent calls.
-- - Gate, Gate/Requests, Gate/Callbacks, Gate/Steps: internal/gate/telegram.go. Each stretch under the
--   mutex is a function on the record TelegramGate: enter and wake are the two halves of
--   waitForApproval, expire the end of runPending, process_callback is processCallback, close_begin
--   and close_end are Close. Pending requests are objects on a heap. A Run is any sequence of
--   stretches. Gate/Construction has NewTelegramGate and Check, Gate/Codec the signed buttons,
--   Gate/Updates the handling of a batch of updates, Gate/Prompts the message of a prompt and the
--   loop of the polling.
-- - Server, Server/Handlers, Server/Interceptors: internal/server/server.go, response.go,
--   interceptors.go and grpc.go. seal and unseal are the handlers, served is an Unseal call behind the
--   interceptors. The service asks the key manager for a sealer for each request, and the gate for a
--   decision; the gate is a function here, which may also fail or panic.
-- - Config, Config/Loading, Config/Validation, Config/Devices, Config/Validate:
--   internal/config/config.go and validate.go, and the device table of cmd/azath/serve.go. load and
--   validate are Load and Validate; yaml.v3 is the record ServerYaml.
-- - Client: internal/config/client.go. load_client_config is LoadClientConfig, endpoint_target is
--   EndpointTarget; yaml.v3 and the package net are the records YamlDecoder and NetLibrary.
-- - Commands/Serve: cmd/azath/serve.go. run_serve is runServe; a deferred call is a function on what
--   the code after it comes to, so that the events stand in the order in which they happen.
-- - Commands/Synology: cmd/azath/client.go. synology is the whole command. The context may be canceled
--   at any time, and the outside world may answer the same call differently each time: every such read
--   has a moment of its own, a number that is counted up, and the record World is a function of it.
-- - Commands/Seal: cmd/azath/seal.go. run_seal is runSeal, read_plaintext is readPlaintext.
--   Commands/EndToEnd puts seal, the service and synology together.
-- - Commands/Devices: cmd/azath/config_toggle_cmd.go and config_newdevice_cmd.go. The edits work on the
--   tree of yaml.v3, whose nodes hold lists of nodes; Commands/Devices/Runs has the commands around
--   them, and Commands/Devices/Runs/Checked validate of cmd/azath/config_cmd.go.
-- - Observability: internal/observability/health.go and logging.go. The goroutines of the readiness
--   handler write in an order that is an argument.
-- - Secret: internal/secret/resolve.go. How the op process ends is an argument.
-- - Fsutil: Write of internal/fsutil/atomic.go. A disk has the entries that programs see and the earlier
--   ones that the directory has had since it was last synced. Fsutil/Crashes says what can be found: a
--   crash leaves any of these entries, and any bytes in a file that has not been synced. Fsutil/Atomicity
--   and Fsutil/Durability are about Write during and after its run.
-- - Uuid, Base64, Base64/Standard: what the program uses of the UUID library, as a parameter, and of
--   encoding/base64.
-- - Prelude: numbers, bits, lists, texts, results and maps. Tests: every property at concrete inputs.
--
-- Bounds. Texts and byte slices are lists of byte values. Durations and times are nanoseconds; a
-- duration saturates at 2^63 - 1 as time.Since does. The decimal form of an int64 has 19 digits at
-- most, so the 20 steps of fuel of decimal are enough. Everything else recurses on its argument.
--
-- Not modelled: the transport of HTTP and the JSON of the bodies that Telegram gets and gives; the parsing and printing
-- of YAML, which are parameters; the transport of gRPC, whose calls are functions; logging and the
-- metrics registry; the command line's flags, help and output texts; the locking of memory; and the
-- copies of secrets that the runtime makes. The time at which a stretch runs is an argument, so
-- nothing is said about how long a call takes.
pub mod Prelude
pub mod Uuid
pub mod Base64
pub mod Crypto
pub mod Keymanager
pub mod Gate
pub mod Server
pub mod Config
pub mod Client
pub mod Commands
pub mod Observability
pub mod Secret
pub mod Fsutil
pub mod Tests
