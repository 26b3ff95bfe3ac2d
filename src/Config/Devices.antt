-- ===== src/Config/Devices.antt =====
-- validateDevices of internal/config/validate.go, and the table that runServe of cmd/azath/serve.go
-- makes of the devices.
pub mod Table
use azath.Prelude.{
  if◌then◌else◌, replicate, Text, Bytes, contains_byte, lookup, insert, Assoc, ℕ, ◌+◌, Bool, ◌||◌,
  Option, none, some, List, [], ◌∷◌, ◌++◌,
}
use azath.Uuid.{UuidLibrary}
use azath.Config.{DeviceConfig}
use azath.Config.Validation.{
  ConfigError, bad_uuid, duplicate_uuid, name_required, control_characters, duplicate_name,
  is_empty,
}
use azath.Server.{DeviceInfo}

-- The UUIDs and names seen so far, with the index of their devices.
pub record Seen : Type 0 where
  pub uuids : Assoc ℕ
  pub names : Assoc ℕ

-- strings.ContainsAny(name, "\n\r\x00")
abbrev pub has_control : Text → Bool
has_control s = contains_byte s 10 || (contains_byte s 13 || contains_byte s 0)

check_canonical : ℕ → Text → Option ℕ → Assoc ℕ → Assoc ℕ × List ConfigError
check_canonical i id none uuids = (insert id i uuids, [])
check_canonical i id (some prev) uuids = (uuids, duplicate_uuid i ∷ [])

check_uuid : UuidLibrary → ℕ → Option Bytes → Assoc ℕ → Assoc ℕ × List ConfigError
unfolding check_canonical
check_uuid u i none uuids = (uuids, bad_uuid i ∷ [])
check_uuid u i (some bits) uuids =
    check_canonical i (u.to_string bits) (lookup (u.to_string bits) uuids) uuids

check_seen : ℕ → Text → Option ℕ → Assoc ℕ → Assoc ℕ × List ConfigError
check_seen i name none names = (insert name i names, [])
check_seen i name (some prev) names = (names, duplicate_name i ∷ [])

check_name : ℕ → Text → Assoc ℕ → Assoc ℕ × List ConfigError
unfolding check_seen
check_name i name names =
    if is_empty name
    then (names, name_required i ∷ [])
    else if has_control name
    then (names, control_characters i ∷ [])
    else check_seen i name (lookup name names) names

-- The loop of validateDevices from index i on.
unfoldable pub validate_from : UuidLibrary → ℕ → Seen → List DeviceConfig → List ConfigError
unfolding check_uuid check_name
validate_from u i seen [] = []
validate_from u i seen (d ∷ ds) =
    let (uuids, uuid_errs) = check_uuid u i (u.parse d.uuid) seen.uuids in
    let (names, name_errs) = check_name i d.name seen.names in
    uuid_errs ++ (name_errs ++ validate_from u (i + 1) (record { uuids = uuids; names = names }) ds)

-- validateDevices
unfoldable pub validate_devices : UuidLibrary → List DeviceConfig → List ConfigError
validate_devices u ds = validate_from u 0 (record { uuids = []; names = [] }) ds

-- The UUID that a failed Parse leaves: 16 zero bytes.
abbrev pub bits_of : Option Bytes → Bytes
bits_of none = replicate 16 0
bits_of (some bits) = bits

-- `for _, d := range cfg.Devices { ... }` of runServe
unfoldable pub device_table : UuidLibrary → Assoc DeviceInfo → List DeviceConfig → Assoc DeviceInfo
device_table u table [] = table
device_table u table (d ∷ ds) =
    let id = u.to_string (bits_of (u.parse d.uuid)) in
    device_table u (insert id (record { name = d.name; uuid = id; disabled = d.disabled }) table) ds
