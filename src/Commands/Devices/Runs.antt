-- ===== src/Commands/Devices/Runs.antt =====
-- The commands disable-device, enable-device and new-device of cmd/azath/config_toggle_cmd.go and
-- config_newdevice_cmd.go, and validate of config_cmd.go: from the file to the file.
pub mod Safe
pub mod Checked
use azath.Prelude.{
  Result, ok, err, if◌then◌else◌, Text, Bytes, lookup, Bool, not, Option, none, some, List, [],
}
use azath.Uuid.{UuidLibrary}
use azath.Fsutil.{Calls, Directory, Disk, WriteError, write}
use azath.Config.{Config}
use azath.Config.Validation.{StandardLibrary, ConfigError, ValidatedConfig}
use azath.Config.Validate.{validate}
use azath.Config.Loading.{ServerYaml, LoadError, load_from_bytes}
use azath.Commands.Devices.{
  Node, EditError, not_parsed, not_marshalled, set_device_disabled, append_device,
}

-- yaml.Unmarshal into a yaml.Node and yaml.Marshal, none for an error.
pub record YamlTree : Type 0 where
  pub unmarshal : Bytes → Option Node
  pub marshal : Node → Option Bytes

-- What the commands call: the decoders and the validation's libraries; whether the file can be
-- read; the system calls of Write and its temporary name; and whether the output is written.
pub record World : Type 0 where
  pub yaml : ServerYaml
  pub tree : YamlTree
  pub lib : StandardLibrary
  pub uuids : UuidLibrary
  pub reads : Bool
  pub calls : Calls
  pub temporary : Text
  pub prints : Bool

pub data ConfigCommandError : Type 0 where
  not_readable writing_output : ConfigCommandError
  not_loaded : LoadError → ConfigCommandError
  existing_invalid updated_invalid : List ConfigError → ConfigCommandError
  not_edited : EditError → ConfigCommandError
  updated_not_loaded : LoadError → ConfigCommandError
  not_written : WriteError → ConfigCommandError

-- The error of a command, and the disks between the calls of Write, the last one first.
pub record Updated : Type 0 where
  pub error : Option ConfigCommandError
  pub trace : List Disk

abbrev fails_with : ConfigCommandError → Updated
fails_with e = record { error = some e; trace = [] }

module _ (w : World) where
  validated_file :
      (List ConfigError → ConfigCommandError)
      → Bytes
      → Result (List ConfigError) ValidatedConfig
      → Result ConfigCommandError Bytes
  validated_file invalid file (err es) = err (invalid es)
  validated_file invalid file (ok vc) = ok file

  loaded_file :
      (LoadError → ConfigCommandError)
      → (List ConfigError → ConfigCommandError)
      → Bytes
      → Result LoadError Config
      → Result ConfigCommandError Bytes
  unfolding validated_file
  loaded_file unloaded invalid file (err e) = err (unloaded e)
  loaded_file unloaded invalid file (ok cfg) =
      validated_file invalid file (validate w.lib w.uuids cfg)

  -- LoadFromBytes and Validate, and then the same bytes.
  unfoldable pub check_file :
      (LoadError → ConfigCommandError)
      → (List ConfigError → ConfigCommandError)
      → Bytes
      → Result ConfigCommandError Bytes
  unfolding loaded_file
  check_file unloaded invalid file = loaded_file unloaded invalid file (load_from_bytes w.yaml file)

  read_found : Option Bytes → Result ConfigCommandError Bytes
  unfolding check_file
  read_found none = err not_readable
  read_found (some file) = check_file not_loaded existing_invalid file

  -- readConfig
  unfoldable pub read_config : Text → Directory → Result ConfigCommandError Bytes
  unfolding read_found
  read_config path fs = if not w.reads then err not_readable else read_found (lookup path fs)

  marshalled : Option Bytes → Result EditError Bytes
  marshalled none = err not_marshalled
  marshalled (some file) = ok file

  edited_node : Result EditError Node → Result EditError Bytes
  unfolding marshalled
  edited_node (err e) = err e
  edited_node (ok doc) = marshalled (w.tree.marshal doc)

  parsed_node : (Node → Result EditError Node) → Option Node → Result EditError Bytes
  unfolding edited_node
  parsed_node edit none = err not_parsed
  parsed_node edit (some doc) = edited_node (edit doc)

  -- yaml.Unmarshal, the edit and yaml.Marshal.
  unfoldable pub edit_bytes : (Node → Result EditError Node) → Bytes → Result EditError Bytes
  unfolding parsed_node
  edit_bytes edit file = parsed_node edit (w.tree.unmarshal file)

  write_error : Option WriteError → Option ConfigCommandError
  write_error none = if w.prints then none else some writing_output
  write_error (some e) = some (not_written e)

  install : Text → Directory → Result ConfigCommandError Bytes → Updated
  unfolding write_error
  install path fs (err e) = fails_with e
  install path fs (ok file) =
      let writing = write w.calls w.temporary path file fs in
      record { error = write_error writing.error; trace = writing.trace }

  check_edited : Text → Directory → Result EditError Bytes → Updated
  unfolding install check_file
  check_edited path fs (err e) = fails_with (not_edited e)
  check_edited path fs (ok file) =
      install path fs (check_file updated_not_loaded updated_invalid file)

  with_file :
      (Node → Result EditError Node) → Text → Directory → Result ConfigCommandError Bytes → Updated
  unfolding check_edited edit_bytes
  with_file edit path fs (err e) = fails_with e
  with_file edit path fs (ok file) = check_edited path fs (edit_bytes edit file)

  -- What toggleDeviceDisabled and the new-device command do alike.
  unfoldable pub update_config : (Node → Result EditError Node) → Text → Directory → Updated
  unfolding with_file
  update_config edit path fs = with_file edit path fs (read_config path fs)

  -- toggleDeviceDisabled
  unfoldable pub toggle_device_disabled : Text → Bool → Text → Directory → Updated
  toggle_device_disabled name disabled = update_config (set_device_disabled name disabled)

  -- RunE of newConfigNewDeviceCmd; `id` is what uuid.New().String() gives.
  unfoldable pub add_device : Text → Text → Text → Directory → Updated
  add_device name id = update_config (append_device name id)
