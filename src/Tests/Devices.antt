-- ===== src/Tests/Devices.antt =====
-- The properties of the commands that edit the devices, at concrete inputs.
use azath.Prelude.{
  Result, ok, if◌then◌else◌, IsIn, text_eq, Text, Bytes, codes, lookup, ◌≡◌, refl, ◌⊎◌, inl, true,
  some, [], ◌∷◌,
}
use azath.Commands.Devices.{
  Node, Nodes, node, nil, cons, scalar, content_of, mapping_node, sequence_node, document_node,
  set_disabled, set_device_disabled, edit_document, EditError,
}
use azath.Commands.Devices.Toggled.{IsToggled}
use azath.Commands.Devices.Toggled.Fields.{AreWellFormed, field_of, disabled_key}
use azath.Commands.Devices.Toggled.Document.{devices_of, toggle_changes_one}
use azath.Fsutil.{Disk, last_disk, seen, write}
use azath.Fsutil.Crashes.{reads}
use azath.Config.{apply_defaults}
use azath.Config.Loading.{load_from_bytes}
use azath.Commands.Devices.Runs.{
  World, update_config, read_config, check_file, edit_bytes, updated_not_loaded, updated_invalid,
}
use azath.Commands.Devices.Runs.Safe.{IsUpdate, config_crash_safe}
use azath.Tests.Fixtures.{toy_uuid}
use azath.Tests.Config.{library, config, config_valid, calls, tmp, path, directory, tmp-ne-path}

abbrev str : Text → Node
str = scalar (codes "!!str")

abbrev device_node : Text → Node
device_node name =
    node mapping_node (codes "!!map") [] [] (cons (str (codes "name")) (cons (str name) nil))

-- A document with the devices.
abbrev document : Nodes → Node
document items = node document_node [] [] [] (
    cons
      (node mapping_node (codes "!!map") [] []
        (cons (str (codes "devices")) (cons (node sequence_node (codes "!!seq") [] [] items) nil)))
      nil)

abbrev two : Nodes
two = cons (device_node (codes "tv")) (cons (device_node (codes "nas")) nil)

abbrev toggled : Nodes
toggled = cons (device_node (codes "tv")) (cons (set_disabled true (device_node (codes "nas"))) nil)

two_devices : devices_of (document two) ≡ some two
unfolding devices_of azath.Commands.Devices.Toggled.Document.devices_in text_eq
two_devices = refl

disables : set_device_disabled (codes "nas") true (document two) ≡ ok (document toggled)
unfolding set_device_disabled edit_document text_eq azath.Commands.Devices.toggle_items
    azath.Commands.Devices.is_named
disables = refl

well_formed : AreWellFormed two
unfolding text_eq
well_formed = (((tt, (λ h. absurd (cc h), tt))), ((tt, (λ h. absurd (cc h), tt)), tt))

toggle_changes_one_example :
    (items' : Nodes) × (devices_of (document toggled) ≡ some items')
    × (edit_document (λ _. ok two) (document toggled) ≡ ok (document two))
    × (t : IsToggled (codes "nas") true two items') × ((key : Text)
        → field_of key (content_of (set_disabled true t.device)) ≡ (
            if text_eq key disabled_key
            then some (codes "true")
            else field_of key (content_of t.device)))
toggle_changes_one_example =
    toggle_changes_one (codes "nas") true (document two) (document toggled) two two_devices
      well_formed disables

-- Every file parses to the document, and loads as the configuration.
abbrev world : World
world = record {
  yaml = record { decode = λ file. some config; at_end = λ file. true };
  tree = record { unmarshal = λ file. some (document two); marshal = λ doc. some (7 ∷ []) };
  lib = library;
  uuids = toy_uuid;
  reads = true;
  calls = record calls { sync_dir_fails = true };
  temporary = tmp;
  prints = true;
}

abbrev disable : Node → Result EditError Node
disable = set_device_disabled (codes "nas") true

-- The disk after the rename, whose directory could not be synced.
abbrev renamed : Disk
renamed = last_disk directory (update_config world disable path directory).trace

file_read : read_config world path directory ≡ ok (1 ∷ [])
unfolding read_config check_file load_from_bytes apply_defaults lookup text_eq
file_read = rw config_valid refl

file_edited : edit_bytes world disable (1 ∷ []) ≡ ok (7 ∷ [])
unfolding edit_bytes
file_edited = rw disables refl

file_checked : check_file world updated_not_loaded updated_invalid (7 ∷ []) ≡ ok (7 ∷ [])
unfolding check_file load_from_bytes apply_defaults
file_checked = rw config_valid refl

renamed_in : IsIn renamed (update_config world disable path directory).trace
unfolding update_config write
renamed_in = rw (file_read, file_edited, file_checked) (inl refl)

config_crash_safe_example :
    (lookup path (seen renamed.live) ≡ lookup path directory)
    ⊎ ((old : Bytes) × (new : Bytes) × (lookup path directory ≡ some old)
        × (lookup path (seen renamed.live) ≡ some new)
        × IsUpdate world disable old new)
config_crash_safe_example =
    config_crash_safe world disable path directory renamed (seen renamed.live) tmp-ne-path
      renamed_in reads
