-- ===== src/Commands/Devices/Runs/Safe.antt =====
-- What the commands of cmd/azath/config_toggle_cmd.go and config_newdevice_cmd.go leave in the file.
use azath.Prelude.{
  Result, Result-cases, ok, Bool-cases, Option-cases, IsIn, Text, Bytes, lookup, ◌≡◌, refl, sym, ap,
  ◌∙◌, ◌≢◌, ◌⊎◌, inl, inr, Bool, Option, none, some, List, [],
}
use azath.Fsutil.{Directory, Disk, WriteError, write, last_disk}
use azath.Fsutil.Crashes.{Finds}
use azath.Fsutil.Atomicity.{write_atomic}
use azath.Fsutil.Durability.{write_durable}
use azath.Config.{Config}
use azath.Config.Validation.{ConfigError, ValidatedConfig}
use azath.Config.Validate.{validate}
use azath.Config.Loading.{LoadError, load_from_bytes}
use azath.Commands.Devices.{set_device_disabled, Node, EditError}
use azath.Commands.Devices.Runs.{
  toggle_device_disabled, World, ConfigCommandError, Updated, check_file, read_config, edit_bytes,
  update_config, not_loaded, existing_invalid, updated_not_loaded, updated_invalid, write_error,
}

-- A file that loads as a configuration and is valid.
pub record IsValidFile (w : World) (file : Bytes) : Type 0 where
  pub cfg : Config
  pub loads : load_from_bytes w.yaml file ≡ ok cfg
  pub vc : ValidatedConfig
  pub valid : validate w.lib w.uuids cfg ≡ ok vc

-- A valid file that comes of the old one by the edit of its tree.
pub record IsUpdate (w : World) (edit : Node → Result EditError Node) (old new : Bytes)
    : Type 0 where
  pub old_valid : IsValidFile w old
  pub doc : Node
  pub parsed : w.tree.unmarshal old ≡ some doc
  pub doc' : Node
  pub edited : edit doc ≡ ok doc'
  pub printed : w.tree.marshal doc' ≡ some new
  pub new_valid : IsValidFile w new

module _ (w : World) where
  check_file-IsValidFile :
      (unloaded : LoadError → ConfigCommandError) (invalid : List ConfigError → ConfigCommandError)
      (file out : Bytes)
      → check_file w unloaded invalid file ≡ ok out
      → IsValidFile w file × (file ≡ out)
  unfolding check_file
  check_file-IsValidFile unloaded invalid file out h =
      elim (Result-cases (load_from_bytes w.yaml file)) [
        | inl (e, b) ↦ absurd (cc (rw b at h))
        | inr (cfg, l) ↦ elim (Result-cases (validate w.lib w.uuids cfg)) [
          | inl (e, b) ↦ absurd (cc (rw (l, b) at h))
          | inr (vc, v) ↦ (record { cfg = cfg; loads = l; vc = vc; valid = v }, cc (rw (l, v) at h))
        ]
      ]

  read_config-IsValidFile :
      (path : Text) (fs : Directory) (file : Bytes)
      → read_config w path fs ≡ ok file
      → (lookup path fs ≡ some file) × IsValidFile w file
  unfolding read_config
  read_config-IsValidFile path fs file h = elim (Bool-cases w.reads) [
    | inr n ↦ absurd (cc (rw n at h))
    | inl y ↦ elim (Option-cases (lookup path fs)) [
      | inl n ↦ absurd (cc (rw (y, n) at h))
      | inr (f, l) ↦
          let (v, e) = check_file-IsValidFile not_loaded existing_invalid f file (rw (y, l) at h) in
          (l ∙ ap some e, rw (← e) v)
    ]
  ]

  module _ (edit : Node → Result EditError Node) where
    edit_bytes_parts :
        (old new : Bytes)
        → edit_bytes w edit old ≡ ok new
        → (doc : Node) × (w.tree.unmarshal old ≡ some doc)
          × (doc' : Node) × (edit doc ≡ ok doc')
          × (w.tree.marshal doc' ≡ some new)
    unfolding edit_bytes
    edit_bytes_parts old new h = elim (Option-cases (w.tree.unmarshal old)) [
      | inl n ↦ absurd (cc (rw n at h))
      | inr (doc, p) ↦ elim (Result-cases (edit doc)) [
        | inl (e, b) ↦ absurd (cc (rw (p, b) at h))
        | inr (doc', g) ↦ elim (Option-cases (w.tree.marshal doc')) [
          | inl n ↦ absurd (cc (rw (p, g, n) at h))
          | inr (b, m) ↦ (doc, p, doc', g, m ∙ ap some (ok_eq (rw (p, g, m) at h)))
        ]
      ]
    ]
      where
        ok_eq : {a b : Bytes} → ◌≡◌ {A = Result EditError Bytes} (ok a) (ok b) → a ≡ b
        ok_eq e = cc e

    -- Either nothing is written, and there is an error, or an update of the file is.
    config_cases :
        (path : Text) (fs : Directory)
        → (((update_config w edit path fs).trace ≡ [])
            × ((update_config w edit path fs).error ≢ none))
          ⊎ ((old : Bytes) × (new : Bytes) × (lookup path fs ≡ some old)
              × IsUpdate w edit old new
              × (update_config w edit path fs ≡ record {
                error = write_error w (write w.calls w.temporary path new fs).error;
                trace = (write w.calls w.temporary path new fs).trace;
              }))
    unfolding update_config
    config_cases path fs = elim (Result-cases (read_config w path fs)) [
      | inl (e, b) ↦ inl (rw b (refl, λ h. cc h))
      | inr (old, r) ↦ elim (Result-cases (edit_bytes w edit old)) [
        | inl (e, b) ↦ inl (rw (r, b) (refl, λ h. cc h))
        | inr (new, g) ↦ elim (Result-cases (check_file w updated_not_loaded updated_invalid new)) [
          | inl (e, b) ↦ inl (rw (r, g, b) (refl, λ h. cc h))
          | inr (same, k) ↦
              let (l, old_valid) = read_config-IsValidFile path fs old r in
              let (doc, p, doc', d, m) = edit_bytes_parts old new g in
              let (new_valid, e) =
                check_file-IsValidFile updated_not_loaded updated_invalid new same k in
              inr (
                old,
                new,
                l,
                record {
                  old_valid = old_valid;
                  doc = doc;
                  parsed = p;
                  doc' = doc';
                  edited = d;
                  printed = m;
                  new_valid = new_valid;
                },
                rw (r, g, k, ← e) refl,
              )
        ]
      ]
    ]

    -- What is found under the path while a command runs or after a crash, if the directory and its
    -- files were synced before and the temporary file has another name: the old file, or a whole and valid configuration
    -- that comes of the old one, valid too, by the edit. A crash may leave any bytes in a file that has
    -- not been synced.
    pub config_crash_safe :
        (path : Text) (fs : Directory) (d : Disk) (after : Directory)
        → w.temporary ≢ path
        → IsIn d (update_config w edit path fs).trace
        → Finds d after
        → (lookup path after ≡ lookup path fs)
          ⊎ ((old : Bytes) × (new : Bytes) × (lookup path fs ≡ some old)
              × (lookup path after ≡ some new)
              × IsUpdate w edit old new)
    config_crash_safe path fs d after n i f = elim (config_cases path fs) [
      | inl (t, _) ↦ absurd (rw t at i)
      | inr (old, new, l, k, e) ↦
          elim (write_atomic w.calls w.temporary path new fs d after n (rw e at i) f) [
            | inl same ↦ inl same
            | inr there ↦ inr (old, new, l, there, k)
          ]
    ]

    -- A command that returns no error has replaced a valid configuration by the one that comes of
    -- it by the edit, which is valid again, and has left no temporary file; no later crash undoes it.
    pub config_success :
        (path : Text) (fs : Directory) (after : Directory)
        → w.temporary ≢ path
        → (update_config w edit path fs).error ≡ none
        → Finds (last_disk fs (update_config w edit path fs).trace) after
        → (old : Bytes) × (new : Bytes) × (lookup path fs ≡ some old)
          × (lookup path after ≡ some new)
          × (lookup w.temporary after ≡ none)
          × IsUpdate w edit old new
    config_success path fs after n h f = elim (config_cases path fs) [
      | inl (t, e) ↦ absurd (e h)
      | inr (old, new, l, k, e) ↦
          let written =
            write_error_none (write w.calls w.temporary path new fs).error
              (ap (λ (r : Updated). r.error) (sym e) ∙ h) in
          let (there, gone) =
            write_durable w.temporary path new fs n w.calls after written (rw e at f) in
          (old, new, l, there, gone, k)
    ]
      where
        write_error_none : (o : Option WriteError) → write_error w o ≡ none → o ≡ none
        write_error_none none p = refl
        write_error_none (some x) p = absurd (unfold write_error in cc p)

-- The commands disable-device and enable-device, if they return no error: the file was a valid
-- configuration and is one again, for good, and its tree is the old tree with the device toggled.
pub toggle_success :
    (w : World) (name : Text) (disabled : Bool) (path : Text) (fs after : Directory)
    → w.temporary ≢ path
    → (toggle_device_disabled w name disabled path fs).error ≡ none
    → Finds (last_disk fs (toggle_device_disabled w name disabled path fs).trace) after
    → (old : Bytes) × (new : Bytes) × (lookup path fs ≡ some old)
      × (lookup path after ≡ some new)
      × (lookup w.temporary after ≡ none)
      × IsUpdate w (set_device_disabled name disabled) old new
unfolding toggle_device_disabled
toggle_success w name disabled path fs after n h f =
    config_success w (set_device_disabled name disabled) path fs after n h f
