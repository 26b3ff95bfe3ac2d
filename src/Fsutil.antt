-- ===== src/Fsutil.antt =====
-- internal/fsutil/atomic.go: Write. A directory is a map from names to contents. Which system calls
-- fail is an argument; `written` is how much of the data a failing write puts into the file.
--
-- A disk has what programs see and what a crash can leave of it. The bytes of a file are on the disk
-- for certain only once the file has been synced, and a change of the directory only once the
-- directory has been synced; until then a crash may undo it, or any later one.
pub mod Crashes
pub mod Atomicity
pub mod Durability
use azath.Prelude.{
  if◌then◌else◌, take, Text, Bytes, lookup, insert, remove, Assoc, ℕ, Bool, true, false, Option,
  none, some, List, [], ◌∷◌,
}

pub data WriteError : Type 0 where
  creating permissions writing syncing closing renaming opening_dir syncing_dir closing_dir :
      WriteError

-- The error that each call returns, none for success; `removes` is whether os.Remove works.
pub record Calls : Type 0 where
  pub create_fails : Bool
  pub chmod_fails : Bool
  pub write_fails : Bool
  pub sync_fails : Bool
  pub close_fails : Bool
  pub rename_fails : Bool
  pub open_dir_fails : Bool
  pub sync_dir_fails : Bool
  pub close_dir_fails : Bool
  pub removes : Bool
  pub written : ℕ

-- What a program reads: names and contents.
abbrev pub Directory : Type 0
Directory = Assoc Bytes

-- The contents of a file, and whether they are synced.
pub record File : Type 0 where
  pub contents : Bytes
  pub is_synced : Bool

abbrev pub Entries : Type 0
Entries = Assoc File

-- The entries that programs see, and the earlier ones that the directory has had since it was last
-- synced, the last one first.
pub record Disk : Type 0 where
  pub live : Entries
  pub unsynced : List Entries

-- The disk on which everything is synced.
unfoldable pub synced_files : Directory → Entries
synced_files [] = []
synced_files ((name, contents) ∷ rest) =
    (name, record { contents = contents; is_synced = true }) ∷ synced_files rest

abbrev pub settled : Directory → Disk
settled fs = record { live = synced_files fs; unsynced = [] }

-- What programs read on a disk.
unfoldable pub seen : Entries → Directory
seen [] = []
seen ((name, file) ∷ rest) = (name, file.contents) ∷ seen rest

-- A change of the directory.
abbrev pub with_entries : Entries → Disk → Disk
with_entries entries d = record { live = entries; unsynced = d.live ∷ d.unsynced }

-- The disks between the calls, the last one first, and the error returned.
pub record Writing : Type 0 where
  pub error : Option WriteError
  pub trace : List Disk

-- os.CreateTemp makes an empty file.
abbrev pub create_file : Text → Disk → Disk
create_file name d =
    with_entries (insert name (record { contents = []; is_synced = false }) d.live) d

-- File.Write: the new contents are not on the disk for certain.
abbrev pub write_file : Text → Bytes → Disk → Disk
write_file name contents d = record d {
  live = insert name (record { contents = contents; is_synced = false }) d.live;
}

synced : Option File → Text → Disk → Disk
synced none name d = d
synced (some file) name d = record d {
  live = insert name (record file { is_synced = true }) d.live;
}

-- File.Sync
unfoldable pub sync_file : Text → Disk → Disk
unfolding synced
sync_file name d = synced (lookup name d.live) name d

-- os.Remove
abbrev pub remove_file : Text → Disk → Disk
remove_file name d = with_entries (remove name d.live) d

moved : Option File → Text → Text → Disk → Disk
moved none from to d = d
moved (some file) from to d = with_entries (insert to file (remove from d.live)) d

-- os.Rename
unfoldable pub rename : Text → Text → Disk → Disk
unfolding moved
rename from to d = moved (lookup from d.live) from to d

-- Sync of the directory.
abbrev pub sync_entries : Disk → Disk
sync_entries d = record d { unsynced = [] }

-- The deferred os.Remove after an error.
clean_up : Calls → Text → Disk → List Disk → WriteError → Writing
clean_up calls tmp d trace e = record {
  error = some e;
  trace = if calls.removes then remove_file tmp d ∷ trace else trace;
}

-- After the rename: the directory is opened, synced and closed.
sync_directory : Calls → Text → Disk → List Disk → Writing
unfolding clean_up
sync_directory calls tmp d trace =
    let done = sync_entries d in
    if calls.open_dir_fails
    then clean_up calls tmp d trace opening_dir
    else if calls.sync_dir_fails
    then clean_up calls tmp d trace syncing_dir
    else if calls.close_dir_fails
    then clean_up calls tmp done (done ∷ trace) closing_dir
    else record { error = none; trace = done ∷ trace }

-- With the synced data in the temporary file: close and rename.
move_over : Calls → Text → Text → Disk → List Disk → Writing
unfolding sync_directory
move_over calls tmp path d trace =
    let renamed = rename tmp path d in
    if calls.close_fails
    then clean_up calls tmp d trace closing
    else if calls.rename_fails
    then clean_up calls tmp d trace renaming
    else sync_directory calls tmp renamed (renamed ∷ trace)

-- With the data in the temporary file: sync, close and rename.
install : Calls → Text → Text → Disk → List Disk → Writing
unfolding move_over
install calls tmp path d trace =
    let on_disk = sync_file tmp d in
    if calls.sync_fails
    then clean_up calls tmp d trace syncing
    else move_over calls tmp path on_disk (on_disk ∷ trace)

-- With an empty temporary file: chmod and write.
fill : Calls → Text → Text → Bytes → Disk → List Disk → Writing
unfolding install
fill calls tmp path contents d trace =
    let partial = write_file tmp (take calls.written contents) d in
    let full = write_file tmp contents d in
    if calls.chmod_fails
    then clean_up calls tmp d trace permissions
    else if calls.write_fails
    then clean_up calls tmp partial (partial ∷ trace) writing
    else install calls tmp path full (full ∷ trace)

-- Write, on a disk on which the directory and its files are synced; `tmp` is the name that os.CreateTemp makes.
unfoldable pub write : Calls → Text → Text → Bytes → Directory → Writing
unfolding fill
write calls tmp path contents fs =
    let created = create_file tmp (settled fs) in
    if calls.create_fails
    then record { error = some creating; trace = settled fs ∷ [] }
    else fill calls tmp path contents created (created ∷ settled fs ∷ [])

-- The last disk, and what programs read on it.
abbrev pub last_disk : Directory → List Disk → Disk
last_disk fs [] = settled fs
last_disk fs (last ∷ rest) = last

abbrev pub final : Directory → List Disk → Directory
final fs trace = seen (last_disk fs trace).live
