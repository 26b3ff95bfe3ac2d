-- ===== src/Fsutil/Durability.antt =====
-- What Write of internal/fsutil/atomic.go has done when it returns no error.
use azath.Prelude.{
  text_eq_refl, Text, Bytes, lookup, insert, remove, lookup-insert, lookup-remove, ◌≡◌, refl, sym,
  ap, ◌∙◌, ◌≢◌, false, none, some, [], arith,
}
use azath.Fsutil.{
  clean_up, sync_directory, move_over, install, fill, Calls, Directory, Entries, Disk, synced_files,
  settled, create_file, write_file, write, last_disk, final,
}
use azath.Fsutil.Crashes.{Finds, content_of, synced_of, lookup-seen, Finds-synced}
use azath.Fsutil.Atomicity.{synced_file, unsynced_file, sync_full, rename_full, differs}

-- All calls succeed.
abbrev pub Succeeds : Calls → Type 0
Succeeds calls =
    (calls.create_fails ≡ false)
    × (calls.chmod_fails ≡ false)
    × (calls.write_fails ≡ false)
    × (calls.sync_fails ≡ false)
    × (calls.close_fails ≡ false)
    × (calls.rename_fails ≡ false)
    × (calls.open_dir_fails ≡ false)
    × (calls.sync_dir_fails ≡ false)
    × (calls.close_dir_fails ≡ false)

pub write-Succeeds :
    (calls : Calls) (tmp path : Text) (contents : Bytes) (old : Directory)
    → (write calls tmp path contents old).error ≡ none
    → Succeeds calls
unfolding write fill install move_over sync_directory clean_up
write-Succeeds calls tmp path contents old h = ground arith

-- The entries at the end.
abbrev installed : Text → Text → Bytes → Directory → Entries
installed tmp path contents old = insert path (synced_file contents) (
    remove tmp (
      insert tmp (synced_file contents)
        (insert tmp (unsynced_file contents) (insert tmp (unsynced_file []) (synced_files old)))))

last-Succeeds :
    (calls : Calls) (tmp path : Text) (contents : Bytes) (old : Directory)
    → Succeeds calls
    → last_disk old (write calls tmp path contents old).trace
      ≡ record { live = installed tmp path contents old; unsynced = [] }
unfolding write fill install move_over sync_directory
last-Succeeds calls tmp path contents old (a, b, c, d, e, f, g, h, i) =
    let full = write_file tmp contents (create_file tmp (settled old)) in
    rw
      (
        a,
        b,
        c,
        d,
        e,
        f,
        g,
        h,
        i,
        sync_full tmp contents (create_file tmp (settled old)),
        rename_full tmp path contents full,
      )
      refl

module _ (tmp path : Text) (contents : Bytes) (old : Directory) (n : tmp ≢ path) where
  lookup-installed : lookup path (installed tmp path contents old) ≡ synced_of (some contents)
  lookup-installed = lookup-insert path path (synced_file contents) _ ∙ rw (text_eq_refl path) refl

  installed-moves : lookup tmp (installed tmp path contents old) ≡ synced_of none
  installed-moves =
      lookup-insert path tmp (synced_file contents) _
      ∙ rw (differs path tmp (λ q. n (sym q)))
          (lookup-remove tmp tmp _ ∙ rw (text_eq_refl tmp) refl)

  -- If Write returns no error, and the temporary file has another name, every call has succeeded,
  -- the path holds the contents and the temporary name is gone.
  pub write_installs :
      (calls : Calls)
      → (write calls tmp path contents old).error ≡ none
      → Succeeds calls
        × (lookup path (final old (write calls tmp path contents old).trace) ≡ some contents)
        × (lookup tmp (final old (write calls tmp path contents old).trace) ≡ none)
  write_installs calls h =
      let s = write-Succeeds calls tmp path contents old h in
      let e = last-Succeeds calls tmp path contents old s in
      (
        s,
        rw e (lookup-seen path (installed tmp path contents old) ∙ ap content_of lookup-installed),
        rw e (lookup-seen tmp (installed tmp path contents old) ∙ ap content_of installed-moves),
      )

  -- When Write has returned without an error, and the temporary file has another name, its work is
  -- durable, on a disk on which the directory and its files were synced before: for programs and
  -- whatever a later crash does, the path holds the new contents in full, and the temporary name is
  -- gone.
  pub write_durable :
      (calls : Calls) (after : Directory)
      → (write calls tmp path contents old).error ≡ none
      → Finds (last_disk old (write calls tmp path contents old).trace) after
      → (lookup path after ≡ some contents) × (lookup tmp after ≡ none)
  write_durable calls after h f =
      let s = write-Succeeds calls tmp path contents old h in
      let g = rw (last-Succeeds calls tmp path contents old s) at f in
      let end : Disk = record { live = installed tmp path contents old; unsynced = [] } in
      (
        Finds-synced end after path (some contents) (lookup-installed, tt) g,
        Finds-synced end after tmp none (installed-moves, tt) g,
      )
