-- ===== src/Fsutil/Atomicity.antt =====
-- Atomicity of Write of internal/fsutil/atomic.go.
use azath.Prelude.{
  Bool-cases, take, All, IsIn, All-IsIn, text_eq, text_eq_iff, text_eq_refl, Text, Bytes, lookup,
  insert, remove, lookup-insert, lookup-remove, ◌≡◌, refl, ◌∙◌, ◌≢◌, ◌⊎◌, inl, inr, true, false,
  some, List, ◌∷◌,
}
use azath.Fsutil.{
  clean_up, move_over, sync_directory, install, fill, WriteError, Calls, Directory, File, Entries,
  Disk, synced_files, settled, with_entries, create_file, write_file, sync_file, rename,
  sync_entries, write, permissions, writing, syncing, closing, renaming, opening_dir, syncing_dir,
  closing_dir,
}
use azath.Fsutil.Crashes.{
  Finds, IsLeft-synced, synced_of, Finds-IsLeft, Finds-synced, lookup-synced_files,
}

abbrev pub synced_file : Bytes → File
synced_file contents = record { contents = contents; is_synced = true }

abbrev pub unsynced_file : Bytes → File
unsynced_file contents = record { contents = contents; is_synced = false }

-- A property of all the entries that a disk may have after a crash.
abbrev Everywhere : (Entries → Type 0) → Disk → Type 0
Everywhere P d = P d.live × All P d.unsynced

-- What the changes that Write makes to the directory keep.
record Keeps (tmp path : Text) (contents : Bytes) (P : Entries → Type 0) : Type 0 where
  on_insert : (es : Entries) (f : File) → P es → P (insert tmp f es)
  on_remove : (es : Entries) → P es → P (remove tmp es)
  on_install : (es : Entries) → P es → P (insert path (synced_file contents) (remove tmp es))

-- The temporary file after its Sync.
abbrev pub with_synced : Text → Bytes → Disk → Disk
with_synced tmp contents d = record d { live = insert tmp (synced_file contents) d.live }

pub sync_full :
    (tmp : Text) (contents : Bytes) (d : Disk)
    → sync_file tmp (write_file tmp contents d)
      ≡ with_synced tmp contents (write_file tmp contents d)
unfolding sync_file
sync_full tmp contents d =
    rw (lookup-insert tmp tmp (unsynced_file contents) d.live, text_eq_refl tmp) refl

pub rename_full :
    (tmp path : Text) (contents : Bytes) (d : Disk)
    → rename tmp path (with_synced tmp contents d)
      ≡ with_entries
          (insert path
            (synced_file contents)
            (remove tmp (insert tmp (synced_file contents) d.live)))
          (with_synced tmp contents d)
unfolding rename
rename_full tmp path contents d =
    rw (lookup-insert tmp tmp (synced_file contents) d.live, text_eq_refl tmp) refl

module _ (calls : Calls) (tmp path : Text) (contents : Bytes) {P : Entries → Type 0}
    (k : Keeps tmp path contents P) where
  clean_up_rule :
      (d : Disk) (trace : List Disk) (e : WriteError)
      → Everywhere P d
      → All (Everywhere P) trace
      → All (Everywhere P) (clean_up calls tmp d trace e).trace
  unfolding clean_up
  clean_up_rule d trace e p t = elim (Bool-cases calls.removes) [
    | inl y ↦ rw y ((k.on_remove d.live p.0, p), t)
    | inr n ↦ rw n t
  ]

  sync_rule :
      (d : Disk) (trace : List Disk)
      → Everywhere P d
      → All (Everywhere P) trace
      → All (Everywhere P) (sync_directory calls tmp d trace).trace
  unfolding sync_directory
  sync_rule d trace p t = elim (Bool-cases calls.open_dir_fails) [
    | inl y ↦ rw y (clean_up_rule d trace opening_dir p t)
    | inr n ↦ rw n (elim (Bool-cases calls.sync_dir_fails) [
      | inl y ↦ rw y (clean_up_rule d trace syncing_dir p t)
      | inr m ↦ rw m (elim (Bool-cases calls.close_dir_fails) [
        | inl y ↦ rw y (clean_up_rule (sync_entries d) _ closing_dir (p.0, tt) ((p.0, tt), t))
        | inr l ↦ rw l ((p.0, tt), t)
      ])
    ])
  ]

  move_rule :
      (d : Disk) (trace : List Disk)
      → Everywhere P (with_synced tmp contents d)
      → All (Everywhere P) trace
      → All (Everywhere P) (move_over calls tmp path (with_synced tmp contents d) trace).trace
  unfolding move_over
  move_rule d trace p t = elim (Bool-cases calls.close_fails) [
    | inl y ↦ rw y (clean_up_rule _ trace closing p t)
    | inr n ↦ rw n (elim (Bool-cases calls.rename_fails) [
      | inl y ↦ rw y (clean_up_rule _ trace renaming p t)
      | inr m ↦
          let q : Everywhere P (rename tmp path (with_synced tmp contents d)) =
            rw (rename_full tmp path contents d) (k.on_install _ p.0, p) in
          rw m (sync_rule _ _ q (q, t))
    ])
  ]

  install_rule :
      (d : Disk) (trace : List Disk)
      → Everywhere P (write_file tmp contents d)
      → All (Everywhere P) trace
      → All (Everywhere P) (install calls tmp path (write_file tmp contents d) trace).trace
  unfolding install
  install_rule d trace p t = elim (Bool-cases calls.sync_fails) [
    | inl y ↦ rw y (clean_up_rule _ trace syncing p t)
    | inr n ↦
        let q : Everywhere P (with_synced tmp contents (write_file tmp contents d)) =
          (k.on_insert _ (synced_file contents) p.0, p.1) in
        rw (n, sync_full tmp contents d) (move_rule (write_file tmp contents d) _ q (q, t))
  ]

  fill_rule :
      (d : Disk) (trace : List Disk)
      → Everywhere P d
      → All (Everywhere P) trace
      → All (Everywhere P) (fill calls tmp path contents d trace).trace
  unfolding fill
  fill_rule d trace p t = elim (Bool-cases calls.chmod_fails) [
    | inl y ↦ rw y (clean_up_rule _ trace permissions p t)
    | inr n ↦ rw n (elim (Bool-cases calls.write_fails) [
      | inl y ↦
          let q : Everywhere P (write_file tmp (take calls.written contents) d) =
            (k.on_insert _ _ p.0, p.1) in
          rw y (clean_up_rule _ _ writing q (q, t))
      | inr m ↦
          let q : Everywhere P (write_file tmp contents d) = (k.on_insert _ _ p.0, p.1) in
          rw m (install_rule d _ q (q, t))
    ])
  ]

  write_rule :
      (fs : Directory)
      → P (synced_files fs)
      → All (Everywhere P) (write calls tmp path contents fs).trace
  unfolding write
  write_rule fs p = elim (Bool-cases calls.create_fails) [
    | inl y ↦ rw y ((p, tt), tt)
    | inr n ↦
        let q : Everywhere P (create_file tmp (settled fs)) = (k.on_insert _ _ p, (p, tt)) in
        rw n (fill_rule _ _ q (q, ((p, tt), tt)))
  ]

pub differs : (s t : Text) → s ≢ t → text_eq s t ≡ false
differs s t n = elim (Bool-cases (text_eq s t)) [
  | inl y ↦ absurd (n ((text_eq_iff s t).0 y))
  | inr f ↦ f
]

-- The old file or the new one.
abbrev pub IsIntact : Text → Bytes → Directory → Directory → Type 0
IsIntact path contents old after =
    (lookup path after ≡ lookup path old) ⊎ (lookup path after ≡ some contents)

-- The entry of the old file or of the new one, synced.
abbrev IsKept : Text → Bytes → Directory → Entries → Type 0
IsKept path contents old es =
    (lookup path es ≡ synced_of (lookup path old)) ⊎ (lookup path es ≡ synced_of (some contents))

write-IsKept :
    (calls : Calls) (tmp path : Text) (contents : Bytes) (old : Directory)
    → tmp ≢ path
    → All (Everywhere (IsKept path contents old)) (write calls tmp path contents old).trace
write-IsKept calls tmp path contents old n =
    write_rule calls tmp path contents
      (record {
        on_insert = λ es f i. rw (lookup-insert tmp path f es, differs tmp path n) i;
        on_remove = λ es i. rw (lookup-remove tmp path es, differs tmp path n) i;
        on_install = λ es i. inr (
            lookup-insert path path (synced_file contents) (remove tmp es)
            ∙ rw (text_eq_refl path) refl);
      })
      old (inl (lookup-synced_files path old))

found-IsIntact :
    (path : Text) (contents : Bytes) (old : Directory) (d : Disk) (after : Directory)
    → Everywhere (IsKept path contents old) d
    → Finds d after
    → IsIntact path contents old after
found-IsIntact path contents old d after h f =
    let (es, i, left) = Finds-IsLeft d after path f in
    elim (All-IsIn (IsKept path contents old) es (d.live ∷ d.unsynced) h i) [
      | inl same ↦ inl (IsLeft-synced (lookup path old) (lookup path after) (rw same at left))
      | inr new ↦ inr (IsLeft-synced (some contents) (lookup path after) (rw new at left))
    ]

-- Write is atomic: on a disk on which the directory and its files are synced, whichever calls fail, who reads the
-- path between two of the calls or after a crash there finds either what it had before or the new
-- contents in full, if the temporary file has another name. A crash may undo every change of the
-- directory since the last sync of it, and may leave any bytes in a file that has not been synced.
pub write_atomic :
    (calls : Calls) (tmp path : Text) (contents : Bytes) (old : Directory) (d : Disk)
    (after : Directory)
    → tmp ≢ path
    → IsIn d (write calls tmp path contents old).trace
    → Finds d after
    → IsIntact path contents old after
write_atomic calls tmp path contents old d after n i f =
    found-IsIntact path contents old d after
      (All-IsIn (Everywhere (IsKept path contents old)) d (write calls tmp path contents old).trace
        (write-IsKept calls tmp path contents old n) i)
      f

-- Write touches no file but the path and its temporary file: under any other name, the old file is
-- found, or none if there was none.
pub write_others :
    (calls : Calls) (tmp path name : Text) (contents : Bytes) (old : Directory) (d : Disk)
    (after : Directory)
    → tmp ≢ name
    → path ≢ name
    → IsIn d (write calls tmp path contents old).trace
    → Finds d after
    → lookup name after ≡ lookup name old
write_others calls tmp path name contents old d after n m i f =
    let all =
      write_rule calls tmp path contents {P = λ es. lookup name es ≡ synced_of (lookup name old)}
        (record {
          on_insert = λ es g h. rw (lookup-insert tmp name g es, differs tmp name n) h;
          on_remove = λ es h. rw (lookup-remove tmp name es, differs tmp name n) h;
          on_install = λ es h.
              rw
                (
                  lookup-insert path name (synced_file contents) (remove tmp es),
                  differs path name m,
                )
                (rw (lookup-remove tmp name es, differs tmp name n) h);
        })
        old (lookup-synced_files name old) in
    Finds-synced d after name (lookup name old)
      (All-IsIn (Everywhere (λ es. lookup name es ≡ synced_of (lookup name old))) d
        (write calls tmp path contents old).trace all i)
      f
