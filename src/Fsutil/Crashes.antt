-- ===== src/Fsutil/Crashes.antt =====
-- What can be found of a disk of internal/fsutil/atomic.go, while programs run and after a crash.
use azath.Prelude.{
  Bool-cases, All, IsIn, All-IsIn, text_eq, Text, Bytes, lookup, ◌≡◌, refl, ap, ◌⊎◌, inl, inr, true,
  false, Option, none, some, [], ◌∷◌,
}
use azath.Fsutil.{File, Entries, Disk, Directory, synced_files, seen}

-- What is left of an entry: nothing of an entry that is not there, a synced file as it is, and of any
-- other file some contents.
abbrev pub IsLeft : Option File → Option Bytes → Type 0
IsLeft none after = after ≡ none
IsLeft (some f) none = ⊥
IsLeft (some f) (some bytes) = (bytes ≡ f.contents) ⊎ (f.is_synced ≡ false)

-- A crash leaves the entries that are live, or any that the directory has had since its last sync.
pub record Crashes (d : Disk) (after : Directory) : Type 0 where
  pub entries : Entries
  pub on_disk : IsIn entries (d.live ∷ d.unsynced)
  pub left : (name : Text) → IsLeft (lookup name entries) (lookup name after)

-- What can be found: what programs read, and what a crash leaves.
pub data Finds (d : Disk) : Directory → Type 0 where
  reads : Finds d (seen d.live)
  after_crash : (after : Directory) → Crashes d after → Finds d after

abbrev pub content_of : Option File → Option Bytes
content_of none = none
content_of (some f) = some f.contents

abbrev pub synced_of : Option Bytes → Option File
synced_of none = none
synced_of (some b) = some (record { contents = b; is_synced = true })

pub lookup-seen : (name : Text) (es : Entries) → lookup name (seen es) ≡ content_of (lookup name es)
unfolding lookup seen
lookup-seen name [] = refl
lookup-seen name ((k, f) ∷ es) = elim (Bool-cases (text_eq k name)) [
  | inl y ↦ rw y refl
  | inr n ↦ rw n (lookup-seen name es)
]

pub lookup-synced_files :
    (name : Text) (fs : Directory) → lookup name (synced_files fs) ≡ synced_of (lookup name fs)
unfolding lookup synced_files
lookup-synced_files name [] = refl
lookup-synced_files name ((k, b) ∷ fs) = elim (Bool-cases (text_eq k name)) [
  | inl y ↦ rw y refl
  | inr n ↦ rw n (lookup-synced_files name fs)
]

-- Of a synced file, or of no file, there is one thing to find.
pub IsLeft-synced : (o after : Option Bytes) → IsLeft (synced_of o) after → after ≡ o
IsLeft-synced none after h = h
IsLeft-synced (some b) none h = absurd h
IsLeft-synced (some b) (some c) (inl e) = ap some e
IsLeft-synced (some b) (some c) (inr n) = absurd (cc n)

IsLeft-content_of : (o : Option File) → IsLeft o (content_of o)
IsLeft-content_of none = refl
IsLeft-content_of (some f) = inl refl

-- What is found under a name is what is left of its entry in the live directory or in an unsynced
-- one.
pub Finds-IsLeft :
    (d : Disk) (after : Directory) (name : Text)
    → Finds d after
    → (es : Entries) × IsIn es (d.live ∷ d.unsynced) × IsLeft (lookup name es) (lookup name after)
Finds-IsLeft d after name reads =
    (d.live, inl refl, rw (lookup-seen name d.live) (IsLeft-content_of (lookup name d.live)))
Finds-IsLeft d after name (after_crash a c) = (c.entries, c.on_disk, c.left name)

-- Where an entry is synced, or missing, in all of these directories, nothing else is found.
pub Finds-synced :
    (d : Disk) (after : Directory) (name : Text) (o : Option Bytes)
    → All (λ es. lookup name es ≡ synced_of o) (d.live ∷ d.unsynced)
    → Finds d after
    → lookup name after ≡ o
Finds-synced d after name o all f =
    let (es, i, left) = Finds-IsLeft d after name f in
    IsLeft-synced o (lookup name after)
      (rw (All-IsIn (λ es. lookup name es ≡ synced_of o) es (d.live ∷ d.unsynced) all i) at left)
