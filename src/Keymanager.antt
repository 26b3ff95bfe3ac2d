-- ===== src/Keymanager.antt =====
-- internal/keymanager/manager.go and source_file.go: the master key's life cycle. Each function
-- is what one critical section does; Load is a check under the read lock, the source, and a commit
-- under the write lock.
pub mod Lifecycle
pub mod Sealing
pub mod Load
use azath.Prelude.{
  Result, ok, err, ◌==◌, if◌then◌else◌, length, take, replicate, Bytes, zero_bytes, ℕ, Bool, true,
  false, not, Option, none, some, [], ◌++◌,
}
use azath.Crypto.Primitives.{Primitives}
use azath.Crypto.Sealer.{Sealer, NewResult, NewError, key_size, made, failed, new_sealer}

-- `source_failed` is the error of KeySource.Load, `bad_size` that of a key of the wrong length.
pub data LoadError : Type 0 where
  already_loaded load_destroyed source_failed bad_size : LoadError

pub data KeyError : Type 0 where
  not_loaded key_destroyed : KeyError

-- stateUnloaded, stateLoaded, stateDestroyed
pub data ManagerState : Type 0 where
  unloaded loaded destroyed : ManagerState

pub record Manager : Type 0 where
  pub key : Bytes  -- the contents of the manager's own copy, also when the field has let it go
  pub key_nil : Bool  -- the field is nil
  pub state : ManagerState
  pub master_key_loaded : ℕ  -- the gauge of that name

unfoldable pub new : Manager
new = record { key = []; key_nil = true; state = unloaded; master_key_loaded = 0 }

-- The fast-path check of Load; none lets the call go on to the source.
unfoldable pub check_state : ManagerState → Option LoadError
check_state destroyed = some load_destroyed
check_state loaded = some already_loaded
check_state unloaded = none

-- What a source returns: the bytes, which may be partial beside an error, and whether it failed.
pub record SourceResult : Type 0 where
  pub raw : Bytes
  pub fails : Bool

-- The checks on the source's result, before the write lock.
unfoldable pub check_source : SourceResult → Option LoadError
check_source r =
    if r.fails
    then some source_failed
    else if not (length r.raw == key_size)
    then some bad_size
    else none

-- `make([]byte, crypto.KeySize)` and `copy`.
unfoldable pub copy_bytes : Bytes → Bytes
copy_bytes src = take key_size (src ++ replicate key_size 0)

-- The part of Load under the write lock.
unfoldable pub commit_from : ManagerState → Bytes → Manager → Option LoadError × Manager
commit_from destroyed raw m = (some load_destroyed, m)
commit_from loaded raw m = (some already_loaded, m)
commit_from unloaded raw m =
    (none, record { key = copy_bytes raw; key_nil = false; state = loaded; master_key_loaded = 1 })

unfoldable pub commit : Bytes → Manager → Option LoadError × Manager
unfolding commit_from
commit raw m = commit_from m.state raw m

-- What a call of Load leaves behind: its error, the manager, and the source's buffer, none if the
-- source was never asked.
pub record Loading : Type 0 where
  pub error : Option LoadError
  pub manager : Manager
  pub buffer : Option Bytes

after_source : SourceResult → Option LoadError → Manager → Loading
after_source r (some e) m = record { error = some e; manager = m; buffer = some (zero_bytes r.raw) }
after_source r none m =
    let (e, m') = commit r.raw m in
    record { error = e; manager = m'; buffer = some (zero_bytes r.raw) }

load_from : Option LoadError → SourceResult → Manager → Loading
unfolding after_source
load_from (some e) r m = record { error = some e; manager = m; buffer = none }
load_from none r m = after_source r (check_source r) m

-- Load: `seen` is the state read by the fast path and `m` the manager when the write lock is
-- taken; other goroutines may have run in between.
unfoldable pub load : ManagerState → SourceResult → Manager → Loading
unfolding load_from
load seen r m = load_from (check_state seen) r m

copy_from : ManagerState → Manager → Result KeyError Bytes
copy_from destroyed m = err key_destroyed
copy_from unloaded m = err not_loaded
copy_from loaded m = ok (copy_bytes (if m.key_nil then [] else m.key))

-- keyCopy.
unfoldable pub key_copy : Manager → Result KeyError Bytes
unfolding copy_from
key_copy m = copy_from m.state m

-- The errors of Sealer: those of keyCopy, and those of NewSealer passed on.
pub data GetError : Type 0 where
  no_key : KeyError → GetError
  no_sealer : NewError → GetError

from_new : NewResult → Result GetError Sealer
from_new (made s) = ok s
from_new (failed e left) = err (no_sealer e)

sealer_from : Primitives → Option Bytes → Result KeyError Bytes → Result GetError Sealer
unfolding from_new
sealer_from c seed (err e) = err (no_key e)
sealer_from c seed (ok kc) = from_new (new_sealer c kc seed)

-- Sealer; `seed` is what rand.Read gives to NewSealer.
unfoldable pub sealer : Primitives → Manager → Option Bytes → Result GetError Sealer
unfolding sealer_from
sealer c m seed = sealer_from c seed (key_copy m)

-- Destroy.
wiped : Manager → Manager
wiped m = record {
  key = zero_bytes m.key;
  key_nil = true;
  state = destroyed;
  master_key_loaded = 0;
}

destroy_from : ManagerState → Manager → Manager
unfolding wiped
destroy_from destroyed m = m
destroy_from unloaded m = wiped m
destroy_from loaded m = wiped m

unfoldable pub destroy : Manager → Manager
unfolding destroy_from
destroy m = destroy_from m.state m

unfoldable pub is_loaded : Manager → Bool
is_loaded m = elim m.state [ loaded ↦ true | _ ↦ false ]

-- FileSource.Load; `contents` is what os.ReadFile gives, none for its error.
unfoldable pub file_source : Option Bytes → SourceResult
file_source none = record { raw = []; fails = true }
file_source (some contents) =
    if not (length contents == key_size)
    then record { raw = []; fails = true }
    else record { raw = contents; fails = false }
