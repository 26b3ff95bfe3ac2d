-- ===== src/Keymanager/Load.antt =====
-- Load of internal/keymanager/manager.go, call by call.
use azath.Prelude.{
  length, replicate, take-append, Bytes, zero_bytes, ◌≡◌, refl, ◌≢◌, ◌↔◌, ◌⊎◌, inl, inr, false,
  none, some, arith,
}
use azath.Keymanager.{
  Manager, ManagerState, unloaded, loaded, destroyed, SourceResult, LoadError, copy_bytes,
  check_state, check_source, commit, load,
}

pub copy_bytes-eq : (b : Bytes) → length b ≡ 32 → copy_bytes b ≡ b
unfolding copy_bytes
copy_bytes-eq b h = take-append 32 b (replicate 32 0) h

-- What makes a call of Load succeed: both state checks see an unloaded manager, and the source
-- gives 32 bytes and no error.
pub record Accepts (seen : ManagerState) (r : SourceResult) (m : Manager) : Type 0 where
  pub seen_unloaded : seen ≡ unloaded
  pub no_error : r.fails ≡ false
  pub right_size : length r.raw ≡ 32
  pub still_unloaded : m.state ≡ unloaded

-- Load returns no error exactly when the call is acceptable; the manager then holds the source's
-- bytes and is loaded.
pub load-Accepts :
    (seen : ManagerState) (r : SourceResult) (m : Manager)
    → ((load seen r m).error ≡ none) ↔ Accepts seen r m
unfolding load check_state check_source commit
load-Accepts seen r m = (ground arith, ground arith)

pub load_effect :
    (seen : ManagerState) (r : SourceResult) (m : Manager)
    → (load seen r m).error ≡ none
    → ((load seen r m).manager.key ≡ r.raw)
      × ((load seen r m).manager.key_nil ≡ false)
      × ((load seen r m).manager.state ≡ loaded)
      × ((load seen r m).manager.master_key_loaded ≡ 1)
unfolding load check_state check_source commit
load_effect seen r m h = ground (arith, copy_bytes-eq r.raw)

-- A call of Load that returns an error leaves the manager as it was.
pub load_error :
    (seen : ManagerState) (r : SourceResult) (m : Manager) (e : LoadError)
    → (load seen r m).error ≡ some e
    → (load seen r m).manager ≡ m
unfolding load check_state check_source commit
load_error seen r m e h = ground arith

-- Whether Load succeeds or fails, the buffer that the source returned is overwritten with zeros;
-- the source is asked exactly when the fast path saw an unloaded manager.
pub load_wipes :
    (seen : ManagerState) (r : SourceResult) (m : Manager)
    → ((seen ≡ unloaded) × ((load seen r m).buffer ≡ some (zero_bytes r.raw)))
      ⊎ ((seen ≢ unloaded) × ((load seen r m).buffer ≡ none))
unfolding load check_state check_source commit
load_wipes unloaded r m = inl (refl, ground arith)
load_wipes loaded r m = inr (λ e. cc, refl)
load_wipes destroyed r m = inr (λ e. cc, refl)
