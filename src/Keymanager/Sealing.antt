-- ===== src/Keymanager/Sealing.antt =====
-- Manager.Sealer and FileSource.Load of internal/keymanager.
use azath.Prelude.{
  Result, Result-cases, ok, err, length, Bytes, ◌≡◌, refl, ◌↔◌, inl, inr, false, Option, none, some,
  arith,
}
use azath.Crypto.Primitives.{Primitives}
use azath.Crypto.Sealer.{Sealer, NewResult, made, failed, new_sealer}
use azath.Crypto.Sealer.Live.{IsLive, IsEntropy, IsBuilt, new_sealer-IsBuilt}
use azath.Keymanager.{
  Manager, unloaded, GetError, no_key, no_sealer, key_copy, sealer, sealer_from, from_new, load,
  new, file_source,
}
use azath.Keymanager.Load.{Accepts, load-Accepts}

-- What Sealer gives for a manager that holds `raw`: a live sealer over it, or the error of NewSealer.
abbrev pub IsSealerFor : Primitives → Bytes → Result GetError Sealer → Type 0
IsSealerFor c raw (ok s) = IsLive c raw s
IsSealerFor c raw (err (no_sealer e)) = Unit
IsSealerFor c raw (err (no_key e)) = ⊥

from_new-IsSealerFor :
    (c : Primitives) (raw : Bytes) (r : NewResult)
    → IsBuilt c raw r
    → IsSealerFor c raw (from_new r)
unfolding from_new
from_new-IsSealerFor c raw (made s) h = h.0
from_new-IsSealerFor c raw (failed e left) h = tt

pub sealer-IsSealerFor :
    (c : Primitives) (m : Manager) (raw : Bytes) (seed : Option Bytes)
    → key_copy m ≡ ok raw
    → IsEntropy seed
    → IsSealerFor c raw (sealer c m seed)
unfolding sealer sealer_from
sealer-IsSealerFor c m raw seed h e =
    rw h (from_new-IsSealerFor c raw (new_sealer c raw seed) (new_sealer-IsBuilt c raw seed e))

ok_value_eq : {s t : Sealer} → ◌≡◌ {A = Result GetError Sealer} (ok s) (ok t) → s ≡ t
ok_value_eq e = cc e

pub IsLive-of_IsSealerFor :
    (c : Primitives) (raw : Bytes) (r : Result GetError Sealer) (s : Sealer)
    → IsSealerFor c raw r
    → r ≡ ok s
    → IsLive c raw s
IsLive-of_IsSealerFor c raw (ok t) s h e = rw (← ok_value_eq e) h
IsLive-of_IsSealerFor c raw (err (no_sealer x)) s h e = absurd (cc)
IsLive-of_IsSealerFor c raw (err (no_key x)) s h e = absurd h

-- A sealer that the manager hands out is live over the manager's key.
pub sealer-IsLive :
    (c : Primitives) (m : Manager) (seed : Option Bytes) (s : Sealer)
    → IsEntropy seed
    → sealer c m seed ≡ ok s
    → (key : Bytes) × IsLive c key s
sealer-IsLive c m seed s e h = elim (Result-cases (key_copy m)) [
  | inl (x, k) ↦ absurd (unfold sealer sealer_from in ground arith)
  | inr (raw, k) ↦ (raw, IsLive-of_IsSealerFor c raw _ s (sealer-IsSealerFor c m raw seed k e) h)
]

accepted_size : (b : Bytes) → (file_source (some b)).fails ≡ false → length b ≡ 32
unfolding file_source
accepted_size b h = ground arith

right_size_accepted : (b : Bytes) → length b ≡ 32 → Accepts unloaded (file_source (some b)) new
unfolding file_source new
right_size_accepted b h = ground arith

-- A key file loads into a new manager exactly when it can be read and holds 32 bytes.
pub load_file_iff :
    (contents : Option Bytes)
    → ((load unloaded (file_source contents) new).error ≡ none)
      ↔ ((b : Bytes) × (contents ≡ some b) × (length b ≡ 32))
load_file_iff none = (
  λ h. unfold file_source in cc ((load-Accepts unloaded (file_source none) new).0 h).no_error,
  λ (b, e, l). cc e,
)
load_file_iff (some b) = (
  λ h. (b, refl, accepted_size b ((load-Accepts unloaded (file_source (some b)) new).0 h).no_error),
  λ (x, e, l).
      (load-Accepts unloaded (file_source (some b)) new).1 (right_size_accepted b (cc (e, l))),
)
