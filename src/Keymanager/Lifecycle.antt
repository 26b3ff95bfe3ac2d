-- ===== src/Keymanager/Lifecycle.antt =====
-- The life cycle of the manager of internal/keymanager/manager.go over histories of critical
-- sections. A Load carries the state that its fast path read, which may be out of date, so a
-- history stands for every interleaving of concurrent calls.
use azath.Prelude.{
  ok, err, if◌then◌else◌, Option-cases, length, All, Bytes, zero_bytes-zero, ℕ, ◌+◌, ◌≤◌, ◌≡◌, refl,
  sym, ap, subst, ◌∙◌, ◌≢◌, ◌⊎◌, inl, inr, Bool, true, false, Option, none, some, List, [], ◌∷◌,
  arith,
}
use azath.Keymanager.{
  is_loaded, no_key, sealer, key_destroyed, commit, check_source, key_copy, check_state, Manager,
  ManagerState, unloaded, loaded, destroyed, SourceResult, load, destroy, new,
}
use azath.Crypto.Primitives.{Primitives}
use azath.Keymanager.Load.{copy_bytes-eq, load-Accepts, load_effect, load_error}

pub data Action : Type 0 where
  loads : ManagerState → SourceResult → Action
  destroys : Action

unfoldable pub act : Action → Manager → Manager
act (loads seen r) m = (load seen r m).manager
act destroys m = destroy m

unfoldable pub run : Manager → List Action → Manager
run m [] = m
run m (a ∷ rest) = run (act a m) rest

-- The fields agree with the state, and the gauge with both.
abbrev pub StateFits : ManagerState → Manager → Type 0
StateFits unloaded m = (m.key_nil ≡ true) × (m.key ≡ []) × (m.master_key_loaded ≡ 0)
StateFits loaded m = (m.key_nil ≡ false) × (length m.key ≡ 32) × (m.master_key_loaded ≡ 1)
StateFits destroyed m = (m.key_nil ≡ true) × All (λ b. b ≡ 0) m.key × (m.master_key_loaded ≡ 0)

pub record Inv (m : Manager) : Type 0 where
  pub fits : StateFits m.state m

pub new-Inv : Inv new
unfolding new
new-Inv = record { fits = (refl, refl, refl) }

destroy_again : (m : Manager) → m.state ≡ destroyed → destroy m ≡ m
unfolding destroy
destroy_again m h = ground arith

destroy-Inv : (m : Manager) (s : ManagerState) → m.state ≡ s → Inv m → Inv (destroy m)
unfolding destroy
destroy-Inv m unloaded e v = rw e (record { fits = (refl, zero_bytes-zero m.key, refl) })
destroy-Inv m loaded e v = rw e (record { fits = (refl, zero_bytes-zero m.key, refl) })
destroy-Inv m destroyed e v = subst Inv (sym (destroy_again m e)) v

load-Inv :
    (seen : ManagerState) (r : SourceResult) (m : Manager) → Inv m → Inv (load seen r m).manager
load-Inv seen r m v = elim (Option-cases (load seen r m).error) [
  | inr (e, failed) ↦ rw (load_error seen r m e failed) v
  | inl done ↦
      let (k, n, l, g) = load_effect seen r m done in
      record { fits = rw l (n, ap length k ∙ ((load-Accepts seen r m).0 done).right_size, g) }
]

act-Inv : (a : Action) (m : Manager) → Inv m → Inv (act a m)
unfolding act
act-Inv (loads seen r) m v = load-Inv seen r m v
act-Inv destroys m v = destroy-Inv m m.state refl v

-- Every history of Load and Destroy calls, in any interleaving, keeps the invariant: the key field
-- and the gauge fit the state, with 32 bytes and 1 when loaded, and nothing but zeros and 0 when
-- destroyed.
pub run-Inv : (m : Manager) (acts : List Action) → Inv m → Inv (run m acts)
unfolding run
run-Inv m [] v = v
run-Inv m (a ∷ rest) v = run-Inv (act a m) rest (act-Inv a m v)

-- Whether a history's first action, a Load, succeeds.
abbrev succeeds : Action → Manager → Bool
succeeds (loads seen r) m = elim (load seen r m).error [ none ↦ true | some e ↦ false ]
succeeds destroys m = false

-- How many calls of Load return no error.
unfoldable pub loads_done : Manager → List Action → ℕ
loads_done m [] = 0
loads_done m (a ∷ rest) = (if succeeds a m then 1 else 0) + loads_done (act a m) rest

-- What the life cycle still allows.
abbrev budget : ManagerState → ℕ
budget unloaded = 1
budget _ = 0

act-budget :
    (a : Action) (m : Manager)
    → (if succeeds a m then 1 else 0) + budget (act a m).state ≤ budget m.state
unfolding act load check_state check_source commit destroy
act-budget (loads seen r) m = ground arith
act-budget destroys m = ground arith

loads_done_le : (m : Manager) (acts : List Action) → loads_done m acts ≤ budget m.state
unfolding loads_done
loads_done_le m [] = omega arith
loads_done_le m (a ∷ rest) = omega (arith, act-budget a m, loads_done_le (act a m) rest)

-- A manager is loaded at most once in its life, however Load and Destroy calls interleave.
pub loads_once : (acts : List Action) → loads_done new acts ≤ 1
unfolding new
loads_once acts = loads_done_le new acts

act_destroyed : (a : Action) (m : Manager) → m.state ≡ destroyed → act a m ≡ m
unfolding act load check_state check_source commit destroy
act_destroyed (loads seen r) m h = ground arith
act_destroyed destroys m h = ground arith

run_destroyed : (m : Manager) (acts : List Action) → m.state ≡ destroyed → run m acts ≡ m
unfolding run
run_destroyed m [] h = refl
run_destroyed m (a ∷ rest) h = rw (act_destroyed a m h) (run_destroyed m rest h)

state-destroy : (m : Manager) → (destroy m).state ≡ destroyed
unfolding destroy
state-destroy m = ground arith

-- What a destroyed manager answers.
pub record IsTerminal (c : Primitives) (t : Manager) : Type 0 where
  pub key_zeroed : All (λ b. b ≡ 0) t.key
  pub no_copy : key_copy t ≡ err key_destroyed
  pub no_sealer : (seed : Option Bytes) → sealer c t seed ≡ err (no_key key_destroyed)
  pub not_loaded : is_loaded t ≡ false
  pub gauge : t.master_key_loaded ≡ 0
  pub no_load : (seen : ManagerState) (r : SourceResult) → (load seen r t).error ≢ none

destroyed-IsTerminal : (c : Primitives) (m : Manager) → m.state ≡ destroyed → Inv m → IsTerminal c m
destroyed-IsTerminal c m e v =
    let (n, z, g) = subst (λ s. StateFits s m) e v.fits in
    record {
      key_zeroed = z;
      no_copy = unfold key_copy in ground arith;
      no_sealer = λ seed. unfold sealer key_copy in ground arith;
      not_loaded = unfold is_loaded in ground arith;
      gauge = g;
      no_load = λ seen r done. cc (e, ((load-Accepts seen r m).0 done).still_unloaded);
    }

-- Destroyed is terminal: from a manager that keeps the invariant, after Destroy and any further
-- calls the key's buffer is zeros, no key copy and no sealer is handed out, Loaded is false, the
-- gauge is 0 and every Load fails.
pub destroy-IsTerminal :
    (c : Primitives) (m : Manager) (acts : List Action)
    → Inv m
    → IsTerminal c (run (destroy m) acts)
destroy-IsTerminal c m acts v =
    subst (IsTerminal c) (sym (run_destroyed (destroy m) acts (state-destroy m)))
      (destroyed-IsTerminal c (destroy m) (state-destroy m) (destroy-Inv m m.state refl v))

-- The key of a loaded manager, or nothing once it is destroyed.
abbrev Holds : Bytes → Manager → Type 0
Holds raw m = ((m.state ≡ loaded) × (m.key ≡ raw) × (m.key_nil ≡ false)) ⊎ (m.state ≡ destroyed)

act-Holds : (raw : Bytes) (a : Action) (m : Manager) → Holds raw m → Holds raw (act a m)
unfolding act load check_state check_source commit destroy
act-Holds raw (loads seen r) m h = ground arith
act-Holds raw destroys m h = inr (ground arith)

run-Holds : (raw : Bytes) (m : Manager) (acts : List Action) → Holds raw m → Holds raw (run m acts)
unfolding run
run-Holds raw m [] h = h
run-Holds raw m (a ∷ rest) h = run-Holds raw (act a m) rest (act-Holds raw a m h)

Holds-key_copy :
    (raw : Bytes) (m : Manager)
    → length raw ≡ 32
    → Holds raw m
    → (key_copy m ≡ ok raw) ⊎ (key_copy m ≡ err key_destroyed)
unfolding key_copy
Holds-key_copy raw m l h = ground (arith, copy_bytes-eq raw)

-- Once a Load has succeeded, every later copy of the key is the source's bytes, until the manager
-- is destroyed: no concurrent Load replaces the key.
pub key_stable :
    (seen : ManagerState) (r : SourceResult) (m : Manager) (acts : List Action)
    → (load seen r m).error ≡ none
    → let t = run (load seen r m).manager acts in
      (key_copy t ≡ ok r.raw) ⊎ (key_copy t ≡ err key_destroyed)
key_stable seen r m acts done =
    let (k, n, l, g) = load_effect seen r m done in
    Holds-key_copy r.raw _ ((load-Accepts seen r m).0 done).right_size
      (run-Holds r.raw (load seen r m).manager acts (inl (l, k, n)))
