-- ===== src/Gate/Steps.antt =====
-- The Telegram gate of internal/gate/telegram.go as a machine: each event is one stretch under the
-- mutex, run by a caller of Check, a goroutine of a pending request, the poll loop or Close. A run
-- is any interleaving of such stretches.
pub mod Induction
use azath.Prelude.{
  Text, lookup, insert, remove, size, ℕ, ◌+◌, ◌-◌, ◌<◌, ◌≡◌, ◌⊎◌, Bool, true, false, none, some,
  List, [], ◌∷◌, arith,
}
use azath.Gate.{
  Device, Decision, max_waiters_per_device, max_tracked_devices, TelegramGate, update, approved,
}
use azath.Gate.Requests.{
  finish_pending, sweep, is_limited, create, enter, wake, release_send, expire, close_begin,
  close_end,
}
use azath.Gate.Callbacks.{CallbackData, Readings, is_stale, matches, process_callback, approve}

pub data Event : Type 0 where
  enters : Bool → Device → ℕ → Event
  wakes : Bool → ℕ → Event
  sent : Event
  expires : ℕ → Event
  calls_back : CallbackData → Readings → Event
  close_begins close_ends : Event

unfoldable pub apply : Event → TelegramGate → TelegramGate
apply (enters ctx_err device now) g = (enter ctx_err device now g).1
apply (wakes ctx_err ref) g = (wake ctx_err ref g).1
apply sent g = release_send g
apply (expires ref) g = expire ref g
apply (calls_back d now) g = process_callback d now g
apply close_begins g = close_begin g
apply close_ends g = close_end g

-- When a stretch can run: a waiter is woken by its context or by the request's channel, a token is
-- given back by one who holds it, and Close ends after it has begun.
abbrev pub Enabled : Event → TelegramGate → Type 0
Enabled (enters ctx_err device now) g = Unit
Enabled (wakes ctx_err ref) g =
    (0 < (g.heap ref).waiters) × ((ctx_err ≡ true) ⊎ ((g.heap ref).done ≡ true))
Enabled sent g = 0 < g.sends
Enabled (expires ref) g = Unit
Enabled (calls_back d now) g = Unit
Enabled close_begins g = Unit
Enabled close_ends g = g.closed ≡ true

-- The runs from a gate, with their events, the last one first.
pub data Run (g : TelegramGate) : List Event → TelegramGate → Type 0 where
  start : Run g [] g
  next :
      {es : List Event} {h : TelegramGate} (e : Event)
      → Run g es h
      → Enabled e h
      → Run g (e ∷ es) (apply e h)

-- What the stretches are made of.
abbrev pub finished : TelegramGate → ℕ → Decision → TelegramGate
finished g ref d = record g {
  pending_requests = remove (g.heap ref).device.uuid g.pending_requests;
  heap = update g.heap ref (record (g.heap ref) { decision = d; cancelled = true; done = true });
}

abbrev pub with_waiters : TelegramGate → ℕ → ℕ → TelegramGate
with_waiters g ref n = record g { heap = update g.heap ref (record (g.heap ref) { waiters = n }) }

abbrev pub cached : TelegramGate → CallbackData → Readings → TelegramGate
cached g d now = record g {
  approved_cache = insert d.device_uuid (now.cache_at + g.cfg.approval_cache_ttl) g.approved_cache;
}

-- An approval that the gate takes: an approve callback that is not stale, for this device.
pub record Approves (e : Event) (uuid : Text) (ttl : ℕ) (d : CallbackData) (now : Readings)
    : Type 0 where
  pub is_event : e ≡ calls_back d now
  pub is_approve : d.action ≡ approve
  pub for_device : d.device_uuid ≡ uuid
  pub is_fresh : is_stale d.timestamp now.after_at now.since_at ttl ≡ false

-- What a predicate has to survive to hold after the event.
pub record Rules {ℓ} (P : TelegramGate → Type ℓ) (e : Event) : Type ℓ where
  pub on_sweep : (g : TelegramGate) (now : ℕ) → P g → P (sweep now g)
  pub on_join :
      (g : TelegramGate) (ref : ℕ)
      → (g.heap ref).waiters < max_waiters_per_device
      → P g
      → P (with_waiters g ref ((g.heap ref).waiters + 1))
  pub on_create :
      (g : TelegramGate) (device : Device) (now : ℕ)
      → g.closed ≡ false
      → lookup device.uuid g.pending_requests ≡ none
      → is_limited device.uuid g ≡ false
      → P g
      → P (create device now g)
  pub on_lower :
      (g : TelegramGate) (ref : ℕ) → P g → P (with_waiters g ref ((g.heap ref).waiters - 1))
  pub on_forget :
      (g : TelegramGate) (uuid : Text)
      → P g
      → P (record g { last_prompt = remove uuid g.last_prompt })
  pub on_release : (g : TelegramGate) → P g → P (release_send g)
  pub on_finish :
      (g : TelegramGate) (ref : ℕ) (d : Decision)
      → lookup (g.heap ref).device.uuid g.pending_requests ≡ some ref
      → (d ≡ approved
          → (c : CallbackData) × (now : Readings) × Approves e c.device_uuid g.cfg.approval_ttl c
              now
            × (lookup c.device_uuid g.pending_requests ≡ some ref)
            × (matches (g.heap ref).created_at c.timestamp ≡ true))
      → P g
      → P (finished g ref d)
  pub on_cache :
      (g : TelegramGate) (c : CallbackData) (now : Readings)
      → Approves e c.device_uuid g.cfg.approval_ttl c now
      → size g.approved_cache < max_tracked_devices
      → P g
      → P (cached g c now)
  pub on_close : (g : TelegramGate) → P g → P (record g { closed = true })
  pub on_clear : (g : TelegramGate) → g.closed ≡ true → P g → P (close_end g)

pub cfg-finish_pending :
    (g : TelegramGate) (ref : ℕ) (d : Decision) → (finish_pending g ref d).cfg ≡ g.cfg
unfolding finish_pending
cfg-finish_pending g ref d = ground arith
