-- ===== src/Tests/Gate.antt =====
-- The properties of the gate at concrete runs: a device asks, and the operator approves.
use azath.Prelude.{
  text_eq, lookup, insert, remove, keep, ℕ, ◌<◌, ◌≡◌, refl, inr, true, false, some, [], ◌∷◌, arith,
}
use azath.Prelude.Int.{pos}
use azath.Gate.{TelegramGate, new, update, approved}
use azath.Gate.Requests.{
  sweep, is_limited, join, create, finish_pending, leave, enter, returns, decided, wake,
  close_begin,
}
use azath.Gate.Callbacks.{CallbackData, Readings, is_stale, process_callback, approve}
use azath.Gate.Steps.{
  Event, apply, Enabled, Run, enters, wakes, calls_back, close_begins, start, next,
}
use azath.Gate.Bounds.{IsBounded, Run-IsBounded}
use azath.Gate.Pointers.{Tracks, Run-Tracks, decision_final}
use azath.Gate.Pointers.Releases.{close_releases, callback_decides}
use azath.Gate.Approvals.{Occurs, ApprovesPrompt, ApprovesUntil, wake_approved, enter_approved}
use azath.Tests.Fixtures.{device, nas_uuid, gate_config}

abbrev first : TelegramGate
first = new gate_config 60

abbrev ask : Event
ask = enters false device 100

abbrev waiting : TelegramGate
waiting = apply ask first

abbrev answer : CallbackData
answer = record { device_uuid = nas_uuid; action = approve; timestamp = pos 100; token = [] }

abbrev clock : Readings
clock = record { after_at = 110; since_at = 111; cache_at = 112 }

abbrev allow : Event
allow = calls_back answer clock

abbrev allowed : TelegramGate
allowed = apply allow waiting

waiting-Run : Run first (ask ∷ []) waiting
waiting-Run = next ask start tt

allowed-Run : Run first (allow ∷ ask ∷ []) allowed
allowed-Run = next allow waiting-Run tt

Run-IsBounded_example : IsBounded allowed
Run-IsBounded_example = Run-IsBounded gate_config 60 allowed-Run

Run-Tracks_example : Tracks allowed
Run-Tracks_example = Run-Tracks gate_config 60 allowed-Run

-- The waiter can wake, and is told Approved.
wake-Enabled : Enabled (wakes false 0) allowed
unfolding apply process_callback is_stale enter new lookup sweep keep is_limited join create update
    insert text_eq finish_pending
wake-Enabled = (omega arith, inr refl)

woken : (wake false 0 allowed).0 ≡ decided approved
unfolding apply process_callback is_stale enter new lookup sweep keep is_limited join create update
    insert text_eq finish_pending wake leave remove
woken = refl

wake_approved_example :
    (false ≡ false)
    × (allowed.closed ≡ false)
    × Occurs
        (ApprovesPrompt gate_config (allowed.heap 0).device.uuid (allowed.heap 0).created_at)
        (allow ∷ ask ∷ [])
wake_approved_example =
    wake_approved gate_config 60 (allow ∷ ask ∷ []) allowed false 0 allowed-Run wake-Enabled woken

-- A second question within the cache's time is answered at once.
cached_answer : (enter false device 300 allowed).0 ≡ returns approved
unfolding apply process_callback is_stale enter new lookup sweep keep is_limited join create update
    insert text_eq finish_pending
cached_answer = refl

enter_approved_example :
    (false ≡ false)
    × (allowed.closed ≡ false)
    × (until : ℕ) × (300 < until)
    × Occurs (ApprovesUntil gate_config nas_uuid until) (allow ∷ ask ∷ [])
enter_approved_example =
    enter_approved gate_config 60 (allow ∷ ask ∷ []) allowed false device 300 allowed-Run
      cached_answer

waiting_open :
    (waiting.closed ≡ false)
    × (waiting.cleared ≡ false)
    × (0 < waiting.next_ref)
    × (is_stale (pos 100) 110 111 waiting.cfg.approval_ttl ≡ false)
    × (lookup nas_uuid waiting.pending_requests ≡ some 0)
    × (pos 100 ≡ pos (waiting.heap 0).created_at)
unfolding apply enter new lookup sweep keep is_limited join create update is_stale insert text_eq
waiting_open = (refl, refl, omega arith, refl, refl, refl)

allowed_done : (0 < allowed.next_ref) × ((allowed.heap 0).done ≡ true) × (allowed.closed ≡ false)
unfolding apply process_callback is_stale enter new lookup sweep keep is_limited join create update
    insert text_eq finish_pending
allowed_done = (omega arith, refl, refl)

callback_decides_example :
    (((process_callback answer clock waiting).heap 0).done ≡ true)
    × ((wake false 0 (process_callback answer clock waiting)).0 ≡ decided approved)
callback_decides_example =
    callback_decides waiting 0 answer clock [] (process_callback answer clock waiting)
      (Run-Tracks gate_config 60 waiting-Run) waiting_open.0 refl waiting_open.3 waiting_open.4
      waiting_open.5 start (unfold apply in allowed_done.2)

decision_final_example :
    (((apply close_begins allowed).heap 0).done ≡ true)
    × (((apply close_begins allowed).heap 0).decision ≡ (allowed.heap 0).decision)
decision_final_example =
    decision_final allowed (apply close_begins allowed) (close_begins ∷ []) 0
      (Run-Tracks gate_config 60 allowed-Run) allowed_done.0 allowed_done.1
      (next close_begins start tt)

close_releases_example : ((close_begin waiting).heap 0).done ≡ true
close_releases_example =
    close_releases waiting 0 (Run-Tracks gate_config 60 waiting-Run) waiting_open.0 waiting_open.1
      waiting_open.2
