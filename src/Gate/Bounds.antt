-- ===== src/Gate/Bounds.antt =====
-- The limits that the Telegram gate of internal/gate/telegram.go keeps.
use azath.Prelude.{
  ltb, length-insert-le, length-remove-le, length-keep-le, size, ℕ, ◌+◌, ◌-◌, ◌≤◌, ◌≡◌, false, ◌||◌,
  List, arith,
}
use azath.Gate.{
  Device, max_pending_requests, max_waiters_per_device, max_concurrent_sends, max_tracked_devices,
  TelegramGateConfig, PendingRequest, TelegramGate, new, update,
}
use azath.Gate.Requests.{sweep, is_limited, create, release_send, close_end}
use azath.Gate.Steps.{Event, Run, Rules}
use azath.Gate.Steps.Induction.{Run_rule}

-- At most 64 pending requests, 1024 remembered prompts, 1024 cached approvals, 8 messages being
-- sent and 32 waiters on one request.
pub record IsBounded (g : TelegramGate) : Type 0 where
  pub pending : size g.pending_requests ≤ max_pending_requests
  pub prompts : size g.last_prompt ≤ max_tracked_devices
  pub approvals : size g.approved_cache ≤ max_tracked_devices
  pub sending : g.sends ≤ max_concurrent_sends
  pub waiting : (ref : ℕ) → (g.heap ref).waiters ≤ max_waiters_per_device

new-IsBounded : (cfg : TelegramGateConfig) (interval : ℕ) → IsBounded (new cfg interval)
unfolding new
new-IsBounded cfg interval = record {
  pending = omega arith;
  prompts = omega arith;
  approvals = omega arith;
  sending = omega arith;
  waiting = λ ref. omega arith;
}

update_waiters :
    (h : ℕ → PendingRequest) (r : ℕ) (p : PendingRequest) (n : ℕ)
    → p.waiters ≤ n
    → ((ref : ℕ) → (h ref).waiters ≤ n)
    → (ref : ℕ) → (update h r p ref).waiters ≤ n
unfolding update
update_waiters h r p n new old ref = ground (arith, old ref)

create-IsBounded :
    (g : TelegramGate) (device : Device) (now : ℕ)
    → is_limited device.uuid g ≡ false
    → IsBounded g
    → IsBounded (create device now g)
unfolding create is_limited
create-IsBounded g device now room v = record {
  pending = ground (arith, length-insert-le device.uuid g.next_ref g.pending_requests);
  prompts = ground (arith, length-insert-le device.uuid now g.last_prompt);
  approvals = v.approvals;
  sending = ground arith;
  waiting = update_waiters g.heap g.next_ref _ _ (omega arith) v.waiting;
}

IsBounded-Rules : (e : Event) → Rules IsBounded e
IsBounded-Rules e = record {
  on_sweep = λ g now v.
      unfold sweep in
      record {
        pending = v.pending;
        prompts = omega (
          arith,
          v.prompts,
          length-keep-le (λ sent. ltb now sent || ltb (now - sent) g.prompt_interval) g.last_prompt,
        );
        approvals = omega (
          arith,
          v.approvals,
          length-keep-le (λ expires_at. ltb now expires_at) g.approved_cache,
        );
        sending = v.sending;
        waiting = v.waiting;
      };
  on_join = λ g ref room v. record {
    pending = v.pending;
    prompts = v.prompts;
    approvals = v.approvals;
    sending = v.sending;
    waiting = update_waiters g.heap ref _ _ (omega arith) v.waiting;
  };
  on_create = λ g device now o l room v. create-IsBounded g device now room v;
  on_lower = λ g ref v. record {
    pending = v.pending;
    prompts = v.prompts;
    approvals = v.approvals;
    sending = v.sending;
    waiting = update_waiters g.heap ref _ _ (omega (arith, v.waiting ref)) v.waiting;
  };
  on_forget = λ g uuid v. record {
    pending = v.pending;
    prompts = omega (arith, v.prompts, length-remove-le uuid g.last_prompt);
    approvals = v.approvals;
    sending = v.sending;
    waiting = v.waiting;
  };
  on_release = λ g v.
      unfold release_send in
      record {
        pending = v.pending;
        prompts = v.prompts;
        approvals = v.approvals;
        sending = omega (arith, v.sending);
        waiting = v.waiting;
      };
  on_finish = λ g ref d f why v. record {
    pending =
        omega (arith, v.pending, length-remove-le (g.heap ref).device.uuid g.pending_requests);
    prompts = v.prompts;
    approvals = v.approvals;
    sending = v.sending;
    waiting = update_waiters g.heap ref _ _ (v.waiting ref) v.waiting;
  };
  on_cache = λ g c now a room v. record {
    pending = v.pending;
    prompts = v.prompts;
    approvals = omega (
      arith,
      room,
      length-insert-le c.device_uuid (now.cache_at + g.cfg.approval_cache_ttl) g.approved_cache,
    );
    sending = v.sending;
    waiting = v.waiting;
  };
  on_close = λ g v. record {
    pending = v.pending;
    prompts = v.prompts;
    approvals = v.approvals;
    sending = v.sending;
    waiting = v.waiting;
  };
  on_clear = λ g c v.
      unfold close_end in
      record {
        pending = omega arith;
        prompts = omega arith;
        approvals = omega arith;
        sending = v.sending;
        waiting = v.waiting;
      };
}

-- Whatever callers, goroutines, callbacks and Close do, and in whatever order, the gate stays
-- within its limits.
pub Run-IsBounded :
    (cfg : TelegramGateConfig) (interval : ℕ) {es : List Event} {g : TelegramGate}
    → Run (new cfg interval) es g
    → IsBounded g
Run-IsBounded cfg interval r = Run_rule IsBounded-Rules (new-IsBounded cfg interval) r
