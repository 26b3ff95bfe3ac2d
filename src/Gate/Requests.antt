-- ===== src/Gate/Requests.antt =====
-- Check, waitForApproval, finishPendingLocked, runPending and Close of internal/gate/telegram.go,
-- one function for each stretch that runs under the mutex.
use azath.Prelude.{
  ltb, leb, ◌==◌, if◌then◌else◌, is_some, Text, lookup, insert, remove, keep, Assoc, size, ℕ, ◌+◌,
  ◌-◌, Bool, true, false, not, ◌&&◌, ◌||◌, Option, none, some, [], ◌∷◌,
}
use azath.Gate.{
  Device, Decision, max_pending_requests, max_waiters_per_device, max_concurrent_sends,
  max_tracked_devices, TelegramGate, update, denied, approved,
}

finish_found : Option ℕ → TelegramGate → ℕ → Decision → TelegramGate
finish_found none g ref decision = g
finish_found (some current) g ref decision =
    let p = g.heap ref in
    if not (current == ref) then g else record g {
      pending_requests = remove p.device.uuid g.pending_requests;
      heap = update g.heap ref (record p { decision = decision; cancelled = true; done = true });
    }

-- finishPendingLocked
unfoldable pub finish_pending : TelegramGate → ℕ → Decision → TelegramGate
unfolding finish_found
finish_pending g ref decision =
    finish_found (lookup (g.heap ref).device.uuid g.pending_requests) g ref decision

-- What the first stretch of waitForApproval does: it returns a decision, or waits on a request.
pub data Entry : Type 0 where
  returns : Decision → Entry
  waits : ℕ → Entry

-- The two sweeps of expired entries.
unfoldable pub sweep : ℕ → TelegramGate → TelegramGate
sweep now g = record g {
  approved_cache = keep (λ expires_at. ltb now expires_at) g.approved_cache;
  last_prompt = keep (λ sent. ltb now sent || ltb (now - sent) g.prompt_interval) g.last_prompt;
}

-- The tests before a new prompt.
unfoldable pub is_limited : Text → TelegramGate → Bool
is_limited uuid g =
    is_some (lookup uuid g.last_prompt)
    || (leb max_pending_requests (size g.pending_requests)
        || (leb max_tracked_devices (size g.last_prompt)
            || (leb max_tracked_devices (size g.approved_cache)
                || leb max_concurrent_sends g.sends)))

-- A new pending request, and the token that its goroutine takes.
unfoldable pub create : Device → ℕ → TelegramGate → TelegramGate
create device now g = record g {
  sends = g.sends + 1;
  heap = update g.heap g.next_ref (record {
    device = device;
    created_at = now;
    done = false;
    decision = denied;
    waiters = 0;
    cancelled = false;
  });
  next_ref = g.next_ref + 1;
  pending_requests = insert device.uuid g.next_ref g.pending_requests;
  last_prompt = insert device.uuid now g.last_prompt;
}

-- `pending.waiters++`, unless there are too many.
unfoldable pub join : ℕ → TelegramGate → Entry × TelegramGate
join ref g =
    let p = g.heap ref in
    if leb max_waiters_per_device p.waiters
    then (returns denied, g)
    else (waits ref, record g { heap = update g.heap ref (record p { waiters = p.waiters + 1 }) })

unfoldable pub enter_pending : Option ℕ → Device → ℕ → TelegramGate → Entry × TelegramGate
enter_pending (some ref) device now g = join ref g
enter_pending none device now g =
    if is_limited device.uuid g then (returns denied, g) else join g.next_ref (create device now g)

unfoldable pub enter_swept : Bool → Device → ℕ → TelegramGate → Entry × TelegramGate
unfolding enter_pending
enter_swept ctx_err device now g =
    if is_some (lookup device.uuid g.approved_cache) && not ctx_err
    then (returns approved, g)
    else enter_pending (lookup device.uuid g.pending_requests) device now g

-- waitForApproval up to the select.
unfoldable pub enter : Bool → Device → ℕ → TelegramGate → Entry × TelegramGate
unfolding enter_swept
enter ctx_err device now g =
    if g.closed then (returns denied, g) else enter_swept ctx_err device now (sweep now g)

-- What waitForApproval returns after the select: a decision, or the error of the context.
pub data Outcome : Type 0 where
  decided : Decision → Outcome
  cancelled_error : Outcome

-- `pending.waiters--`, and what the last waiter does.
unfoldable pub leave : Bool → ℕ → TelegramGate → TelegramGate
leave ctx_err ref g =
    let p = g.heap ref in
    let g1 = record g { heap = update g.heap ref (record p { waiters = p.waiters - 1 }) } in
    if not (p.waiters - 1 == 0)
    then g1
    else let g2 = finish_pending g1 ref denied in
      if ctx_err then record g2 { last_prompt = remove p.device.uuid g2.last_prompt } else g2

-- waitForApproval after the select.
unfoldable pub wake : Bool → ℕ → TelegramGate → Outcome × TelegramGate
wake ctx_err ref g =
    let g' = leave ctx_err ref g in
    (
      if ctx_err
          then cancelled_error
          else if g'.closed
          then decided denied
          else decided (g'.heap ref).decision,
      g',
    )

-- runPending: `<-g.sends` after the message has been sent or has failed.
unfoldable pub release_send : TelegramGate → TelegramGate
release_send g = record g { sends = g.sends - 1 }

-- runPending: the end, after a failed send or when the request's context is done.
unfoldable pub expire : ℕ → TelegramGate → TelegramGate
expire ref g = finish_pending g ref denied

-- `for _, pending := range g.pendingRequests { g.finishPendingLocked(pending, Denied) }`
unfoldable pub finish_all : Assoc ℕ → TelegramGate → TelegramGate
finish_all [] g = g
finish_all ((uuid, ref) ∷ rest) g = finish_all rest (finish_pending g ref denied)

-- Close, its first stretch.
unfoldable pub close_begin : TelegramGate → TelegramGate
close_begin g = if g.closed then g else finish_all g.pending_requests (record g { closed = true })

-- Close, its last stretch, after all goroutines have ended.
unfoldable pub close_end : TelegramGate → TelegramGate
close_end g = record g {
  pending_requests = [];
  approved_cache = [];
  last_prompt = [];
  cleared = true;
}
