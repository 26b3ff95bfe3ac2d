-- ===== src/Gate/Pointers.antt =====
-- The map of pending requests and the objects that it points to, in internal/gate/telegram.go.
pub mod Releases
use azath.Prelude.{
  text_eq_iff, text_eq_refl, Text, lookup, lookup-insert, lookup-remove, ℕ, ◌<◌, ◌≡◌, refl, true,
  false, none, some, List, arith,
}
use azath.Gate.{Device, Decision, TelegramGateConfig, PendingRequest, TelegramGate, new, update}
use azath.Gate.Requests.{sweep, create, release_send, close_end}
use azath.Gate.Steps.{Event, Run, finished, with_waiters, Rules}
use azath.Gate.Steps.Induction.{Run_rule}

-- The map points to allocated requests whose channel is open, each under its own device; and until
-- Close has cleared the map every open request is in it.
pub record Tracks (g : TelegramGate) : Type 0 where
  pub mapped :
      (uuid : Text) (ref : ℕ)
      → lookup uuid g.pending_requests ≡ some ref
      → (ref < g.next_ref) × ((g.heap ref).device.uuid ≡ uuid) × ((g.heap ref).done ≡ false)
  pub found :
      (ref : ℕ)
      → g.cleared ≡ false
      → ref < g.next_ref
      → (g.heap ref).done ≡ false
      → lookup (g.heap ref).device.uuid g.pending_requests ≡ some ref

new-Tracks : (cfg : TelegramGateConfig) (interval : ℕ) → Tracks (new cfg interval)
unfolding new lookup
new-Tracks cfg interval = record {
  mapped = λ uuid ref h. absurd (cc h);
  found = λ ref c h d. absurd (omega arith);
}

pub with_waiters-Tracks : (g : TelegramGate) (ref n : ℕ) → Tracks g → Tracks (with_waiters g ref n)
unfolding update
with_waiters-Tracks g ref n v = record {
  mapped = λ uuid q h. ground (arith, v.mapped uuid q h);
  found = λ q c h d. ground (arith, v.found q);
}

create-Tracks :
    (g : TelegramGate) (device : Device) (now : ℕ)
    → lookup device.uuid g.pending_requests ≡ none
    → Tracks g
    → Tracks (create device now g)
unfolding create update
create-Tracks g device now l v = record {
  mapped = λ uuid q h. ground (
    arith,
    lookup-insert device.uuid uuid g.next_ref g.pending_requests,
    text_eq_iff device.uuid uuid,
    v.mapped uuid q,
  );
  found = λ q c h d. ground (
    arith,
    lookup-insert device.uuid device.uuid g.next_ref g.pending_requests,
    lookup-insert device.uuid (g.heap q).device.uuid g.next_ref g.pending_requests,
    text_eq_iff device.uuid (g.heap q).device.uuid,
    text_eq_refl device.uuid,
    v.found q c,
  );
}

pub finished-Tracks :
    (g : TelegramGate) (ref : ℕ) (d : Decision)
    → lookup (g.heap ref).device.uuid g.pending_requests ≡ some ref
    → Tracks g
    → Tracks (finished g ref d)
unfolding update
finished-Tracks g ref d l v = record {
  mapped = λ uuid q h. ground (
    arith,
    lookup-remove (g.heap ref).device.uuid uuid g.pending_requests,
    text_eq_iff (g.heap ref).device.uuid uuid,
    v.mapped uuid q,
  );
  found = λ q c h x. ground (
    arith,
    lookup-remove (g.heap ref).device.uuid (g.heap q).device.uuid g.pending_requests,
    text_eq_iff (g.heap ref).device.uuid (g.heap q).device.uuid,
    v.found q c,
  );
}

pub Tracks-Rules : (e : Event) → Rules Tracks e
unfolding sweep release_send close_end lookup
Tracks-Rules e = record {
  on_sweep = λ g now v. record { mapped = v.mapped; found = v.found };
  on_join = λ g ref room v. with_waiters-Tracks g ref _ v;
  on_create = λ g device now o l room v. create-Tracks g device now l v;
  on_lower = λ g ref v. with_waiters-Tracks g ref _ v;
  on_forget = λ g uuid v. record { mapped = v.mapped; found = v.found };
  on_release = λ g v. record { mapped = v.mapped; found = v.found };
  on_finish = λ g ref d f why v. finished-Tracks g ref d f v;
  on_cache = λ g c now a room v. record { mapped = v.mapped; found = v.found };
  on_close = λ g v. record { mapped = v.mapped; found = v.found };
  on_clear =
      λ g c v. record { mapped = λ uuid ref h. absurd (cc h); found = λ ref c. absurd (cc c) };
}

-- Along every run the map holds exactly the open requests, each under its own device, until Close
-- has cleared it.
pub Run-Tracks :
    (cfg : TelegramGateConfig) (interval : ℕ) {es : List Event} {g : TelegramGate}
    → Run (new cfg interval) es g
    → Tracks g
Run-Tracks cfg interval r = Run_rule Tracks-Rules (new-Tracks cfg interval) r

-- A request that has been decided.
pub record Settled (ref : ℕ) (p : PendingRequest) (g : TelegramGate) : Type 0 where
  pub tracks : Tracks g
  pub allocated : ref < g.next_ref
  pub is_done : (g.heap ref).done ≡ true
  pub same_decision : (g.heap ref).decision ≡ p.decision
  pub same_device : (g.heap ref).device ≡ p.device

with_waiters-Settled :
    (ref : ℕ) (p : PendingRequest) (g : TelegramGate) (r n : ℕ)
    → Settled ref p g
    → Settled ref p (with_waiters g r n)
unfolding update
with_waiters-Settled ref p g r n v = record {
  tracks = with_waiters-Tracks g r n v.tracks;
  allocated = v.allocated;
  is_done = ground (arith, v.is_done);
  same_decision = ground (arith, v.same_decision);
  same_device = ground (arith, v.same_device);
}

create-Settled :
    (ref : ℕ) (p : PendingRequest) (g : TelegramGate) (device : Device) (now : ℕ)
    → lookup device.uuid g.pending_requests ≡ none
    → Settled ref p g
    → Settled ref p (create device now g)
create-Settled ref p g device now l v = record {
  tracks = create-Tracks g device now l v.tracks;
  allocated = unfold create in omega (arith, v.allocated);
  is_done = unfold create update in ground (arith, v.is_done, v.allocated);
  same_decision = unfold create update in ground (arith, v.same_decision, v.allocated);
  same_device = unfold create update in ground (arith, v.same_device, v.allocated);
}

finished-Settled :
    (ref : ℕ) (p : PendingRequest) (g : TelegramGate) (r : ℕ) (d : Decision)
    → lookup (g.heap r).device.uuid g.pending_requests ≡ some r
    → Settled ref p g
    → Settled ref p (finished g r d)
finished-Settled ref p g r d l v =
    let (a, b, open_r) = v.tracks.mapped _ r l in
    record {
      tracks = finished-Tracks g r d l v.tracks;
      allocated = v.allocated;
      is_done = unfold update in ground (arith, v.is_done);
      same_decision = unfold update in ground (arith, v.same_decision, v.is_done, open_r);
      same_device = unfold update in ground (arith, v.same_device, v.is_done, open_r);
    }

pub Settled-Rules : (ref : ℕ) (p : PendingRequest) (e : Event) → Rules (Settled ref p) e
unfolding sweep release_send close_end
Settled-Rules ref p e = record {
  on_sweep = λ g now v. record {
    tracks = (Tracks-Rules e).on_sweep g now v.tracks;
    allocated = v.allocated;
    is_done = v.is_done;
    same_decision = v.same_decision;
    same_device = v.same_device;
  };
  on_join = λ g r room v. with_waiters-Settled ref p g r _ v;
  on_create = λ g device now o l room v. create-Settled ref p g device now l v;
  on_lower = λ g r v. with_waiters-Settled ref p g r _ v;
  on_forget = λ g uuid v. record {
    tracks = (Tracks-Rules e).on_forget g uuid v.tracks;
    allocated = v.allocated;
    is_done = v.is_done;
    same_decision = v.same_decision;
    same_device = v.same_device;
  };
  on_release = λ g v. record {
    tracks = (Tracks-Rules e).on_release g v.tracks;
    allocated = v.allocated;
    is_done = v.is_done;
    same_decision = v.same_decision;
    same_device = v.same_device;
  };
  on_finish = λ g r d f why v. finished-Settled ref p g r d f v;
  on_cache = λ g c now a room v. record {
    tracks = (Tracks-Rules e).on_cache g c now a room v.tracks;
    allocated = v.allocated;
    is_done = v.is_done;
    same_decision = v.same_decision;
    same_device = v.same_device;
  };
  on_close = λ g v. record {
    tracks = (Tracks-Rules e).on_close g v.tracks;
    allocated = v.allocated;
    is_done = v.is_done;
    same_decision = v.same_decision;
    same_device = v.same_device;
  };
  on_clear = λ g c v. record {
    tracks = (Tracks-Rules e).on_clear g c v.tracks;
    allocated = v.allocated;
    is_done = v.is_done;
    same_decision = v.same_decision;
    same_device = v.same_device;
  };
}

-- A decision is final: once the channel of a request is closed, in a gate whose map tracks the
-- open requests, no callback, timeout, waiter or Close changes its decision or opens it again,
-- along any run.
pub decision_final :
    (g h : TelegramGate) (es : List Event) (ref : ℕ)
    → Tracks g
    → ref < g.next_ref
    → (g.heap ref).done ≡ true
    → Run g es h
    → ((h.heap ref).done ≡ true) × ((h.heap ref).decision ≡ (g.heap ref).decision)
decision_final g h es ref v a d r =
    let s =
      Run_rule (Settled-Rules ref (g.heap ref))
        (record {
          tracks = v;
          allocated = a;
          is_done = d;
          same_decision = refl;
          same_device = refl;
        })
        r in
    (s.is_done, s.same_decision)
