-- ===== src/Gate/Pointers/Releases.antt =====
-- Who is released, and with which decision: callbacks, timeouts and Close of
-- internal/gate/telegram.go.
use azath.Prelude.{
  ◌==◌, ==_iff, Bool-cases, Option-cases, text_eq, Text, lookup, Assoc, ℕ, ◌-◌, ◌<◌, ◌≡◌, refl, sym,
  ap, subst, ◌∙◌, ◌≢◌, ◌↔◌, ◌⊎◌, inl, inr, true, false, some, List, [], ◌∷◌, arith,
}
use azath.Prelude.Int.{ℤ, pos}
use azath.Gate.{Decision, PendingRequest, TelegramGate, update, denied}
use azath.Gate.Requests.{finish_pending, leave, wake, expire, finish_all, close_begin, decided}
use azath.Gate.Callbacks.{
  CallbackData, Readings, is_stale, is_known, decision_of, record_action, matches, process_pending,
  process_callback,
}
use azath.Gate.Steps.{
  cfg-finish_pending, Event, Run, finished, with_waiters, calls_back, close_begins,
}
use azath.Gate.Steps.Induction.{cache_rule, deny_rule, finish_all_rule, Run_rule}
use azath.Gate.Pointers.{
  finished-Tracks, with_waiters-Tracks, Tracks, Tracks-Rules, Settled, Settled-Rules,
}

finish_pending_done :
    (g : TelegramGate) (ref : ℕ) (d : Decision)
    → Tracks g
    → g.cleared ≡ false
    → ref < g.next_ref
    → ((finish_pending g ref d).heap ref).done ≡ true
unfolding finish_pending update
finish_pending_done g ref d v c a = elim (Bool-cases (g.heap ref).done) [
  | inl y ↦ ground arith
  | inr n ↦ let l = v.found ref c a n in ground arith
]

-- When the context of a pending request ends or its message cannot be sent, before Close has
-- cleared a map that tracks the open requests, its waiters are released: the channel is closed,
-- and with Denied unless the request was decided before.
pub expire_releases :
    (g : TelegramGate) (ref : ℕ)
    → Tracks g
    → g.cleared ≡ false
    → ref < g.next_ref
    → (((expire ref g).heap ref).done ≡ true)
      × ((((expire ref g).heap ref).decision ≡ denied) ⊎ ((g.heap ref).done ≡ true))
expire_releases g ref v c a =
    (unfold expire in finish_pending_done g ref denied v c a, expire_denies)
  where
    expire_denies : (((expire ref g).heap ref).decision ≡ denied) ⊎ ((g.heap ref).done ≡ true)
    expire_denies = elim (Bool-cases (g.heap ref).done) [
      | inl y ↦ inr y
      | inr n ↦
          let l = v.found ref c a n in inl (unfold expire finish_pending update in ground arith)
    ]

cleared-finish_pending :
    (g : TelegramGate) (ref : ℕ) (d : Decision) → (finish_pending g ref d).cleared ≡ g.cleared
unfolding finish_pending
cleared-finish_pending g ref d = ground arith

next_ref-finish_pending :
    (g : TelegramGate) (ref : ℕ) (d : Decision) → (finish_pending g ref d).next_ref ≡ g.next_ref
unfolding finish_pending
next_ref-finish_pending g ref d = ground arith

-- Finishing every entry of the map closes the channel of whatever the map holds.
finish_all_done :
    (m : Assoc ℕ) (g : TelegramGate) (uuid : Text) (ref : ℕ)
    → Tracks g
    → g.cleared ≡ false
    → ref < g.next_ref
    → lookup uuid m ≡ some ref
    → ((finish_all m g).heap ref).done ≡ true
unfolding finish_all lookup
finish_all_done [] g uuid ref v c a l = absurd (cc l)
finish_all_done ((k, r) ∷ m) g uuid ref v c a l = elim (Bool-cases (text_eq k uuid)) [
  | inr other ↦
      finish_all_done m (finish_pending g r denied) uuid ref
        (deny_rule (Tracks-Rules close_begins) g r v) (rw cleared-finish_pending c)
        (rw next_ref-finish_pending a) (rw other at l)
  | inl same ↦ settled (cc (rw same at l))
]
  where
    settled : r ≡ ref → ((finish_all m (finish_pending g r denied)).heap ref).done ≡ true
    settled e =
        let h : TelegramGate = finish_pending g r denied in
        (finish_all_rule (Settled-Rules ref (h.heap ref) close_begins) m h (record {
          tracks = deny_rule (Tracks-Rules close_begins) g r v;
          allocated = rw next_ref-finish_pending a;
          is_done =
              subst (λ q. ((finish_pending g q denied).heap ref).done ≡ true) (sym e)
                (finish_pending_done g ref denied v c a);
          same_decision = refl;
          same_device = refl;
        })).is_done

-- Close releases everybody: if the gate was open and its map tracks the open requests, then after
-- the first stretch of Close the channel of every request that was ever made is closed, so no
-- waiter is left behind.
pub close_releases :
    (g : TelegramGate) (ref : ℕ)
    → Tracks g
    → g.closed ≡ false
    → g.cleared ≡ false
    → ref < g.next_ref
    → ((close_begin g).heap ref).done ≡ true
unfolding close_begin
close_releases g ref v o c a = elim (Bool-cases (g.heap ref).done) [
  | inl y ↦
      simp o
        (finish_all_rule (Settled-Rules ref (g.heap ref) close_begins) g.pending_requests _
          (record {
            tracks = record { mapped = v.mapped; found = v.found };
            allocated = a;
            is_done = y;
            same_decision = refl;
            same_device = refl;
          })).is_done
  | inr n ↦ simp o (
      finish_all_done g.pending_requests _ (g.heap ref).device.uuid ref
        (record { mapped = v.mapped; found = v.found }) c a (v.found ref c a n))
]

matches_iff : (created : ℕ) (t : ℤ) → (matches created t ≡ true) ↔ (t ≡ pos created)
matches_iff created t = ground arith

-- A callback whose timestamp is not that of the pending prompt changes nothing, however valid it
-- is: a button of an earlier prompt cannot decide a later one, nor refresh the cache.
pub other_prompt_ignored :
    (g : TelegramGate) (ref : ℕ) (d : CallbackData) (now : Readings)
    → lookup d.device_uuid g.pending_requests ≡ some ref
    → d.timestamp ≢ pos (g.heap ref).created_at
    → process_callback d now g ≡ g
unfolding process_callback process_pending
other_prompt_ignored g ref d now l n =
    ground (arith, matches_iff (g.heap ref).created_at d.timestamp)

finish_pending_settled :
    (g : TelegramGate) (ref : ℕ) (d : Decision)
    → Tracks g
    → (g.heap ref).done ≡ true
    → finish_pending g ref d ≡ g
unfolding finish_pending
finish_pending_settled g ref d v h =
    elim (Option-cases (lookup (g.heap ref).device.uuid g.pending_requests)) [
      | inl n ↦ rw n
      | inr (r, l) ↦ elim (Bool-cases (r == ref)) [
        | inr other ↦ rw (l, other)
        | inl same ↦ let open_ref = v.mapped _ r l in absurd (ground arith)
      ]
    ]

leave_settled :
    (g : TelegramGate) (ref : ℕ)
    → Tracks g
    → (g.heap ref).done ≡ true
    → leave false ref g ≡ with_waiters g ref ((g.heap ref).waiters - 1)
unfolding leave
leave_settled g ref v h = elim (Bool-cases ((g.heap ref).waiters - 1 == 0)) [
  | inr more ↦ rw more
  | inl last ↦ rw last (
      finish_pending_settled (with_waiters g ref ((g.heap ref).waiters - 1)) ref denied
        (with_waiters-Tracks g ref _ v) (unfold update in ground arith))
]

pub wake_settled :
    (g : TelegramGate) (ref : ℕ)
    → Tracks g
    → g.closed ≡ false
    → (g.heap ref).done ≡ true
    → (wake false ref g).0 ≡ decided (g.heap ref).decision
unfolding wake
wake_settled g ref v o h = rw (leave_settled g ref v h) (unfold update in ground arith)

process_taken :
    (g : TelegramGate) (ref : ℕ) (d : CallbackData) (now : Readings)
    → g.closed ≡ false
    → is_known d.action ≡ true
    → is_stale d.timestamp now.after_at now.since_at g.cfg.approval_ttl ≡ false
    → lookup d.device_uuid g.pending_requests ≡ some ref
    → d.timestamp ≡ pos (g.heap ref).created_at
    → process_callback d now g
      ≡ record_action d.action d now (finish_pending g ref (decision_of d.action))
unfolding process_callback process_pending
process_taken g ref d now o k s l t =
    ground (arith, matches_iff (g.heap ref).created_at d.timestamp)

finish_pending_found :
    (g : TelegramGate) (ref : ℕ) (d : Decision)
    → lookup (g.heap ref).device.uuid g.pending_requests ≡ some ref
    → finish_pending g ref d ≡ finished g ref d
unfolding finish_pending
finish_pending_found g ref d l = rw (l, (==_iff ref ref).1 refl)

pub callback_effect :
    (g : TelegramGate) (ref : ℕ) (d : CallbackData) (now : Readings)
    → Tracks g
    → g.closed ≡ false
    → is_known d.action ≡ true
    → is_stale d.timestamp now.after_at now.since_at g.cfg.approval_ttl ≡ false
    → lookup d.device_uuid g.pending_requests ≡ some ref
    → d.timestamp ≡ pos (g.heap ref).created_at
    → Settled ref
        (record (g.heap ref) { decision = decision_of d.action })
        (process_callback d now g)
callback_effect g ref d now v o k s l t =
    subst (Settled ref target) (sym (process_taken g ref d now o k s l t)) (
      cache_rule (Settled-Rules ref target (calls_back d now)) d.action d now
        (finish_pending g ref (decision_of d.action)) refl refl
        (rw (cfg-finish_pending g ref (decision_of d.action)) s)
        (subst (Settled ref target) (sym (finish_pending_found g ref (decision_of d.action) own))
          (record {
            tracks = finished-Tracks g ref (decision_of d.action) own v;
            allocated = (v.mapped d.device_uuid ref l).0;
            is_done = unfold update in ground arith;
            same_decision = unfold update in ground arith;
            same_device = unfold update in ground arith;
          })))
  where
    target : PendingRequest
    target = record (g.heap ref) { decision = decision_of d.action }

    own : lookup (g.heap ref).device.uuid g.pending_requests ≡ some ref
    own = rw ((v.mapped d.device_uuid ref l).1) l

-- In a gate that is not closed and whose map tracks its open requests, an approve or deny callback
-- that is not stale and carries the creation time of its device's pending request decides it for
-- good: after any further run that does not close the gate the request's channel is closed, and a
-- waiter that it wakes is told that decision.
pub callback_decides :
    (g : TelegramGate) (ref : ℕ) (d : CallbackData) (now : Readings) (es : List Event)
    (h : TelegramGate)
    → Tracks g
    → g.closed ≡ false
    → is_known d.action ≡ true
    → is_stale d.timestamp now.after_at now.since_at g.cfg.approval_ttl ≡ false
    → lookup d.device_uuid g.pending_requests ≡ some ref
    → d.timestamp ≡ pos (g.heap ref).created_at
    → Run (process_callback d now g) es h
    → h.closed ≡ false
    → ((h.heap ref).done ≡ true) × ((wake false ref h).0 ≡ decided (decision_of d.action))
callback_decides g ref d now es h v o k s l t r c =
    let w = Run_rule (Settled-Rules ref _) (callback_effect g ref d now v o k s l t) r in
    (w.is_done, wake_settled h ref w.tracks c w.is_done ∙ ap decided w.same_decision)
