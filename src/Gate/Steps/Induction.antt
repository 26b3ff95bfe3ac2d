-- ===== src/Gate/Steps/Induction.antt =====
-- What every stretch of the gate of internal/gate/telegram.go keeps holds along every run.
use azath.Prelude.{
  ltb, leb, ◌==◌, ==_iff, Bool-cases, Option-cases, is_some, lookup, Assoc, size, ℕ, ◌-◌, ◌≡◌, refl,
  ap, ◌∙◌, inl, inr, Bool, true, false, not, ◌&&◌, Option, none, some, List, [], ◌∷◌, arith,
}
use azath.Gate.{
  Device, Decision, max_waiters_per_device, max_tracked_devices, TelegramGate, denied, approved,
}
use azath.Gate.Requests.{
  enter_pending, enter_swept, finish_pending, sweep, is_limited, create, join, enter, leave, wake,
  expire, finish_all, close_begin,
}
use azath.Gate.Callbacks.{
  process_pending, record_action, CallbackAction, CallbackData, Readings, is_stale, is_known,
  decision_of, matches, process_callback, approve, deny, other_action,
}
use azath.Gate.Steps.{
  Event, apply, Enabled, Run, with_waiters, Approves, Rules, cfg-finish_pending, enters, wakes,
  sent, expires, calls_back, close_begins, close_ends, start, next,
}

module _ {ℓ} {P : TelegramGate → Type ℓ} {e : Event} (rules : Rules P e) where
  pub finish_pending_rule :
      (g : TelegramGate) (ref : ℕ) (d : Decision)
      → (lookup (g.heap ref).device.uuid g.pending_requests ≡ some ref
          → d ≡ approved
          → (c : CallbackData) × (now : Readings) × Approves e c.device_uuid g.cfg.approval_ttl c
              now
            × (lookup c.device_uuid g.pending_requests ≡ some ref)
            × (matches (g.heap ref).created_at c.timestamp ≡ true))
      → P g
      → P (finish_pending g ref d)
  unfolding finish_pending
  finish_pending_rule g ref d why h =
      elim (Option-cases (lookup (g.heap ref).device.uuid g.pending_requests)) [
        | inl n ↦ rw n h
        | inr (current, s) ↦ rw s (elim (Bool-cases (current == ref)) [
          | inr other ↦ rw other h
          | inl same ↦ rw same (
              let f = s ∙ ap some ((==_iff current ref).0 same) in
              rules.on_finish g ref d f (why f) h)
        ])
      ]

  pub deny_rule : (g : TelegramGate) (ref : ℕ) → P g → P (finish_pending g ref denied)
  deny_rule g ref h = finish_pending_rule g ref denied (λ f x. absurd (cc x)) h

  join_rule : (g : TelegramGate) (ref : ℕ) → P g → P (join ref g).1
  unfolding join
  join_rule g ref h = elim (Bool-cases (leb max_waiters_per_device (g.heap ref).waiters)) [
    | inl full ↦ rw full h
    | inr room ↦ rw room (rules.on_join g ref (ground arith) h)
  ]

  enter_pending_rule :
      (current : Option ℕ) (device : Device) (now : ℕ) (g : TelegramGate)
      → lookup device.uuid g.pending_requests ≡ current
      → g.closed ≡ false
      → P g
      → P (enter_pending current device now g).1
  unfolding enter_pending
  enter_pending_rule (some ref) device now g l o h = join_rule g ref h
  enter_pending_rule none device now g l o h = elim (Bool-cases (is_limited device.uuid g)) [
    | inl full ↦ rw full h
    | inr room ↦
        rw room
          (join_rule (create device now g) g.next_ref (rules.on_create g device now o l room h))
  ]

  enter_swept_rule :
      (ctx_err : Bool) (device : Device) (now : ℕ) (g : TelegramGate)
      → g.closed ≡ false
      → P g
      → P (enter_swept ctx_err device now g).1
  unfolding enter_swept
  enter_swept_rule ctx_err device now g o h =
      elim (Bool-cases (is_some (lookup device.uuid g.approved_cache) && not ctx_err)) [
        | inl hit ↦ rw hit h
        | inr miss ↦ rw miss (enter_pending_rule _ device now g refl o h)
      ]

  enter_rule :
      (ctx_err : Bool) (device : Device) (now : ℕ) (g : TelegramGate)
      → P g
      → P (enter ctx_err device now g).1
  unfolding enter
  enter_rule ctx_err device now g h = elim (Bool-cases g.closed) [
    | inl c ↦ simp c h
    | inr o ↦ simp o (
        enter_swept_rule ctx_err device now (sweep now g) (unfold sweep in o)
          (rules.on_sweep g now h))
  ]

  wake_rule : (ctx_err : Bool) (ref : ℕ) (g : TelegramGate) → P g → P (wake ctx_err ref g).1
  unfolding wake leave
  wake_rule ctx_err ref g h = elim (Bool-cases ((g.heap ref).waiters - 1 == 0)) [
    | inr more ↦ rw more lowered
    | inl last ↦ rw last (elim (Bool-cases ctx_err) [
      | inl c ↦ rw c (rules.on_forget _ _ finished_g)
      | inr c ↦ rw c finished_g
    ])
  ]
    where
      lowered : P (with_waiters g ref ((g.heap ref).waiters - 1))
      lowered = rules.on_lower g ref h

      finished_g : P (finish_pending (with_waiters g ref ((g.heap ref).waiters - 1)) ref denied)
      finished_g = deny_rule _ ref lowered

  pub finish_all_rule : (m : Assoc ℕ) (g : TelegramGate) → P g → P (finish_all m g)
  unfolding finish_all
  finish_all_rule [] g h = h
  finish_all_rule ((uuid, ref) ∷ m) g h =
      finish_all_rule m (finish_pending g ref denied) (deny_rule g ref h)

  close_rule : (g : TelegramGate) → P g → P (close_begin g)
  unfolding close_begin
  close_rule g h = elim (Bool-cases g.closed) [
    | inl c ↦ simp c h
    | inr o ↦ simp o (finish_all_rule g.pending_requests _ (rules.on_close g h))
  ]

  pub cache_rule :
      (a : CallbackAction) (d : CallbackData) (now : Readings) (g : TelegramGate)
      → e ≡ calls_back d now
      → d.action ≡ a
      → is_stale d.timestamp now.after_at now.since_at g.cfg.approval_ttl ≡ false
      → P g
      → P (record_action a d now g)
  unfolding record_action
  cache_rule approve d now g q a fresh h =
      elim (Bool-cases
        (ltb 0 g.cfg.approval_cache_ttl && ltb (size g.approved_cache) max_tracked_devices)) [
          | inr full ↦ rw full h
          | inl room ↦ rw room (
              rules.on_cache g d now
                (record { is_event = q; is_approve = a; for_device = refl; is_fresh = fresh })
                (ground arith) h)
        ]
  cache_rule deny d now g q a fresh h = h
  cache_rule (other_action t) d now g q a fresh h = h

  process_rule :
      (current : Option ℕ) (d : CallbackData) (now : Readings) (g : TelegramGate)
      → e ≡ calls_back d now
      → lookup d.device_uuid g.pending_requests ≡ current
      → is_stale d.timestamp now.after_at now.since_at g.cfg.approval_ttl ≡ false
      → P g
      → P (process_pending current d now g)
  unfolding process_pending
  process_rule none d now g q l fresh h = cache_rule d.action d now g q refl fresh h
  process_rule (some ref) d now g q l fresh h =
      elim (Bool-cases (matches (g.heap ref).created_at d.timestamp)) [
        | inr other ↦ rw other h
        | inl same ↦ rw same (
            cache_rule d.action d now _ q refl fresh_finished (
              finish_pending_rule g ref (decision_of d.action)
                (λ f x. (
                  d,
                  now,
                  record {
                    is_event = q;
                    is_approve = approving d.action x;
                    for_device = refl;
                    is_fresh = fresh;
                  },
                  l,
                  same,
                ))
                h))
      ]
    where
      fresh_finished :
          is_stale d.timestamp now.after_at now.since_at
            (finish_pending g ref (decision_of d.action)).cfg.approval_ttl
          ≡ false
      fresh_finished = rw (cfg-finish_pending g ref (decision_of d.action)) fresh

      approving : (a : CallbackAction) → decision_of a ≡ approved → a ≡ approve
      approving approve x = refl
      approving deny x = absurd (cc x)
      approving (other_action t) x = absurd (cc x)

  callback_rule :
      (d : CallbackData) (now : Readings) (g : TelegramGate)
      → e ≡ calls_back d now
      → P g
      → P (process_callback d now g)
  unfolding process_callback
  callback_rule d now g q h =
      elim (Bool-cases (is_stale d.timestamp now.after_at now.since_at g.cfg.approval_ttl)) [
        | inl old ↦ rw old h
        | inr fresh ↦ rw fresh (elim (Bool-cases g.closed) [
          | inl c ↦ simp c h
          | inr o ↦ simp o (elim (Bool-cases (is_known d.action)) [
            | inr k ↦ rw k h
            | inl k ↦ rw k (process_rule _ d now g q refl fresh h)
          ])
        ])
      ]

  -- An event keeps what its stretches keep.
  pub apply_rule : (g : TelegramGate) → Enabled e g → P g → P (apply e g)
  unfolding apply
  apply_rule g en h = apply_event e refl g en h
    where
      apply_event : (x : Event) → e ≡ x → (g : TelegramGate) → Enabled x g → P g → P (apply x g)
      apply_event (enters ctx_err device now) q g en h = enter_rule ctx_err device now g h
      apply_event (wakes ctx_err ref) q g en h = wake_rule ctx_err ref g h
      apply_event sent q g en h = rules.on_release g h
      apply_event (expires ref) q g en h = unfold expire in deny_rule g ref h
      apply_event (calls_back d now) q g en h = callback_rule d now g q h
      apply_event close_begins q g en h = close_rule g h
      apply_event close_ends q g en h = rules.on_clear g en h

-- What every event keeps holds along every run.
pub Run_rule {ℓ} :
    {P : TelegramGate → Type ℓ} {g : TelegramGate} {es : List Event} {h : TelegramGate}
    → ((e : Event) → Rules P e)
    → P g
    → Run g es h
    → P h
Run_rule rules p start = p
Run_rule rules p (next {h = m} e r en) = apply_rule (rules e) m en (Run_rule rules p r)
