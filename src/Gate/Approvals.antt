-- ===== src/Gate/Approvals.antt =====
-- Where approvals come from in internal/gate/telegram.go: every one rests on a callback that the
-- gate took.
use azath.Prelude.{
  ltb, ◌==◌, ltb→lt, Bool-cases, Option-cases, Text, lookup, lookup-keep, Every, Every-keep,
  Every-insert, Every-lookup, Every-mono, ℕ, ◌+◌, ◌<◌, ◌≡◌, refl, sym, ap, subst, ◌∙◌, ◌≢◌, ◌⊎◌,
  inl, inr, Bool, true, false, Option, some, List, [], ◌∷◌, arith,
}
use azath.Gate.{
  Device, Decision, TelegramGateConfig, PendingRequest, TelegramGate, new, update, approved,
}
use azath.Gate.Requests.{
  finish_pending, sweep, create, join, enter_pending, enter_swept, enter, leave, wake, release_send,
  close_end, returns, decided,
}
use azath.Gate.Callbacks.{CallbackData, Readings, matches}
use azath.Gate.Steps.{Event, Enabled, Run, Approves, Rules, wakes, start, next}
use azath.Gate.Steps.Induction.{apply_rule}
use azath.Gate.Pointers.{Tracks, Tracks-Rules, Run-Tracks}

abbrev pub Occurs : (Event → Type 0) → List Event → Type 0
Occurs P [] = ⊥
Occurs P (e ∷ es) = P e ⊎ Occurs P es

-- An approve callback for this very prompt: for its device, with its creation time, and not stale.
abbrev pub ApprovesPrompt : TelegramGateConfig → Text → ℕ → Event → Type 0
ApprovesPrompt cfg uuid created e =
    (c : CallbackData) × (now : Readings) × Approves e uuid cfg.approval_ttl c now
    × (matches created c.timestamp ≡ true)

-- An approve callback for the device, not stale, that was taken `approval_cache_ttl` before `until`.
abbrev pub ApprovesUntil : TelegramGateConfig → Text → ℕ → Event → Type 0
ApprovesUntil cfg uuid until e =
    (c : CallbackData) × (now : Readings) × Approves e uuid cfg.approval_ttl c now
    × (until ≡ now.cache_at + cfg.approval_cache_ttl)

abbrev IsJustified : TelegramGateConfig → List Event → PendingRequest → Type 0
IsJustified cfg es p =
    p.decision ≡ approved → Occurs (ApprovesPrompt cfg p.device.uuid p.created_at) es

record Justified (cfg : TelegramGateConfig) (es : List Event) (g : TelegramGate) : Type 0 where
  pub tracks : Tracks g
  pub config : g.cfg ≡ cfg
  pub by_callback : (ref : ℕ) → IsJustified cfg es (g.heap ref)
  pub by_cache : Every (λ uuid until. Occurs (ApprovesUntil cfg uuid until) es) g.approved_cache

new-Justified : (cfg : TelegramGateConfig) (interval : ℕ) → Justified cfg [] (new cfg interval)
new-Justified cfg interval = record {
  tracks = Run-Tracks cfg interval start;
  config = unfold new in refl;
  by_callback = λ ref h. unfold new in cc h;
  by_cache = unfold new in tt;
}

weaken_cfg :
    (cfg : TelegramGateConfig) (es : List Event) (e : Event) (g : TelegramGate)
    → Justified cfg es g
    → Justified cfg (e ∷ es) g
weaken_cfg cfg es e g v = record {
  tracks = v.tracks;
  config = v.config;
  by_callback = λ ref h. inr (v.by_callback ref h);
  by_cache = Every-mono g.approved_cache (λ k t h. inr h) v.by_cache;
}

-- A write through a pointer keeps what holds of every request, if it holds of the one written.
update_all {ℓ} :
    (P : PendingRequest → Type ℓ) (h : ℕ → PendingRequest) (r : ℕ) (p : PendingRequest)
    → P p
    → ((q : ℕ) → P (h q))
    → (q : ℕ) → P (update h r p q)
unfolding update
update_all P h r p new old q = elim (Bool-cases (r == q)) [
  | inl y ↦ rw y new
  | inr n ↦ rw n (old q)
]

module _ (cfg : TelegramGateConfig) (es : List Event) (e : Event) where
  for_cfg :
      (c : CallbackData) (now : Readings) (uuid : Text) (g : TelegramGate)
      → Justified cfg (e ∷ es) g
      → Approves e uuid g.cfg.approval_ttl c now
      → Approves e uuid cfg.approval_ttl c now
  for_cfg c now uuid g v a =
      subst (λ (k : TelegramGateConfig). Approves e uuid k.approval_ttl c now) v.config a

  finish-Justified :
      (g : TelegramGate) (r : ℕ) (d : Decision)
      → (d ≡ approved
          → (c : CallbackData) × (now : Readings) × Approves e c.device_uuid g.cfg.approval_ttl c
              now
            × (lookup c.device_uuid g.pending_requests ≡ some r)
            × (matches (g.heap r).created_at c.timestamp ≡ true))
      → Justified cfg (e ∷ es) g
      → d ≡ approved
      → Occurs (ApprovesPrompt cfg (g.heap r).device.uuid (g.heap r).created_at) (e ∷ es)
  finish-Justified g r d why v x =
      let (c, now, a, l, m) = why x in
      inl (
        c,
        now,
        subst (λ u. Approves e u cfg.approval_ttl c now) (sym (v.tracks.mapped c.device_uuid r l).1)
            (for_cfg c now c.device_uuid g v a),
        m,
      )

Justified-Rules :
    (cfg : TelegramGateConfig) (es : List Event) (e : Event) → Rules (Justified cfg (e ∷ es)) e
Justified-Rules cfg es e = record {
  on_sweep = λ g now v. record {
    tracks = (Tracks-Rules e).on_sweep g now v.tracks;
    config = unfold sweep in v.config;
    by_callback = unfold sweep in v.by_callback;
    by_cache =
        unfold sweep in Every-keep _ (λ expires_at. ltb now expires_at) g.approved_cache v.by_cache;
  };
  on_join = λ g r room v. record {
    tracks = (Tracks-Rules e).on_join g r room v.tracks;
    config = v.config;
    by_callback = update_all (IsJustified cfg (e ∷ es)) g.heap r _ (v.by_callback r) v.by_callback;
    by_cache = v.by_cache;
  };
  on_create = λ g device now o l room v. record {
    tracks = (Tracks-Rules e).on_create g device now o l room v.tracks;
    config = unfold create in v.config;
    by_callback =
        unfold create in
        update_all (IsJustified cfg (e ∷ es)) g.heap g.next_ref _ (λ h. absurd (cc h))
          v.by_callback;
    by_cache = unfold create in v.by_cache;
  };
  on_lower = λ g r v. record {
    tracks = (Tracks-Rules e).on_lower g r v.tracks;
    config = v.config;
    by_callback = update_all (IsJustified cfg (e ∷ es)) g.heap r _ (v.by_callback r) v.by_callback;
    by_cache = v.by_cache;
  };
  on_forget = λ g uuid v. record {
    tracks = (Tracks-Rules e).on_forget g uuid v.tracks;
    config = v.config;
    by_callback = v.by_callback;
    by_cache = v.by_cache;
  };
  on_release = λ g v. record {
    tracks = (Tracks-Rules e).on_release g v.tracks;
    config = unfold release_send in v.config;
    by_callback = unfold release_send in v.by_callback;
    by_cache = unfold release_send in v.by_cache;
  };
  on_finish = λ g r d f why v. record {
    tracks = (Tracks-Rules e).on_finish g r d f why v.tracks;
    config = v.config;
    by_callback =
        update_all (IsJustified cfg (e ∷ es)) g.heap r _ (finish-Justified cfg es e g r d why v)
          v.by_callback;
    by_cache = v.by_cache;
  };
  on_cache = λ g c now a room v. record {
    tracks = (Tracks-Rules e).on_cache g c now a room v.tracks;
    config = v.config;
    by_callback = v.by_callback;
    by_cache =
        Every-insert _ c.device_uuid _ g.approved_cache
          (inl (
            c,
            now,
            for_cfg cfg es e c now c.device_uuid g v a,
            ap (λ (k : TelegramGateConfig). now.cache_at + k.approval_cache_ttl) v.config,
          ))
          v.by_cache;
  };
  on_close = λ g v. record {
    tracks = (Tracks-Rules e).on_close g v.tracks;
    config = v.config;
    by_callback = v.by_callback;
    by_cache = v.by_cache;
  };
  on_clear = λ g c v. record {
    tracks = (Tracks-Rules e).on_clear g c v.tracks;
    config = unfold close_end in v.config;
    by_callback = unfold close_end in v.by_callback;
    by_cache = unfold close_end in tt;
  };
}

Run-Justified :
    (cfg : TelegramGateConfig) (interval : ℕ) {es : List Event} {g : TelegramGate}
    → Run (new cfg interval) es g
    → Justified cfg es g
Run-Justified cfg interval start = new-Justified cfg interval
Run-Justified cfg interval (next {es = es} {h = h} e r en) =
    apply_rule (Justified-Rules cfg es e) h en
      (weaken_cfg cfg es e h (Run-Justified cfg interval r))

closed-leave :
    (ctx_err : Bool) (ref : ℕ) (g : TelegramGate) → (leave ctx_err ref g).closed ≡ g.closed
unfolding leave finish_pending
closed-leave ctx_err ref g = ground arith

leave_decision :
    (ctx_err : Bool) (ref : ℕ) (g : TelegramGate)
    → ((leave ctx_err ref g).heap ref).decision ≡ approved
    → (g.heap ref).decision ≡ approved
unfolding leave finish_pending update
leave_decision ctx_err ref g h = ground arith

wake_decides :
    (ctx_err : Bool) (ref : ℕ) (g : TelegramGate)
    → (wake ctx_err ref g).0 ≡ decided approved
    → (ctx_err ≡ false)
      × ((leave ctx_err ref g).closed ≡ false)
      × (((leave ctx_err ref g).heap ref).decision ≡ approved)
unfolding wake
wake_decides ctx_err ref g h = ground arith

pending-ne-approved :
    (current : Option ℕ) (device : Device) (now : ℕ) (g : TelegramGate)
    → (enter_pending current device now g).0 ≢ returns approved
unfolding enter_pending join
pending-ne-approved current device now g h = ground arith

cache_hit :
    (ctx_err : Bool) (device : Device) (now : ℕ) (g : TelegramGate)
    → (enter ctx_err device now g).0 ≡ returns approved
    → (ctx_err ≡ false)
      × (g.closed ≡ false)
      × (until : ℕ) × (lookup device.uuid (sweep now g).approved_cache ≡ some until)
unfolding enter enter_swept
cache_hit ctx_err device now g h =
    elim (Option-cases (lookup device.uuid (sweep now g).approved_cache)) [
      | inl n ↦ absurd (
          ground (
            arith,
            pending-ne-approved (lookup device.uuid (sweep now g).pending_requests) device now
                (sweep now g),
          ))
      | inr (until, l) ↦ (
        ground (
          arith,
          pending-ne-approved (lookup device.uuid (sweep now g).pending_requests) device now
              (sweep now g),
        ),
        ground arith,
        until,
        l,
      )
    ]

-- A waiter is told Approved only if the gate has taken an approve callback for the very prompt that
-- it waited on: for the same device, with the prompt's creation time, and not older than the
-- approval TTL. The waiter's context has not ended and the gate has not been closed.
pub wake_approved :
    (cfg : TelegramGateConfig) (interval : ℕ) (es : List Event) (g : TelegramGate) (ctx_err : Bool)
    (ref : ℕ)
    → Run (new cfg interval) es g
    → Enabled (wakes ctx_err ref) g
    → (wake ctx_err ref g).0 ≡ decided approved
    → (ctx_err ≡ false)
      × (g.closed ≡ false)
      × Occurs (ApprovesPrompt cfg (g.heap ref).device.uuid (g.heap ref).created_at) es
wake_approved cfg interval es g ctx_err ref r en h =
    let (a, b, d) = wake_decides ctx_err ref g h in
    let v = Run-Justified cfg interval r in
    (a, sym (closed-leave ctx_err ref g) ∙ b, v.by_callback ref (leave_decision ctx_err ref g d))

-- Check answers Approved from the cache, without a prompt, only to a caller whose context has not
-- ended, and only if the gate has taken an approve callback for the same device less than the
-- cache TTL before; a cached approval never outlives its TTL.
pub enter_approved :
    (cfg : TelegramGateConfig) (interval : ℕ) (es : List Event) (g : TelegramGate) (ctx_err : Bool)
    (device : Device) (now : ℕ)
    → Run (new cfg interval) es g
    → (enter ctx_err device now g).0 ≡ returns approved
    → (ctx_err ≡ false)
      × (g.closed ≡ false)
      × (until : ℕ) × (now < until)
      × Occurs (ApprovesUntil cfg device.uuid until) es
enter_approved cfg interval es g ctx_err device now r h =
    let (a, b, until, l) = cache_hit ctx_err device now g h in
    let v = Run-Justified cfg interval r in (a, b, until, swept_fresh l, swept_known v.by_cache l)
  where
    swept_fresh :
        {until : ℕ} → lookup device.uuid (sweep now g).approved_cache ≡ some until → now < until
    swept_fresh {until} l = ltb→lt now until (
        lookup-keep (λ expires_at. ltb now expires_at) device.uuid g.approved_cache until
          (unfold sweep in l))

    swept_known :
        {until : ℕ}
        → Every (λ uuid u. Occurs (ApprovesUntil cfg uuid u) es) g.approved_cache
        → lookup device.uuid (sweep now g).approved_cache ≡ some until
        → Occurs (ApprovesUntil cfg device.uuid until) es
    swept_known {until} v l =
        Every-lookup (λ uuid u. Occurs (ApprovesUntil cfg uuid u) es) device.uuid until _
          (Every-keep (λ uuid u. Occurs (ApprovesUntil cfg uuid u) es)
            (λ expires_at. ltb now expires_at) g.approved_cache v)
          (unfold sweep in l)
