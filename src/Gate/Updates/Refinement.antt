-- ===== src/Gate/Updates/Refinement.antt =====
-- A batch of updates as callbacks of the machine (getUpdates of internal/gate/telegram.go).
use azath.Prelude.{
  Result, Result-cases, ok, err, ltb, ◌==◌, if◌then◌else◌, Bool-cases, Option-cases, Bytes, lookup,
  size, ℕ, ◌≡◌, refl, ap, ◌∙◌, inl, inr, Bool, true, false, not, ◌&&◌, Option, none, some, List, [],
  ◌∷◌,
}
use azath.Prelude.Int.{ℤ}
use azath.Uuid.{UuidLibrary}
use azath.Gate.{max_tracked_devices, TelegramGate, TelegramGateConfig, Decision}
use azath.Gate.Requests.{finish_pending}
use azath.Gate.Callbacks.{
  CallbackAction, approve, deny, other_action, CallbackData, Readings, process_callback,
  process_pending, record_action, is_stale, is_known, matches, decision_of,
}
use azath.Gate.Codec.{Mac, CallbackError, decode_callback}
use azath.Gate.Updates.{
  CallbackQuery, Update, Clock, validate_callback, handle_query, handle_update, handle_updates,
  process_decoded,
}
use azath.Gate.Updates.Effects.{newest, raised, advance-raised, query-Same}

abbrev at_offset : ℤ → TelegramGate → TelegramGate
at_offset i g = record g { last_update_id = i }

finish_at_offset :
    (i : ℤ) (g : TelegramGate) (ref : ℕ) (d : Decision)
    → finish_pending (at_offset i g) ref d ≡ at_offset i (finish_pending g ref d)
unfolding finish_pending
finish_at_offset i g ref d =
    elim (Option-cases (lookup (g.heap ref).device.uuid g.pending_requests)) [
      | inl n ↦ rw n refl
      | inr (r, s) ↦ elim (Bool-cases (r == ref)) [
        | inl y ↦ rw (s, y) refl
        | inr n ↦ rw (s, n) refl
      ]
    ]

record_at_offset :
    (i : ℤ) (a : CallbackAction) (d : CallbackData) (now : Readings) (g : TelegramGate)
    → record_action a d now (at_offset i g) ≡ at_offset i (record_action a d now g)
unfolding record_action
record_at_offset i approve d now g =
    elim (Bool-cases
      (ltb 0 g.cfg.approval_cache_ttl && ltb (size g.approved_cache) max_tracked_devices)) [
        | inl room ↦ rw room refl
        | inr full ↦ rw full refl
      ]
record_at_offset i deny d now g = refl
record_at_offset i (other_action t) d now g = refl

pending_at_offset :
    (i : ℤ) (o : Option ℕ) (d : CallbackData) (now : Readings) (g : TelegramGate)
    → process_pending o d now (at_offset i g) ≡ at_offset i (process_pending o d now g)
unfolding process_pending
pending_at_offset i none d now g = record_at_offset i d.action d now g
pending_at_offset i (some ref) d now g =
    elim (Bool-cases (matches (g.heap ref).created_at d.timestamp)) [
      | inr other ↦ rw other refl
      | inl same ↦ rw same (
          ap (record_action d.action d now) (finish_at_offset i g ref (decision_of d.action))
          ∙ record_at_offset i d.action d now (finish_pending g ref (decision_of d.action)))
    ]

if_at_offset :
    (i : ℤ) (b : Bool) (x y x' y' : TelegramGate)
    → x' ≡ at_offset i x
    → y' ≡ at_offset i y
    → (if b then x' else y') ≡ at_offset i (if b then x else y)
if_at_offset i true x y x' y' p q = p
if_at_offset i false x y x' y' p q = q

process_at_offset :
    (i : ℤ) (d : CallbackData) (now : Readings) (g : TelegramGate)
    → process_callback d now (at_offset i g) ≡ at_offset i (process_callback d now g)
unfolding process_callback
process_at_offset i d now g =
    let pending = process_pending (lookup d.device_uuid g.pending_requests) d now in
    let known = if not (is_known d.action) then g else pending g in
    if_at_offset i (is_stale d.timestamp now.after_at now.since_at g.cfg.approval_ttl) g
      (if g.closed then g else known) (at_offset i g) _ refl
      (if_at_offset i g.closed g known (at_offset i g) _ refl (
        if_at_offset i (not (is_known d.action)) g (pending g) (at_offset i g) _ refl
          (pending_at_offset i (lookup d.device_uuid g.pending_requests) d now g)))

-- The callbacks one after the other.
abbrev pub deliver : List (CallbackData × Readings) → TelegramGate → TelegramGate
deliver [] g = g
deliver ((d, now) ∷ rest) g = deliver rest (process_callback d now g)

deliver-at_offset :
    (i : ℤ) (cs : List (CallbackData × Readings)) (g : TelegramGate)
    → deliver cs (at_offset i g) ≡ at_offset i (deliver cs g)
deliver-at_offset i [] g = refl
deliver-at_offset i ((d, now) ∷ rest) g =
    ap (deliver rest) (process_at_offset i d now g)
    ∙ deliver-at_offset i rest (process_callback d now g)

abbrev with_data :
    Result CallbackError CallbackData
    → Readings
    → List (CallbackData × Readings)
    → List (CallbackData × Readings)
with_data (err e) now rest = rest
with_data (ok d) now rest = (d, now) ∷ rest

module _ (u : UuidLibrary) (mac : Mac) (hmac_key : Bytes) where
  abbrev read : TelegramGateConfig → CallbackQuery → Clock → Result CallbackError CallbackData
  read cfg cb now =
      decode_callback u mac hmac_key cfg.approval_ttl now.decoding.after_at now.decoding.since_at
        cb.data_text

  abbrev taken :
      TelegramGateConfig
      → Option CallbackQuery
      → Clock
      → List (CallbackData × Readings)
      → List (CallbackData × Readings)
  taken cfg none now rest = rest
  taken cfg (some cb) now rest =
      if validate_callback cfg cb then with_data (read cfg cb now) now.processing rest else rest

  -- A reference for the callbacks of a batch: the data of the queries of the authorised user in the
  -- authorised chat that decode.
  abbrev pub accepted : TelegramGateConfig → List (Update × Clock) → List (CallbackData × Readings)
  accepted cfg [] = []
  accepted cfg ((up, now) ∷ rest) = taken cfg up.callback_query now (accepted cfg rest)

  query_delivers :
      (cb : CallbackQuery) (now : Clock) (g : TelegramGate) (cs : List (CallbackData × Readings))
      → deliver cs (handle_query u mac hmac_key cb now g) ≡ deliver (taken g.cfg (some cb) now cs) g
  unfolding handle_query process_decoded
  query_delivers cb now g cs = elim (Bool-cases (validate_callback g.cfg cb)) [
    | inr foreign ↦ rw foreign refl
    | inl own ↦ elim (Result-cases (read g.cfg cb now)) [
      | inl (e, bad) ↦ rw own (rw bad refl)
      | inr (d, good) ↦ rw own (rw good refl)
    ]
  ]

  batch_step :
      (up : Update) (cb : CallbackQuery) (now : Clock) (rest : List (Update × Clock))
      (g : TelegramGate)
      → let q = handle_query u mac hmac_key cb now (at_offset (raised up g) g) in
        handle_updates u mac hmac_key rest q
          ≡ at_offset (newest q.last_update_id rest) (deliver (accepted q.cfg rest) q)
        → handle_updates u mac hmac_key rest q
          ≡ at_offset
              (newest (raised up g) rest)
              (deliver (taken g.cfg (some cb) now (accepted g.cfg rest)) g)
  batch_step up cb now rest g h =
      let r = raised up g in
      let q = handle_query u mac hmac_key cb now (at_offset r g) in
      let (top, same) = query-Same u mac hmac_key cb now (at_offset r g) in
      let cs = accepted g.cfg rest in
      h
      ∙ (ap (λ t. at_offset (newest t rest) (deliver (accepted q.cfg rest) q)) top
          ∙ (ap (λ k. at_offset (newest r rest) (deliver (accepted k rest) q)) same
              ∙ ap (at_offset (newest r rest)) (
                  query_delivers cb now (at_offset r g) cs
                  ∙ deliver-at_offset r (taken g.cfg (some cb) now cs) g)))

  -- getUpdates refines the machine of callbacks: whatever a batch holds, its effect on the gate is
  -- that of the accepted callbacks, processed in their order, and an offset moved on to the largest
  -- id of the callback queries.
  pub batch_refines :
      (ups : List (Update × Clock)) (g : TelegramGate)
      → handle_updates u mac hmac_key ups g
        ≡ record (deliver (accepted g.cfg ups) g) { last_update_id = newest g.last_update_id ups }
  unfolding handle_updates handle_update
  batch_refines [] g = refl
  batch_refines ((up, now) ∷ rest) g = elim (Option-cases up.callback_query) [
    | inl none_here ↦ rw none_here (batch_refines rest g)
    | inr (cb, here) ↦ rw here (
        rw (advance-raised up g) (
          batch_step up cb now rest g
            (batch_refines rest (handle_query u mac hmac_key cb now (at_offset (raised up g) g)))))
  ]
