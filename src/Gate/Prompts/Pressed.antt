-- ===== src/Gate/Prompts/Pressed.antt =====
-- From the message of a prompt to the answer of its waiters: sendApprovalMessage, getUpdates and
-- processCallback of internal/gate/telegram.go together.
use azath.Prelude.{
  ok, ltb, Bool-cases, length, Text, Bytes, IsBytes, lookup, ℕ, ◌≡◌, refl, sym, ap, subst, ◌∙◌, inl,
  inr, true, false, some, List, [], ◌∷◌, ◌++◌, arith,
}
use azath.Prelude.Int.{ℤ, pos}
use azath.Uuid.{UuidLibrary, IsUuidLibrary}
use azath.Gate.{PendingRequest, Device, TelegramGate}
use azath.Gate.Requests.{wake, decided}
use azath.Gate.Callbacks.{
  CallbackAction, CallbackData, Readings, is_stale, is_known, decision_of, process_callback,
  approve, deny, other_action,
}
use azath.Gate.Codec.{Mac, IsMac, encode_callback}
use azath.Gate.Codec.RoundTrip.{button, InRange, button_round_trip}
use azath.Gate.Updates.{
  CallbackQuery, Update, Clock, validate_callback, decoded, handle_query, handle_update,
  handle_updates, get_updates, replied,
}
use azath.Gate.Steps.{Run, Event, apply, calls_back}
use azath.Gate.Steps.Induction.{apply_rule, Run_rule}
use azath.Gate.Updates.Effects.{raised, advance-raised, query_processed}
use azath.Gate.Updates.Effects.{newest}
use azath.Gate.Updates.Refinement.{deliver, accepted, batch_refines}
use azath.Gate.Pointers.{Tracks, Settled, Settled-Rules}
use azath.Gate.Pointers.Releases.{callback_effect, wake_settled}
use azath.Gate.Prompts.{Message, Sender, approval_message}

-- The data of the button for an action.
abbrev pub data_of : CallbackAction → Message → Text
data_of approve m = m.approve_button.callback_data
data_of deny m = m.deny_button.callback_data
data_of (other_action t) m = []

message_eq : {m n : Message} → some m ≡ some n → m ≡ n
message_eq e = cc e

advance-Tracks : (i : ℤ) (g : TelegramGate) → Tracks g → Tracks (record g { last_update_id = i })
advance-Tracks i g v = record { mapped = v.mapped; found = v.found }

-- An offset is no part of what is settled.
offset-Settled :
    (i : ℤ) (ref : ℕ) (p : PendingRequest) (g : TelegramGate)
    → Settled ref p g
    → Settled ref p (record g { last_update_id = i })
offset-Settled i ref p g v = record {
  tracks = advance-Tracks i g v.tracks;
  allocated = v.allocated;
  is_done = v.is_done;
  same_decision = v.same_decision;
  same_device = v.same_device;
}

deliver-Settled :
    (cs : List (CallbackData × Readings)) (ref : ℕ) (p : PendingRequest) (g : TelegramGate)
    → Settled ref p g
    → Settled ref p (deliver cs g)
deliver-Settled [] ref p g v = v
deliver-Settled ((d, now) ∷ cs) ref p g v =
    deliver-Settled cs ref p (process_callback d now g)
      (unfold apply in apply_rule (Settled-Rules ref p (calls_back d now)) g tt v)

module _ (u : UuidLibrary) (mac : Mac) (s : Sender) where
  -- The buttons carry what the gate signs.
  message_data :
      (device : Device) (id : Bytes) (created_at : ℕ) (m : Message) (a : CallbackAction)
      → device.uuid ≡ u.to_string id
      → is_known a ≡ true
      → approval_message u mac s device created_at ≡ some m
      → data_of a m ≡ encode_callback u (button u mac s.hmac_key id a (pos created_at))
  unfolding approval_message
  message_data device id created_at m approve e k h =
      elim (Bool-cases (ltb (length device.uuid) 8)) [
        | inl y ↦ absurd (cc (rw y at h))
        | inr n ↦ rw (← e) (sym (ap (data_of approve) (message_eq (rw n at h))))
      ]
  message_data device id created_at m deny e k h = elim (Bool-cases (ltb (length device.uuid) 8)) [
    | inl y ↦ absurd (cc (rw y at h))
    | inr n ↦ rw (← e) (sym (ap (data_of deny) (message_eq (rw n at h))))
  ]
  message_data device id created_at m (other_action t) e k h = absurd (ground arith)

  -- The message is made for every canonical UUID.
  pub message_made :
      (device : Device) (id : Bytes) (created_at : ℕ)
      → IsUuidLibrary u
      → length id ≡ 16
      → device.uuid ≡ u.to_string id
      → (m : Message) × (approval_message u mac s device created_at ≡ some m)
  unfolding approval_message
  message_made device id created_at lib l e =
      let n : ltb (length device.uuid) 8 ≡ false = rw (e, lib.length-to_string id l) refl in
      rw n (_, refl)

  handle_updates-append :
      (xs ys : List (Update × Clock)) (g : TelegramGate)
      → handle_updates u mac s.hmac_key (xs ++ ys) g
        ≡ handle_updates u mac s.hmac_key ys (handle_updates u mac s.hmac_key xs g)
  unfolding handle_updates
  handle_updates-append [] ys g = refl
  handle_updates-append ((up, now) ∷ xs) ys g =
      handle_updates-append xs ys (handle_update u mac s.hmac_key up up.callback_query now g)

  -- The rest of a batch leaves a decided request as it is.
  updates-Settled :
      (ups : List (Update × Clock)) (ref : ℕ) (p : PendingRequest) (g : TelegramGate)
      → Settled ref p g
      → Settled ref p (handle_updates u mac s.hmac_key ups g)
  updates-Settled ups ref p g v =
      let cs = accepted u mac s.hmac_key g.cfg ups in
      subst (Settled ref p) (sym (batch_refines u mac s.hmac_key ups g)) (
        offset-Settled (newest g.last_update_id ups) ref p (deliver cs g)
          (deliver-Settled cs ref p g v))

  update_processed :
      (up : Update) (cb : CallbackQuery) (now : Clock) (rest : List (Update × Clock))
      (g : TelegramGate) (d : CallbackData)
      → up.callback_query ≡ some cb
      → validate_callback g.cfg cb ≡ true
      → decoded u mac s.hmac_key cb now g ≡ ok d
      → handle_updates u mac s.hmac_key ((up, now) ∷ rest) g
        ≡ handle_updates u mac s.hmac_key rest
            (process_callback d now.processing (record g { last_update_id = raised up g }))
  unfolding handle_updates handle_update
  update_processed up cb now rest g d q valid e = rw q (
      ap (handle_updates u mac s.hmac_key rest) (
        ap (handle_query u mac s.hmac_key cb now) (advance-raised up g)
        ∙ query_processed u mac s.hmac_key cb now (record g { last_update_id = raised up g }) d
            valid e))

  -- The two buttons of a prompt for an open request work, wherever in a batch of updates the press of
  -- one stands. Say that the operator's callback carries the data of a button of the message that
  -- sendApprovalMessage makes for the request; and that, once the updates before it are handled, the
  -- gate is not closed, its map tracks its requests and has this one for the device, and the prompt is
  -- not stale. Then getUpdates returns no error for the batch, and after it and any further run that
  -- does not close the gate the request's channel is closed and a waiter that it wakes is told the
  -- decision of that button. The device's UUID is canonical, the creation time is that of an int64,
  -- and the UUID library and the MAC keep their laws.
  pub press_decides :
      (g reached : TelegramGate) (before : List (Update × Clock)) (up : Update) (now : Clock)
      (rest : List (Update × Clock)) (cb : CallbackQuery) (ref : ℕ) (id : Bytes)
      (a : CallbackAction) (m : Message) (es : List Event) (h : TelegramGate)
      → IsUuidLibrary u
      → IsMac mac
      → length id ≡ 16
      → IsBytes id
      → handle_updates u mac s.hmac_key before g ≡ reached
      → Tracks reached
      → reached.closed ≡ false
      → lookup (u.to_string id) reached.pending_requests ≡ some ref
      → InRange (pos (reached.heap ref).created_at)
      → approval_message u mac s (reached.heap ref).device (reached.heap ref).created_at ≡ some m
      → is_known a ≡ true
      → up.callback_query ≡ some cb
      → validate_callback reached.cfg cb ≡ true
      → cb.data_text ≡ data_of a m
      → is_stale
          (pos (reached.heap ref).created_at)
          now.decoding.after_at
          now.decoding.since_at
          reached.cfg.approval_ttl
        ≡ false
      → is_stale
          (pos (reached.heap ref).created_at)
          now.processing.after_at
          now.processing.since_at
          reached.cfg.approval_ttl
        ≡ false
      → Run (handle_updates u mac s.hmac_key (before ++ (up, now) ∷ rest) g) es h
      → h.closed ≡ false
      → (get_updates u mac s.hmac_key (replied 200 (some (true, before ++ (up, now) ∷ rest))) g
          ≡ ok (handle_updates u mac s.hmac_key (before ++ (up, now) ∷ rest) g))
        × ((h.heap ref).done ≡ true)
        × ((wake false ref h).0 ≡ decided (decision_of a))
  unfolding get_updates
  press_decides g reached before up now rest cb ref id a m es h lib mc l b at' v o p r msg k q valid
        w d t run c =
      let ts = pos (reached.heap ref).created_at in
      let d' = button u mac s.hmac_key id a ts in
      let trip =
        (button_round_trip u mac s.hmac_key id a ts reached.cfg.approval_ttl now.decoding.after_at
          now.decoding.since_at lib mc l b r k d).0 in
      let text =
        w
        ∙ message_data (reached.heap ref).device id (reached.heap ref).created_at m a
            (v.mapped (u.to_string id) ref p).1 k msg in
      let start = record reached { last_update_id = raised up reached } in
      let settled = updates-Settled rest ref _ (process_callback d' now.processing start) (
        callback_effect start ref d' now.processing (advance-Tracks (raised up reached) reached v) o
          k t p refl) in
      let e =
        handle_updates-append before ((up, now) ∷ rest) g
        ∙ (ap (handle_updates u mac s.hmac_key ((up, now) ∷ rest)) at'
            ∙ update_processed up cb now rest reached d' q valid (rw text trip)) in
      let z = Run_rule (Settled-Rules ref _) (subst (Settled ref _) (sym e) settled) run in
      (refl, z.is_done, wake_settled h ref z.tracks c z.is_done ∙ ap decided z.same_decision)
