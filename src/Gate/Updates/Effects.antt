-- ===== src/Gate/Updates/Effects.antt =====
-- What a batch of updates does to the gate (getUpdates of internal/gate/telegram.go).
use azath.Prelude.{
  Result, ok, err, if◌then◌else◌, Bool-cases, Option-cases, is_some, Bytes, ◌≡◌, refl, ap, ◌∙◌, inl,
  inr, true, List, [], ◌∷◌,
}
use azath.Prelude.Int.{ℤ, int_lt}
use azath.Uuid.{UuidLibrary}
use azath.Gate.{TelegramGate, TelegramGateConfig}
use azath.Gate.Requests.{release_send, close_end, sweep, create}
use azath.Gate.Callbacks.{CallbackData, Readings, process_callback}
use azath.Gate.Codec.{Mac, CallbackError}
use azath.Gate.Steps.{Rules, apply, Event, calls_back}
use azath.Gate.Steps.Induction.{apply_rule}
use azath.Gate.Updates.{
  process_decoded, CallbackQuery, Update, Clock, validate_callback, advance, decoded, handle_query,
  handle_update, handle_updates,
}

-- A reference for the offset: the largest update id of the callback queries.
abbrev pub newest : ℤ → List (Update × Clock) → ℤ
newest top [] = top
newest top ((up, now) ∷ rest) =
    let counted = newest (if int_lt top up.update_id then up.update_id else top) rest in
    let skipped = newest top rest in if is_some up.callback_query then counted else skipped

abbrev pub Same : ℤ → TelegramGateConfig → TelegramGate → Type 0
Same top cfg g = (g.last_update_id ≡ top) × (g.cfg ≡ cfg)

Same-Rules : (top : ℤ) (cfg : TelegramGateConfig) (e : Event) → Rules (Same top cfg) e
Same-Rules top cfg e = record {
  on_sweep = λ g now h. unfold sweep in h;
  on_join = λ g ref room h. h;
  on_create = λ g device now o l room h. unfold create in h;
  on_lower = λ g ref h. h;
  on_forget = λ g uuid h. h;
  on_release = λ g h. unfold release_send in h;
  on_finish = λ g ref d f why h. h;
  on_cache = λ g c now a room h. h;
  on_close = λ g h. h;
  on_clear = λ g c h. unfold close_end in h;
}

abbrev pub raised : Update → TelegramGate → ℤ
raised up g = if int_lt g.last_update_id up.update_id then up.update_id else g.last_update_id

pub advance-raised :
    (up : Update) (g : TelegramGate)
    → advance up.update_id g ≡ record g { last_update_id = raised up g }
advance-raised up g = elim (Bool-cases (int_lt g.last_update_id up.update_id)) [
  | inl later ↦ rw later refl
  | inr earlier ↦ rw earlier refl
]

-- A callback changes neither the offset nor the configuration.
pub process_callback-Same :
    (d : CallbackData) (now : Readings) (g : TelegramGate)
    → Same g.last_update_id g.cfg (process_callback d now g)
process_callback-Same d now g =
    unfold apply in
    apply_rule (Same-Rules g.last_update_id g.cfg (calls_back d now)) g tt (refl, refl)

module _ (u : UuidLibrary) (mac : Mac) (hmac_key : Bytes) where
  pub query-Same :
      (cb : CallbackQuery) (now : Clock) (g : TelegramGate)
      → Same g.last_update_id g.cfg (handle_query u mac hmac_key cb now g)
  unfolding handle_query process_decoded
  query-Same cb now g = elim (Bool-cases (validate_callback g.cfg cb)) [
    | inr bad ↦ rw bad (refl, refl)
    | inl good ↦ rw good (run (decoded u mac hmac_key cb now g))
  ]
    where
      run :
          (r : Result CallbackError CallbackData)
          → Same g.last_update_id g.cfg (process_decoded r now.processing g)
      run (err e) = (refl, refl)
      run (ok d) = process_callback-Same d now.processing g

  queried_Same :
      (up : Update) (cb : CallbackQuery) (now : Clock) (g : TelegramGate)
      → Same (raised up g) g.cfg (handle_query u mac hmac_key cb now (advance up.update_id g))
  queried_Same up cb now g =
      rw (advance-raised up g) (query-Same cb now (record g { last_update_id = raised up g }))

  -- A callback of the authorised user in the authorised chat is processed if its data decodes.
  pub query_processed :
      (cb : CallbackQuery) (now : Clock) (g : TelegramGate) (d : CallbackData)
      → validate_callback g.cfg cb ≡ true
      → decoded u mac hmac_key cb now g ≡ ok d
      → handle_query u mac hmac_key cb now g ≡ process_callback d now.processing g
  unfolding handle_query process_decoded
  query_processed cb now g d valid e = rw valid (rw e refl)

  -- After a batch the offset is the largest id among the old offset and the batch's callback
  -- queries, and the configuration is as it was.
  pub offset_newest :
      (ups : List (Update × Clock)) (g : TelegramGate)
      → ((handle_updates u mac hmac_key ups g).last_update_id ≡ newest g.last_update_id ups)
        × ((handle_updates u mac hmac_key ups g).cfg ≡ g.cfg)
  unfolding handle_updates handle_update
  offset_newest [] g = (refl, refl)
  offset_newest ((up, now) ∷ rest) g = elim (Option-cases up.callback_query) [
    | inl none_here ↦ rw none_here (offset_newest rest g)
    | inr (cb, here) ↦ rw here (
        let (top, cfg) = queried_Same up cb now g in
        let (rest_top, rest_cfg) =
          offset_newest rest (handle_query u mac hmac_key cb now (advance up.update_id g)) in
        (rest_top ∙ ap (λ t. newest t rest) top, rest_cfg ∙ cfg))
  ]
