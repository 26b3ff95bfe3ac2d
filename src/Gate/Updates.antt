-- ===== src/Gate/Updates.antt =====
-- getUpdates and validateCallback of internal/gate/telegram.go.
pub mod Effects
pub mod Refinement
use azath.Prelude.{
  Result, ok, err, ◌==◌, if◌then◌else◌, Text, Bytes, ℕ, Bool, true, false, not, Option, none, some,
  List, [], ◌∷◌,
}
use azath.Prelude.Int.{ℤ, int_eq, int_lt}
use azath.Uuid.{UuidLibrary}
use azath.Gate.{TelegramGate, TelegramGateConfig}
use azath.Gate.Callbacks.{CallbackData, Readings, process_callback}
use azath.Gate.Codec.{Mac, CallbackError, decode_callback}

pub record CallbackQuery : Type 0 where
  pub from_id : ℤ
  pub chat_id : ℤ
  pub data_text : Text

pub record Update : Type 0 where
  pub update_id : ℤ
  pub callback_query : Option CallbackQuery

-- The clock readings of one update: those of decodeCallbackData and those of processCallback.
pub record Clock : Type 0 where
  pub decoding : Readings
  pub processing : Readings

pub data PollError : Type 0 where
  creating_failed transport_failed decoding_failed not_ok : PollError
  api_error : ℕ → PollError

-- What the HTTP client hands to getUpdates: a failure, or a status and the decoded body.
pub data Fetched : Type 0 where
  failed : PollError → Fetched
  replied : ℕ → Option (Bool × List (Update × Clock)) → Fetched

-- validateCallback
unfoldable pub validate_callback : TelegramGateConfig → CallbackQuery → Bool
validate_callback cfg cb =
    if not (int_eq cb.from_id cfg.authorized_user_id)
    then false
    else if not (int_eq cb.chat_id cfg.chat_id_int)
    then false
    else true

-- `if update.UpdateID > g.lastUpdateID { ... }`
abbrev pub advance : ℤ → TelegramGate → TelegramGate
advance id g = if int_lt g.last_update_id id then record g { last_update_id = id } else g

process_decoded : Result CallbackError CallbackData → Readings → TelegramGate → TelegramGate
process_decoded (err e) now g = g
process_decoded (ok d) now g = process_callback d now g

module _ (u : UuidLibrary) (mac : Mac) (hmac_key : Bytes) where
  -- What getUpdates reads from the data of a callback query.
  abbrev pub decoded : CallbackQuery → Clock → TelegramGate → Result CallbackError CallbackData
  decoded cb now g =
      decode_callback u mac hmac_key g.cfg.approval_ttl now.decoding.after_at now.decoding.since_at
        cb.data_text

  unfoldable pub handle_query : CallbackQuery → Clock → TelegramGate → TelegramGate
  unfolding process_decoded validate_callback
  handle_query cb now g =
      if not (validate_callback g.cfg cb)
      then g
      else process_decoded (decoded cb now g) now.processing g

  -- One round of the loop over the updates.
  unfoldable pub handle_update : Update → Option CallbackQuery → Clock → TelegramGate → TelegramGate
  unfolding handle_query
  handle_update up none now g = g
  handle_update up (some cb) now g = handle_query cb now (advance up.update_id g)

  unfoldable pub handle_updates : List (Update × Clock) → TelegramGate → TelegramGate
  unfolding handle_update
  handle_updates [] g = g
  handle_updates ((up, now) ∷ rest) g =
      handle_updates rest (handle_update up up.callback_query now g)

  handle_body : Option (Bool × List (Update × Clock)) → TelegramGate → Result PollError TelegramGate
  unfolding handle_updates
  handle_body none g = err decoding_failed
  handle_body (some (accepted, updates)) g =
      if not accepted then err not_ok else ok (handle_updates updates g)

  -- getUpdates, with the gate that it leaves; on an error the gate is as before.
  unfoldable pub get_updates : Fetched → TelegramGate → Result PollError TelegramGate
  unfolding handle_body
  get_updates (failed e) g = err e
  get_updates (replied status body) g =
      if not (status == 200) then err (api_error status) else handle_body body g
