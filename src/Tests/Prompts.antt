-- ===== src/Tests/Prompts.antt =====
-- The prompt of a device, from its message to the operator's press of a button, at concrete inputs.
use azath.Prelude.{
  ok, replicate, text_eq, codes, lookup, insert, remove, keep, ◌≡◌, refl, true, false, Option, none,
  some, List, [], ◌∷◌, ◌++◌, arith,
}
use azath.Prelude.Int.{pos, negsuc}
use azath.Gate.{TelegramGate, new, approved}
use azath.Gate.Requests.{wake, decided}
use azath.Gate.Callbacks.{Readings, is_stale, approve}
use azath.Gate.Updates.{
  CallbackQuery, Update, Clock, validate_callback, handle_query, handle_update, handle_updates,
  get_updates, transport_failed, failed, replied,
}
use azath.Gate.Steps.{apply, enters, start, next}
use azath.Gate.Pointers.{Tracks, Run-Tracks}
use azath.Gate.Prompts.{Sender, Message, Round, approval_message, poll_loop}
use azath.Gate.Prompts.Pressed.{data_of, press_decides}
use azath.Gate.Prompts.Polled.{HasPolled, poll_loop-HasPolled}
use azath.Tests.Fixtures.{
  device, toy_uuid, toy_uuid-IsUuidLibrary, toy_mac, toy_mac-IsMac, nas_bits, nas_uuid, gate_config,
}

abbrev sender : Sender
sender = record {
  server_name = codes "tower";
  bot_token = codes "12345:token";
  chat_id = codes "-100";
  api_base = codes "https://api.telegram.org";
  hmac_key = replicate 32 6;
}

abbrev waiting : TelegramGate
waiting = apply (enters false device 100) (new gate_config 60)

waiting-Tracks : Tracks waiting
waiting-Tracks = Run-Tracks gate_config 60 (next (enters false device 100) start tt)

waiting_open :
    (waiting.closed ≡ false)
    × (lookup nas_uuid waiting.pending_requests ≡ some 0)
    × ((waiting.heap 0).device ≡ device)
    × ((waiting.heap 0).created_at ≡ 100)
    × (waiting.cfg ≡ gate_config)
unfolding apply azath.Gate.Requests.enter new lookup azath.Gate.Requests.sweep keep
    azath.Gate.Requests.is_limited azath.Gate.Requests.join azath.Gate.Requests.create
    azath.Gate.update insert text_eq
waiting_open = (refl, refl, refl, refl, refl)

abbrev or_blank : Option Message → Message
or_blank none = record {
  url = [];
  chat_id = [];
  text = [];
  approve_button = record { label = []; callback_data = [] };
  deny_button = record { label = []; callback_data = [] };
}
or_blank (some m) = m

abbrev message : Message
message =
    or_blank
      (approval_message toy_uuid toy_mac sender (waiting.heap 0).device (waiting.heap 0).created_at)

made :
    approval_message toy_uuid toy_mac sender (waiting.heap 0).device (waiting.heap 0).created_at
    ≡ some message
unfolding approval_message apply azath.Gate.Requests.enter new lookup azath.Gate.Requests.sweep keep
    azath.Gate.Requests.is_limited azath.Gate.Requests.join azath.Gate.Requests.create
    azath.Gate.update
made = refl

abbrev readings : Readings
readings = record { after_at = 110; since_at = 111; cache_at = 112 }

abbrev clock : Clock
clock = record { decoding = readings; processing = readings }

abbrev press : CallbackQuery
press = record { from_id = pos 12345; chat_id = negsuc 99; data_text = data_of approve message }

abbrev update_5 : Update
update_5 = record { update_id = pos 5; callback_query = some press }

-- A text message in front of the press, and behind it a press by somebody else.
abbrev before : List (Update × Clock)
before = (record { update_id = pos 4; callback_query = none }, clock) ∷ []

abbrev rest : List (Update × Clock)
rest =
    (record { update_id = pos 6; callback_query = some (record press { from_id = pos 1 }) }, clock)
    ∷ []

abbrev pressed : TelegramGate
pressed =
    handle_updates toy_uuid toy_mac sender.hmac_key (before ++ (update_5, clock) ∷ rest) waiting

reached : handle_updates toy_uuid toy_mac sender.hmac_key before waiting ≡ waiting
unfolding handle_updates azath.Gate.Updates.handle_update
reached = refl

still_open : pressed.closed ≡ false
unfolding handle_updates azath.Gate.Updates.handle_update azath.Gate.Updates.handle_query
    validate_callback apply azath.Gate.Requests.enter new lookup azath.Gate.Requests.sweep keep
    azath.Gate.Requests.is_limited azath.Gate.Requests.join azath.Gate.Requests.create
    azath.Gate.update insert text_eq approval_message azath.Gate.Codec.sign azath.Gate.Codec.decimal
    azath.Gate.Codec.digits azath.Gate.Codec.encode_callback azath.Gate.Codec.decode_callback
    azath.Gate.Codec.put_u64_be azath.Gate.Codec.u64_be azath.Gate.Codec.check_callback is_stale
    azath.Gate.Callbacks.process_callback azath.Gate.Callbacks.process_pending
    azath.Gate.Callbacks.record_action azath.Gate.Requests.finish_pending remove azath.Base64.encode
    azath.Base64.decode
still_open = refl

fresh : is_stale (pos 100) 110 111 gate_config.approval_ttl ≡ false
unfolding is_stale
fresh = refl

valid : validate_callback waiting.cfg press ≡ true
unfolding validate_callback apply azath.Gate.Requests.enter new lookup azath.Gate.Requests.sweep
    keep azath.Gate.Requests.is_limited azath.Gate.Requests.join azath.Gate.Requests.create
    azath.Gate.update
valid = refl

press_decides_example :
    (get_updates toy_uuid toy_mac sender.hmac_key
        (replied 200 (some (true, before ++ (update_5, clock) ∷ rest)))
        waiting
      ≡ ok pressed)
    × ((pressed.heap 0).done ≡ true)
    × ((wake false 0 pressed).0 ≡ decided approved)
press_decides_example =
    press_decides toy_uuid toy_mac sender waiting waiting before update_5 clock rest press 0
      nas_bits approve message [] pressed toy_uuid-IsUuidLibrary toy_mac-IsMac refl (omega arith)
      reached waiting-Tracks waiting_open.0 waiting_open.1 (rw (waiting_open.3) (omega arith)) made
      refl refl valid refl (rw (waiting_open.3, waiting_open.4) fresh)
      (rw (waiting_open.3, waiting_open.4) fresh) start still_open

-- A failed poll, a good one, and one during whose delay the gate is closed.
abbrev rounds : List Round
rounds =
    record {
      is_done = false;
      fetched = failed transport_failed;
      is_interrupted = false;
      meanwhile = λ g. g;
    }
    ∷ record {
      is_done = false;
      fetched = replied 200 (some (true, (update_5, clock) ∷ []));
      is_interrupted = false;
      meanwhile = λ g. g;
    }
    ∷ record {
      is_done = false;
      fetched = replied 502 none;
      is_interrupted = true;
      meanwhile = λ g. g;
    }
    ∷ []

poll_loop-HasPolled_example :
    HasPolled rounds (poll_loop toy_uuid toy_mac sender.hmac_key rounds waiting)
poll_loop-HasPolled_example = poll_loop-HasPolled toy_uuid toy_mac sender.hmac_key rounds waiting
