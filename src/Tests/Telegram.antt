-- ===== src/Tests/Telegram.antt =====
-- The properties of the buttons and of the polling at concrete inputs.
use azath.Prelude.{ok, replicate, Bytes, ◌≡◌, refl, false, none, some, List, [], ◌∷◌, arith}
use azath.Prelude.Int.{pos, negsuc}
use azath.Gate.{TelegramGate, new}
use azath.Gate.Callbacks.{CallbackData, Readings, is_stale, approve}
use azath.Gate.Codec.{encode_callback, decode_callback}
use azath.Gate.Codec.RoundTrip.{button, button_round_trip}
use azath.Gate.Codec.Soundness.{Sound, decoded-Sound}
use azath.Gate.Updates.{Update, Clock, handle_updates}
use azath.Gate.Updates.Effects.{newest}
use azath.Gate.Updates.Refinement.{accepted, deliver, batch_refines}
use azath.Tests.Fixtures.{
  toy_uuid, toy_uuid-IsUuidLibrary, toy_mac, toy_mac-IsMac, nas_bits, gate_config,
}

abbrev key : Bytes
key = replicate 32 6

abbrev approve_button : CallbackData
approve_button = button toy_uuid toy_mac key nas_bits approve (pos 100)

fresh : is_stale (pos 100) 110 111 1000 ≡ false
unfolding is_stale
fresh = refl

button_read :
    decode_callback toy_uuid toy_mac key 1000 110 111 (encode_callback toy_uuid approve_button)
    ≡ ok approve_button
button_read =
    (button_round_trip toy_uuid toy_mac key nas_bits approve (pos 100) 1000 110 111
      toy_uuid-IsUuidLibrary toy_mac-IsMac refl (omega arith) (omega arith) refl fresh).0

decoded-Sound_example : Sound toy_mac key 1000 110 111 approve_button
decoded-Sound_example =
    decoded-Sound toy_uuid toy_mac key 1000 110 111 (encode_callback toy_uuid approve_button)
      approve_button button_read

abbrev gate : TelegramGate
gate = new gate_config 60

abbrev readings : Readings
readings = record { after_at = 110; since_at = 111; cache_at = 112 }

abbrev clock : Clock
clock = record { decoding = readings; processing = readings }

-- A text message, a callback of a stranger, and the operator's approval.
abbrev batch : List (Update × Clock)
batch =
    (record { update_id = pos 9; callback_query = none }, clock)
    ∷ (
      record {
        update_id = pos 7;
        callback_query = some (record { from_id = pos 1; chat_id = negsuc 99; data_text = [] });
      },
      clock,
    )
    ∷ (
      record {
        update_id = pos 8;
        callback_query = some (record {
          from_id = pos 12345;
          chat_id = negsuc 99;
          data_text = encode_callback toy_uuid approve_button;
        });
      },
      clock,
    )
    ∷ []

batch_refines_example :
    handle_updates toy_uuid toy_mac key batch gate
    ≡ record (deliver (accepted toy_uuid toy_mac key gate.cfg batch) gate) {
      last_update_id = newest gate.last_update_id batch;
    }
batch_refines_example = batch_refines toy_uuid toy_mac key batch gate
