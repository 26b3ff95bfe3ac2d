-- ===== src/Gate/Prompts.antt =====
-- sendApprovalMessage, telegramTransportError and pollLoop of internal/gate/telegram.go. The bodies
-- of the requests are records in place of their JSON.
pub mod Pressed
pub mod Polled
use azath.Prelude.{
  Result, ok, err, ltb, ◌==◌, if◌then◌else◌, length, take, Text, Bytes, codes, ℕ, Bool, true, false,
  not, Option, none, some, List, [], ◌∷◌, ◌++◌,
}
use azath.Prelude.Int.{ℤ, pos}
use azath.Uuid.{UuidLibrary}
use azath.Gate.{Device, TelegramGate}
use azath.Gate.Callbacks.{CallbackAction, CallbackData, approve, deny}
use azath.Gate.Codec.{Mac, sign, encode_callback}
use azath.Gate.Updates.{Fetched, PollError, get_updates}

-- What the gate keeps for its requests and nowhere else: the texts of telegramGateConfig, the base
-- of the API, and the key of the signatures.
pub record Sender : Type 0 where
  pub server_name : Text
  pub bot_token : Bytes
  pub chat_id : Text
  pub api_base : Text
  pub hmac_key : Bytes

-- A button of the inline keyboard.
pub record Button : Type 0 where
  pub label : Text
  pub callback_data : Text

-- A request for sendMessage: its URL and its parameters.
pub record Message : Type 0 where
  pub url : Text
  pub chat_id : Text
  pub text : Text
  pub approve_button : Button
  pub deny_button : Button

-- The emoji of the message, in UTF-8.
abbrev lock_sign : Text
lock_sign = 240 ∷ 159 ∷ 148 ∷ 144 ∷ []

abbrev check_mark : Text
check_mark = 226 ∷ 156 ∷ 133 ∷ []

abbrev cross_mark : Text
cross_mark = 226 ∷ 157 ∷ 140 ∷ []

-- The text of the message; `id` is the start of the UUID.
abbrev message_text : Text → Text → Text → Text
message_text server name id =
    lock_sign
    ++ (codes " Azath Unseal Request"
        ++ (10
            ∷ 10
            ∷ (codes "Server: "
                ++ (server
                    ++ (10
                        ∷ (codes "Device: "
                            ++ (name ++ (10 ∷ (codes "UUID: " ++ (id ++ codes "..."))))))))))

-- createdAt.UnixNano(), which is exact for the times of an int64.
abbrev pub unix_nano : ℕ → ℤ
unix_nano created_at = pos created_at

module _ (u : UuidLibrary) (mac : Mac) (s : Sender) where
  -- The data of one of the two buttons.
  abbrev signed : Device → CallbackAction → ℕ → CallbackData
  signed device action created_at =
      let d : CallbackData = record {
        device_uuid = device.uuid;
        action = action;
        timestamp = unix_nano created_at;
        token = [];
      } in
      record d { token = sign mac s.hmac_key d }

  -- What sendApprovalMessage sends; none for the panic of device.UUID[:8] on a shorter text.
  unfoldable pub approval_message : Device → ℕ → Option Message
  approval_message device created_at =
      if ltb (length device.uuid) 8
      then none
      else some (record {
        url = s.api_base ++ (codes "/bot" ++ (s.bot_token ++ codes "/sendMessage"));
        chat_id = s.chat_id;
        text = message_text s.server_name device.name (take 8 device.uuid);
        approve_button = record {
          label = check_mark ++ codes " Approve";
          callback_data = encode_callback u (signed device approve created_at);
        };
        deny_button = record {
          label = cross_mark ++ codes " Deny";
          callback_data = encode_callback u (signed device deny created_at);
        };
      })

-- What an error of the HTTP client is, to errors.Is: the context's cancellation, its deadline, or
-- something else.
pub data TransportError : Type 0 where
  canceled_error deadline_exceeded transport_failure : TransportError

-- telegramTransportError; the arguments say what errors.Is answers for the two errors.
unfoldable pub telegram_transport_error : Bool → Bool → TransportError
telegram_transport_error is_canceled is_deadline =
    if is_canceled
    then canceled_error
    else if is_deadline
    then deadline_exceeded
    else transport_failure

pub data SendError : Type 0 where
  request_failed response_not_decoded not_accepted : SendError
  sending_failed : TransportError → SendError
  bad_status : ℕ → SendError

-- What the HTTP client gives: no request, no response, with what errors.Is answers, or a status and
-- the field "ok" of the body, none if the body is not decoded.
pub data Response : Type 0 where
  no_request : Response
  no_response : Bool → Bool → Response
  responds : ℕ → Option Bool → Response

body_error : Option Bool → Option SendError
body_error none = some response_not_decoded
body_error (some accepted) = if not accepted then some not_accepted else none

-- The error of sendApprovalMessage, after the message has been made.
unfoldable pub send_error : Response → Option SendError
unfolding body_error
send_error no_request = some request_failed
send_error (no_response c d) = some (sending_failed (telegram_transport_error c d))
send_error (responds status body) =
    if not (status == 200) then some (bad_status status) else body_error body

-- Polling --------------------------------------------------------------------------------------

-- What one round of pollLoop meets: whether its context is done at the start, what getUpdates is
-- given, whether the context is done before the delay is over, and what the other goroutines do to
-- the gate in the meantime.
pub record Round : Type 0 where
  pub is_done : Bool
  pub fetched : Fetched
  pub is_interrupted : Bool
  pub meanwhile : TelegramGate → TelegramGate

-- The gate at the end, the delays in seconds, and whether the loop has returned.
pub record Polling : Type 0 where
  pub gate : TelegramGate
  pub delays : List ℕ
  pub has_returned : Bool

abbrev pub returned : TelegramGate → Polling
returned g = record { gate = g; delays = []; has_returned = true }

abbrev pub after_delay : ℕ → Polling → Polling
after_delay seconds p = record p { delays = seconds ∷ p.delays }

-- The gate after getUpdates, which leaves it alone on an error, and the delay that follows.
unfoldable pub polled : Result PollError TelegramGate → TelegramGate → TelegramGate × ℕ
polled (err e) g = (g, 5)
polled (ok g') g = (g', 1)

module _ (u : UuidLibrary) (mac : Mac) (hmac_key : Bytes) where
  -- pollLoop, for the rounds that there are.
  unfoldable pub poll_loop : List Round → TelegramGate → Polling
  poll_loop [] g = record { gate = g; delays = []; has_returned = false }
  poll_loop (r ∷ rs) g =
      let (g', seconds) = polled (get_updates u mac hmac_key r.fetched g) g in
      let rest = poll_loop rs (r.meanwhile g') in
      if r.is_done
      then returned g
      else after_delay seconds (if r.is_interrupted then returned g' else rest)
