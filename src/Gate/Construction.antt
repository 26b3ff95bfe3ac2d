-- ===== src/Gate/Construction.antt =====
-- NewTelegramGate and Check of internal/gate/telegram.go.
pub mod Accepted
pub mod Callers
use azath.Prelude.{
  Result, ok, err, ltb, leb, ◌==◌, if◌then◌else◌, length, Text, Bytes, ℕ, ◌+◌, ◌-◌, ◌*◌, ◌^◌, Bool,
  not, ◌&&◌, Option, none, some, List, [], ◌∷◌,
}
use azath.Prelude.Int.{ℤ, pos, negsuc, int_lt}
use azath.Uuid.{UuidLibrary}
use azath.Gate.{TelegramGate, Device, Decision, denied, new}
use azath.Gate.Requests.{Entry, enter}

-- The value of a text of decimal digits, after a prefix of value acc.
unfoldable pub decimal_value : ℕ → Text → Option ℕ
decimal_value acc [] = some acc
decimal_value acc (c ∷ cs) =
    let rest = decimal_value (acc * 10 + (c - 48)) cs in if leb 48 c && leb c 57 then rest else none

positive_of : Option ℕ → Option ℤ
positive_of none = none
positive_of (some n) = if ltb n (2 ^ 63) then some (pos n) else none

negative_of : Option ℕ → Option ℤ
negative_of none = none
negative_of (some n) =
    if n == 0 then some (pos 0) else if leb n (2 ^ 63) then some (negsuc (n - 1)) else none

unsigned : Text → Option ℕ
unfolding decimal_value
unsigned [] = none
unsigned (c ∷ cs) = decimal_value 0 (c ∷ cs)

-- strconv.ParseInt(s, 10, 64); none for its errors
unfoldable pub parse_int : Text → Option ℤ
unfolding unsigned positive_of negative_of
parse_int [] = none
parse_int (c ∷ cs) =
    if c == b'-'
    then negative_of (unsigned cs)
    else if c == b'+'
    then positive_of (unsigned cs)
    else positive_of (unsigned (c ∷ cs))

pub data NewGateError : Type 0 where
  server_name_required bot_token_required chat_id_required chat_id_not_numeric user_not_positive
        ttl_not_positive cache_ttl_negative key_failed :
      NewGateError

-- The arguments; `intervals` are those of the WithPromptRateLimit options, and `random_key` is what
-- rand.Read gives, none for its error.
pub record GateArguments : Type 0 where
  pub server_name : Text
  pub bot_token : Bytes
  pub chat_id : Text
  pub authorized_user_id : ℤ
  pub approval_ttl : ℤ
  pub approval_cache_ttl : ℤ
  pub intervals : List ℕ
  pub random_key : Option Bytes

-- The gate with its two secrets, which no stretch of the machine reads.
pub record NewGate : Type 0 where
  pub gate : TelegramGate
  pub bot_token : Bytes
  pub hmac_key : Bytes

abbrev pub five_minutes : ℕ
five_minutes = 300000000000

-- `for _, opt := range opts { opt(g) }`
abbrev pub interval_of : ℕ → List ℕ → ℕ
interval_of i [] = i
interval_of i (j ∷ js) = interval_of j js

abbrev pub magnitude : ℤ → ℕ
magnitude (pos n) = n
magnitude (negsuc n) = 0

with_key : GateArguments → ℤ → Option Bytes → Result NewGateError NewGate
with_key a chat none = err key_failed
with_key a chat (some key) = ok (record {
  gate =
      new
        (record {
          chat_id_int = chat;
          authorized_user_id = a.authorized_user_id;
          approval_ttl = magnitude a.approval_ttl;
          approval_cache_ttl = magnitude a.approval_cache_ttl;
        })
        (interval_of five_minutes a.intervals);
  bot_token = a.bot_token;
  hmac_key = key;
})

with_chat : GateArguments → Option ℤ → Result NewGateError NewGate
unfolding with_key
with_chat a none = err chat_id_not_numeric
with_chat a (some chat) =
    if not (int_lt (pos 0) a.authorized_user_id)
    then err user_not_positive
    else if not (int_lt (pos 0) a.approval_ttl)
    then err ttl_not_positive
    else if int_lt a.approval_cache_ttl (pos 0)
    then err cache_ttl_negative
    else with_key a chat a.random_key

-- NewTelegramGate
unfoldable pub new_telegram_gate : GateArguments → Result NewGateError NewGate
unfolding with_chat
new_telegram_gate a =
    if length a.server_name == 0
    then err server_name_required
    else if length a.bot_token == 0
    then err bot_token_required
    else if length a.chat_id == 0
    then err chat_id_required
    else with_chat a (parse_int a.chat_id)

-- What Check does before it waits: it answers, returns the context's error, or goes on.
pub data CheckStart : Type 0 where
  answers : Decision → CheckStart
  context_error : CheckStart
  goes_on : Entry → CheckStart

with_bits :
    UuidLibrary → Bool → Bool → Device → Option Bytes → ℕ → TelegramGate → CheckStart × TelegramGate
with_bits u ctx_err later_err device none now g = (answers denied, g)
with_bits u ctx_err later_err device (some bits) now g =
    let (entry, g') = enter later_err (record device { uuid = u.to_string bits }) now g in
    if ctx_err then (context_error, g) else (goes_on entry, g')

-- Check up to the select; the context is read twice.
unfoldable pub check :
    UuidLibrary → Bool → Bool → Device → ℕ → TelegramGate → CheckStart × TelegramGate
unfolding with_bits
check u ctx_err later_err device now g =
    with_bits u ctx_err later_err device (u.parse device.uuid) now g
