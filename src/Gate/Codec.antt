-- ===== src/Gate/Codec.antt =====
-- signCallbackData, encodeCallbackData and decodeCallbackData of internal/gate/telegram.go.
pub mod RoundTrip
pub mod Soundness
use azath.Prelude.{
  Result, ok, err, ltb, ◌==◌, if◌then◌else◌, length, take, drop, text_eq, Text, Bytes, codes,
  IsBytes, ℕ, zero, suc, ◌+◌, ◌-◌, ◌*◌, ◌/◌, ◌%◌, ◌^◌, ◌≡◌, not, Option, none, some, [], ◌∷◌, ◌++◌,
}
use azath.Prelude.Int.{ℤ, pos, negsuc}
use azath.Uuid.{UuidLibrary}
use azath.Base64
use azath.Crypto.Words.{u64_mod}
use azath.Gate.Callbacks.{CallbackAction, approve, deny, other_action, CallbackData, is_stale}

-- HMAC-SHA256, of crypto/hmac and crypto/sha256: key and message.
abbrev pub Mac : Type 0
Mac = Bytes → Bytes → Bytes

-- Its documented behaviour: a sum is 32 bytes.
pub record IsMac (mac : Mac) : Type 0 where
  pub length-mac : (key msg : Bytes) → length (mac key msg) ≡ 32
  pub mac-IsBytes : (key msg : Bytes) → IsBytes (mac key msg)

-- The decimal digits of n in front of a text, the last one first, with fuel.
unfoldable pub digits : ℕ → ℕ → Text → Text
digits zero n acc = acc
digits (suc f) n acc =
    let rest = digits f (n / 10) ((n % 10 + 48) ∷ acc) in if ltb n 10 then (n + 48) ∷ acc else rest

-- The verb %d on an int64, which has 19 digits at most.
unfoldable pub decimal : ℤ → Text
unfolding digits
decimal (pos n) = digits 20 n []
decimal (negsuc n) = b'-' ∷ digits 20 (n + 1) []

abbrev pub action_text : CallbackAction → Text
action_text approve = codes "approve"
action_text deny = codes "deny"
action_text (other_action t) = t

-- signCallbackData
unfoldable pub sign : Mac → Bytes → CallbackData → Text
unfolding decimal
sign mac hmac_key d = Base64.encode (
    take 16
      (mac hmac_key (d.device_uuid ++ b':' ∷ (action_text d.action ++ b':' ∷ decimal d.timestamp))))

-- The bit pattern of an int64, and the int64 of a bit pattern.
abbrev pub to_u64 : ℤ → ℕ
to_u64 (pos n) = n % u64_mod
to_u64 (negsuc n) = u64_mod - 1 - n % u64_mod

abbrev pub of_u64 : ℕ → ℤ
of_u64 n = if ltb n (2 ^ 63) then pos n else negsuc (u64_mod - 1 - n)

-- binary.Encode and binary.Decode with binary.BigEndian
unfoldable pub put_u64_be : ℕ → Bytes
put_u64_be n =
    (n / 72057594037927936 % 256)
    ∷ (n / 281474976710656 % 256)
    ∷ (n / 1099511627776 % 256)
    ∷ (n / 4294967296 % 256)
    ∷ (n / 16777216 % 256)
    ∷ (n / 65536 % 256)
    ∷ (n / 256 % 256)
    ∷ (n % 256)
    ∷ []

unfoldable pub u64_be : ℕ → Bytes → ℕ
u64_be acc [] = acc
u64_be acc (b ∷ bs) = u64_be (acc * 256 + b) bs

abbrev action_byte : CallbackAction → Option ℕ
action_byte approve = some 1
action_byte deny = some 2
action_byte (other_action t) = none

with_signature : Bytes → ℕ → ℤ → Option Bytes → Text
with_signature id act ts none = []
with_signature id act ts (some signature) =
    if not (length signature == 16)
    then []
    else Base64.encode (id ++ (put_u64_be (to_u64 ts) ++ act ∷ signature))

with_action : Bytes → Option ℕ → CallbackData → Text
unfolding with_signature
with_action id none d = []
with_action id (some act) d = with_signature id act d.timestamp (Base64.decode d.token)

with_id : Option Bytes → CallbackData → Text
unfolding with_action
with_id none d = []
with_id (some id) d = with_action id (action_byte d.action) d

-- encodeCallbackData
unfoldable pub encode_callback : UuidLibrary → CallbackData → Text
unfolding with_id
encode_callback u d = with_id (u.parse d.device_uuid) d

pub data CallbackError : Type 0 where
  invalid_callback invalid_action invalid_signature callback_expired : CallbackError

-- The checks on the decoded fields.
unfoldable pub check_callback :
    Mac → Bytes → ℕ → ℕ → ℕ → CallbackData → Result CallbackError CallbackData
check_callback mac hmac_key ttl after_at since_at d =
    if not (text_eq d.token (sign mac hmac_key d))
    then err invalid_signature
    else if is_stale d.timestamp after_at since_at ttl
    then err callback_expired
    else ok d

-- The fields after the id: the timestamp and the bytes from raw[24] on.
fields :
    (CallbackData → Result CallbackError CallbackData)
    → Text
    → ℤ
    → Bytes
    → Result CallbackError CallbackData
fields check uuid ts [] = err invalid_callback
fields check uuid ts (act ∷ signature) =
    let with_act = λ (a : CallbackAction). check (record {
      device_uuid = uuid;
      action = a;
      timestamp = ts;
      token = Base64.encode signature;
    }) in
    if act == 1 then with_act approve else if act == 2 then with_act deny else err invalid_action

raw_fields :
    UuidLibrary
    → (CallbackData → Result CallbackError CallbackData)
    → Option Bytes
    → Result CallbackError CallbackData
unfolding fields u64_be
raw_fields u check none = err invalid_callback
raw_fields u check (some raw) =
    if not (length raw == 41)
    then err invalid_callback
    else fields check (u.to_string (take 16 raw)) (of_u64 (u64_be 0 (take 8 (drop 16 raw))))
        (drop 24 raw)

-- decodeCallbackData; the clock is read twice.
unfoldable pub decode_callback :
    UuidLibrary → Mac → Bytes → ℕ → ℕ → ℕ → Text → Result CallbackError CallbackData
unfolding raw_fields
decode_callback u mac hmac_key ttl after_at since_at encoded =
    raw_fields u (check_callback mac hmac_key ttl after_at since_at) (Base64.decode encoded)
