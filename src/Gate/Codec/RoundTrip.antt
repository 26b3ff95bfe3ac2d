-- ===== src/Gate/Codec/RoundTrip.antt =====
-- The buttons of a prompt: what encodeCallbackData writes, decodeCallbackData reads back
-- (internal/gate/telegram.go).
use mathlib.Core.List.{append_assoc}
use azath.Prelude.{
  Result, ok, ==_iff, length, take, drop, length-append, length-take, take-append, drop-append,
  All-append, All-take, text_eq_refl, Text, Bytes, IsBytes, ℕ, ◌+◌, ◌*◌, ◌/◌, ◌^◌, ◌<◌, ◌≡◌, refl,
  sym, ap, ◌∙◌, true, false, some, [], ◌∷◌, ◌++◌, arith,
}
use azath.Prelude.Int.{ℤ, pos, negsuc}
use azath.Uuid.{UuidLibrary, IsUuidLibrary}
use azath.Base64
use azath.Base64.RoundTrip.{decode-encode, length-encode}
use azath.Crypto.Words.{u64_mod}
use azath.Gate.Callbacks.{
  CallbackAction, CallbackData, is_stale, is_known, approve, deny, other_action,
}
use azath.Gate.Codec.{
  action_byte, fields, Mac, IsMac, decimal, action_text, sign, to_u64, of_u64, put_u64_be, u64_be,
  encode_callback, CallbackError, check_callback, decode_callback,
}

-- The range of int64.
abbrev pub InRange : ℤ → Type 0
InRange (pos n) = n < 2 ^ 63
InRange (negsuc n) = n < 2 ^ 63

of_u64-to_u64 : (t : ℤ) → InRange t → of_u64 (to_u64 t) ≡ t
of_u64-to_u64 (pos n) h = ground arith
of_u64-to_u64 (negsuc n) h = ground arith

to_u64-lt : (t : ℤ) → to_u64 t < u64_mod
to_u64-lt (pos n) = omega arith
to_u64-lt (negsuc n) = omega arith

u64_be-put_u64_be : (n : ℕ) → n < u64_mod → u64_be 0 (put_u64_be n) ≡ n
unfolding u64_be put_u64_be
u64_be-put_u64_be n h = omega arith

length-put_u64_be : (n : ℕ) → length (put_u64_be n) ≡ 8
unfolding put_u64_be
length-put_u64_be n = refl

put_u64_be-IsBytes : (n : ℕ) → IsBytes (put_u64_be n)
unfolding put_u64_be
put_u64_be-IsBytes n = omega arith

-- The data of a button that the gate itself signs.
abbrev pub button : UuidLibrary → Mac → Bytes → Bytes → CallbackAction → ℤ → CallbackData
button u mac hmac_key id action ts =
    let d : CallbackData = record {
      device_uuid = u.to_string id;
      action = action;
      timestamp = ts;
      token = [];
    } in
    record d { token = sign mac hmac_key d }

module _ (u : UuidLibrary) (mac : Mac) (hmac_key id : Bytes) (ts : ℤ) where
  -- The 16 bytes of a signature.
  signature : CallbackAction → Bytes
  signature a =
      take 16 (mac hmac_key (u.to_string id ++ b':' ∷ (action_text a ++ b':' ∷ decimal ts)))

  raw : ℕ → CallbackAction → Bytes
  raw act a = id ++ (put_u64_be (to_u64 ts) ++ act ∷ signature a)

  length-signature : (a : CallbackAction) → IsMac mac → length (signature a) ≡ 16
  unfolding signature
  length-signature a m = omega (
    arith,
    length-take 16 (mac hmac_key (u.to_string id ++ b':' ∷ (action_text a ++ b':' ∷ decimal ts))),
    m.length-mac hmac_key (u.to_string id ++ b':' ∷ (action_text a ++ b':' ∷ decimal ts)),
  )

  length-raw : (act : ℕ) (a : CallbackAction) → IsMac mac → length id ≡ 16 → length (raw act a) ≡ 41
  unfolding raw
  length-raw act a m l = omega (
    arith,
    l,
    length-append id (put_u64_be (to_u64 ts) ++ act ∷ signature a),
    length-append (put_u64_be (to_u64 ts)) (act ∷ signature a),
    length-put_u64_be (to_u64 ts),
    length-signature a m,
  )

  raw-IsBytes :
      (act : ℕ) (a : CallbackAction) → IsMac mac → act < 256 → IsBytes id → IsBytes (raw act a)
  unfolding raw signature
  raw-IsBytes act a m h b =
      All-append (λ x. x < 256) id _ b
        (All-append (λ x. x < 256) (put_u64_be (to_u64 ts)) _ (put_u64_be-IsBytes (to_u64 ts))
          (h, All-take (λ x. x < 256) 16 _ (m.mac-IsBytes hmac_key _)))

  -- The three fields are where decodeCallbackData looks for them.
  raw_parts :
      (act : ℕ) (a : CallbackAction)
      → length id ≡ 16
      → (take 16 (raw act a) ≡ id)
        × (take 8 (drop 16 (raw act a)) ≡ put_u64_be (to_u64 ts))
        × (drop 24 (raw act a) ≡ act ∷ signature a)
  unfolding raw
  raw_parts act a l = (
    take-append 16 id _ l,
    ap (take 8) (drop-append 16 id _ l)
        ∙ take-append 8 (put_u64_be (to_u64 ts)) _ (length-put_u64_be (to_u64 ts)),
    ap (drop 24) (sym (append_assoc id (put_u64_be (to_u64 ts)) (act ∷ signature a)))
        ∙ drop-append 24 (id ++ put_u64_be (to_u64 ts)) _ (
            omega
              (arith, l, length-append id (put_u64_be (to_u64 ts)), length-put_u64_be (to_u64 ts))),
  )

  encode_known :
      (act : ℕ) (a : CallbackAction)
      → action_byte a ≡ some act
      → IsUuidLibrary u
      → IsMac mac
      → length id ≡ 16
      → IsBytes id
      → encode_callback u (button u mac hmac_key id a ts) ≡ Base64.encode (raw act a)
  unfolding encode_callback sign raw signature
  encode_known act a e lib m l b = rw (lib.parse-to_string id l b) (
      rw e (
        rw (decode-encode (signature a) (All-take (λ x. x < 256) 16 _ (m.mac-IsBytes hmac_key _)))
          (rw ((==_iff (length (signature a)) 16).1 (length-signature a m)) refl)))

  -- A known action byte selects its action.
  chosen :
      (check : CallbackData → Result CallbackError CallbackData) (uuid : Text) (act : ℕ)
      (a : CallbackAction) (sig : Bytes)
      → action_byte a ≡ some act
      → fields check uuid ts (act ∷ sig)
        ≡ check
            (record { device_uuid = uuid; action = a; timestamp = ts; token = Base64.encode sig })
  unfolding fields
  chosen check uuid act approve sig e = let h : act ≡ 1 = ground arith in rw h refl
  chosen check uuid act deny sig e = let h : act ≡ 2 = ground arith in rw h refl
  chosen check uuid act (other_action t) sig e = ground arith

  -- decodeCallbackData on a raw text of the right layout comes down to the checks on the fields.
  decode_raw :
      (act : ℕ) (a : CallbackAction) (ttl after_at since_at : ℕ)
      → action_byte a ≡ some act
      → IsMac mac
      → length id ≡ 16
      → IsBytes id
      → InRange ts
      → decode_callback u mac hmac_key ttl after_at since_at (Base64.encode (raw act a))
        ≡ check_callback mac hmac_key ttl after_at since_at (record {
          device_uuid = u.to_string id;
          action = a;
          timestamp = ts;
          token = Base64.encode (signature a);
        })
  unfolding decode_callback
  decode_raw act a ttl after_at since_at e m l b r =
      let (p, q, s) = raw_parts act a l in
      rw (decode-encode (raw act a) (raw-IsBytes act a m (small act a e) b)) (
        rw ((==_iff (length (raw act a)) 41).1 (length-raw act a m l)) (
          rw (p, q, s, u64_be-put_u64_be (to_u64 ts) (to_u64-lt ts), of_u64-to_u64 ts r)
            (chosen (check_callback mac hmac_key ttl after_at since_at) (u.to_string id) act a
              (signature a) e)))
    where
      small : (act : ℕ) (a : CallbackAction) → action_byte a ≡ some act → act < 256
      small act a e = ground arith

  checked :
      (a : CallbackAction) (ttl after_at since_at : ℕ)
      → is_stale ts after_at since_at ttl ≡ false
      → check_callback mac hmac_key ttl after_at since_at (button u mac hmac_key id a ts)
        ≡ ok (button u mac hmac_key id a ts)
  unfolding check_callback sign
  checked a ttl after_at since_at f =
      rw (text_eq_refl (sign mac hmac_key (button u mac hmac_key id a ts))) (rw f)

known_byte : (a : CallbackAction) → is_known a ≡ true → (act : ℕ) × (action_byte a ≡ some act)
known_byte approve k = (1, refl)
known_byte deny k = (2, refl)
known_byte (other_action t) k = absurd (ground arith)

-- The text of a button that signCallbackData signed has 55 characters, and decodeCallbackData
-- reads the button back from it, for a uuid of 16 bytes, a timestamp of an int64, either of the
-- two actions, and clock readings at which the prompt is neither in the future nor expired; the
-- UUID library and the MAC keep their laws.
pub button_round_trip :
    (u : UuidLibrary) (mac : Mac) (hmac_key id : Bytes) (a : CallbackAction) (ts : ℤ)
    (ttl after_at since_at : ℕ)
    → IsUuidLibrary u
    → IsMac mac
    → length id ≡ 16
    → IsBytes id
    → InRange ts
    → is_known a ≡ true
    → is_stale ts after_at since_at ttl ≡ false
    → (decode_callback u mac hmac_key ttl after_at since_at
          (encode_callback u (button u mac hmac_key id a ts))
        ≡ ok (button u mac hmac_key id a ts))
      × (length (encode_callback u (button u mac hmac_key id a ts)) ≡ 55)
unfolding signature sign
button_round_trip u mac hmac_key id a ts ttl after_at since_at lib m l b r k f =
    let (act, e) = known_byte a k in
    let enc = encode_known u mac hmac_key id ts act a e lib m l b in
    (
      rw enc (
          decode_raw u mac hmac_key id ts act a ttl after_at since_at e m l b r
          ∙ checked u mac hmac_key id ts a ttl after_at since_at f),
      rw enc (
          length-encode (raw u mac hmac_key id ts act a)
          ∙ ap (λ n. (n * 4 + 2) / 3) (length-raw u mac hmac_key id ts act a m l)),
    )
