-- ===== src/Gate/Codec/Soundness.antt =====
-- decodeCallbackData takes nothing that the gate has not signed (internal/gate/telegram.go).
use azath.Prelude.{
  Result, ok, ◌==◌, Bool-cases, length, take, drop, text_eq, text_eq_iff, Text, Bytes, ℕ, ◌≡◌, refl,
  subst, inl, inr, true, false, Option, none, some, [], ◌∷◌, arith,
}
use azath.Prelude.Int.{ℤ}
use azath.Uuid.{UuidLibrary}
use azath.Base64
use azath.Gate.Callbacks.{CallbackData, is_stale, is_known, approve, deny}
use azath.Gate.Codec.{
  fields, raw_fields, Mac, sign, of_u64, u64_be, CallbackError, check_callback, decode_callback,
}

-- What the checks and the action byte leave of a text that decodes.
abbrev pub Sound : Mac → Bytes → ℕ → ℕ → ℕ → CallbackData → Type 0
Sound mac hmac_key ttl after_at since_at d =
    (d.token ≡ sign mac hmac_key d)
    × (is_known d.action ≡ true)
    × (is_stale d.timestamp after_at since_at ttl ≡ false)

module _ (mac : Mac) (hmac_key : Bytes) (ttl after_at since_at : ℕ) where
  check : CallbackData → Result CallbackError CallbackData
  check = check_callback mac hmac_key ttl after_at since_at

  check_ok :
      (c d : CallbackData)
      → is_known c.action ≡ true
      → check c ≡ ok d
      → Sound mac hmac_key ttl after_at since_at d
  unfolding check check_callback
  check_ok c d k h = elim (Bool-cases (text_eq c.token (sign mac hmac_key c))) [
    | inr bad ↦ absurd (ground arith)
    | inl good ↦ elim (Bool-cases (is_stale c.timestamp after_at since_at ttl)) [
      | inl old ↦ absurd (ground arith)
      | inr new ↦
          let e : c ≡ d = ground arith in
          subst (Sound mac hmac_key ttl after_at since_at) e
            ((text_eq_iff c.token (sign mac hmac_key c)).0 good, k, new)
    ]
  ]

  fields_ok :
      (uuid : Text) (ts : ℤ) (rest : Bytes) (d : CallbackData)
      → fields check uuid ts rest ≡ ok d
      → Sound mac hmac_key ttl after_at since_at d
  unfolding fields
  fields_ok uuid ts [] d h = absurd (ground arith)
  fields_ok uuid ts (act ∷ sig) d h = elim (Bool-cases (act == 1)) [
    | inl one ↦
        check_ok
          (record {
            device_uuid = uuid;
            action = approve;
            timestamp = ts;
            token = Base64.encode sig;
          })
          d refl (ground arith)
    | inr other ↦ elim (Bool-cases (act == 2)) [
      | inl two ↦
          check_ok
            (record {
              device_uuid = uuid;
              action = deny;
              timestamp = ts;
              token = Base64.encode sig;
            })
            d refl (ground arith)
      | inr bad ↦ absurd (ground arith)
    ]
  ]

  raw_ok :
      (u : UuidLibrary) (o : Option Bytes) (d : CallbackData)
      → raw_fields u check o ≡ ok d
      → Sound mac hmac_key ttl after_at since_at d
  unfolding raw_fields
  raw_ok u none d h = absurd (ground arith)
  raw_ok u (some raw) d h = elim (Bool-cases (length raw == 41)) [
    | inl good ↦
        fields_ok (u.to_string (take 16 raw)) (of_u64 (u64_be 0 (take 8 (drop 16 raw))))
          (drop 24 raw) d (ground arith)
    | inr bad ↦ absurd (ground arith)
  ]

-- What decodeCallbackData accepts carries the gate's own signature of its uuid, action and
-- timestamp, is an approval or a denial, and is neither of the future nor expired.
pub decoded-Sound :
    (u : UuidLibrary) (mac : Mac) (hmac_key : Bytes) (ttl after_at since_at : ℕ) (encoded : Text)
    (d : CallbackData)
    → decode_callback u mac hmac_key ttl after_at since_at encoded ≡ ok d
    → Sound mac hmac_key ttl after_at since_at d
unfolding decode_callback check
decoded-Sound u mac hmac_key ttl after_at since_at encoded d h =
    raw_ok mac hmac_key ttl after_at since_at u (Base64.decode encoded) d h
