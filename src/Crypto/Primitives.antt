-- ===== src/Crypto/Primitives.antt =====
-- What internal/crypto uses of crypto/aes, crypto/cipher and golang.org/x/crypto/hkdf.
use azath.Prelude.{length, Text, Bytes, ℕ, ◌+◌, ◌≡◌, Bool, Option, some}

-- Cipher values are identified with the key bytes that they were made from: `gcm_seal key` is the
-- Seal method of the AEAD over that key.
pub record Primitives : Type 0 where
  -- HKDF-SHA256(key, nil, info), the first n bytes; none when the reader fails
  pub hkdf : Bytes → Text → ℕ → Option Bytes
  -- aes.NewCipher and cipher.NewGCM: true when they return no error
  pub new_cipher : Bytes → Bool
  pub new_gcm : Bytes → Bool
  -- AEAD.Seal and AEAD.Open: key, nonce, text, additional data
  pub gcm_seal : Bytes → Bytes → Bytes → Bytes → Bytes
  pub gcm_open : Bytes → Bytes → Bytes → Bytes → Option Bytes

-- Their documented behaviour.
pub record IsLawful (c : Primitives) : Type 0 where
  pub length-hkdf :
      (key : Bytes) (info : Text) (n : ℕ) (out : Bytes)
      → c.hkdf key info n ≡ some out
      → length out ≡ n
  pub length-gcm_open :
      (key nonce sealed aad plain : Bytes)
      → c.gcm_open key nonce sealed aad ≡ some plain
      → length sealed ≡ length plain + 16
  pub length-gcm_seal :
      (key nonce plain aad : Bytes) → length (c.gcm_seal key nonce plain aad) ≡ length plain + 16
  pub open-seal :
      (key nonce plain aad : Bytes)
      → c.gcm_open key nonce (c.gcm_seal key nonce plain aad) aad ≡ some plain
