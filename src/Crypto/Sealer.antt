-- ===== src/Crypto/Sealer.antt =====
-- internal/crypto/aes.go: the sealer. A method that takes the lock is one atomic step; a method
-- that changes the sealer returns the new one. Buffers are their contents.
pub mod Live
pub mod Format
pub mod Nonces
pub mod Destroyed
use azath.Prelude.{
  Result, ok, err, ltb, ◌==◌, if◌then◌else◌, length, take, drop, replicate, text_eq, Text, Bytes,
  codes, zero_bytes, ℕ, ◌+◌, ◌%◌, Bool, true, false, not, Option, none, some, [], ◌++◌,
}
use azath.Crypto.Primitives.{Primitives}
use azath.Crypto.Words.{u64_mod, put_u64_le, u64_le}

abbrev pub key_size : ℕ
key_size = 32

abbrev pub instance_tag_size : ℕ
instance_tag_size = 4

abbrev pub nonce_size : ℕ
nonce_size = 12

abbrev pub gcm_tag_size : ℕ
gcm_tag_size = 16

abbrev pub min_sealed_len : ℕ
min_sealed_len = instance_tag_size + nonce_size + gcm_tag_size

abbrev pub instance_tag_info : Text
instance_tag_info = codes "azath-instance-tag-v1"

-- `nil_aead` stands for the panic of a call through a nil AEAD.
pub data SealerError : Type 0 where
  destroyed_error wrong_instance decrypt_failed short_blob nil_aead : SealerError

pub data NewError : Type 0 where
  bad_key_size hkdf_failed cipher_failed gcm_failed seed_failed : NewError

pub record Sealer : Type 0 where
  pub key : Bytes  -- the contents of the sealer's own copy
  pub key_nil : Bool  -- the field has been set to nil
  pub instance_tag : Bytes
  pub aead : Option Bytes  -- the key that the AEAD was made from; none for nil
  pub destroyed : Bool
  pub nonce_prefix : Bytes
  pub nonce_ctr : ℕ  -- uint64

-- A failure comes with what is left in the copy of the key that was made.
pub data NewResult : Type 0 where
  made : Sealer → NewResult
  failed : NewError → Bytes → NewResult

module _ (c : Primitives) where
  build : Bytes → Bytes → Option Bytes → NewResult
  build own_key tag none = failed seed_failed (zero_bytes own_key)
  build own_key tag (some seed) = made (record {
    key = own_key;
    key_nil = false;
    instance_tag = tag;
    aead = some own_key;
    destroyed = false;
    nonce_prefix = take 4 seed;
    nonce_ctr = u64_le (drop 4 seed);
  })

  derive : Bytes → Option Bytes → Option Bytes → NewResult
  unfolding build
  derive own_key none seed = failed hkdf_failed (zero_bytes own_key)
  derive own_key (some tag) seed =
      if not (c.new_cipher own_key)
      then failed cipher_failed (zero_bytes own_key)
      else if not (c.new_gcm own_key)
      then failed gcm_failed (zero_bytes own_key)
      else build own_key tag seed

  -- NewSealer; `seed` is what rand.Read gives, none for its error.
  unfoldable pub new_sealer : Bytes → Option Bytes → NewResult
  unfolding derive
  new_sealer key seed =
      if not (length key == key_size)
      then failed bad_key_size []
      else derive key (c.hkdf key instance_tag_info instance_tag_size) seed

  seal_with : Option Bytes → Sealer → Bytes → Bytes → Result SealerError Bytes × Sealer
  seal_with none s plaintext aad = (err nil_aead, s)
  seal_with (some key) s plaintext aad =
      let ctr = (s.nonce_ctr + 1) % u64_mod in
      let nonce = s.nonce_prefix ++ put_u64_le ctr in
      (
        ok (s.instance_tag ++ (nonce ++ c.gcm_seal key nonce plaintext aad)),
        record s { nonce_ctr = ctr },
      )

  unfoldable pub seal : Sealer → Bytes → Bytes → Result SealerError Bytes × Sealer
  unfolding seal_with
  seal s plaintext aad =
      if s.destroyed then (err destroyed_error, s) else seal_with s.aead s plaintext aad

  or_decrypt_failed : Option Bytes → Result SealerError Bytes
  or_decrypt_failed none = err decrypt_failed
  or_decrypt_failed (some plaintext) = ok plaintext

  open_with : Option Bytes → Bytes → Bytes → Result SealerError Bytes
  unfolding or_decrypt_failed
  open_with none sealed aad = err nil_aead
  open_with (some key) sealed aad =
      let nonce = take nonce_size (drop instance_tag_size sealed) in
      let ciphertext = drop (instance_tag_size + nonce_size) sealed in
      or_decrypt_failed (c.gcm_open key nonce ciphertext aad)

  unfoldable pub unseal : Sealer → Bytes → Bytes → Result SealerError Bytes
  unfolding open_with
  unseal s sealed aad =
      if s.destroyed
      then err destroyed_error
      else if ltb (length sealed) min_sealed_len
      then err short_blob
      else if not (text_eq (take instance_tag_size sealed) s.instance_tag)
      then err wrong_instance
      else open_with s.aead sealed aad

unfoldable pub destroy : Sealer → Sealer
destroy s = if s.destroyed then s else record {
  key = zero_bytes s.key;
  key_nil = true;
  instance_tag = replicate instance_tag_size 0;
  aead = none;
  destroyed = true;
  nonce_prefix = replicate 4 0;
  nonce_ctr = 0;
}

-- InstanceTag
unfoldable pub instance_tag_of : Sealer → Bytes
instance_tag_of s = if s.destroyed then replicate instance_tag_size 0 else s.instance_tag
