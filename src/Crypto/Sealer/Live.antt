-- ===== src/Crypto/Sealer/Live.antt =====
-- A sealer in use, as NewSealer makes it and Seal keeps it (internal/crypto/aes.go).
use azath.Prelude.{
  ◌==◌, Bool-cases, length, drop, length-take, length-drop, All, Bytes, IsBytes, zero_bytes-zero, ℕ,
  zero, suc, ◌<◌, ◌≡◌, refl, inl, inr, false, Option, none, some, [], ◌∷◌, arith,
}
use azath.Crypto.Primitives.{Primitives}
use azath.Crypto.Words.{u64_mod, u64_le}
use azath.Crypto.Sealer.{
  Sealer, NewResult, made, failed, new_sealer, build, derive, seal, instance_tag_info,
  instance_tag_size,
}

-- The sealer holds `key` and has not been destroyed.
pub record IsLive (c : Primitives) (key : Bytes) (s : Sealer) : Type 0 where
  pub in_use : s.destroyed ≡ false
  pub has_aead : s.aead ≡ some key
  pub has_tag : c.hkdf key instance_tag_info instance_tag_size ≡ some s.instance_tag
  pub has_prefix : length s.nonce_prefix ≡ 4
  pub in_range : s.nonce_ctr < u64_mod

-- The seed that rand.Read fills: twelve bytes.
abbrev pub IsSeed : Bytes → Type 0
IsSeed seed = (length seed ≡ 12) × IsBytes seed

u64_le-lt : (b : Bytes) → length b ≡ 8 → IsBytes b → u64_le b < u64_mod
unfolding u64_le
u64_le-lt (a ∷ b ∷ c ∷ d ∷ e ∷ f ∷ g ∷ h ∷ []) l i = omega arith
u64_le-lt _ l i = absurd (omega arith)

-- What NewSealer promises: a live sealer with its own copy of the key, or a copy wiped to zeros.
abbrev pub IsBuilt : Primitives → Bytes → NewResult → Type 0
IsBuilt c key (made s) = IsLive c key s × (s.key ≡ key) × (s.key_nil ≡ false)
IsBuilt c key (failed e left) = All (λ b. b ≡ 0) left

abbrev pub IsEntropy : Option Bytes → Type 0
IsEntropy none = Unit
IsEntropy (some seed) = IsSeed seed

bytes_drop : (n : ℕ) (b : Bytes) → IsBytes b → IsBytes (drop n b)
bytes_drop zero b h = h
bytes_drop (suc n) [] h = tt
bytes_drop (suc n) (x ∷ xs) h = bytes_drop n xs h.1

module _ (c : Primitives) where
  build-IsBuilt :
      (key tag : Bytes) (seed : Option Bytes)
      → c.hkdf key instance_tag_info instance_tag_size ≡ some tag
      → IsEntropy seed
      → IsBuilt c key (build c key tag seed)
  unfolding build
  build-IsBuilt key tag none e h = zero_bytes-zero key
  build-IsBuilt key tag (some seed) e (l, b) = (
    record {
      in_use = refl;
      has_aead = refl;
      has_tag = e;
      has_prefix = omega (arith, length-take 4 seed);
      in_range = u64_le-lt (drop 4 seed) (omega (arith, length-drop 4 seed)) (bytes_drop 4 seed b);
    },
    refl,
    refl,
  )

  derive-IsBuilt :
      (key : Bytes) (tag seed : Option Bytes)
      → c.hkdf key instance_tag_info instance_tag_size ≡ tag
      → IsEntropy seed
      → IsBuilt c key (derive c key tag seed)
  unfolding derive
  derive-IsBuilt key none seed e h = zero_bytes-zero key
  derive-IsBuilt key (some tag) seed e h = elim (Bool-cases (c.new_cipher key)) [
    | inr bad ↦ rw bad (zero_bytes-zero key)
    | inl good ↦ rw good (elim (Bool-cases (c.new_gcm key)) [
      | inr bad ↦ rw bad (zero_bytes-zero key)
      | inl fine ↦ rw fine (build-IsBuilt key tag seed e h)
    ])
  ]

  -- Whatever the primitives do, and for a seed of 12 bytes or none, NewSealer either makes a live
  -- sealer over its own copy of the key, or fails and leaves only zeros in the copy that it made.
  pub new_sealer-IsBuilt :
      (key : Bytes) (seed : Option Bytes) → IsEntropy seed → IsBuilt c key (new_sealer c key seed)
  unfolding new_sealer
  new_sealer-IsBuilt key seed h = elim (Bool-cases (length key == 32)) [
    | inr bad ↦ rw bad tt
    | inl good ↦ rw good (derive-IsBuilt key _ seed refl h)
  ]

  -- Seal keeps a live sealer live.
  pub seal-IsLive :
      (key : Bytes) (s : Sealer) (plaintext aad : Bytes)
      → IsLive c key s
      → IsLive c key (seal c s plaintext aad).1
  unfolding seal
  seal-IsLive key s plaintext aad v = ground arith
