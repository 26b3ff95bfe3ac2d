-- ===== src/Crypto/Sealer/Destroyed.antt =====
-- What Destroy of internal/crypto/aes.go leaves, and what the methods answer after it.
use azath.Prelude.{
  err, All, Bytes, zero_bytes-zero, ◌≡◌, refl, true, false, none, List, [], ◌∷◌, arith,
}
use azath.Crypto.Primitives.{Primitives}
use azath.Crypto.Sealer.{Sealer, seal, unseal, destroy, destroyed_error, instance_tag_of}
use azath.Crypto.Sealer.Nonces.{Op, seals, unseals, destroys, step}

-- No key material is left: the copy of the key is zeros and let go, the AEAD is gone, and the tag
-- and the nonce state are zeros.
pub record IsWiped (s : Sealer) : Type 0 where
  pub marked : s.destroyed ≡ true
  pub key_zeroed : All (λ b. b ≡ 0) s.key
  pub key_released : s.key_nil ≡ true
  pub aead_released : s.aead ≡ none
  pub tag_zeroed : s.instance_tag ≡ 0 ∷ 0 ∷ 0 ∷ 0 ∷ []
  pub prefix_zeroed : s.nonce_prefix ≡ 0 ∷ 0 ∷ 0 ∷ 0 ∷ []
  pub counter_zeroed : s.nonce_ctr ≡ 0

pub destroy-IsWiped : (s : Sealer) → s.destroyed ≡ false → IsWiped (destroy s)
unfolding destroy
destroy-IsWiped s h = rw h (record {
  marked = refl;
  key_zeroed = zero_bytes-zero s.key;
  key_released = refl;
  aead_released = refl;
  tag_zeroed = refl;
  prefix_zeroed = refl;
  counter_zeroed = refl;
})

-- The sealer after a history of calls.
unfoldable pub after : Primitives → Sealer → List Op → Sealer
after c s [] = s
after c s (op ∷ ops) = after c (step c op s).1 ops

step_wiped : (c : Primitives) (s : Sealer) (op : Op) → s.destroyed ≡ true → (step c op s).1 ≡ s
unfolding step seal destroy
step_wiped c s (seals p a) h = ground arith
step_wiped c s (unseals b a) h = refl
step_wiped c s destroys h = ground arith

after_wiped : (c : Primitives) (s : Sealer) (ops : List Op) → s.destroyed ≡ true → after c s ops ≡ s
unfolding after
after_wiped c s [] h = refl
after_wiped c s (op ∷ ops) h = rw (step_wiped c s op h) (after_wiped c s ops h)

-- Destroy of a sealer in use is final: whatever calls come after it, no key material comes back,
-- and Seal, Unseal and InstanceTag answer with ErrDestroyed, ErrDestroyed and zeros.
pub destroy_final :
    (c : Primitives) (s : Sealer) (ops : List Op) (plain blob aad : Bytes)
    → s.destroyed ≡ false
    → let t = after c (destroy s) ops in
      IsWiped t
      × ((seal c t plain aad).0 ≡ err destroyed_error)
      × (unseal c t blob aad ≡ err destroyed_error)
      × (instance_tag_of t ≡ 0 ∷ 0 ∷ 0 ∷ 0 ∷ [])
unfolding seal unseal instance_tag_of
destroy_final c s ops plain blob aad h =
    let w = destroy-IsWiped s h in
    rw (after_wiped c (destroy s) ops w.marked) (w, rw w.marked, rw w.marked, rw w.marked)
