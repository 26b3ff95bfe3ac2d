-- ===== src/Crypto/Sealer/Nonces.antt =====
-- The nonces that one sealer of internal/crypto/aes.go uses over a history of calls. The calls
-- are in the order in which the atomic counter serves them.
use azath.Prelude.{
  Result, ok, err, length, take, drop, take-append, drop-append, All, Bytes, ℕ, suc, ◌+◌, ◌%◌, ◌≤◌,
  ◌<◌, ◌≡◌, refl, sym, ap, subst, ◌∙◌, ◌≢◌, true, Option, none, some, List, [], ◌∷◌, ◌++◌, arith,
}
use azath.Crypto.Primitives.{Primitives, IsLawful}
use azath.Crypto.Words.{u64_le, u64_le-put_u64_le, u64_mod, put_u64_le}
use azath.Crypto.Sealer.{instance_tag_info, Sealer, seal, destroy}
use azath.Crypto.Sealer.Live.{seal-IsLive, IsLive}
use azath.Crypto.Sealer.Format.{seal_live, length-next_nonce, next_nonce}

pub data Op : Type 0 where
  seals unseals : Bytes → Bytes → Op
  destroys : Op

unfoldable pub ok_value : {E : Type 0} → Result E Bytes → Option Bytes
ok_value (ok b) = some b
ok_value (err e) = none

-- The blob that a call hands out, and the sealer after it.
unfoldable pub step : Primitives → Op → Sealer → Option Bytes × Sealer
unfolding ok_value
step c (seals plain aad) s = let (r, t) = seal c s plain aad in (ok_value r, t)
step c (unseals blob aad) s = (none, s)
step c destroys s = (none, destroy s)

abbrev collect : Option Bytes → List Bytes → List Bytes
collect none bs = bs
collect (some b) bs = b ∷ bs

-- All the blobs that a history of calls hands out.
unfoldable pub blobs : Primitives → Sealer → List Op → List Bytes
blobs c s [] = []
blobs c s (op ∷ ops) = collect (step c op s).0 (blobs c (step c op s).1 ops)

-- The nonce field of a blob.
abbrev pub nonce_of : Bytes → Bytes
nonce_of b = take 12 (drop 4 b)

abbrev pub Distinct : List Bytes → Type 0
Distinct [] = Unit
Distinct (b ∷ bs) = All (λ x. nonce_of b ≢ nonce_of x) bs × Distinct bs

-- The nonce of the call that comes after i more calls.
abbrev nonce_at : Sealer → ℕ → Bytes
nonce_at s i = s.nonce_prefix ++ put_u64_le ((s.nonce_ctr + 1 + i) % u64_mod)

abbrev IsWithin : Sealer → ℕ → Bytes → Type 0
IsWithin s n b = (i : ℕ) × (i < n) × (nonce_of b ≡ nonce_at s i)

blobs_destroyed :
    (c : Primitives) (s : Sealer) (ops : List Op) → s.destroyed ≡ true → blobs c s ops ≡ []
unfolding blobs step seal destroy
blobs_destroyed c s [] h = refl
blobs_destroyed c s (seals p a ∷ ops) h = ground (arith, blobs_destroyed c s ops h)
blobs_destroyed c s (unseals b a ∷ ops) h = blobs_destroyed c s ops h
blobs_destroyed c s (destroys ∷ ops) h = ground (arith, blobs_destroyed c s ops h)

blobs_unseals :
    (c : Primitives) (s : Sealer) (blob aad : Bytes) (ops : List Op)
    → blobs c s (unseals blob aad ∷ ops) ≡ blobs c s ops
unfolding blobs step
blobs_unseals c s blob aad ops = refl

destroyed-destroy : (s : Sealer) → (destroy s).destroyed ≡ true
unfolding destroy
destroyed-destroy s = ground arith

All-weaken :
    {P Q : Bytes → Type 0} (bs : List Bytes) → ((b : Bytes) → P b → Q b) → All P bs → All Q bs
All-weaken [] f h = tt
All-weaken (b ∷ bs) f h = (f b h.0, All-weaken bs f h.1)

module _ (c : Primitives) (lawful : IsLawful c) (key : Bytes) where
  -- One Seal call: the blob has the next nonce, and the counter has moved on by one.
  step-seals :
      (s : Sealer) (plain aad : Bytes)
      → IsLive c key s
      → (b : Bytes) × ((step c (seals plain aad) s).0 ≡ some b)
        × (nonce_of b ≡ nonce_at s 0)
        × ((step c (seals plain aad) s).1 ≡ record s { nonce_ctr = (s.nonce_ctr + 1) % u64_mod })
  unfolding step
  step-seals s plain aad v =
      (blob, ap ok_value (seal_live c key s plain aad v), cut, (unfold seal in ground arith))
    where
      nonce : Bytes
      nonce = next_nonce s

      rest : Bytes
      rest = nonce ++ c.gcm_seal key nonce plain aad

      blob : Bytes
      blob = s.instance_tag ++ rest

      tag_length : length s.instance_tag ≡ 4
      tag_length = lawful.length-hkdf key instance_tag_info 4 s.instance_tag v.has_tag

      cut : nonce_of blob ≡ nonce_at s 0
      cut =
          ap (take 12) (drop-append 4 s.instance_tag rest tag_length)
          ∙ (take-append 12 nonce _ (length-next_nonce s v.has_prefix)
              ∙ ap (λ n. s.nonce_prefix ++ put_u64_le (n % u64_mod)) (omega arith))

  IsWithin-weaken : (s : Sealer) (n : ℕ) (b : Bytes) → IsWithin s n b → IsWithin s (suc n) b
  IsWithin-weaken s n b (i, h, e) = (i, omega arith, e)

  IsWithin-shift :
      (s : Sealer) (n : ℕ) (b : Bytes)
      → IsWithin (record s { nonce_ctr = (s.nonce_ctr + 1) % u64_mod }) n b
      → IsWithin s (suc n) b
  IsWithin-shift s n b (i, h, e) =
      (suc i, omega arith, e ∙ ap (λ k. s.nonce_prefix ++ put_u64_le k) (omega arith))

  -- Every blob of a history has a nonce from the run of counter values that starts at the next.
  blobs-IsWithin :
      (s : Sealer) (ops : List Op) → IsLive c key s → All (IsWithin s (length ops)) (blobs c s ops)
  unfolding blobs
  blobs-IsWithin s [] v = tt
  blobs-IsWithin s (seals p a ∷ ops) v =
      let (b, e, n, t) = step-seals s p a v in
      let live : IsLive c key (step c (seals p a) s).1 = unfold step in seal-IsLive c key s p a v in
      rw e (
        (0, omega arith, n),
        All-weaken (blobs c (step c (seals p a) s).1 ops)
            (λ x w. IsWithin-shift s (length ops) x (subst (λ q. IsWithin q (length ops) x) t w))
            (blobs-IsWithin (step c (seals p a) s).1 ops live),
      )
  blobs-IsWithin s (unseals p a ∷ ops) v =
      rw (blobs_unseals c s p a ops)
        (All-weaken (blobs c s ops) (IsWithin-weaken s (length ops)) (blobs-IsWithin s ops v))
  blobs-IsWithin s (destroys ∷ ops) v =
      unfold step in rw (blobs_destroyed c (destroy s) ops (destroyed-destroy s)) tt

  nonce_at_ne :
      (s : Sealer) (i : ℕ)
      → length s.nonce_prefix ≡ 4
      → i + 1 < u64_mod
      → nonce_at s 0 ≢ nonce_at s (suc i)
  nonce_at_ne s i l h e = absurd (omega (arith, same))
    where
      low : (k : ℕ) → drop 4 (nonce_at s k) ≡ put_u64_le ((s.nonce_ctr + 1 + k) % u64_mod)
      low k = drop-append 4 s.nonce_prefix _ l

      same : (s.nonce_ctr + 1 + 0) % u64_mod ≡ (s.nonce_ctr + 1 + suc i) % u64_mod
      same =
          sym (u64_le-put_u64_le _ (omega arith))
          ∙ (ap u64_le (sym (low 0) ∙ (ap (drop 4) e ∙ low (suc i)))
              ∙ u64_le-put_u64_le _ (omega arith))

  -- With lawful primitives, a live sealer never hands out two blobs with the same nonce, over any
  -- history of Seal, Unseal and Destroy calls of at most 2^64 calls.
  pub blobs-Distinct :
      (s : Sealer) (ops : List Op)
      → IsLive c key s
      → length ops ≤ u64_mod
      → Distinct (blobs c s ops)
  unfolding blobs
  blobs-Distinct s [] v h = tt
  blobs-Distinct s (seals p a ∷ ops) v h =
      let (b, e, n, t) = step-seals s p a v in
      let live : IsLive c key (step c (seals p a) s).1 = unfold step in seal-IsLive c key s p a v in
      rw e (
        All-weaken (blobs c (step c (seals p a) s).1 ops)
            (λ x w. differs b x n (subst (λ q. IsWithin q (length ops) x) t w))
            (blobs-IsWithin (step c (seals p a) s).1 ops live),
        blobs-Distinct (step c (seals p a) s).1 ops live (omega arith),
      )
    where
      differs :
          (b x : Bytes)
          → nonce_of b ≡ nonce_at s 0
          → IsWithin (record s { nonce_ctr = (s.nonce_ctr + 1) % u64_mod }) (length ops) x
          → nonce_of b ≢ nonce_of x
      differs b x n (i, k, e) same =
          nonce_at_ne s i v.has_prefix (omega arith)
            (sym n ∙ (same ∙ (e ∙ ap (λ m. s.nonce_prefix ++ put_u64_le m) (omega arith))))
  blobs-Distinct s (unseals p a ∷ ops) v h =
      rw (blobs_unseals c s p a ops) (blobs-Distinct s ops v (omega arith))
  blobs-Distinct s (destroys ∷ ops) v h =
      unfold step in rw (blobs_destroyed c (destroy s) ops (destroyed-destroy s)) tt
