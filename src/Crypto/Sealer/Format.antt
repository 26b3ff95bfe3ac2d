-- ===== src/Crypto/Sealer/Format.antt =====
-- The blob format of internal/crypto/aes.go: what Seal writes and which blobs Unseal opens.
use azath.Prelude.{
  ok, err, lt→ltb, Bool-cases, length, take, drop, length-append, length-take, length-drop,
  take-append-drop, drop-nil, take-append, drop-append, text_eq, text_eq_iff, Bytes, ℕ, zero, suc,
  ◌+◌, ◌%◌, ◌≤◌, ◌<◌, ◌≡◌, refl, sym, ap, ◌∙◌, ◌≢◌, ◌↔◌, inl, inr, false, Option, none, some, [],
  ◌∷◌, ◌++◌, arith, dec_lt,
}
use azath.Crypto.Primitives.{Primitives, IsLawful}
use azath.Crypto.Words.{u64_mod, put_u64_le, length-put_u64_le}
use azath.Crypto.Sealer.{
  Sealer, SealerError, instance_tag_info, wrong_instance, short_blob, seal, unseal,
  or_decrypt_failed,
}
use azath.Crypto.Sealer.Live.{IsLive}

-- The nonce of the next Seal call.
abbrev pub next_nonce : Sealer → Bytes
next_nonce s = s.nonce_prefix ++ put_u64_le ((s.nonce_ctr + 1) % u64_mod)

-- A blob is the instance tag, a nonce of 12 bytes and a ciphertext with its GCM tag.
pub record IsBlob (c : Primitives) (key : Bytes) (s : Sealer) (blob aad plain : Bytes)
    : Type 0 where
  pub nonce : Bytes
  pub ciphertext : Bytes
  pub layout : blob ≡ s.instance_tag ++ (nonce ++ ciphertext)
  pub nonce_length : length nonce ≡ 12
  pub opens : c.gcm_open key nonce ciphertext aad ≡ some plain

err≢ok : {e : SealerError} {b : Bytes} → err e ≡ ok b → ⊥
err≢ok h = cc

pub length-next_nonce : (s : Sealer) → length s.nonce_prefix ≡ 4 → length (next_nonce s) ≡ 12
length-next_nonce s h = omega (
  arith,
  length-append s.nonce_prefix (put_u64_le ((s.nonce_ctr + 1) % u64_mod)),
  length-put_u64_le ((s.nonce_ctr + 1) % u64_mod),
)

drop_past_tag : (n : ℕ) (b : Bytes) → drop n (drop 4 b) ≡ drop (suc (suc (suc (suc n)))) b
drop_past_tag zero [] = refl
drop_past_tag (suc n) [] = refl
drop_past_tag n (x ∷ []) = drop-nil n
drop_past_tag n (x ∷ y ∷ []) = drop-nil n
drop_past_tag n (x ∷ y ∷ z ∷ []) = drop-nil n
drop_past_tag n (x ∷ y ∷ z ∷ w ∷ b) = refl

blob_parts : (b : Bytes) → b ≡ take 4 b ++ (take 12 (drop 4 b) ++ drop 16 b)
blob_parts b =
    sym (take-append-drop 4 b)
    ∙ ap (◌++◌ (take 4 b))
        (sym (take-append-drop 12 (drop 4 b)) ∙ ap (◌++◌ (take 12 (drop 4 b))) (drop_past_tag 12 b))

or_decrypt_failed-ok :
    (c : Primitives) (o : Option Bytes) (plain : Bytes)
    → or_decrypt_failed c o ≡ ok plain
    → o ≡ some plain
unfolding or_decrypt_failed
or_decrypt_failed-ok c none plain h = cc
or_decrypt_failed-ok c (some p) plain h = cc

module _ (c : Primitives) where
  -- What a live sealer answers, by the layout of the blob.
  pub seal_live :
      (key : Bytes) (s : Sealer) (plain aad : Bytes)
      → IsLive c key s
      → (seal c s plain aad).0
        ≡ ok (s.instance_tag ++ (next_nonce s ++ c.gcm_seal key (next_nonce s) plain aad))
  unfolding seal
  seal_live key s plain aad v = ground arith

  unseal_short :
      (key : Bytes) (s : Sealer) (blob aad : Bytes)
      → IsLive c key s
      → length blob < 32
      → unseal c s blob aad ≡ err short_blob
  unfolding unseal
  unseal_short key s blob aad v h = rw (v.in_use, lt→ltb _ _ h)

  unseal_foreign :
      (key : Bytes) (s : Sealer) (blob aad : Bytes)
      → IsLive c key s
      → 32 ≤ length blob
      → take 4 blob ≢ s.instance_tag
      → unseal c s blob aad ≡ err wrong_instance
  unfolding unseal
  unseal_foreign key s blob aad v h d = ground (arith, text_eq_iff (take 4 blob) s.instance_tag)

  unseal_own :
      (key : Bytes) (s : Sealer) (blob aad : Bytes)
      → IsLive c key s
      → 32 ≤ length blob
      → take 4 blob ≡ s.instance_tag
      → unseal c s blob aad
        ≡ or_decrypt_failed c (c.gcm_open key (take 12 (drop 4 blob)) (drop 16 blob) aad)
  unfolding unseal
  unseal_own key s blob aad v h d = ground (arith, text_eq_iff (take 4 blob) s.instance_tag)

  opened_IsBlob :
      (key : Bytes) (s : Sealer) (blob aad plain : Bytes)
      → IsLive c key s
      → unseal c s blob aad ≡ ok plain
      → IsBlob c key s blob aad plain
  opened_IsBlob key s blob aad plain v h = elim (dec_lt (length blob) 32) [
    | yes short ↦ absurd (err≢ok (sym (unseal_short key s blob aad v short) ∙ h))
    | no long ↦ elim (Bool-cases (text_eq (take 4 blob) s.instance_tag)) [
      | inr foreign ↦
          absurd
            (err≢ok (sym (unseal_foreign key s blob aad v (omega arith) (differs foreign)) ∙ h))
      | inl own ↦
          let e : take 4 blob ≡ s.instance_tag = (text_eq_iff _ _).0 own in
          record {
            nonce = take 12 (drop 4 blob);
            ciphertext = drop 16 blob;
            layout = rw (← e) (blob_parts blob);
            nonce_length = omega (arith, length-take 12 (drop 4 blob), length-drop 4 blob);
            opens =
                or_decrypt_failed-ok c _ plain
                  (sym (unseal_own key s blob aad v (omega arith) e) ∙ h);
          }
    ]
  ]
    where
      differs : text_eq (take 4 blob) s.instance_tag ≡ false → take 4 blob ≢ s.instance_tag
      differs f e = cc (f, (text_eq_iff (take 4 blob) s.instance_tag).1 e)

  IsBlob-opened :
      (key : Bytes) (s : Sealer) (blob aad plain : Bytes)
      → IsLawful c
      → IsLive c key s
      → IsBlob c key s blob aad plain
      → unseal c s blob aad ≡ ok plain
  unfolding or_decrypt_failed
  IsBlob-opened key s blob aad plain lawful v b =
      unseal_own key s blob aad v long own ∙ rw (mid, last, b.opens)
    where
      tag_length : length s.instance_tag ≡ 4
      tag_length = lawful.length-hkdf key instance_tag_info 4 s.instance_tag v.has_tag

      own : take 4 blob ≡ s.instance_tag
      own = ap (take 4) b.layout ∙ take-append 4 s.instance_tag _ tag_length

      body : drop 4 blob ≡ b.nonce ++ b.ciphertext
      body = ap (drop 4) b.layout ∙ drop-append 4 s.instance_tag _ tag_length

      mid : take 12 (drop 4 blob) ≡ b.nonce
      mid = ap (take 12) body ∙ take-append 12 b.nonce _ b.nonce_length

      last : drop 16 blob ≡ b.ciphertext
      last =
          sym (drop_past_tag 12 blob)
          ∙ (ap (drop 12) body ∙ drop-append 12 b.nonce _ b.nonce_length)

      long : 32 ≤ length blob
      long = omega (
        arith,
        tag_length,
        ap length b.layout,
        length-append s.instance_tag (b.nonce ++ b.ciphertext),
        length-append b.nonce b.ciphertext,
        lawful.length-gcm_open key b.nonce b.ciphertext aad plain b.opens,
      )

  -- With lawful primitives, a live sealer opens a blob exactly when it has the layout of this
  -- sealer's blobs and the AEAD of its key opens the ciphertext under the nonce and the additional
  -- data.
  pub unseal_iff :
      (key : Bytes) (s : Sealer) (blob aad plain : Bytes)
      → IsLawful c
      → IsLive c key s
      → (unseal c s blob aad ≡ ok plain) ↔ IsBlob c key s blob aad plain
  unseal_iff key s blob aad plain lawful v =
      (opened_IsBlob key s blob aad plain v, IsBlob-opened key s blob aad plain lawful v)

  -- A blob that opens is 32 bytes longer than its plaintext.
  pub length-unseal :
      (key : Bytes) (s : Sealer) (blob aad plain : Bytes)
      → IsLawful c
      → IsLive c key s
      → unseal c s blob aad ≡ ok plain
      → length blob ≡ length plain + 32
  length-unseal key s blob aad plain lawful v h =
      let b = opened_IsBlob key s blob aad plain v h in
      omega (
        arith,
        lawful.length-hkdf key instance_tag_info 4 s.instance_tag v.has_tag,
        ap length b.layout,
        b.nonce_length,
        length-append s.instance_tag (b.nonce ++ b.ciphertext),
        length-append b.nonce b.ciphertext,
        lawful.length-gcm_open key b.nonce b.ciphertext aad plain b.opens,
      )

  -- With lawful primitives, what a live sealer writes, any live sealer over the same key opens
  -- again, with the same additional data; the blob is 32 bytes longer than the plaintext.
  pub unseal-seal :
      (key : Bytes) (s t : Sealer) (plain aad : Bytes)
      → IsLawful c
      → IsLive c key s
      → IsLive c key t
      → (blob : Bytes) × ((seal c s plain aad).0 ≡ ok blob)
        × (length blob ≡ length plain + 32)
        × (unseal c t blob aad ≡ ok plain)
  unseal-seal key s t plain aad lawful v w = (
    blob,
    seal_live key s plain aad v,
    blob_length,
    IsBlob-opened key t blob aad plain lawful w (record {
      nonce = nonce;
      ciphertext = ciphertext;
      layout = ap (λ g. g ++ (nonce ++ ciphertext)) same_tag;
      nonce_length = length-next_nonce s v.has_prefix;
      opens = lawful.open-seal key nonce plain aad;
    }),
  )
    where
      nonce : Bytes
      nonce = next_nonce s

      ciphertext : Bytes
      ciphertext = c.gcm_seal key nonce plain aad

      blob : Bytes
      blob = s.instance_tag ++ (nonce ++ ciphertext)

      same_tag : s.instance_tag ≡ t.instance_tag
      same_tag = cc (v.has_tag, w.has_tag)

      blob_length : length blob ≡ length plain + 32
      blob_length = omega (
        arith,
        lawful.length-hkdf key instance_tag_info 4 s.instance_tag v.has_tag,
        length-append s.instance_tag (nonce ++ ciphertext),
        length-append nonce ciphertext,
        length-next_nonce s v.has_prefix,
        lawful.length-gcm_seal key nonce plain aad,
      )
