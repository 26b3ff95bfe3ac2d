-- ===== src/Tests/Crypto.antt =====
-- The properties of the sealer at concrete inputs.
use azath.Prelude.{ok, err, replicate, text_eq, ◌≡◌, refl, ◌↔◌, List, [], ◌∷◌, arith}
use azath.Crypto.Sealer.{Sealer, seal, unseal, destroy, destroyed_error, instance_tag_of}
use azath.Crypto.Sealer.Format.{IsBlob, unseal_iff}
use azath.Crypto.Sealer.Nonces.{Op, seals, unseals, destroys, Distinct, blobs, blobs-Distinct}
use azath.Crypto.Sealer.Destroyed.{IsWiped, after, destroy_final}
use azath.Tests.Fixtures.{
  toy, toy-IsLawful, master_key, sealer_one, sealer_one-IsLive, blob, nas_uuid,
}

unseal_iff_example :
    (unseal toy sealer_one blob nas_uuid ≡ ok (6 ∷ 6 ∷ 6 ∷ []))
    ↔ IsBlob toy master_key sealer_one blob nas_uuid (6 ∷ 6 ∷ 6 ∷ [])
unseal_iff_example =
    unseal_iff toy master_key sealer_one blob nas_uuid (6 ∷ 6 ∷ 6 ∷ []) toy-IsLawful
      sealer_one-IsLive

-- The fixtures' blob opens.
blob_opens : unseal toy sealer_one blob nas_uuid ≡ ok (6 ∷ 6 ∷ 6 ∷ [])
unfolding unseal text_eq
blob_opens = refl

abbrev other_sealer : Sealer
other_sealer = record sealer_one { nonce_prefix = replicate 4 9; nonce_ctr = 0 }

abbrev history : List Op
history = seals (1 ∷ []) nas_uuid ∷ unseals blob nas_uuid ∷ seals (1 ∷ []) nas_uuid ∷ destroys ∷ []

blobs-Distinct_example : Distinct (blobs toy sealer_one history)
blobs-Distinct_example =
    blobs-Distinct toy toy-IsLawful master_key sealer_one history sealer_one-IsLive (omega arith)

destroy_final_example :
    IsWiped (after toy (destroy sealer_one) history)
    × ((seal toy (after toy (destroy sealer_one) history) [] []).0 ≡ err destroyed_error)
    × (unseal toy (after toy (destroy sealer_one) history) blob [] ≡ err destroyed_error)
    × (instance_tag_of (after toy (destroy sealer_one) history) ≡ 0 ∷ 0 ∷ 0 ∷ 0 ∷ [])
destroy_final_example = destroy_final toy sealer_one history [] blob [] refl
