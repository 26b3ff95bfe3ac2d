-- ===== src/Tests/Observability.antt =====
-- The properties of the readiness checks and of the secret references at concrete inputs.
use mathlib.Core.List.{Permᴰ}
use azath.Prelude.{
  ok, ◌==◌, if◌then◌else◌, All, Text, codes, size, ℕ, ◌≤◌, ◌≡◌, refl, ◌↔◌, ◌⊎◌, [], ◌∷◌, arith,
}
use azath.Config.Validation.{validate_op_ref, gate_bot_token_ref}
use azath.Observability.{HealthChecker, passes, panics, status_ok, status_fail, readyz}
use azath.Observability.Readiness.{Passes, readyz_iff}
use azath.Secret.{field_segment}
use azath.Secret.Resolved.{validated_ref_iff}
use azath.Tests.Config.{library}

-- A check that passes, and one that panics on 0.
abbrev checks : HealthChecker ℕ
checks = (1 ∷ [], λ n. passes) ∷ (2 ∷ [], λ n. if n == 0 then panics else passes) ∷ []

abbrev order : HealthChecker ℕ
order = (2 ∷ [], λ n. if n == 0 then panics else passes) ∷ (1 ∷ [], λ n. passes) ∷ []

readyz_iff_example :
    (((readyz checks 0 order).code ≡ 200) ↔ ((1 ≤ size checks) × All (Passes 0) checks))
    × ((readyz checks 0 order ≡ record { code = 200; body = status_ok })
        ⊎ (readyz checks 0 order ≡ record { code = 503; body = status_fail }))
readyz_iff_example = readyz_iff checks 0 order (Permᴰ.swap refl refl)

validated_ref_iff_example :
    (validate_op_ref library gate_bot_token_ref (codes "op://v/i/f") ≡ [])
    ↔ ((field : Text) × (field_segment library (codes "op://v/i/f") ≡ ok field))
validated_ref_iff_example =
    validated_ref_iff library gate_bot_token_ref (codes "op://v/i/f") (omega arith)
