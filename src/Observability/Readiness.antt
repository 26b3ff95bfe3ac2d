-- ===== src/Observability/Readiness.antt =====
-- When the readiness endpoint of internal/observability/health.go answers 200.
use mathlib.Core.List.{Permᴰ}
use mathlib.Core.List
use azath.Prelude.{
  ◌==◌, Bool-cases, is_some, All, text_eq_refl, Text, lookup, insert, lookup-insert, size, ◌≤◌, ◌≡◌,
  refl, subst, ◌↔◌, ◌⊎◌, inl, inr, true, false, none, some, List, [], ◌∷◌, arith,
}
use azath.Observability.{
  CheckResult, CheckFunc, HealthChecker, run_check, register, overall, readyz, passes,
  returns_error, panics, status_ok, status_fail,
}

abbrev pub Passes : {S : Type 0} → S → Text × CheckFunc S → Type 0
Passes s c = c.1 s ≡ passes

run_check_iff : (r : CheckResult) → (run_check r ≡ true) ↔ (r ≡ passes)
unfolding run_check
run_check_iff passes = (λ h. refl, λ h. refl)
run_check_iff returns_error = (λ h. cc, λ h. cc)
run_check_iff panics = (λ h. cc, λ h. cc)

module _ {S : Type 0} (s : S) where
  overall-false : (order : List (Text × CheckFunc S)) → overall s order false ≡ false
  unfolding overall
  overall-false [] = refl
  overall-false ((n, f) ∷ rest) = elim (Bool-cases (run_check (f s))) [
    | inl y ↦ rw y (overall-false rest)
    | inr m ↦ rw m (overall-false rest)
  ]

  overall_iff :
      (order : List (Text × CheckFunc S)) → (overall s order true ≡ true) ↔ All (Passes s) order
  unfolding overall
  overall_iff [] = (λ h. tt, λ h. refl)
  overall_iff ((n, f) ∷ rest) =
      let (forth, back) = overall_iff rest in
      let (p, q) = run_check_iff (f s) in
      elim (Bool-cases (run_check (f s))) [
        | inl y ↦ rw y (λ h. (p y, forth h), λ h. back h.1)
        | inr m ↦ rw m (λ h. absurd (cc (overall-false rest, h)), λ h. absurd (cc (m, q h.0)))
      ]

  All-Perm :
      (P : Text × CheckFunc S → Type 0) {xs ys : List (Text × CheckFunc S)}
      → Permᴰ xs ys
      → All P xs
      → All P ys
  All-Perm P (Permᴰ.nil) h = tt
  All-Perm P (Permᴰ.cons e p) h = (subst P e h.0, All-Perm P p h.1)
  All-Perm P (Permᴰ.swap e f) h = (subst P f h.1.0, (subst P e h.0, h.1.1))
  All-Perm P (Permᴰ.trans p q) h = All-Perm P q (All-Perm P p h)

-- Whatever the order in which the checks end, the readiness endpoint answers 200 with the status
-- "ok" exactly if there is a check and every check passes, neither with an error nor with a panic;
-- in every other case it answers 503 with the status "fail".
pub readyz_iff :
    {S : Type 0} (checks : HealthChecker S) (s : S) (order : List (Text × CheckFunc S))
    → Permᴰ order checks
    → (((readyz checks s order).code ≡ 200) ↔ ((1 ≤ size checks) × All (Passes s) checks))
      × ((readyz checks s order ≡ record { code = 200; body = status_ok })
          ⊎ (readyz checks s order ≡ record { code = 503; body = status_fail }))
unfolding readyz
readyz_iff {S} checks s order p =
    let (forth, back) = overall_iff s order in
    elim (Bool-cases (size checks == 0)) [
      | inl y ↦ rw y ((λ h. absurd (ground arith), λ h. absurd (ground (arith, h.0))), inr refl)
      | inr n ↦ elim (Bool-cases (overall s order true)) [
        | inl y ↦
            rw (n, y)
              ((λ h. (ground arith, All-Perm s (Passes s) p (forth y)), λ h. refl), inl refl)
        | inr m ↦
            rw (n, m)
              (
                (
                  λ h. absurd (ground arith),
                  λ h. absurd (cc (m, back (All-Perm s (Passes s) (List.Permᴰ.symm p) h.1))),
                ),
                inr refl,
              )
      ]
    ]

-- A name is registered once: a second registration panics, and a first one adds one check.
pub register_once :
    {S : Type 0} (name : Text) (f g : CheckFunc S) (checks checks' : HealthChecker S)
    → register name f checks ≡ some checks'
    → (lookup name checks' ≡ some f) × (register name g checks' ≡ none)
unfolding register
register_once {S} name f g checks checks' h = elim (Bool-cases (is_some (lookup name checks))) [
  | inl y ↦ absurd (cc (rw y at h))
  | inr n ↦
      let e : insert name f checks ≡ checks' = cc (rw n at h) in
      let there : lookup name checks' ≡ some f =
        rw (← e) (rw (lookup-insert name name f checks, text_eq_refl name) refl) in
      (there, rw there refl)
]
