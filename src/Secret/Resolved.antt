-- ===== src/Secret/Resolved.antt =====
-- What the resolvers of internal/secret/resolve.go return.
use mathlib.Core.List.{reverse, reverse-cons, reverse-append, reverse-reverse}
use azath.Prelude.{
  ok, ◌==◌, Bool-cases, Option-cases, length, All, All-append, Text, Bytes, codes, contains_byte,
  zero_bytes-zero, ◌≤◌, ◌≡◌, refl, sym, ap, ◌∙◌, ◌≢◌, ◌↔◌, inl, inr, true, false, ◌||◌, [], ◌∷◌,
  ◌++◌, arith,
}
use azath.Config.Validation.{StandardLibrary, Field, cut_prefix, cut_slash, validate_op_ref}
use azath.Secret.{
  drop_newlines, OpRead, trim_newlines, op_resolve, field_segment, succeeds, exits, fails,
}

module _ (lib : StandardLibrary) where
  -- The validation of the configuration and the resolver agree: a reference that is not empty
  -- passes the one exactly if the other finds the field of it.
  pub validated_ref_iff :
      (f : Field) (ref : Text)
      → 1 ≤ length ref
      → (validate_op_ref lib f ref ≡ []) ↔ ((field : Text) × (field_segment lib ref ≡ ok field))
  unfolding validate_op_ref field_segment
  validated_ref_iff f ref l =
      let n : (length ref == 0) ≡ false = ground arith in
      elim (Option-cases (cut_prefix ref (codes "op://"))) [
        | inl a ↦ rw (n, a) (λ h. absurd (cc h), λ h. absurd (cc (h.1)))
        | inr (rest, a) ↦ elim (Option-cases (cut_slash rest)) [
          | inl b ↦ rw (n, a, b) (λ h. absurd (cc h), λ h. absurd (cc (h.1)))
          | inr ((first, tail), b) ↦ elim (Option-cases (cut_slash tail)) [
            | inl d ↦ rw (n, a, b, d) (λ h. absurd (cc h), λ h. absurd (cc (h.1)))
            | inr ((second, third), d) ↦
                elim (Bool-cases (
                  lib.trims_to_nothing first
                  || (lib.trims_to_nothing second
                      || (lib.trims_to_nothing third || contains_byte third b'/')))) [
                        | inl y ↦ rw (n, a, b, d, y) (λ h. absurd (cc h), λ h. absurd (cc (h.1)))
                        | inr m ↦ rw (n, a, b, d, m) (λ h. (third, refl), λ h. refl)
                      ]
          ]
        ]
      ]

-- Whatever way `op read` ends, no byte of its output is left in the buffer.
pub op_resolve_wipes : (r : OpRead) → All (λ x. x ≡ 0) (op_resolve r).buffer
unfolding op_resolve
op_resolve_wipes (exits code out) = zero_bytes-zero out
op_resolve_wipes (fails out) = zero_bytes-zero out
op_resolve_wipes (succeeds out) = elim (Bool-cases (length out == 0)) [
  | inl y ↦ rw y (no_bytes out y)
  | inr n ↦ rw n (zero_bytes-zero out)
]
  where
    no_bytes : (s : Bytes) → (length s == 0) ≡ true → All (λ x. x ≡ 0) s
    no_bytes [] k = tt
    no_bytes (x ∷ s) k = absurd (ground arith)

abbrev IsLineEnds : Bytes → Type 0
IsLineEnds = All (λ c. c ≡ 10)

-- The line ends that drop_newlines takes off, and what it stops at.
dropped :
    (s : Bytes)
    → (ends : Bytes) × IsLineEnds ends
      × (s ≡ ends ++ drop_newlines s)
      × ((rest : Bytes) → drop_newlines s ≢ 10 ∷ rest)
unfolding drop_newlines
dropped [] = ([], tt, refl, λ rest h. cc h)
dropped (c ∷ cs) = elim (Bool-cases (c == 10)) [
  | inl y ↦
      let (ends, l, e, n) = dropped cs in
      let ten : c ≡ 10 = ground arith in rw y (10 ∷ ends, (refl, l), cc (ten, e), n)
  | inr n ↦ rw n ([], tt, refl, λ rest h. ground arith)
]

IsLineEnds-reverse : (s : Bytes) → IsLineEnds s → IsLineEnds (reverse s)
IsLineEnds-reverse [] h = tt
IsLineEnds-reverse (c ∷ cs) h =
    rw (reverse-cons c cs)
      (All-append (λ c. c ≡ 10) (reverse cs) (c ∷ []) (IsLineEnds-reverse cs h.1) (h.0, tt))

-- The secret that `op read` gives is its output without the line ends at its end; it is empty if
-- the output has nothing but line ends, although an output without any bytes is an error.
pub op_resolve_trims :
    (out : Bytes)
    → 1 ≤ length out
    → (value : Bytes) × (ends : Bytes) × ((op_resolve (succeeds out)).result ≡ ok value)
      × (out ≡ value ++ ends)
      × All (λ c. c ≡ 10) ends
      × ((rest : Bytes) → value ≢ rest ++ (10 ∷ []))
unfolding op_resolve trim_newlines
op_resolve_trims out l =
    let n : (length out == 0) ≡ false = ground arith in
    let (ends, line, e, stops) = dropped (reverse out) in
    let d = drop_newlines (reverse out) in
    (
      reverse d,
      reverse ends,
      rw n refl,
      sym (reverse-reverse out) ∙ (ap reverse e ∙ reverse-append ends d),
      IsLineEnds-reverse ends line,
      λ rest h.
          stops (reverse rest)
            (sym (reverse-reverse d) ∙ (ap reverse h ∙ reverse-append rest (10 ∷ []))),
    )
