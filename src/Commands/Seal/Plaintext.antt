-- ===== src/Commands/Seal/Plaintext.antt =====
-- What readPlaintext and constantTimeEqual of cmd/azath/seal.go give.
use Prim.Native.Nat.{bit_or, bit_xor}
use azath.Prelude.{
  ok, ◌==◌, Bool-cases, Option-cases, length, length-take, take-of_le, All, Bytes, zero_bytes-zero,
  ℕ, suc, ◌≤◌, ◌≡◌, refl, ap, ◌∙◌, ◌↔◌, ◌⊎◌, inl, inr, Bool, true, false, Option, none, some, [],
  ◌∷◌, arith,
}
use azath.Prelude.Bits.{bit_or-zero_iff, bit_xor-zero_iff}
use azath.Commands.Seal.{
  at_most, World, Reading, constant_time_equal, read_plaintext, max_plaintext_size, differences,
  read_stdin, confirm, read_first,
}

differences_iff :
    (a b : Bytes) (result : ℕ)
    → length a ≡ length b
    → (differences a b result ≡ 0) ↔ ((result ≡ 0) × (a ≡ b))
unfolding differences
differences_iff [] [] result h = (λ k. (k, refl), λ k. k.0)
differences_iff [] (b ∷ bs) result h = absurd (omega arith)
differences_iff (a ∷ rest) [] result h = absurd (omega arith)
differences_iff (a ∷ rest) (b ∷ bs) result h =
    let (forth, back) = differences_iff rest bs (bit_or result (bit_xor a b)) (omega arith) in
    let (parts, join) = bit_or-zero_iff result (bit_xor a b) in
    let (same, equal) = bit_xor-zero_iff a b in
    (
      λ k. let (z, tails) = forth k in let (r, x) = parts z in (r, cc (same x, tails)),
      λ k.
          let head : a ≡ b = cc (k.1) in
          let tails : rest ≡ bs = cc (k.1) in back (join (k.0, equal head), tails),
    )

-- constantTimeEqual says exactly whether its arguments are equal.
pub constant_time_equal_iff : (a b : Bytes) → (constant_time_equal a b ≡ true) ↔ (a ≡ b)
unfolding constant_time_equal
constant_time_equal_iff a b = elim (Bool-cases (length a == length b)) [
  | inr n ↦ rw n (λ h. absurd (cc h), λ e. absurd (ground (arith, ap (length {A = ℕ}) e)))
  | inl y ↦
      let (forth, back) = differences_iff a b 0 (ground arith) in
      rw y (λ h. (forth (ground arith)).1, λ e. ground (arith, back (refl, e)))
]

at_most_iff :
    (limit : ℕ) (input p : Bytes)
    → (at_most limit input ≡ ok p) ↔ ((input ≡ p) × (length p ≤ limit))
unfolding at_most
at_most_iff limit input p =
    let n = length-take (suc limit) input in
    let whole = take-of_le (suc limit) input in
    (λ h. ground (arith, n, whole), λ h. ground (arith, n, whole))

read_stdin_iff :
    (o : Option Bytes) (p : Bytes)
    → (read_stdin o ≡ ok p) ↔ ((o ≡ some p) × (length p ≤ max_plaintext_size))
unfolding read_stdin
read_stdin_iff none p = (λ h. absurd (cc h), λ h. absurd (cc (h.0)))
read_stdin_iff (some input) p =
    let (forth, back) = at_most_iff max_plaintext_size input p in
    (λ h. let (e, l) = forth h in (ap some e, l), λ h. back (cc (h.0), h.1))

confirm_iff :
    (first second p : Bytes)
    → ((confirm first second).result ≡ ok p) ↔ ((first ≡ p) × (second ≡ p) × (1 ≤ length p))
unfolding confirm
confirm_iff first second p =
    let (same, equal) = constant_time_equal_iff first second in
    (
      λ h. elim (Bool-cases (constant_time_equal first second)) [
        | inr n ↦ absurd (cc (rw n at h))
        | inl y ↦ elim (Bool-cases (length first == 0)) [
          | inl z ↦ absurd (cc (rw (y, z) at h))
          | inr m ↦
              let e : first ≡ p = cc (rw (y, m) at h) in
              let f : second ≡ p = cc (e, same y) in (e, f, rw (← e) (ground arith))
        ]
      ],
      λ h.
          let y = equal (cc (h.0, h.1)) in
          let n : (length first == 0) ≡ false = rw (h.0) (ground (arith, h.2)) in
          rw (y, n) (ap ok h.0),
    )

-- What readPlaintext leaves in the two password buffers.
abbrev pub IsWiped : Reading → Type 0
IsWiped r = All (λ x. x ≡ 0) r.second × ((r.result ≡ ok r.first) ⊎ All (λ x. x ≡ 0) r.first)

confirm-IsWiped : (first second : Bytes) → IsWiped (confirm first second)
unfolding confirm
confirm-IsWiped first second = elim (Bool-cases (constant_time_equal first second)) [
  | inr n ↦ rw n (zero_bytes-zero second, inr (zero_bytes-zero first))
  | inl y ↦ rw y (elim (Bool-cases (length first == 0)) [
    | inl z ↦ rw z (zero_bytes-zero second, inr (zero_bytes-zero first))
    | inr m ↦ rw m (zero_bytes-zero second, inl refl)
  ])
]

module _ (w : World) where
  first_wipes : (first : Option Bytes) → IsWiped (read_first w first)
  unfolding read_first
  first_wipes none = (tt, inr tt)
  first_wipes (some a) = elim (Option-cases w.second) [
    | inl n ↦ rw n (tt, inr (zero_bytes-zero a))
    | inr (b, e) ↦ rw e (confirm-IsWiped a b)
  ]

  -- Without --prompt, readPlaintext returns the whole of stdin exactly if it can be read and has at
  -- most 1 MiB. With it, readPlaintext returns a secret exactly if there is a terminal, the secret
  -- is typed twice in the same way, and it is not empty.
  pub read_plaintext_iff :
      (prompt : Bool) (p : Bytes)
      → ((read_plaintext w prompt).result ≡ ok p) ↔ (
          ((prompt ≡ false) × (w.stdin ≡ some p) × (length p ≤ max_plaintext_size))
          ⊎ ((prompt ≡ true)
              × (w.is_terminal ≡ true)
              × (w.first ≡ some p)
              × (w.second ≡ some p)
              × (1 ≤ length p)))
  unfolding read_plaintext
  read_plaintext_iff false p = (
    λ h. let (e, l) = (read_stdin_iff w.stdin p).0 h in inl (refl, e, l),
    λ h. elim h [
      | inl (_, e, l) ↦ (read_stdin_iff w.stdin p).1 (e, l)
      | inr (f, _, _, _, _) ↦ absurd (cc f)
    ],
  )
  read_plaintext_iff true p = (
    λ h. elim (Bool-cases w.is_terminal) [
      | inr n ↦ absurd (cc (rw n at h))
      | inl y ↦ elim (Option-cases w.first) [
        | inl n ↦ absurd (cc (rw (y, n) at h))
        | inr (a, e) ↦ elim (Option-cases w.second) [
          | inl n ↦ absurd (cc (rw (y, e, n) at h))
          | inr (b, f) ↦
              let (q, r, l) = (confirm_iff a b p).0 (rw (y, e, f) at h) in
              inr (refl, y, e ∙ ap some q, f ∙ ap some r, l)
        ]
      ]
    ],
    λ h. elim h [
      | inl (f, _, _) ↦ absurd (cc f)
      | inr (_, y, e, f, l) ↦ rw (y, e, f) ((confirm_iff p p p).1 (refl, refl, l))
    ],
  )

  -- When readPlaintext returns, the buffer of the confirmation is zero, and so is the one of the
  -- first entry unless it is what the command goes on with.
  pub read_plaintext_wipes : (prompt : Bool) → IsWiped (read_plaintext w prompt)
  unfolding read_plaintext
  read_plaintext_wipes false = (tt, inr tt)
  read_plaintext_wipes true = elim (Bool-cases w.is_terminal) [
    | inr n ↦ rw n (tt, inr tt)
    | inl y ↦ rw y (first_wipes w.first)
  ]
