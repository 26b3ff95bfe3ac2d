-- ===== src/Gate/Construction/Callers.antt =====
-- What Check of internal/gate/telegram.go passes on.
use azath.Prelude.{
  Bool-cases, Option-cases, Text, Bytes, ℕ, ◌≡◌, refl, ◌⊎◌, inl, inr, Bool, true, false, none, some,
}
use azath.Uuid.{UuidLibrary}
use azath.Gate.{TelegramGate, Device, denied}
use azath.Gate.Steps.{apply, enters}
use azath.Gate.Construction.{check, answers, context_error}

-- A call of Check either leaves the gate as it is, and then answers Denied for a UUID that does not
-- parse or returns the context's error, or is the entry event of the machine for the canonical UUID.
pub check_entry :
    (u : UuidLibrary) (ctx_err later_err : Bool) (device : Device) (now : ℕ) (g : TelegramGate)
    → ((u.parse device.uuid ≡ none)
        × (check u ctx_err later_err device now g ≡ (answers denied, g)))
      ⊎ ((bits : Bytes) × (u.parse device.uuid ≡ some bits)
          × (((ctx_err ≡ true) × (check u ctx_err later_err device now g ≡ (context_error, g)))
              ⊎ ((ctx_err ≡ false)
                  × ((check u ctx_err later_err device now g).1
                      ≡ apply
                          (enters later_err (record device { uuid = u.to_string bits }) now)
                          g))))
unfolding check apply
check_entry u ctx_err later_err device now g = elim (Option-cases (u.parse device.uuid)) [
  | inl n ↦ inl (n, rw n refl)
  | inr (bits, p) ↦ inr (
    bits,
    p,
    elim (Bool-cases ctx_err) [ inl y ↦ inl (y, rw (p, y) refl) | inr n ↦ inr (n, rw (p, n) refl) ],
  )
]

-- Two spellings of one device's UUID are one device to the gate.
pub check_spelling :
    (u : UuidLibrary) (ctx_err later_err : Bool) (name a b : Text) (now : ℕ) (g : TelegramGate)
    → u.parse a ≡ u.parse b
    → check u ctx_err later_err (record { name = name; uuid = a }) now g
      ≡ check u ctx_err later_err (record { name = name; uuid = b }) now g
unfolding check
check_spelling u ctx_err later_err name a b now g h = elim (Option-cases (u.parse b)) [
  | inl n ↦ rw (h, n) refl
  | inr (bits, p) ↦ rw (h, p) refl
]
