-- ===== src/Gate/Prompts/Polled.antt =====
-- How pollLoop of internal/gate/telegram.go goes on and ends.
use azath.Prelude.{
  Result, ok, err, if◌then◌else◌, Bool-cases, length, All, Bytes, ℕ, ◌+◌, ◌≤◌, ◌≡◌, refl, inl, inr,
  Bool, false, ◌||◌, List, [], ◌∷◌, arith,
}
use azath.Uuid.{UuidLibrary}
use azath.Gate.{TelegramGate}
use azath.Gate.Codec.{Mac}
use azath.Gate.Updates.{PollError, get_updates}
use azath.Gate.Prompts.{Round, Polling, polled, poll_loop}

-- A reference for the end of the loop: its context is done in one of the rounds.
abbrev pub is_stopped : List Round → Bool
is_stopped [] = false
is_stopped (r ∷ rs) = r.is_done || (r.is_interrupted || is_stopped rs)

-- How many rounds of the loop ask Telegram.
abbrev pub asking : List Round → ℕ
asking [] = 0
asking (r ∷ rs) = if r.is_done then 0 else if r.is_interrupted then 1 else asking rs + 1

-- What holds of a loop that has run through these rounds.
pub record HasPolled (rs : List Round) (p : Polling) : Type 0 where
  pub returned_iff : p.has_returned ≡ is_stopped rs
  pub delay_each : length p.delays ≡ asking rs
  pub delays_long : All (λ s. 1 ≤ s) p.delays

polled_long : (r : Result PollError TelegramGate) (g : TelegramGate) → 1 ≤ (polled r g).1
unfolding polled
polled_long (err e) g = omega arith
polled_long (ok g') g = omega arith

module _ (u : UuidLibrary) (mac : Mac) (hmac_key : Bytes) where
  -- An error of getUpdates never ends pollLoop: the loop returns exactly if its context is done in
  -- one of its rounds, at the start or during the delay. Every round that asks Telegram, with or
  -- without success, has a delay of its own, of at least a second.
  pub poll_loop-HasPolled :
      (rs : List Round) (g : TelegramGate) → HasPolled rs (poll_loop u mac hmac_key rs g)
  unfolding poll_loop
  poll_loop-HasPolled [] g = record { returned_iff = refl; delay_each = refl; delays_long = tt }
  poll_loop-HasPolled (r ∷ rs) g =
      let result = get_updates u mac hmac_key r.fetched g in
      let rest = poll_loop-HasPolled rs (r.meanwhile (polled result g).0) in
      let long = polled_long result g in
      elim (Bool-cases r.is_done) [
        | inl y ↦ record { returned_iff = rw y refl; delay_each = rw y refl; delays_long = rw y tt }
        | inr n ↦ elim (Bool-cases r.is_interrupted) [
          | inl y ↦ record {
            returned_iff = rw (n, y) refl;
            delay_each = rw (n, y) refl;
            delays_long = rw (n, y) (long, tt);
          }
          | inr m ↦ record {
            returned_iff = rw (n, m) rest.returned_iff;
            delay_each = rw (n, m) (omega (arith, rest.delay_each));
            delays_long = rw (n, m) (long, rest.delays_long);
          }
        ]
      ]
