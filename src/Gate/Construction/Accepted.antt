-- ===== src/Gate/Construction/Accepted.antt =====
-- Which arguments NewTelegramGate of internal/gate/telegram.go accepts.
use azath.Prelude.{
  Result, ok, Option-cases, length, Bytes, ℕ, ◌<◌, ◌≡◌, refl, sym, ◌∙◌, ◌↔◌, inl, inr, true, false,
  some, arith,
}
use azath.Prelude.Int.{ℤ, pos, negsuc, int_lt}
use azath.Gate.{new}
use azath.Gate.Construction.{
  parse_int, NewGateError, GateArguments, NewGate, five_minutes, interval_of, new_telegram_gate,
}

-- The arguments are complete and in range: a server name, a token, a numeric chat, a positive
-- user and TTL, a cache TTL that is not negative, and entropy for the key.
pub record IsAcceptable (a : GateArguments) (chat : ℤ) (user ttl cache : ℕ) (key : Bytes)
    : Type 0 where
  pub has_name : 0 < length a.server_name
  pub has_token : 0 < length a.bot_token
  pub has_chat : parse_int a.chat_id ≡ some chat
  pub has_user : (a.authorized_user_id ≡ pos user) × (0 < user)
  pub has_ttl : (a.approval_ttl ≡ pos ttl) × (0 < ttl)
  pub has_cache : a.approval_cache_ttl ≡ pos cache
  pub has_key : a.random_key ≡ some key

-- The gate that such arguments make.
abbrev pub gate_of : GateArguments → ℤ → ℕ → ℕ → ℕ → Bytes → NewGate
gate_of a chat user ttl cache key = record {
  gate =
      new
        (record {
          chat_id_int = chat;
          authorized_user_id = pos user;
          approval_ttl = ttl;
          approval_cache_ttl = cache;
        })
        (interval_of five_minutes a.intervals);
  bot_token = a.bot_token;
  hmac_key = key;
}

chat_nonempty :
    (a : GateArguments) (chat : ℤ) → parse_int a.chat_id ≡ some chat → 0 < length a.chat_id
unfolding parse_int
chat_nonempty a chat h = ground arith

pub accepts :
    (a : GateArguments) (chat : ℤ) (user ttl cache : ℕ) (key : Bytes)
    → IsAcceptable a chat user ttl cache key
    → new_telegram_gate a ≡ ok (gate_of a chat user ttl cache key)
unfolding new_telegram_gate
accepts a chat user ttl cache key x = let long = chat_nonempty a chat x.has_chat in ground arith

module _ (a : GateArguments) (r : NewGate) where
  user_positive : (x : ℤ) → int_lt (pos 0) x ≡ true → (n : ℕ) × (x ≡ pos n) × (0 < n)
  user_positive (pos n) h = (n, refl, ground arith)
  user_positive (negsuc n) h = absurd (ground arith)

  not_negative : (x : ℤ) → int_lt x (pos 0) ≡ false → (n : ℕ) × (x ≡ pos n)
  not_negative (pos n) h = (n, refl)
  not_negative (negsuc n) h = absurd (ground arith)

  accepted :
      new_telegram_gate a ≡ ok r
      → (chat : ℤ) × (user : ℕ) × (ttl : ℕ) × (cache : ℕ) × (key : Bytes) × IsAcceptable a chat user
          ttl cache key
  unfolding new_telegram_gate
  accepted h = elim (Option-cases (parse_int a.chat_id)) [
    | inl n ↦ absurd (ground arith)
    | inr (chat, p) ↦ elim (Option-cases a.random_key) [
      | inl n ↦ absurd (ground arith)
      | inr (key, k) ↦
          let (user, u, up) = user_positive a.authorized_user_id (ground arith) in
          let (ttl, t, tp) = user_positive a.approval_ttl (ground arith) in
          let (cache, c) = not_negative a.approval_cache_ttl (ground arith) in
          (
            chat,
            user,
            ttl,
            cache,
            key,
            record {
              has_name = ground arith;
              has_token = ground arith;
              has_chat = p;
              has_user = (u, up);
              has_ttl = (t, tp);
              has_cache = c;
              has_key = k;
            },
          )
    ]
  ]

-- NewTelegramGate returns a gate exactly for acceptable arguments, and the gate is a new one with
-- their chat, user and lifetimes, and five minutes between prompts unless an option says otherwise.
pub new_telegram_gate_iff :
    (a : GateArguments) (r : NewGate)
    → (new_telegram_gate a ≡ ok r) ↔ (
        (chat : ℤ) × (user : ℕ) × (ttl : ℕ) × (cache : ℕ) × (key : Bytes) × IsAcceptable a chat user
          ttl cache key
        × (r ≡ gate_of a chat user ttl cache key))
new_telegram_gate_iff a r = (
  λ h.
      let (chat, user, ttl, cache, key, x) = accepted a r h in
      (chat, user, ttl, cache, key, x, ok_eq (sym h ∙ accepts a chat user ttl cache key x)),
  λ (chat, user, ttl, cache, key, x, e). rw e (accepts a chat user ttl cache key x),
)
  where
    ok_eq : {s t : NewGate} → ◌≡◌ {A = Result NewGateError NewGate} (ok s) (ok t) → s ≡ t
    ok_eq q = cc q
