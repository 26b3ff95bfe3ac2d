-- ===== src/Commands/Serve/Undone.antt =====
-- What the deferred calls of runServe of cmd/azath/serve.go undo, and in which order.
use azath.Prelude.{
  if◌then◌else◌, Bool-cases, is_some, All, Bytes, zero_bytes-zero, ◌≡◌, refl, ap, inl, inr, Bool,
  true, false, not, ◌||◌, Option, none, some, List, [], ◌∷◌, ◌++◌, arith,
}
use azath.Keymanager.{Manager, destroyed}
use azath.Commands.Serve.{
  ServeError, Event, Serving, returns, then_wipe, with_bot_token, manager_made, token_read,
  server_made, then_close_gate, after_event, key_loaded, gate_made, server_closed, gate_closed,
  token_wiped, key_destroyed,
}

abbrev pub has : (Event → Bool) → List Event → Bool
has p [] = false
has p (e ∷ es) = p e || has p es

abbrev pub is_key_loaded : Event → Bool
is_key_loaded key_loaded = true
is_key_loaded _ = false

abbrev pub is_gate_made : Event → Bool
is_gate_made gate_made = true
is_gate_made _ = false

-- The call that undoes what has been made.
abbrev pub undo_of : Event → Option Event
undo_of manager_made = some key_destroyed
undo_of token_read = some token_wiped
undo_of gate_made = some gate_closed
undo_of server_made = some server_closed
undo_of _ = none

abbrev pub is_undo : Event → Bool
is_undo key_destroyed = true
is_undo token_wiped = true
is_undo gate_closed = true
is_undo server_closed = true
is_undo _ = false

abbrev pub undos : List Event → List Event
undos [] = []
undos (e ∷ es) = if is_undo e then e ∷ undos es else undos es

abbrev then_undo : Option Event → List Event → List Event
then_undo none es = es
then_undo (some e) es = es ++ (e ∷ [])

-- A reference for the undoing: what has been made is undone in the reverse order.
abbrev pub reversed : List Event → List Event
reversed [] = []
reversed (e ∷ es) = then_undo (undo_of e) (reversed es)

-- A manager that was made is destroyed, with nothing of the key.
abbrev pub IsDestroyed : Option Manager → Type 0
IsDestroyed none = Unit
IsDestroyed (some m) = (m.state ≡ destroyed) × All (λ x. x ≡ 0) m.key

abbrev pub IsZero : Option Bytes → Type 0
IsZero none = Unit
IsZero (some b) = All (λ x. x ≡ 0) b

-- The gate is made from a token that has a buffer.
abbrev pub HasToken : Serving → Type 0
HasToken s = (not (has is_gate_made s.events) || is_some s.bot_token) ≡ true

-- What has been made is undone.
pub record IsUndone (s : Serving) : Type 0 where
  pub key : IsDestroyed s.manager
  pub token : IsZero s.bot_token
  pub order : undos s.events ≡ reversed s.events

pub has-append : (p : Event → Bool) (xs ys : List Event) → has p (xs ++ ys) ≡ (has p xs || has p ys)
has-append p [] ys = refl
has-append p (x ∷ xs) ys = ground (arith, has-append p xs ys)

undos-append : (es : List Event) (u : Event) → undos (es ++ (u ∷ [])) ≡ undos es ++ undos (u ∷ [])
undos-append [] u = refl
undos-append (e ∷ es) u = elim (Bool-cases (is_undo e)) [
  | inl y ↦ rw y (ap (λ r. e ∷ r) (undos-append es u))
  | inr n ↦ rw n (undos-append es u)
]

-- An undoing at the end makes nothing.
reversed-append :
    (es : List Event) (u : Event) → undo_of u ≡ none → reversed (es ++ (u ∷ [])) ≡ reversed es
reversed-append [] u n = rw n refl
reversed-append (e ∷ es) u n = ap (then_undo (undo_of e)) (reversed-append es u n)

-- What is made before a list of events in order, and undone after it, leaves the order.
pub in_order :
    (m u : Event) (es : List Event)
    → undo_of m ≡ some u
    → is_undo m ≡ false
    → undo_of u ≡ none
    → is_undo u ≡ true
    → undos es ≡ reversed es
    → undos (m ∷ (es ++ (u ∷ []))) ≡ reversed (m ∷ (es ++ (u ∷ [])))
in_order m u es made no_undo makes_nothing undoes h =
    rw (no_undo, made, undos-append es u, reversed-append es u makes_nothing, undoes, h) refl

pub returns-IsUndone : (e : ServeError) → IsUndone (returns e [])
returns-IsUndone e = record { key = tt; token = tt; order = refl }

pub wiped-IsUndone :
    (b : Bytes) (s : Serving) → IsUndone s → IsUndone (then_wipe (with_bot_token b s))
wiped-IsUndone b s c = record {
  key = c.key;
  token = zero_bytes-zero b;
  order = in_order token_read token_wiped s.events refl refl refl refl c.order;
}

pub wiped-HasToken : (b : Bytes) (s : Serving) → HasToken (then_wipe (with_bot_token b s))
wiped-HasToken b s = ground arith

pub gate-IsUndone :
    (s : Serving) → IsUndone s → IsUndone (after_event gate_made (then_close_gate s))
gate-IsUndone s c = record {
  key = c.key;
  token = c.token;
  order = in_order gate_made gate_closed s.events refl refl refl refl c.order;
}
