-- ===== src/Commands/Devices/Toggled/Fields.antt =====
-- The fields of a device's node under the edits of cmd/azath/config_toggle_cmd.go.
use azath.Prelude.{
  if◌then◌else◌, Bool-cases, text_eq, text_eq_iff, text_eq_refl, Text, codes, ◌≡◌, refl, sym, ap,
  ◌∙◌, ◌≢◌, inl, inr, Bool, true, false, Option, none, some,
}
use azath.Commands.Devices.{
  Node, Nodes, node, nil, cons, node, cons, value_of, content_of, with_value, with_content, append,
  set_or_add, remove_disabled, set_disabled,
}

-- Keys and values alternate.
abbrev pub IsPaired : Nodes → Type 0
IsPaired nil = Unit
IsPaired (cons k nil) = ⊥
IsPaired (cons k (cons v rest)) = IsPaired rest

-- The value of the first pair with the key.
unfoldable pub field_of : Text → Nodes → Option Text
field_of key nil = none
field_of key (cons k nil) = none
field_of key (cons k (cons v rest)) =
    if text_eq (value_of k) key then some (value_of v) else field_of key rest

-- The key does not stand twice.
abbrev pub HasOne : Text → Nodes → Type 0
HasOne key nil = Unit
HasOne key (cons k nil) = Unit
HasOne key (cons k (cons v rest)) =
    (text_eq (value_of k) key ≡ true → field_of key rest ≡ none) × HasOne key rest

abbrev pub disabled_key : Text
disabled_key = codes "disabled"

apart : (k key : Text) → key ≢ disabled_key → text_eq k disabled_key ≡ true → text_eq k key ≡ false
apart k key n h = elim (Bool-cases (text_eq k key)) [
  | inr f ↦ f
  | inl y ↦ absurd (n (sym ((text_eq_iff k key).0 y) ∙ (text_eq_iff k disabled_key).0 h))
]

value_of-with_value : (w : Text) (n : Node) → value_of (with_value w n) ≡ w
value_of-with_value w (node k t v o c) = refl

module _ (val : Text) where
  field_of-set_or_add :
      (c : Nodes) → IsPaired c → field_of disabled_key (set_or_add val c) ≡ some val
  unfolding field_of set_or_add text_eq
  field_of-set_or_add nil h = refl
  field_of-set_or_add (cons k nil) h = absurd h
  field_of-set_or_add (cons k (cons v rest)) h =
      elim (Bool-cases (text_eq (value_of k) disabled_key)) [
        | inl y ↦ rw (y, y, value_of-with_value val v) refl
        | inr n ↦ rw (n, n) (field_of-set_or_add rest h)
      ]

  field_of-set_or_add_other :
      (key : Text) (c : Nodes)
      → key ≢ disabled_key
      → IsPaired c
      → field_of key (set_or_add val c) ≡ field_of key c
  unfolding field_of set_or_add
  field_of-set_or_add_other key nil n h =
      rw (apart disabled_key key n (text_eq_refl disabled_key)) refl
  field_of-set_or_add_other key (cons k nil) n h = absurd h
  field_of-set_or_add_other key (cons k (cons v rest)) n h =
      elim (Bool-cases (text_eq (value_of k) disabled_key)) [
        | inl y ↦ rw (y, apart (value_of k) key n y) refl
        | inr m ↦ rw (m, field_of-set_or_add_other key rest n h) refl
      ]

field_of-remove_disabled :
    (c : Nodes) → HasOne disabled_key c → field_of disabled_key (remove_disabled c) ≡ none
unfolding field_of remove_disabled
field_of-remove_disabled nil h = refl
field_of-remove_disabled (cons k nil) h = refl
field_of-remove_disabled (cons k (cons v rest)) h =
    elim (Bool-cases (text_eq (value_of k) disabled_key)) [
      | inl y ↦ rw y (h.0 y)
      | inr n ↦ rw (n, n) (field_of-remove_disabled rest h.1)
    ]

field_of-remove_disabled_other :
    (key : Text) (c : Nodes)
    → key ≢ disabled_key
    → field_of key (remove_disabled c) ≡ field_of key c
unfolding field_of remove_disabled
field_of-remove_disabled_other key nil n = refl
field_of-remove_disabled_other key (cons k nil) n = refl
field_of-remove_disabled_other key (cons k (cons v rest)) n =
    elim (Bool-cases (text_eq (value_of k) disabled_key)) [
      | inl y ↦ rw (y, apart (value_of k) key n y) refl
      | inr m ↦ rw (m, field_of-remove_disabled_other key rest n) refl
    ]

-- The new value of the field: "true" for a disabled device, and no field for an enabled one.
abbrev pub new_field : Bool → Option Text
new_field true = some (codes "true")
new_field false = none

content_of-with_content : (d : Nodes) (n : Node) → content_of (with_content d n) ≡ d
content_of-with_content d (node k t v o c) = refl

module _ (device : Node) (paired : IsPaired (content_of device))
    (one : HasOne disabled_key (content_of device)) where
  set_disabled_field :
      (disabled : Bool)
      → field_of disabled_key (content_of (set_disabled disabled device)) ≡ new_field disabled
  unfolding set_disabled
  set_disabled_field true =
      rw (content_of-with_content (set_or_add (codes "true") (content_of device)) device)
        (field_of-set_or_add (codes "true") (content_of device) paired)
  set_disabled_field false =
      rw (content_of-with_content (remove_disabled (content_of device)) device)
        (field_of-remove_disabled (content_of device) one)

  set_disabled_others :
      (disabled : Bool) (key : Text)
      → key ≢ disabled_key
      → field_of key (content_of (set_disabled disabled device)) ≡ field_of key (content_of device)
  unfolding set_disabled
  set_disabled_others true key n =
      rw (content_of-with_content (set_or_add (codes "true") (content_of device)) device)
        (field_of-set_or_add_other (codes "true") key (content_of device) n paired)
  set_disabled_others false key n =
      rw (content_of-with_content (remove_disabled (content_of device)) device)
        (field_of-remove_disabled_other key (content_of device) n)

  -- Every field of the device after the edit.
  pub field_of-set_disabled :
      (disabled : Bool) (key : Text)
      → field_of key (content_of (set_disabled disabled device)) ≡ (
          if text_eq key disabled_key then new_field disabled else field_of key (content_of device))
  field_of-set_disabled disabled key = elim (Bool-cases (text_eq key disabled_key)) [
    | inl y ↦ rw y (
        ap (λ k. field_of k (content_of (set_disabled disabled device)))
          ((text_eq_iff key disabled_key).0 y)
        ∙ set_disabled_field disabled)
    | inr n ↦
        rw n (set_disabled_others disabled key (λ e. cc (n, (text_eq_iff key disabled_key).1 e)))
  ]

-- The nodes have alternating keys and values, and one "disabled" at most.
abbrev pub AreWellFormed : Nodes → Type 0
AreWellFormed nil = Unit
AreWellFormed (cons d rest) =
    (IsPaired (content_of d) × HasOne disabled_key (content_of d)) × AreWellFormed rest

pub AreWellFormed-append :
    (before : Nodes) (device : Node) (after : Nodes)
    → AreWellFormed (append before (cons device after))
    → IsPaired (content_of device) × HasOne disabled_key (content_of device)
AreWellFormed-append nil device after h = h.0
AreWellFormed-append (cons d before) device after h = AreWellFormed-append before device after h.1
