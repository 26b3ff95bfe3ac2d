-- ===== src/Commands/Devices/Toggled.antt =====
-- What the edits of cmd/azath/config_toggle_cmd.go and config_newdevice_cmd.go do to the devices.
pub mod Fields
pub mod Document
use azath.Prelude.{
  Bool-cases, Option-cases, Text, ◌≡◌, refl, ap, inl, inr, Bool, true, false, none, some, arith,
}
use azath.Commands.Devices.{
  Node, Nodes, nil, cons, nil, cons, append, set_disabled, is_device, toggle_items,
}

-- No node of the list is a device with the name.
abbrev pub NotAmong : Text → Nodes → Type 0
NotAmong name nil = Unit
NotAmong name (cons device rest) = (is_device name device ≡ false) × NotAmong name rest

-- The first device with the name is changed, and nothing else.
pub record IsToggled (name : Text) (disabled : Bool) (items items' : Nodes) : Type 0 where
  pub before : Nodes
  pub device : Node
  pub after : Nodes
  pub splits : items ≡ append before (cons device after)
  pub becomes : items' ≡ append before (cons (set_disabled disabled device) after)
  pub first : NotAmong name before
  pub named : is_device name device ≡ true

later :
    {name : Text} {disabled : Bool} {items items' : Nodes} (device : Node)
    → is_device name device ≡ false
    → IsToggled name disabled items items'
    → IsToggled name disabled (cons device items) (cons device items')
later device n t = record {
  before = cons device t.before;
  device = t.device;
  after = t.after;
  splits = ap (cons device) t.splits;
  becomes = ap (cons device) t.becomes;
  first = (n, t.first);
  named = t.named;
}

pub toggle_items-IsToggled :
    (name : Text) (disabled : Bool) (items items' : Nodes)
    → toggle_items name disabled items ≡ some items'
    → IsToggled name disabled items items'
unfolding toggle_items
toggle_items-IsToggled name disabled nil items' h = absurd (cc h)
toggle_items-IsToggled name disabled (cons device rest) items' h =
    elim (Bool-cases (is_device name device)) [
      | inl y ↦ record {
        before = nil;
        device = device;
        after = rest;
        splits = refl;
        becomes = ground arith;
        first = tt;
        named = y;
      }
      | inr n ↦ elim (Option-cases (toggle_items name disabled rest)) [
        | inl m ↦ absurd (cc (rw (n, m) at h))
        | inr (others, m) ↦
            let e : cons device others ≡ items' = cc (rw (n, m) at h) in
            rw (← e) (later device n (toggle_items-IsToggled name disabled rest others m))
      ]
    ]

-- The loop finds no device exactly if there is none with the name.
pub toggle_items-none :
    (name : Text) (disabled : Bool) (items : Nodes)
    → NotAmong name items
    → toggle_items name disabled items ≡ none
unfolding toggle_items
toggle_items-none name disabled nil h = refl
toggle_items-none name disabled (cons device rest) h =
    rw (h.0, toggle_items-none name disabled rest h.1) refl
