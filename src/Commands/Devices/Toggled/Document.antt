-- ===== src/Commands/Devices/Toggled/Document.antt =====
-- The document around the devices: the edits of cmd/azath/config_toggle_cmd.go and
-- config_newdevice_cmd.go leave it alone.
use azath.Prelude.{
  Result, Result-cases, ok, if◌then◌else◌, Bool-cases, text_eq, Text, codes, ◌≡◌, refl, sym, ap,
  ◌∙◌, inl, inr, Bool, Option, none, some,
}
use azath.Commands.Devices.{
  found, edit_root, Node, Nodes, node, nil, cons, cons, node, EditError, kind_of, value_of,
  content_of, with_content, append, is_sequence, is_document, set_disabled, toggle_items,
  edit_devices, edit_document, set_device_disabled, new_device, append_device, document_node,
  sequence_node, mapping_node, scalar_node, alias_node, unset_node,
}
use azath.Commands.Devices.Toggled.{IsToggled, toggle_items-IsToggled}
use azath.Commands.Devices.Toggled.Fields.{
  AreWellFormed-append, AreWellFormed, field_of, disabled_key, new_field, field_of-set_disabled,
}

sequence_items : Node → Option Nodes
sequence_items seq = if is_sequence (kind_of seq) then some (content_of seq) else none

-- The content of the first value under "devices", if that is a sequence.
unfoldable pub devices_in : Nodes → Option Nodes
unfolding sequence_items
devices_in nil = none
devices_in (cons k nil) = none
devices_in (cons k (cons v rest)) =
    if text_eq (value_of k) (codes "devices") then sequence_items v else devices_in rest

root_devices : Nodes → Option Nodes
root_devices nil = none
root_devices (cons root others) = devices_in (content_of root)

-- The devices of a document.
unfoldable pub devices_of : Node → Option Nodes
unfolding root_devices
devices_of doc = if is_document (kind_of doc) then root_devices (content_of doc) else none

with_content_twice : (a b : Nodes) (n : Node) → with_content a (with_content b n) ≡ with_content a n
with_content_twice a b (node k t v o c) = refl

with_content_same : (n : Node) → with_content (content_of n) n ≡ n
with_content_same (node k t v o c) = refl

kind_kept : (a : Nodes) (n : Node) → kind_of (with_content a n) ≡ kind_of n
kind_kept a (node k t v o c) = refl

content_set : (a : Nodes) (n : Node) → content_of (with_content a n) ≡ a
content_set a (node k t v o c) = refl

-- The old devices and the new ones, and that putting the old ones back gives the old content.
record IsEdit (edit : Nodes → Result EditError Nodes) (c c' : Nodes) : Type 0 where
  pub items : Nodes
  pub items' : Nodes
  pub had : devices_in c ≡ some items
  pub edited : edit items ≡ ok items'
  pub has : devices_in c' ≡ some items'
  pub back : edit_devices (λ _. ok items) c' ≡ ok c

edit_devices-IsEdit :
    (edit : Nodes → Result EditError Nodes) (c c' : Nodes)
    → edit_devices edit c ≡ ok c'
    → IsEdit edit c c'
unfolding edit_devices devices_in
edit_devices-IsEdit edit nil c' h = absurd (cc h)
edit_devices-IsEdit edit (cons k nil) c' h = absurd (cc h)
edit_devices-IsEdit edit (cons k (cons v rest)) c' h =
    elim (Bool-cases (text_eq (value_of k) (codes "devices"))) [
      | inl y ↦ elim (Bool-cases (is_sequence (kind_of v))) [
        | inr n ↦ absurd (cc (rw (y, n) at h))
        | inl s ↦ elim (Result-cases (edit (content_of v))) [
          | inl (e, b) ↦ absurd (cc (rw (y, s, b) at h))
          | inr (items', g) ↦
              let e : cons k (cons (with_content items' v) rest) ≡ c' = cc (rw (y, s, g) at h) in
              record {
                items = content_of v;
                items' = items';
                had = rw (y, s) refl;
                edited = g;
                has = rw (← e) (rw (y, kind_kept items' v, s, content_set items' v) refl);
                back = rw (← e) (
                    rw
                      (
                        y,
                        kind_kept items' v,
                        s,
                        with_content_twice (content_of v) items' v,
                        with_content_same v,
                      )
                      refl);
              }
        ]
      ]
      | inr n ↦ elim (Result-cases (edit_devices edit rest)) [
        | inl (e, b) ↦ absurd (cc (rw (n, b) at h))
        | inr (r, g) ↦
            let e : cons k (cons v r) ≡ c' = cc (rw (n, g) at h) in
            let ih = edit_devices-IsEdit edit rest r g in
            record {
              items = ih.items;
              items' = ih.items';
              had = rw n ih.had;
              edited = ih.edited;
              has = rw (← e) (rw n ih.has);
              back = rw (← e) (rw (n, ih.back) refl);
            }
      ]
    ]

-- The old devices and the new ones, and that putting the old ones back gives the old document.
pub record IsEdited (edit : Nodes → Result EditError Nodes) (doc doc' : Node) : Type 0 where
  pub items : Nodes
  pub items' : Nodes
  pub had : devices_of doc ≡ some items
  pub edited : edit items ≡ ok items'
  pub has : devices_of doc' ≡ some items'
  pub back : edit_document (λ _. ok items) doc' ≡ ok doc

edit_document-IsEdited :
    (edit : Nodes → Result EditError Nodes) (doc doc' : Node)
    → edit_document edit doc ≡ ok doc'
    → IsEdited edit doc doc'
unfolding edit_document edit_root devices_of
edit_document-IsEdited edit (node document_node t v o nil) doc' h = absurd (cc h)
edit_document-IsEdited edit (node document_node t v o (cons root others)) doc' h =
    elim (Result-cases (edit_devices edit (content_of root))) [
      | inl (e, b) ↦ absurd (cc (rw b at h))
      | inr (c, g) ↦
          let e : node document_node t v o (cons (with_content c root) others) ≡ doc' =
            cc (rw g at h) in
          let k = edit_devices-IsEdit edit (content_of root) c g in
          record {
            items = k.items;
            items' = k.items';
            had = k.had;
            edited = k.edited;
            has = rw (← e) (rw (content_set c root) k.has);
            back = rw (← e) (
                rw
                  (
                    content_set c root,
                    k.back,
                    with_content_twice (content_of root) c root,
                    with_content_same root,
                  )
                  refl);
          }
    ]
edit_document-IsEdited edit (node sequence_node t v o c) doc' h = absurd (cc h)
edit_document-IsEdited edit (node mapping_node t v o c) doc' h = absurd (cc h)
edit_document-IsEdited edit (node scalar_node t v o c) doc' h = absurd (cc h)
edit_document-IsEdited edit (node alias_node t v o c) doc' h = absurd (cc h)
edit_document-IsEdited edit (node unset_node t v o c) doc' h = absurd (cc h)

some_eq : {a b : Nodes} → some a ≡ some b → a ≡ b
some_eq e = cc e

found_some : (o : Option Nodes) (items' : Nodes) → found o ≡ ok items' → o ≡ some items'
unfolding found
found_some none items' h = absurd (cc h)
found_some (some items) items' h = cc h

-- Say that in a document the keys and values of the device nodes alternate, and that "disabled" is at
-- most once in each. Then disabling or enabling a device by its name, if it gives a document, changes
-- the first device node with the name and no other part of the document: the nodes before and after it
-- are the same, and with the old devices put back the document is the old one. In the changed node, the field "disabled"
-- is "true" after disabling and gone after enabling, and every other field has the value that it had.
pub toggle_changes_one :
    (name : Text) (disabled : Bool) (doc doc' : Node) (items : Nodes)
    → devices_of doc ≡ some items
    → AreWellFormed items
    → set_device_disabled name disabled doc ≡ ok doc'
    → (items' : Nodes) × (devices_of doc' ≡ some items')
      × (edit_document (λ _. ok items) doc' ≡ ok doc)
      × (t : IsToggled name disabled items items') × ((key : Text)
          → field_of key (content_of (set_disabled disabled t.device)) ≡ (
              if text_eq key disabled_key
              then new_field disabled
              else field_of key (content_of t.device)))
unfolding set_device_disabled
toggle_changes_one name disabled doc doc' items d good h =
    let k = edit_document-IsEdited (λ c. found (toggle_items name disabled c)) doc doc' h in
    let same : k.items ≡ items = some_eq (sym k.had ∙ d) in
    let t =
      toggle_items-IsToggled name disabled items k.items'
        (found_some _ k.items' (rw same at k.edited)) in
    let (paired, one) = AreWellFormed-append t.before t.device t.after (rw (t.splits) at good) in
    (
      k.items',
      k.has,
      rw same at k.back,
      t,
      λ key. field_of-set_disabled t.device paired one disabled key,
    )

-- Adding a device puts its node, with the name and the UUID, behind the others and changes no other
-- part of the document.
pub append_adds_one :
    (name id : Text) (doc doc' : Node)
    → append_device name id doc ≡ ok doc'
    → (items : Nodes) × (devices_of doc ≡ some items)
      × (devices_of doc' ≡ some (append items (cons (new_device name id) nil)))
      × (edit_document (λ _. ok items) doc' ≡ ok doc)
      × (field_of (codes "name") (content_of (new_device name id)) ≡ some name)
      × (field_of (codes "uuid") (content_of (new_device name id)) ≡ some id)
unfolding append_device field_of text_eq
append_adds_one name id doc doc' h =
    let k =
      edit_document-IsEdited (λ c. ok (append c (cons (new_device name id) nil))) doc doc' h in
    (k.items, k.had, k.has ∙ ap some (sym (ok_eq k.edited)), k.back, refl, refl)
  where
    ok_eq : {a b : Nodes} → ◌≡◌ {A = Result EditError Nodes} (ok a) (ok b) → a ≡ b
    ok_eq e = cc e
