-- ===== src/Commands/Devices.antt =====
-- The tree of yaml.v3 as cmd/azath/config_toggle_cmd.go and config_newdevice_cmd.go edit it, and
-- their edits.
pub mod Toggled
pub mod Runs
use azath.Prelude.{
  Result, map_result, ok, err, if◌then◌else◌, text_eq, Text, Bytes, codes, Bool, true, false, not,
  ◌&&◌, ◌||◌, Option, none, some, [],
}

pub data Kind : Type 0 where
  document_node sequence_node mapping_node scalar_node alias_node unset_node : Kind

-- A yaml.Node: its kind, its tag, its value, the fields that the code leaves alone (style, anchor,
-- alias and comments), and its content.
mutual
  pub data Node : Type 0 where
    node : Kind → Text → Text → Bytes → Nodes → Node

  pub data Nodes : Type 0 where
    nil : Nodes
    cons : Node → Nodes → Nodes

pub data EditError : Type 0 where
  not_parsed unexpected_structure no_devices not_a_sequence not_found not_marshalled : EditError

abbrev pub kind_of : Node → Kind
kind_of (node k t v o c) = k

abbrev pub value_of : Node → Text
value_of (node k t v o c) = v

abbrev pub content_of : Node → Nodes
content_of (node k t v o c) = c

abbrev pub with_value : Text → Node → Node
with_value w (node k t v o c) = node k t w o c

abbrev pub with_content : Nodes → Node → Node
with_content d (node k t v o c) = node k t v o d

-- append(a, b...)
abbrev pub append : Nodes → Nodes → Nodes
append nil b = b
append (cons n a) b = cons n (append a b)

-- &yaml.Node{Kind: yaml.ScalarNode, Tag: tag, Value: value}
abbrev pub scalar : Text → Text → Node
scalar tag value = node scalar_node tag value [] nil

abbrev pub is_mapping : Kind → Bool
is_mapping mapping_node = true
is_mapping _ = false

abbrev pub is_sequence : Kind → Bool
is_sequence sequence_node = true
is_sequence _ = false

abbrev pub is_document : Kind → Bool
is_document document_node = true
is_document _ = false

-- The loops over key and value, for j := 0; j+1 < len(content); j += 2 ---------------------------

-- Whether a pair says that the name is this one.
unfoldable pub is_named : Text → Nodes → Bool
is_named name nil = false
is_named name (cons k nil) = false
is_named name (cons k (cons v rest)) =
    (text_eq (value_of k) (codes "name") && text_eq (value_of v) name) || is_named name rest

-- setOrAddDisabledField, on the content: the value of the first such key, or else a new pair.
unfoldable pub set_or_add : Text → Nodes → Nodes
set_or_add val nil =
    cons (scalar (codes "!!str") (codes "disabled")) (cons (scalar (codes "!!bool") val) nil)
set_or_add val (cons k nil) =
    cons k
      (cons (scalar (codes "!!str") (codes "disabled")) (cons (scalar (codes "!!bool") val) nil))
set_or_add val (cons k (cons v rest)) =
    let others = set_or_add val rest in
    if text_eq (value_of k) (codes "disabled")
    then cons k (cons (with_value val v) rest)
    else cons k (cons v others)

-- removeDisabledField, on the content.
unfoldable pub remove_disabled : Nodes → Nodes
remove_disabled nil = nil
remove_disabled (cons k nil) = cons k nil
remove_disabled (cons k (cons v rest)) =
    let others = remove_disabled rest in
    if text_eq (value_of k) (codes "disabled") then rest else cons k (cons v others)

-- One device of the loop over devicesSeq.Content.
unfoldable pub set_disabled : Bool → Node → Node
set_disabled true device = with_content (set_or_add (codes "true") (content_of device)) device
set_disabled false device = with_content (remove_disabled (content_of device)) device

abbrev pub is_device : Text → Node → Bool
is_device name device = is_mapping (kind_of device) && is_named name (content_of device)

keep_first : Node → Option Nodes → Option Nodes
keep_first device none = none
keep_first device (some rest) = some (cons device rest)

-- The loop; none if no device has the name.
unfoldable pub toggle_items : Text → Bool → Nodes → Option Nodes
unfolding keep_first
toggle_items name disabled nil = none
toggle_items name disabled (cons device rest) =
    let others = toggle_items name disabled rest in
    if is_device name device
    then some (cons (set_disabled disabled device) rest)
    else keep_first device others

-- The devices of the document ------------------------------------------------------------------

-- An edit of the content of the first value under "devices", which has to be a sequence.
in_sequence : (Nodes → Result EditError Nodes) → Node → Result EditError Node
in_sequence edit seq =
    if not (is_sequence (kind_of seq))
    then err not_a_sequence
    else map_result (λ c. with_content c seq) (edit (content_of seq))

unfoldable pub edit_devices : (Nodes → Result EditError Nodes) → Nodes → Result EditError Nodes
unfolding in_sequence
edit_devices edit nil = err no_devices
edit_devices edit (cons k nil) = err no_devices
edit_devices edit (cons k (cons v rest)) =
    let others = edit_devices edit rest in
    if text_eq (value_of k) (codes "devices")
    then map_result (λ seq. cons k (cons seq rest)) (in_sequence edit v)
    else map_result (λ c. cons k (cons v c)) others

edit_root : (Nodes → Result EditError Nodes) → Node → Nodes → Result EditError Node
unfolding edit_devices
edit_root edit doc nil = err unexpected_structure
edit_root edit doc (cons root others) =
    map_result (λ c. with_content (cons (with_content c root) others) doc)
      (edit_devices edit (content_of root))

unfoldable pub edit_document : (Nodes → Result EditError Nodes) → Node → Result EditError Node
unfolding edit_root
edit_document edit doc =
    if not (is_document (kind_of doc))
    then err unexpected_structure
    else edit_root edit doc (content_of doc)

found : Option Nodes → Result EditError Nodes
found none = err not_found
found (some items) = ok items

-- setDeviceDisabledNode between yaml.Unmarshal and yaml.Marshal.
unfoldable pub set_device_disabled : Text → Bool → Node → Result EditError Node
unfolding found
set_device_disabled name disabled =
    edit_document (λ items. found (toggle_items name disabled items))

-- The node of a new device.
abbrev pub new_device : Text → Text → Node
new_device name id = node mapping_node (codes "!!map") [] [] (
    cons (scalar (codes "!!str") (codes "name")) (
      cons (scalar (codes "!!str") name)
        (cons (scalar (codes "!!str") (codes "uuid")) (cons (scalar (codes "!!str") id) nil))))

-- appendDeviceNode between yaml.Unmarshal and yaml.Marshal.
unfoldable pub append_device : Text → Text → Node → Result EditError Node
append_device name id = edit_document (λ items. ok (append items (cons (new_device name id) nil)))
