-- ===== src/Config/Devices/Table.antt =====
-- The devices of a validated configuration, in the server's table (internal/config/validate.go and
-- cmd/azath/serve.go).
use azath.Prelude.{
  Bool-cases, Option-cases, All, append_parts, text_eq, text_eq_iff, text_eq_refl, Text, Bytes,
  lookup, insert, Assoc, lookup-insert, ℕ, ◌+◌, ◌≡◌, refl, sym, ap, subst, ◌∙◌, inl, inr, false,
  Option, none, some, List, [], ◌∷◌, arith,
}
use azath.Uuid.{UuidLibrary}
use azath.Server.{DeviceInfo}
use azath.Config.{DeviceConfig}
use azath.Config.Devices.{
  Seen, check_uuid, check_name, validate_from, validate_devices, device_table,
}

-- The device has a UUID of its own, and the table gives its entry under the canonical UUID.
abbrev pub IsServed : UuidLibrary → Assoc DeviceInfo → DeviceConfig → Type 0
IsServed u table d =
    (bits : Bytes) × (u.parse d.uuid ≡ some bits)
    × (lookup (u.to_string bits) table
        ≡ some (record { name = d.name; uuid = u.to_string bits; disabled = d.disabled }))

-- A UUID that passes its check was not seen before, and is seen from then on.
check_uuid_ok :
    (u : UuidLibrary) (i : ℕ) (o : Option Bytes) (uuids : Assoc ℕ)
    → (check_uuid u i o uuids).1 ≡ []
    → (bits : Bytes) × (o ≡ some bits)
      × (lookup (u.to_string bits) uuids ≡ none)
      × ((check_uuid u i o uuids).0 ≡ insert (u.to_string bits) i uuids)
unfolding check_uuid
check_uuid_ok u i none uuids h = absurd (cc h)
check_uuid_ok u i (some bits) uuids h = elim (Option-cases (lookup (u.to_string bits) uuids)) [
  | inl n ↦ (bits, refl, n, rw n refl)
  | inr (prev, s) ↦ absurd (ground arith)
]

seen_apart :
    (a b : Text) (j : ℕ) (m : Assoc ℕ)
    → lookup a m ≡ none
    → lookup b m ≡ some j
    → text_eq a b ≡ false
seen_apart a b j m n l = elim (Bool-cases (text_eq a b)) [
  | inr f ↦ f
  | inl y ↦
      let e : a ≡ b = (text_eq_iff a b).0 y in absurd (cc (sym n ∙ (ap (λ k. lookup k m) e ∙ l)))
]

abbrev entry_of : UuidLibrary → DeviceConfig → Bytes → DeviceInfo
entry_of u d bits = record { name = d.name; uuid = u.to_string bits; disabled = d.disabled }

module _ (u : UuidLibrary) where
  -- A UUID that has been seen is not in the rest of the list.
  table_keeps :
      (id : Text) (i j : ℕ) (seen : Seen) (table : Assoc DeviceInfo) (ds : List DeviceConfig)
      → validate_from u i seen ds ≡ []
      → lookup id seen.uuids ≡ some j
      → lookup id (device_table u table ds) ≡ lookup id table
  unfolding validate_from device_table
  table_keeps id i j seen table [] h l = refl
  table_keeps id i j seen table (d ∷ ds) h l =
      let (e, rest) = append_parts (check_uuid u i (u.parse d.uuid) seen.uuids).1 _ h in
      let (bits, p, new, ins) = check_uuid_ok u i (u.parse d.uuid) seen.uuids e in
      let (names, later) = append_parts (check_name i d.name seen.names).1 _ rest in
      let apart = seen_apart (u.to_string bits) id j seen.uuids new l in
      rw p (
        table_keeps id (i + 1) j _ (insert (u.to_string bits) (entry_of u d bits) table) ds later
          (rw ins (rw (lookup-insert (u.to_string bits) id i seen.uuids, apart) l))
        ∙ (rw (lookup-insert (u.to_string bits) id (entry_of u d bits) table, apart) refl))

  table_step :
      (table : Assoc DeviceInfo) (d : DeviceConfig) (ds : List DeviceConfig) (bits : Bytes)
      → u.parse d.uuid ≡ some bits
      → device_table u table (d ∷ ds)
        ≡ device_table u (insert (u.to_string bits) (entry_of u d bits) table) ds
  unfolding device_table
  table_step table d ds bits p = rw p refl

  table_serves :
      (i : ℕ) (seen : Seen) (table : Assoc DeviceInfo) (ds : List DeviceConfig)
      → validate_from u i seen ds ≡ []
      → All (IsServed u (device_table u table ds)) ds
  unfolding validate_from
  table_serves i seen table [] h = tt
  table_serves i seen table (d ∷ ds) h =
      let (e, rest) = append_parts (check_uuid u i (u.parse d.uuid) seen.uuids).1 _ h in
      let (bits, p, new, ins) = check_uuid_ok u i (u.parse d.uuid) seen.uuids e in
      let (names, later) = append_parts (check_name i d.name seen.names).1 _ rest in
      let id : Text = u.to_string bits in
      let next_table : Assoc DeviceInfo = insert id (entry_of u d bits) table in
      subst (λ t. All (IsServed u t) (d ∷ ds)) (sym (table_step table d ds bits p))
        (
          (
            bits,
            p,
            table_keeps id (i + 1) i _ next_table ds later
                  (rw ins (rw (lookup-insert id id i seen.uuids, text_eq_refl id) refl))
                ∙ (rw (lookup-insert id id (entry_of u d bits) table, text_eq_refl id) refl),
          ),
          table_serves (i + 1) _ next_table ds later,
        )

-- If validateDevices reports no error, the table that runServe builds serves every device of the
-- configuration: each has a UUID that parses, and the table has its own name and its own disabled
-- flag under the canonical form, which no other device has overwritten.
pub validated-IsServed :
    (u : UuidLibrary) (ds : List DeviceConfig)
    → validate_devices u ds ≡ []
    → All (IsServed u (device_table u [] ds)) ds
unfolding validate_devices
validated-IsServed u ds h = table_serves u 0 (record { uuids = []; names = [] }) [] ds h
