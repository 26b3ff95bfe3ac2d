-- ===== src/Client/Accepted.antt =====
-- Which client configurations LoadClientConfigFromBytes of internal/config/client.go accepts.
use azath.Prelude.{
  Result-cases, ok, ltb, Bool-cases, Option-cases, length, All, text_eq, text_eq_iff, Text, Bytes,
  lookup, insert, Assoc, lookup-insert, ◌≤◌, ◌≡◌, refl, sym, ◌∙◌, ◌≢◌, ◌↔◌, inl, inr, Bool, true,
  false, Option, none, some, List, [], ◌∷◌, arith,
}
use azath.Uuid.{UuidLibrary}
use azath.Client.{
  read_bounded_file, FileContents, load_client_config, ShareConfig, ClientConfig, NetLibrary,
  YamlDecoder, endpoint_target, is_share, check_shares, check_endpoints, check_config, after_target,
  after_endpoints, is_canonical, load_client_config_from_bytes,
}

-- No share has the name of an earlier one.
abbrev pub Apart : List ShareConfig → Type 0
Apart [] = Unit
Apart (s ∷ ss) = All (λ t. s.name ≢ t.name) ss × Apart ss

abbrev pub HasTarget : NetLibrary → Text → Type 0
HasTarget net e = (length e ≤ 2048) × (target : Text) × (endpoint_target net e ≡ ok target)

-- A configuration that the commands can use.
pub record IsUsable (net : NetLibrary) (u : UuidLibrary) (cfg : ClientConfig) : Type 0 where
  pub named : (1 ≤ length cfg.device.name) × (length cfg.device.name ≤ 128)
  pub has_uuid : 1 ≤ length cfg.device.uuid
  pub canonical :
      (bits : Bytes) × (u.parse cfg.device.uuid ≡ some bits) × (u.to_string bits ≡ cfg.device.uuid)
  pub has_endpoints : (1 ≤ length cfg.endpoints) × (length cfg.endpoints ≤ 8)
  pub targets : All (HasTarget net) cfg.endpoints
  pub few_shares : length cfg.shares ≤ 64
  pub shares : All (λ s. is_share s ≡ true) cfg.shares
  pub apart : Apart cfg.shares

abbrev Unseen : Assoc (Unit {0}) → ShareConfig → Type 0
Unseen seen s = lookup s.name seen ≡ none

-- A name is unseen after another exactly when it is not that name, and was unseen before.
Unseen-one :
    (name : Text) (seen : Assoc (Unit {0})) (s : ShareConfig)
    → Unseen (insert name tt seen) s ↔ ((name ≢ s.name) × Unseen seen s)
Unseen-one name seen s = (
  λ h.
      let e = sym (lookup-insert name s.name tt seen) ∙ h in
      elim (Bool-cases (text_eq name s.name)) [
        | inl y ↦ absurd (cc (rw y at e))
        | inr n ↦ (λ q. absurd (cc (sym n ∙ (text_eq_iff name s.name).1 q)), rw n at e)
      ],
  λ h. elim (Bool-cases (text_eq name s.name)) [
    | inl y ↦ absurd (h.0 ((text_eq_iff name s.name).0 y))
    | inr n ↦ rw (lookup-insert name s.name tt seen, n) (h.1)
  ],
)

Unseen-insert :
    (name : Text) (seen : Assoc (Unit {0})) (ss : List ShareConfig)
    → All (Unseen (insert name tt seen)) ss ↔ (All (λ t. name ≢ t.name) ss × All (Unseen seen) ss)
Unseen-insert name seen [] = (λ h. (tt, tt), λ h. tt)
Unseen-insert name seen (s ∷ ss) =
    let (one, eno) = Unseen-one name seen s in
    let (all, lla) = Unseen-insert name seen ss in
    (
      λ h. (((one h.0).0, (all h.1).0), ((one h.0).1, (all h.1).1)),
      λ h. (eno (h.0.0, h.1.0), lla (h.0.1, h.1.1)),
    )

check_shares_iff :
    (seen : Assoc (Unit {0})) (ss : List ShareConfig)
    → (check_shares seen ss ≡ ok tt)
      ↔ (All (λ s. is_share s ≡ true) ss × Apart ss × All (Unseen seen) ss)
unfolding check_shares
check_shares_iff seen [] = (λ h. (tt, tt, tt), λ h. refl)
check_shares_iff seen (s ∷ ss) =
    let (forth, back) = check_shares_iff (insert s.name tt seen) ss in
    let (split, join) = Unseen-insert s.name seen ss in
    (
      λ h. elim (Bool-cases (is_share s)) [
        | inr n ↦ absurd (cc (rw n at h))
        | inl y ↦ elim (Option-cases (lookup s.name seen)) [
          | inr (a, l) ↦ absurd (cc (rw (y, l) at h))
          | inl l ↦
              let (good, apart, unseen) = forth (rw (y, l) at h) in
              let (fresh, others) = split unseen in ((y, good), (fresh, apart), (l, others))
        ]
      ],
      λ h. rw (h.0.0, h.2.0) (back (h.0.1, h.1.1, join (h.1.0, h.2.1))),
    )

check_endpoints_iff :
    (net : NetLibrary) (es : List Text) → (check_endpoints net es ≡ ok tt) ↔ All (HasTarget net) es
unfolding check_endpoints after_target
check_endpoints_iff net [] = (λ h. tt, λ h. refl)
check_endpoints_iff net (e ∷ es) =
    let (forth, back) = check_endpoints_iff net es in
    (
      λ h. elim (Bool-cases (ltb 2048 (length e))) [
        | inl y ↦ absurd (cc (rw y at h))
        | inr n ↦ elim (Result-cases (endpoint_target net e)) [
          | inl (x, b) ↦ absurd (cc (rw (n, b) at h))
          | inr (t, g) ↦ ((ground arith, t, g), forth (rw (n, g) at h))
        ]
      ],
      λ h. let n : ltb 2048 (length e) ≡ false = ground (arith, h.0.0) in rw (n, h.0.2) (back h.1),
    )

is_canonical_iff :
    (u : UuidLibrary) (id : Text) (o : Option Bytes)
    → (is_canonical u id o ≡ true) ↔ ((bits : Bytes) × (o ≡ some bits) × (u.to_string bits ≡ id))
unfolding is_canonical
is_canonical_iff u id none = (λ h. absurd (cc h), λ h. absurd (cc (h.1)))
is_canonical_iff u id (some bits) = (
  λ h. (bits, refl, (text_eq_iff (u.to_string bits) id).0 h),
  λ h. let e : bits ≡ h.0 = cc (h.1) in rw e ((text_eq_iff (u.to_string h.0) id).1 h.2),
)

after_endpoints_iff :
    (net : NetLibrary) (cfg : ClientConfig)
    → (after_endpoints cfg (check_endpoints net cfg.endpoints) ≡ ok tt)
      ↔ (All (HasTarget net) cfg.endpoints × (check_shares [] cfg.shares ≡ ok tt))
unfolding after_endpoints
after_endpoints_iff net cfg =
    let (forth, back) = check_endpoints_iff net cfg.endpoints in
    (
      λ h. elim (Result-cases (check_endpoints net cfg.endpoints)) [
        | inl (e, b) ↦ absurd (cc (rw b at h))
        | inr (a, g) ↦ (forth g, rw g at h)
      ],
      λ h. rw (back h.0) (h.1),
    )

Unseen-nil : (ss : List ShareConfig) → All (Unseen []) ss
unfolding lookup
Unseen-nil [] = tt
Unseen-nil (s ∷ ss) = (refl, Unseen-nil ss)

-- What the tests before the two loops establish.
abbrev IsInLimits : Bool → UuidLibrary → ClientConfig → Type 0
IsInLimits at_end u cfg =
    (at_end ≡ true)
    × (1 ≤ length cfg.device.name)
    × (length cfg.device.name ≤ 128)
    × (1 ≤ length cfg.device.uuid)
    × (is_canonical u cfg.device.uuid (u.parse cfg.device.uuid) ≡ true)
    × (1 ≤ length cfg.endpoints)
    × (length cfg.endpoints ≤ 8)
    × (length cfg.shares ≤ 64)

guards_iff :
    (net : NetLibrary) (u : UuidLibrary) (at_end : Bool) (cfg : ClientConfig)
    → (check_config net u at_end cfg ≡ ok tt) ↔ (
        IsInLimits at_end u cfg × (after_endpoints cfg (check_endpoints net cfg.endpoints) ≡ ok tt))
unfolding check_config
guards_iff net u at_end cfg = (λ h. ground arith, λ h. ground arith)

-- The tests accept exactly the usable configurations.
check_config_iff :
    (net : NetLibrary) (u : UuidLibrary) (at_end : Bool) (cfg : ClientConfig)
    → (check_config net u at_end cfg ≡ ok tt) ↔ ((at_end ≡ true) × IsUsable net u cfg)
check_config_iff net u at_end cfg = (
  λ h.
      let (l, after) = (guards_iff net u at_end cfg).0 h in
      let (targets, shares) = (after_endpoints_iff net cfg).0 after in
      let (good, apart, _) = (check_shares_iff [] cfg.shares).0 shares in
      (
        l.0,
        record {
          named = (l.1, l.2);
          has_uuid = l.3;
          canonical = (is_canonical_iff u cfg.device.uuid (u.parse cfg.device.uuid)).0 l.4;
          has_endpoints = (l.5, l.6);
          targets = targets;
          few_shares = l.7;
          shares = good;
          apart = apart;
        },
      ),
  λ h.
      let k = h.1 in
      let shares = (check_shares_iff [] cfg.shares).1 (k.shares, k.apart, Unseen-nil cfg.shares) in
      (guards_iff net u at_end cfg).1 (
        (
          h.0,
          k.named.0,
          k.named.1,
          k.has_uuid,
          (is_canonical_iff u cfg.device.uuid (u.parse cfg.device.uuid)).1 k.canonical,
          k.has_endpoints.0,
          k.has_endpoints.1,
          k.few_shares,
        ),
        (after_endpoints_iff net cfg).1 (k.targets, shares),
      ),
)

-- LoadClientConfigFromBytes returns a configuration exactly when the file is one YAML document that
-- decodes to it and it is usable: the device has a name of at most 128 bytes and a canonical UUID,
-- there are 1 to 8 endpoints, each of at most 2048 bytes and with a target, and at most 64 shares,
-- each with a well-formed name and blob path and no two with one name.
pub load_client_iff :
    (yaml : YamlDecoder) (net : NetLibrary) (u : UuidLibrary) (file : Bytes) (cfg : ClientConfig)
    → (load_client_config_from_bytes yaml net u file ≡ ok cfg)
      ↔ ((yaml.decode file ≡ some cfg) × (yaml.at_end file ≡ true) × IsUsable net u cfg)
unfolding load_client_config_from_bytes
load_client_iff yaml net u file cfg = (
  λ h. elim (Option-cases (yaml.decode file)) [
    | inl n ↦ absurd (cc (rw n at h))
    | inr (c, d) ↦ elim (Result-cases (check_config net u (yaml.at_end file) c)) [
      | inl (e, b) ↦ absurd (cc (rw (d, b) at h))
      | inr (a, g) ↦
          let e : c ≡ cfg = cc (rw (d, g) at h) in
          let (f, k) = (check_config_iff net u (yaml.at_end file) c).0 g in rw (← e) (d, f, k)
    ]
  ],
  λ h. rw (h.0, (check_config_iff net u (yaml.at_end file) cfg).1 (h.1, h.2)) refl,
)

-- A configuration that LoadClientConfig returns is usable.
pub load_client_config-IsUsable :
    (yaml : YamlDecoder) (net : NetLibrary) (u : UuidLibrary) (file : FileContents)
    (cfg : ClientConfig)
    → load_client_config yaml net u file ≡ ok cfg
    → IsUsable net u cfg
unfolding load_client_config
load_client_config-IsUsable yaml net u file cfg h =
    elim (Result-cases (read_bounded_file 65536 file)) [
      | inl (e, b) ↦ absurd (cc (rw b at h))
      | inr (read, g) ↦ ((load_client_iff yaml net u read cfg).0 (rw g at h)).2
    ]
