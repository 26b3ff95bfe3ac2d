-- ===== src/Client/Targets.antt =====
-- What EndpointTarget and readBoundedFile of internal/config/client.go give.
use azath.Prelude.{
  ok, ◌==◌, Bool-cases, Option-cases, length, length-take, take-of_le, text_eq_iff, Text, Bytes,
  codes, ℕ, suc, ◌≤◌, ◌<◌, ◌≡◌, refl, ap, ◌↔◌, ◌⊎◌, inl, inr, true, false, Option, none, some, [],
  ◌∷◌, arith,
}
use azath.Prelude.Int.{int-cases, pos}
use azath.Gate.Construction.{parse_int}
use azath.Client.{
  NetLibrary, Url, FileContents, missing, read_fails, contents, read_bounded_file, contains_text,
  contains_any, host_breakers, host_target, url_target, is_plain_https, endpoint_target,
}

-- An https URL that has nothing but a host.
pub record IsBareUrl (url : Url) : Type 0 where
  pub https : url.scheme ≡ codes "https"
  pub no_user : url.has_user ≡ false
  pub no_path : url.path ≡ []
  pub no_query : (url.raw_query ≡ []) × (url.force_query ≡ false)
  pub no_fragment : url.fragment ≡ []

-- Where a target comes from: the endpoint itself, or the host of a bare https URL.
abbrev pub IsSource : NetLibrary → Text → Text → Type 0
IsSource net endpoint from =
    ((contains_text endpoint (codes "://") ≡ false) × (from ≡ endpoint))
    ⊎ ((contains_text endpoint (codes "://") ≡ true)
        × (url : Url) × (net.parse_url endpoint ≡ some url)
        × IsBareUrl url
        × (from ≡ url.host))

-- The host and the port that a text splits into, both usable.
pub record IsHostPort (net : NetLibrary) (from target : Text) : Type 0 where
  pub host : Text
  pub port : Text
  pub splits : net.split_host_port from ≡ some (host, port)
  pub number : ℕ
  pub parses : parse_int port ≡ some (pos number)
  pub in_range : (1 ≤ number) × (number ≤ 65535)
  pub has_host : 0 < length host
  pub clean : contains_any host host_breakers ≡ false
  pub joined : target ≡ net.join_host_port host port

-- A bounded read gives a file exactly when the file is there, whole and within the limit.
pub read_bounded_file_iff :
    (limit : ℕ) (file : FileContents) (b : Bytes)
    → (read_bounded_file limit file ≡ ok b) ↔ ((file ≡ contents b) × (length b ≤ limit))
unfolding read_bounded_file
read_bounded_file_iff limit missing b = (λ h. absurd (cc h), λ h. absurd (cc (h.0)))
read_bounded_file_iff limit read_fails b = (λ h. absurd (cc h), λ h. absurd (cc (h.0)))
read_bounded_file_iff limit (contents c) b = (
  λ h. ground (arith, length-take (suc limit) c, take-of_le (suc limit) c),
  λ h. ground (arith, length-take (suc limit) c, take-of_le (suc limit) c),
)

empty_text : (s : Text) → (length s == 0) ≡ true → s ≡ []
empty_text [] h = refl
empty_text (x ∷ s) h = absurd (ground arith)

module _ (net : NetLibrary) where
  host_target_parts :
      (from target : Text)
      → host_target net (net.split_host_port from) ≡ ok target
      → IsHostPort net from target
  unfolding host_target
  host_target_parts from target h = elim (Option-cases (net.split_host_port from)) [
    | inl n ↦ absurd (ground arith)
    | inr ((host, port), s) ↦ elim (Option-cases (parse_int port)) [
      | inl n ↦ absurd (ground arith)
      | inr (z, p) ↦ elim (int-cases z) [
        | inr (n, e) ↦ absurd (ground arith)
        | inl (n, e) ↦ record {
          host = host;
          port = port;
          splits = s;
          number = n;
          parses = ground arith;
          in_range = (ground arith, ground arith);
          has_host = ground arith;
          clean = ground arith;
          joined = ground arith;
        }
      ]
    ]
  ]

  parts_target :
      (from target : Text)
      → IsHostPort net from target
      → host_target net (net.split_host_port from) ≡ ok target
  unfolding host_target
  parts_target from target p =
      rw (p.splits) (ground (arith, p.parses, p.in_range, p.has_host, p.clean, p.joined))

  bare_url : (url : Url) → (is_plain_https net url ≡ true) ↔ IsBareUrl url
  bare_url url = (
    λ h. record {
      https = (text_eq_iff url.scheme (codes "https")).0 (ground arith);
      no_user = ground arith;
      no_path = empty_text url.path (ground arith);
      no_query = (empty_text url.raw_query (ground arith), ground arith);
      no_fragment = empty_text url.fragment (ground arith);
    },
    λ b.
        let e = (text_eq_iff url.scheme (codes "https")).1 b.https in
        let p = ap (length {A = ℕ}) b.no_path in
        let q = ap (length {A = ℕ}) b.no_query.0 in
        let f = ap (length {A = ℕ}) b.no_fragment in
        ground (arith, e, p, q, f, b.no_user, b.no_query),
  )

  url_target_parts :
      (endpoint target : Text) (o : Option Url)
      → net.parse_url endpoint ≡ o
      → contains_text endpoint (codes "://") ≡ true
      → url_target net o ≡ ok target
      → (from : Text) × IsSource net endpoint from × IsHostPort net from target
  unfolding url_target
  url_target_parts endpoint target none e y h = absurd (cc h)
  url_target_parts endpoint target (some url) e y h = elim (Bool-cases (is_plain_https net url)) [
    | inr n ↦ absurd (cc (rw n at h))
    | inl b ↦ (
      url.host,
      inr (y, url, e, (bare_url url).0 b, refl),
      host_target_parts url.host target (rw b at h),
    )
  ]

  target_from :
      (endpoint target from : Text)
      → IsSource net endpoint from
      → IsHostPort net from target
      → endpoint_target net endpoint ≡ ok target
  unfolding endpoint_target url_target
  target_from endpoint target from (inl (n, e)) p = rw n (parts_target endpoint target (rw e at p))
  target_from endpoint target from (inr (y, url, e, b, f)) p =
      rw (y, e, (bare_url url).1 b) (parts_target url.host target (rw f at p))

  -- EndpointTarget accepts an endpoint exactly when it, or the host of the bare https URL that it
  -- is, splits into a host free of "/?#@ \" and a port that reads as a number from 1 to 65535; the
  -- target is the two joined.
  pub endpoint_target_iff :
      (endpoint target : Text)
      → (endpoint_target net endpoint ≡ ok target)
        ↔ ((from : Text) × IsSource net endpoint from × IsHostPort net from target)
  unfolding endpoint_target
  endpoint_target_iff endpoint target = (
    λ h. elim (Bool-cases (contains_text endpoint (codes "://"))) [
      | inr n ↦ (endpoint, inl (n, refl), host_target_parts endpoint target (rw n at h))
      | inl y ↦ url_target_parts endpoint target (net.parse_url endpoint) refl y (rw y at h)
    ],
    λ p. target_from endpoint target p.0 p.1 p.2,
  )
