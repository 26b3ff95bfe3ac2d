-- ===== src/Client.antt =====
-- internal/config/client.go: the configuration of the seal and synology commands, which
-- cmd/azath/client.go and cmd/azath/seal.go load. The errors carry no texts.
pub mod Accepted
pub mod Names
pub mod Targets
use azath.Prelude.{
  Result, ok, err, ltb, leb, ◌==◌, if◌then◌else◌, is_some, length, take, text_eq, Text, Bytes,
  codes, contains_byte, lookup, insert, Assoc, ℕ, suc, Bool, true, false, not, ◌&&◌, ◌||◌, Option,
  none, some, List, [], ◌∷◌,
}
use azath.Prelude.Int.{int_lt, pos, ℤ}
use azath.Uuid.{UuidLibrary}
use azath.Gate.Construction.{parse_int}
use azath.Config.Validation.{cut_prefix}

pub record ShareConfig : Type 0 where
  pub name : Text
  pub sealed_blob : Text

pub record ClientDeviceConfig : Type 0 where
  pub name : Text
  pub uuid : Text

pub record ClientConfig : Type 0 where
  pub shares : List ShareConfig
  pub device : ClientDeviceConfig
  pub endpoints : List Text

-- What the code reads of a url.URL.
pub record Url : Type 0 where
  pub scheme : Text
  pub has_user : Bool
  pub path : Text
  pub raw_query : Text
  pub force_query : Bool
  pub fragment : Text
  pub host : Text

-- url.Parse, net.SplitHostPort and net.JoinHostPort; none for an error.
pub record NetLibrary : Type 0 where
  pub parse_url : Text → Option Url
  pub split_host_port : Text → Option (Text × Text)
  pub join_host_port : Text → Text → Text

-- Files ----------------------------------------------------------------------------------------

-- What a read of a file finds; `read_fails` is an error within the bytes that are read.
pub data FileContents : Type 0 where
  missing read_fails : FileContents
  contents : Bytes → FileContents

pub data ReadError : Type 0 where
  cannot_open unreadable : ReadError

-- io.ReadAll(io.LimitReader(f, limit+1)), and the test of its length.
within : ℕ → Bytes → Result ReadError Bytes
within limit read = if ltb limit (length read) then err unreadable else ok read

-- readBoundedFile
unfoldable pub read_bounded_file : ℕ → FileContents → Result ReadError Bytes
unfolding within
read_bounded_file limit missing = err cannot_open
read_bounded_file limit read_fails = err unreadable
read_bounded_file limit (contents file) = within limit (take (suc limit) file)

-- Endpoints ------------------------------------------------------------------------------------

pub data EndpointError : Type 0 where
  not_an_https_url no_host_and_port port_out_of_range : EndpointError

-- strings.Contains
unfoldable pub contains_text : Text → Text → Bool
contains_text [] sub = is_some (cut_prefix [] sub)
contains_text (x ∷ xs) sub = is_some (cut_prefix (x ∷ xs) sub) || contains_text xs sub

-- strings.ContainsAny
abbrev pub contains_any : Text → List ℕ → Bool
contains_any [] cs = false
contains_any (x ∷ xs) cs = contains_byte cs x || contains_any xs cs

-- "/?#@ \\"
abbrev pub host_breakers : List ℕ
host_breakers = b'/' ∷ b'?' ∷ b'#' ∷ b'@' ∷ b' ' ∷ 92 ∷ []

module _ (net : NetLibrary) where
  port_target : Text → Text → Option ℤ → Result EndpointError Text
  port_target host port none = err port_out_of_range
  port_target host port (some n) =
      if int_lt n (pos 1) || int_lt (pos 65535) n
      then err port_out_of_range
      else ok (net.join_host_port host port)

  host_target : Option (Text × Text) → Result EndpointError Text
  unfolding port_target
  host_target none = err no_host_and_port
  host_target (some (host, port)) =
      if length host == 0 || contains_any host host_breakers
      then err no_host_and_port
      else port_target host port (parse_int port)

  abbrev is_plain_https : Url → Bool
  is_plain_https u =
      text_eq u.scheme (codes "https")
      && (not u.has_user
          && (length u.path == 0
              && (length u.raw_query == 0 && (not u.force_query && length u.fragment == 0))))

  url_target : Option Url → Result EndpointError Text
  unfolding host_target
  url_target none = err not_an_https_url
  url_target (some u) =
      if not (is_plain_https u)
      then err not_an_https_url
      else host_target (net.split_host_port u.host)

  -- EndpointTarget
  unfoldable pub endpoint_target : Text → Result EndpointError Text
  unfolding url_target host_target
  endpoint_target endpoint =
      if contains_text endpoint (codes "://")
      then url_target (net.parse_url endpoint)
      else host_target (net.split_host_port endpoint)

-- The configuration file -----------------------------------------------------------------------

pub data ClientError : Type 0 where
  not_read : ReadError → ClientError
  not_decoded name_required uuid_required endpoint_required several_documents : ClientError
  uuid_not_canonical over_limits endpoint_too_long bad_share duplicate_share : ClientError
  bad_endpoint : EndpointError → ClientError

-- yaml.v3, with KnownFields: the first document, and whether a second Decode gives io.EOF.
pub record YamlDecoder : Type 0 where
  pub decode : Bytes → Option ClientConfig
  pub at_end : Bytes → Bool

is_word : ℕ → Bool
is_word c =
    (leb b'A' c && leb c b'Z')
    || ((leb b'a' c && leb c b'z') || ((leb b'0' c && leb c b'9') || c == b'_'))

is_name_char : ℕ → Bool
unfolding is_word
is_name_char c = is_word c || (c == b'.' || (c == b' ' || c == b'-'))

are_name_chars : Text → Bool
unfolding is_name_char
are_name_chars [] = true
are_name_chars (c ∷ cs) = is_name_char c && are_name_chars cs

-- shareNameRegex.MatchString
unfoldable pub is_share_name : Text → Bool
unfolding is_word are_name_chars
is_share_name [] = false
is_share_name (c ∷ cs) = is_word c && (leb (length cs) 79 && are_name_chars cs)

unfoldable pub is_share : ShareConfig → Bool
unfolding is_share_name
is_share s =
    is_share_name s.name
    && (not (length s.sealed_blob == 0)
        && (leb (length s.sealed_blob) 4096 && not (contains_byte s.sealed_blob 0)))

-- The loop over cfg.Shares; `seen` holds the names so far.
unfoldable pub check_shares : Assoc (Unit {0}) → List ShareConfig → Result ClientError (Unit {0})
check_shares seen [] = ok tt
check_shares seen (s ∷ ss) =
    let rest = check_shares (insert s.name tt seen) ss in
    if not (is_share s)
    then err bad_share
    else if is_some (lookup s.name seen)
    then err duplicate_share
    else rest

after_target :
    Result EndpointError Text → Result ClientError (Unit {0}) → Result ClientError (Unit {0})
after_target (err e) rest = err (bad_endpoint e)
after_target (ok target) rest = rest

-- The loop over cfg.Endpoints.
unfoldable pub check_endpoints : NetLibrary → List Text → Result ClientError (Unit {0})
unfolding after_target
check_endpoints net [] = ok tt
check_endpoints net (e ∷ es) =
    let rest = check_endpoints net es in
    if ltb 2048 (length e) then err endpoint_too_long else after_target (endpoint_target net e) rest

after_endpoints : ClientConfig → Result ClientError (Unit {0}) → Result ClientError (Unit {0})
after_endpoints cfg (err e) = err e
after_endpoints cfg (ok _) = check_shares [] cfg.shares

is_canonical : UuidLibrary → Text → Option Bytes → Bool
is_canonical u id none = false
is_canonical u id (some bits) = text_eq (u.to_string bits) id

-- The tests of LoadClientConfigFromBytes, in their order.
unfoldable pub check_config :
    NetLibrary → UuidLibrary → Bool → ClientConfig → Result ClientError (Unit {0})
unfolding after_endpoints is_canonical
check_config net u at_end cfg =
    if length cfg.device.name == 0
    then err name_required
    else if length cfg.device.uuid == 0
    then err uuid_required
    else if length cfg.endpoints == 0
    then err endpoint_required
    else if not at_end
    then err several_documents
    else if not (is_canonical u cfg.device.uuid (u.parse cfg.device.uuid))
    then err uuid_not_canonical
    else if ltb 128 (length cfg.device.name)
        || (ltb 8 (length cfg.endpoints) || ltb 64 (length cfg.shares))
    then err over_limits
    else after_endpoints cfg (check_endpoints net cfg.endpoints)

checked : ClientConfig → Result ClientError (Unit {0}) → Result ClientError ClientConfig
checked cfg (err e) = err e
checked cfg (ok _) = ok cfg

module _ (yaml : YamlDecoder) (net : NetLibrary) (u : UuidLibrary) where
  decoded : Bytes → Option ClientConfig → Result ClientError ClientConfig
  unfolding checked
  decoded file none = err not_decoded
  decoded file (some cfg) = checked cfg (check_config net u (yaml.at_end file) cfg)

  -- LoadClientConfigFromBytes
  unfoldable pub load_client_config_from_bytes : Bytes → Result ClientError ClientConfig
  unfolding decoded
  load_client_config_from_bytes file = decoded file (yaml.decode file)

  after_read : Result ReadError Bytes → Result ClientError ClientConfig
  unfolding load_client_config_from_bytes
  after_read (err e) = err (not_read e)
  after_read (ok file) = load_client_config_from_bytes file

  -- LoadClientConfig
  unfoldable pub load_client_config : FileContents → Result ClientError ClientConfig
  unfolding after_read
  load_client_config file = after_read (read_bounded_file 65536 file)
