-- ===== src/Tests/Client.antt =====
-- The properties of the client's configuration at concrete inputs, and a client for the other tests.
use azath.Prelude.{
  ok, ◌==◌, if◌then◌else◌, text_eq, Text, codes, lookup, ℕ, ◌≡◌, refl, ◌↔◌, true, false, Option,
  none, some, [], ◌∷◌, ◌++◌,
}
use azath.Config.Validation.{cut_prefix}
use azath.Client.{
  ShareConfig, ClientConfig, Url, NetLibrary, read_bounded_file, contains_text, endpoint_target,
  YamlDecoder, is_share, check_shares, check_endpoints, check_config, load_client_config_from_bytes,
  load_client_config, contents,
}
use azath.Client.Accepted.{IsUsable, load_client_iff}
use azath.Client.Targets.{IsSource, IsHostPort, endpoint_target_iff}
use azath.Tests.Fixtures.{toy_uuid, nas_uuid}

after_colon : ℕ → Option (Text × Text) → Option (Text × Text)
after_colon c none = none
after_colon c (some (a, b)) = some (c ∷ a, b)

-- The text before and after the first colon.
unfoldable pub toy_split : Text → Option (Text × Text)
unfolding after_colon
toy_split [] = none
toy_split (c ∷ cs) =
    let rest = toy_split cs in if c == b':' then some ([], cs) else after_colon c rest

url_of : Option Text → Option Url
url_of none = none
url_of (some host) = some (record {
  scheme = codes "https";
  has_user = false;
  path = [];
  raw_query = [];
  force_query = false;
  fragment = [];
  host = host;
})

-- An https URL without anything but a host.
unfoldable pub toy_parse_url : Text → Option Url
unfolding url_of
toy_parse_url s = url_of (cut_prefix s (codes "https://"))

abbrev pub toy_net : NetLibrary
toy_net = record {
  parse_url = toy_parse_url;
  split_host_port = toy_split;
  join_host_port = λ host port. host ++ (b':' ∷ port);
}

abbrev pub share : ShareConfig
share = record { name = codes "homes"; sealed_blob = codes "/homes" }

abbrev pub client : ClientConfig
client = record {
  shares = share ∷ [];
  device = record { name = codes "nas"; uuid = nas_uuid };
  endpoints = codes "https://kms:443" ∷ [];
}

abbrev pub toy_yaml : YamlDecoder
toy_yaml = record { decode = λ file. some client; at_end = λ file. true }

pub target : endpoint_target toy_net (codes "https://kms:443") ≡ ok (codes "kms:443")
unfolding endpoint_target contains_text toy_parse_url text_eq toy_split
    azath.Gate.Construction.parse_int
target = refl

pub client_loads : load_client_config toy_yaml toy_net toy_uuid (contents (1 ∷ [])) ≡ ok client
unfolding load_client_config read_bounded_file check_config text_eq check_endpoints endpoint_target
    contains_text toy_parse_url toy_split azath.Gate.Construction.parse_int check_shares is_share
    lookup
client_loads = refl

endpoint_target_iff_example :
    (endpoint_target toy_net (codes "https://kms:443") ≡ ok (codes "kms:443")) ↔ (
      (from : Text) × IsSource toy_net (codes "https://kms:443") from
      × IsHostPort toy_net from (codes "kms:443"))
endpoint_target_iff_example =
    endpoint_target_iff toy_net (codes "https://kms:443") (codes "kms:443")

load_client_iff_example :
    (load_client_config_from_bytes toy_yaml toy_net toy_uuid (1 ∷ []) ≡ ok client) ↔ (
      (toy_yaml.decode (1 ∷ []) ≡ some client)
      × (toy_yaml.at_end (1 ∷ []) ≡ true)
      × IsUsable toy_net toy_uuid client)
load_client_iff_example = load_client_iff toy_yaml toy_net toy_uuid (1 ∷ []) client
