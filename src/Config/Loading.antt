-- ===== src/Config/Loading.antt =====
-- internal/config/config.go: LoadFromBytes and Load. The errors carry no texts.
use azath.Prelude.{Result, ok, err, if◌then◌else◌, Bytes, Bool, not, Option, none, some}
use azath.Config.{Config, apply_defaults}

-- yaml.v3, with KnownFields: the first document, and whether a second Decode gives io.EOF.
pub record ServerYaml : Type 0 where
  pub decode : Bytes → Option Config
  pub at_end : Bytes → Bool

pub data LoadError : Type 0 where
  not_read not_decoded several_documents : LoadError

with_document : Bool → Option Config → Result LoadError Config
with_document at_end none = err not_decoded
with_document at_end (some cfg) =
    if not at_end then err several_documents else ok (apply_defaults cfg)

-- LoadFromBytes
unfoldable pub load_from_bytes : ServerYaml → Bytes → Result LoadError Config
unfolding with_document
load_from_bytes yaml file = with_document (yaml.at_end file) (yaml.decode file)

-- Load; the file is none for an error of os.ReadFile.
unfoldable pub load : ServerYaml → Option Bytes → Result LoadError Config
unfolding load_from_bytes
load yaml none = err not_read
load yaml (some file) = load_from_bytes yaml file
