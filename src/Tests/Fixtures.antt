-- ===== src/Tests/Fixtures.antt =====
-- Small stand-ins for the libraries that the program uses, and a server, a gate and requests.
use azath.Prelude.{
  ltb, ◌==◌, if◌then◌else◌, Bool-cases, length, take, drop, replicate, length-append, length-take,
  length-drop, length-replicate, take-append, text_eq, text_eq_iff, text_eq_refl, Text, Bytes,
  codes, IsBytes, ℕ, ◌+◌, ◌≡◌, refl, sym, ap, subst, ◌∙◌, inl, inr, Bool, true, false, ◌&&◌, Option,
  none, some, [], ◌∷◌, ◌++◌, arith,
}
use azath.Prelude.Int.{pos, negsuc}
use azath.Uuid.{UuidLibrary, IsUuidLibrary}
use azath.Crypto.Primitives.{Primitives, IsLawful}
use azath.Crypto.Sealer.{Sealer}
use azath.Crypto.Sealer.Live.{IsLive}
use azath.Keymanager.{Manager, loaded}
use azath.Server.{DeviceInfo, KmsServer, Metrics, Request, Entropy, Gate, decides}
use azath.Gate.{Device, approved, TelegramGateConfig}
use azath.Gate.Codec.{Mac, IsMac}

abbrev pub toy_tag : Bytes → Bytes
toy_tag aad = replicate 16 (length aad)

abbrev pub toy_open : Bytes → Bytes → Option Bytes
toy_open sealed aad = if text_eq (take 16 sealed) (toy_tag aad) then some (drop 16 sealed) else none

-- A cipher that does not encrypt: a tag in front of the text.
abbrev pub toy : Primitives
toy = record {
  hkdf = λ key info n. some (replicate n 7);
  new_cipher = λ key. true;
  new_gcm = λ key. true;
  gcm_seal = λ key nonce plain aad. toy_tag aad ++ plain;
  gcm_open = λ key nonce sealed aad. toy_open sealed aad;
}

toy_open-length :
    (sealed aad plain : Bytes)
    → toy_open sealed aad ≡ some plain
    → length sealed ≡ length plain + 16
toy_open-length sealed aad plain h = elim (Bool-cases (text_eq (take 16 sealed) (toy_tag aad))) [
  | inr bad ↦ absurd (ground arith)
  | inl good ↦
      let e : drop 16 sealed ≡ plain = ground arith in
      omega (
        arith,
        ap length e,
        length-drop 16 sealed,
        length-take 16 sealed,
        ap length ((text_eq_iff (take 16 sealed) (toy_tag aad)).0 good),
      )
]

toy_open_seal : (plain aad : Bytes) → toy_open (toy_tag aad ++ plain) aad ≡ some plain
toy_open_seal plain aad = rw (text_eq_refl (toy_tag aad)) refl

hkdf_length :
    (n : ℕ) (out : Bytes)
    → ◌≡◌ {A = Option Bytes} (some (replicate n 7)) (some out)
    → length out ≡ n
hkdf_length n out h = let e : replicate n 7 ≡ out = cc h in ap length (sym e) ∙ length-replicate n 7

pub toy-IsLawful : IsLawful toy
toy-IsLawful = record {
  length-hkdf = λ key info n out h. hkdf_length n out h;
  length-gcm_open = λ key nonce sealed aad plain h. toy_open-length sealed aad plain h;
  length-gcm_seal = λ key nonce plain aad. length-append (toy_tag aad) plain ∙ omega arith;
  open-seal = λ key nonce plain aad. toy_open_seal plain aad;
}

abbrev pub all_bytes : Bytes → Bool
all_bytes [] = true
all_bytes (b ∷ bs) = ltb b 256 && all_bytes bs

all_bytes_sound : (b : Bytes) → all_bytes b ≡ true → IsBytes b
all_bytes_sound [] h = tt
all_bytes_sound (x ∷ xs) h = (ground arith, all_bytes_sound xs (ground arith))

all_bytes_complete : (b : Bytes) → IsBytes b → all_bytes b ≡ true
all_bytes_complete [] h = refl
all_bytes_complete (x ∷ xs) h = ground (arith, all_bytes_complete xs h.1)

-- A text form of 36 characters: the bytes, and 20 dashes.
abbrev pub toy_to_string : Bytes → Text
toy_to_string b = b ++ replicate 20 45

abbrev pub toy_parse : Text → Option Bytes
toy_parse s = if length s == 36 && all_bytes (take 16 s) then some (take 16 s) else none

abbrev pub toy_uuid : UuidLibrary
toy_uuid = record { parse = toy_parse; to_string = toy_to_string }

parse_length : (s : Text) (b : Bytes) → toy_parse s ≡ some b → length b ≡ 16
parse_length s b h = elim (Bool-cases (length s == 36 && all_bytes (take 16 s))) [
  | inr bad ↦ absurd (ground arith)
  | inl good ↦
      let e : take 16 s ≡ b = ground arith in
      let l : length s ≡ 36 = ground arith in omega (arith, ap length e, length-take 16 s)
]

parse_bytes : (s : Text) (b : Bytes) → toy_parse s ≡ some b → IsBytes b
parse_bytes s b h = elim (Bool-cases (length s == 36 && all_bytes (take 16 s))) [
  | inr bad ↦ absurd (ground arith)
  | inl good ↦
      let e : take 16 s ≡ b = ground arith in
      subst IsBytes e (all_bytes_sound (take 16 s) (ground arith))
]

parse_string : (b : Bytes) → length b ≡ 16 → IsBytes b → toy_parse (toy_to_string b) ≡ some b
parse_string b l i =
    rw
      (
        length-append b (replicate 20 45),
        l,
        take-append 16 b (replicate 20 45) l,
        all_bytes_complete b i,
      )
      refl

pub toy_uuid-IsUuidLibrary : IsUuidLibrary toy_uuid
toy_uuid-IsUuidLibrary = record {
  length-parse = parse_length;
  parse-IsBytes = parse_bytes;
  length-to_string = λ b l. length-append b (replicate 20 45) ∙ omega (arith, l);
  parse-to_string = parse_string;
}

abbrev pub toy_mac : Mac
toy_mac key msg = replicate 32 5

pub toy_mac-IsMac : IsMac toy_mac
toy_mac-IsMac = record { length-mac = λ key msg. refl; mac-IsBytes = λ key msg. omega arith }

abbrev pub master_key : Bytes
master_key = replicate 32 1

abbrev pub seed : Bytes
seed = replicate 12 2

abbrev pub sealer_one : Sealer
sealer_one = record {
  key = master_key;
  key_nil = false;
  instance_tag = replicate 4 7;
  aead = some master_key;
  destroyed = false;
  nonce_prefix = replicate 4 2;
  nonce_ctr = 41;
}

pub sealer_one-IsLive : IsLive toy master_key sealer_one
sealer_one-IsLive = record {
  in_use = refl;
  has_aead = refl;
  has_tag = refl;
  has_prefix = refl;
  in_range = omega arith;
}

abbrev pub manager : Manager
manager = record { key = master_key; key_nil = false; state = loaded; master_key_loaded = 1 }

abbrev pub nas_bits : Bytes
nas_bits = replicate 16 3

abbrev pub nas_uuid : Text
nas_uuid = toy_to_string nas_bits

abbrev pub nas_info : DeviceInfo
nas_info = record { name = codes "nas"; uuid = nas_uuid; disabled = false }

abbrev pub entropy : Entropy
entropy = record { seed = some seed; fill = λ n. replicate n 8 }

abbrev pub metrics : Metrics
metrics = record {
  seal_total = 3;
  seal_duration = 3;
  unseal_total = λ r. 5;
  unseal_duration = 40;
  gate_api_errors = 0;
}

abbrev pub approving : Gate
approving device = decides approved

abbrev pub server : KmsServer
server = record {
  km = manager;
  metrics = metrics;
  gate = some approving;
  devices = (nas_uuid, nas_info) ∷ [];
}

-- A blob of the server for the device, with the plaintext 6 6 6.
abbrev pub blob : Bytes
blob = replicate 4 7 ++ (replicate 12 2 ++ (toy_tag nas_uuid ++ 6 ∷ 6 ∷ 6 ∷ []))

abbrev pub good_request : Request
good_request = record { node_uuid = nas_uuid; payload = blob }

abbrev pub bad_request : Request
bad_request = record { node_uuid = codes "nas"; payload = blob }

abbrev pub device : Device
device = record { name = codes "nas"; uuid = nas_uuid }

abbrev pub gate_config : TelegramGateConfig
gate_config = record {
  chat_id_int = negsuc 99;
  authorized_user_id = pos 12345;
  approval_ttl = 1000;
  approval_cache_ttl = 500;
}
