-- ===== src/Base64/Standard.antt =====
-- encoding/base64, StdEncoding, as cmd/azath/seal.go writes and cmd/azath/client.go reads it: padded
-- quanta of four characters, and a decoder that skips line ends and ignores unused bits.
use azath.Prelude.{
  ltb, leb, ◌==◌, if◌then◌else◌, length, All, Text, Bytes, IsBytes, ℕ, ◌+◌, ◌-◌, ◌*◌, ◌/◌, ◌%◌, ◌<◌,
  ◌≡◌, refl, ap, ◌∙◌, ◌≢◌, false, ◌&&◌, ◌||◌, Option, none, some, [], ◌∷◌, arith,
}

unfoldable pub std_char : ℕ → ℕ
std_char n =
    if ltb n 26
    then n + 65
    else if ltb n 52
    then n + 71
    else if ltb n 62
    then n - 4
    else if n == 62
    then 43
    else 47

unfoldable pub std_value : ℕ → Option ℕ
std_value c =
    if leb 65 c && leb c 90
    then some (c - 65)
    else if leb 97 c && leb c 122
    then some (c - 71)
    else if leb 48 c && leb c 57
    then some (c + 4)
    else if c == 43
    then some 62
    else if c == 47
    then some 63
    else none

-- EncodeToString
unfoldable pub std_encode : Bytes → Text
unfolding std_char
std_encode [] = []
std_encode (a ∷ []) = std_char (a / 4) ∷ std_char (a % 4 * 16) ∷ b'=' ∷ b'=' ∷ []
std_encode (a ∷ b ∷ []) =
    std_char (a / 4) ∷ std_char (a % 4 * 16 + b / 16) ∷ std_char (b % 16 * 4) ∷ b'=' ∷ []
std_encode (a ∷ b ∷ c ∷ rest) =
    std_char (a / 4)
    ∷ std_char (a % 4 * 16 + b / 16)
    ∷ std_char (b % 16 * 4 + c / 64)
    ∷ std_char (c % 64)
    ∷ std_encode rest

infixl 5 ◌>>=◌
abbrev ◌>>=◌ : {A : Type 0} {B : Type 0} → Option A → (A → Option B) → Option B
none >>= f = none
some a >>= f = f a

abbrev at_end : Text → Bytes → Option Bytes
at_end [] bytes = some bytes
at_end (c ∷ cs) bytes = none

-- The last quantum, with two or three values.
one_byte : ℕ → ℕ → Text → Option Bytes
one_byte a b after = do p ← std_value a; q ← std_value b; at_end after ((p * 4 + q / 16) ∷ [])

two_bytes : ℕ → ℕ → ℕ → Text → Option Bytes
two_bytes a b c after = do
  p ← std_value a
  q ← std_value b
  r ← std_value c
  at_end after ((p * 4 + q / 16) ∷ (q % 16 * 16 + r / 4) ∷ [])

three_bytes : ℕ → ℕ → ℕ → ℕ → Option Bytes → Option Bytes
three_bytes a b c d rest = do
  p ← std_value a
  q ← std_value b
  r ← std_value c
  s ← std_value d
  bytes ← rest
  some ((p * 4 + q / 16) ∷ (q % 16 * 16 + r / 4) ∷ (r % 4 * 64 + s) ∷ bytes)

-- Four characters, the text after them, and what that text decodes to.
quantum : ℕ → ℕ → ℕ → ℕ → Text → Option Bytes → Option Bytes
unfolding one_byte two_bytes three_bytes std_value
quantum a b c d after rest =
    if d == b'='
    then if c == b'=' then one_byte a b after else two_bytes a b c after
    else three_bytes a b c d rest

quanta : Text → Option Bytes
unfolding quantum
quanta [] = some []
quanta (a ∷ []) = none
quanta (a ∷ b ∷ []) = none
quanta (a ∷ b ∷ c ∷ []) = none
quanta (a ∷ b ∷ c ∷ d ∷ rest) = quantum a b c d rest (quanta rest)

skip_line_ends : Text → Text
skip_line_ends [] = []
skip_line_ends (c ∷ cs) =
    let rest = skip_line_ends cs in if c == 10 || c == 13 then rest else c ∷ rest

-- DecodeString
unfoldable pub std_decode : Text → Option Bytes
unfolding quanta skip_line_ends
std_decode s = quanta (skip_line_ends s)

-- The printable characters but the space.
abbrev pub IsGraphic : ℕ → Type 0
IsGraphic c = (32 < c) × (c < 127)

std_value-std_char : (n : ℕ) → n < 64 → std_value (std_char n) ≡ some n
unfolding std_value std_char
std_value-std_char n h = ground arith

std_char-IsGraphic : (n : ℕ) → n < 64 → IsGraphic (std_char n) × (std_char n ≢ b'=')
unfolding std_char
std_char-IsGraphic n h = ground arith

pub std_encode-IsGraphic : (b : Bytes) → IsBytes b → All IsGraphic (std_encode b)
unfolding std_encode
std_encode-IsGraphic [] h = tt
std_encode-IsGraphic (a ∷ []) h =
    omega (arith, std_char-IsGraphic (a / 4), std_char-IsGraphic (a % 4 * 16))
std_encode-IsGraphic (a ∷ b ∷ []) h = ground (
  arith,
  std_char-IsGraphic (a / 4),
  std_char-IsGraphic (a % 4 * 16 + b / 16),
  std_char-IsGraphic (b % 16 * 4),
)
std_encode-IsGraphic (a ∷ b ∷ c ∷ rest) h = ground (
  arith,
  std_char-IsGraphic (a / 4),
  std_char-IsGraphic (a % 4 * 16 + b / 16),
  std_char-IsGraphic (b % 16 * 4 + c / 64),
  std_char-IsGraphic (c % 64),
  std_encode-IsGraphic rest h.1.1.1,
)

skip_graphic : (s : Text) → All IsGraphic s → skip_line_ends s ≡ s
unfolding skip_line_ends
skip_graphic [] h = refl
skip_graphic (c ∷ cs) h = ground (arith, skip_graphic cs)

std_char-ne-pad : (n : ℕ) → n < 64 → (std_char n == b'=') ≡ false
std_char-ne-pad n h = ground (arith, std_char-IsGraphic n h)

module _ (p q : ℕ) (hp : p < 64) (hq : q < 64) where
  one_byte-std_char : one_byte (std_char p) (std_char q) [] ≡ some ((p * 4 + q / 16) ∷ [])
  unfolding one_byte
  one_byte-std_char = rw (std_value-std_char p hp, std_value-std_char q hq) refl

  module _ (r : ℕ) (hr : r < 64) where
    two_bytes-std_char :
        two_bytes (std_char p) (std_char q) (std_char r) []
        ≡ some ((p * 4 + q / 16) ∷ (q % 16 * 16 + r / 4) ∷ [])
    unfolding two_bytes
    two_bytes-std_char =
        rw (std_value-std_char p hp, std_value-std_char q hq, std_value-std_char r hr) refl

    three_bytes-std_char :
        (s : ℕ) (rest : Bytes)
        → s < 64
        → three_bytes (std_char p) (std_char q) (std_char r) (std_char s) (some rest)
          ≡ some ((p * 4 + q / 16) ∷ (q % 16 * 16 + r / 4) ∷ (r % 4 * 64 + s) ∷ rest)
    unfolding three_bytes
    three_bytes-std_char s rest hs =
        rw
          (
            std_value-std_char p hp,
            std_value-std_char q hq,
            std_value-std_char r hr,
            std_value-std_char s hs,
          )
          refl

bytes_eq :
    (x y z a b c : ℕ) (rest : Bytes)
    → x ≡ a
    → y ≡ b
    → z ≡ c
    → ◌≡◌ {A = Option Bytes} (some (x ∷ y ∷ z ∷ rest)) (some (a ∷ b ∷ c ∷ rest))
bytes_eq x y z a b c rest p q r = cc

quanta-std_encode : (b : Bytes) → IsBytes b → quanta (std_encode b) ≡ some b
unfolding quanta quantum std_encode
quanta-std_encode [] h = refl
quanta-std_encode (a ∷ []) h =
    one_byte-std_char (a / 4) (a % 4 * 16) (omega arith) (omega arith)
    ∙ ap (λ (x : ℕ). some (x ∷ [])) (omega arith)
quanta-std_encode (a ∷ b ∷ []) h =
    let e : a / 4 * 4 + (a % 4 * 16 + b / 16) / 16 ≡ a = omega arith in
    let f : (a % 4 * 16 + b / 16) % 16 * 16 + b % 16 * 4 / 4 ≡ b = omega arith in
    rw (std_char-ne-pad (b % 16 * 4) (omega arith)) (
      two_bytes-std_char (a / 4) (a % 4 * 16 + b / 16) (omega arith) (omega arith) (b % 16 * 4)
        (omega arith)
      ∙ cc (e, f))
quanta-std_encode (a ∷ b ∷ c ∷ rest) h =
    rw (std_char-ne-pad (c % 64) (omega arith), quanta-std_encode rest h.1.1.1)
      (three_bytes-std_char (a / 4) (a % 4 * 16 + b / 16) (omega arith) (omega arith)
          (b % 16 * 4 + c / 64) (omega arith) (c % 64) rest (omega arith)
        ∙ bytes_eq _ _ _ _ _ _ rest (omega arith) (omega arith) (omega arith))

-- Decoding gives back the bytes that were encoded.
pub std_decode-std_encode : (b : Bytes) → IsBytes b → std_decode (std_encode b) ≡ some b
unfolding std_decode
std_decode-std_encode b h =
    rw (skip_graphic (std_encode b) (std_encode-IsGraphic b h)) (quanta-std_encode b h)

-- Four characters for each three bytes or part of three.
pub length-std_encode : (b : Bytes) → length (std_encode b) ≡ (length b + 2) / 3 * 4
unfolding std_encode
length-std_encode [] = refl
length-std_encode (a ∷ []) = refl
length-std_encode (a ∷ b ∷ []) = refl
length-std_encode (a ∷ b ∷ c ∷ rest) = omega (arith, length-std_encode rest)
