-- ===== src/Uuid.antt =====
-- What the program uses of github.com/google/uuid.
use azath.Prelude.{length, Text, Bytes, IsBytes, ◌≡◌, Option, some}

pub record UuidLibrary : Type 0 where
  pub parse : Text → Option Bytes
  pub to_string : Bytes → Text

-- Its documented behaviour: a UUID is 16 bytes, its text form has 36 characters, and Parse reads
-- the text form back.
pub record IsUuidLibrary (u : UuidLibrary) : Type 0 where
  pub length-parse : (s : Text) (b : Bytes) → u.parse s ≡ some b → length b ≡ 16
  pub parse-IsBytes : (s : Text) (b : Bytes) → u.parse s ≡ some b → IsBytes b
  pub length-to_string : (b : Bytes) → length b ≡ 16 → length (u.to_string b) ≡ 36
  pub parse-to_string : (b : Bytes) → length b ≡ 16 → IsBytes b → u.parse (u.to_string b) ≡ some b
