-- ===== src/Client/Names.antt =====
-- The share names that the configuration of internal/config/client.go accepts.
use azath.Prelude.{length, Text, contains_byte, ℕ, ◌≤◌, ◌≡◌, refl, ◌≢◌, true, false, [], ◌∷◌, arith}
use azath.Client.{ShareConfig, is_share_name, is_share, are_name_chars}

-- A text that a command line takes for an argument, and not for an option.
pub record IsArgument (name : Text) : Type 0 where
  pub first : ℕ
  pub others : Text
  pub starts : name ≡ first ∷ others
  pub no_dash : first ≢ b'-'
  pub short : length name ≤ 80
  pub no_nul : contains_byte name 0 ≡ false

name_chars_no_nul : (s : Text) → are_name_chars s ≡ true → contains_byte s 0 ≡ false
unfolding are_name_chars
name_chars_no_nul [] h = refl
name_chars_no_nul (c ∷ cs) h = ground (arith, name_chars_no_nul cs)

share_name-IsArgument : (name : Text) → is_share_name name ≡ true → IsArgument name
unfolding is_share_name
share_name-IsArgument [] h = absurd (cc h)
share_name-IsArgument (c ∷ cs) h = record {
  first = c;
  others = cs;
  starts = refl;
  no_dash = ground arith;
  short = ground arith;
  no_nul = ground (arith, name_chars_no_nul cs);
}

pub share-IsArgument : (s : ShareConfig) → is_share s ≡ true → IsArgument s.name
unfolding is_share
share-IsArgument s h = share_name-IsArgument s.name (ground arith)
