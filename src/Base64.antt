-- ===== src/Base64.antt =====
-- encoding/base64, RawURLEncoding, as internal/gate/telegram.go uses it: no padding, and a decoder
-- that skips line ends and ignores the unused bits of the last character.
pub mod RoundTrip
pub mod Standard
use azath.Prelude.{
  ltb, leb, ◌==◌, if◌then◌else◌, Text, Bytes, ℕ, ◌+◌, ◌-◌, ◌*◌, ◌/◌, ◌%◌, ◌&&◌, ◌||◌, Option, none,
  some, List, [], ◌∷◌, ◌++◌,
}

unfoldable pub char_of : ℕ → ℕ
char_of n =
    if ltb n 26
    then n + 65
    else if ltb n 52
    then n + 71
    else if ltb n 62
    then n - 4
    else if n == 62
    then 45
    else 95

unfoldable pub value_of : ℕ → Option ℕ
value_of c =
    if leb 65 c && leb c 90
    then some (c - 65)
    else if leb 97 c && leb c 122
    then some (c - 71)
    else if leb 48 c && leb c 57
    then some (c + 4)
    else if c == 45
    then some 62
    else if c == 95
    then some 63
    else none

unfoldable pub encode : Bytes → Text
unfolding char_of
encode [] = []
encode (a ∷ []) = char_of (a / 4) ∷ char_of (a % 4 * 16) ∷ []
encode (a ∷ b ∷ []) = char_of (a / 4) ∷ char_of (a % 4 * 16 + b / 16) ∷ char_of (b % 16 * 4) ∷ []
encode (a ∷ b ∷ c ∷ rest) =
    char_of (a / 4)
    ∷ char_of (a % 4 * 16 + b / 16)
    ∷ char_of (b % 16 * 4 + c / 64)
    ∷ char_of (c % 64)
    ∷ encode rest

-- The six-bit values of a text; line ends are skipped, none for any other character.
unfoldable pub sextets : Text → Option (List ℕ)
unfolding value_of
sextets [] = some []
sextets (c ∷ cs) =
    let rest = sextets cs in
    if c == 10 || c == 13 then rest else elim (value_of c) [
      | none ↦ none
      | some v ↦ elim rest [ none ↦ none | some vs ↦ some (v ∷ vs) ]
    ]

abbrev cons_all : List ℕ → Option Bytes → Option Bytes
cons_all xs none = none
cons_all xs (some ys) = some (xs ++ ys)

unfoldable pub join_sextets : List ℕ → Option Bytes
join_sextets [] = some []
join_sextets (p ∷ []) = none
join_sextets (p ∷ q ∷ []) = some ((p * 4 + q / 16) ∷ [])
join_sextets (p ∷ q ∷ r ∷ []) = some ((p * 4 + q / 16) ∷ (q % 16 * 16 + r / 4) ∷ [])
join_sextets (p ∷ q ∷ r ∷ s ∷ rest) =
    cons_all ((p * 4 + q / 16) ∷ (q % 16 * 16 + r / 4) ∷ (r % 4 * 64 + s) ∷ []) (join_sextets rest)

join_all : Option (List ℕ) → Option Bytes
unfolding join_sextets
join_all none = none
join_all (some vs) = join_sextets vs

unfoldable pub decode : Text → Option Bytes
unfolding sextets join_all
decode s = join_all (sextets s)
