-- ===== src/Base64/RoundTrip.antt =====
-- What the encoder of Base64 writes, the decoder reads back.
use azath.Prelude.{
  length, Text, Bytes, IsBytes, ℕ, ◌+◌, ◌*◌, ◌/◌, ◌%◌, ◌<◌, ◌≡◌, refl, ap, some, List, [], ◌∷◌,
  arith,
}
use azath.Base64.{char_of, value_of, encode, sextets, join_sextets, decode}

value_of-char_of : (n : ℕ) → n < 64 → value_of (char_of n) ≡ some n
unfolding value_of char_of
value_of-char_of n h = ground arith

char_of_printable : (n : ℕ) → n < 64 → 44 < char_of n
unfolding char_of
char_of_printable n h = ground arith

-- The six-bit values that encode writes.
values : Bytes → List ℕ
values [] = []
values (a ∷ []) = (a / 4) ∷ (a % 4 * 16) ∷ []
values (a ∷ b ∷ []) = (a / 4) ∷ (a % 4 * 16 + b / 16) ∷ (b % 16 * 4) ∷ []
values (a ∷ b ∷ c ∷ rest) =
    (a / 4) ∷ (a % 4 * 16 + b / 16) ∷ (b % 16 * 4 + c / 64) ∷ (c % 64) ∷ values rest

sextets-char_of :
    (n : ℕ) (cs : Text) (vs : List ℕ)
    → n < 64
    → sextets cs ≡ some vs
    → sextets (char_of n ∷ cs) ≡ some (n ∷ vs)
unfolding sextets
sextets-char_of n cs vs h e = ground (arith, value_of-char_of n h, char_of_printable n h)

sextets-nil : sextets [] ≡ some []
unfolding sextets
sextets-nil = refl

sextets-encode : (b : Bytes) → IsBytes b → sextets (encode b) ≡ some (values b)
unfolding encode values
sextets-encode [] h = sextets-nil
sextets-encode (a ∷ []) h =
    sextets-char_of _ _ _ (omega arith) (sextets-char_of _ _ _ (omega arith) sextets-nil)
sextets-encode (a ∷ b ∷ []) h =
    sextets-char_of _ _ _ (omega arith)
      (sextets-char_of _ _ _ (omega arith) (sextets-char_of _ _ _ (omega arith) sextets-nil))
sextets-encode (a ∷ b ∷ c ∷ rest) h = sextets-char_of _ _ _ (omega arith) (
    sextets-char_of _ _ _ (omega arith) (
      sextets-char_of _ _ _ (omega arith)
        (sextets-char_of _ _ _ (omega arith) (sextets-encode rest h.1.1.1))))

join_sextets-values : (b : Bytes) → IsBytes b → join_sextets (values b) ≡ some b
unfolding join_sextets values
join_sextets-values [] h = refl
join_sextets-values (a ∷ []) h = ap some (ap (λ (x : ℕ). x ∷ []) (omega arith))
join_sextets-values (a ∷ b ∷ []) h = ap some (two_bytes (omega arith) (omega arith))
  where
    two_bytes : {x y : ℕ} → x ≡ a → y ≡ b → ◌≡◌ {A = Bytes} (x ∷ y ∷ []) (a ∷ b ∷ [])
    two_bytes p q = cc
join_sextets-values (a ∷ b ∷ c ∷ rest) h =
    rw (join_sextets-values rest h.1.1.1)
      (ap some (three_bytes (omega arith) (omega arith) (omega arith)))
  where
    three_bytes :
        {x y z : ℕ} → x ≡ a → y ≡ b → z ≡ c → ◌≡◌ {A = Bytes} (x ∷ y ∷ z ∷ rest) (a ∷ b ∷ c ∷ rest)
    three_bytes p q r = cc

-- Decoding gives back the bytes that were encoded.
pub decode-encode : (b : Bytes) → IsBytes b → decode (encode b) ≡ some b
unfolding decode
decode-encode b h = rw (sextets-encode b h) (join_sextets-values b h)

-- Four characters for each three bytes, and two or three for one or two bytes more.
pub length-encode : (b : Bytes) → length (encode b) ≡ (length b * 4 + 2) / 3
unfolding encode
length-encode [] = refl
length-encode (a ∷ []) = refl
length-encode (a ∷ b ∷ []) = refl
length-encode (a ∷ b ∷ c ∷ rest) = omega (arith, length-encode rest)
