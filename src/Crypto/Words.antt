-- ===== src/Crypto/Words.antt =====
-- encoding/binary on 64-bit words: little-endian (the nonce counter of internal/crypto/aes.go).
use azath.Prelude.{
  length, Bytes, IsBytes, ℕ, ◌+◌, ◌*◌, ◌/◌, ◌%◌, ◌^◌, ◌<◌, ◌≡◌, refl, [], ◌∷◌, arith,
}

-- A uint64 wraps at this bound.
abbrev pub u64_mod : ℕ
u64_mod = 2 ^ 64

-- binary.LittleEndian.PutUint64
unfoldable pub put_u64_le : ℕ → Bytes
put_u64_le n =
    (n % 256)
    ∷ (n / 256 % 256)
    ∷ (n / 65536 % 256)
    ∷ (n / 16777216 % 256)
    ∷ (n / 4294967296 % 256)
    ∷ (n / 1099511627776 % 256)
    ∷ (n / 281474976710656 % 256)
    ∷ (n / 72057594037927936 % 256)
    ∷ []

-- binary.LittleEndian.Uint64
unfoldable pub u64_le : Bytes → ℕ
u64_le [] = 0
u64_le (b ∷ bs) = b + 256 * u64_le bs

pub length-put_u64_le : (n : ℕ) → length (put_u64_le n) ≡ 8
unfolding put_u64_le
length-put_u64_le n = refl

pub put_u64_le-IsBytes : (n : ℕ) → IsBytes (put_u64_le n)
unfolding put_u64_le
put_u64_le-IsBytes n = omega arith

pub u64_le-put_u64_le : (n : ℕ) → n < u64_mod → u64_le (put_u64_le n) ≡ n
unfolding u64_le put_u64_le
u64_le-put_u64_le n h = omega arith
