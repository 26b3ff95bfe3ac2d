-- ===== src/Crypto.antt =====
-- internal/crypto: the sealer of aes.go over abstract primitives. The primitives of Go's
-- crypto packages are a parameter; the blob format, the nonce counter, the error order and the
-- destruction of the key are modelled.
pub mod Primitives
pub mod Words
pub mod Sealer
