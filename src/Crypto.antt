-- ===== src/Crypto.antt =====
-- src/crypto: the hexadecimal text of a digest (src/crypto/util/util.cpp).
pub mod Hex
pub mod RoundTrip
