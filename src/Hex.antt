-- ===== src/Hex.antt =====
-- Hexadecimal text: pkg/utils/hex.go, the parts of Go's encoding/hex that it uses, and the
-- addresses of pkg/eth/eth_address.go.
pub mod Digits
pub mod Prefix
pub mod Address
