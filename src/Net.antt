-- ===== src/Net.antt =====
-- What the code uses of Go's packages net and encoding/binary (the standard library of go 1.13):
-- IPv4 addresses as bytes and as uint32, their texts, CIDR masks, and the parsers. Texts of IPv6
-- addresses are outside the model; the parsers refuse them here.
pub mod Defs
pub mod Decimal
pub mod Bits
pub mod Cidr
pub mod Mask
pub mod Texts
