-- ===== src/Wire.antt =====
-- The binary protocol: common/src/network/serials/. Bytes are numbers below 256. An index or a
-- slice out of range, `todo!` and an IPv6 address panic; the text of an error is not modelled.
pub mod Result
pub mod Bytes
pub mod Protocol
pub mod Serialize
pub mod Deserialize
pub mod RoundTrip
mod Tests
