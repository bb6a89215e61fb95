-- ===== src/Uint.antt =====
-- The unsigned integer classes of packages/api-server/src/base/types/uint.ts, a module for each.
-- `value` is a natural number, so the tests of `typeof value` and of `value < MIN` always pass.
pub mod Uint32
pub mod Uint64
pub mod Uint128
pub mod Uint256
pub mod RoundTrip
pub mod LittleEndian
pub mod Bounds
