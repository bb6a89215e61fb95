-- ===== src/Address.antt =====
-- The class `EthRegistryAddress` of packages/api-server/src/base/address.ts.
-- `registry_id` is `+gwConfig.accounts.ethAddrReg.id`, which the node reports.
pub mod Serialize
pub mod Deserialize
use godwoken_web.Common.{
  ℕ, ◌+◌, Bool, not, ◌&&◌, ◌||◌, List, [], ◌∷◌, ◌++◌, map, leb, ◌==◌, if◌then◌else◌, length, drop,
  slice, Text, starts_with, Result, ok, err, guard, address_format, address_deserialize, ◌>>=◌,
  ◌>>◌,
}
use godwoken_web.Hex.{x_prefix}
use godwoken_web.Uint.Uint32
use godwoken_web.Uint.Uint32.{Uint32}

-- `s.toLowerCase()`
unfoldable pub lower : ℕ → ℕ
lower c = if leb b'A' c && leb c b'Z' then c + 32 else c

unfoldable pub to_lower_case : Text → Text
unfolding lower
to_lower_case s = map lower s

pub record EthRegistryAddress : Type 0 where
  pub registry_id : ℕ
  pub address_byte_size : ℕ
  pub address : Text

module _ (registry_id : ℕ) where
  -- The constructor.
  unfoldable pub make : Text → Result EthRegistryAddress
  unfolding starts_with to_lower_case
  make address = do
    guard (starts_with x_prefix address && length address == 42) address_format
    ok (record {
      registry_id = registry_id;
      address_byte_size = 20;
      address = to_lower_case address;
    })

  unfoldable pub deserialize : Text → Result EthRegistryAddress
  unfolding make
  deserialize hex = do
    let hex_without_prefix = drop 2 hex
    address_byte_size ← Uint32.from_little_endian (slice 8 16 hex_without_prefix)
    let address = drop 16 hex_without_prefix
    guard (address_byte_size.value == 20 && length address == 40) address_deserialize
    make (x_prefix ++ address)

-- `new Uint32(n).toLittleEndian().slice(2)`
unfoldable pub le_text : ℕ → Result Text
le_text n = do u ← Uint32.make n; hex ← Uint32.to_little_endian u; ok (drop 2 hex)

unfoldable pub serialize : EthRegistryAddress → Result Text
unfolding le_text
serialize a = do
  id ← le_text a.registry_id
  size ← le_text a.address_byte_size
  ok (x_prefix ++ (id ++ (size ++ drop 2 a.address)))
