-- ===== src/Gas/Intrinsic.antt =====
-- Intrinsic gas by an independent sum over the bytes.
use godwoken_web.Common.{
  ℕ, ◌+◌, ◌*◌, ◌≤◌, ◌≡◌, arith, Option, some, [], ◌∷◌, ◌++◌, ◌==◌, if◌then◌else◌, length, Text,
}
use godwoken_web.Hex.{x_prefix}
use godwoken_web.Buffer.{Bytes, IsBytes, to_hex}
use godwoken_web.Buffer.Codec.{from_hex-to_hex}
use godwoken_web.Gas.{non_zero_from, data_gas, is_create, calc_intrinsic_gas}

-- The yellow paper's sum: 4 for a zero byte, 16 for any other.
abbrev pub byte_cost : ℕ → ℕ
byte_cost b = if b == 0 then 4 else 16

abbrev pub data_cost : Bytes → ℕ
data_cost [] = 0
data_cost (b ∷ bs) = byte_cost b + data_cost bs

non_zero_cost :
    (n : ℕ) (bs : Bytes)
    → (n ≤ non_zero_from n bs)
      × (non_zero_from n bs ≤ n + length bs)
      × (data_cost bs + 12 * n ≡ 4 * length bs + 12 * non_zero_from n bs)
unfolding non_zero_from
non_zero_cost n [] = omega arith
non_zero_cost n (b ∷ bs) = ground (arith, non_zero_cost n bs, non_zero_cost (n + 1) bs)

data_gas_lem : (bs : Bytes) → data_gas bs ≡ data_cost bs
unfolding data_gas
data_gas_lem bs = omega (arith, non_zero_cost 0 bs)

-- A call costs 21000 and a creation, to no address or to the text `0x`, costs 53000; each byte of the
-- call data, given as a printed buffer, adds 4 if it is zero and 16 if it is not.
pub intrinsic_gas_sum :
    (to : Option Text) (buf : Bytes)
    → IsBytes buf
    → calc_intrinsic_gas to (some (x_prefix ++ to_hex buf))
      ≡ (if is_create to then 53000 else 21000) + data_cost buf
unfolding calc_intrinsic_gas
intrinsic_gas_sum to buf h = rw (from_hex-to_hex buf h) (ground (arith, data_gas_lem buf))
