-- ===== src/Polyjuice/Written.antt =====
-- The arguments that `polyTxToGwTx` assembles, where it does not throw.
use godwoken_web.Common.{
  ℕ, ◌<◌, ◌^◌, ◌-◌, ◌≡◌, inl, inr, refl, sym, ◌∙◌, arith, Bool, true, false, none, ◌++◌, append-nil,
  ltb, if◌then◌else◌, length, drop, Text, codes, Bool-cases, ok, bind-eq-ok, ok_injective,
}
use godwoken_web.Hex.{x_prefix}
use godwoken_web.Buffer.{from_hex, to_hex, le_bytes, write_uint_le}
use godwoken_web.Uint.RoundTrip.{u128_bytes}
use godwoken_web.Polyjuice.{
  args_0_7, assemble_args, uint32_to_le_bytes, uint64_to_le_bytes, uint128_to_le_bytes,
}
use godwoken_web.Polyjuice.Assembly.{uint32_text, uint64_text, uint128_text}

-- The layout of the arguments: the magic text, the kind of the call, the gas limit in 8 bytes, the gas
-- price and the value in 16 each, the size of the data in 4, all with the lowest byte first, and the data.
abbrev pub written : Bool → ℕ → ℕ → ℕ → Text → Text
written deploy gas_limit gas_price value data_text =
    codes "0xffffff504f4c59"
    ++ ((if deploy then codes "03" else codes "00")
        ++ (to_hex (le_bytes 8 gas_limit)
            ++ (to_hex (u128_bytes gas_price)
                ++ (to_hex (u128_bytes value)
                    ++ (to_hex (le_bytes 4 (length (from_hex (drop 2 data_text))))
                        ++ drop 2 data_text)))))

fits_64 : (n : ℕ) (t : Text) → uint64_to_le_bytes n ≡ ok t → n < 2 ^ 64
unfolding uint64_to_le_bytes write_uint_le
fits_64 n t h = elim (Bool-cases (ltb n (256 ^ 8))) [
  | inl b ↦ ground (arith, b)
  | inr b ↦ absurd (let k = rw b at h in cc)
]

fits_32 : (n : ℕ) (t : Text) → uint32_to_le_bytes n ≡ ok t → n < 2 ^ 32
unfolding uint32_to_le_bytes write_uint_le
fits_32 n t h = elim (Bool-cases (ltb n (256 ^ 4))) [
  | inl b ↦ ground (arith, b)
  | inr b ↦ absurd (let k = rw b at h in cc)
]

fits_128 : (n : ℕ) (t : Text) → uint128_to_le_bytes n ≡ ok t → n < 2 ^ 128
unfolding uint128_to_le_bytes
fits_128 n t h = elim (Bool-cases (ltb (2 ^ 128 - 1) n)) [
  | inl b ↦ absurd (let k = rw b at h in cc)
  | inr b ↦ ground (arith, b)
]

joined-written :
    (deploy : Bool) (gas price value : ℕ) (data_text t1 t2 t3 t4 : Text)
    → t1 ≡ x_prefix ++ to_hex (le_bytes 8 gas)
    → t2 ≡ x_prefix ++ to_hex (u128_bytes price)
    → t3 ≡ x_prefix ++ to_hex (u128_bytes value)
    → t4 ≡ x_prefix ++ to_hex (le_bytes 4 (length (from_hex (drop 2 data_text))))
    → x_prefix
        ++ (drop 2 args_0_7
            ++ (drop 2 (if deploy then codes "0x03" else codes "0x00")
                ++ (drop 2 t1 ++ (drop 2 t2 ++ (drop 2 t3 ++ (drop 2 t4 ++ drop 2 data_text))))))
      ≡ written deploy gas price value data_text
joined-written true gas price value data_text t1 t2 t3 t4 a b c d = rw (a, b, c, d) refl
joined-written false gas price value data_text t1 t2 t3 t4 a b c d = rw (a, b, c, d) refl

-- The numbers of arguments that are assembled fit their fields, and the arguments have the layout.
pub assemble-written :
    (deploy : Bool) (gas price value : ℕ) (data_text base : Text)
    → assemble_args deploy gas price value data_text none ≡ ok base
    → (gas < 2 ^ 64)
      × (price < 2 ^ 128)
      × (value < 2 ^ 128)
      × (base ≡ written deploy gas price value data_text)
unfolding assemble_args
assemble-written deploy gas price value data_text base h =
    let (t1, e1, k1) = bind-eq-ok _ (uint64_to_le_bytes gas) h in
    let (t2, e2, k2) = bind-eq-ok _ (uint128_to_le_bytes price) k1 in
    let (t3, e3, k3) = bind-eq-ok _ (uint128_to_le_bytes value) k2 in
    let (t4, e4, k4) =
      bind-eq-ok _ (uint32_to_le_bytes (length (from_hex (drop 2 data_text)))) k3 in
    let g = fits_64 gas t1 e1 in
    let p = fits_128 price t2 e2 in
    let v = fits_128 value t3 e3 in
    let s = fits_32 (length (from_hex (drop 2 data_text))) t4 e4 in
    (
      g,
      p,
      v,
      sym (ok_injective k4)
          ∙ append-nil _
          ∙ joined-written deploy gas price value data_text t1 t2 t3 t4
              (ok_injective (sym e1 ∙ uint64_text gas g))
              (ok_injective (sym e2 ∙ uint128_text price p))
              (ok_injective (sym e3 ∙ uint128_text value v))
              (ok_injective (sym e4 ∙ uint32_text (length (from_hex (drop 2 data_text))) s)),
    )
