-- ===== src/Eth/Estimate.antt =====
-- What eth_estimateGas answers for a run whose system log has the layout of PolyjuiceLog/System.
use godwoken_web.Common.{
  ℕ, ◌+◌, ◌^◌, ◌<◌, ◌≤◌, ◌≡◌, refl, ◌∙◌, ap, arith, some, List, [], ◌∷◌, ◌++◌, append_assoc, All,
  length, length-append, slice, slice_at, slice_skip, All-append, ltb, ltb-false→le, Text, ◌-◌,
  le→leb, ltb→lt, take-append, codes, text_eq, Bool-cases, false, ok, ◌⊎◌, inl, inr,
}
use godwoken_web.Hex.{x_prefix, to_hex_number}
use godwoken_web.Buffer.{Bytes, IsBytes, of_le, le_bytes, to_hex, from_hex, read_uint_le}
use godwoken_web.Buffer.Codec.{from_hex-to_hex}
use godwoken_web.Buffer.Words.{
  le_bytes-IsBytes, length-le_bytes, read_uint_le-le_bytes, read_uint_le_skip,
}
use godwoken_web.PolyjuiceLog.System.{system_log}
use godwoken_web.Gas.{calc_intrinsic_gas}
use godwoken_web.Normalizer.{NormalizedCall}
use godwoken_web.Eth.GwLogs.{
  LogItem, polyjuice_system, bytes_of, parse_system_log, parse_log, extract_polyjuice_system_log,
}
use godwoken_web.Eth.Calls.{estimated_gas}

-- Not the flag of a system log.
abbrev pub IsOther : LogItem → Type 0
IsOther item = text_eq item.service_flag (codes "0x2") ≡ false

module _ (item : LogItem) (gas_used cumulative : ℕ) (created : Bytes) (status : ℕ) (buf : Bytes)
    (e : bytes_of item ≡ buf) (wide : length buf ≡ 40) (at_gas : read_uint_le 8 0 buf ≡ ok gas_used)
    (at_cumulative : read_uint_le 8 8 buf ≡ ok cumulative) (at_created : slice 16 32 buf ≡ created)
    (at_status : read_uint_le 4 32 buf ≡ ok status) where
  parse_fields :
      parse_system_log item
      ≡ ok (polyjuice_system gas_used cumulative (x_prefix ++ to_hex created) status)
  unfolding parse_system_log
  parse_fields = rw (e, wide, at_gas, at_cumulative, at_created, at_status)

-- The first of the system logs is the one that is parsed.
extract_first :
    (skipped : List LogItem) (item : LogItem) (rest : List LogItem)
    → All IsOther skipped
    → item.service_flag ≡ codes "0x2"
    → extract_polyjuice_system_log (skipped ++ (item ∷ rest)) ≡ parse_system_log item
unfolding extract_polyjuice_system_log parse_log text_eq
extract_first [] item rest h e = rw e
extract_first (other ∷ skipped) item rest (ho, h) e = rw ho (extract_first skipped item rest h e)

read_here :
    (k : ℕ) (xs after : Bytes) → length xs ≡ k → read_uint_le k 0 (xs ++ after) ≡ ok (of_le xs)
unfolding read_uint_le
read_here k xs after h =
    rw (le→leb (0 + k) (length (xs ++ after)) (omega (arith, length-append xs after)))
      (ap ok (ap of_le (take-append xs after (0 + k - 0) (omega arith))))

-- A system log of the documented layout.
abbrev pub system_item : Text → ℕ → ℕ → Bytes → ℕ → LogItem
system_item account_id gas_used cumulative created status = record {
  account_id = account_id;
  service_flag = codes "0x2";
  log_data = x_prefix ++ to_hex (system_log gas_used cumulative created status);
}

module _ (account_id : Text) (gas_used cumulative : ℕ) (head tail : Bytes) (status : ℕ)
    (hh : length head ≡ 16) (ht : length tail ≡ 4) (bytes : IsBytes (head ++ tail))
    (hg : gas_used < 2 ^ 64) (hc : cumulative < 2 ^ 64) where
  abbrev logged : LogItem
  logged = system_item account_id gas_used cumulative (head ++ tail) status

  system_bytes : bytes_of logged ≡ system_log gas_used cumulative (head ++ tail) status
  unfolding from_hex to_hex
  system_bytes = from_hex-to_hex (system_log gas_used cumulative (head ++ tail) status) (
      All-append _ (le_bytes 8 gas_used) _ (le_bytes-IsBytes 8 gas_used) (
        All-append _ (le_bytes 8 cumulative) _ (le_bytes-IsBytes 8 cumulative)
          (All-append _ (head ++ tail) _ bytes (le_bytes-IsBytes 4 status))))

  abbrev behind_gas : Bytes
  behind_gas = head ++ (tail ++ le_bytes 4 status)

  abbrev pieces : Bytes
  pieces = le_bytes 8 gas_used ++ (le_bytes 8 cumulative ++ behind_gas)

  length-pieces : length pieces ≡ 40
  length-pieces = omega (
    arith,
    hh,
    ht,
    length-le_bytes 8 gas_used,
    length-le_bytes 8 cumulative,
    length-le_bytes 4 status,
    length-append (le_bytes 8 gas_used) (le_bytes 8 cumulative ++ behind_gas),
    length-append (le_bytes 8 cumulative) behind_gas,
    length-append head (tail ++ le_bytes 4 status),
    length-append tail (le_bytes 4 status),
  )

  slice_created : slice 16 32 pieces ≡ head
  slice_created =
      slice_skip (le_bytes 8 gas_used) (le_bytes 8 cumulative ++ behind_gas) 8 8 24
        (length-le_bytes 8 gas_used)
      ∙ slice_at (le_bytes 8 cumulative) head (tail ++ le_bytes 4 status) 8 16
          (length-le_bytes 8 cumulative) hh

  read_status : read_uint_le 4 32 pieces ≡ ok (of_le tail)
  read_status =
      read_uint_le_skip 4 24 (le_bytes 8 gas_used) (le_bytes 8 cumulative ++ behind_gas) 8
        (length-le_bytes 8 gas_used)
      ∙ read_uint_le_skip 4 16 (le_bytes 8 cumulative) behind_gas 8 (length-le_bytes 8 cumulative)
      ∙ read_uint_le_skip 4 0 head (tail ++ le_bytes 4 status) 16 hh
      ∙ read_here 4 tail (le_bytes 4 status) ht

  -- The gas is read as it was written. Of the created address sixteen bytes are kept, and the status
  -- is read from the other four.
  pub parse-system_item :
      parse_system_log logged
      ≡ ok (polyjuice_system gas_used cumulative (x_prefix ++ to_hex head) (of_le tail))
  parse-system_item =
      parse_fields logged gas_used cumulative head (of_le tail) pieces
        (system_bytes
          ∙ ap (λ (bs : Bytes). le_bytes 8 gas_used ++ (le_bytes 8 cumulative ++ bs))
              (append_assoc head tail (le_bytes 4 status)))
        length-pieces
        (read_uint_le-le_bytes 8 gas_used [] (le_bytes 8 cumulative ++ behind_gas) 0 (omega arith)
          refl)
        (read_uint_le-le_bytes 8 cumulative (le_bytes 8 gas_used) behind_gas 8 (omega arith)
          (length-le_bytes 8 gas_used))
        slice_created read_status

  greater :
      (extra : ℕ) (call : NormalizedCall) (logs : List LogItem)
      → extract_polyjuice_system_log logs ≡ parse_system_log logged
      → (gas : ℕ) × (estimated_gas extra call logs ≡ ok (to_hex_number gas))
        × (gas_used + extra ≤ gas)
        × (calc_intrinsic_gas (some call.to) (some call.data_text) ≤ gas)
        × ((gas ≡ gas_used + extra)
            ⊎ (gas ≡ calc_intrinsic_gas (some call.to) (some call.data_text)))
  unfolding estimated_gas
  greater extra call logs e =
      let intrinsic = calc_intrinsic_gas (some call.to) (some call.data_text) in
      elim (Bool-cases (ltb (gas_used + extra) intrinsic)) [
        | inl b ↦ (
          intrinsic,
          rw (e ∙ parse-system_item, b),
          omega (arith, ltb→lt (gas_used + extra) intrinsic b),
          omega arith,
          inr refl,
        )
        | inr b ↦ (
          gas_used + extra,
          rw (e ∙ parse-system_item, b),
          omega arith,
          ltb-false→le (gas_used + extra) intrinsic b,
          inl refl,
        )
      ]

  -- For a run whose first system log has the documented layout, whatever its other logs are, the
  -- estimation is the greater of the intrinsic gas of the call and the gas used with the extra gas.
  pub estimated_gas_lem :
      (skipped rest : List LogItem) (extra : ℕ) (call : NormalizedCall)
      → All IsOther skipped
      → (gas : ℕ) × (estimated_gas extra call (skipped ++ (logged ∷ rest)) ≡ ok (to_hex_number gas))
        × (gas_used + extra ≤ gas)
        × (calc_intrinsic_gas (some call.to) (some call.data_text) ≤ gas)
        × ((gas ≡ gas_used + extra)
            ⊎ (gas ≡ calc_intrinsic_gas (some call.to) (some call.data_text)))
  estimated_gas_lem skipped rest extra call others =
      greater extra call (skipped ++ (logged ∷ rest))
        (extract_first skipped logged rest others refl)
