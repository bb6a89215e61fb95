-- ===== src/PolyjuiceLog/System.antt =====
-- The system log: what is read from a well-formed log, and what is refused.
use godwoken_web.Common.{
  ℕ, ◌^◌, ◌<◌, ◌≡◌, refl, ◌∙◌, arith, [], ◌++◌, append-nil, length, length-append, drop, slice,
  slice_at, slice_skip, Text, ok,
}
use godwoken_web.Hex.{x_prefix, to_hex_number}
use godwoken_web.Buffer.{Bytes, le_bytes, to_hex}
use godwoken_web.Buffer.Codec.{length-to_hex, to_hex-append}
use godwoken_web.Buffer.Words.{length-le_bytes}
use godwoken_web.Uint.Uint32
use godwoken_web.Uint.Uint64
use godwoken_web.Uint.RoundTrip.{uint32_of_bytes, uint64_of_bytes}
use godwoken_web.PolyjuiceLog.{parse_polyjuice_system_log}

-- The layout that the comments of the parser give: 8, 8, 20 and 4 bytes.
abbrev pub system_log : ℕ → ℕ → Bytes → ℕ → Bytes
system_log gas_used cumulative created status =
    le_bytes 8 gas_used ++ (le_bytes 8 cumulative ++ (created ++ le_bytes 4 status))

module _ (raw : Text) (gas_used cumulative : ℕ) (created : Text) (status : ℕ) (e : length raw ≡ 82)
    (at_gas : slice 0 16 (drop 2 raw) ≡ to_hex (le_bytes 8 gas_used))
    (at_cumulative : slice 16 32 (drop 2 raw) ≡ to_hex (le_bytes 8 cumulative))
    (at_created : slice 32 72 (drop 2 raw) ≡ created)
    (at_status : slice 72 80 (drop 2 raw) ≡ to_hex (le_bytes 4 status)) where
  parse_fields :
      gas_used < 2 ^ 64
      → cumulative < 2 ^ 64
      → status < 2 ^ 32
      → parse_polyjuice_system_log raw
        ≡ ok (record {
          gas_used = to_hex_number gas_used;
          cumulative_gas_used = to_hex_number cumulative;
          created_address = x_prefix ++ created;
          status_code = to_hex_number status;
        })
  unfolding parse_polyjuice_system_log Uint32.to_hex Uint64.to_hex
  parse_fields hg hc hs = rw e (
      rw (at_gas, uint64_of_bytes gas_used (omega arith))
        (rw (at_cumulative, uint64_of_bytes cumulative (omega arith))
          (rw at_created (rw (at_status, uint32_of_bytes status (omega arith))))))

module _ (gas_used cumulative : ℕ) (created : Bytes) (status : ℕ) (hc : length created ≡ 20) where
  abbrev pieces_created : Text
  pieces_created = to_hex created ++ to_hex (le_bytes 4 status)

  abbrev pieces_cumulative : Text
  pieces_cumulative = to_hex (le_bytes 8 cumulative) ++ pieces_created

  abbrev pieces : Text
  pieces = to_hex (le_bytes 8 gas_used) ++ pieces_cumulative

  length-gas : length (to_hex (le_bytes 8 gas_used)) ≡ 16
  length-gas = omega (arith, length-to_hex (le_bytes 8 gas_used), length-le_bytes 8 gas_used)

  length-cumulative : length (to_hex (le_bytes 8 cumulative)) ≡ 16
  length-cumulative =
      omega (arith, length-to_hex (le_bytes 8 cumulative), length-le_bytes 8 cumulative)

  length-created : length (to_hex created) ≡ 40
  length-created = omega (arith, length-to_hex created)

  length-status : length (to_hex (le_bytes 4 status)) ≡ 8
  length-status = omega (arith, length-to_hex (le_bytes 4 status), length-le_bytes 4 status)

  length-pieces : length pieces ≡ 80
  length-pieces = omega (
    arith,
    length-gas,
    length-cumulative,
    length-created,
    length-status,
    length-append (to_hex (le_bytes 8 gas_used)) pieces_cumulative,
    length-append (to_hex (le_bytes 8 cumulative)) pieces_created,
    length-append (to_hex created) (to_hex (le_bytes 4 status)),
  )

  pieces_text : to_hex (system_log gas_used cumulative created status) ≡ pieces
  pieces_text = rw (
    to_hex-append (le_bytes 8 gas_used) (le_bytes 8 cumulative ++ (created ++ le_bytes 4 status)),
    to_hex-append (le_bytes 8 cumulative) (created ++ le_bytes 4 status),
    to_hex-append created (le_bytes 4 status),
  )

  slice_status : slice 72 80 pieces ≡ to_hex (le_bytes 4 status)
  slice_status =
      slice_skip (to_hex (le_bytes 8 gas_used)) pieces_cumulative 16 56 64 length-gas
      ∙ slice_skip (to_hex (le_bytes 8 cumulative)) pieces_created 16 40 48 length-cumulative
      ∙ rw (append-nil (to_hex (le_bytes 4 status))) at (
          slice_at (to_hex created) (to_hex (le_bytes 4 status)) [] 40 8 length-created
            length-status)

  -- A log of the documented layout is read field by field: the two amounts of gas and the status as
  -- numbers, and the created address as it stands.
  pub parse-system_log :
      gas_used < 2 ^ 64
      → cumulative < 2 ^ 64
      → status < 2 ^ 32
      → parse_polyjuice_system_log
          (x_prefix ++ to_hex (system_log gas_used cumulative created status))
        ≡ ok (record {
          gas_used = to_hex_number gas_used;
          cumulative_gas_used = to_hex_number cumulative;
          created_address = x_prefix ++ to_hex created;
          status_code = to_hex_number status;
        })
  parse-system_log hg hcu hs = rw pieces_text (
      parse_fields (x_prefix ++ pieces) gas_used cumulative (to_hex created) status
        (omega (arith, length-pieces))
        (slice_at [] (to_hex (le_bytes 8 gas_used)) pieces_cumulative 0 16 refl length-gas)
        (slice_at (to_hex (le_bytes 8 gas_used)) (to_hex (le_bytes 8 cumulative)) pieces_created 16
          16 length-gas length-cumulative)
        (slice_skip (to_hex (le_bytes 8 gas_used)) pieces_cumulative 16 16 56 length-gas
          ∙ slice_at (to_hex (le_bytes 8 cumulative)) (to_hex created) (to_hex (le_bytes 4 status))
              16 40 length-cumulative length-created)
        slice_status hg hcu hs)
