-- ===== src/PolyjuiceLog/User.antt =====
-- The user log: what is read from a well-formed log, and that surplus bytes are refused.
use godwoken_web.Common.{
  ℕ, ◌+◌, ◌-◌, ◌*◌, ◌^◌, ◌<◌, ◌≡◌, refl, ap, ap₂, ◌∙◌, arith, List, [], ◌∷◌, ◌++◌, map,
  append_assoc, length, length-append, drop, take, slice, slice_at, drop-append, drop-drop,
  take-append, All, Text, ok, ◌>>◌, err, guard, user_log_size, ◌==◌, if◌then◌else◌,
}
use godwoken_web.Hex.{x_prefix}
use godwoken_web.Buffer.{Bytes, le_bytes, to_hex}
use godwoken_web.Buffer.Codec.{length-to_hex, to_hex-append}
use godwoken_web.Buffer.Words.{length-le_bytes}
use godwoken_web.Uint.RoundTrip.{uint32_of_bytes}
use godwoken_web.PolyjuiceLog.{topics_loop, parse_polyjuice_user_log}

abbrev pub joined : List Bytes → Bytes
joined [] = []
joined (t ∷ ts) = t ++ joined ts

-- The layout of a user log: the address, the data behind its size, and the topics behind their count.
abbrev pub user_log : Bytes → Bytes → List Bytes → Bytes
user_log address buf topics =
    address ++ (le_bytes 4 (length buf) ++ (buf ++ (le_bytes 4 (length topics) ++ joined topics)))

abbrev pub IsTopic : Bytes → Type 0
IsTopic t = length t ≡ 32

-- The loop reads one topic after the other from where it begins.
topics_loop_lem :
    (topics : List Bytes) (offset : ℕ) (text after : Text)
    → All IsTopic topics
    → drop offset text ≡ to_hex (joined topics) ++ after
    → topics_loop (length topics) offset text ≡ map (λ t. x_prefix ++ to_hex t) topics
unfolding topics_loop
topics_loop_lem [] offset text after h e = refl
topics_loop_lem (t ∷ topics) offset text after (ht, h) e =
    let split : drop offset text ≡ to_hex t ++ (to_hex (joined topics) ++ after) =
      e
      ∙ (rw (to_hex-append t (joined topics))
          (append_assoc (to_hex t) (to_hex (joined topics)) after)) in
    let wide : length (to_hex t) ≡ 64 = omega (arith, length-to_hex t) in
    let here : slice offset (offset + 64) text ≡ to_hex t =
      ap (λ (s : Text). take (offset + 64 - offset) s) split
      ∙ take-append (to_hex t) (to_hex (joined topics) ++ after) (offset + 64 - offset)
          (omega arith) in
    let rest : drop (offset + 64) text ≡ to_hex (joined topics) ++ after =
      drop-drop offset 64 text
      ∙ ap (drop 64) split
      ∙ drop-append (to_hex t) (to_hex (joined topics) ++ after) 64 wide in
    ap₂ (λ (a : Text) (b : List Text). a ∷ b) (ap (λ (s : Text). x_prefix ++ s) here)
      (topics_loop_lem topics (offset + 64) text after h rest)

length-joined :
    (topics : List Bytes) → All IsTopic topics → length (joined topics) ≡ 32 * length topics
length-joined [] h = refl
length-joined (t ∷ topics) (ht, h) =
    omega (arith, length-append t (joined topics), length-joined topics h)

module _ (address buf : Bytes) (topics : List Bytes) (after : Bytes) (ha : length address ≡ 20)
    (ht : All IsTopic topics) (hs : length buf < 2 ^ 32) (hn : length topics < 2 ^ 32) where
  abbrev tail_topics : Text
  tail_topics = to_hex (joined topics) ++ to_hex after

  abbrev tail_count : Text
  tail_count = to_hex (le_bytes 4 (length topics)) ++ tail_topics

  abbrev tail_data : Text
  tail_data = to_hex buf ++ tail_count

  abbrev tail_size : Text
  tail_size = to_hex (le_bytes 4 (length buf)) ++ tail_data

  abbrev text : Text
  text = to_hex address ++ tail_size

  text_lem : to_hex (user_log address buf topics ++ after) ≡ text
  text_lem = simp (to_hex-append, append_assoc)

  length-address : length (to_hex address) ≡ 40
  length-address = omega (arith, length-to_hex address)

  length-word : (n : ℕ) → length (to_hex (le_bytes 4 n)) ≡ 8
  length-word n = omega (arith, length-to_hex (le_bytes 4 n), length-le_bytes 4 n)

  length-front :
      length (to_hex address ++ (to_hex (le_bytes 4 (length buf)) ++ to_hex buf))
      ≡ 48 + length buf * 2
  length-front = omega (
    arith,
    length-append (to_hex address) (to_hex (le_bytes 4 (length buf)) ++ to_hex buf),
    length-append (to_hex (le_bytes 4 (length buf))) (to_hex buf),
    length-address,
    length-word (length buf),
    length-to_hex buf,
  )

  slice_address : slice 0 40 text ≡ to_hex address
  slice_address = slice_at [] (to_hex address) tail_size 0 40 refl length-address

  slice_size : slice 40 48 text ≡ to_hex (le_bytes 4 (length buf))
  slice_size =
      slice_at (to_hex address) (to_hex (le_bytes 4 (length buf))) tail_data 40 8 length-address
        (length-word (length buf))

  slice_data : slice 48 (48 + length buf * 2) text ≡ to_hex buf
  slice_data =
      let front = to_hex address ++ to_hex (le_bytes 4 (length buf)) in
      let q : text ≡ front ++ (to_hex buf ++ tail_count) = simp append_assoc in
      rw q (
        slice_at front (to_hex buf) tail_count 48 (length buf * 2)
          (omega (
            arith,
            length-append (to_hex address) (to_hex (le_bytes 4 (length buf))),
            length-address,
            length-word (length buf),
          ))
          (omega (arith, length-to_hex buf)))

  text_front :
      text ≡ (to_hex address ++ (to_hex (le_bytes 4 (length buf)) ++ to_hex buf)) ++ tail_count
  text_front = simp append_assoc

  slice_count :
      slice (48 + length buf * 2) (48 + length buf * 2 + 8) text
      ≡ to_hex (le_bytes 4 (length topics))
  slice_count = rw text_front (
      slice_at (to_hex address ++ (to_hex (le_bytes 4 (length buf)) ++ to_hex buf))
        (to_hex (le_bytes 4 (length topics))) tail_topics (48 + length buf * 2) 8 length-front
        (length-word (length topics)))

  drop_topics : drop (48 + length buf * 2 + 8) text ≡ tail_topics
  drop_topics = rw text_front (
      drop-drop (48 + length buf * 2) 8
        ((to_hex address ++ (to_hex (le_bytes 4 (length buf)) ++ to_hex buf)) ++ tail_count)
      ∙ ap (drop 8) (
          drop-append (to_hex address ++ (to_hex (le_bytes 4 (length buf)) ++ to_hex buf))
            tail_count (48 + length buf * 2) length-front)
      ∙ drop-append (to_hex (le_bytes 4 (length topics))) tail_topics 8
          (length-word (length topics)))

  length-text : length text ≡ 48 + length buf * 2 + 8 + 64 * length topics + 2 * length after
  length-text = rw text_front (
      omega (
        arith,
        length-front,
        length-append (to_hex address ++ (to_hex (le_bytes 4 (length buf)) ++ to_hex buf))
            tail_count,
        length-append (to_hex (le_bytes 4 (length topics))) tail_topics,
        length-word (length topics),
        length-append (to_hex (joined topics)) (to_hex after),
        length-to_hex (joined topics),
        length-to_hex after,
        length-joined topics ht,
      ))

  -- With the fields at their places, what is left over decides.
  parse_fields : parse_polyjuice_user_log (x_prefix ++ text) ≡ (
      guard (48 + length buf * 2 + 8 + 64 * length topics == length text) user_log_size
      >> ok (record {
        address = x_prefix ++ to_hex address;
        log_data = x_prefix ++ to_hex buf;
        topics = map (λ t. x_prefix ++ to_hex t) topics;
      }))
  unfolding parse_polyjuice_user_log
  parse_fields =
      rw (slice_size, uint32_of_bytes (length buf) (omega arith))
        (rw (slice_count, uint32_of_bytes (length topics) (omega arith))
          (rw (
            slice_address,
            slice_data,
            topics_loop_lem topics (48 + length buf * 2 + 8) text (to_hex after) ht drop_topics,
          )))

  -- A log of an address of 20 bytes, data and topics of 32 bytes each, behind their sizes, is read
  -- back; with any bytes behind it, the log is refused.
  pub parse-user_log :
      parse_polyjuice_user_log (x_prefix ++ to_hex (user_log address buf topics ++ after)) ≡ (
        if length after == 0
        then ok (record {
          address = x_prefix ++ to_hex address;
          log_data = x_prefix ++ to_hex buf;
          topics = map (λ t. x_prefix ++ to_hex t) topics;
        })
        else err user_log_size)
  parse-user_log = rw text_lem (parse_fields ∙ ground (arith, length-text))
