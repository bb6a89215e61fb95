-- ===== src/Validator/Accepts.antt =====
-- What the validators of gas and of objects accept.
use godwoken_web.Common.{
  ℕ, ◌≤◌, ◌≡◌, ◌↔◌, ◌⊎◌, refl, arith, true, [], ◌∷◌, List, length, codes, ok, All,
}
use godwoken_web.Hex.{big_int}
use godwoken_web.Buffer.{Bytes}
use godwoken_web.Json.{
  Value, Fields, undefined, null, bool, num, str, arr, obj, items, is_nullish, lookup,
}
use godwoken_web.Validator.{
  Verdict, accepted, ◌>>>◌, >>>_iff, optional, text_of, verify_hex_number, verify_hex_string,
  verify_address, verify_filter_topic_string, verify_gas_limit, verify_gas_price, verify_each,
}
use godwoken_web.Validator.Objects.{
  field, verify_block_parameter, verify_filter_topic, verify_filter_address, verify_filter_topics,
  verify_new_filter_obj,
}
use godwoken_web.Validator.Texts.{IsHexText, texts_iff}

-- An accepted gas limit is a number of at most fifty million, and an accepted gas price is a number of
-- at least the minimum: of the hex numbers that `BigInt` reads as a number, those are accepted and
-- no others.
gas_bounds :
    (v : Value) (minimum n : ℕ)
    → verify_hex_number v ≡ accepted
    → big_int (text_of v) ≡ ok n
    → ((verify_gas_limit v ≡ accepted) ↔ (n ≤ 50000000))
      × ((verify_gas_price v minimum ≡ accepted) ↔ (minimum ≤ n))
unfolding verify_gas_limit verify_gas_price
gas_bounds v minimum n h e = (rw (h, e) (ground arith), rw (h, e) (ground arith))

-- Left out, or with the property.
abbrev pub Optionally : (Value → Type 0) → Value → Type 0
Optionally P v = (is_nullish v ≡ true) ⊎ P v

optional_iff :
    (verify : Value → Verdict) (P : Value → Type 0) (v : Value)
    → (verify v ≡ accepted) ↔ P v
    → (optional verify v ≡ accepted) ↔ Optionally P v
optional_iff verify P v h = ground arith

both_iff :
    {P Q : Type 0} (v w : Verdict)
    → (v ≡ accepted) ↔ P
    → (w ≡ accepted) ↔ Q
    → ((v >>> w) ≡ accepted) ↔ (P × Q)
both_iff v w h k = ground (arith, >>>_iff v w)

verify_each_iff :
    (verify : Value → Verdict) (P : Value → Type 0) (vs : List Value)
    → ((v : Value) → (verify v ≡ accepted) ↔ P v)
    → (verify_each verify vs ≡ accepted) ↔ All P vs
unfolding verify_each
verify_each_iff verify P [] h = (λ e. tt, λ e. refl)
verify_each_iff verify P (v ∷ vs) h =
    both_iff (verify v) (verify_each verify vs) (h v) (verify_each_iff verify P vs h)

-- A text that spells this many bytes.
abbrev pub IsSpelling : ℕ → Value → Type 0
IsSpelling n v = (buf : Bytes) × IsHexText buf v × (length buf ≡ n)

abbrev pub IsSpelt : Value → Type 0
IsSpelt v = (buf : Bytes) × IsHexText buf v

-- One topic, or an array of topics, in which some may be left out.
abbrev pub IsTopic : Value → Type 0
IsTopic (arr vs) = All (Optionally (IsSpelling 32)) (items vs)
IsTopic v = Optionally (IsSpelling 32) v

abbrev pub IsTopics : Value → Type 0
IsTopics (arr vs) = All IsTopic (items vs)
IsTopics v = ⊥

abbrev pub IsFilterAddress : Value → Type 0
IsFilterAddress (arr vs) = All (IsSpelling 20) (items vs)
IsFilterAddress v = IsSpelling 20 v

hex_string_iff : (v : Value) → (verify_hex_string v ≡ accepted) ↔ IsSpelt v
hex_string_iff v = (texts_iff v).0

address_iff : (v : Value) → (verify_address v ≡ accepted) ↔ IsSpelling 20 v
address_iff v = (texts_iff v).1

topic_string_iff : (v : Value) → (verify_filter_topic_string v ≡ accepted) ↔ IsSpelling 32 v
topic_string_iff v = (texts_iff v).4

topic_opt_iff :
    (v : Value) → (optional verify_filter_topic_string v ≡ accepted) ↔ Optionally (IsSpelling 32) v
topic_opt_iff v = optional_iff verify_filter_topic_string (IsSpelling 32) v (topic_string_iff v)

verify_filter_topic_iff : (v : Value) → (verify_filter_topic v ≡ accepted) ↔ IsTopic v
unfolding verify_filter_topic
verify_filter_topic_iff (arr vs) =
    verify_each_iff (optional verify_filter_topic_string) (Optionally (IsSpelling 32)) (items vs)
      topic_opt_iff
verify_filter_topic_iff undefined = topic_opt_iff undefined
verify_filter_topic_iff null = topic_opt_iff null
verify_filter_topic_iff (bool b) = topic_opt_iff (bool b)
verify_filter_topic_iff (num n) = topic_opt_iff (num n)
verify_filter_topic_iff (str s) = topic_opt_iff (str s)
verify_filter_topic_iff (obj fs) = topic_opt_iff (obj fs)

verify_filter_topics_iff : (v : Value) → (verify_filter_topics v ≡ accepted) ↔ IsTopics v
unfolding verify_filter_topics
verify_filter_topics_iff (arr vs) =
    verify_each_iff verify_filter_topic IsTopic (items vs) verify_filter_topic_iff
verify_filter_topics_iff undefined = ground arith
verify_filter_topics_iff null = ground arith
verify_filter_topics_iff (bool b) = ground arith
verify_filter_topics_iff (num n) = ground arith
verify_filter_topics_iff (str s) = ground arith
verify_filter_topics_iff (obj fs) = ground arith

verify_filter_address_iff : (v : Value) → (verify_filter_address v ≡ accepted) ↔ IsFilterAddress v
unfolding verify_filter_address
verify_filter_address_iff (arr vs) =
    verify_each_iff verify_address (IsSpelling 20) (items vs) address_iff
verify_filter_address_iff undefined = address_iff undefined
verify_filter_address_iff null = address_iff null
verify_filter_address_iff (bool b) = address_iff (bool b)
verify_filter_address_iff (num n) = address_iff (num n)
verify_filter_address_iff (str s) = address_iff (str s)
verify_filter_address_iff (obj fs) = address_iff (obj fs)

-- The check accepts the value.
abbrev pub Passes : (Value → Verdict) → Value → Type 0
Passes verify v = verify v ≡ accepted

same : {P : Type 0} → P ↔ P
same = (λ p. p, λ p. p)

-- A filter object is accepted exactly if its blocks, where given, are block parameters, its address,
-- where given, is a text of 20 bytes or an array of these, and its topics, where given, are an array
-- whose entries are each left out, a text of 32 bytes, or an array of such texts and of entries left out.
pub new_filter_iff :
    (fs : Fields)
    → (verify_new_filter_obj (obj fs) ≡ accepted) ↔ (
        Optionally (Passes verify_block_parameter) (lookup (codes "fromBlock") fs)
        × Optionally (Passes verify_block_parameter) (lookup (codes "toBlock") fs)
        × Optionally IsFilterAddress (lookup (codes "address") fs)
        × Optionally IsTopics (lookup (codes "topics") fs))
unfolding verify_new_filter_obj field
new_filter_iff fs =
    let from = lookup (codes "fromBlock") fs in
    let to = lookup (codes "toBlock") fs in
    let address = lookup (codes "address") fs in
    let topics = lookup (codes "topics") fs in
    let all =
      both_iff (optional verify_block_parameter from)
        (optional verify_block_parameter to
          >>> optional verify_filter_address address
          >>> optional verify_filter_topics topics)
        (optional_iff verify_block_parameter (Passes verify_block_parameter) from same)
        (both_iff (optional verify_block_parameter to)
          (optional verify_filter_address address >>> optional verify_filter_topics topics)
          (optional_iff verify_block_parameter (Passes verify_block_parameter) to same)
          (both_iff (optional verify_filter_address address) (optional verify_filter_topics topics)
            (optional_iff verify_filter_address IsFilterAddress address
              (verify_filter_address_iff address))
            (optional_iff verify_filter_topics IsTopics topics
              (verify_filter_topics_iff topics)))) in
    (λ e. let (a, (b, (c, d))) = all.0 e in (a, b, c, d), λ p. all.1 (p.0, (p.1, (p.2, p.3))))
