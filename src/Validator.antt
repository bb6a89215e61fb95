-- ===== src/Validator.antt =====
-- The validators of request parameters in packages/api-server/src/methods/validator.ts, up to the
-- texts of their messages, and the middleware that applies them.
pub mod Objects
pub mod Middleware
pub mod Texts
pub mod Accepts
use godwoken_web.Common.{
  ◌≡◌, ◌≢◌, ◌⊎◌, ◌↔◌, refl, inl, inr, ℕ, ◌+◌, ◌%◌, Bool, true, false, not, ◌&&◌, ◌||◌, Option, none,
  some, List, [], ◌∷◌, ltb, ◌==◌, if◌then◌else◌, length, drop, Text, codes, text_eq, starts_with,
  Result, ok, err,
}
use godwoken_web.Hex.{x_prefix, big_int, validate_hex_number, validate_hex_string}
use godwoken_web.Json.{
  Value, undefined, null, bool, num, str, arr, obj, Items, items, Fields, lookup, is_object,
  is_nullish, is_boolean,
}

-- A validator returns nothing, returns an InvalidParamsError, or throws a TypeError, which is what
-- reading a property of null does.
pub data Verdict : Type 0 where
  accepted refused thrown : Verdict

-- `if (err) return err;`, then the rest.
infixr 20 ◌>>>◌
abbrev pub ◌>>>◌ : Verdict → Verdict → Verdict
accepted >>> rest = rest
refused >>> rest = refused
thrown >>> rest = thrown

abbrev pub demand : Bool → Verdict
demand true = accepted
demand false = refused

-- A check of something that may be left out.
abbrev pub optional : (Value → Verdict) → Value → Verdict
optional verify v = if is_nullish v then accepted else verify v

-- The text of a value that has been found to be one.
abbrev pub text_of : Value → Text
text_of (str s) = s
text_of undefined = []
text_of null = []
text_of (bool b) = []
text_of (num n) = []
text_of (arr vs) = []
text_of (obj fs) = []

abbrev pub is_text : Value → Bool
is_text (str s) = true
is_text undefined = false
is_text null = false
is_text (bool b) = false
is_text (num n) = false
is_text (arr vs) = false
is_text (obj fs) = false

unfoldable pub verify_boolean : Value → Verdict
verify_boolean v = demand (is_boolean v)

unfoldable pub verify_hex_number : Value → Verdict
verify_hex_number v =
    demand (is_text v)
    >>> demand (starts_with x_prefix (text_of v))
    >>> demand (validate_hex_number (text_of v))

unfoldable pub verify_hex_string : Value → Verdict
verify_hex_string v =
    demand (is_text v)
    >>> demand (starts_with x_prefix (text_of v))
    >>> demand (length (text_of v) % 2 == 0)
    >>> demand (validate_hex_string (text_of v))

unfoldable pub verify_address : Value → Verdict
verify_address address =
    verify_hex_string address >>> demand (length (drop 2 (text_of address)) == 40)

unfoldable pub verify_block_hash : Value → Verdict
verify_block_hash block_hash =
    verify_hex_string block_hash >>> demand (length (drop 2 (text_of block_hash)) == 64)

unfoldable pub verify_tx_hash : Value → Verdict
verify_tx_hash tx_hash =
    verify_hex_string tx_hash >>> demand (length (drop 2 (text_of tx_hash)) == 64)

unfoldable pub verify_filter_topic_string : Value → Verdict
verify_filter_topic_string topic =
    verify_hex_string topic >>> demand (length (drop 2 (text_of topic)) == 64)

abbrev pub rpc_max_gas_limit : ℕ
rpc_max_gas_limit = 50000000

abbrev pub at_most : ℕ → Result ℕ → Verdict
at_most limit (ok n) = demand (not (ltb limit n))
at_most limit (err e) = thrown

abbrev pub at_least : ℕ → Result ℕ → Verdict
at_least limit (ok n) = demand (not (ltb n limit))
at_least limit (err e) = thrown

unfoldable pub verify_gas_limit : Value → Verdict
verify_gas_limit gas_limit =
    verify_hex_number gas_limit >>> at_most rpc_max_gas_limit (big_int (text_of gas_limit))

unfoldable pub verify_gas_price : Value → ℕ → Verdict
verify_gas_price gas_price min_gas_price =
    verify_hex_number gas_price >>> at_least min_gas_price (big_int (text_of gas_price))

-- `for (const v of values)`, which returns at the first error.
unfoldable pub verify_each : (Value → Verdict) → List Value → Verdict
verify_each verify [] = accepted
verify_each verify (v ∷ vs) = verify v >>> verify_each verify vs

pub Verdict-cases : (v : Verdict) → (v ≡ accepted) ⊎ (v ≢ accepted)
Verdict-cases accepted = inl refl
Verdict-cases refused = inr (λ e. cc)
Verdict-cases thrown = inr (λ e. cc)

-- A chain of checks accepts exactly if each check does.
pub >>>_iff : (v w : Verdict) → ((v >>> w) ≡ accepted) ↔ ((v ≡ accepted) × (w ≡ accepted))
>>>_iff accepted w = (λ e. (refl, e), λ p. p.1)
>>>_iff refused w = (λ e. cc, λ p. p.0)
>>>_iff thrown w = (λ e. cc, λ p. p.0)
