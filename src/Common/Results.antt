-- ===== src/Common/Results.antt =====
-- What a call of the program gives back: a value, or the error that it throws.
use mathlib.Core.Path.{◌≡◌, refl}
use mathlib.Core.Logic.{◌⊎◌, inl, inr}
use mathlib.Core.Option.{some}
use mathlib.Core.Bool.{Bool, true, false}

-- The errors, one for each `throw` of the modelled code, without the interpolated text.
-- `range_error` and `syntax_error` are those of Node's Buffer and of BigInt.
pub data Error : Type 0 where
  range_error syntax_error : Error
  not_hex_number not_in_range little_endian_format : Error
  address_format address_deserialize : Error
  header_not_matched args_too_short : Error
  v_not_bit : Error
  system_log_length user_log_size system_log_missing : Error
  oversized_data insufficient_balance to_id_not_found zero_address : Error
  account_missing : Error
  invalid_params type_error : Error
  missing_argument : Error
  raw_transaction_format : Error
  gasless_length gasless_selector abi_error : Error
  filter_flag filter_limit filter_missing json_syntax : Error
  tip_missing header_not_found block_hash_exclusive block_hash_missing : Error
  sudt_log_length log_flag unsupported zero_gas_price default_from_missing : Error

pub data Result {ℓ} (A : Type ℓ) : Type ℓ where
  ok : A → Result A
  err : Error → Result A

-- `if (!test) throw e`
abbrev pub guard : Bool → Error → Result (Unit {0})
guard passed e = elim passed [ true ↦ ok tt | false ↦ err e ]

-- What follows a call that may throw.
infixl 5 ◌>>=◌
abbrev pub ◌>>=◌ {ℓ κ} :
    {A : Type ℓ} {B : Type κ} (call : Result A) (next : A → Result B) → Result B
call >>= next = elim call [ ok value ↦ next value | err thrown ↦ err thrown ]

infixl 5 ◌>>◌
abbrev pub ◌>>◌ {ℓ} : {B : Type ℓ} (check : Result (Unit {0})) (next : Result B) → Result B
check >> next = elim check [ ok _ ↦ next | err thrown ↦ err thrown ]

pub Result-cases {ℓ} :
    {A : Type ℓ} (r : Result A) → ((a : A) × (r ≡ ok a)) ⊎ ((e : Error) × (r ≡ err e))
Result-cases (ok a) = inl (a, refl)
Result-cases (err e) = inr (e, refl)

-- What is returned behind a call is returned behind the value of that call.
pub bind-eq-ok {ℓ κ} :
    {A : Type ℓ} {B : Type κ} (next : A → Result B) {b : B} (call : Result A)
    → (call >>= next) ≡ ok b
    → (a : A) × (call ≡ ok a) × (next a ≡ ok b)
bind-eq-ok next (err thrown) p = cc
bind-eq-ok next (ok value) p = (value, refl, p)

-- What is returned behind a check is returned although the check may throw, so it did not.
pub then-eq-ok {ℓ} :
    {B : Type ℓ} {b : B} (next : Result B) (check : Result (Unit {0}))
    → (check >> next) ≡ ok b
    → (u : Unit {0}) × (check ≡ ok u) × (next ≡ ok b)
then-eq-ok next (err thrown) p = cc
then-eq-ok next (ok u) p = (u, refl, p)

pub ok_injective {ℓ} : {A : Type ℓ} {a b : A} → ok a ≡ ok b → a ≡ b
ok_injective h = cc

pub some_injective {ℓ} : {A : Type ℓ} {a b : A} → some a ≡ some b → a ≡ b
some_injective h = cc
