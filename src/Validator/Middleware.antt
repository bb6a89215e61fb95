-- ===== src/Validator/Middleware.antt =====
-- `middleware` of packages/api-server/src/methods/validator.ts. The method is an argument; its errors
-- are passed on.
use godwoken_web.Common.{
  ℕ, zero, suc, ◌≤◌, ◌≡◌, ◌↔◌, arith, List, [], ◌∷◌, ltb, if◌then◌else◌, length, Result, ok, err,
  missing_argument, invalid_params, type_error,
}
use godwoken_web.Json.{Value, undefined}
use godwoken_web.Validator.{Verdict, accepted, refused, thrown}

-- `params[i]`
unfoldable pub param : List Value → ℕ → Value
param [] i = undefined
param (v ∷ vs) zero = v
param (v ∷ vs) (suc i) = param vs i

-- The loop over the validators from index `i` on, and what is done behind it.
unfoldable pub run_validators {ℓ} :
    {A : Type ℓ} → List (Value → Verdict) → ℕ → List Value → Result A → Result A
unfolding param
run_validators [] i params done = done
run_validators (v ∷ vs) i params done =
    let rest = run_validators vs (suc i) params done in
    elim (v (param params i)) [
      | accepted ↦ rest
      | refused ↦ err invalid_params
      | thrown ↦ err type_error
    ]

unfoldable pub middleware {ℓ} :
    {A : Type ℓ} → (List Value → Result A) → ℕ → List (Value → Verdict) → List Value → Result A
unfolding run_validators
middleware method required_params_count validators params =
    if ltb (length params) required_params_count
    then err missing_argument
    else run_validators validators 0 params (method params)

-- Each validator accepts its parameter, the first of them the parameter at index `i`.
abbrev pub AllAccept : List (Value → Verdict) → ℕ → List Value → Type 0
AllAccept [] i params = Unit
AllAccept (v ∷ vs) i params = (v (param params i) ≡ accepted) × AllAccept vs (suc i) params

run_validators_iff {ℓ} :
    {A : Type ℓ} (vs : List (Value → Verdict)) (i : ℕ) (params : List Value) (done : Result A)
    (a : A)
    → (run_validators vs i params done ≡ ok a) ↔ (AllAccept vs i params × (done ≡ ok a))
unfolding run_validators
run_validators_iff [] i params done a = (λ h. (tt, h), λ h. h.1)
run_validators_iff (v ∷ vs) i params done a =
    ground (arith, run_validators_iff vs (suc i) params done a)

-- A request succeeds with a result exactly if there are as many parameters as required, every
-- validator accepts the parameter at its index, and the method returns that result.
pub middleware_iff :
    {A : Type 0} (method : List Value → Result A) (required_params_count : ℕ)
    (validators : List (Value → Verdict)) (params : List Value) (a : A)
    → (middleware method required_params_count validators params ≡ ok a) ↔ (
        (required_params_count ≤ length params)
        × AllAccept validators 0 params
        × (method params ≡ ok a))
unfolding middleware
middleware_iff method n validators params a =
    ground (arith, run_validators_iff validators 0 params (method params) a)
