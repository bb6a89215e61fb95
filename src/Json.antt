-- ===== src/Json.antt =====
-- Values of a request: what `JSON.parse` makes, and `undefined` for what is not there.
-- Numbers are natural numbers.
use godwoken_web.Common.{ℕ, Bool, true, false, Text, text_eq, if◌then◌else◌, List, [], ◌∷◌}

mutual
  pub data Value : Type 0 where
    undefined : Value
    null : Value
    bool : Bool → Value
    num : ℕ → Value
    str : Text → Value
    arr : Items → Value
    obj : Fields → Value

  pub data Items : Type 0 where
    nil : Items
    cons : Value → Items → Items

  pub data Fields : Type 0 where
    end : Fields
    prop : Text → Value → Fields → Fields

abbrev pub items : Items → List Value
items nil = []
items (cons v vs) = v ∷ items vs

unfoldable pub lookup : Text → Fields → Value
unfolding text_eq
lookup key end = undefined
lookup key (prop k v fields) = if text_eq k key then v else lookup key fields

-- `typeof v === "object"`, which is true of `null` and of arrays.
abbrev pub is_object : Value → Bool
is_object undefined = false
is_object null = true
is_object (bool b) = false
is_object (num n) = false
is_object (str s) = false
is_object (arr vs) = true
is_object (obj fs) = true

-- `v == null`
abbrev pub is_nullish : Value → Bool
is_nullish undefined = true
is_nullish null = true
is_nullish (bool b) = false
is_nullish (num n) = false
is_nullish (str s) = false
is_nullish (arr vs) = false
is_nullish (obj fs) = false

abbrev pub is_boolean : Value → Bool
is_boolean (bool b) = true
is_boolean undefined = false
is_boolean null = false
is_boolean (num n) = false
is_boolean (str s) = false
is_boolean (arr vs) = false
is_boolean (obj fs) = false
