-- ===== src/Polyjuice/Header.antt =====
-- The check of the header.
use godwoken_web.Common.{
  ◌≡◌, arith, true, length, length-take, take, Text, text_eq, text_eq_sound, Bool-cases, inl, inr,
  ap,
}
use godwoken_web.Polyjuice.{args_0_7, is_polyjuice_transaction_args}

-- Every text passes the header check: fourteen characters at most are compared with sixteen.
pub header_accepts_any : (args : Text) → is_polyjuice_transaction_args args ≡ true
unfolding is_polyjuice_transaction_args
header_accepts_any args = elim (Bool-cases (text_eq (take 14 args) args_0_7)) [
  | inl e ↦
      absurd
        (omega (arith, ap length (text_eq_sound (take 14 args) args_0_7 e), length-take 14 args))
  | inr e ↦ rw e
]
