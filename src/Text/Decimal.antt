-- ===== src/Text/Decimal.antt =====
-- `str(n)` of a non-negative int, as `_generate_ref` of topic_runtime.py uses it.
use phoenix_channels_python.Base.{
  ℕ, zero, suc, ◌+◌, ◌-◌, ◌*◌, ◌/◌, ◌%◌, ◌<◌, ◌≡◌, ◌≢◌, refl, sym, ap, ◌∙◌, true, false, List, [],
  ◌∷◌, arith, ◌==◌, inl, inr, Bool-cases,
}

-- Each round writes the last digit in front of what is written; `suc n` rounds are enough.
decimal_from : ℕ → ℕ → List ℕ → List ℕ
decimal_from zero n out = out
decimal_from (suc fuel) n out =
    let digits = (b'0' + n % 10) ∷ out in
    elim (n / 10 == 0) [ true ↦ digits | false ↦ decimal_from fuel (n / 10) digits ]

unfoldable pub decimal : ℕ → List ℕ
unfolding decimal_from
decimal n = decimal_from (suc n) n []

value_from : ℕ → List ℕ → ℕ
value_from v [] = v
value_from v (c ∷ s) = value_from (v * 10 + (c - b'0')) s

value_from-decimal_from :
    (fuel n : ℕ) (out : List ℕ)
    → n < fuel
    → value_from 0 (decimal_from fuel n out) ≡ value_from n out
unfolding decimal_from value_from
value_from-decimal_from zero n out h = absurd (omega arith)
value_from-decimal_from (suc fuel) n out h = elim (Bool-cases (n / 10 == 0)) [
  | inl e ↦
      let d : 0 * 10 + (b'0' + n % 10 - b'0') ≡ n = ground arith in
      rw (e, value_from) (ap (λ v. value_from v out) d)
  | inr e ↦
      let d : n / 10 * 10 + (b'0' + n % 10 - b'0') ≡ n = omega arith in
      let ih = value_from-decimal_from fuel (n / 10) ((b'0' + n % 10) ∷ out) (ground arith) in
      rw (e, value_from) (ih ∙ ap (λ v. value_from v out) d)
]

-- Reading the digits back gives the number, so different numbers have different texts.
pub decimal-injective : (m n : ℕ) → decimal m ≡ decimal n → m ≡ n
unfolding decimal value_from
decimal-injective m n h =
    sym (value_from-decimal_from (suc m) m [] (omega arith))
    ∙ ap (value_from 0) h
    ∙ value_from-decimal_from (suc n) n [] (omega arith)

decimal_from-cons : (fuel n : ℕ) (c : ℕ) (out : List ℕ) → decimal_from fuel n (c ∷ out) ≢ []
unfolding decimal_from
decimal_from-cons zero n c out h = cc
decimal_from-cons (suc fuel) n c out h = elim (Bool-cases (n / 10 == 0)) [
  | inl e ↦ absurd (ground arith)
  | inr e ↦ decimal_from-cons fuel (n / 10) (b'0' + n % 10) (c ∷ out) (ground arith)
]

pub decimal-ne-nil : (n : ℕ) → decimal n ≢ []
unfolding decimal decimal_from
decimal-ne-nil n h = elim (Bool-cases (n / 10 == 0)) [
  | inl e ↦ absurd (ground arith)
  | inr e ↦ decimal_from-cons n (n / 10) (b'0' + n % 10) [] (ground arith)
]

decimal_table : decimal 1207 ≡ 49 ∷ 50 ∷ 48 ∷ 55 ∷ []
unfolding decimal
decimal_table = refl
