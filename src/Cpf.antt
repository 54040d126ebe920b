-- ===== src/Cpf.antt =====
-- app/domain/value_objects/cpf.py. A text is a list of code points; which of them are decimal
-- digits, and their values, is Python's Unicode table, the parameter `digit_value`.
pub mod Format
pub mod CheckDigits
use blanco_financas_api.Prelude.{
  ℕ, suc, zero, ◌+◌, ◌-◌, ◌*◌, ◌%◌, ltb, ◌==◌, if◌then◌else◌, Bool, true, false, not, ◌&&◌, Option,
  none, some, is_some, List, [], ◌∷◌, length, filter_by, Text,
}
use mathlib.Core.List.{◌++◌}
use blanco_financas_api.Errors.{Result, ok, err, invalid_cpf}

pub record Cpf : Type 0 where
  pub value : Text

-- Slices and entries of a sequence.
abbrev pub take_first : {A : Type 0} → ℕ → List A → List A
take_first zero xs = []
take_first (suc n) [] = []
take_first (suc n) (x ∷ xs) = x ∷ take_first n xs

abbrev pub drop_first : {A : Type 0} → ℕ → List A → List A
drop_first zero xs = xs
drop_first (suc n) [] = []
drop_first (suc n) (x ∷ xs) = drop_first n xs

abbrev pub entry : ℕ → List ℕ → ℕ
entry n [] = 0
entry zero (x ∷ xs) = x
entry (suc n) (x ∷ xs) = entry n xs

-- `sum(int(cpf[i]) * (weight - i) for i in ...)`
abbrev pub weighted : ℕ → List ℕ → ℕ
weighted weight [] = 0
weighted weight (d ∷ ds) = d * weight + weighted (weight - 1) ds

-- `0 if remainder < 2 else 11 - remainder`
abbrev pub check_digit : ℕ → ℕ
check_digit total = if ltb (total % 11) 2 then 0 else 11 - total % 11

-- `cpf == cpf[0] * 11`, on a text of eleven characters
abbrev pub all_are : ℕ → Text → Bool
all_are c [] = true
all_are c (x ∷ xs) = x == c && all_are c xs

module _ (digit_value : ℕ → Option ℕ) where
  abbrev pub is_digit : ℕ → Bool
  is_digit c = is_some (digit_value c)

  -- `int(c)`
  abbrev pub digit : ℕ → ℕ
  digit c = elim (digit_value c) [ none ↦ 0 | some d ↦ d ]

  abbrev pub digits : Text → List ℕ
  digits [] = []
  digits (c ∷ cs) = digit c ∷ digits cs

  unfoldable pub is_valid : Text → Bool
  is_valid cpf =
      length cpf == 11
      && (not (all_are (entry 0 cpf) cpf)
          && (entry 9 (digits cpf) == check_digit (weighted 10 (take_first 9 (digits cpf)))
              && entry 10 (digits cpf) == check_digit (weighted 11 (take_first 10 (digits cpf)))))

  -- `CPF(value)`: all but the digits is taken out first.
  unfoldable pub make_cpf : Text → Result Cpf
  unfolding is_valid
  make_cpf value =
      let cleaned = filter_by is_digit value in
      if is_valid cleaned then ok (record { value = cleaned }) else err invalid_cpf

-- `XXX.XXX.XXX-XX`
unfoldable pub formatted : Cpf → Text
formatted c =
    take_first 3 c.value
    ++ ((b'.' ∷ take_first 3 (drop_first 3 c.value))
        ++ ((b'.' ∷ take_first 3 (drop_first 6 c.value)) ++ (b'-' ∷ drop_first 9 c.value)))
