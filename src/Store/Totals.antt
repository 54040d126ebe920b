-- ===== src/Store/Totals.antt =====
-- The total of a column of a table, after a row was merged into it.
use blanco_financas_api.Prelude.{
  ℕ, ◌≡◌, sym, ap, ◌∙◌, ◌==◌, ==_iff, Bool, true, false, Bool-cases, inl, inr, some, List, [], ◌∷◌,
  find_by, ℤ, pos, ◌+ℤ◌, int_laws, parts_of_eq,
}
use blanco_financas_api.Store.{merge}
use blanco_financas_api.Store.Tables.{Distinct, some_injective, ne_test, found_key}

module _ {A : Type 0} (key : A → ℕ) (column : A → ℤ) where
  abbrev pub total : List A → ℤ
  total [] = pos 0
  total (x ∷ xs) = column x +ℤ total xs

  -- The row that a test finds is replaced by one whose column is larger by `c`.
  pub total-merge :
      (p : A → Bool) (row : A) (c : ℤ) (xs : List A) {a : A}
      → Distinct key xs
      → find_by p xs ≡ some a
      → key row ≡ key a
      → column row ≡ column a +ℤ c
      → total (merge key row xs) ≡ total xs +ℤ c
  unfolding merge
  total-merge p row c [] d h e t = cc
  total-merge p row c (x ∷ xs) {a} d h e t = elim (Bool-cases (p x)) [
    | inl here ↦
        let first : x ≡ a = some_injective (rw here at h) in
        let same : (key x == key row) ≡ true =
          (==_iff (key x) (key row)).1 (ap key first ∙ sym e) in
        let grown : column row ≡ column x +ℤ c = rw first t in
        rw same (omega (int_laws, parts_of_eq grown))
    | inr later ↦
        let rest : find_by p xs ≡ some a = rw later at h in
        let other : (key x == key row) ≡ false =
          ne_test (key x) (key row) (λ q. found_key key p (key x) xs d.0 rest (sym e ∙ sym q)) in
        let ih = total-merge p row c xs d.1 rest e t in rw other (omega (int_laws, parts_of_eq ih))
  ]
