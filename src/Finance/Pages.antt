-- ===== src/Finance/Pages.antt =====
-- The pages of the cash flow.
use blanco_financas_api.Prelude.{
  ℕ, zero, suc, ◌+◌, ◌*◌, ◌-◌, ◌≡◌, ◌≤◌, refl, ap, ◌∙◌, arith, Option, List, [], ◌∷◌, ◌++◌, take,
  drop, length,
}
use blanco_financas_api.Transactions.{TransactionType}
use blanco_financas_api.Store.{Store}
use blanco_financas_api.Finance.{Flow, CashFlowEntry, cash_flow_entries, get_finance_cash_flow}

take_nil : {A : Type 0} (n : ℕ) → Path (List A) (take n []) []
take_nil zero = refl
take_nil (suc n) = refl

take-drop : {A : Type 0} (n m : ℕ) (xs : List A) → take n xs ++ take m (drop n xs) ≡ take (n + m) xs
take-drop zero m xs = let e : 0 + m ≡ m = omega arith in rw e refl
take-drop (suc n) m [] = let e : suc n + m ≡ suc (n + m) = omega arith in rw e (take_nil m)
take-drop (suc n) m (x ∷ xs) =
    let e : suc n + m ≡ suc (n + m) = omega arith in rw e (ap (λ r. x ∷ r) (take-drop n m xs))

take_all : {A : Type 0} (n : ℕ) (xs : List A) → length xs ≤ n → take n xs ≡ xs
take_all zero [] h = refl
take_all zero (x ∷ xs) h = absurd omega arith
take_all (suc n) [] h = refl
take_all (suc n) (x ∷ xs) h = ap (λ r. x ∷ r) (take_all n xs (omega arith))

module _ (category : Option TransactionType) (flow : Option Flow) (start end page_size : ℕ)
    (db : Store) where
  -- The entries of the first pages, one after another.
  abbrev pub first_pages : ℕ → List CashFlowEntry
  first_pages zero = []
  first_pages (suc n) =
      first_pages n ++ (get_finance_cash_flow category flow start end (suc n) page_size db).entries

  first_pages_lem :
      (n : ℕ) → first_pages n ≡ take (n * page_size) (cash_flow_entries category flow start end db)
  unfolding get_finance_cash_flow
  first_pages_lem zero = let e : 0 * page_size ≡ 0 = omega arith in rw e refl
  first_pages_lem (suc n) =
      let entries = cash_flow_entries category flow start end db in
      let more : n * page_size + page_size ≡ suc n * page_size = omega arith in
      let back : suc n - 1 ≡ n = omega arith in
      rw back (
        ap (λ xs. xs ++ take page_size (drop (n * page_size) entries)) (first_pages_lem n)
        ∙ take-drop (n * page_size) page_size entries
        ∙ ap (λ k. take k entries) more)

  -- As many pages as the total of a page asks for list every entry of the cash flow once, in the
  -- order of the list.
  pub get_finance_cash_flow_pages :
      (n : ℕ)
      → (get_finance_cash_flow category flow start end 1 page_size db).total ≤ n * page_size
      → first_pages n ≡ cash_flow_entries category flow start end db
  unfolding get_finance_cash_flow
  get_finance_cash_flow_pages n h =
      first_pages_lem n ∙ take_all (n * page_size) (cash_flow_entries category flow start end db) h
