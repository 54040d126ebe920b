-- ===== src/Finance/Agreement.antt =====
-- The summary of a period and its cash flow tell the same.
use mathlib.Core.Path.{ap₂}
use blanco_financas_api.Prelude.{
  ℕ, ◌≡◌, refl, sym, ap, ◌∙◌, arith, ltb, if◌then◌else◌, Bool, true, false, ◌&&◌, Bool-cases,
  ==_iff, not, ◌==◌, inl, inr, Option, List, [], ◌∷◌, map, filter_by, any_by, sort_by, insert_by, ℤ,
  pos, ◌+ℤ◌, ◌-ℤ◌, int_laws, parts_of_eq, eq_of_parts,
}
use blanco_financas_api.Transactions.{
  Transaction, TransactionType, deposit, withdrawal, yield_credit, fee, fundo_garantidor,
  subscription_installment_payment, subscription_activation_payment, is_confirmed_status,
}
use blanco_financas_api.Store.{Store, same_type, type_code}
use blanco_financas_api.Finance.{
  Flow, inflow, outflow, in_kinds, inflow_kinds, outflow_kinds, applicable_types, counts, sum_of,
  flow_total, get_finance_summary, CashFlowEntry, cash_flow_entry, cash_flow_entries, within,
  end_of_day,
}

-- An entry's amount where it has the flow, and with its sign.
abbrev pub amount_in : CashFlowEntry → ℤ
amount_in e = elim e.flow [ inflow ↦ e.amount_cents | outflow ↦ pos 0 ]

abbrev pub amount_out : CashFlowEntry → ℤ
amount_out e = elim e.flow [ inflow ↦ pos 0 | outflow ↦ e.amount_cents ]

module _ {A : Type 0} (column : A → ℤ) where
  sum_insert :
      (before : A → A → Bool) (x : A) (xs : List A)
      → sum_of column (insert_by before x xs) ≡ column x +ℤ sum_of column xs
  sum_insert before x [] = refl
  sum_insert before x (y ∷ ys) = elim (Bool-cases (before y x)) [
    | inl e ↦
        let rest = sum_insert before x ys in
        rw e (eq_of_parts _ _ (omega (int_laws, parts_of_eq rest)))
    | inr e ↦ rw e refl
  ]

  sum_sort :
      (before : A → A → Bool) (xs : List A) → sum_of column (sort_by before xs) ≡ sum_of column xs
  sum_sort before [] = refl
  sum_sort before (x ∷ xs) =
      sum_insert before x (sort_by before xs) ∙ ap (λ s. column x +ℤ s) (sum_sort before xs)

-- A type is among those that pass a filter by a list where it is among both.
in_kinds-kept :
    (k kind : TransactionType) (kinds : List TransactionType) (found wanted : Bool)
    → same_type kind k ≡ true
    → in_kinds kinds kind ≡ (found && wanted)
    → in_kinds (if wanted then k ∷ kinds else kinds) kind ≡ wanted
in_kinds-kept k kind kinds found true e h = rw e refl
in_kinds-kept k kind kinds true false e h = h
in_kinds-kept k kind kinds false false e h = h

in_kinds-left :
    (k kind : TransactionType) (kinds : List TransactionType) (wanted : Bool)
    → same_type kind k ≡ false
    → in_kinds (if wanted then k ∷ kinds else kinds) kind ≡ in_kinds kinds kind
in_kinds-left k kind kinds true e = rw e refl
in_kinds-left k kind kinds false e = refl

in_kinds-filter :
    (among kinds : List TransactionType) (kind : TransactionType)
    → in_kinds (filter_by (in_kinds among) kinds) kind
      ≡ (in_kinds kinds kind && in_kinds among kind)
in_kinds-filter among [] kind = refl
in_kinds-filter among (k ∷ kinds) kind =
    let rest = in_kinds-filter among kinds kind in
    let kept = filter_by (in_kinds among) kinds in
    elim (Bool-cases (same_type kind k)) [
      | inl e ↦
          let same : in_kinds among kind ≡ in_kinds among k =
            ap (λ c. any_by (λ x. c == type_code x) among) ((==_iff _ _).0 e) in
          ap (λ b. in_kinds (if b then k ∷ kept else kept) kind) (sym same)
          ∙ in_kinds-kept k kind kept (in_kinds kinds kind) (in_kinds among kind) e rest
          ∙ (rw e refl)
      | inr e ↦ in_kinds-left k kind kept (in_kinds among k) e ∙ rest ∙ rw e refl
    ]

outflow_lem :
    (kind : TransactionType) → in_kinds outflow_kinds kind ≡ not (in_kinds inflow_kinds kind)
outflow_lem deposit = refl
outflow_lem withdrawal = refl
outflow_lem yield_credit = refl
outflow_lem fee = refl
outflow_lem fundo_garantidor = refl
outflow_lem subscription_installment_payment = refl
outflow_lem subscription_activation_payment = refl

-- A sum over what two tests let pass is the sum of a column that is 0 where the second fails.
sum_row :
    (b c : Bool) (amount value x y : ℤ)
    → value ≡ (if c then amount else pos 0)
    → x ≡ y
    → (if b && c then amount +ℤ x else x) ≡ (if b then value +ℤ y else y)
sum_row true true amount value x y v e = rw (v, e) refl
sum_row true false amount value x y v e = rw (v, e) (eq_of_parts _ _ (omega int_laws))
sum_row false c amount value x y v e = e

sum_of-if :
    {A : Type 0} (column : A → ℤ) (b : Bool) (a : A) (xs : List A)
    → sum_of column (if b then a ∷ xs else xs)
      ≡ (if b then column a +ℤ sum_of column xs else sum_of column xs)
sum_of-if column true a xs = refl
sum_of-if column false a xs = refl

sum_filter :
    (p q r : Transaction → Bool) (column : Transaction → ℤ)
    → ((t : Transaction) → p t ≡ (q t && r t))
    → ((t : Transaction) → column t ≡ (if r t then t.amount_cents else pos 0))
    → (rows : List Transaction)
    → sum_of (λ (t : Transaction). t.amount_cents) (filter_by p rows)
      ≡ sum_of column (filter_by q rows)
sum_filter p q r column h k [] = refl
sum_filter p q r column h k (t ∷ rows) =
    sum_of-if _ (p t) t (filter_by p rows)
    ∙ rw (h t)
        (sum_row (q t) (r t) t.amount_cents (column t) _ _ (k t) (sum_filter p q r column h k rows))
    ∙ sym (sum_of-if column (q t) t (filter_by q rows))

sum_map :
    {A B : Type 0} (f : A → B) (column : B → ℤ) (xs : List A)
    → sum_of column (map f xs) ≡ sum_of (λ x. column (f x)) xs
sum_map f column [] = refl
sum_map f column (x ∷ xs) = ap (λ s. column (f x) +ℤ s) (sum_map f column xs)

amount_in_lem :
    (t : Transaction)
    → amount_in (cash_flow_entry t)
      ≡ (if in_kinds inflow_kinds t.transaction_type then t.amount_cents else pos 0)
unfolding cash_flow_entry
amount_in_lem t = ground arith

amount_out_lem :
    (t : Transaction)
    → amount_out (cash_flow_entry t)
      ≡ (if in_kinds outflow_kinds t.transaction_type then t.amount_cents else pos 0)
unfolding cash_flow_entry
amount_out_lem t = rw (outflow_lem t.transaction_type) (ground arith)

none_counts :
    (start end : ℕ) (rows : List Transaction)
    → sum_of (λ (t : Transaction). t.amount_cents) (filter_by (counts start end []) rows) ≡ pos 0
unfolding counts
none_counts start end [] = refl
none_counts start end (t ∷ rows) = none_counts start end rows

flow_total_lem :
    (start end : ℕ) (kinds : List TransactionType) (db : Store)
    → flow_total start end kinds db
      ≡ sum_of
          (λ (t : Transaction). t.amount_cents)
          (filter_by (counts start end kinds) db.transactions)
unfolding flow_total
flow_total_lem start end [] db = sym (none_counts start end db.transactions)
flow_total_lem start end (k ∷ kinds) db = refl

and_swap : (a b c : Bool) → ((a && b) && c) ≡ ((a && c) && b)
and_swap true true true = refl
and_swap true true false = refl
and_swap true false true = refl
and_swap true false false = refl
and_swap false b c = refl

counts-filter :
    (start end : ℕ) (among kinds : List TransactionType) (t : Transaction)
    → counts start end (filter_by (in_kinds among) kinds) t
      ≡ (counts start end kinds t && in_kinds among t.transaction_type)
unfolding counts
counts-filter start end among kinds t =
    ap (λ b. b && (is_confirmed_status t.status && within start (end_of_day end) t.confirmed_at))
      (in_kinds-filter among kinds t.transaction_type)
    ∙ and_swap (in_kinds kinds t.transaction_type) (in_kinds among t.transaction_type)
        (is_confirmed_status t.status && within start (end_of_day end) t.confirmed_at)

-- A sum of the summary, over the types of a list, is a sum over the entries.
entries_total :
    (start end : ℕ) (among : List TransactionType) (category : Option TransactionType)
    (flow : Option Flow) (column : CashFlowEntry → ℤ) (db : Store)
    → ((t : Transaction)
        → column (cash_flow_entry t)
          ≡ (if in_kinds among t.transaction_type then t.amount_cents else pos 0))
    → flow_total start end (filter_by (in_kinds among) (applicable_types category flow)) db
      ≡ sum_of column (cash_flow_entries category flow start end db)
unfolding cash_flow_entries counts
entries_total start end among category flow column db h =
    let kinds = applicable_types category flow in
    let rows = filter_by (counts start end kinds) db.transactions in
    flow_total_lem start end (filter_by (in_kinds among) kinds) db
    ∙ sum_filter (counts start end (filter_by (in_kinds among) kinds)) (counts start end kinds)
        (λ t. in_kinds among t.transaction_type) (λ t. column (cash_flow_entry t))
        (counts-filter start end among kinds) h db.transactions
    ∙ sym (sum_map cash_flow_entry column rows)
    ∙ sym (sum_sort column (λ a b. ltb b.date a.date) (map cash_flow_entry rows))

-- What the summary of a period adds up is what the cash flow lists for the same category, flow and
-- dates: its inflow is the sum of the entries that come in, its outflow the sum of those that go
-- out, and its net balance is the difference.
pub get_finance_summary-cash_flow :
    (category : Option TransactionType) (flow : Option Flow) (start end : ℕ) (db : Store)
    → let summary = get_finance_summary category flow start end db in
      let entries = cash_flow_entries category flow start end db in
      (summary.total_inflow_cents ≡ sum_of amount_in entries)
      × (summary.total_outflow_cents ≡ sum_of amount_out entries)
      × (summary.net_balance_cents ≡ sum_of amount_in entries -ℤ sum_of amount_out entries)
unfolding get_finance_summary
get_finance_summary-cash_flow category flow start end db =
    let ins =
      entries_total start end inflow_kinds category flow amount_in db (λ t. amount_in_lem t) in
    let outs =
      entries_total start end outflow_kinds category flow amount_out db (λ t. amount_out_lem t) in
    (ins, outs, ap₂ (λ a b. a -ℤ b) ins outs)
