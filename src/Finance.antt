-- ===== src/Finance.antt =====
-- What app/api/v1/endpoints/admin.py shows an administrator of the money: the summary of a period, the
-- pages of its cash flow and the state of the reconciliation. A period is given by the midnights
-- that its two dates begin with, and a text that names no category by none.
pub mod Agreement
pub mod Pages
pub mod Counts
use blanco_financas_api.Prelude.{
  ℕ, ◌+◌, ◌*◌, ◌-◌, ltb, leb, if◌then◌else◌, Bool, true, false, not, ◌&&◌, Option, none, some, List,
  [], ◌∷◌, map, length, filter_by, any_by, sort_by, take, drop, String, ℤ, pos, ◌+ℤ◌, ◌-ℤ◌,
  same_string,
}
use blanco_financas_api.Transactions.{
  Transaction, TransactionType, deposit, withdrawal, yield_credit, fee, fundo_garantidor,
  subscription_installment_payment, subscription_activation_payment, is_confirmed_status,
}
use blanco_financas_api.Store.{Store, same_type}

-- `_INFLOW_TYPES` and `_OUTFLOW_TYPES`
abbrev pub inflow_kinds : List TransactionType
inflow_kinds =
    deposit ∷ yield_credit ∷ subscription_installment_payment ∷ subscription_activation_payment ∷ []

abbrev pub outflow_kinds : List TransactionType
outflow_kinds = withdrawal ∷ fee ∷ fundo_garantidor ∷ []

abbrev pub all_kinds : List TransactionType
all_kinds =
    deposit ∷ yield_credit ∷ subscription_installment_payment ∷ subscription_activation_payment
    ∷ outflow_kinds

abbrev pub in_kinds : List TransactionType → TransactionType → Bool
in_kinds kinds kind = any_by (same_type kind) kinds

pub data Flow : Type 0 where
  inflow outflow : Flow

-- The types that a category stands for.
abbrev pub category_kinds : Option TransactionType → List TransactionType
category_kinds none = all_kinds
category_kinds (some kind) = kind ∷ []

abbrev pub flow_kinds : Option Flow → List TransactionType → List TransactionType
flow_kinds none kinds = kinds
flow_kinds (some inflow) kinds = filter_by (in_kinds inflow_kinds) kinds
flow_kinds (some outflow) kinds = filter_by (in_kinds outflow_kinds) kinds

-- `applicable_types`
unfoldable pub applicable_types : Option TransactionType → Option Flow → List TransactionType
applicable_types category flow = flow_kinds flow (category_kinds category)

-- The end of a day, up to its last whole second.
unfoldable pub end_of_day : ℕ → ℕ
end_of_day midnight = midnight + 86399 * 1000000

-- The comparisons of the query: a transaction without a time passes none.
abbrev pub within : ℕ → ℕ → Option ℕ → Bool
within start end none = false
within start end (some at) = leb start at && leb at end

unfoldable pub counts : ℕ → ℕ → List TransactionType → Transaction → Bool
counts start end kinds t =
    in_kinds kinds t.transaction_type
    && (is_confirmed_status t.status && within start (end_of_day end) t.confirmed_at)

module _ {A : Type 0} (column : A → ℤ) where
  -- `func.sum`
  abbrev pub sum_of : List A → ℤ
  sum_of [] = pos 0
  sum_of (x ∷ xs) = column x +ℤ sum_of xs

-- One of the two sums. No query is made where no type is left.
unfoldable pub flow_total : ℕ → ℕ → List TransactionType → Store → ℤ
unfolding counts
flow_total start end [] db = pos 0
flow_total start end (k ∷ kinds) db =
    sum_of (λ (t : Transaction). t.amount_cents)
      (filter_by (counts start end (k ∷ kinds)) db.transactions)

-- `AdminFinanceSummaryResponse`
pub record FinanceSummary : Type 0 where
  pub fundo_garantidor_cents : ℤ
  pub total_inflow_cents : ℤ
  pub total_outflow_cents : ℤ
  pub net_balance_cents : ℤ

unfoldable pub get_finance_summary :
    Option TransactionType → Option Flow → ℕ → ℕ → Store → FinanceSummary
unfolding applicable_types flow_total
get_finance_summary category flow start end db =
    let kinds = applicable_types category flow in
    let total_inflow = flow_total start end (filter_by (in_kinds inflow_kinds) kinds) db in
    let total_outflow = flow_total start end (filter_by (in_kinds outflow_kinds) kinds) db in
    record {
      fundo_garantidor_cents = sum_of (λ w. w.fundo_garantidor_cents) db.wallets;
      total_inflow_cents = total_inflow;
      total_outflow_cents = total_outflow;
      net_balance_cents = total_inflow -ℤ total_outflow;
    }

-- `_CATEGORY_LABEL`
abbrev pub category_label : TransactionType → String
category_label deposit = "Depósito"
category_label withdrawal = "Saque"
category_label yield_credit = "Rendimento"
category_label fee = "Taxa"
category_label fundo_garantidor = "Fundo de proteção"
category_label subscription_installment_payment = "Depósito"
category_label subscription_activation_payment = "Taxa de Ativação"

-- An entry of `all_entries`
pub record CashFlowEntry : Type 0 where
  pub id : ℕ
  pub date : ℕ
  pub description : String
  pub flow : Flow
  pub amount_cents : ℤ
  pub category : String

abbrev date_of : Transaction → ℕ
date_of t = elim t.confirmed_at [ none ↦ t.created_at | some at ↦ at ]

abbrev described : String → Option String → String
described label none = label
described label (some text) = if same_string text "" then label else text

unfoldable pub cash_flow_entry : Transaction → CashFlowEntry
cash_flow_entry t = record {
  id = t.id;
  date = date_of t;
  description = described (category_label t.transaction_type) t.description;
  flow = if in_kinds inflow_kinds t.transaction_type then inflow else outflow;
  amount_cents = t.amount_cents;
  category = category_label t.transaction_type;
}

-- All entries, the latest first. The query sorts the rows by the same time before the code does.
unfoldable pub cash_flow_entries :
    Option TransactionType → Option Flow → ℕ → ℕ → Store → List CashFlowEntry
unfolding applicable_types counts cash_flow_entry
cash_flow_entries category flow start end db =
    let rows = filter_by (counts start end (applicable_types category flow)) db.transactions in
    sort_by (λ a b. ltb b.date a.date) (map cash_flow_entry rows)

-- `AdminCashFlowListResponse`
pub record CashFlowPage : Type 0 where
  pub entries : List CashFlowEntry
  pub total : ℕ

unfoldable pub get_finance_cash_flow :
    Option TransactionType → Option Flow → ℕ → ℕ → ℕ → ℕ → Store → CashFlowPage
unfolding cash_flow_entries
get_finance_cash_flow category flow start end page page_size db =
    let entries = cash_flow_entries category flow start end db in
    record {
      entries = take page_size (drop ((page - 1) * page_size) entries);
      total = length entries;
    }

-- `AdminReconciliationSummaryResponse`
pub record Reconciliation : Type 0 where
  pub conciliado : ℕ
  pub pendente : ℕ
  pub divergente : ℕ
  pub total : ℕ

abbrev payment_kinds : List TransactionType
payment_kinds = deposit ∷ subscription_installment_payment ∷ subscription_activation_payment ∷ []

abbrev pub is_payment : Transaction → Bool
is_payment t = in_kinds payment_kinds t.transaction_type

-- `if pix_tx_id`: neither missing nor empty
abbrev pub has_id : Option String → Bool
has_id none = false
has_id (some text) = not (same_string text "")

-- The loop's three counters, and its body.
pub record Counters : Type 0 where
  pub conciliado : ℕ
  pub pendente : ℕ
  pub divergente : ℕ

unfoldable pub count_row : Transaction → Counters → Counters
count_row t c =
    if has_id t.pix_transaction_id && is_confirmed_status t.status
    then record c { conciliado = c.conciliado + 1 }
    else if is_confirmed_status t.status
    then record c { divergente = c.divergente + 1 }
    else record c { pendente = c.pendente + 1 }

abbrev pub count_rows : List Transaction → Counters → Counters
count_rows [] c = c
count_rows (t ∷ ts) c = count_rows ts (count_row t c)

abbrev zeros : Counters
zeros = record { conciliado = 0; pendente = 0; divergente = 0 }

unfoldable pub get_reconciliation_summary : Store → Reconciliation
unfolding count_row
get_reconciliation_summary db =
    let c = count_rows (filter_by is_payment db.transactions) zeros in
    record {
      conciliado = c.conciliado;
      pendente = c.pendente;
      divergente = c.divergente;
      total = c.conciliado + c.pendente + c.divergente;
    }
