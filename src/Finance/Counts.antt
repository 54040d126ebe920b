-- ===== src/Finance/Counts.antt =====
-- What the counters of the reconciliation count.
use blanco_financas_api.Prelude.{
  ◌+◌, ◌≡◌, refl, arith, Bool, not, ◌&&◌, List, [], ◌∷◌, length, filter_by,
}
use blanco_financas_api.Transactions.{Transaction, is_confirmed_status}
use blanco_financas_api.Store.{Store}
use blanco_financas_api.Finance.{
  Counters, count_row, count_rows, has_id, is_payment, get_reconciliation_summary,
}

-- A confirmed payment, with or without an identifier of its Pix transaction.
abbrev pub is_paired : Transaction → Bool
is_paired t = is_confirmed_status t.status && has_id t.pix_transaction_id

abbrev pub is_unpaired : Transaction → Bool
is_unpaired t = is_confirmed_status t.status && not (has_id t.pix_transaction_id)

abbrev pub is_open : Transaction → Bool
is_open t = not (is_confirmed_status t.status)

count_rows_lem :
    (rows : List Transaction) (c : Counters)
    → ((count_rows rows c).conciliado ≡ c.conciliado + length (filter_by is_paired rows))
      × ((count_rows rows c).divergente ≡ c.divergente + length (filter_by is_unpaired rows))
      × ((count_rows rows c).pendente ≡ c.pendente + length (filter_by is_open rows))
unfolding count_row
count_rows_lem [] c = (omega arith, omega arith, omega arith)
count_rows_lem (t ∷ rows) c = ground (arith, count_rows_lem rows (count_row t c))

three_parts :
    (rows : List Transaction)
    → length (filter_by is_paired rows)
        + length (filter_by is_open rows)
        + length (filter_by is_unpaired rows)
      ≡ length rows
three_parts [] = refl
three_parts (t ∷ rows) = ground (arith, three_parts rows)

-- The reconciliation counts every payment once: as reconciled where it is confirmed with the
-- identifier of a Pix transaction, as divergent where it is confirmed without one, as pending where
-- it is not confirmed; and the total is the number of payments.
pub get_reconciliation_summary_counts :
    (db : Store)
    → let summary = get_reconciliation_summary db in
      let payments = filter_by is_payment db.transactions in
      (summary.conciliado ≡ length (filter_by is_paired payments))
      × (summary.divergente ≡ length (filter_by is_unpaired payments))
      × (summary.pendente ≡ length (filter_by is_open payments))
      × (summary.total ≡ length payments)
unfolding get_reconciliation_summary
get_reconciliation_summary_counts db =
    let payments = filter_by is_payment db.transactions in
    let (c, d, p) =
      count_rows_lem payments (record { conciliado = 0; pendente = 0; divergente = 0 }) in
    let all = three_parts payments in (omega arith, omega arith, omega arith, omega arith)
