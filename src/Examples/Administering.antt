-- ===== src/Examples/Administering.antt =====
-- Routes, access, notifications and finance queries at concrete inputs.
use blanco_financas_api.Prelude.{
  ◌≡◌, refl, ◌+◌, none, some, [], ◌∷◌, pos, ◌-ℤ◌, Text, codes, ℕ, Option, false,
}
use blanco_financas_api.Errors.{ok, err, authorization, insufficient_balance}
use blanco_financas_api.Users.{active, inactive, defaulting}
use blanco_financas_api.Users
use blanco_financas_api.Plans
use blanco_financas_api.Transactions.{Transaction}
use blanco_financas_api.Transactions
use blanco_financas_api.Wallets
use blanco_financas_api.Money
use blanco_financas_api.Withdrawals
use blanco_financas_api.Store
use blanco_financas_api.Store.{Notification, Store}
use blanco_financas_api.Session.{run_request}
use blanco_financas_api.InstallmentPayments.Closure
use blanco_financas_api.InstallmentPayments.History
use blanco_financas_api.InstallmentPayments.History.{get_user_history}
use blanco_financas_api.InstallmentPayments.Listings as InstallmentListings
use blanco_financas_api.Withdrawals.Listings
use blanco_financas_api.PixPayments
use blanco_financas_api.PixPayments.{Gateway, PixPayload}
use blanco_financas_api.ActivationPayments
use blanco_financas_api.Notifications.{find_notification, as_read, unread_count, mark_as_read}
use blanco_financas_api.Notifications.Unread.{unread_one, mark_as_read_counts}
use blanco_financas_api.Finance
use blanco_financas_api.Finance.{get_finance_summary, cash_flow_entries, sum_of}
use blanco_financas_api.Finance.Agreement.{amount_in, amount_out, get_finance_summary-cash_flow}
use blanco_financas_api.UserAdministration.{change_user_status}
use blanco_financas_api.Access
use blanco_financas_api.Access.{get_current_user, get_active_user, get_current_admin}
use blanco_financas_api.Access.Admission.{changed_status_admits}
use blanco_financas_api.Routes
use blanco_financas_api.Routes.{
  refused, serve_deposit_day, serve_name, serve_cancellation, serve_activation_payment,
  serve_approval,
}
use blanco_financas_api.Routes.Codes.{Handled, subscription_routes-Handled}
use blanco_financas_api.Examples.Data.{clock, db, maria, cash, house_payment, purse}

subscription_routes-Handled_example :
    Handled db (serve_deposit_day clock 7 (some 3) 15 db 100)
    × Handled db (serve_name 7 (some 3) "Sítio" db 100)
    × Handled db (serve_cancellation clock 7 (some 3) db 100)
subscription_routes-Handled_example = subscription_routes-Handled clock 7 15 (some 3) "Sítio" db 100

-- A token that is its user's number, as a mark.
abbrev decode_one : Text → Option ℕ
decode_one (c ∷ []) = some 7
decode_one _ = none

abbrev unchanged : Text → Text
unchanged text = text

changed_status_admits_example :
    let after =
      λ (status : Users.UserStatus). (run_request (change_user_status clock 1 7 status) db 100).1 in
    let user = get_current_user decode_one unchanged (some (codes "bearer x")) in
    ((run_request user (after inactive) 200).0 ≡ err authorization)
    × ((run_request user (after defaulting) 200).0 ≡ err authorization)
    × ((run_request
          (get_active_user decode_one unchanged (some (codes "bearer x")))
          (after active)
          200).0
        ≡ ok (Users.activate 1000 maria))
    × ((run_request
          (get_current_admin decode_one unchanged (some (codes "bearer x")))
          (after active)
          200).0
        ≡ err authorization)
unfolding Access.bearer_token Access.words Plans.is_space Store.find_user Store.by_key
changed_status_admits_example =
    changed_status_admits decode_one unchanged (codes "bearer x") clock 1 7 db 100 200 refl refl
      (record { given = refl; token = codes "x"; read = refl; decoded = refl })

abbrev news : Notification
news = record {
  id = 60;
  is_read = false;
  created_at = 0;
  read_at = none;
  target_id = 8;
  client_name = "Maria";
  plan_title = "Casa";
  amount_cents = pos 2000;
}

abbrev news_db : Store
news_db = record db { notifications = news ∷ [] }

mark_as_read_counts_example :
    let run = run_request (mark_as_read clock 60) news_db 100 in
    (run.0 ≡ ok (as_read 1000 news))
    × (find_notification 60 run.1 ≡ some (as_read 1000 news))
    × (unread_count run.1 + unread_one news ≡ unread_count news_db)
unfolding find_notification Store.by_key
mark_as_read_counts_example = mark_as_read_counts clock 60 news_db 100

-- A withdrawal that was paid, and a day later an installment.
abbrev paid_cash : Transaction
paid_cash = record cash { status = Transactions.confirmed; confirmed_at = some 1000 }

abbrev money_db : Store
money_db = record db {
  transactions =
      paid_cash
      ∷ record house_payment { status = Transactions.confirmed; confirmed_at = some 86400000500 }
      ∷ [];
}

get_finance_summary-cash_flow_example :
    let summary = get_finance_summary none none 0 86400000000 money_db in
    let entries = cash_flow_entries none none 0 86400000000 money_db in
    (summary.total_inflow_cents ≡ sum_of amount_in entries)
    × (summary.total_outflow_cents ≡ sum_of amount_out entries)
    × (summary.net_balance_cents ≡ sum_of amount_in entries -ℤ sum_of amount_out entries)
get_finance_summary-cash_flow_example =
    get_finance_summary-cash_flow none none 0 86400000000 money_db

-- A client asks for the activation payment of a plan that is active: the service's exception is one
-- that the handler does not catch.
activation_uncaught :
    (gateway : Gateway)
    → serve_activation_payment gateway clock "" 7 (some 3) db 100 ≡ (refused 500, db)
unfolding Routes.serve serve_activation_payment run_request ActivationPayments.create_or_get_pending
    Closure.owned_by Store.find_subscription Store.by_key
activation_uncaught gateway = refl

-- An administrator approves a withdrawal that the balance does not cover: so is this one.
abbrev poor_db : Store
poor_db = record db { wallets = record purse { balance_cents = pos 100 } ∷ [] }

approval_uncaught :
    ((run_request (Withdrawals.approve_withdrawal clock 1 8) poor_db 100).0
      ≡ err insufficient_balance)
    × (serve_approval clock (some 8) 1 poor_db 100 ≡ (refused 500, poor_db))
unfolding Routes.serve serve_approval run_request Withdrawals.approve_withdrawal
    Withdrawals.may_decide Users.is_admin Store.find_user Store.find_transaction Store.by_key
    Store.find_wallet_of Wallets.debit Money.from_cents
approval_uncaught = (refl, refl)

-- A payment and an older withdrawal, read by pages of one event: the first page shows the payment,
-- and the second one nothing.
abbrev mixed_db : Store
mixed_db = record db {
  transactions =
      record house_payment { created_at = 2; status = Transactions.confirmed }
      ∷ record cash { created_at = 1 }
      ∷ [];
}

history_skips :
    (run_request (get_user_history (λ xs. xs) (λ xs. xs) clock 7 1 1) mixed_db 100).0 ≡ ok []
unfolding run_request get_user_history InstallmentListings.expire_stale_user_payments
    PixPayments.expire_stale_payments PixPayments.commit_if_any Listings.transactions_of
    History.merge_events
history_skips = refl

-- A payment that was confirmed within the last second of a day belongs to no day.
abbrev late_db : Store
late_db = record db {
  transactions =
      record house_payment { status = Transactions.confirmed; confirmed_at = some 86399500000 }
      ∷ [];
}

last_second_missed :
    (cash_flow_entries none none 0 0 late_db ≡ [])
    × (cash_flow_entries none none 86400000000 86400000000 late_db ≡ [])
unfolding cash_flow_entries Finance.counts Finance.end_of_day Finance.applicable_types
last_second_missed = (refl, refl)
