-- ===== src/Store/SubscriptionQueries.antt =====
-- The queries and the bulk update of app/infrastructure/db/repositories/subscription_repository.py,
-- and the sum of a subscription's yields.
use blanco_financas_api.Prelude.{
  ℕ, ◌==◌, ltb, if◌then◌else◌, Bool, true, false, not, ◌&&◌, Option, none, some, List, [], ◌∷◌, map,
  filter_by, sort_by, ℤ, pos, ◌+ℤ◌,
}
use blanco_financas_api.Calendar.{Date, ltb_date}
use blanco_financas_api.Subscriptions.{Subscription, is_active_status}
use blanco_financas_api.Transactions.{Transaction, is_confirmed_status, yield_credit}
use blanco_financas_api.Store.{Store, same_type}

-- `get_by_user_id` of the subscriptions, the newest first
unfoldable pub subscriptions_of : ℕ → Store → List Subscription
subscriptions_of user db =
    sort_by (λ a b. ltb b.created_at a.created_at)
      (filter_by (λ s. s.user_id == user) db.subscriptions)

abbrev sum_cents : List Transaction → ℤ
sum_cents [] = pos 0
sum_cents (t ∷ ts) = t.amount_cents +ℤ sum_cents ts

-- `transaction.subscription_id == wanted`, where NULL is equal to nothing
abbrev pub for_subscription : ℕ → Option ℕ → Bool
for_subscription wanted none = false
for_subscription wanted (some id) = id == wanted

-- `get_yield_sum_by_subscription`
unfoldable pub yield_sum_of : ℕ → Store → ℤ
yield_sum_of subscription db = sum_cents (
    filter_by
      (λ t.
        for_subscription subscription t.subscription_id
        && (same_type t.transaction_type yield_credit && is_confirmed_status t.status))
      db.transactions)

-- A date column is before a date, or on it; NULL is neither.
abbrev pub due_before : Date → Option Date → Bool
due_before today none = false
due_before today (some due) = ltb_date due today

abbrev pub due_by : Date → Option Date → Bool
due_by today none = false
due_by today (some due) = not (ltb_date today due)

abbrev due_date_before : Option Date → Option Date → Bool
due_date_before (some a) (some b) = ltb_date a b
due_date_before _ _ = false

-- `get_active_due_or_overdue`, but for the order of equal dates
unfoldable pub active_due_or_overdue : ℕ → Date → Store → List Subscription
active_due_or_overdue user today db =
    sort_by (λ a b. due_date_before a.next_due_date b.next_due_date)
      (filter_by
        (λ s. s.user_id == user && (is_active_status s.status && due_by today s.next_due_date))
        db.subscriptions)

-- The condition and the update of `bulk_mark_overdue`.
unfoldable pub newly_overdue : ℕ → Date → Subscription → Bool
newly_overdue user today s =
    s.user_id == user
    && (is_active_status s.status
        && (due_before today s.next_due_date && not s.has_overdue_deposit))

unfoldable pub flag_row : ℕ → Date → ℕ → Subscription → Subscription
unfolding newly_overdue
flag_row user today now s =
    if newly_overdue user today s
    then record s { has_overdue_deposit = true; overdue_marked_at = some now; updated_at = now }
    else s

unfoldable pub bulk_mark_overdue : ℕ → Date → ℕ → Store → Store
unfolding flag_row
bulk_mark_overdue user today now db = record db {
  subscriptions = map (flag_row user today now) db.subscriptions;
}
