-- ===== src/InstallmentPayments/Listings/Agreement.antt =====
-- What a client is shown can be asked for.
use blanco_financas_api.Prelude.{
  ℕ, ◌≡◌, refl, ◌==◌, ==_refl, ==_iff, true, Option, some, List, All, String, filter_by-All,
  sort_by-All, map-All, Bool-cases, inl, inr, filter_by, map,
}
use blanco_financas_api.Errors.{ok}
use blanco_financas_api.Subscriptions.{
  Subscription, is_active_status, cancel_subscription, cancelled, total_deposited_cents,
}
use blanco_financas_api.Transactions.{Transaction, create_withdrawal}
use blanco_financas_api.Store.{Store, find_subscription}
use blanco_financas_api.Store.Tables.{Distinct, by_key-own}
use blanco_financas_api.Store.SubscriptionQueries.{subscriptions_of}
use blanco_financas_api.Session.{Clock, run_request}
use blanco_financas_api.InstallmentPayments.Closure.{
  RequestPlanWithdrawalInput, request_plan_withdrawal, close_early, is_withdrawable, owned_by,
  plan_withdrawal, announce_closure,
}
use blanco_financas_api.InstallmentPayments.Listings.{
  WithdrawableSubscription, withdrawable_entry, get_withdrawable_subscriptions,
}

-- The request of a user for a subscription, with the other fields of an input.
abbrev pub asking : ℕ → ℕ → RequestPlanWithdrawalInput → RequestPlanWithdrawalInput
asking user subscription input = record input { user_id = user; subscription_id = subscription }

-- The request for a listed subscription is granted, with the amount that was shown.
abbrev pub Granted :
    Clock
    → Option String
    → RequestPlanWithdrawalInput
    → ℕ
    → Store
    → ℕ
    → WithdrawableSubscription
    → Type 0
Granted clock description input user db n entry =
    (t : Transaction) × ((run_request
        (request_plan_withdrawal clock description (asking user entry.subscription_id input)) db
        n).0
      ≡ ok t)
    × (t.amount_cents ≡ entry.withdrawable_amount_cents)
    × (t.subscription_id ≡ some entry.subscription_id)

closes :
    (now : ℕ) (s : Subscription)
    → (c : Subscription) × (close_early now s ≡ ok c)
      × (c.id ≡ s.id)
      × (total_deposited_cents c ≡ total_deposited_cents s)
unfolding close_early cancel_subscription total_deposited_cents
closes now s = elim (Bool-cases (is_active_status s.status)) [
  | inl early ↦ (record s { status = cancelled; updated_at = now }, rw early refl, refl, refl)
  | inr late ↦ (s, rw late refl, refl, refl)
]

listed-Granted :
    (clock : Clock) (description : Option String) (input : RequestPlanWithdrawalInput) (user : ℕ)
    (db shown : Store) (n : ℕ) (s : Subscription)
    → find_subscription s.id db ≡ some s
    → s.user_id ≡ user
    → is_withdrawable s ≡ true
    → Granted clock description input user db n (withdrawable_entry shown s)
unfolding withdrawable_entry run_request request_plan_withdrawal owned_by announce_closure
    plan_withdrawal create_withdrawal total_deposited_cents
listed-Granted clock description input user db shown n s f own w =
    let (c, closing, same, amount) = closes clock.now s in
    let mine : (s.user_id == user) ≡ true = rw own (==_refl user) in
    (
      plan_withdrawal n (asking user s.id input) c description clock.now,
      rw (f, mine, w, closing) refl,
      amount,
      rw same refl,
    )

-- The listing of what can be withdrawn answers and changes nothing. Where the subscriptions have
-- identifiers of their own, the user's request to close any plan that it shows is granted, and the
-- withdrawal asks for exactly the amount that was shown.
pub get_withdrawable_subscriptions-Granted :
    (clock : Clock) (description : Option String) (input : RequestPlanWithdrawalInput) (user : ℕ)
    (db : Store) (n m : ℕ)
    → Distinct (λ (s : Subscription). s.id) db.subscriptions
    → (entries : List WithdrawableSubscription) × (run_request
          (get_withdrawable_subscriptions user)
          db
          n
        ≡ (ok entries, db))
      × All (Granted clock description input user db m) entries
unfolding run_request get_withdrawable_subscriptions subscriptions_of find_subscription
get_withdrawable_subscriptions-Granted clock description input user db n m d = (
  map (withdrawable_entry db) (filter_by is_withdrawable (subscriptions_of user db)),
  refl,
  map-All (Granted clock description input user db m) (withdrawable_entry db)
      (filter_by is_withdrawable (subscriptions_of user db))
      (filter_by-All is_withdrawable (subscriptions_of user db)
        (λ s own w. listed-Granted clock description input user db db m s own.0 own.1 w)
        (sort_by-All (λ s. (find_subscription s.id db ≡ some s) × (s.user_id ≡ user)) _ _
          (filter_by-All (λ s. s.user_id == user) db.subscriptions
            (λ s own h. (own, (==_iff s.user_id user).0 h))
            (by_key-own (λ (s : Subscription). s.id) db.subscriptions d)))),
)
