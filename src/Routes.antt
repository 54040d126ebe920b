-- ===== src/Routes.antt =====
-- What the handlers of app/api/v1/endpoints answer: the code of a success, or the code that a caught
-- exception is turned into. An exception that a handler does not catch is answered with 500. The
-- schemas' own checks come before, and an identifier is what its text is read as, if it is one.
pub mod Codes
use blanco_financas_api.Prelude.{ℕ, Option, String}
use blanco_financas_api.Errors.{
  Error, Result, ok, err, value_error, plan_not_found, subscription_not_found, payment_not_found,
  invalid_subscription, transaction_not_found, invalid_withdrawal,
}
use blanco_financas_api.Transactions.{Transaction}
use blanco_financas_api.Store.{Store}
use blanco_financas_api.Session.{Action, Clock, ◌>>=◌, or_raise, run_request}
use blanco_financas_api.SubscriptionService.{
  SubscriptionResult, CreateSubscriptionInput, create_subscription, update_deposit_day, update_name,
  cancel_subscription,
}
use blanco_financas_api.PixPayments.{Gateway}
use blanco_financas_api.ActivationPayments.{create_or_get_pending, get_payment_for_subscription}
use blanco_financas_api.Withdrawals.{approve_withdrawal, reject_withdrawal}

pub data Reply (A : Type 0) : Type 0 where
  replied : ℕ → A → Reply A
  refused : ℕ → Reply A

abbrev pub reply : {A : Type 0} → ℕ → (Error → ℕ) → Result A × Store → Reply A × Store
reply success codes (ok a, db) = (replied success a, db)
reply success codes (err e, db) = (refused (codes e), db)

-- A handler on a store: the `HTTPException` leaves the session as the exception it stands for does.
unfoldable pub serve : {A : Type 0} → ℕ → (Error → ℕ) → Action A → Store → ℕ → Reply A × Store
unfolding run_request
serve success codes m db next_id = reply success codes (run_request m db next_id)

-- `UUID(text)`
abbrev pub identifier : Option ℕ → Action ℕ
identifier id = or_raise id value_error

-- subscriptions.py: the exceptions that `create_subscription` catches
abbrev pub creation_codes : Error → ℕ
creation_codes plan_not_found = 404
creation_codes invalid_subscription = 400
creation_codes value_error = 400
creation_codes _ = 500

-- those of `update_deposit_day`, `cancel_subscription` and `create_activation_payment`
abbrev pub subscription_codes : Error → ℕ
subscription_codes subscription_not_found = 404
subscription_codes invalid_subscription = 400
subscription_codes value_error = 400
subscription_codes _ = 500

-- those of `update_name`
abbrev pub name_codes : Error → ℕ
name_codes subscription_not_found = 404
name_codes value_error = 400
name_codes _ = 500

-- those of `get_activation_payment`
abbrev pub activation_codes : Error → ℕ
activation_codes subscription_not_found = 404
activation_codes payment_not_found = 404
activation_codes value_error = 400
activation_codes _ = 500

-- admin.py: those of `approve_withdrawal` and `reject_withdrawal`
abbrev pub decision_codes : Error → ℕ
decision_codes transaction_not_found = 404
decision_codes invalid_withdrawal = 400
decision_codes _ = 500

unfoldable pub serve_creation :
    Clock → Option ℕ → CreateSubscriptionInput → Store → ℕ → Reply SubscriptionResult × Store
unfolding serve
serve_creation clock plan input =
    serve 201 creation_codes
      (do plan_id ← identifier plan; create_subscription clock (record input { plan_id = plan_id }))

unfoldable pub serve_deposit_day :
    Clock → ℕ → Option ℕ → ℕ → Store → ℕ → Reply SubscriptionResult × Store
unfolding serve
serve_deposit_day clock user subscription day = serve 200 subscription_codes (do
  subscription_id ← identifier subscription
  update_deposit_day clock user subscription_id day)

unfoldable pub serve_name : ℕ → Option ℕ → String → Store → ℕ → Reply SubscriptionResult × Store
unfolding serve
serve_name user subscription name =
    serve 200 name_codes
      (do subscription_id ← identifier subscription; update_name user subscription_id name)

unfoldable pub serve_cancellation :
    Clock → ℕ → Option ℕ → Store → ℕ → Reply SubscriptionResult × Store
unfolding serve
serve_cancellation clock user subscription =
    serve 200 subscription_codes
      (do subscription_id ← identifier subscription; cancel_subscription clock subscription_id user)

unfoldable pub serve_activation_payment :
    Gateway → Clock → String → ℕ → Option ℕ → Store → ℕ → Reply Transaction × Store
unfolding serve
serve_activation_payment gateway clock description user subscription =
    serve 200 subscription_codes (do
      subscription_id ← identifier subscription
      create_or_get_pending gateway clock description user subscription_id)

unfoldable pub serve_activation_status :
    Clock → ℕ → Option ℕ → Store → ℕ → Reply Transaction × Store
unfolding serve
serve_activation_status clock user subscription = serve 200 activation_codes (do
  subscription_id ← identifier subscription
  get_payment_for_subscription clock subscription_id user)

unfoldable pub serve_approval : Clock → Option ℕ → ℕ → Store → ℕ → Reply Transaction × Store
unfolding serve
serve_approval clock transaction admin =
    serve 200 decision_codes
      (do transaction_id ← identifier transaction; approve_withdrawal clock admin transaction_id)

unfoldable pub serve_rejection :
    Clock → Option ℕ → ℕ → String → Store → ℕ → Reply Transaction × Store
unfolding serve
serve_rejection clock transaction admin reason = serve 200 decision_codes (do
  transaction_id ← identifier transaction
  reject_withdrawal clock transaction_id admin reason)
