-- ===== src/Routes/Codes.antt =====
-- The codes that the routes of subscriptions answer.
use blanco_financas_api.Prelude.{
  ℕ, ◌≡◌, refl, arith, ◌⊎◌, inl, inr, Bool-cases, Option, none, some, String,
}
use blanco_financas_api.Errors.{Error, value_error, Result-cases, Result, ok, err}
use blanco_financas_api.Calendar.{Date, make_date}
use blanco_financas_api.DueDates.{compute_next_due_date, next_month}
use blanco_financas_api.Subscriptions.{
  Subscription, set_deposit_day, is_allowed_day, is_active_status,
}
use blanco_financas_api.Subscriptions
use blanco_financas_api.Store.{Store, find_subscription}
use blanco_financas_api.Session.{Clock, run_request, close_session, open_session, lift, ◌>>=◌}
use blanco_financas_api.InstallmentPayments.Closure.{owned_by}
use blanco_financas_api.SubscriptionService.{
  update_deposit_day, update_name, cancel_subscription, save_described, described,
}
use blanco_financas_api.PixPayments.{Gateway}
use blanco_financas_api.ActivationPayments.{create_or_get_pending, get_payment_for_subscription}
use blanco_financas_api.Routes.{
  subscription_codes, Reply, replied, refused, reply, serve, serve_deposit_day, serve_name,
  serve_cancellation, serve_activation_payment, serve_activation_status,
}

-- A client who asks for a subscription of another, or for one that does not exist, is answered 404
-- by every route of subscriptions, and the store stays as it is.
pub foreign_subscription_refused :
    (gateway : Gateway) (clock : Clock) (description : String) (user id day : ℕ) (name : String)
    (db : Store) (n : ℕ)
    → owned_by user (find_subscription id db) ≡ none
    → (serve_deposit_day clock user (some id) day db n ≡ (refused 404, db))
      × (serve_name user (some id) name db n ≡ (refused 404, db))
      × (serve_cancellation clock user (some id) db n ≡ (refused 404, db))
      × (serve_activation_payment gateway clock description user (some id) db n ≡ (refused 404, db))
      × (serve_activation_status clock user (some id) db n ≡ (refused 404, db))
unfolding serve run_request serve_deposit_day serve_name serve_cancellation serve_activation_payment
    serve_activation_status update_deposit_day update_name cancel_subscription create_or_get_pending
    get_payment_for_subscription
foreign_subscription_refused gateway clock description user id day name db n h =
    (rw h refl, rw h refl, rw h refl, rw h refl, rw h refl)

abbrev pub code_of : {A : Type 0} → Reply A → ℕ
code_of (replied code a) = code
code_of (refused code) = code

-- A success, or a refusal of the request that leaves the store as it was: no error of the server.
abbrev pub Handled : {A : Type 0} → Store → Reply A × Store → Type 0
Handled db run =
    (code_of run.0 ≡ 200) ⊎ (((code_of run.0 ≡ 404) ⊎ (code_of run.0 ≡ 400)) × (run.1 ≡ db))

serve_name-Handled :
    (user : ℕ) (id : Option ℕ) (name : String) (db : Store) (n : ℕ)
    → Handled db (serve_name user id name db n)
unfolding serve run_request serve_name update_name save_described described
serve_name-Handled user none name db n = ground arith
serve_name-Handled user (some id) name db n = ground arith

compute_next_due_date_error :
    (day : ℕ) (today : Date) {e : Error} → compute_next_due_date day today ≡ err e → e ≡ value_error
unfolding compute_next_due_date next_month make_date
compute_next_due_date_error day today {e} h = ground arith

set_deposit_day_error :
    (day : ℕ) (today : Date) (now : ℕ) (s : Subscription) {e : Error}
    → set_deposit_day day today now s ≡ err e
    → e ≡ value_error
unfolding set_deposit_day
set_deposit_day_error day today now s {e} h =
    elim (Result-cases (compute_next_due_date day today)) [
      | inl (due, q) ↦ ground arith
      | inr (x, q) ↦ let v = compute_next_due_date_error day today q in ground arith
    ]

moved-Handled :
    (db : Store) (n : ℕ) (r : Result Subscription)
    → ((e : Error) → r ≡ err e → e ≡ value_error)
    → Handled db (
        reply 200 subscription_codes
          (close_session ((lift r >>= λ moved. save_described moved) (open_session db n))))
unfolding save_described described
moved-Handled db n (ok s) h = inl refl
moved-Handled db n (err e) h = let v = h e refl in rw v (inr (inr refl, refl))

serve_deposit_day-Handled :
    (clock : Clock) (user : ℕ) (id : Option ℕ) (day : ℕ) (db : Store) (n : ℕ)
    → Handled db (serve_deposit_day clock user id day db n)
unfolding serve run_request serve_deposit_day update_deposit_day save_described described
serve_deposit_day-Handled clock user none day db n = ground arith
serve_deposit_day-Handled clock user (some id) day db n =
    go (owned_by user (find_subscription id db)) refl
  where
    go :
        (o : Option Subscription)
        → owned_by user (find_subscription id db) ≡ o
        → Handled db (serve_deposit_day clock user (some id) day db n)
    go none h = rw h (inr (inl refl, refl))
    go (some s) h = elim (Bool-cases (is_active_status s.status)) [
      | inr stopped ↦ rw (h, stopped) (inr (inr refl, refl))
      | inl running ↦ elim (Bool-cases (is_allowed_day day)) [
        | inr other ↦ rw (h, running, other) (inr (inr refl, refl))
        | inl allowed ↦
            rw (h, running, allowed)
              (moved-Handled db n (set_deposit_day day clock.today clock.now s)
                (λ e q. set_deposit_day_error day clock.today clock.now s q))
      ]
    ]

serve_cancellation-Handled :
    (clock : Clock) (user : ℕ) (id : Option ℕ) (db : Store) (n : ℕ)
    → Handled db (serve_cancellation clock user id db n)
unfolding serve run_request serve_cancellation cancel_subscription described
    Subscriptions.cancel_subscription
serve_cancellation-Handled clock user none db n = ground arith
serve_cancellation-Handled clock user (some id) db n = ground arith

-- The three routes by which a client changes a subscription answer every request, whatever its
-- identifier is: with a success, or with 404 or 400 and the store as it was; never with an error of
-- the server.
pub subscription_routes-Handled :
    (clock : Clock) (user day : ℕ) (id : Option ℕ) (name : String) (db : Store) (n : ℕ)
    → Handled db (serve_deposit_day clock user id day db n)
      × Handled db (serve_name user id name db n)
      × Handled db (serve_cancellation clock user id db n)
subscription_routes-Handled clock user day id name db n = (
  serve_deposit_day-Handled clock user id day db n,
  serve_name-Handled user id name db n,
  serve_cancellation-Handled clock user id db n,
)
