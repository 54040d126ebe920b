-- ===== src/Examples/Listings.antt =====
-- The expiration job and the listings at concrete inputs.
use blanco_financas_api.Prelude.{inr, ◌≡◌, refl, arith, some, List, All}
use blanco_financas_api.Errors.{ok}
use blanco_financas_api.Transactions.{subscription_activation_payment}
use blanco_financas_api.Session.{run_request}
use blanco_financas_api.PixPayments.{expire_stale_payments}
use blanco_financas_api.ExpirationScheduler.{run_expiration_job}
use blanco_financas_api.ExpirationScheduler.Due.{AllSweep}
use blanco_financas_api.ExpirationScheduler.Sweep.{run_expiration_job_sweeps}
use blanco_financas_api.InstallmentPayments.Closure.{RequestPlanWithdrawalInput}
use blanco_financas_api.InstallmentPayments.Listings.{
  WithdrawableSubscription, get_withdrawable_subscriptions,
}
use blanco_financas_api.InstallmentPayments.Listings.Agreement.{
  Granted, get_withdrawable_subscriptions-Granted,
}
use blanco_financas_api.Examples.Data.{clock, db}

abbrev closing : RequestPlanWithdrawalInput
closing = record {
  user_id = 0;
  subscription_id = 0;
  owner_name = "Maria";
  pix_key = "maria@example.com";
  pix_key_type = "email";
}

-- The two payments of 30 minutes are an hour and more old.
run_expiration_job_sweeps_example :
    let swept = run_expiration_job 4000000000 db 100 in
    AllSweep 4000000000 db.transactions swept.transactions
    × (swept ≡ record db { transactions = swept.transactions })
    × (run_request (expire_stale_payments 4000000000 7 subscription_activation_payment) swept 200
        ≡ (ok 0, swept))
run_expiration_job_sweeps_example =
    run_expiration_job_sweeps 4000000000 7 subscription_activation_payment db 100 200 (inr refl)

get_withdrawable_subscriptions-Granted_example :
    (entries : List WithdrawableSubscription) × (run_request
        (get_withdrawable_subscriptions 7)
        db
        100
      ≡ (ok entries, db))
    × All (Granted clock (some "Retirada") closing 7 db 200) entries
get_withdrawable_subscriptions-Granted_example =
    get_withdrawable_subscriptions-Granted clock (some "Retirada") closing 7 db 100 200
      ((λ e. ground arith, tt), (tt, tt))
