-- ===== src/InstallmentPayments/History.antt =====
-- `get_user_history` of app/application/services/installment_payment_service.py, without the texts of
-- the payments' descriptions. The order of `list({...})` is an argument.
use blanco_financas_api.Prelude.{
  ℕ, ltb, Option, none, some, List, [], ◌∷◌, ◌++◌, map, sort_by, take, String, ℤ, same_string,
  if◌then◌else◌,
}
use blanco_financas_api.Transactions.{
  Transaction, TransactionStatus, withdrawal, subscription_installment_payment,
}
use blanco_financas_api.Session.{Action, Clock, ◌>>=◌, ◌>>◌, gets, pure}
use blanco_financas_api.Withdrawals.Listings.{transactions_of}
use blanco_financas_api.InstallmentPayments.Listings.{expire_stale_user_payments}

pub data EventType : Type 0 where
  installment_payment plan_withdrawal : EventType

-- `HistoryEventDTO`
pub record HistoryEvent : Type 0 where
  pub id : ℕ
  pub event_type : EventType
  pub status : TransactionStatus
  pub amount_cents : ℤ
  pub description : Option String
  pub plan_titles : List String
  pub subscription_ids : List ℕ
  pub created_at : ℕ
  pub confirmed_at : Option ℕ
  pub rejection_reason : Option String

abbrev or_default : Option String → String
or_default none = "Retirada de valor"
or_default (some text) = if same_string text "" then "Retirada de valor" else text

abbrev one_or_none : Option ℕ → List ℕ
one_or_none none = []
one_or_none (some id) = id ∷ []

unfoldable pub withdrawal_event : Transaction → HistoryEvent
withdrawal_event w = record {
  id = w.id;
  event_type = plan_withdrawal;
  status = w.status;
  amount_cents = w.amount_cents;
  description = some (or_default w.description);
  plan_titles = [];
  subscription_ids = one_or_none w.subscription_id;
  created_at = w.created_at;
  confirmed_at = w.confirmed_at;
  rejection_reason = w.rejection_reason;
}

module _ (unique : List ℕ → List ℕ) (unique_titles : List String → List String) where
  unfoldable pub payment_event : Transaction → HistoryEvent
  payment_event p = record {
    id = p.id;
    event_type = installment_payment;
    status = p.status;
    amount_cents = p.amount_cents;
    description = none;
    plan_titles = unique_titles (map (λ i. i.plan_title) p.items);
    subscription_ids = unique (map (λ i. i.subscription_id) p.items);
    created_at = p.created_at;
    confirmed_at = p.confirmed_at;
    rejection_reason = none;
  }

  -- The two lists of events as one, the newest first.
  unfoldable pub merge_events : ℕ → List Transaction → List Transaction → List HistoryEvent
  unfolding payment_event withdrawal_event
  merge_events limit payments withdrawals = take limit (
      sort_by (λ a b. ltb b.created_at a.created_at)
        (map payment_event payments ++ map withdrawal_event withdrawals))

  unfoldable pub get_user_history : Clock → ℕ → ℕ → ℕ → Action (List HistoryEvent)
  unfolding expire_stale_user_payments merge_events transactions_of
  get_user_history clock user limit offset = do
    expire_stale_user_payments clock user
    payments ←
        gets (transactions_of (some user) (some subscription_installment_payment) none limit offset)
    withdrawals ← gets (transactions_of (some user) (some withdrawal) none limit offset)
    pure (merge_events limit payments withdrawals)
