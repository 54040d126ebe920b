-- ===== src/Examples/Data.antt =====
-- A client with one plan, a wallet and two payments, and an administrator.
use blanco_financas_api.Prelude.{none, some, [], ◌∷◌, pos, true, false, codes}
use blanco_financas_api.Decimal.{decimal}
use blanco_financas_api.Calendar.{date}
use blanco_financas_api.Subscriptions.{Subscription, active, inactive}
use blanco_financas_api.Wallets.{Wallet}
use blanco_financas_api.Plans.{Plan}
use blanco_financas_api.Transactions.{
  Transaction, TransactionItem, pending, withdrawal, subscription_activation_payment,
  subscription_installment_payment,
}
use blanco_financas_api.Users.{User, admin, client}
use blanco_financas_api.Users
use blanco_financas_api.Store.{Store}
use blanco_financas_api.Session.{Clock}
use blanco_financas_api.SubscriptionService.{CreateSubscriptionInput}

abbrev pub clock : Clock
clock = record { now = 1000; today = date 2024 3 12 }

abbrev pub later : Clock
later = record { now = 9000; today = date 2024 4 1 }

abbrev pub maria : User
maria = record {
  id = 7;
  cpf = none;
  email = record { value = codes "maria@example.com" };
  name = "Maria";
  role = client;
  password_hash = some (codes "hash");
  status = Users.active;
  phone = none;
  nickname = none;
  plan_id = none;
  created_at = 0;
  updated_at = 0;
}

abbrev pub boss : User
boss = record {
  id = 1;
  cpf = none;
  email = record { value = codes "ana@example.com" };
  name = "Ana";
  role = admin;
  password_hash = some (codes "hash");
  status = Users.active;
  phone = none;
  nickname = none;
  plan_id = none;
  created_at = 0;
  updated_at = 0;
}

abbrev pub purse : Wallet
purse = record {
  id = 70;
  user_id = 7;
  balance_cents = pos 5000;
  total_invested_cents = pos 5000;
  total_yield_cents = pos 0;
  fundo_garantidor_cents = pos 60;
  created_at = 0;
  updated_at = 0;
}

-- A plan of twelve deposits of 100.00, three of them paid.
abbrev pub house : Subscription
house = record {
  id = 3;
  user_id = 7;
  plan_id = 2;
  name = "Casa";
  target_amount_cents = pos 120000;
  deposit_count = pos 12;
  monthly_amount_cents = pos 10000;
  admin_tax_value_cents = pos 500;
  insurance_percent = decimal 10 1;
  guarantee_fund_percent = decimal 11 1;
  total_cost_cents = pos 2000;
  deposits_paid = 3;
  deposit_day_of_month = 10;
  next_due_date = some (date 2024 3 10);
  has_overdue_deposit = false;
  overdue_marked_at = none;
  covers_activation_fees = true;
  status = active;
  created_at = 0;
  updated_at = 0;
}

-- A plan that waits for its activation.
abbrev pub car : Subscription
car = record house { id = 4; name = ""; deposits_paid = 0; next_due_date = none; status = inactive }

abbrev pub house_item : TransactionItem
house_item = record {
  id = 9;
  transaction_id = 5;
  subscription_id = 3;
  subscription_name = "Casa";
  plan_title = "Casa";
  amount_cents = pos 10000;
  installment_number = some 4;
}

abbrev pub house_payment : Transaction
house_payment = record {
  id = 5;
  user_id = 7;
  contract_id = none;
  subscription_id = none;
  transaction_type = subscription_installment_payment;
  status = pending;
  amount_cents = pos 10099;
  installment_number = none;
  installment_type = none;
  pix_key = none;
  pix_key_type = none;
  pix_transaction_id = some "order";
  bank_account = none;
  description = none;
  rejection_reason = none;
  created_at = 0;
  updated_at = 0;
  confirmed_at = none;
  pix_qr_code_data = some "";
  pix_qr_code_base64 = none;
  expiration_minutes = some 30;
  pix_transaction_fee_cents = pos 0;
  admin_tax_cents = none;
  insurance_cents = none;
  items = house_item ∷ [];
}

abbrev pub car_payment : Transaction
car_payment = record house_payment {
  id = 6;
  subscription_id = some 4;
  transaction_type = subscription_activation_payment;
  amount_cents = pos 303;
  items = [];
}

-- A withdrawal of 20.00 that waits for a decision.
abbrev pub cash : Transaction
cash = record house_payment {
  id = 8;
  transaction_type = withdrawal;
  amount_cents = pos 2000;
  pix_transaction_id = none;
  expiration_minutes = none;
  items = [];
}

abbrev pub home_plan : Plan
home_plan = record {
  id = 2;
  title = "Casa";
  description = "Casa própria";
  min_value_cents = pos 10000;
  max_value_cents = some (pos 500000);
  min_duration_months = pos 6;
  max_duration_months = some (pos 24);
  admin_tax_value_cents = pos 500;
  insurance_percent = decimal 10 1;
  guarantee_fund_percent_1 = decimal 11 1;
  guarantee_fund_percent_2 = decimal 13 1;
  guarantee_fund_threshold_cents = pos 50000;
  active = true;
  created_at = 0;
  updated_at = 0;
  deleted_at = none;
}

abbrev pub db : Store
db = record {
  subscriptions = house ∷ car ∷ [];
  transactions = house_payment ∷ car_payment ∷ cash ∷ [];
  wallets = purse ∷ [];
  deposits = [];
  plans = [];
  users = maria ∷ boss ∷ [];
  audits = [];
  notifications = [];
  yield_data = [];
  tokens = [];
  contracts = [];
}

-- The same with no pending payment.
abbrev pub quiet_db : Store
quiet_db = record db { transactions = cash ∷ [] }

abbrev pub plan_db : Store
plan_db = record db { plans = home_plan ∷ [] }

abbrev pub wanted : CreateSubscriptionInput
wanted = record {
  user_id = 7;
  plan_id = 2;
  target_amount_cents = pos 120000;
  deposit_count = pos 12;
  monthly_amount_cents = pos 10000;
  name = "Casa";
  deposit_day_of_month = 10;
}
