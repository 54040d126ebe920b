-- ===== src/Store.antt =====
-- The database: one table for each entity that the services keep, and the queries of
-- app/infrastructure/db/repositories. A table is a list of rows; `merge` writes the row of the same
-- primary key, or adds one. The columns are the fields of the entities, so the mapping between
-- models and entities is the identity, but that a transaction saved alone keeps its stored items.
pub mod Tables
pub mod Totals
pub mod SubscriptionQueries
use blanco_financas_api.Prelude.{
  ℕ, ◌==◌, ltb, if◌then◌else◌, Bool, true, false, ◌&&◌, ◌||◌, Option, none, some, List, [], ◌∷◌,
  ◌++◌, find_by, filter_by, any_by, String, ℤ, same_text, Text, not, is_some,
}
use blanco_financas_api.Decimal.{Decimal}
use blanco_financas_api.Calendar.{Date, ltb_date}
use blanco_financas_api.Subscriptions.{Subscription, is_active_status}
use blanco_financas_api.Wallets.{Wallet}
use blanco_financas_api.Transactions.{
  Transaction, TransactionItem, TransactionType, is_pending_status, deposit, withdrawal,
  yield_credit, fee, fundo_garantidor, subscription_installment_payment,
  subscription_activation_payment,
}
use blanco_financas_api.Plans.{Plan}
use blanco_financas_api.Users.{User}
use blanco_financas_api.Cpf.{Cpf}
use blanco_financas_api.Emails.{Email}
use blanco_financas_api.Tokens.{UserToken}
use blanco_financas_api.Contracts.{Contract}
use blanco_financas_api.Yields.{YieldData}

-- `PrincipalDeposit`
pub record PrincipalDeposit : Type 0 where
  pub id : ℕ
  pub user_id : ℕ
  pub subscription_id : ℕ
  pub transaction_item_id : ℕ
  pub installment_number : Option ℕ
  pub principal_cents : ℤ
  pub deposited_at : Date
  pub last_yield_run_date : Option Date
  pub created_at : ℕ

pub data AuditAction : Type 0 where
  withdrawal_requested withdrawal_approved withdrawal_rejected yield_credited : AuditAction
  subscription_created subscription_cancelled : AuditAction
  installment_payment_created installment_payment_confirmed : AuditAction
  plan_withdrawal_requested : AuditAction
  subscription_activation_payment_created : AuditAction
  subscription_activation_payment_confirmed : AuditAction
  user_registered user_activated admin_login : AuditAction
  contract_created contract_accepted deposit_created deposit_confirmed : AuditAction
  plan_created plan_updated plan_deleted user_status_changed : AuditAction
  webhook_received webhook_signature_valid webhook_signature_invalid : AuditAction
  webhook_amount_mismatch webhook_payment_confirmed webhook_payment_failed : AuditAction
  webhook_payment_expired webhook_unknown_transaction : AuditAction

-- `AuditLog`, without the details for the reader.
pub record AuditLog : Type 0 where
  pub action : AuditAction
  pub actor_id : ℕ
  pub target_id : Option ℕ

-- `Notification`, without its texts.
pub record Notification : Type 0 where
  pub id : ℕ
  pub is_read : Bool
  pub created_at : ℕ
  pub read_at : Option ℕ
  pub target_id : ℕ
  pub client_name : String
  pub plan_title : String
  pub amount_cents : ℤ

pub record Store : Type 0 where
  pub subscriptions : List Subscription
  pub transactions : List Transaction
  pub wallets : List Wallet
  pub deposits : List PrincipalDeposit
  pub plans : List Plan
  pub users : List User
  pub audits : List AuditLog
  pub notifications : List Notification
  pub yield_data : List YieldData
  pub tokens : List UserToken
  pub contracts : List Contract

module _ {A : Type 0} (key : A → ℕ) where
  -- `session.merge(row)`
  unfoldable pub merge : A → List A → List A
  merge row [] = row ∷ []
  merge row (x ∷ xs) = if key x == key row then row ∷ xs else x ∷ merge row xs

  -- `where(Model.id == wanted)`
  unfoldable pub by_key : ℕ → List A → Option A
  by_key wanted xs = find_by (λ x. key x == wanted) xs

unfoldable pub find_subscription : ℕ → Store → Option Subscription
unfolding by_key
find_subscription wanted db = by_key (λ s. s.id) wanted db.subscriptions

unfoldable pub put_subscription : Subscription → Store → Store
unfolding merge
put_subscription s db = record db { subscriptions = merge (λ x. x.id) s db.subscriptions }

unfoldable pub find_transaction : ℕ → Store → Option Transaction
unfolding by_key
find_transaction wanted db = by_key (λ t. t.id) wanted db.transactions

abbrev pub stored_items : Option Transaction → List TransactionItem
stored_items none = []
stored_items (some t) = t.items

-- `save`: the items of a transaction are rows of their own, which stay.
unfoldable pub put_transaction : Transaction → Store → Store
unfolding merge find_transaction
put_transaction t db =
    let row = record t { items = stored_items (find_transaction t.id db) } in
    record db { transactions = merge (λ x. x.id) row db.transactions }

-- `save_with_items`
unfoldable pub put_transaction_with_items : Transaction → List TransactionItem → Store → Store
unfolding merge
put_transaction_with_items t items db = record db {
  transactions = merge (λ x. x.id) (record t { items = items }) db.transactions;
}

-- `get_by_user_id` of the wallets
unfoldable pub find_wallet_of : ℕ → Store → Option Wallet
find_wallet_of user db = find_by (λ w. w.user_id == user) db.wallets

unfoldable pub put_wallet : Wallet → Store → Store
unfolding merge
put_wallet w db = record db { wallets = merge (λ x. x.id) w db.wallets }

-- `get_by_item_id`
unfoldable pub find_deposit_of_item : ℕ → Store → Option PrincipalDeposit
find_deposit_of_item item db = find_by (λ d. d.transaction_item_id == item) db.deposits

unfoldable pub put_deposit : PrincipalDeposit → Store → Store
unfolding merge
put_deposit d db = record db { deposits = merge (λ x. x.id) d db.deposits }

-- `get_by_id(plan_id, include_deleted=True)`
unfoldable pub find_plan : ℕ → Store → Option Plan
unfolding by_key
find_plan wanted db = by_key (λ p. p.id) wanted db.plans

-- `get_by_id(plan_id)`: a plan that was not deleted
unfoldable pub find_live_plan : ℕ → Store → Option Plan
find_live_plan wanted db = find_by (λ p. p.id == wanted && not (is_some p.deleted_at)) db.plans

unfoldable pub find_user : ℕ → Store → Option User
unfolding by_key
find_user wanted db = by_key (λ u. u.id) wanted db.users

unfoldable pub put_plan : Plan → Store → Store
unfolding merge
put_plan p db = record db { plans = merge (λ x. x.id) p db.plans }

unfoldable pub find_contract : ℕ → Store → Option Contract
unfolding by_key
find_contract wanted db = by_key (λ c. c.id) wanted db.contracts

unfoldable pub put_contract : Contract → Store → Store
unfolding merge
put_contract c db = record db { contracts = merge (λ x. x.id) c db.contracts }

unfoldable pub put_user : User → Store → Store
unfolding merge
put_user u db = record db { users = merge (λ x. x.id) u db.users }

abbrev pub has_cpf : Cpf → Option Cpf → Bool
has_cpf cpf none = false
has_cpf cpf (some other) = same_text other.value cpf.value

unfoldable pub find_user_by_email : Email → Store → Option User
find_user_by_email email db = find_by (λ u. same_text u.email.value email.value) db.users

unfoldable pub find_user_by_cpf : Cpf → Store → Option User
find_user_by_cpf cpf db = find_by (λ u. has_cpf cpf u.cpf) db.users

unfoldable pub find_token_by_hash : Text → Store → Option UserToken
find_token_by_hash hash db = find_by (λ t. same_text t.token_hash hash) db.tokens

unfoldable pub put_token : UserToken → Store → Store
unfolding merge
put_token t db = record db { tokens = merge (λ x. x.id) t db.tokens }

unfoldable pub put_audit : AuditLog → Store → Store
put_audit a db = record db { audits = a ∷ db.audits }

unfoldable pub put_notification : Notification → Store → Store
put_notification n db = record db { notifications = n ∷ db.notifications }

abbrev pub type_code : TransactionType → ℕ
type_code deposit = 0
type_code withdrawal = 1
type_code yield_credit = 2
type_code fee = 3
type_code fundo_garantidor = 4
type_code subscription_installment_payment = 5
type_code subscription_activation_payment = 6

abbrev pub same_type : TransactionType → TransactionType → Bool
same_type a b = type_code a == type_code b

abbrev pub pays_for : ℕ → Transaction → Bool
pays_for subscription t = any_by (λ i. i.subscription_id == subscription) t.items

-- `get_pending_for_subscription`
unfoldable pub pending_for_subscription : ℕ → TransactionType → Store → List Transaction
pending_for_subscription subscription kind db =
    filter_by
      (λ t.
        pays_for subscription t
        && (same_type t.transaction_type kind && is_pending_status t.status))
      db.transactions
