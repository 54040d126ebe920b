-- ===== src/Transactions.antt =====
-- app/domain/entities/transaction.py and transaction_item.py.
pub mod Lifecycle
use blanco_financas_api.Prelude.{
  ℕ, ◌+◌, ◌*◌, leb, if◌then◌else◌, Bool, true, false, not, Option, none, some, List, [], String, ℤ,
  pos, ◌+ℤ◌, leb_ℤ,
}
use blanco_financas_api.Errors.{
  Result, ok, err, ◌>>=◌, ◌>>◌, raise_if, value_error, invalid_transaction_status,
}

pub data TransactionType : Type 0 where
  deposit withdrawal yield_credit fee fundo_garantidor : TransactionType
  subscription_installment_payment subscription_activation_payment : TransactionType

pub data TransactionStatus : Type 0 where
  pending confirmed cancelled failed expired : TransactionStatus

pub data InstallmentType : Type 0 where
  first subsequent : InstallmentType

abbrev pub is_pending_status : TransactionStatus → Bool
is_pending_status pending = true
is_pending_status _ = false

abbrev pub is_confirmed_status : TransactionStatus → Bool
is_confirmed_status confirmed = true
is_confirmed_status _ = false

pub record TransactionItem : Type 0 where
  pub id : ℕ
  pub transaction_id : ℕ
  pub subscription_id : ℕ
  pub subscription_name : String
  pub plan_title : String
  pub amount_cents : ℤ
  pub installment_number : Option ℕ

-- `TransactionItem.create`, with the check of `__post_init__`
unfoldable pub create_item : TransactionItem → Result TransactionItem
create_item i = do raise_if (leb_ℤ i.amount_cents (pos 0)) value_error; ok i

pub record Transaction : Type 0 where
  pub id : ℕ
  pub user_id : ℕ
  pub contract_id : Option ℕ
  pub subscription_id : Option ℕ
  pub transaction_type : TransactionType
  pub status : TransactionStatus
  pub amount_cents : ℤ
  pub installment_number : Option ℕ
  pub installment_type : Option InstallmentType
  pub pix_key : Option String
  pub pix_key_type : Option String
  pub pix_transaction_id : Option String
  pub bank_account : Option String
  pub description : Option String
  pub rejection_reason : Option String
  pub created_at : ℕ
  pub updated_at : ℕ
  pub confirmed_at : Option ℕ
  pub pix_qr_code_data : Option String
  pub pix_qr_code_base64 : Option String
  pub expiration_minutes : Option ℕ
  pub pix_transaction_fee_cents : ℤ
  pub admin_tax_cents : Option ℤ
  pub insurance_cents : Option ℤ
  pub items : List TransactionItem

-- What the factories have in common: a transaction with every optional field at its default.
abbrev blank : ℕ → ℕ → TransactionType → TransactionStatus → ℤ → ℕ → Transaction
blank new_id user_id kind status amount now = record {
  id = new_id;
  user_id = user_id;
  contract_id = none;
  subscription_id = none;
  transaction_type = kind;
  status = status;
  amount_cents = amount;
  installment_number = none;
  installment_type = none;
  pix_key = none;
  pix_key_type = none;
  pix_transaction_id = none;
  bank_account = none;
  description = none;
  rejection_reason = none;
  created_at = now;
  updated_at = now;
  confirmed_at = none;
  pix_qr_code_data = none;
  pix_qr_code_base64 = none;
  expiration_minutes = none;
  pix_transaction_fee_cents = pos 0;
  admin_tax_cents = none;
  insurance_cents = none;
  items = [];
}

unfoldable pub create_deposit :
    ℕ → ℕ → ℕ → ℤ → ℕ → InstallmentType → Option String → Option String → ℕ → Transaction
create_deposit new_id user_id contract_id amount_cents number kind pix_key description now =
    record (blank new_id user_id deposit pending amount_cents now) {
      contract_id = some contract_id;
      installment_number = some number;
      installment_type = some kind;
      pix_key = pix_key;
      description = description;
    }

-- The optional arguments of `create_withdrawal`.
pub record WithdrawalDetails : Type 0 where
  pub bank_account : String
  pub description : Option String
  pub pix_key : Option String
  pub pix_key_type : Option String
  pub subscription_id : Option ℕ

unfoldable pub create_withdrawal : ℕ → ℕ → ℤ → WithdrawalDetails → ℕ → Transaction
create_withdrawal new_id user_id amount_cents d now =
    record (blank new_id user_id withdrawal pending amount_cents now) {
      subscription_id = d.subscription_id;
      pix_key = d.pix_key;
      pix_key_type = d.pix_key_type;
      bank_account = some d.bank_account;
      description = d.description;
    }

-- Yields are confirmed from the start.
unfoldable pub create_yield : ℕ → ℕ → ℤ → String → Option ℕ → Option ℕ → ℕ → Transaction
create_yield new_id user_id amount_cents description contract_id subscription_id now =
    record (blank new_id user_id yield_credit confirmed amount_cents now) {
      contract_id = contract_id;
      subscription_id = subscription_id;
      description = some description;
      confirmed_at = some now;
    }

unfoldable pub create_fundo_garantidor : ℕ → ℕ → ℕ → ℤ → ℕ → String → ℕ → Transaction
create_fundo_garantidor new_id user_id contract_id amount_cents number description now =
    record (blank new_id user_id fundo_garantidor confirmed amount_cents now) {
      contract_id = some contract_id;
      installment_number = some number;
      description = some description;
      confirmed_at = some now;
    }

unfoldable pub create_installment_payment :
    ℕ → ℕ → ℤ → String → ℕ → ℤ → Option String → ℕ → Transaction
create_installment_payment new_id user_id total qr_code minutes pix_fee pix_id now =
    record (blank new_id user_id subscription_installment_payment pending total now) {
      pix_transaction_id = pix_id;
      pix_qr_code_data = some qr_code;
      expiration_minutes = some minutes;
      pix_transaction_fee_cents = pix_fee;
    }

unfoldable pub create_activation_payment :
    ℕ → ℕ → ℕ → ℤ → ℤ → ℤ → String → ℕ → Option String → ℕ → Transaction
create_activation_payment new_id user_id subscription_id admin_tax insurance pix_fee qr_code minutes
      pix_id now =
    record (blank new_id user_id subscription_activation_payment pending
      (admin_tax +ℤ insurance +ℤ pix_fee) now) {
        subscription_id = some subscription_id;
        pix_transaction_id = pix_id;
        pix_qr_code_data = some qr_code;
        expiration_minutes = some minutes;
        pix_transaction_fee_cents = pix_fee;
        admin_tax_cents = some admin_tax;
        insurance_cents = some insurance;
      }

-- `if text: field = text`, where an empty text does not count as given
abbrev or_kept : Option String → Option String → Option String
or_kept none kept = kept
or_kept (some String.[]) kept = kept
or_kept (some text) kept = some text

unfoldable pub confirm : Option String → ℕ → Transaction → Result Transaction
confirm pix_id now t = do
  raise_if (not (is_pending_status t.status)) invalid_transaction_status
  ok (record t {
    status = confirmed;
    confirmed_at = some now;
    updated_at = now;
    pix_transaction_id = or_kept pix_id t.pix_transaction_id;
  })

-- The transaction, and whether its status was changed.
unfoldable pub confirm_payment_of : String → ℕ → Transaction → Result (Transaction × Bool)
confirm_payment_of pix_id now t = if is_confirmed_status t.status then ok (t, false) else do
  raise_if (not (is_pending_status t.status)) value_error
  ok (
    record t {
      status = confirmed;
      pix_transaction_id = some pix_id;
      confirmed_at = some now;
      updated_at = now;
    },
    true,
  )

unfoldable pub expire : ℕ → Transaction → Result Transaction
expire now t = do
  raise_if (not (is_pending_status t.status)) value_error
  ok (record t { status = expired; updated_at = now })

abbrev pub microseconds_per_minute : ℕ
microseconds_per_minute = 60000000

unfoldable pub is_stale : ℕ → Transaction → Bool
is_stale now t =
    if is_pending_status t.status
    then elim t.expiration_minutes [
      | none ↦ false
      | some minutes ↦ leb (t.created_at + minutes * microseconds_per_minute) now
    ]
    else false

unfoldable pub cancel : ℕ → Transaction → Result Transaction
cancel now t = do
  raise_if (not (is_pending_status t.status)) invalid_transaction_status
  ok (record t { status = cancelled; updated_at = now })

unfoldable pub reject_with_reason : String → ℕ → Transaction → Result Transaction
unfolding cancel
reject_with_reason reason now t = cancel now (record t { rejection_reason = some reason })

unfoldable pub fail : ℕ → Transaction → Result Transaction
fail now t = do
  raise_if (not (is_pending_status t.status)) invalid_transaction_status
  ok (record t { status = failed; updated_at = now })
