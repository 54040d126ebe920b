-- ===== src/Users.antt =====
-- app/domain/entities/user.py.
use blanco_financas_api.Prelude.{ℕ, Bool, true, false, not, Option, some, String, Text}
use blanco_financas_api.Errors.{Result, ok, ◌>>◌, raise_if, value_error}
use blanco_financas_api.Cpf.{Cpf}
use blanco_financas_api.Emails.{Email}

pub data UserRole : Type 0 where
  client admin : UserRole

pub data UserStatus : Type 0 where
  registered active inactive defaulting : UserStatus

pub record User : Type 0 where
  pub id : ℕ
  pub cpf : Option Cpf
  pub email : Email
  pub name : String
  pub password_hash : Option Text
  pub role : UserRole
  pub status : UserStatus
  pub phone : Option Text
  pub nickname : Option String
  pub plan_id : Option ℕ
  pub created_at : ℕ
  pub updated_at : ℕ

-- The arguments of `create` and `create_registered`.
pub record NewUser : Type 0 where
  pub cpf : Cpf
  pub email : Email
  pub name : String
  pub password_hash : Text
  pub role : UserRole
  pub phone : Option Text
  pub nickname : Option String
  pub plan_id : Option ℕ

abbrev with_status : UserStatus → ℕ → NewUser → ℕ → User
with_status status new_id n now = record {
  id = new_id;
  cpf = some n.cpf;
  email = n.email;
  name = n.name;
  password_hash = some n.password_hash;
  role = n.role;
  status = status;
  phone = n.phone;
  nickname = n.nickname;
  plan_id = n.plan_id;
  created_at = now;
  updated_at = now;
}

unfoldable pub create_user : ℕ → NewUser → ℕ → User
create_user new_id n now = with_status active new_id n now

unfoldable pub create_registered : ℕ → NewUser → ℕ → User
create_registered new_id n now = with_status registered new_id n now

unfoldable pub is_admin : User → Bool
is_admin u = elim u.role [ admin ↦ true | client ↦ false ]

unfoldable pub is_active : User → Bool
is_active u = elim u.status [
  | active ↦ true
  | registered ↦ false
  | inactive ↦ false
  | defaulting ↦ false
]

unfoldable pub is_registered : User → Bool
is_registered u = elim u.status [
  | registered ↦ true
  | active ↦ false
  | inactive ↦ false
  | defaulting ↦ false
]

unfoldable pub activate : ℕ → User → User
activate now u = record u { status = active; updated_at = now }

unfoldable pub complete_activation : ℕ → User → Result User
unfolding is_registered
complete_activation now u = do
  raise_if (not (is_registered u)) value_error
  ok (record u { status = active; updated_at = now })

unfoldable pub deactivate : ℕ → User → User
deactivate now u = record u { status = inactive; updated_at = now }

unfoldable pub mark_as_defaulting : ℕ → User → User
mark_as_defaulting now u = record u { status = defaulting; updated_at = now }

unfoldable pub update_email : Email → ℕ → User → User
update_email email now u = record u { email = email; updated_at = now }

unfoldable pub update_phone : Text → ℕ → User → User
update_phone phone now u = record u { phone = some phone; updated_at = now }

unfoldable pub update_password : Text → ℕ → User → User
update_password password_hash now u = record u {
  password_hash = some password_hash;
  updated_at = now;
}

unfoldable pub update_nickname : String → ℕ → User → User
update_nickname nickname now u = record u { nickname = some nickname; updated_at = now }

unfoldable pub set_cpf : Cpf → ℕ → User → User
set_cpf cpf now u = record u { cpf = some cpf; updated_at = now }
