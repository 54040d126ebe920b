-- ===== src/Examples/Onboarding.antt =====
-- Registration and activation at concrete inputs.
use blanco_financas_api.Prelude.{
  filter_by, ◌⊎◌, ℕ, ◌-◌, ◌≡◌, refl, arith, if◌then◌else◌, leb, ◌&&◌, some, none, [], ◌∷◌, codes,
  same_text, Option,
}
use blanco_financas_api.Errors.{ok, err, invalid_cpf, invalid_token}
use blanco_financas_api.Cpf
use blanco_financas_api.Cpf.{Cpf, make_cpf, formatted, is_digit}
use blanco_financas_api.Cpf.CheckDigits.{make_cpf_accepts, IsCpf}
use blanco_financas_api.Cpf.Format.{make_cpf-formatted}
use blanco_financas_api.Emails
use blanco_financas_api.Emails.{Email, make_email}
use blanco_financas_api.Users
use blanco_financas_api.Users.{User, active}
use blanco_financas_api.Tokens
use blanco_financas_api.Store
use blanco_financas_api.Store.{Store, find_user}
use blanco_financas_api.Session.{run_request}
use blanco_financas_api.Accounts
use blanco_financas_api.Accounts.{
  Outside, RegisterUserInput, register_user, activate_account, registered_user,
}
use blanco_financas_api.Accounts.Activation.{register-activate, activate_account_once}
use blanco_financas_api.Examples.Data.{clock, later, db}

abbrev ascii_digit : ℕ → Option ℕ
ascii_digit c = if leb b'0' c && leb c b'9' then some (c - b'0') else none

abbrev world : Outside
world = record {
  digit_value = ascii_digit;
  hash_password = λ t. t;
  verify_password = same_text;
  sha256 = λ t. 35 ∷ t;
  send_transactional = λ e. ok tt;
}

abbrev joao_cpf : Cpf
joao_cpf = record { value = codes "52998224725" }

abbrev joao : RegisterUserInput
joao = record {
  name = "João";
  email = codes "Joao@Example.com";
  password = codes "segredo";
  cpf = codes "529.982.247-25";
  phone = codes "11999990000";
  nickname = none;
}

abbrev joao_user : User
joao_user = record {
  id = 100;
  cpf = some joao_cpf;
  email = record { value = codes "joao@example.com" };
  name = "João";
  password_hash = some (codes "segredo");
  role = Users.client;
  status = Users.registered;
  phone = some (codes "11999990000");
  nickname = none;
  plan_id = none;
  created_at = 1000;
  updated_at = 1000;
}

joao_cpf_ok : make_cpf ascii_digit (codes "529.982.247-25") ≡ ok joao_cpf
unfolding make_cpf Cpf.is_valid
joao_cpf_ok = refl

make_cpf_accepts_example :
    let cleaned = filter_by (is_digit ascii_digit) (codes "529.982.247-25") in
    (IsCpf ascii_digit cleaned
      × (make_cpf ascii_digit (codes "529.982.247-25") ≡ ok (record { value = cleaned })))
    ⊎ ((¬ IsCpf ascii_digit cleaned)
        × (make_cpf ascii_digit (codes "529.982.247-25") ≡ err invalid_cpf))
make_cpf_accepts_example = make_cpf_accepts ascii_digit (codes "529.982.247-25")

make_cpf-formatted_example : make_cpf ascii_digit (formatted joao_cpf) ≡ ok joao_cpf
make_cpf-formatted_example =
    make_cpf-formatted ascii_digit (codes "529.982.247-25") refl refl joao_cpf_ok

joao_email_ok : make_email (codes "Joao@Example.com") ≡ ok joao_user.email
unfolding make_email Emails.matches
joao_email_ok = refl

enrolled_joao : (run_request (register_user world clock (codes "abc") joao) db 100).0 ≡ ok joao_user
unfolding run_request register_user Accounts.enrol Accounts.issue_token make_email Emails.matches
    make_cpf Cpf.is_valid Store.find_user_by_email Store.find_user_by_cpf Users.create_registered
enrolled_joao = refl

abbrev active_joao : User
active_joao = record joao_user { status = active; updated_at = 9000 }

register-activate_example :
    ((run_request
        (activate_account world later (codes "abc"))
        (run_request (register_user world clock (codes "abc") joao) db 100).1
        200).0
      ≡ ok active_joao)
    × (find_user 100
          (run_request
            (activate_account world later (codes "abc"))
            (run_request (register_user world clock (codes "abc") joao) db 100).1
            200).1
        ≡ some active_joao)
unfolding Store.find_token_by_hash
register-activate_example =
    register-activate world clock later (codes "abc") joao db 100 200 refl (omega arith)
      enrolled_joao

-- A store in which João waits for his confirmation.
abbrev waiting_db : Store
waiting_db = record db {
  users = joao_user ∷ [];
  tokens =
      record {
        id = 102;
        user_id = 100;
        token_hash = 35 ∷ codes "abc";
        token_type = Tokens.activation;
        expires_at = 50_000;
        used_at = none;
        created_at = 1000;
      }
      ∷ [];
}

activate_account_once_example :
    run_request
      (activate_account world later (codes "abc"))
      (run_request (activate_account world later (codes "abc")) waiting_db 200).1
      300
    ≡ (
      err invalid_token,
      (run_request (activate_account world later (codes "abc")) waiting_db 200).1,
    )
unfolding run_request activate_account Store.find_token_by_hash Store.find_user Store.by_key
    Users.complete_activation Users.is_registered Tokens.is_valid_token Tokens.mark_as_used
activate_account_once_example =
    activate_account_once world later later (codes "abc") waiting_db 200 300 {u = active_joao}
      (tt, tt) refl
