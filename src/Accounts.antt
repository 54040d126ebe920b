-- ===== src/Accounts.antt =====
-- Registration, activation and login: app/application/services/registration_service.py,
-- activation_service.py and authentication_service.py. The e-mail's texts and the access token are
-- left out. What comes from outside is a parameter: Python's table of digits, the hash functions,
-- the test of a password and the sending of an e-mail, which answers or raises. The random token is
-- an argument of the request that draws it.
pub mod Registration
pub mod Activation
use blanco_financas_api.Prelude.{
  ℕ, ◌==◌, ltb, if◌then◌else◌, Bool, true, false, not, ◌&&◌, ◌||◌, Option, none, some, is_some,
  List, [], ◌∷◌, filter_by, String, Text, same_text,
}
use blanco_financas_api.Errors.{
  Result, ok, err, user_already_exists, user_not_found, invalid_token, authentication, value_error,
  multiple_results,
}
use blanco_financas_api.Cpf.{Cpf, make_cpf}
use blanco_financas_api.Emails.{Email, make_email}
use blanco_financas_api.Users.{
  User, client, create_registered, is_admin, is_active, is_registered, complete_activation,
}
use blanco_financas_api.Tokens.{
  UserToken, TokenType, activation, password_reset, create_token, is_valid_token, is_used,
  mark_as_used,
}
use blanco_financas_api.Wallets.{new_wallet}
use blanco_financas_api.Store.{
  Store, find_user, find_user_by_email, find_user_by_cpf, find_token_by_hash, put_token, put_user,
  put_wallet, user_registered, user_activated, admin_login,
}
use blanco_financas_api.Session.{
  Action, Clock, ◌>>=◌, ◌>>◌, fresh_id, gets, lift, modify, or_raise, pure, raise_if,
}
use blanco_financas_api.Withdrawals.{log}

pub record RegisterUserInput : Type 0 where
  pub name : String
  pub email : Text
  pub password : Text
  pub cpf : Text
  pub phone : Text
  pub nickname : Option String

-- What the services call outside the repository.
pub record Outside : Type 0 where
  pub digit_value : ℕ → Option ℕ
  pub hash_password : Text → Text
  pub verify_password : Text → Text → Bool
  pub sha256 : Text → Text
  pub send_transactional : Email → Result (Unit {0})

-- `ACTIVATION_TOKEN_EXPIRY_HOURS`
abbrev pub activation_token_expiry_hours : ℕ
activation_token_expiry_hours = 48

abbrev is_activation : TokenType → Bool
is_activation activation = true
is_activation password_reset = false

-- The condition of `get_valid_activation_token_for_user`.
unfoldable pub is_open_for : ℕ → ℕ → UserToken → Bool
is_open_for now user t =
    t.user_id == user && (is_activation t.token_type && (not (is_used t) && ltb now t.expires_at))

-- `scalar_one_or_none` of its rows, which raises where there is more than one.
unfoldable pub sole : {A : Type 0} → List A → Result (Option A)
sole [] = ok none
sole (x ∷ []) = ok (some x)
sole (x ∷ y ∷ xs) = err multiple_results

module _ (outside : Outside) where
  -- A new activation token is saved.
  unfoldable pub issue_token : Clock → Text → ℕ → Action (Unit {0})
  issue_token clock raw_token user_id = do
    token_id ← fresh_id
    modify (
        put_token (
          create_token token_id user_id (outside.sha256 raw_token) activation
            activation_token_expiry_hours clock.now))

  -- The user as registration creates it.
  abbrev pub registered_user : RegisterUserInput → Email → Cpf → ℕ → ℕ → User
  registered_user input email cpf new_id now =
      create_registered new_id
        (record {
          cpf = cpf;
          email = email;
          name = input.name;
          password_hash = outside.hash_password input.password;
          role = client;
          phone = some input.phone;
          nickname = input.nickname;
          plan_id = none;
        })
        now

  -- From the creation of the user on.
  unfoldable pub enrol : Clock → Text → RegisterUserInput → Email → Cpf → Action User
  unfolding issue_token
  enrol clock raw_token input email cpf = do
    new_id ← fresh_id
    modify (put_user (registered_user input email cpf new_id clock.now))
    wallet_id ← fresh_id
    modify (put_wallet (new_wallet wallet_id new_id clock.now))
    issue_token clock raw_token new_id
    log user_registered new_id new_id
    lift (outside.send_transactional email)
    pure (registered_user input email cpf new_id clock.now)

  unfoldable pub register_user : Clock → Text → RegisterUserInput → Action User
  unfolding enrol
  register_user clock raw_token input = do
    email ← lift (make_email input.email)
    cpf ← lift (make_cpf outside.digit_value input.cpf)
    by_email ← gets (find_user_by_email email)
    raise_if (is_some by_email) user_already_exists
    by_cpf ← gets (find_user_by_cpf cpf)
    raise_if (is_some by_cpf) user_already_exists
    enrol clock raw_token input email cpf

  unfoldable pub activate_account : Clock → Text → Action User
  activate_account clock raw_token = do
    found ← gets (find_token_by_hash (outside.sha256 raw_token))
    token ← or_raise found invalid_token
    raise_if (not (is_valid_token clock.now token)) invalid_token
    holder ← gets (find_user token.user_id)
    user ← or_raise holder user_not_found
    raise_if (not (is_registered user)) invalid_token
    activated ← lift (complete_activation clock.now user)
    used ← lift (mark_as_used clock.now token)
    modify (put_user activated)
    modify (put_token used)
    log user_activated activated.id activated.id
    pure activated

  -- `if existing_token:`
  unfoldable pub retire : Clock → Option UserToken → Action (Unit {0})
  retire clock none = pure tt
  retire clock (some token) = do used ← lift (mark_as_used clock.now token); modify (put_token used)

  unfoldable pub resend_confirmation : Clock → Text → ℕ → Action (Unit {0})
  unfolding retire issue_token is_open_for sole
  resend_confirmation clock raw_token user_id = do
    found ← gets (find_user user_id)
    user ← or_raise found user_not_found
    raise_if (not (is_registered user)) value_error
    open_tokens ← gets (λ db. filter_by (is_open_for clock.now user_id) db.tokens)
    existing ← lift (sole open_tokens)
    retire clock existing
    issue_token clock raw_token user_id
    lift (outside.send_transactional user.email)

  abbrev accepts_password : Text → Option Text → Bool
  accepts_password password none = false
  accepts_password password (some password_hash) = outside.verify_password password password_hash

  -- `if user.is_admin():`
  unfoldable pub log_admin : User → Action (Unit {0})
  unfolding is_admin
  log_admin user = if is_admin user then log admin_login user.id user.id else pure tt

  -- `login`, but for the access token
  unfoldable pub login : Text → Text → Action User
  unfolding log_admin
  login address password = do
    email ← lift (make_email address)
    found ← gets (find_user_by_email email)
    user ← or_raise found authentication
    raise_if (not (accepts_password password user.password_hash)) authentication
    raise_if (not (is_active user) && not (is_registered user)) authentication
    log_admin user
    pure user
