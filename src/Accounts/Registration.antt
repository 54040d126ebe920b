-- ===== src/Accounts/Registration.antt =====
-- What a registration stores, and what it refuses.
use blanco_financas_api.Prelude.{
  ℕ, ◌+◌, ◌≡◌, refl, sym, ap, arith, true, Bool-cases, Option-cases, inl, inr, ◌⊎◌, some, is_some,
  Text, same_text, same_text_refl,
}
use blanco_financas_api.Errors.{Error, ok, err, ok_injective, Result-cases, user_already_exists}
use blanco_financas_api.Cpf.{Cpf, make_cpf}
use blanco_financas_api.Emails.{Email, make_email}
use blanco_financas_api.Users.{User}
use blanco_financas_api.Tokens.{UserToken, activation, create_token}
use blanco_financas_api.Wallets.{new_wallet}
use blanco_financas_api.Store.{
  AuditLog, has_cpf, Store, find_user_by_email, find_user_by_cpf, put_token, put_user, put_wallet,
  put_audit, user_registered,
}
use blanco_financas_api.Store.Tables.{find_by-merge_some}
use blanco_financas_api.Session.{Clock, run_request}
use blanco_financas_api.Accounts.{
  Outside, RegisterUserInput, register_user, enrol, registered_user, issue_token,
  activation_token_expiry_hours,
}

-- The log of an account's own action.
abbrev pub registration_log : ℕ → AuditLog
registration_log id = record { action = user_registered; actor_id = id; target_id = some id }

module _ (outside : Outside) where
  abbrev pub new_token : Clock → Text → ℕ → UserToken
  new_token clock raw n =
      create_token (n + 1 + 1) n (outside.sha256 raw) activation activation_token_expiry_hours
        clock.now

  -- The store after a registration.
  abbrev pub enrolled : Clock → Text → ℕ → User → Store → Store
  enrolled clock raw n u db = put_audit (registration_log n) (
      put_token (new_token clock raw n)
        (put_wallet (new_wallet (n + 1) n clock.now) (put_user u db)))

  -- What a registration that went through checked and stored.
  pub record Registered (clock : Clock) (raw : Text) (input : RegisterUserInput) (db : Store)
      (n : ℕ) (u : User) : Type 0 where
    pub email : Email
    pub cpf : Cpf
    pub email_ok : make_email input.email ≡ ok email
    pub cpf_ok : make_cpf outside.digit_value input.cpf ≡ ok cpf
    pub user_is : u ≡ registered_user outside input email cpf n clock.now
    pub after :
        (run_request (register_user outside clock raw input) db n).1 ≡ enrolled clock raw n u db

  pub register_user-Registered :
      (clock : Clock) (raw : Text) (input : RegisterUserInput) (db : Store) (n : ℕ) {u : User}
      → (run_request (register_user outside clock raw input) db n).0 ≡ ok u
      → Registered clock raw input db n u
  unfolding run_request register_user enrol issue_token find_user_by_email find_user_by_cpf
  register_user-Registered clock raw input db n {u} h =
      elim (Result-cases (make_email input.email)) [
        | inr (x, e) ↦ absurd (let k = rw e at h in cc)
        | inl (email, e) ↦ elim (Result-cases (make_cpf outside.digit_value input.cpf)) [
          | inr (x, c) ↦ absurd (let k = rw (e, c) at h in cc)
          | inl (cpf, c) ↦ elim (Option-cases (find_user_by_email email db)) [
            | inr (x, f) ↦ absurd (let k = rw (e, c, f) at h in cc)
            | inl f ↦ elim (Option-cases (find_user_by_cpf cpf db)) [
              | inr (x, g) ↦ absurd (let k = rw (e, c, f, g) at h in cc)
              | inl g ↦ elim (Result-cases (outside.send_transactional email)) [
                | inr (x, s) ↦ absurd (let k = rw (e, c, f, g, s) at h in cc)
                | inl (un, s) ↦
                    let k : ok (registered_user outside input email cpf n clock.now) ≡ ok u =
                      rw (e, c, f, g, s) at h in
                    let q = ok_injective k in
                    record {
                      email = email;
                      cpf = cpf;
                      email_ok = e;
                      cpf_ok = c;
                      user_is = sym q;
                      after = rw (e, c, f, g, s) (ap (λ x. enrolled clock raw n x db) q);
                    }
              ]
            ]
          ]
        ]
      ]

  email_taken :
      (clock : Clock) (raw : Text) (n : ℕ) (u : User) (db : Store) {email : Email}
      → u.email ≡ email
      → is_some (find_user_by_email email (enrolled clock raw n u db)) ≡ true
  unfolding find_user_by_email put_token put_audit put_wallet put_user
  email_taken clock raw n u db {email} h =
      find_by-merge_some (λ (x : User). x.id) (λ x. same_text x.email.value email.value) u db.users
        (rw h (same_text_refl email.value))

  cpf_taken :
      (clock : Clock) (raw : Text) (n : ℕ) (u : User) (db : Store) {cpf : Cpf}
      → u.cpf ≡ some cpf
      → is_some (find_user_by_cpf cpf (enrolled clock raw n u db)) ≡ true
  unfolding find_user_by_cpf put_token put_audit put_wallet put_user
  cpf_taken clock raw n u db {cpf} h =
      find_by-merge_some (λ (x : User). x.id) (λ x. has_cpf cpf x.cpf) u db.users
        (rw h (same_text_refl cpf.value))

  taken_refused :
      (clock : Clock) (raw : Text) (input : RegisterUserInput) (db : Store) (n : ℕ) {email : Email}
      {cpf : Cpf}
      → make_email input.email ≡ ok email
      → make_cpf outside.digit_value input.cpf ≡ ok cpf
      → (is_some (find_user_by_email email db) ≡ true) ⊎ (is_some (find_user_by_cpf cpf db) ≡ true)
      → run_request (register_user outside clock raw input) db n ≡ (err user_already_exists, db)
  unfolding run_request register_user
  taken_refused clock raw input db n {email} {cpf} e c (inl f) = rw (e, c, f) refl
  taken_refused clock raw input db n {email} {cpf} e c (inr g) =
      elim (Bool-cases (is_some (find_user_by_email email db))) [
        | inl f ↦ rw (e, c, f) refl
        | inr f ↦ rw (e, c, f, g) refl
      ]

  -- A registration that went through takes the address and the CPF: no later one with either of
  -- them goes through, and it changes nothing.
  pub register_user_taken :
      (clock later : Clock) (raw raw' : Text) (input input' : RegisterUserInput) (db : Store)
      (n m : ℕ) {u : User} {email : Email} {cpf : Cpf}
      → make_email input'.email ≡ ok email
      → make_cpf outside.digit_value input'.cpf ≡ ok cpf
      → (u.email ≡ email) ⊎ (u.cpf ≡ some cpf)
      → (run_request (register_user outside clock raw input) db n).0 ≡ ok u
      → let after = (run_request (register_user outside clock raw input) db n).1 in
        run_request (register_user outside later raw' input') after m
        ≡ (err user_already_exists, after)
  register_user_taken clock later raw raw' input input' db n m {u} {email} {cpf} e c same h =
      let r = register_user-Registered clock raw input db n h in
      let after = enrolled clock raw n u db in
      let taken : (is_some (find_user_by_email email after) ≡ true)
          ⊎ (is_some (find_user_by_cpf cpf after) ≡ true) =
        elim same [
          | inl q ↦ inl (email_taken clock raw n u db q)
          | inr q ↦ inr (cpf_taken clock raw n u db q)
        ] in
      rw r.after (taken_refused later raw' input' after m e c taken)

  -- A registration that raises, also where only the sending of the e-mail does, leaves the store as
  -- it was: no account, wallet or token.
  pub register_user_atomic :
      (clock : Clock) (raw : Text) (input : RegisterUserInput) (db : Store) (n : ℕ) {e : Error}
      → (run_request (register_user outside clock raw input) db n).0 ≡ err e
      → (run_request (register_user outside clock raw input) db n).1 ≡ db
  unfolding run_request register_user enrol issue_token
  register_user_atomic clock raw input db n {e} h = ground arith
