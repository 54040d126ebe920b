-- ===== src/Accounts/Activation.antt =====
-- An account from its registration to its activation.
use mathlib.Core.Path.{subst}
use blanco_financas_api.Prelude.{
  ℕ, ◌*◌, ◌+◌, ◌≤◌, ◌≡◌, refl, ap, ◌∙◌, arith, true, false, Bool-cases, Option-cases, inl, inr,
  some, none, find_by-test, Text, same_text, same_text_refl,
}
use blanco_financas_api.Errors.{ok, err, invalid_token}
use blanco_financas_api.Cpf.{Cpf}
use blanco_financas_api.Emails.{Email}
use blanco_financas_api.Users.{User, active, create_registered, is_registered, complete_activation}
use blanco_financas_api.Tokens.{
  UserToken, create_token, is_valid_token, mark_as_used, microseconds_per_hour, is_used,
}
use blanco_financas_api.Store.{
  AuditLog, Store, find_user, find_token_by_hash, put_token, put_user, put_wallet, put_audit,
  user_activated,
}
use blanco_financas_api.Store.Tables.{Distinct, find_by-merge, find_by-merge-none, find_user-put}
use blanco_financas_api.Session.{Clock, run_request}
use blanco_financas_api.Accounts.{
  Outside, RegisterUserInput, register_user, registered_user, activate_account,
}
use blanco_financas_api.Accounts.Registration.{new_token, enrolled, register_user-Registered}

abbrev activation_log : ℕ → AuditLog
activation_log id = record { action = user_activated; actor_id = id; target_id = some id }

module _ (outside : Outside) where
  find_token-enrolled :
      (clock : Clock) (raw : Text) (n : ℕ) (u : User) (db : Store)
      → find_token_by_hash (outside.sha256 raw) db ≡ none
      → find_token_by_hash (outside.sha256 raw) (enrolled outside clock raw n u db)
        ≡ some (new_token outside clock raw n)
  unfolding find_token_by_hash put_token put_audit put_wallet put_user create_token
  find_token-enrolled clock raw n u db h =
      find_by-merge-none (λ (t : UserToken). t.id)
        (λ t. same_text t.token_hash (outside.sha256 raw)) (new_token outside clock raw n) db.tokens
        h (same_text_refl (outside.sha256 raw))

  find_user-enrolled :
      (clock : Clock) (raw : Text) (n : ℕ) (u : User) (db : Store)
      → find_user u.id (enrolled outside clock raw n u db) ≡ some u
  unfolding put_token put_audit put_wallet find_user
  find_user-enrolled clock raw n u db = find_user-put u db

  abbrev activated : ℕ → User → User
  activated now u = record u { status = active; updated_at = now }

  abbrev spent : ℕ → UserToken → UserToken
  spent now t = record t { used_at = some now }

  activate_account_run :
      (clock : Clock) (raw : Text) (db : Store) (n : ℕ) {t : UserToken} {u : User}
      → find_token_by_hash (outside.sha256 raw) db ≡ some t
      → is_valid_token clock.now t ≡ true
      → is_used t ≡ false
      → find_user t.user_id db ≡ some u
      → is_registered u ≡ true
      → run_request (activate_account outside clock raw) db n ≡ (
        ok (activated clock.now u),
        put_audit
            (activation_log u.id)
            (put_token (spent clock.now t) (put_user (activated clock.now u) db)),
      )
  unfolding run_request activate_account complete_activation mark_as_used
  activate_account_run clock raw db n f v w g r = rw (f, v, g, r, w) refl

  new_token_fresh :
      (clock later : Clock) (raw : Text) (n : ℕ)
      → later.now ≤ clock.now + 48 * microseconds_per_hour
      → (is_valid_token later.now (new_token outside clock raw n) ≡ true)
        × (is_used (new_token outside clock raw n) ≡ false)
        × ((new_token outside clock raw n).user_id ≡ n)
  unfolding is_valid_token create_token
  new_token_fresh clock later raw n h = (ground arith, refl, refl)

  registered_user_waits :
      (input : RegisterUserInput) (email : Email) (cpf : Cpf) (n now : ℕ)
      → (is_registered (registered_user outside input email cpf n now) ≡ true)
        × ((registered_user outside input email cpf n now).id ≡ n)
  unfolding is_registered create_registered
  registered_user_waits input email cpf n now = (refl, refl)

  -- Where a registration went through and no earlier token has the hash of its token, that token,
  -- used within 48 hours, activates the account: the answer is the registered user with an active
  -- status, and so is the stored one.
  pub register-activate :
      (clock later : Clock) (raw : Text) (input : RegisterUserInput) (db : Store) (n m : ℕ)
      {u : User}
      → find_token_by_hash (outside.sha256 raw) db ≡ none
      → later.now ≤ clock.now + 48 * microseconds_per_hour
      → (run_request (register_user outside clock raw input) db n).0 ≡ ok u
      → let after = (run_request (register_user outside clock raw input) db n).1 in
        let run = run_request (activate_account outside later raw) after m in
        (run.0 ≡ ok (activated later.now u)) × (find_user u.id run.1 ≡ some (activated later.now u))
  unfolding put_token put_audit find_user
  register-activate clock later raw input db n m {u} none_before in_time h =
      let r = register_user-Registered outside clock raw input db n h in
      let (fresh, unused, holder) = new_token_fresh clock later raw n in_time in
      let w = registered_user_waits input r.email r.cpf n clock.now in
      let waits : is_registered u ≡ true = rw r.user_is w.0 in
      let id_is : u.id ≡ n = rw r.user_is w.1 in
      let stored : find_user n (enrolled outside clock raw n u db) ≡ some u =
        subst (λ i. find_user i (enrolled outside clock raw n u db) ≡ some u) id_is
          (find_user-enrolled clock raw n u db) in
      let run =
        activate_account_run later raw (enrolled outside clock raw n u db) m
          (find_token-enrolled clock raw n u db none_before) fresh unused
          (ap (λ i. find_user i (enrolled outside clock raw n u db)) holder ∙ stored) waits in
      rw (r.after, run)
        (refl, find_user-put (activated later.now u) (enrolled outside clock raw n u db))

  valid_unused : (now : ℕ) (t : UserToken) → is_valid_token now t ≡ true → is_used t ≡ false
  unfolding is_valid_token
  valid_unused now t h = ground arith

  spent_invalid : (now later : ℕ) (t : UserToken) → is_valid_token later (spent now t) ≡ false
  unfolding is_valid_token
  spent_invalid now later t = ground arith

  -- What an activation that went through found.
  record Activated (clock : Clock) (raw : Text) (db : Store) : Type 0 where
    pub token : UserToken
    pub user : User
    pub token_found : find_token_by_hash (outside.sha256 raw) db ≡ some token
    pub token_valid : is_valid_token clock.now token ≡ true
    pub user_found : find_user token.user_id db ≡ some user
    pub user_waits : is_registered user ≡ true

  activate_account-Activated :
      (clock : Clock) (raw : Text) (db : Store) (n : ℕ) {u : User}
      → (run_request (activate_account outside clock raw) db n).0 ≡ ok u
      → Activated clock raw db
  unfolding run_request activate_account
  activate_account-Activated clock raw db n {u} h =
      elim (Option-cases (find_token_by_hash (outside.sha256 raw) db)) [
        | inl f ↦ absurd (let k = rw f at h in cc)
        | inr (t, f) ↦ elim (Bool-cases (is_valid_token clock.now t)) [
          | inr v ↦ absurd (let k = rw (f, v) at h in cc)
          | inl v ↦ elim (Option-cases (find_user t.user_id db)) [
            | inl g ↦ absurd (let k = rw (f, v, g) at h in cc)
            | inr (w, g) ↦ elim (Bool-cases (is_registered w)) [
              | inr r ↦ absurd (let k = rw (f, v, g, r) at h in cc)
              | inl r ↦ record {
                token = t;
                user = w;
                token_found = f;
                token_valid = v;
                user_found = g;
                user_waits = r;
              }
            ]
          ]
        ]
      ]

  spent_found :
      (now : ℕ) (raw : Text) (db : Store) (u : User) {t : UserToken}
      → Distinct (λ (x : UserToken). x.id) db.tokens
      → find_token_by_hash (outside.sha256 raw) db ≡ some t
      → find_token_by_hash (outside.sha256 raw) (
          put_audit (activation_log u.id) (put_token (spent now t) (put_user (activated now u) db)))
        ≡ some (spent now t)
  unfolding find_token_by_hash put_token put_audit put_user
  spent_found now raw db u {t} d f =
      let by_hash = λ (x : UserToken). same_text x.token_hash (outside.sha256 raw) in
      find_by-merge (λ (x : UserToken). x.id) by_hash (spent now t) db.tokens d f refl
        (find_by-test by_hash db.tokens f)

  refused :
      (clock : Clock) (raw : Text) (db : Store) (n : ℕ) {t : UserToken}
      → find_token_by_hash (outside.sha256 raw) db ≡ some t
      → is_valid_token clock.now t ≡ false
      → run_request (activate_account outside clock raw) db n ≡ (err invalid_token, db)
  unfolding run_request activate_account
  refused clock raw db n f v = rw (f, v) refl

  -- A token activates once: after an activation that went through, the same token is refused
  -- whenever it is used again, and nothing changes, where the tokens have identifiers of their own.
  pub activate_account_once :
      (clock later : Clock) (raw : Text) (db : Store) (n m : ℕ) {u : User}
      → Distinct (λ (t : UserToken). t.id) db.tokens
      → (run_request (activate_account outside clock raw) db n).0 ≡ ok u
      → let after = (run_request (activate_account outside clock raw) db n).1 in
        run_request (activate_account outside later raw) after m ≡ (err invalid_token, after)
  activate_account_once clock later raw db n m {u} d h =
      let a = activate_account-Activated clock raw db n h in
      let run =
        activate_account_run clock raw db n a.token_found a.token_valid
          (valid_unused clock.now a.token a.token_valid) a.user_found a.user_waits in
      rw run (
        refused later raw _ m (spent_found clock.now raw db a.user d a.token_found)
          (spent_invalid clock.now later.now a.token))
