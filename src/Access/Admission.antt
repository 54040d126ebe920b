-- ===== src/Access/Admission.antt =====
-- Whom the API admits after an administrator has changed the status of an account.
use mathlib.Core.Path.{subst}
use blanco_financas_api.Prelude.{
  ℕ, ◌≡◌, refl, ap, ◌∙◌, arith, ◌==◌, ==_iff, find_by-test, true, false, Option, some, Text,
}
use blanco_financas_api.Errors.{ok, err, authorization}
use blanco_financas_api.Users.{
  User, UserStatus, UserRole, client, admin, active, inactive, defaulting, is_active, is_registered,
  is_admin, deactivate, mark_as_defaulting,
}
use blanco_financas_api.Users
use blanco_financas_api.Store.{Store, by_key, find_user, put_user, put_audit}
use blanco_financas_api.Store.Tables.{find_user-put}
use blanco_financas_api.Session.{
  ◌>>=◌, Clock, Session, done, raised, run_request, open_session, close_session,
}
use blanco_financas_api.Access.{
  bearer_token, is_empty_header, get_current_user, get_active_user, get_current_admin,
}
use blanco_financas_api.UserAdministration.{is_client, with_new_status, change_user_status}

-- A request with a valid token of a user.
pub record Carries (decode : Text → Option ℕ) (lower : Text → Text) (header : Text) (id : ℕ)
    : Type 0 where
  pub given : is_empty_header header ≡ false
  pub token : Text
  pub read : bearer_token lower header ≡ some token
  pub decoded : decode token ≡ some id

find_user-id : (id : ℕ) (db : Store) {u : User} → find_user id db ≡ some u → u.id ≡ id
unfolding find_user by_key
find_user-id id db {u} h = (==_iff u.id id).0 (find_by-test (λ (x : User). x.id == id) db.users h)

with_new_status-id :
    (now : ℕ) (status : UserStatus) (u : User) → (with_new_status now status u).id ≡ u.id
unfolding with_new_status Users.activate deactivate mark_as_defaulting
with_new_status-id now status u = ground arith

-- The change of a client's status is stored.
change_user_status-stored :
    (clock : Clock) (admin_id id : ℕ) (status : UserStatus) (db : Store) (n : ℕ) {u : User}
    → find_user id db ≡ some u
    → u.role ≡ client
    → find_user id (run_request (change_user_status clock admin_id id status) db n).1
      ≡ some (with_new_status clock.now status u)
unfolding run_request change_user_status find_user put_audit
change_user_status-stored clock admin_id id status db n {u} h r =
    let changed = with_new_status clock.now status u in
    let same : changed.id ≡ id = with_new_status-id clock.now status u ∙ find_user-id id db h in
    let found : find_user id (put_user changed db) ≡ some changed =
      subst (λ i. find_user i (put_user changed db) ≡ some changed) same
        (find_user-put changed db) in
    let role : is_client u.role ≡ true = rw r refl in rw (h, role) found

module _ (decode : Text → Option ℕ) (lower : Text → Text) (header : Text) where
  user_done :
      (id : ℕ) (s : Session) {u : User}
      → Carries decode lower header id
      → find_user id s.current ≡ some u
      → is_active u ≡ true
      → get_current_user decode lower (some header) s ≡ done u s
  unfolding get_current_user
  user_done id s {u} c h a = rw (c.given, c.read, c.decoded, h, a) refl

  active_done :
      (id : ℕ) (s : Session) {u : User}
      → Carries decode lower header id
      → find_user id s.current ≡ some u
      → is_active u ≡ true
      → get_active_user decode lower (some header) s ≡ done u s
  unfolding get_active_user
  active_done id s {u} c h a = rw (◌>>=◌, user_done id s c h a, a) refl

  client_raised :
      (id : ℕ) (s : Session) {u : User}
      → Carries decode lower header id
      → find_user id s.current ≡ some u
      → is_active u ≡ true
      → is_admin u ≡ false
      → get_current_admin decode lower (some header) s ≡ raised authorization s
  unfolding get_current_admin
  client_raised id s {u} c h a r = rw (◌>>=◌, active_done id s c h a, r) refl

  barred_run :
      (id : ℕ) (db : Store) (n : ℕ) {u : User}
      → Carries decode lower header id
      → find_user id db ≡ some u
      → is_active u ≡ false
      → is_registered u ≡ false
      → run_request (get_current_user decode lower (some header)) db n ≡ (err authorization, db)
  unfolding get_current_user run_request
  barred_run id db n {u} c h a r = rw (c.given, c.read, c.decoded, h, a, r) refl

  -- After an administrator has made a client inactive or defaulting, a request with a valid token of
  -- the client is refused with 403; after they have made the client active it is admitted as one of
  -- an active user, but not as one of an administrator.
  pub changed_status_admits :
      (clock : Clock) (admin_id id : ℕ) (db : Store) (n n' : ℕ) {u : User}
      → find_user id db ≡ some u
      → u.role ≡ client
      → Carries decode lower header id
      → let after : UserStatus → Store =
          λ status. (run_request (change_user_status clock admin_id id status) db n).1 in
        let user = get_current_user decode lower (some header) in
        ((run_request user (after inactive) n').0 ≡ err authorization)
        × ((run_request user (after defaulting) n').0 ≡ err authorization)
        × ((run_request (get_active_user decode lower (some header)) (after active) n').0
            ≡ ok (Users.activate clock.now u))
        × ((run_request (get_current_admin decode lower (some header)) (after active) n').0
            ≡ err authorization)
  unfolding run_request with_new_status Users.activate deactivate mark_as_defaulting is_active
      is_registered is_admin
  changed_status_admits clock admin_id id db n n' {u} h r c = (
    ap (λ x. x.0)
        (barred_run id _ n' c (change_user_status-stored clock admin_id id inactive db n h r) refl
          refl),
    ap (λ x. x.0)
        (barred_run id _ n' c (change_user_status-stored clock admin_id id defaulting db n h r) refl
          refl),
    ap (λ o. (close_session o).0)
        (active_done id (open_session _ n') c
          (change_user_status-stored clock admin_id id active db n h r) refl),
    ap (λ o. (close_session o).0)
        (client_raised id (open_session _ n') c
          (change_user_status-stored clock admin_id id active db n h r) refl (rw r refl)),
  )
