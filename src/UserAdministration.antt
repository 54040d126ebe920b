-- ===== src/UserAdministration.antt =====
-- `change_user_status` of app/api/v1/endpoints/admin.py. The request's status has been checked by its
-- schema; a 404 is `user_not_found`, a 403 `authorization`.
use blanco_financas_api.Prelude.{ℕ, Bool, true, false, not}
use blanco_financas_api.Errors.{user_not_found, authorization}
use blanco_financas_api.Users.{
  User, UserRole, client, admin, UserStatus, active, inactive, defaulting, registered, deactivate,
  mark_as_defaulting,
}
use blanco_financas_api.Users
use blanco_financas_api.Store.{find_user, put_user, user_status_changed}
use blanco_financas_api.Session.{Action, Clock, ◌>>=◌, ◌>>◌, gets, modify, or_raise, pure, raise_if}
use blanco_financas_api.Withdrawals.{log}

abbrev pub is_client : UserRole → Bool
is_client client = true
is_client admin = false

-- The branches on the new status: another one changes nothing.
unfoldable pub with_new_status : ℕ → UserStatus → User → User
unfolding Users.activate deactivate mark_as_defaulting
with_new_status now active u = Users.activate now u
with_new_status now inactive u = deactivate now u
with_new_status now defaulting u = mark_as_defaulting now u
with_new_status now registered u = u

unfoldable pub change_user_status : Clock → ℕ → ℕ → UserStatus → Action User
unfolding with_new_status
change_user_status clock admin_id user_id status = do
  found ← gets (find_user user_id)
  user ← or_raise found user_not_found
  raise_if (not (is_client user.role)) authorization
  modify (put_user (with_new_status clock.now status user))
  log user_status_changed admin_id user.id
  pure (with_new_status clock.now status user)
