-- ===== src/Access.antt =====
-- Who may call the API: app/api/v1/dependencies.py. A refusal with 401 is `authentication`, one with
-- 403 `authorization`. What a token is decoded to, if it is valid and its subject an identifier, and
-- `str.lower` are parameters.
pub mod Admission
use blanco_financas_api.Prelude.{
  ℕ, if◌then◌else◌, Bool, true, false, not, ◌&&◌, Option, none, some, List, [], ◌∷◌, Text, codes,
  same_text,
}
use blanco_financas_api.Errors.{authentication, authorization}
use blanco_financas_api.Plans.{is_space}
use blanco_financas_api.Users.{User, is_active, is_registered, is_admin}
use blanco_financas_api.Store.{find_user}
use blanco_financas_api.Session.{Action, ◌>>=◌, ◌>>◌, gets, or_raise, pure, raise_if}

-- `text.split()`
abbrev ends_word : Text → Bool
ends_word [] = true
ends_word (c ∷ s) = is_space c

abbrev join_word : ℕ → Bool → List Text → List Text
join_word c true ws = (c ∷ []) ∷ ws
join_word c false [] = (c ∷ []) ∷ []
join_word c false (w ∷ ws) = (c ∷ w) ∷ ws

unfoldable pub words : Text → List Text
words [] = []
words (c ∷ s) = let rest = words s in if is_space c then rest else join_word c (ends_word s) rest

abbrev pub of_scheme : (Text → Text) → List Text → Option Text
of_scheme lower (scheme ∷ token ∷ []) =
    if same_text (lower scheme) (codes "bearer") then some token else none
of_scheme lower _ = none

-- The token of a header `Bearer token`.
unfoldable pub bearer_token : (Text → Text) → Text → Option Text
unfolding words
bearer_token lower header = of_scheme lower (words header)

abbrev pub is_empty_header : Text → Bool
is_empty_header [] = true
is_empty_header (c ∷ s) = false

module _ (decode : Text → Option ℕ) (lower : Text → Text) where
  unfoldable pub get_current_user : Option Text → Action User
  unfolding bearer_token
  get_current_user header = do
    authorization_header ← or_raise header authentication
    raise_if (is_empty_header authorization_header) authentication
    token ← or_raise (bearer_token lower authorization_header) authentication
    user_id ← or_raise (decode token) authentication
    found ← gets (find_user user_id)
    user ← or_raise found authentication
    raise_if (not (is_active user) && not (is_registered user)) authorization
    pure user

  unfoldable pub get_active_user : Option Text → Action User
  unfolding get_current_user
  get_active_user header = do
    user ← get_current_user header
    raise_if (not (is_active user)) authorization
    pure user

  unfoldable pub get_current_admin : Option Text → Action User
  unfolding get_active_user
  get_current_admin header = do
    user ← get_active_user header
    raise_if (not (is_admin user)) authorization
    pure user
