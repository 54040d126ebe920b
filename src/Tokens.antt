-- ===== src/Tokens.antt =====
-- app/domain/entities/user_token.py. A moment is a number of microseconds.
use blanco_financas_api.Prelude.{
  ℕ, ◌+◌, ◌*◌, ltb, Bool, not, ◌&&◌, Option, none, some, is_some, Text,
}
use blanco_financas_api.Errors.{Result, ok, ◌>>◌, raise_if, value_error}

pub data TokenType : Type 0 where
  activation password_reset : TokenType

pub record UserToken : Type 0 where
  pub id : ℕ
  pub user_id : ℕ
  pub token_hash : Text
  pub token_type : TokenType
  pub expires_at : ℕ
  pub used_at : Option ℕ
  pub created_at : ℕ

abbrev pub microseconds_per_hour : ℕ
microseconds_per_hour = 3_600_000_000

unfoldable pub create_token : ℕ → ℕ → Text → TokenType → ℕ → ℕ → UserToken
create_token new_id user_id token_hash token_type expires_in_hours now = record {
  id = new_id;
  user_id = user_id;
  token_hash = token_hash;
  token_type = token_type;
  expires_at = now + expires_in_hours * microseconds_per_hour;
  used_at = none;
  created_at = now;
}

abbrev pub is_expired : ℕ → UserToken → Bool
is_expired now t = ltb t.expires_at now

abbrev pub is_used : UserToken → Bool
is_used t = is_some t.used_at

unfoldable pub is_valid_token : ℕ → UserToken → Bool
is_valid_token now t = not (is_expired now t) && not (is_used t)

unfoldable pub mark_as_used : ℕ → UserToken → Result UserToken
mark_as_used now t = do raise_if (is_used t) value_error; ok (record t { used_at = some now })
