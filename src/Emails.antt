-- ===== src/Emails.antt =====
-- app/domain/value_objects/email.py. The pattern of an address is read by hand: the part before the
-- first `@`, and the parts before and after the last point behind it, since the characters of the
-- parts leave no other split.
use blanco_financas_api.Prelude.{
  ℕ, ◌+◌, leb, ◌==◌, if◌then◌else◌, Bool, true, false, ◌&&◌, ◌||◌, Option, none, some, [], ◌∷◌,
  length, map, Text,
}
use blanco_financas_api.Errors.{Result, ok, err, invalid_email}

pub record Email : Type 0 where
  pub value : Text

abbrev pub is_upper : ℕ → Bool
is_upper c = leb b'A' c && leb c b'Z'

abbrev pub is_alpha : ℕ → Bool
is_alpha c = is_upper c || (leb b'a' c && leb c b'z')

abbrev is_alnum : ℕ → Bool
is_alnum c = is_alpha c || (leb b'0' c && leb c b'9')

-- `[a-zA-Z0-9._%+-]` and `[a-zA-Z0-9.-]`
abbrev pub is_local : ℕ → Bool
is_local c = is_alnum c || (c == b'.' || (c == b'_' || (c == b'%' || (c == b'+' || c == b'-'))))

abbrev pub is_domain : ℕ → Bool
is_domain c = is_alnum c || (c == b'.' || c == b'-')

abbrev pub all_by : (ℕ → Bool) → Text → Bool
all_by p [] = true
all_by p (c ∷ cs) = p c && all_by p cs

abbrev non_empty : Text → Bool
non_empty [] = false
non_empty (c ∷ cs) = true

abbrev put_before : ℕ → Option (Text × Text) → Option (Text × Text)
put_before c none = none
put_before c (some (a, b)) = some (c ∷ a, b)

-- The parts before and after the first, or the last, occurrence of a character.
abbrev pub split_first : ℕ → Text → Option (Text × Text)
split_first wanted [] = none
split_first wanted (c ∷ cs) =
    let rest = split_first wanted cs in if c == wanted then some ([], cs) else put_before c rest

abbrev pub or_split : ℕ → ℕ → Text → Option (Text × Text) → Option (Text × Text)
or_split wanted c cs none = if c == wanted then some ([], cs) else none
or_split wanted c cs (some (a, b)) = some (c ∷ a, b)

abbrev pub split_last : ℕ → Text → Option (Text × Text)
split_last wanted [] = none
split_last wanted (c ∷ cs) = or_split wanted c cs (split_last wanted cs)

-- `[a-zA-Z0-9.-]+\.[a-zA-Z]{2,}`
abbrev pub is_host : Option (Text × Text) → Bool
is_host none = false
is_host (some (name, top)) =
    non_empty name && (all_by is_domain name && (leb 2 (length top) && all_by is_alpha top))

abbrev pub is_address : Option (Text × Text) → Bool
is_address none = false
is_address (some (local, host)) =
    non_empty local && (all_by is_local local && is_host (split_last b'.' host))

-- The `$` of the pattern lets one newline stand at the end, which `strip` removes; no other white
-- space passes the pattern.
abbrev pub without_newline : Text → Text
without_newline [] = []
without_newline (c ∷ []) = if c == 10 then [] else c ∷ []
without_newline (c ∷ d ∷ cs) = c ∷ without_newline (d ∷ cs)

unfoldable pub matches : Text → Bool
matches value = is_address (split_first b'@' (without_newline value))

abbrev pub lower : ℕ → ℕ
lower c = if is_upper c then c + 32 else c

-- `Email(value)`
unfoldable pub make_email : Text → Result Email
unfolding matches
make_email value =
    if matches value
    then ok (record { value = map lower (without_newline value) })
    else err invalid_email
