-- ===== src/Webhooks/Signature.antt =====
-- The check of the signature of a notification, steps 0 and 1 of `mercadopago_webhook` in
-- app/api/v1/endpoints/admin.py. A text is a list of code points. What Python's Unicode tables and
-- `hmac` give are parameters, and so are the settings.
pub mod Header
use Prim.Native.Char.{code}
use blanco_financas_api.Prelude.{
  ℕ, zero, suc, ◌+◌, ◌*◌, ◌-◌, ltb, ◌==◌, if◌then◌else◌, Bool, true, false, ◌&&◌, ◌||◌, not, Option,
  none, some, List, [], ◌∷◌, String, ℤ, pos, negsuc, Text, codes, same_text, filter_by, map,
}
use mathlib.Core.List.{◌++◌, reverse}
use blanco_financas_api.Plans.{is_space}

-- `digest` is the hexadecimal HMAC-SHA256 of a text under the webhook's secret.
pub record Verifier : Type 0 where
  pub digest : Text → Text
  pub lower : Text → Text
  pub digit_value : ℕ → Option ℕ
  pub tolerance_seconds : ℕ
  pub is_development : Bool

-- `s.split(",")` and `s.partition("=")`, at the code of the character.
unfoldable pub split_at : ℕ → Text → List Text
split_at mark [] = [] ∷ []
split_at mark (c ∷ s) =
    let rest = split_at mark s in
    if c == mark then [] ∷ rest else elim rest [ [] ↦ (c ∷ []) ∷ [] | p ∷ ps ↦ (c ∷ p) ∷ ps ]

unfoldable pub partition_at : ℕ → Text → Text × Text
partition_at mark [] = ([], [])
partition_at mark (c ∷ s) =
    let rest = partition_at mark s in if c == mark then ([], s) else (c ∷ rest.0, rest.1)

unfoldable pub strip_start : Text → Text
strip_start [] = []
strip_start (c ∷ s) = let rest = strip_start s in if is_space c then rest else c ∷ s

-- `s.strip()`
unfoldable pub strip : Text → Text
unfolding strip_start
strip s = reverse (strip_start (reverse (strip_start s)))

-- The variables `ts` and `v1_hash`.
pub record SignatureParts : Type 0 where
  pub ts : Text
  pub v1_hash : Text

abbrev assign : Text × Text → SignatureParts → SignatureParts
assign (k, v) p =
    if same_text k (codes "ts")
    then record p { ts = v }
    else if same_text k (codes "v1")
    then record p { v1_hash = v }
    else p

-- The loop over the parts of the header.
abbrev assign_all : List Text → SignatureParts → SignatureParts
assign_all [] p = p
assign_all (part ∷ parts) p = assign_all parts (assign (partition_at b'=' (strip part)) p)

unfoldable pub parse_signature : Text → SignatureParts
unfolding split_at partition_at strip
parse_signature header = assign_all (split_at b',' header) (record { ts = []; v1_hash = [] })

-- The digits of `int(s)`: one at least, and an underscore only between two of them. `after` says
-- whether a digit came just before.
abbrev read_digits : (ℕ → Option ℕ) → Bool → ℕ → Text → Option ℕ
read_digits digit_value after n [] = if after then some n else none
read_digits digit_value after n (c ∷ s) = elim (after && c == b'_') [
  | true ↦ read_digits digit_value false n s
  | false ↦ elim (digit_value c) [
    | some d ↦ read_digits digit_value true (10 * n + d) s
    | none ↦ none
  ]
]

abbrev negated : Option ℕ → Option ℤ
negated none = none
negated (some zero) = some (pos 0)
negated (some (suc n)) = some (negsuc n)

abbrev unsigned : Option ℕ → Option ℤ
unsigned none = none
unsigned (some n) = some (pos n)

-- `int(s)`, where `none` stands for a `ValueError`. Python's limit on the number of digits is left
-- out.
unfoldable pub read_int : (ℕ → Option ℕ) → Text → Option ℤ
unfolding strip
read_int digit_value s = elim (strip s) [
  | [] ↦ none
  | c ∷ rest ↦
      if c == b'-'
      then negated (read_digits digit_value false 0 rest)
      else if c == b'+'
      then unsigned (read_digits digit_value false 0 rest)
      else unsigned (read_digits digit_value false 0 (c ∷ rest))
]

abbrev pub microseconds : ℕ
microseconds = 1000000

abbrev distance : ℕ → ℕ → ℕ
distance a b = (a - b) + (b - a)

-- `abs(now_seconds - ts_seconds) > tolerance`
unfoldable pub out_of_time : ℕ → ℕ → ℤ → Bool
out_of_time tolerance now (pos ts) =
    ltb (tolerance * microseconds) (distance now (ts * microseconds))
out_of_time tolerance now (negsuc n) = ltb (tolerance * microseconds) (now + (n + 1) * microseconds)

abbrev pub is_empty_text : Text → Bool
is_empty_text [] = true
is_empty_text (c ∷ s) = false

abbrev pub is_ascii : Text → Bool
is_ascii [] = true
is_ascii (c ∷ s) = ltb c 128 && is_ascii s

-- What the header amounts to. A comparison with a text that is not ASCII raises a `TypeError`.
pub data Verdict : Type 0 where
  missing malformed invalid_ts out_of_tolerance mismatch not_comparable : Verdict
  bypassed valid : Verdict

-- The headers `x-signature` and `x-request-id`, and the parameter `data.id`.
pub record Notice : Type 0 where
  pub x_signature : Text
  pub x_request_id : Text
  pub data_id : Option String

abbrev pub id_text : Option String → Text
id_text none = []
id_text (some s) = codes s

module _ (v : Verifier) where
  unfoldable pub manifest_of : Text → Text → Text → Text
  manifest_of data_id x_request_id ts =
      codes "id:"
      ++ (v.lower data_id
          ++ (codes ";request-id:" ++ (x_request_id ++ (codes ";ts:" ++ (ts ++ codes ";")))))

  unfoldable pub compare_digest : Text → Text → Verdict
  compare_digest expected v1_hash =
      if not (is_ascii v1_hash)
      then not_comparable
      else if same_text expected v1_hash
      then valid
      else if v.is_development
      then bypassed
      else mismatch

  unfoldable pub judge_parts : ℕ → Text → Text → SignatureParts → Verdict
  unfolding read_int out_of_time manifest_of compare_digest
  judge_parts now data_id x_request_id p =
      if is_empty_text p.ts || is_empty_text p.v1_hash
      then malformed
      else elim (read_int v.digit_value p.ts) [
        | none ↦ invalid_ts
        | some ts ↦
            if out_of_time v.tolerance_seconds now ts
            then out_of_tolerance
            else compare_digest (v.digest (manifest_of data_id x_request_id p.ts)) p.v1_hash
      ]

  unfoldable pub judge : ℕ → Notice → Verdict
  unfolding parse_signature judge_parts
  judge now notice =
      if is_empty_text notice.x_signature || is_empty_text (id_text notice.data_id)
      then missing
      else judge_parts now (id_text notice.data_id) notice.x_request_id
          (parse_signature notice.x_signature)

-- Whether the notification is worked on.
abbrev pub accepts : Verdict → Bool
accepts bypassed = true
accepts valid = true
accepts _ = false
