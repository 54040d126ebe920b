-- ===== src/PixGateway.antt =====
-- app/infrastructure/payment/pix_gateway.py: the retries of a request to Mercado Pago, the amount
-- that an order asks for, and the reading of its answer. What an attempt of a request gives is a
-- parameter.
pub mod Retries
use blanco_financas_api.Prelude.{
  ℕ, zero, suc, ◌+◌, ◌-◌, ◌*◌, ◌^◌, ◌==◌, if◌then◌else◌, Bool, true, false, ◌||◌, not, Option, none,
  some, List, [], ◌∷◌, any_by, String, ℤ, pos, negsuc,
}
use blanco_financas_api.Errors.{Result}
use blanco_financas_api.Decimal.{Decimal, decimal, div_hundred, quantize}
use blanco_financas_api.PixPayments.{PixPayload}

-- What a request raises: a timeout, a status of 400 or more, or something else; `unreachable` is the
-- `RuntimeError` behind the loop.
pub data Failure : Type 0 where
  timed_out : Failure
  http_status : ℕ → Failure
  other : Failure
  unreachable : Failure

pub data Attempt (A : Type 0) : Type 0 where
  returned : A → Attempt A
  failed : Failure → Attempt A

-- `_RETRYABLE_STATUSES`
abbrev pub retryable_statuses : List ℕ
retryable_statuses = 408 ∷ 429 ∷ 500 ∷ 502 ∷ 503 ∷ 504 ∷ []

-- Whether the loop goes on after a failure, if it has attempts left.
unfoldable pub is_retryable : List ℕ → Failure → Bool
is_retryable statuses timed_out = true
is_retryable statuses (http_status code) = any_by (λ s. s == code) statuses
is_retryable statuses other = false
is_retryable statuses unreachable = false

-- How the loop ends, and the seconds that it slept before each further attempt.
pub record Run (A : Type 0) : Type 0 where
  pub outcome : Attempt A
  pub delays : List ℕ

module _ {A : Type 0} (attempt : ℕ → Attempt A) (max_attempts base_delay : ℕ)
    (statuses : List ℕ) where
  abbrev slept : ℕ → Run A → Run A
  slept n run = record { outcome = run.outcome; delays = base_delay * 2 ^ n ∷ run.delays }

  -- The rounds that are left, from the `n`-th on.
  unfoldable pub retry_from : ℕ → ℕ → Run A
  unfolding is_retryable
  retry_from n zero = record { outcome = failed unreachable; delays = [] }
  retry_from n (suc left) = elim (attempt n) [
    | returned a ↦ record { outcome = returned a; delays = [] }
    | failed f ↦
        if not (is_retryable statuses f) || n == max_attempts - 1
        then record { outcome = failed f; delays = [] }
        else slept n (retry_from (n + 1) left)
  ]

  -- `_with_retry`
  unfoldable pub with_retry : Run A
  unfolding retry_from
  with_retry = retry_from 0 max_attempts

-- `amount_str`, as a number
unfoldable pub amount_asked : ℕ → Result Decimal
amount_asked amount_cents = quantize 2 (div_hundred (decimal amount_cents 0))

-- The parts of an order that `_parse_order_response` reads. A missing list of payments is an empty
-- one.
pub record PaymentMethod : Type 0 where
  pub qr_code : Option String
  pub qr_code_base64 : Option String

pub record OrderResponse : Type 0 where
  pub id : String
  pub payments : List PaymentMethod

abbrev or_empty : Option String → String
or_empty none = ""
or_empty (some s) = s

-- `payments[0] if payments else {}`
abbrev first_payment : List PaymentMethod → PaymentMethod
first_payment [] = record { qr_code = none; qr_code_base64 = none }
first_payment (p ∷ ps) = p

unfoldable pub parse_order_response : OrderResponse → PixPayload
parse_order_response order = record {
  transaction_id = order.id;
  qr_code_data = or_empty (first_payment order.payments).qr_code;
  qr_code_base64 = (first_payment order.payments).qr_code_base64;
  expiration_minutes = 30;
}
