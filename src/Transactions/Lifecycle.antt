-- ===== src/Transactions/Lifecycle.antt =====
-- A transaction under any sequence of calls of its methods.
use blanco_financas_api.Prelude.{
  ℕ, ◌≡◌, refl, arith, Bool, true, false, Option, String, List, [], ◌∷◌, not,
}
use blanco_financas_api.Errors.{Result, ok, err}
use blanco_financas_api.Transactions.{
  Transaction, is_pending_status, confirm, confirm_payment_of, expire, cancel, reject_with_reason,
  fail,
}

-- A call of a method that changes a transaction.
pub data Call : Type 0 where
  confirming : Option String → Call
  confirming_payment : String → Call
  expiring : Call
  cancelling : Call
  rejecting : String → Call
  failing : Call

abbrev pub without_flag : Result (Transaction × Bool) → Result Transaction
without_flag (ok (t, changed)) = ok t
without_flag (err e) = err e

pub perform : Call → ℕ → Transaction → Result Transaction
perform (confirming pix_id) now t = confirm pix_id now t
perform (confirming_payment pix_id) now t = without_flag (confirm_payment_of pix_id now t)
perform expiring now t = expire now t
perform cancelling now t = cancel now t
perform (rejecting reason) now t = reject_with_reason reason now t
perform failing now t = fail now t

abbrev or_unchanged : Result Transaction → Transaction → Transaction
or_unchanged (ok t') t = t'
or_unchanged (err e) t = t

-- A call that raises is skipped.
pub perform_all : List Call → ℕ → Transaction → Transaction
perform_all [] now t = t
perform_all (c ∷ cs) now t = perform_all cs now (or_unchanged (perform c now t) t)

settled_unchanged :
    (c : Call) (now : ℕ) (t : Transaction)
    → is_pending_status t.status ≡ false
    → or_unchanged (perform c now t) t ≡ t
unfolding perform confirm confirm_payment_of expire cancel reject_with_reason fail
settled_unchanged c now t h = ground arith

-- Once a transaction is no longer pending, no sequence of method calls changes any of its fields.
pub perform_all_settled :
    (cs : List Call) (now : ℕ) (t : Transaction)
    → is_pending_status t.status ≡ false
    → perform_all cs now t ≡ t
unfolding perform_all
perform_all_settled [] now t h = refl
perform_all_settled (c ∷ cs) now t h =
    rw (settled_unchanged c now t h) (perform_all_settled cs now t h)

abbrev settles : Result Transaction → Bool
settles (ok t) = not (is_pending_status t.status)
settles (err e) = false

pending_settles :
    (c : Call) (now : ℕ) (t : Transaction)
    → is_pending_status t.status ≡ true
    → settles (perform c now t) ≡ true
unfolding perform confirm confirm_payment_of expire cancel reject_with_reason fail
pending_settles c now t h = ground arith

settles-ok :
    (r : Result Transaction) (t : Transaction)
    → settles r ≡ true
    → (r ≡ ok (or_unchanged r t)) × (is_pending_status (or_unchanged r t).status ≡ false)
settles-ok r t h = ground arith

-- The first method called on a pending transaction succeeds and settles it for good: the
-- transaction is no longer pending, and no later call changes any of its fields.
pub first_call_settles :
    (c : Call) (cs : List Call) (now : ℕ) (t : Transaction)
    → is_pending_status t.status ≡ true
    → (t' : Transaction) × (perform c now t ≡ ok t')
      × (is_pending_status t'.status ≡ false)
      × (perform_all (c ∷ cs) now t ≡ t')
unfolding perform_all
first_call_settles c cs now t h =
    let t' : Transaction = or_unchanged (perform c now t) t in
    let (done, settled) = settles-ok (perform c now t) t (pending_settles c now t h) in
    (t', done, settled, perform_all_settled cs now t' settled)
