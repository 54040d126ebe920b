-- ===== src/Subscriptions/Lifecycle.antt =====
-- A subscription under any sequence of calls of its methods, a call that raises leaving it as it
-- was.
use blanco_financas_api.Prelude.{ℕ, ◌≡◌, refl, arith, Bool, true, false, Option, List, [], ◌∷◌, All}
use mathlib.Core.Path.{subst}
use blanco_financas_api.Errors.{Result, ok, err, ok_injective}
use blanco_financas_api.Calendar.{Date}
use blanco_financas_api.Subscriptions.{
  Subscription, SubscriptionStatus, inactive, active, completed, cancelled, activate,
  set_deposit_day, mark_overdue, clear_overdue_and_advance, record_deposit_paid,
  cancel_subscription, complete_subscription, create_subscription, NewSubscription, is_allowed_day,
}
use blanco_financas_api.Subscriptions.Invariant.{
  IsSound, activate-IsSound, set_deposit_day-IsSound, mark_overdue-IsSound,
  clear_overdue_and_advance-IsSound, record_deposit_paid-IsSound, cancel_subscription-IsSound,
  complete_subscription-IsSound, create_subscription-IsSound,
}

-- A call of a method, with its arguments and the clock reading.
pub data Call : Type 0 where
  activating : ℕ → Date → ℕ → Call
  setting_day : ℕ → Date → ℕ → Call
  marking_overdue : Option ℕ → ℕ → Call
  clearing_overdue : ℕ → Call
  recording_deposit : ℕ → Call
  cancelling : ℕ → Call
  completing : ℕ → Call

unfoldable pub perform : Call → Subscription → Result Subscription
perform (activating day today now) s = activate day today now s
perform (setting_day day today now) s = set_deposit_day day today now s
perform (marking_overdue now_utc now) s = ok (mark_overdue now_utc now s).0
perform (clearing_overdue now) s = clear_overdue_and_advance now s
perform (recording_deposit now) s = record_deposit_paid now s
perform (cancelling now) s = cancel_subscription now s
perform (completing now) s = complete_subscription now s

abbrev or_unchanged : Result Subscription → Subscription → Subscription
or_unchanged (ok s') s = s'
or_unchanged (err e) s = s

-- `activate` takes any day, and only `set_deposit_day` looks whether it is an allowed one.
abbrev pub AllowsDay : Call → Type 0
AllowsDay (activating day today now) = is_allowed_day day ≡ true
AllowsDay _ = Unit

pub perform_all : List Call → Subscription → Subscription
perform_all [] s = s
perform_all (c ∷ cs) s = perform_all cs (or_unchanged (perform c s) s)

perform-IsSound :
    (c : Call) (s : Subscription) {s' : Subscription}
    → AllowsDay c
    → IsSound s
    → perform c s ≡ ok s'
    → IsSound s'
unfolding perform
perform-IsSound (activating day today now) s a v h = activate-IsSound day now today s v a h
perform-IsSound (setting_day day today now) s a v h = set_deposit_day-IsSound day now today s v h
perform-IsSound (marking_overdue now_utc now) s a v h =
    subst IsSound (ok_injective h) (mark_overdue-IsSound now_utc now s v)
perform-IsSound (clearing_overdue now) s a v h = clear_overdue_and_advance-IsSound now s v h
perform-IsSound (recording_deposit now) s a v h = record_deposit_paid-IsSound now s v h
perform-IsSound (cancelling now) s a v h = cancel_subscription-IsSound now s v h
perform-IsSound (completing now) s a v h = complete_subscription-IsSound now s v h

or_unchanged-IsSound :
    (r : Result Subscription) (s : Subscription)
    → IsSound s
    → ((s' : Subscription) → r ≡ ok s' → IsSound s')
    → IsSound (or_unchanged r s)
or_unchanged-IsSound (ok s') s v k = k s' refl
or_unchanged-IsSound (err e) s v k = v

perform_all-IsSound :
    (cs : List Call) (s : Subscription) → All AllowsDay cs → IsSound s → IsSound (perform_all cs s)
unfolding perform_all
perform_all-IsSound [] s a v = v
perform_all-IsSound (c ∷ cs) s a v =
    perform_all-IsSound cs (or_unchanged (perform c s) s) a.1
      (or_unchanged-IsSound (perform c s) s v (λ s' h. perform-IsSound c s a.0 v h))

-- Whatever methods are called on a subscription that was created, in whatever order and also where
-- some of them raise, if every activation is given one of the allowed days, which the method does
-- not look at itself: its amounts stay valid, its deposit day stays allowed, no more deposits are
-- paid than it has, none while it is inactive, an active one has a due date, and the overdue mark
-- is there exactly when the flag is set.
pub created-IsSound :
    (new_id now : ℕ) (n : NewSubscription) (cs : List Call) {s : Subscription}
    → All AllowsDay cs
    → create_subscription new_id n now ≡ ok s
    → IsSound (perform_all cs s)
created-IsSound new_id now n cs {s} a h =
    perform_all-IsSound cs s a (create_subscription-IsSound new_id now n h)

-- Which changes of status a method call can make.
abbrev pub may_move : SubscriptionStatus → SubscriptionStatus → Bool
may_move inactive completed = false
may_move inactive _ = true
may_move active inactive = false
may_move active _ = true
may_move completed completed = true
may_move completed _ = false
may_move cancelled cancelled = true
may_move cancelled _ = false

-- A method call changes the status of a subscription only from inactive to active, from active to
-- completed, and from these two to cancelled; completed and cancelled stay.
pub perform-may_move :
    (c : Call) (s : Subscription) {s' : Subscription}
    → perform c s ≡ ok s'
    → may_move s.status s'.status ≡ true
unfolding perform activate set_deposit_day mark_overdue clear_overdue_and_advance
    record_deposit_paid cancel_subscription complete_subscription
perform-may_move c s {s'} h = ground arith
