-- ===== src/SubscriptionService/Dashboard.antt =====
-- The due status of the dashboard, and the flags that it sets.
use mathlib.Core.Path.{ap₂}
use blanco_financas_api.Prelude.{
  All-sort_by, sort_by-All, ℕ, ◌≡◌, refl, ap, arith, ◌==◌, Bool, true, false, Bool-cases,
  Option-cases, inl, inr, String, some, List, [], ◌∷◌, filter_by, All, if◌then◌else◌, ◌&&◌, is_some,
  map,
}
use blanco_financas_api.Errors.{ok}
use blanco_financas_api.Calendar.{Date, ltb_date}
use blanco_financas_api.Subscriptions.{Subscription, is_active_status, mark_overdue}
use blanco_financas_api.Store.{Store, find_plan}
use blanco_financas_api.Store.SubscriptionQueries.{
  newly_overdue, flag_row, bulk_mark_overdue, active_due_or_overdue, due_before, due_by,
}
use blanco_financas_api.Session.{Session, done, Clock, ◌>>=◌, run_request, open_session}
use blanco_financas_api.InstallmentPayments.Creation.{is_empty, title_of}
use blanco_financas_api.SubscriptionService.{
  DashboardDueStatus, get_dashboard_due_status, partition_due, file_due,
}

-- What the flags should say of a row: the entity's own method marks the active subscriptions of the
-- client whose due date has passed.
abbrev pub overdue_for : ℕ → Date → Subscription → Bool
overdue_for user today s =
    s.user_id == user && (is_active_status s.status && due_before today s.next_due_date)

abbrev pub marked : ℕ → Date → ℕ → Subscription → Subscription
marked user today now s = if overdue_for user today s then (mark_overdue (some now) now s).0 else s

flag_row_lem :
    (user : ℕ) (today : Date) (now : ℕ) (s : Subscription)
    → flag_row user today now s ≡ marked user today now s
unfolding flag_row newly_overdue mark_overdue
flag_row_lem user today now s = ground arith

marked_again :
    (user : ℕ) (today : Date) (now now' : ℕ) (s : Subscription)
    → marked user today now' (marked user today now s) ≡ marked user today now s
unfolding mark_overdue
marked_again user today now now' s = ground arith

-- The selected rows have a due date.
selected_due :
    (user : ℕ) (today : Date) (xs : List Subscription)
    → All
        (λ s. is_some s.next_due_date ≡ true)
        (filter_by
          (λ s. s.user_id == user && (is_active_status s.status && due_by today s.next_due_date))
          xs)
selected_due user today [] = tt
selected_due user today (x ∷ xs) = ground (arith, selected_due user today xs)

active_due_or_overdue_due :
    (user : ℕ) (today : Date) (db : Store)
    → All (λ s. is_some s.next_due_date ≡ true) (active_due_or_overdue user today db)
unfolding active_due_or_overdue
active_due_or_overdue_due user today db =
    sort_by-All _ _ _ (selected_due user today db.subscriptions)

none_late_of :
    (today : Date) (x : Subscription) (title : String) (due : Date) (rest : DashboardDueStatus)
    → is_empty (file_due today x title due rest).overdue_plans ≡ true
    → (ltb_date due today ≡ false) × (is_empty rest.overdue_plans ≡ true)
unfolding file_due
none_late_of today x title due rest e = ground arith

-- The loop answers, changes nothing, and finds no overdue plan only where there is none.
partition_due_run :
    (today : Date) (ss : List Subscription) (s : Session)
    → All (λ x. is_some x.next_due_date ≡ true) ss
    → (status : DashboardDueStatus) × (partition_due today ss s ≡ done status s)
      × (is_empty status.overdue_plans ≡ true
          → All (λ x. due_before today x.next_due_date ≡ false) ss)
unfolding partition_due file_due
partition_due_run today [] s a =
    (record { overdue_plans = []; due_today_plans = [] }, refl, λ e. tt)
partition_due_run today (x ∷ xs) s a = elim (Option-cases x.next_due_date) [
  | inl n ↦ absurd (let k = rw n at a.0 in cc)
  | inr (due, f) ↦
      let (rest, ran, none_late) = partition_due_run today xs s a.1 in
      let title = title_of (find_plan x.plan_id s.current) in
      (
        file_due today x title due rest,
        rw (f, ◌>>=◌, ran) refl,
        λ e.
            let (on_time, none_left) = none_late_of today x title due rest e in
            (rw f on_time, none_late none_left),
      )
]

abbrev selected : ℕ → Date → Subscription → Bool
selected user today s =
    s.user_id == user && (is_active_status s.status && due_by today s.next_due_date)

not_selected :
    (user : ℕ) (today : Date) (s : Subscription)
    → selected user today s ≡ false
    → overdue_for user today s ≡ false
unfolding ltb_date
not_selected user today s h = ground arith

-- Where none of the selected rows is overdue, no row is marked.
unselected :
    (user : ℕ) (today : Date) (now : ℕ) (xs : List Subscription)
    → All
        (λ x. due_before today x.next_due_date ≡ false)
        (filter_by
          (λ s. s.user_id == user && (is_active_status s.status && due_by today s.next_due_date))
          xs)
    → map (marked user today now) xs ≡ xs
unselected user today now [] a = refl
unselected user today now (x ∷ xs) a = elim (Bool-cases (selected user today x)) [
  | inl chosen ↦
      let b : (due_before today x.next_due_date ≡ false) × All _ _ = rw chosen at a in
      let kept : overdue_for user today x ≡ false = ground arith in
      rw kept (ap (λ ys. x ∷ ys) (unselected user today now xs b.1))
  | inr passed ↦
      let kept = not_selected user today x passed in
      rw kept (ap (λ ys. x ∷ ys) (unselected user today now xs (rw passed at a)))
]

unmarked :
    (user : ℕ) (today : Date) (now : ℕ) (db : Store)
    → All (λ x. due_before today x.next_due_date ≡ false) (active_due_or_overdue user today db)
    → map (marked user today now) db.subscriptions ≡ db.subscriptions
unfolding active_due_or_overdue
unmarked user today now db a = unselected user today now db.subscriptions (All-sort_by _ _ _ a)

map-flag_row :
    (user : ℕ) (today : Date) (now : ℕ) (xs : List Subscription)
    → map (flag_row user today now) xs ≡ map (marked user today now) xs
map-flag_row user today now [] = refl
map-flag_row user today now (x ∷ xs) =
    ap₂ (λ y ys. y ∷ ys) (flag_row_lem user today now x) (map-flag_row user today now xs)

map_marked_again :
    (user : ℕ) (today : Date) (now now' : ℕ) (xs : List Subscription)
    → map (marked user today now') (map (marked user today now) xs) ≡ map (marked user today now) xs
map_marked_again user today now now' [] = refl
map_marked_again user today now now' (x ∷ xs) =
    ap₂ (λ y ys. y ∷ ys) (marked_again user today now now' x)
      (map_marked_again user today now now' xs)

-- The dashboard always answers. It leaves the store with the entity's `mark_overdue` applied to
-- exactly the client's active subscriptions whose due date has passed, whatever its own condition
-- on the bulk update says, and nothing else changed.
pub dashboard_marks_overdue :
    (clock : Clock) (user : ℕ) (db : Store) (next_id : ℕ)
    → (status : DashboardDueStatus) × (run_request (get_dashboard_due_status clock user) db next_id
        ≡ (
          ok status,
          record db { subscriptions = map (marked user clock.today clock.now) db.subscriptions },
        ))
unfolding run_request get_dashboard_due_status bulk_mark_overdue
dashboard_marks_overdue clock user db next_id =
    let (status, ran, none_late) =
      partition_due_run clock.today (active_due_or_overdue user clock.today db)
        (open_session db next_id) (active_due_or_overdue_due user clock.today db) in
    elim (Bool-cases (is_empty status.overdue_plans)) [
      | inl e ↦
          (status, rw (◌>>=◌, ran, e, unmarked user clock.today clock.now db (none_late e)) refl)
      | inr n ↦ (
        status,
        rw (◌>>=◌, ran, n, map-flag_row user clock.today clock.now db.subscriptions) refl,
      )
    ]

-- Later looks at the dashboard on the same day leave the store as the first did: what was marked
-- keeps the moment at which it was.
pub dashboard_marks_once :
    (clock clock' : Clock) (user : ℕ) (db : Store) (next_id next_id' : ℕ)
    → clock'.today ≡ clock.today
    → let after = (run_request (get_dashboard_due_status clock user) db next_id).1 in
      (run_request (get_dashboard_due_status clock' user) after next_id').1 ≡ after
dashboard_marks_once clock clock' user db next_id next_id' h =
    let (status, first) = dashboard_marks_overdue clock user db next_id in
    let marks = record db {
      subscriptions = map (marked user clock.today clock.now) db.subscriptions;
    } in
    let (status', second) = dashboard_marks_overdue clock' user marks next_id' in
    rw (first, second, h, map_marked_again user clock.today clock.now clock'.now db.subscriptions)
      refl
