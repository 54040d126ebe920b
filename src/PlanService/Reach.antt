-- ===== src/PlanService/Reach.antt =====
-- What a deleted plan can still be reached by.
use blanco_financas_api.Prelude.{
  ℕ, ◌≡◌, refl, arith, ◌==◌, ==_iff, ==_refl, false, some, none, find_by-test, not, ◌&&◌, is_some,
}
use blanco_financas_api.Errors.{ok, err, plan_not_found}
use blanco_financas_api.Plans.{Plan, PlanConfig, soft_delete}
use blanco_financas_api.Store.{
  AuditLog, Store, find_live_plan, find_plan, put_plan, put_audit, plan_deleted,
}
use blanco_financas_api.Store.Tables.{Distinct, by_key-merge, find_by-merge-gone}
use blanco_financas_api.Session.{Clock, run_request}
use blanco_financas_api.SubscriptionService.{CreateSubscriptionInput, create_subscription}
use blanco_financas_api.PlanService.{get_plan, update_plan, delete_plan}

abbrev deletion_log : ℕ → ℕ → AuditLog
deletion_log admin_id plan_id = record {
  action = plan_deleted;
  actor_id = admin_id;
  target_id = some plan_id;
}

-- The plan as a deletion stores it.
abbrev removed : ℕ → Plan → Plan
removed now p = record p { deleted_at = some now; updated_at = now }

live_plan_fields :
    (plan_id : ℕ) (db : Store) {p : Plan}
    → find_live_plan plan_id db ≡ some p
    → (p.id ≡ plan_id) × (is_some p.deleted_at ≡ false)
unfolding find_live_plan
live_plan_fields plan_id db {p} h =
    let t = find_by-test (λ (x : Plan). x.id == plan_id && not (is_some x.deleted_at)) db.plans h in
    (ground (arith, ==_iff p.id plan_id), ground arith)

delete_plan_run :
    (clock : Clock) (plan_id admin_id : ℕ) (db : Store) (n : ℕ) {p : Plan}
    → find_live_plan plan_id db ≡ some p
    → is_some p.deleted_at ≡ false
    → run_request (delete_plan clock plan_id admin_id) db n ≡ (
      ok (removed clock.now p),
      put_audit (deletion_log admin_id plan_id) (put_plan (removed clock.now p) db),
    )
unfolding run_request delete_plan soft_delete
delete_plan_run clock plan_id admin_id db n f l = rw (f, l) refl

removed_gone :
    (now plan_id : ℕ) (a : AuditLog) (db : Store) (p : Plan)
    → Distinct (λ (x : Plan). x.id) db.plans
    → p.id ≡ plan_id
    → find_live_plan plan_id (put_audit a (put_plan (removed now p) db)) ≡ none
unfolding find_live_plan put_audit put_plan
removed_gone now plan_id a db p d e =
    find_by-merge-gone (λ (x : Plan). x.id) (λ x. not (is_some x.deleted_at)) plan_id
      (removed now p) db.plans d e refl

removed_kept :
    (now plan_id : ℕ) (a : AuditLog) (db : Store) (p : Plan)
    → p.id ≡ plan_id
    → find_plan plan_id (put_audit a (put_plan (removed now p) db)) ≡ some (removed now p)
unfolding find_plan put_audit put_plan
removed_kept now plan_id a db p e =
    rw (by_key-merge (λ (x : Plan). x.id) plan_id (removed now p) db.plans, e, ==_refl plan_id) refl

closed_requests :
    (clock : Clock) (plan_id admin_id : ℕ) (config : PlanConfig) (input : CreateSubscriptionInput)
    (db : Store) (n : ℕ)
    → find_live_plan plan_id db ≡ none
    → input.plan_id ≡ plan_id
    → (run_request (get_plan plan_id) db n ≡ (err plan_not_found, db))
      × (run_request (update_plan clock plan_id config admin_id) db n ≡ (err plan_not_found, db))
      × (run_request (delete_plan clock plan_id admin_id) db n ≡ (err plan_not_found, db))
      × (run_request (create_subscription clock input) db n ≡ (err plan_not_found, db))
unfolding run_request get_plan update_plan delete_plan create_subscription
closed_requests clock plan_id admin_id config input db n gone i =
    (rw gone refl, rw gone refl, rw gone refl, rw (i, gone) refl)

-- A plan that can be found is deleted by the request, where the plans have identifiers of their
-- own. From then on it is neither shown, nor updated, nor deleted again, and no subscription is
-- created from it: each request answers that there is no such plan and changes nothing. The
-- subscriptions that have it still find it.
pub delete_plan_closes :
    (clock later : Clock) (plan_id admin_id : ℕ) (config : PlanConfig)
    (input : CreateSubscriptionInput) (db : Store) (n m : ℕ) {p : Plan}
    → Distinct (λ (x : Plan). x.id) db.plans
    → find_live_plan plan_id db ≡ some p
    → input.plan_id ≡ plan_id
    → let run = run_request (delete_plan clock plan_id admin_id) db n in
      (run.0 ≡ ok (removed clock.now p))
      × (find_plan plan_id run.1 ≡ some (removed clock.now p))
      × (run_request (get_plan plan_id) run.1 m ≡ (err plan_not_found, run.1))
      × (run_request (update_plan later plan_id config admin_id) run.1 m
          ≡ (err plan_not_found, run.1))
      × (run_request (delete_plan later plan_id admin_id) run.1 m ≡ (err plan_not_found, run.1))
      × (run_request (create_subscription later input) run.1 m ≡ (err plan_not_found, run.1))
delete_plan_closes clock later plan_id admin_id config input db n m {p} d f i =
    let (own, live) = live_plan_fields plan_id db f in
    let after = put_audit (deletion_log admin_id plan_id) (put_plan (removed clock.now p) db) in
    let gone = removed_gone clock.now plan_id (deletion_log admin_id plan_id) db p d own in
    let (shown, changed, deleted, taken) =
      closed_requests later plan_id admin_id config input after m gone i in
    rw (delete_plan_run clock plan_id admin_id db n f live) (
      refl,
      removed_kept clock.now plan_id (deletion_log admin_id plan_id) db p own,
      shown,
      changed,
      deleted,
      taken,
    )
