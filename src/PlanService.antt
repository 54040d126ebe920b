-- ===== src/PlanService.antt =====
-- app/application/services/plan_service.py, and `get_all` of app/infrastructure/db/repositories/
-- plan_repository.py. Its results copy the plan's fields. How the database compares a title with a
-- search text is an argument.
pub mod Reach
use blanco_financas_api.Prelude.{
  ℕ, if◌then◌else◌, Bool, true, false, not, ◌&&◌, ◌||◌, Option, none, some, String, same_string,
  is_some, List, filter_by, sort_by, ltb,
}
use blanco_financas_api.Errors.{Result, ok, err, plan_not_found}
use blanco_financas_api.Plans
use blanco_financas_api.Plans.{Plan, PlanConfig, activate_plan, deactivate_plan, soft_delete}
use blanco_financas_api.Store.{
  Store, find_live_plan, put_plan, plan_created, plan_updated, plan_deleted,
}
use blanco_financas_api.Session.{
  Action, Clock, ◌>>=◌, ◌>>◌, commit, fresh_id, gets, lift, modify, or_raise, pure,
}
use blanco_financas_api.Withdrawals.{log}

unfoldable pub create_plan : Clock → PlanConfig → ℕ → Action Plan
create_plan clock config admin_id = do
  new_id ← fresh_id
  plan ← lift (Plans.create_plan new_id config clock.now)
  modify (put_plan plan)
  log plan_created admin_id plan.id
  commit
  pure plan

-- The plan that `Plan.update` leaves, or what it raises.
abbrev updated : Plan × Result (Unit {0}) → Result Plan
updated (p, ok u) = ok p
updated (p, err e) = err e

-- `if active and not plan.active: ... elif ...`
abbrev toggle : Bool → ℕ → Plan → Plan
toggle wanted now p =
    if wanted && not p.active
    then activate_plan now p
    else if not wanted && p.active
    then deactivate_plan now p
    else p

unfoldable pub update_plan : Clock → ℕ → PlanConfig → ℕ → Action Plan
update_plan clock plan_id config admin_id = do
  found ← gets (find_live_plan plan_id)
  plan ← or_raise found plan_not_found
  changed ← lift (updated (Plans.update_plan config clock.now plan))
  modify (put_plan (toggle config.active clock.now changed))
  log plan_updated admin_id changed.id
  commit
  pure (toggle config.active clock.now changed)

unfoldable pub get_plan : ℕ → Action Plan
get_plan plan_id = do found ← gets (find_live_plan plan_id); or_raise found plan_not_found

unfoldable pub delete_plan : Clock → ℕ → ℕ → Action Plan
delete_plan clock plan_id admin_id = do
  found ← gets (find_live_plan plan_id)
  plan ← or_raise found plan_not_found
  deleted ← lift (soft_delete clock.now plan)
  modify (put_plan deleted)
  log plan_deleted admin_id plan_id
  commit
  pure deleted

-- A filter that is not given lets everything pass.
abbrev passes : {A : Type 0} → (A → Bool) → Option A → Bool
passes test none = true
passes test (some a) = test a

abbrev same_bool : Bool → Bool → Bool
same_bool true b = b
same_bool false b = not b

abbrev pub is_blank_text : String → Bool
is_blank_text text = same_string text ""

-- `get_all` of the repository. An empty search text is none.
unfoldable pub all_plans :
    (String → String → Bool) → Option Bool → Option String → Bool → Store → List Plan
all_plans ilike active title_search include_deleted db =
    sort_by (λ a b. ltb b.created_at a.created_at)
      (filter_by
        (λ p.
          (include_deleted || not (is_some p.deleted_at))
          && (passes (same_bool p.active) active
              && passes (λ text. is_blank_text text || ilike p.title text) title_search))
        db.plans)

unfoldable pub list_plans : (String → String → Bool) → Option String → Action (List Plan)
unfolding all_plans
list_plans ilike title_search = gets (all_plans ilike none title_search false)
