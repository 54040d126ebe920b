-- ===== src/ContractService.antt =====
-- app/application/services/contract_service.py, but for the listing of a client's contracts. The
-- generator of the PDF file is a parameter: it answers the path, or raises.
use blanco_financas_api.Prelude.{
  List, ℕ, ◌==◌, if◌then◌else◌, ◌&&◌, Option, none, some, filter_by, String,
}
use blanco_financas_api.Errors.{
  Result, user_not_found, plan_not_found, contract_not_found, value_error,
}
use blanco_financas_api.Contracts.{Contract, Moment, accept, create_contract, is_active}
use blanco_financas_api.Plans.{Plan}
use blanco_financas_api.Users.{User}
use blanco_financas_api.Store.{
  find_contract, find_live_plan, find_user, put_contract, contract_created, contract_accepted,
}
use blanco_financas_api.Session.{Action, ◌>>=◌, ◌>>◌, fresh_id, gets, lift, modify, or_raise, pure}
use blanco_financas_api.Accounts.{sole}
use blanco_financas_api.Withdrawals.{log}

-- `not contract or contract.user_id != user_id`, negated
unfoldable pub contract_of : ℕ → Option Contract → Option Contract
contract_of user none = none
contract_of user (some c) = if c.user_id == user then some c else none

-- `create_contract` of the service
unfoldable pub open_contract : Moment → ℕ → ℕ → Action Contract
open_contract now user_id plan_id = do
  found ← gets (find_user user_id)
  user ← or_raise found user_not_found
  offered ← gets (find_live_plan plan_id)
  plan ← or_raise offered plan_not_found
  new_id ← fresh_id
  modify (put_contract (create_contract new_id user_id plan_id now.micros))
  log contract_created user.id new_id
  pure (create_contract new_id user_id plan_id now.micros)

unfoldable pub accept_contract :
    (User → Plan → ℕ → Result String) → Moment → ℕ → ℕ → Action Contract
unfolding contract_of
accept_contract generate now user_id contract_id = do
  found ← gets (find_contract contract_id)
  contract ← or_raise (contract_of user_id found) contract_not_found
  owner ← gets (find_user contract.user_id)
  offered ← gets (find_live_plan contract.plan_id)
  user ← or_raise owner value_error
  plan ← or_raise offered value_error
  pdf_path ← lift (generate user plan contract.id)
  accepted ← lift (accept pdf_path plan.min_duration_months now contract)
  modify (put_contract accepted)
  log contract_accepted user.id accepted.id
  pure accepted

unfoldable pub get_contract : ℕ → ℕ → Action Contract
unfolding contract_of
get_contract contract_id user_id = do
  found ← gets (find_contract contract_id)
  or_raise (contract_of user_id found) contract_not_found

-- `get_active_contract`, of the repository and of the service
unfoldable pub get_active_contract : ℕ → Action (Option Contract)
unfolding sole
get_active_contract user_id = do
  rows ← gets (λ db. filter_by (λ c. c.user_id == user_id && is_active c.status) db.contracts)
  lift (sole rows)

unfoldable pub get_user_contracts : ℕ → Action (List Contract)
get_user_contracts user_id = gets (λ db. filter_by (λ c. c.user_id == user_id) db.contracts)
