-- ===== src/Lib.antt =====
-- The core of blancoFinancasApi: a client registers an account and confirms it by e-mail, subscribes to
-- a savings plan, pays an activation fee and then monthly installments by Pix; each installment is
-- split between an investment and a guarantee fund that a wallet keeps, a daily run credits the savings
-- yield of every deposit, and an administrator decides on withdrawals.
--
-- Parts and files, with the code that each models (paths from the repository's root):
-- - Prelude, Errors: shared names, tests, lists, signed integers; the exceptions of
--   app/domain/exceptions.py, and `Result` for code that may raise.
-- - Decimal, Money, Installments: `decimal.Decimal` as the code uses it, app/domain/value_objects/
--   money.py, app/domain/constants.py (`calculate_pix_fee`), and app/domain/services/
--   {fundo_garantidor_calculator,installment_calculator}.py.
-- - Calendar, DueDates: `datetime.date`, and app/domain/services/due_date_service.py.
-- - Subscriptions, Wallets, Transactions, Plans, Users, Tokens: app/domain/entities/{subscription,
--   wallet,transaction,transaction_item,plan,user,user_token}.py. A method that mutates the entity
--   returns the new one, or the exception; a method of the same name in two classes has its class in the name
--   (`cancel_subscription`, `activate_plan`), and `Transaction.confirm_payment` is
--   `confirm_payment_of`.
-- - Store, Session: one table for each entity, with the queries of app/infrastructure/db/repositories;
--   a request's session with `commit`, and app/infrastructure/db/session.py
--   (`run_request`). A service's method is an `Action` on the session.
-- - PixPayments, InstallmentPayments, ActivationPayments, Withdrawals: app/application/services/
--   {installment_payment_service,subscription_activation_payment_service,withdrawal_service}.py.
--   InstallmentPayments holds `confirm_payment`, its child Creation `create_payment`, its child Closure
--   `request_plan_withdrawal`, its children Listings and History what a client is shown; PixPayments
--   holds what both payment services share, Withdrawals.Listings what an administrator is shown.
-- - ExpirationScheduler, YieldScheduler: the jobs of app/infrastructure/scheduler/
--   {expiration_scheduler,yield_scheduler}.py, and jobs/process_yields.py.
-- - Notifications: app/application/services/notification_service.py and its repository.
-- - Access, UserAdministration, Finance, Routes: app/api/v1/dependencies.py, and of app/api/v1/endpoints
--   `change_user_status` and the finance queries of admin.py, and the handlers of subscriptions.py and
--   of the two decisions on a withdrawal with the codes that they answer.
-- - Recommendation: app/domain/services/plan_recommendation_service.py, the costs and the checks here,
--   the choice in its child Choice; SubscriptionService.Advice is the service's `recommend`.
-- - Yields, Bcb, YieldService: app/domain/services/poupanca_yield_calculator.py, the rates of the
--   Banco Central (app/infrastructure/bcb/client.py and their table), and process_all_yields of
--   app/application/services/yield_service.py; YieldService.ByContract the yields of the older flow.
-- - SubscriptionService: app/application/services/subscription_service.py, and in
--   Store.SubscriptionQueries the queries and the bulk update that it makes.
-- - Contracts, ContractService, DepositService, PlanService: app/domain/entities/contract.py and
--   app/application/services/{contract_service,deposit_service,plan_service}.py. An entity's and a
--   service's method of one name have two: `open_contract` and `request_deposit` are the services'
--   `create_contract` and `create_deposit`.
-- - PixGateway: app/infrastructure/payment/pix_gateway.py, the retries of a request, the amount that an
--   order asks for and the reading of an answer.
-- - Webhooks: the two webhooks of app/api/v1/endpoints/admin.py, `pix_webhook` here,
--   `mercadopago_webhook` in the child MercadoPago, and the check of its signature in the child
--   Signature.
-- - Cpf, Emails, Accounts: app/domain/value_objects/{cpf,email}.py, and app/application/services/
--   {registration_service,activation_service,authentication_service}.py.
-- - Examples: concrete inputs.
--
-- How they interact: a service reads rows from the store, calls the methods of the entities and the
-- calculators on them, writes the rows back and commits. InstallmentPayments.Closure leaves a pending
-- withdrawal that Withdrawals approves or rejects; SubscriptionService creates the subscription that
-- ActivationPayments makes active and that InstallmentPayments takes payments for, which leaves the
-- principal deposits that YieldService credits yields for. Accounts creates the user and the wallet.
-- SubscriptionService and the payments are called by the handlers of Routes, on behalf of a user whom
-- Access admits. A payment is confirmed by a notification of the provider: Webhooks finds the
-- transaction and calls the confirmation of InstallmentPayments, ActivationPayments or DepositService.
--
-- Conventions: cents are integers (`ℤ` where the code allows a negative number, `ℕ` inside `Money`,
-- which refuses one); an identifier is a number, and `uuid4` is a counter that never repeats; a
-- `datetime` is a number of microseconds, read once in a request; the local date is an argument.
--
-- Bounds and fuel: a decimal has 28 significant digits. The number of digits beyond them is counted by
-- recursion on a fuel that is the coefficient itself, which falls by a factor of ten in each round, so
-- it is enough. Amounts below 10 ^ 19 cents and percentages of fewer than seven digits keep every
-- product within 28 digits. Years end at 9999, as in Python. Every loop is a structural
-- recursion on the rows that it goes through, or on the number of counts that a `range` has; the retries
-- of a request are one on the attempts that are left.
--
-- Not modelled: requests that run at the same time (a request sees one store from its start to its
-- end); the texts of messages, descriptions and log details (a description is an argument where it is
-- stored); the objects returned for display, for which a service returns the entity; negative decimals; the validation that the entities' `__post_init__` makes again of a
-- row that is read (the tables' constraints exclude the rows that it would refuse); ZeroDivisionError for a plan whose
-- durations leave no month, in whose place the recommendation raises ValueError (no plan that was
-- checked is so); Python's limits on the digits and the size of the time stamp that `int(ts)` reads;
-- the half-changed entity that a raising method leaves in memory and the session discards, but for
-- `Plan.update`, which undoes its changes itself; requests to Mercado Pago, which are the parameter
-- `gateway` of a service, `attempt` of the retries and `OrderReply` of the webhook; the digest, the
-- tables of Unicode and the settings of the signature's check (`Verifier`); what the API of the Banco
-- Central answers (`api`), the order of `list(set(...))` (`unique`), and the hash functions, the table
-- of digits and the sending of e-mails (`Outside`). The PDF of a contract is a parameter too (`generate`), and so is the comparison of the float distances
-- that rank the recommendations (`nearer`, `as_near`), the decoding of an access token (`decode`) and
-- the database's comparison of a title with a search text (`ilike`). The timing of the jobs, the checks
-- of the schemas, the handlers that only list, those of finances.py, users.py and auth.py, the report
-- files and the bodies of the requests to Mercado Pago are left out: they copy fields, format files or call other libraries.
pub mod Prelude
pub mod Errors
pub mod Decimal
pub mod Money
pub mod Installments
pub mod Calendar
pub mod DueDates
pub mod Subscriptions
pub mod Wallets
pub mod Transactions
pub mod Plans
pub mod Users
pub mod Tokens
pub mod Accounts
pub mod Contracts
pub mod ContractService
pub mod DepositService
pub mod PlanService
pub mod ExpirationScheduler
pub mod Finance
pub mod Access
pub mod UserAdministration
pub mod Routes
pub mod Notifications
pub mod PixGateway
pub mod Webhooks
pub mod Store
pub mod Session
pub mod Recommendation
pub mod Yields
pub mod Bcb
pub mod Cpf
pub mod Emails
pub mod YieldService
pub mod YieldScheduler
pub mod SubscriptionService
pub mod PixPayments
pub mod InstallmentPayments
pub mod ActivationPayments
pub mod Withdrawals
pub mod Examples
