-- ===== src/Lib.antt =====
-- propza-amlak, the management of rented property on Odoo, modelled and proved: its integration with
-- Ejar, the Saudi platform for rental contracts (addons/l10n_sa_ejar), the cycle of a rent
-- (addons/sa_rental_cycle), the reservations and leads of sales (addons/sa_crm), the commissions of
-- brokers (addons/sa_broker_commission), maintenance (addons/sa_maintenance), the bills of the payment
-- network SADAD (addons/sa_sadad), properties with their tenancies (addons/sa_property_base), the call
-- centre (addons/sa_call_center), the identities of users (addons/sa_user_profile) and the gateway of
-- messages (addons/sa_notifications).
--
-- A rental contract is prepared in Odoo, checked, and sent to the platform by a pipeline of API
-- calls; a queue runs the pipeline as a job, and a poll follows what the platform decides. The
-- parts, and how they interact:
--   * the errors that a call raises carry whether they are permanent (Errors); `classify` tells the
--     queue whether to run the job again (Policy);
--   * the credentials of a company are resolved and cached (Auth); the HTTP client makes a request
--     under the company's circuit breaker (Circuit, Client), and drops cached credentials on 401;
--   * a contract with its parties, units and profile is moved by the user's actions (Contract) and
--     rendered as the attributes of the API (Payload);
--   * the lifecycle service runs the pipeline, a call at a time with commits between (Lifecycle);
--   * the jobs run the service, decide between retry and dead letter, poll, and clean up (Jobs);
--   * the platform reports by signed requests, which are validated, looked up among
--     the receipts in the log (SyncLog), and applied to the contract (Webhook).
--
-- A tenancy is scheduled into rent payments, which the wizard registers, the accounting invoices and
-- the nightly job marks overdue; its deposit is settled when it ends, and it may be renewed by hand
-- or by the nightly job. A SADAD bill stands for one rent payment and pays it when the network calls
-- the webhook. A lead of sales is given to an agent by their loads, is recommended the
-- properties that match it best, and reserves one; a commission is divided into lines, whose states
-- give its own. A contract of maintenance makes requests by a nightly job. A tenancy takes its
-- property when it starts and frees it when it ends; the damages that an inspection finds are deducted
-- from the deposit. The telephone system reports its calls to a webhook.
--
-- Files and sources; a path without addons/ is in addons/l10n_sa_ejar for the files of Ejar, and in
-- the addon that is named last before it for the others:
--   Ejar/Errors/Classes     services/exceptions.py, the class tree: `ErrorClass` is a class,
--                           `is_instance` is isinstance by the method resolution order
--   Ejar/Errors/Status      services/exceptions.py, `raise_for_ejar_status`
--   Ejar/Policy             services/job_policies.py, `classify_ejar_exception`
--   Ejar/Circuit            services/ejar_client.py, `_circuit_check`, `_circuit_record_success`,
--                           `_circuit_record_failure`; Circuit/Invariant and Circuit/Trace prove
--   Ejar/Auth               services/auth_service.py; Auth/Sources and Auth/Cache prove
--   Ejar/Client             services/ejar_client.py, `_make_request`; Client/Responses proves
--   Ejar/Contract/Types     models/ejar_contract.py, ejar_contract_party.py, ejar_contract_unit.py
--                           and ejar_brokerage_profile.py: the fields that the integration uses
--   Ejar/Contract/Actions   models/ejar_contract.py: the actions, the flags, the constraints;
--                           Contract/Transitions proves
--   Ejar/Contract/Validate  the three `validate_for_submission`
--   Ejar/Payload            services/payload_builder.py; Payload/Mobile is `_normalize_mobile`
--   Ejar/Lifecycle/World    the transaction, what is committed, the calls made: a state monad with
--                           exceptions, in which what is written before an exception stays written
--   Ejar/Lifecycle/Steps, Pipeline   services/lifecycle_service.py
--   Ejar/Lifecycle/Extends, Progress, StepProgress, AllProgress, Resume   that a submission resumes
--   Ejar/Lifecycle/Outcome, Gate     how a submission ends, and what is refused before it
--   Ejar/Jobs               models/ejar_contract_jobs.py; Jobs/Polling also `_poll_ejar_status` of
--                           models/ejar_contract.py; Jobs/Outcome proves, where `stored` is what the
--                           queue keeps: it rolls a job back that raises
--   Ejar/Jobs/Schedule      the same file and models/ejar_contract.py, the poll crons, and the purge of
--                           jobs; Schedule/Pause proves
--   Ejar/Jobs/Upload        the same file, `job_upload_signed_document` and `action_check_ejar_status`
--   Ejar/SyncLog            models/ejar_sync_log.py and `_cron_purge_old_sync_logs` of
--                           models/ejar_contract_jobs.py
--   Ejar/Webhook            services/webhook_validator.py, `validate`, and
--                           services/webhook_processor.py, `process_webhook` and its handlers;
--                           Webhook/Validation and Webhook/Events prove
--   Ejar/Webhook/Endpoint   controllers/ejar_webhook.py, `is_duplicate` and the receipts;
--                           Endpoint/Delivery proves
--   Rental/Types            the fields of sa.rent.payment and property.tenancy
--   Rental/Payment          addons/sa_rental_cycle/models/sa_rent_payment.py, the payment, and
--                           wizard/sa_payment_wizard.py; Payment/Instalments proves
--   Rental/Schedule         models/sa_rent_payment.py, the tenancy's schedule and its totals;
--                           Schedule/Dates and Schedule/Generated prove
--   Rental/Deposit          models/sa_tenancy_deposit.py and wizard/sa_end_tenancy_wizard.py;
--                           Deposit/Settlement proves
--   Rental/Deposit/Deductions   the wizard's deduction lines and their import; Deductions/Import
--                           proves
--   Rental/Renewal          models/sa_tenancy_renewal.py and wizard/sa_tenancy_renewal_wizard.py;
--                           Renewal/Nightly proves, and Renewal/Wizard is the dialog's defaults
--   Rental/Alerts           models/sa_rental_alert.py; Alerts/Once proves
--   Crm/Types, Reservations addons/sa_crm/models/sa_crm_reservation.py, and the actions of
--                           models/sa_crm_lead.py; Reservations/Exclusive, Holder and Lock prove
--   Crm/Rotation            models/sa_crm_lead.py, the rotation of agents; Rotation/Assigned proves
--   Crm/Matching            models/sa_crm_lead.py, `_build_matching_domain`, and
--                           addons/sa_crm_ai_match/models/sa_crm_lead_match.py; Matching/Ranking
--                           proves
--   Commission              addons/sa_broker_commission/models/sa_broker_commission.py;
--                           Commission/Division: the lines that a confirmation makes
--   Commission/Lines        models/sa_broker_commission_line.py; Lines/Tracking proves
--   Maintenance             addons/sa_maintenance/models/maintenance_request.py;
--   Maintenance/WorkOrder   models/maintenance_work_order.py
--   Maintenance/Contract    models/maintenance_contract.py; Contract/Services proves
--   Sadad/BillNumber        addons/sa_sadad/models/sa_sadad_invoice.py, the number of a bill;
--                           BillNumber/Laws proves
--   Sadad/Bill              the states of a bill there, `action_generate_sadad` of
--                           models/sa_rent_payment.py and controllers/sadad_webhook.py;
--                           Bill/Payment and Bill/Settlement prove
--   Property/Occupancy      addons/sa_property_base/models/property_tenancy.py and
--                           property_property.py; Occupancy/Tenants, Effect and Taken prove
--   Property/Inspection     models/property_inspection.py
--   CallCenter/Calls        addons/sa_call_center/controllers/telephony_webhook.py and
--                           models/call_center_call.py; Calls/Times and Calls/Clock prove
--   CallCenter/Tickets      models/call_center_ticket.py
--   Notifications/Phone     addons/sa_notifications/models/messaging_gateway.py; Phone/Normal proves
--   UserProfile/Verification   addons/sa_user_profile/models/sa_user_verification.py;
--                           Verification/Acceptance proves; of addons/l10n_sa_ejar/models/res_partner.py,
--                           `_check_national_id`
--   UserProfile/Documents   models/sa_user_document.py
--   Prelude                 tests, texts, lists and results that the parts share
--   Tests                   the theorems at concrete inputs
--
-- Numbers are natural: an amount or area counts its smallest unit, a date its days, a time of the
-- circuit breaker its microseconds, any other time its seconds. An unset text is the empty text.
-- An amount of rent is a whole number of halalas; a penalty, which is a fraction of it, is counted
-- in 1/1500 of a halala, a commission in 1/10000 (the amounts of its lines are exact quotients, where the source has
-- floating-point numbers), and a proportion of two amounts is the pair of them.
-- Two loops need fuel: the printing of a number, where one round writes one digit and a number has
-- no more digits than its value plus one, and the dates of a schedule, where a round moves on by a
-- day at least and as many rounds are given as there are days.
--
-- Parameters, since their code is not the repository's own or is outside of it: the answers of the
-- platform (`Env.reply`, a function of the calls before and the call; `Transport`, what a session with its
-- adapter's retries ends with), the failure to build a
-- client, the search for a company's profile, the clock, the token store and the parameters of the
-- configuration, the queue (`Queue`, addons/queue_job), and what a webhook is parsed and signed
-- with (`Parsers`: int, json, HMAC, the secrets), whether Odoo refuses a value that a selection does not
-- have, and `isdigit` of a text; the calendar of dateutil (`Calendar`), what Odoo's
-- accounting does with an invoice and a payment (`Accounts`), the raise of a rent by a percentage and
-- the creation of a tenancy in the nightly job (`Setting`) or of a request, what the query of the rotation
-- counts, and the searches for agents, queues and partners
-- (`Directory`).
--
-- Not modelled: of the calls of the platform, headers, correlation and idempotency keys; bodies kept for the
-- log, the texts of messages, the locks around the circuit breaker and the cache (an operation
-- under a lock is a single step), and the views; of the other addons modelled, the invoice's lines, taxes and accounts,
-- references and activities, QR codes, and the fields
-- that are only shown; and the addons that are not named above.
pub mod Prelude
pub mod Ejar
pub mod Rental
pub mod Crm
pub mod Commission
pub mod Maintenance
pub mod Property
pub mod CallCenter
pub mod UserProfile
pub mod Notifications
pub mod Sadad
mod Tests
