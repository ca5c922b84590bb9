-- ===== src/Lib.antt =====
-- GrainGuard: a verification of the TypeScript services under apps/.
--
-- GrainGuard monitors grain silos for many tenants. Its TypeScript part is a REST gateway
-- (apps/gateway), a GraphQL backend for the dashboard (apps/bff), a worker behind RabbitMQ queues
-- (apps/jobs-worker), and a service that turns the scores of the risk engine into alerts
-- (apps/workflow-alerts). They share a Postgres database, Redis and the queues: the gateway and the
-- worker both decide how many devices a plan allows, from the tenants row that the worker writes at
-- each Stripe event; workflow-alerts publishes the jobs that the worker's alert handler consumes.
--
-- Prelude: names of the libraries, Boolean tests on the native numbers, lists read as tables, the
-- integers used as limits (-1 is "unlimited"), and rules for conditionals and rows that are looked up.
--
-- Database: the tables tenants, devices, tenant_billing, tenant_users and stripe_webhook_events
-- (apps/telemetry-service/migrations), with the columns that the modelled code uses. Timestamps are
-- milliseconds.
--
-- Bff.Breaker: apps/bff/src/lib/circuitBreaker.ts. `execute` awaits the protected call in the middle,
-- so it is the two operations `enter` and `settle`; `sync_from_redis` and `sync_to_redis` are the two
-- synchronisations. Bff.Breaker.Interleaving is a step relation in which any number of calls, on any
-- breaker, are interleaved, and Redis may fail, return a stale state or lose a write.
-- Bff.Breaker.Policy follows one breaker.
--
-- Bff.Redis, Bff.Source and Bff.Resolvers: apps/bff/src/datasources/redis.ts, datasources/postgres.ts
-- and resolvers.ts. A key of the cache is the record of its parts. `resolve` runs one query of the
-- schema on the tables as it finds them and on the store, which is the cache with its locks; the
-- resolvers and the data source use the same store. A request runs by itself, with the time at which it
-- starts and the time after its waits; a run is a list of requests, each with tables of its own.
-- Bff.Pages: getDevicesWithCursor and devicesConnection, with the texts of cursors as an interface
-- `Codec`; a page costs one unit of the fuel of `walk`, and a page more than there are devices is enough.
--
-- Gateway.Quota: apps/gateway/src/services/planEnforcement.ts and middleware/quota.ts, the answer
-- of checkDeviceQuota and what the middleware replies.
-- Gateway.Plan: apps/gateway/src/middleware/planEnforcement.ts, the table of plans, getTenantPlan and
-- getDeviceCount over the Redis cache, invalidatePlanCache and the five guards. A Redis that is down
-- is a state of its own.
-- Gateway.Team: apps/gateway/src/routes/teamMembers.ts. The state is the two tables, the tenants'
-- names and the audit log; `handle` is requireAdmin and the route (`post_invite`, `get_info`,
-- `post_accept`, `put_role`, `delete_member`, `delete_invite`). Identifiers and tokens are arguments.
-- `post_accept` looks an invitation up in one state of the tables and changes another, since the code
-- looks it up before its transaction; in a run of requests the two are the same.
-- Gateway.Import: apps/gateway/src/routes/devicesImport.ts. `on_data` and `on_end` are the events
-- of the file's stream, whose chunks of bytes a parameter decodes one by one; Gateway.Import.Job is the
-- job that runs at "finish".
-- Gateway.Limits: apps/gateway/src/middleware/rateLimiting.ts and the order in which server.ts mounts
-- the routers. A bucket is the sorted set of one address; `through` is a chain of limiters.
-- Gateway.Webhooks, Gateway.Rules and Gateway.Keys: apps/gateway/src/routes/webhooks.ts, alertRules.ts
-- and apiKeys.ts, all routes; `handle_webhooks`, `handle_rules` and `handle_keys` are the routers.
-- Gateway.Tenancy puts them beside the team router; `serve` is a run of requests.
-- Gateway.Preferences: apps/gateway/src/routes/notificationPreferences.ts; `as_preferences` are the
-- columns that the alert handler of the jobs worker reads.
-- Gateway.Account: apps/gateway/src/routes/account.ts, the profile and the erasure of the rows of tenants,
-- users, devices and billing; the audit events, which an erasure keeps, are left out.
-- Gateway.Auth: apps/gateway/src/middleware/auth.ts, with jwtVerify as a parameter. Gateway.Admin: the
-- operator's routes of apps/gateway/src/routes/admin.ts behind it; each page of the list may find the rows
-- in another order.
-- Gateway.ApiKey: apps/gateway/src/middleware/apiKey.ts, with times in seconds.
-- Gateway.Devices: apps/gateway/src/routes/devices.ts. Gateway.Signup: apps/gateway/src/routes/tenants.ts.
-- Gateway.Checkout: apps/gateway/src/routes/billing.ts; `run_billing` is a run of requests, and the
-- sessions that Stripe has opened are part of the state.
-- Gateway.Latest: apps/gateway/src/services/device-query.ts and cacheBreaker.ts, with the route of
-- server.ts. A request is a program of single calls; Gateway.Latest.Runs is a step relation in which any
-- number of requests, the service that fills the cache, and expiries are interleaved.
-- Gateway.Auth0 and Gateway.Sso: apps/gateway/src/lib/auth0Management.ts and routes/sso.ts. What Auth0
-- answers is an argument of each call, which may also take effect without an answer, and so is whether the
-- UPDATE that follows goes through; the calls that took effect are recorded.
-- Gateway.Audit: apps/gateway/src/routes/auditLog.ts; `walk` follows the cursors, a page for each unit of
-- its fuel, and a page more than there are matching events is enough. The export is read by the reader of
-- Dashboard.ExportCsv.
--
-- Dashboard.ExportCsv: apps/dashboard/src/utils/exportCsv.ts; texts are lists of code units, and
-- Dashboard.ExportCsv.Reader is a reader of such files, which the program does not have.
--
-- Jobs.Reconcile and Jobs.Billing: the statements of reconcileTenantDevices, with ROW_NUMBER as a
-- sort followed by a numbering, and planDeviceLimit, of apps/jobs-worker/src/handlers/stripe.ts.
-- Jobs.Stripe: processStripeEvent of the same file. Jobs.Stripe.Transaction is the monad of a
-- database transaction in which a given query may throw; Jobs.Stripe.Statements and
-- Jobs.Stripe.Handlers are its statements and its cases, one definition for each event type. The e-mails
-- are queued after the COMMIT, where a call that throws leaves the rest unsent.
-- Jobs.Alert: processAlert of apps/jobs-worker/src/handlers/alert.ts; which of its queries answer is an
-- argument.
-- Jobs.Workers: how the consumers in email.ts, webhook.ts, alert.ts, stripe.ts and export.ts
-- (apps/jobs-worker/src/handlers) settle a message: `settle` is the list of calls of the channel,
-- `deliver` what these do to the queue and its dead-letter queue.
-- Jobs.Webhook: the delivery in webhook.ts and what it writes into the tables; `insert_delivery` has the
-- constraints of webhook_deliveries, and Jobs.Workers the calls of the channel; Jobs.Webhook.Requests
-- puts the two together.
-- Jobs.Digest: apps/jobs-worker/src/handlers/digest.ts, a run of the weekly digest.
--
-- Workflow.Alerts: apps/workflow-alerts/src/index.ts. `each_message` is eachMessage, `sweep` the
-- callback of setInterval; the two maps are functions from keys to times. A number of JavaScript is a
-- type with an order, which is a parameter.
--
-- Every other loop is a recursion on a list; the deliveries of a queue are given as the list of their
-- results. Code from outside (Redis, RabbitMQ, Stripe, Auth0, the driver's date parsing,
-- trim and toLowerCase) is an argument or an outcome of a step.
--
-- Not modelled: the history and the search of devices and the subscriptions of apps/bff, which are
-- calls of Cassandra, Elasticsearch and the event bus; the CSRF and version checks, which apps/gateway
-- mounts nowhere; the contents of e-mails and exports in the jobs worker; the user interface of the
-- dashboard; the services in Go and Python; configuration, logging and metrics.
pub mod Prelude
pub mod Bff
pub mod Dashboard
pub mod Database
pub mod Gateway
pub mod Jobs
pub mod Workflow
