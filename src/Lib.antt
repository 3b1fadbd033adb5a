-- ===== src/Lib.antt =====
-- FLEEX, a fleet-management service. Trackers on vehicles send positions to an ingestor, an events
-- engine turns them into events, an API of NestJS serves the web client and the mobile app, and a
-- live gateway streams positions and events to browsers. This library models the core of the API
-- (services/api/src), and of the web client the code that keeps a browser signed in and connected
-- (services/web/src/lib), as functions on explicit states.
--
-- Common is the shared part: Boolean tests and lists over the native numbers, signed integers,
-- results of calls that throw (HTTP errors as values), calendar dates (`addMonths`), texts, and
-- the keys of Redis that expire (Keys), which the jobs claim with SET NX.
--
-- Access is who may do what. Roles is the ladder of services/api/src/auth/roles.guard.ts and its
-- `canActivate`, Scope is services/api/src/auth/actor-scope.ts, Tenant is `applyTenantGuard` of
-- services/api/src/common/tenant-guard.ts, the Prisma middleware that adds the company to a query;
-- Ownership is the guard on a row's company that the services repeat. Isolation is about these.
--
-- Billing is services/api/src/billing. Catalog is services/api/src/billing/plan-catalog.ts; Store
-- holds the rows of services/api/prisma/schema.prisma; Plans is `setPlan`, `warnings`,
-- `assertCanAddDevice` and the creation of a device that the cap guards
-- (services/api/src/devices/devices.service.ts); Invoices is `createInvoice`, `markInvoicePaid`,
-- `cancelInvoice` and `nextInvoiceNumber`; Lifecycle is the daily job `runLifecycle`; History runs
-- any sequence of these calls.
--
-- Identity is accounts and sessions. Login is `login` of services/api/src/auth/auth.service.ts
-- with its lockout, Sessions is `issueTokens`, `refresh` and `logout`, Registration is
-- `registerCompany` and `uniqueSlug`, which open a company with a trial subscription; Users is
-- `create`, `update`, `resetPassword`, `changeOwnPassword` and `delete` of
-- services/api/src/users/users.service.ts.
--
-- Audit is the hash chain of services/api/src/audit/audit.service.ts: Json is `canonicalize`,
-- Chain is `record` and `verifyChain`.
--
-- Reports is the pure report builders of services/api/src/reports/report-builders.ts (Sessions,
-- Trips, Daily, Idle, over the rows of Positions) and Fuel, the detector of
-- services/api/src/reports/fuel-analytics.service.ts with the job that stores its events
-- (Fuel.Job).
--
-- Live is the gateway of services/api/src/websocket/live.gateway.ts with the tickets of
-- `createWsTicket` (services/api/src/auth/auth.service.ts). Dispatch is
-- services/api/src/notifications/notification-dispatcher.service.ts: the routing of an event to
-- channels, and in Consumer the loop that reads the stream of events, as a relation of steps with
-- crashes, failed acknowledgements and arrivals, at which the producer
-- (services/events-engine/internal/store/store.go) may trim the stream.
--
-- Channels is what notifications leave by: Sms is services/api/src/notifications/sms.service.ts
-- (settings, numbers, texts, the pacing of posts), Webhook is
-- services/api/src/notifications/webhook.service.ts (the addresses that are blocked, and the
-- guards and the pinned address of a call).
--
-- Jobs is what runs by the clock: LoneWorker is
-- services/api/src/notifications/lone-worker.service.ts, Scorecard is
-- services/api/src/reports/scorecard-cron.service.ts, Schedule is
-- services/api/src/reports/scheduled-reports.service.ts (Crud its requests, Runs its deliveries).
--
-- Fleet is the vehicles: Devices is `update`, `remove` and `transfer` of
-- services/api/src/devices/devices.service.ts, with `importExcel` in Sheet, and Commands is
-- services/api/src/commands/commands.module.ts.
--
-- Staff is drivers and their groups and shifts: Groups, Shifts and Drivers are `create`, `update`
-- and `remove` of services/api/src/groups/groups.module.ts,
-- services/api/src/shifts/shifts.module.ts and services/api/src/drivers/drivers.module.ts, with
-- the rows of `importExcel` of the last; History runs any sequence of these calls.
--
-- Zones is services/api/src/geofences/geofences.module.ts (Geofences) and
-- services/api/src/places/places.module.ts (Places, with `syncGeofence`, which keeps a geofence
-- for a place). Support is services/api/src/support-tickets/support-tickets.module.ts.
--
-- Workshop is the servicing of vehicles: Tasks is the tasks and attachments of
-- services/api/src/service-tasks/service-tasks.module.ts, Prediction its `upcomingPredictions`,
-- and Reminders the daily mail of services/api/src/service-tasks/service-reminder-cron.service.ts.
--
-- Channels has two more modules: Secrets is
-- services/api/src/notifications/integration-settings.service.ts, the keys of the channels'
-- vendors, and Template is `renderTemplate` of services/api/src/notifications/template.ts.
--
-- Web is the client's library: Session is services/web/src/lib/api.ts, the tokens of a browser and
-- the interceptor that renews them, in one tab and in two; LiveSocket is the hook of
-- services/web/src/lib/useLiveSocket.ts, as a relation of steps of its surroundings.
--
-- How the parts meet: Billing, Identity and Live take the actor and the roles of Access; device
-- creation in Billing.Plans calls the cap check before the insertion, as DevicesService calls
-- BillingService; a ticket of Live carries the actor's identity from the API to the gateway; a
-- registration puts its subscription where the daily job of Billing finds it; the consumer hands
-- an event to `handle` of the routing, whose sends are those of the channels; the tabs of
-- Web.Session post their tokens to `refresh` of Identity; the daily mail of Workshop lists tasks
-- by the number of days that the predictions show.
--
-- State is passed explicitly: a table is a list of rows, a unique column is found by its first
-- row, and a call that throws returns an error and leaves the rows. Ids and hashes are numbers.
-- Times are milliseconds. In Reports a float is a whole number of a small unit (mm, ms,
-- thousandths of km/h), without rounding, the level of a tank a signed one, and a negative
-- difference of times is 0, as the code ignores it. Statements of one Prisma transaction are one
-- step; the checks before it are separate reads. Loops are structural recursion on the rows; the
-- fuel detector, whose loop jumps, recurs on fuel, the number of readings: each round goes on to a
-- later reading. The check of an address, which calls itself on what follows ::ffff:, recurs on
-- the length of the text.
--
-- Parameters stand for code outside the repository: argon2 (`verify`), SHA-256, the JWT library,
-- isIP, the name lookup and the URL parser of Node, JSON.parse of an event, the SMS gateway, the
-- great-circle distance, which is floating-point trigonometry, the parsing of a date, toLowerCase
-- with trim of an address of mail, and the numbers and times of a message as printed. The consumer
-- group of Redis is a record of its operations with what Redis documents of them as laws; the
-- database and the other keys of Redis are lists as above. Whether a mail, an insertion or a
-- publication goes through is a parameter too, where the code catches the exception.
--
-- Not modelled: the pages of the web client, the Go services (ingestor, events engine, media), the
-- raw SQL of the report queries, the exporters, the cells of an imported sheet, the vendor APIs of
-- the other channels, and the modules of trips, garages, sensors, custom fields, notification
-- rules and device health, which guard, read and write one table each as Staff and Zones do.
pub mod Common
pub mod Access
pub mod Billing
pub mod Identity
pub mod Audit
pub mod Reports
pub mod Live
pub mod Dispatch
pub mod Channels
pub mod Jobs
pub mod Fleet
pub mod Staff
pub mod Zones
pub mod Support
pub mod Workshop
pub mod Web
