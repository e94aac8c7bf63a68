-- ===== src/Lib.antt =====
-- The server of the agents management system: agents register over gRPC, take tasks from their
-- stream, report results; results may hold alerts, which become events, routes and deliveries; users
-- work through web pages with roles.
--
-- The parts and their files:
--   Prelude      shared lists, texts, integers, results and identifiers. A Go string is a list of
--                bytes; letters and spaces are those of ASCII.
--   Storage      server/internal/storage: the rows (models.go, utils.go) and the SQL statements of the
--                repositories of tasks, notifications, users and agents (postgres.go) as functions on
--                lists of rows.
--   Auth         server/internal/auth: roles and permissions (Auth), and the authenticator with the
--                middleware (Auth/Basic). The lookup of a user is a parameter there.
--   Notify       server/internal/notification_evaluator.go (Payload, Dedup), notification_routing.go
--                (Unique, Policy, Router), notificationRetryBackoff (Backoff).
--   Events       server/internal/events/events.go: the broker and its clients as a step relation, one
--                step for each action of a goroutine.
--   Server       server/internal/server.go and the parts of the notification files that change the
--                store: the state (World), the stream of an agent (Dispatch), results (Results), events
--                (Events), deliveries and the retry processor (Deliveries), registration and heartbeats
--                with agent_status_service.go (Agents), streams of logs (Logs) and uploads (Uploads).
--   Scheduler    server/internal/scheduler/scheduler.go: loading, registration with cron, due tasks.
--   Web          server/internal/web: commands that are built from policies (exec_policies.go:
--                ExecPolicies, with their maps and templates in Values); of handlers.go the access pages
--                (Access), the permissions and filters (Permissions), retryNotificationDelivery (Retry),
--                updateTaskSchedule (Reschedule), and createTask (Tasks, with TaskForm and Uploads). Request
--                holds what a handler reads and answers, Handler and Answers the `do` blocks of a handler
--                that may answer early, Site what it is configured with.
--   Agent        agent/internal: the identifier in its file (agent.go: Identity), an update of the program
--                (Update), and a fetched file with its upload to the server (agent_file_handler.go: Fetch).
--   Samples, and the files called Tests, StreamTests and TaskTests, hold concrete values.
--
-- How the parts interact: a handler is an action on `World`, which holds the tables, the queue of
-- task identifiers, and what was published, sent and started. `SubmitTaskResult` updates the task, then
-- evaluates its output (Payload), stores an event, and processes it: the window of repetitions (Dedup),
-- the rules (Policy), the routes (Router), and a first attempt for each route (Deliveries). The retry
-- processor makes the later attempts. The stream of an agent takes identifiers that `SubmitTaskResult`
-- and the scheduler put into the queue. The pages write the users whom the authenticator reads and the
-- tasks that the queue is about. A storage call, a send or a call on a file fails wherever `Env` says so.
--
-- Numbers: times are nanoseconds on ℕ; attempts are int32 with their wrap-around; the backoff is an
-- int64 with its wrap-around. Every loop is structural recursion, the loop over the queue by its depth
-- at the start, as in the source; no fuel is used.
--
-- Not modelled: the generated protocol code, package uuid, base64, encoding/json, regexp, sha256, zip,
-- go-update, crypt of PostgreSQL, strconv.Atoi and time.ParseInLocation (they are parameters), the
-- adapters of the channels (parameters), logging, configuration, templates, the pages that only show
-- rows, the pages of the policies and their import, and of the agent the processes that it runs,
-- its metrics, pushed files and the decoding of output. The channels of the handlers are not
-- bounded, and one handler runs after the other; only the broker is modelled with every interleaving. The
-- calls of time.Now() in one action return one instant. The columns
-- updated_at are left out: no statement reads them. The random order in which Go visits a map is one draw
-- of an order for each loop (`Library.order`), which is the same in all runs that a statement compares.
pub mod Prelude
pub mod Samples
pub mod Storage
pub mod Auth
pub mod Notify
pub mod Events
pub mod Server
pub mod Scheduler
pub mod Agent
pub mod Web
