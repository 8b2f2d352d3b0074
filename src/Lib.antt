-- ===== src/Lib.antt =====
-- Aktionfy MCP server: the scheduler with its routers, the prompt resolver, the connections that ask
-- language models, the rate limit, the quota, the tools and the portal with its accounts, secrets and
-- workspaces of the Go program in cmd/server, over the statements of db/queries.sql.go.
--
-- A user's tasks are rows of the table `tasks`. A worker claims a due task, which makes it
-- `processing` and locks it, and hands it to handleDispatchTask (cmd/server/scheduler.go). That
-- pauses the task for an approval, notes it as missed when the user has no node on line, runs its
-- code, or publishes a message to the user's node over Redis; a failure is retried with a growing
-- delay, and the task is at last parked in the dead letter queue. A finished task is scheduled anew by
-- completeTask, which also makes the tasks that wait for it due. The MCP tools (cmd/server/tools.go)
-- create, pause, resume and delete tasks within the quota of the user's tier; a bundle of tasks can be
-- imported. A prompt is resolved twice: its variables at dispatch, its secrets where it is sampled.
-- Each connection of the user that gets the message runs it: a prompt goes to the user's language
-- model under the lock of its execution, and the answer completes the task or counts as a failure; a
-- router lets the model choose which of the tasks that wait for it is due next. Users sign in to the
-- portal, which keeps a session for the middleware to look up, store the secrets that their prompts
-- name, and share variables in workspaces; an admin changes their roles, and a payment their tier.
--
-- Files, with the code they model:
--   Common         numbers, texts, lists and words that the others share
--   Uuid           formatUUID and parseUUID of cmd/server/globals.go
--   Json           decoded JSON values and type assertions on them
--   Store          the rows (db/models.go), the state `World` and the surroundings `Env`;
--                  Store/Queries has one function per SQL statement of db/queries.sql.go
--   Schedule       calculateNextRun, and the arithmetic of the delays between retries
--   Template       the placeholders in a prompt, and ReplaceAllStringFunc on their patterns
--   Prompt         resolvePromptVariables (scheduler.go), resolvePrompt (prompt_resolver.go)
--   Conditions     evaluateWorkflowLoop, compareValues, evaluateBranchCondition
--   Completion     completeTask
--   Dispatch       handleDispatchTask: Dispatch/Branches has its branches, Dispatch/Retry the retries
--   RateLimit      the Lua script of cmd/server/ratelimit.go, and Allow
--   Vote           the voting of executeSwarmRouter
--   Privacy        sanitizeLLMResponseForStorage (cmd/server/privacy.go), maskSensitiveData (globals.go)
--   Answer         extractRawText and parseLLMChoice: what is read from a model's answer
--   Router         executeDecisionRouter and executeSwarmRouter of scheduler.go: Router/Debate,
--                  Router/Council, and Router/Effects with the step that both implement
--   Sampling       the run of a message on a connection of the user (MaintainHeartbeat of
--                  cmd/server/session.go), with its lock in Redis; Sampling/Writes has its statements
--   Quota          CheckUserQuota of cmd/server/auth.go
--   Tools          pause_task, resume_task, delete_task; Tools/Create has create_task
--   Transfer       exportUserTasks and importUserTasks of cmd/server/task_transfer.go, and their handlers
--   Claim          the claim of due tasks (fn_claim_due_tasks of schema.sql, through ClaimDueTasks),
--                  handleTaskClaimNotification and the reaper of scheduler.go; Claim/Workers has several
--                  workers on one table, Claim/Race what can come between the statements of one
--   Middleware     cmd/server/middleware.go, and the role groups of cmd/server/main.go
--   Rest           the handlers of cmd/server/task_rest_handlers.go and api_handlers.go that change
--                  tasks: Rest/Create, Rest/Versions (change and restore), Rest/Approvals
--   Presence       the keys of Redis that count a user's connections (SessionManager)
--   Webhooks       the outbound webhooks of cmd/server/webhooks.go; Webhooks/Manage has their creation
--                  and removal (api_handlers.go)
--   Blueprint      apiDeployBlueprintHandler of cmd/server/template_handlers.go
--   Config         cmd/server/config.go: the configuration and its validation; Config/Origins has the
--                  origins that are trusted
--   Crypto         cmd/server/crypto.go: the key, Encrypt and Decrypt
--   Site           the state of the portal and what its handlers are given
--   Auth           cmd/server/auth.go, and signup, login, logout and the new key of api_handlers.go
--   Admin          the admin's changes of users (api_handlers.go), apiStripeWebhook of
--                  billing_handlers.go
--   Secrets        the handlers and tools on secrets, and the vault that prompts are resolved with
--   Workspaces     cmd/server/workspace_handlers.go
--   Tests          the theorems at concrete values
--
-- How state and effects are modelled. `World` holds the tables and what was sent out: messages,
-- events, mails and counters, as lists that grow at the head. Each operation is a function from
-- `World` to `World`, composed as the source composes its calls. `Env` holds what the code is given:
-- which kinds of database calls fail, the clock, Redis, the cron parser, the JavaScript engine and
-- the text forms of floating point numbers. These are not the repository's code, and the theorems
-- hold for every one of them unless they say otherwise. A failing call leaves the tables alone and
-- is otherwise treated as the source treats it. `Up env` says that no call fails. One reading of the
-- clock serves one handler.
--
-- Bounds. Durations are int64 and counters int32, with their wrap-around written out. The rate limit
-- counts thousandths of a token, in which its arithmetic is exact. `decimal` in Dispatch prints a
-- number with fuel for 20 digits, and an int64 has at most 19. No other definition uses fuel.
--
-- The portal has its own state, `Site`, and its own surroundings, `Services`; bcrypt, AES-GCM, the random
-- source, url.Parse and the check of Stripe's signatures are parameters there.
--
-- Not modelled: the loops around the subscription and the claims, the HTTP handlers that only list or
-- count, those of the settings for search engines and of the creation of templates and checkout
-- sessions, the inbound webhook, the listeners of Postgres and Redis, the actions of foreign
-- keys on other rows, mails beyond the decision to send one, metrics and tracing beyond the counted
-- outcomes, and the front end. The language model is a parameter: each request has an answer or an
-- error.
pub mod Common
pub mod Uuid
pub mod Json
pub mod Store
pub mod Template
pub mod Prompt
pub mod Conditions
pub mod Completion
pub mod Dispatch
pub mod RateLimit
pub mod Vote
pub mod Quota
pub mod Tools
pub mod Schedule
pub mod Transfer
pub mod Claim
pub mod Middleware
pub mod Privacy
pub mod Answer
pub mod Router
pub mod Sampling
pub mod Presence
pub mod Webhooks
pub mod Rest
pub mod Blueprint
pub mod Tests
pub mod Crypto
pub mod Config
pub mod Site
pub mod Auth
pub mod Admin
pub mod Secrets
pub mod Workspaces
