-- ===== src/Lib.antt =====
-- A model of GARIS, an assistant that acts on a computer: the parts of core/src/garis that decide
-- whether an action may run, run it, remember what was done, and follow a task through restarts.
--
-- How the parts interact. A task (Tasks) is run by its supervisor, whose agent loop (Loop) performs
-- actions (Actions) on one path (Executor). The path asks the policy (Policy); an action that needs
-- a yes goes through the approvals (Approvals), one that touches a resource takes leases on it
-- (Leases). Effects on the world are reserved before they are made (Effects), facts are announced
-- through the outbox (Outbox), and what the log keeps of parameters is redacted (Audit). Secrets in
-- the parameters of an action are references that the vault resolves (Vault), which also takes what
-- the memory refuses (Memory). A capability is an act with a check of its own, run once per effect
-- (Capabilities). Whether a task is verified is decided by rules, by what the machine measures of
-- itself, or by a model (Verifier). Which model is asked is the choice of the router (Router),
-- which depends on the health of the providers (Health); the pool (Pool) rebuilds them when the
-- vault or the settings change. What GARIS notices reaches the user through a gate (Notifications).
-- The user talks through the voice session (Voice); the window, through a WebSocket (WebSocket).
--
-- Files. Each models one source file, with its functions under their Python names; a helper that
-- splits a function on the value that it has just read stands beside it.
--   Contracts   core/src/garis/kernel/contracts.py
--   Effects     core/src/garis/kernel/effects.py
--   Outbox      core/src/garis/kernel/outbox.py
--   Actions     core/src/garis/runtime/action.py and registry.py
--   Policy      core/src/garis/runtime/policy.py
--   Approvals   core/src/garis/runtime/approvals.py
--   Leases      core/src/garis/runtime/leases.py
--   Executor    core/src/garis/runtime/executor.py
--   Audit       core/src/garis/runtime/audit.py, `redact`
--   Tasks       core/src/garis/tasks/models.py, store.py; Tasks/Supervisor: tasks/supervisor.py
--   Loop        core/src/garis/agent/loop.py and goal.py
--   Health      core/src/garis/models/health.py
--   Router      core/src/garis/models/router.py and base.py
--   Pool        core/src/garis/models/pool.py
--   Verifier    core/src/garis/agent/verify.py (Check) and reflex.py (Reflexes, Table)
--   Vault       core/src/garis/vault.py, with SecretBox of crypto.py; Vault/Tree: resolve_tree
--   Memory      core/src/garis/memory.py; Memory/Secrets: remember_secret
--   Capabilities  core/src/garis/capabilities/base.py and registry.py
--   WebSocket   core/src/garis/api/websocket.py
--   Notifications  core/src/garis/notifications.py, with QuietHours of config.py
--   Voice       core/src/garis/voice/session.py
-- Base, Dict and Rows are what they share: tests and lists, Python's dict, and a table of SQLite as the
-- list of its rows. The modules below a component hold its proofs, named for what they prove, and its
-- concrete runs (Tests).
--
-- State. An operation takes the state and returns the new one with its result; an exception is a
-- constructor of the result, or `none`. Clocks, new ids and what other tasks do while one waits are
-- arguments. Interleavings of coroutines are lists of operations: each stands for the code between two
-- suspensions, which asyncio runs without interruption.
--
-- Loops. The acquisition of leases runs over the list of its rounds, each with the reading of the clock
-- and the changes of the others, and ends at the first round past the deadline.
-- The agent loop recurses on the repairs left (two at first) and within one plan on the steps left, the
-- attempts of a step on their number. The loop of `read_frame` has as fuel the number of bytes that the
-- stream has, and one more; a turn takes at least two. The rounds of `spread` are as many as the ranking
-- is long, and no provider has more. All other loops are over lists.
--
-- Parameters. `str.strip`, `str.lower`, paths, hashes, regular expressions and `json` belong to Python;
-- they are arguments of the definitions that use them, as is AES-GCM. Of AES-GCM it is asked that what
-- was sealed with a context opens with it, of JSON that what was dumped loads again, of the hash of the
-- settings of a provider that it tells its old settings from its new ones. Handlers of tools
-- and executors of capabilities are arguments too, as are the planner, the verifier, the runtime and the
-- journal of the agent loop, its outcome in the supervisor, and the replies of models in the router.
--
-- Not modelled: the planner, the adapters of the providers, most settings, the search of the memory, the
-- rest of the API, the tools and the desktop application; texts for the user, durations, the file of the
-- master key, and the order of keys in JSON.
pub mod Base
pub mod Dict
pub mod Rows
pub mod Contracts
pub mod Leases
pub mod Effects
pub mod Approvals
pub mod Actions
pub mod Policy
pub mod Executor
pub mod Voice
pub mod Tasks
pub mod Outbox
pub mod Health
pub mod Loop
pub mod Router
pub mod WebSocket
pub mod Vault
pub mod Verifier
pub mod Capabilities
pub mod Memory
pub mod Notifications
pub mod Pool
pub mod Audit
