-- ===== src/Lib.antt =====
-- SecureMCP: a server of the Model Context Protocol that lets a client call tools under a policy,
-- with bounded execution and an audit that has to acknowledge what it is given. A transport (HTTP or
-- stdio) hands a tool call to the runtime. The runtime asks the policy, bounds the arguments, takes
-- a slot of the execution controller, has the audit acknowledge that the call is allowed, runs the
-- tool's handler, bounds the result and has the outcome recorded. The audit dispatcher hands each
-- record to a sink, for example the socket of a collector, and refuses all further work once a record
-- may have been lost.
--
-- The files, and the code that each models:
-- - Shared (Tests, Lists, Text, Bits): the library names that the others use, Boolean tests, lists that
--   are measured by native numbers, texts, character classes and bit operations.
-- - Errors: src/errors.ts, `failureCode` and the values that code may throw.
-- - Policy: src/policy.ts, `mayInvoke` as `may_invoke`, at the time `now_ms`.
-- - Execution: src/execution.ts. A `Controller` keeps a task for every promise that `run` returned; the
--   tasks whose flag `held` is set are the set `active`. `step` is one turn of the event loop: a call of
--   `run` or `close`, the end of the drain, or an event of one task (its timer, its caller's abort, the
--   start and the end of its work, the settlement that frees the slot). Lists of events are all
--   interleavings.
-- - Input: src/input.ts. Values stand in a heap, so that they may be shared or cyclic. `walk` is the
--   outer loop of `withinInputElementLimit` on fuel `maximum + 2`: every round but the last counts at
--   least one entry or ends the walk, and more than `maximum` entries end it.
-- - Audit: src/audit.ts. The module itself has the events and `auditContext`; Audit.Dispatcher has
--   AuditDispatcher as a state with one step for each event, Audit.Wire the wrapped `send` and
--   `onmessage` of AuditedMcpServer and the `observeProtocolError` of src/runtime.ts.
-- - Collector: src/collector.ts, `socketAuditSink`. A record is the number of records accepted before
--   it, a connection a number of its own. What the sink does to the outside (records accepted, written,
--   resolved and rejected) is kept in lists.
-- - Runtime: src/runtime.ts, `invoke` with its operation as actions that may throw and leave acts;
--   Runtime.Registry has `register`, `create` and `visibleTools`.
-- - Http: src/http.ts. Http.Target has `requestPath` and the match of the bearer token on code units,
--   Http.Routing the request handler up to the authentication as a decision, Http.Admission the counts
--   `authenticating` and `requests` and the counters with one step for each arrival, end of a
--   verification, settled terminal record and call of `close`, and Http.Adapter the `fetch` of the
--   adapter. The URL parser, the host check, the token verification and the SDK's handler are
--   parameters.
-- - Identity: src/identity.ts, the checks of `createTokenVerifier` on the claims that `jwtVerify` gives,
--   with times in whole seconds.
-- - Tools: src/tools.ts, `documents_read` of createDocumentTool. The loop that reads is on fuel
--   `maximum + 2`: every read but the last gives a byte, and the buffer has `maximum + 1`. The operating
--   system is a parameter. Tools.Api is `api_read` of createApiTool, with the response as a parameter;
--   its loop is on fuel `maximum + 1`, which is enough if no chunk is empty.
-- - Config: src/config.ts, the rules of `superRefine` and `parseConfig` over any schema. Config.Values has
--   the values of JSON and what the schema is put together from, Config.Schema `configSchema` below these
--   rules; the URL parser is a parameter.
-- - Startup: Startup.NodeVersion is src/node-version.ts, Startup.Diagnostics src/startup-diagnostics.ts,
--   Startup.Cli `main` of src/cli.ts as steps that may fail, with the operating system as a parameter, and
--   Startup.Cli.Stopping the end of the process.
-- - V1: the first version, under legacy/v1/src. V1.Redis is the interface to Redis: operations on a
--   store of any type, and laws that its documentation states; V1.Redis.SortedSets and
--   V1.Redis.Writes add the sorted sets and the pipelines, V1.Redis.Sample is a Redis for the tests,
--   and V1.Lock.Timed one whose keys expire. V1.Actions has methods that act on a store and return or
--   throw. V1.Lock is auth/distributed-lock.ts; what others do to the store during a sleep is a
--   parameter, and the loop recurs on the attempts that are left. V1.RateLimiter is
--   auth/token-rate-limiter.ts; V1.RateLimiter.Window is a sliding window over distinct milliseconds,
--   and V1.RateLimiter.Refines compares the two. V1.Blacklist is auth/token-blacklist.ts; the loop
--   over SCAN is on fuel, one for each command, and `none` is a loop that still runs. V1.Jwt is
--   auth/jwt-service.ts, which calls these three: its data, V1.Jwt.Revoking what revokes and
--   V1.Jwt.Tokens what makes, verifies and refreshes tokens. V1.Mcp is server/mcp-security.ts:
--   V1.Mcp.Cache the replay cache, V1.Mcp.Values what is made of values, V1.Mcp.Schemas the schemas
--   of zod, V1.Mcp.Message `validateMessage`, V1.Mcp.Requests the other checks. V1.Totp is
--   auth/crypto/totp-generator.ts; its loops run on the list of what `randomBytes` gives, and `none`
--   is a loop that has not ended.
--
-- Parameters of the model: SHA-256 (a function on the hashed code points or units), whether
-- `socket.write` takes more, whether the audit acknowledges a record, the SDK's schema parser, the abort
-- signal at each check, the handler, and the lengths of serialized values (the fields of `World`); for
-- the first version also Redis, its Lua's number texts and first random number, DOMPurify, JSON,
-- jsonwebtoken, the vault and the messages of zod.
--
-- Not modelled: the text of the metrics and of log lines, the order in which the shutdowns of the
-- runtime and of the HTTP server wait for one another, the terminal outcome of an HTTP trace, the
-- request scopes of the audit and its JSON sink, the signature of a token, the texts of help and of
-- the doctor report, and the rest of the first version, which is mostly servers, sockets,
-- containers and databases. Doubles are exact in the entropy of V1.Totp.Codes, where the code
-- rounds. In an interrupted call the model lists what its operation still does before the record of
-- the interruption, where the code may do these at the same time. Between the Redis calls of one
-- method of V1.Jwt or V1.Blacklist nobody else writes, except while it sleeps for a lock. The
-- `JSON.stringify` of a tool's result always gives a text in the model, a URL of the configuration is
-- not trimmed, and the times in a token are whole seconds that are not negative.
pub mod Shared
pub mod Errors
pub mod Policy
pub mod Execution
pub mod Input
pub mod Audit
pub mod Collector
pub mod Runtime
pub mod Http
pub mod Identity
pub mod Tools
pub mod Config
pub mod Startup
pub mod V1
