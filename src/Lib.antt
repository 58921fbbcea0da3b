-- ===== src/Lib.antt =====
-- Docker-faas: a gateway that deploys functions as Docker containers, routes calls to them, and builds
-- their images. The gateway (pkg/gateway) answers HTTP requests behind the middlewares of
-- pkg/middleware; it keeps the functions in a table (pkg/store), their containers with the Docker
-- daemon (pkg/provider), and the history of builds in memory. pkg/router sends a call to one of a
-- function's containers.
--
-- Which file models which part:
-- - Base and its children: shared names, the tests on numbers and texts, lists, results of calls,
--   signed integers, maps as association lists, and the functions of Go's package `strings` in use.
-- - Auth.Manager: pkg/auth/manager.go (Issue is `issue`, Validate `validate`, Revoke `revoke`).
-- - Auth.Limiter: pkg/middleware/rate_limiter.go (`allow`, `reset`; the nil limiter is `none`).
-- - Auth.Gate: pkg/middleware/auth.go, with clientKey; Middleware is `middleware`, and the answer is
--   the next handler's turn, 401 or 429.
-- - Auth.Cors: pkg/middleware/cors.go.
-- - Auth.Login: HandleLogin and HandleLogout of pkg/gateway/auth_handlers.go.
-- - Builder: pkg/builder/manifest.go; Builder.Templates: pkg/builder/templates.go.
-- - Config: pkg/config/config.go.
-- - Builds.Tracker: pkg/gateway/build_tracker.go, one function for each method; a channel is the list
--   of what waits in it.
-- - Builds.Filter: filterBuildEntries and parseCSVSet of pkg/gateway/builds_handlers.go.
-- - Builds.Archive, Builds.Buffer and Builds.Context: validateZipArchive, limitedBuffer, and what puts
--   files into a build's directory (extractZip, writeInlineFiles, safeJoin), of
--   pkg/gateway/build_handlers.go.
-- - Gateway: the handlers of pkg/gateway/handlers.go that deploy, update, delete, scale and invoke a
--   function and report the gateway's health, scaleFromZero and waitForFunctionReady, over the interfaces of pkg/gateway/interfaces.go; the
--   types of pkg/types/types.go; validateFunctionName and normalizeFunctionName. Gateway.Laws says
--   what the handlers rely on of the store and the provider.
-- - Gateway.GitUrl: validateGitURL and the rest of pkg/gateway/validation.go.
-- - Gateway.Build (HandleBuildFunction), Gateway.BuildRequest and Gateway.Built (deployBuiltImage):
--   pkg/gateway/build_handlers.go.
-- - Store: pkg/store/store.go over a database that is a parameter; its theorem fills the laws of
--   Gateway.Laws.
-- - Store.Migrations: pkg/store/migrations.go over a transactional database; Migrations.History says what
--   a transaction promises.
-- - Secrets: pkg/secrets/secrets.go over a file system; Secrets.Handlers: the handlers of
--   pkg/gateway/secrets_handlers.go. Secrets.Files says what is relied on of files.
-- - Provider.Containers and Provider.Plan: what pkg/provider/docker_provider.go reads from the list of
--   containers, and buildReplicaScalePlan. Provider.Docker: the calls of the Docker client.
--   Provider.Networks, Provider.Create (createContainer), Provider.Operations (deploy, update, remove,
--   scale), Provider.Listing and Provider.Resources (parseMemory, parseCPU): the rest of that file.
-- - Provider.Reconciler: ReconcileOnce of pkg/provider/reconciler.go over a daemon that is a parameter.
-- - Router: selectContainer of pkg/router/router.go.
--
-- Conventions: a time is a count of nanoseconds, the zero time is 0, and the clock is read by the caller
-- or is a field of a parameter; Go's int and Duration are signed integers where the sign matters; a uint64 wraps
-- around at 2^64; a Go error is its text; a nil pointer, map or slice is `none`; a read out of bounds,
-- a panic in Go, is `none`. A handler passes the state of what lies outside the gateway through its
-- calls and stops at an error, as the source returns. A mutex makes each method one step. No definition
-- runs on fuel: loops are recursion on the list they go over, and the wait for a function goes over
-- the rounds of its select, with a theorem on when it ends.
--
-- Third-party code is a parameter: the Docker client, the SQL database, the JSON encoder, the HTTP
-- parser. What is asked of it is stated in a record of laws beside its use (StoreLaws, ProviderLaws,
-- DatabaseLaws, TransactionLaws, FileLaws, DiskLaws, ContainerLaws, ListingLaws, NetworkLaws, DaemonLaws), and a test module fills each with a concrete one.
--
-- The preparation of a build's context and the build of its image are operations of the record Builder of
-- Gateway.BuildRequest.
--
-- Not modelled: git clones and the composition of prepareBuildContext, the inspection
-- of sources, the HTTP side of lists, logs and event streams, the forwarding of calls and asynchronous
-- invocations, which are input and output; the construction of the provider and of the program; logs and
-- metrics other than the gauges that the handlers set. Upper and lower case are those of ASCII.
pub mod Base
pub mod Auth
pub mod Builder
pub mod Builds
pub mod Config
pub mod Gateway
pub mod Provider
pub mod Router
pub mod Secrets
pub mod Store
