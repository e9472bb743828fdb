-- ===== src/Lib.antt =====
-- PROMPT SDK: the library that the course phase services of the PROMPT platform share.
--
-- A service puts middlewares in front of its routes. `AuthenticationMiddleware`
-- (keycloakTokenVerifier) verifies the bearer token of a request, reads the caller's roles from
-- its claims, asks the core service for the roles of the course phase, and lets the request pass
-- or answers it. `TutorScopingMiddleware` finds the team of a tutor, and tutorscope decides which
-- teams a caller may write. The audit middleware records what a request did and ships it to core.
-- Resolutions are fetched from other services and merged into the data of core, and the standard
-- endpoints of promptTypes serve exports and deletions, an export through the archive of
-- utils/export.go. bootstrap.go starts a service: it builds the URL of the database, runs the
-- migrations with credentials masked in what they write, sets up Sentry and serves until the
-- process is told to stop.
--
-- Files and code:
-- - Prelude and its children: Go strings as byte sequences, tests, lists; no code of the
--   repository.
-- - Identity: keycloakTokenVerifier/tokenUser.go, roles.go, the answers of core as records.
-- - Event: audit/event.go.
-- - Gin: the request context of the web framework, as the program uses it. A middleware is a
--   function of the context; one with no code after c.Next() passes a request on if it leaves it
--   not aborted.
-- - Json: decoded JSON values.
-- - CoreRequests: keycloakTokenVerifier/keycloakCoreRequests, one function for each request.
-- - Memberships: keycloakTokenVerifier/tokenUser.go, getLecturerAndEditorRole.go,
--   getIsStudent.go, the user of a request and what core says of them.
-- - Auth: keycloakTokenVerifier/authMiddleware.go, subjectIdentifierMiddleware.go. Auth.Granted
--   states who may pass, Auth.RoleSets and Auth.Lookups carry the lemmas, Auth.Passed and
--   Auth.Admitted the two directions of Auth.Decision, which with Auth.Refusals on the reasons of
--   Auth.Reasons, Auth.Kept and Auth.Platform has the theorems.
-- - Keycloak: keycloakTokenVerifier/keycloakMiddleware.go and main.go, with Keycloak.Claims on
--   the roles and Keycloak.Sound on the composite middleware.
-- - TutorScope: keycloakTokenVerifier/tutorScopingMiddleware.go, tutorscope/resolver.go,
--   tutorscope/authorize.go, internal/login/login.go, with TutorScope.Write on the access,
--   TutorScope.Read on the reads that stay open, TutorScope.Resolve on the resolver and
--   TutorScope.Construction for how it is made.
-- - Audit: audit/context.go, audit/middleware.go, audit/config.go, with Audit.Action for
--   audit/action.go and Audit.Actors for the actor. What `write` hands to the delivery goes to
--   the outbox of the context. Audit.Named, Audit.Outcomes and Audit.Flush have the theorems on
--   the middleware, Audit.Stable one on the order of a map of roles, Audit.Delivery the slots of
--   the delivery as a step relation, Audit.Sink audit/sink_http.go.
-- - Export: utils/export.go, with Export.Paths for the paths of entries, Export.Safe on them,
--   Export.Calls and Export.Additions on sequences of calls and Export.Indexed on what is sent.
-- - Validator: utils/validator.go, with Validator.Exact on what the validators take and
--   Validator.Registry for their registration.
-- - Ownership: keycloakTokenVerifier/ownership.go.
-- - Resolution: resolution.go and utils/fetchJSON.go, with Resolution.Targets for the URLs,
--   Resolution.Traversal on where a request can lead and Resolution.Merge on the merged data.
-- - Endpoints: the endpoints of promptTypes, with Endpoints.Hosts and Endpoints.DataExport for
--   promptTypes/privacyExport.go, Endpoints.Deletion on the two deletions and Endpoints.Modules
--   for whole routes.
-- - Startup: bootstrap.go, initPhaseKeycloak.go and utils/getCoreUrl.go, with Startup.Traces on
--   the order of steps, Startup.Serving for the threads of serveUntil, Startup.Drained on their
--   runs and Startup.Refinement on the service that they implement.
-- - Masking: utils/runMigrations.go, with Masking.Chunks on its output, Masking.Credentials for
--   utils/sanitizeDatabaseUrl.go, Masking.Pieces and Masking.Secrets on what it masks, and
--   Masking.Hidden on the output of a run.
-- - Answers: promptTypes/applicationAnswer.go, with Answers.Exact on what is read.
-- - DatabaseUrl: utils/getDatabaseUrl.go and utils/getEnv.go with the escaping of net/url,
--   DatabaseUrl.Escaping on the escaped texts, DatabaseUrl.Credentials on reading them back and
--   DatabaseUrl.Masked on URLs in masked texts.
-- - TestDb: testutils/db_setup.go, with TestDb.Order, TestDb.Unique and TestDb.Permuted on sorted
--   files, TestDb.Versions on the accepted directories and TestDb.Balance on what is opened and
--   closed.
-- - Sentry: utils/sentryEventHook.go, with Sentry.Fields, Sentry.Switches, Sentry.Placed and
--   Sentry.Events on the fields of an entry, and Sentry.Init for utils/initSentry.go.
-- - Mocks: testutils/mockAuthMiddleware.go. Cors: utils/corsConfig.go.
-- - Tests: the theorems at concrete inputs.
--
-- Not modelled: the start of the OIDC provider, the records that only carry data, and the
-- wrappers around the database driver and the HTTP client (utils/dbTransactionRollback.go,
-- utils/handleError.go, utils/errorResponse.go, utils/sendCoreRequest.go), which call outside
-- code and decide nothing.
--
-- Parameters: the network and the core service, the JSON decoder, the UUID library, the OIDC
-- verifier, the environment, the migration tool, the Sentry library, the containers and databases
-- of tests, and the Unicode tables for texts that are not ASCII. Loops over lists are structural,
-- so no fuel is used here. A panic of a request is a value where the code can panic. Logging and
-- the bodies of answers are left out; an answer is its status.
pub mod Answers
pub mod Audit
pub mod Auth
pub mod CoreRequests
pub mod Cors
pub mod DatabaseUrl
pub mod Endpoints
pub mod Event
pub mod Export
pub mod Gin
pub mod Identity
pub mod Json
pub mod Keycloak
pub mod Masking
pub mod Memberships
pub mod Mocks
pub mod Ownership
pub mod Prelude
pub mod Resolution
pub mod Sentry
pub mod Startup
pub mod TestDb
pub mod Tests
pub mod TutorScope
pub mod Validator
