-- ===== src/Lib.antt =====
-- goauth-server, an OAuth 2.0 authorization server: its services, middleware and handlers.
--
-- The program serves HTTP requests. Each handler calls a service (internal/service/...), and the
-- services read and write a PostgreSQL database through the queries of internal/repository. The
-- modules here follow that layering:
--
--   Prelude             Boolean tests, tables as lists of rows, the operations on texts
--   Model               internal/repository/models.go: the rows, and the database that holds them
--   Environment         what the program does not implement: the faults of the database server, the
--                       clock, random bytes, UUIDs, digests, signatures, encodings
--   Exec                methods that change the database and may fail; Exec/Keeps has the rules for
--                       invariants, Exec/Hoare those for pre- and postconditions, Exec/Facts those
--                       for what a method has found out where it goes on, and Exec/Served those
--                       for steps that succeed
--   Repository          internal/repository/*.sql.go: one definition for each query, named after it
--                       (MarkRefreshTokenUsed is mark_refresh_token_used); Repository/Frames and
--                       Repository/Blind say which tables a query leaves alone, Repository/Logged that
--                       the audit log stops nothing, Repository/Updated what an update leaves
--   Password            internal/util/password: the policy for new passwords
--   Auth                internal/service/auth: Auth/Service (auth.go, token.go), Auth/Authorization
--                       (ExchangeCodeForToken), Auth/Rotation (RotateRefreshToken), Auth/Revoke
--                       (revoke.go and the revocations of authorization.go), Auth/Login (login.go),
--                       Auth/ChangePassword (change_password.go); Auth/Calls is a server that
--                       handles one call of these after another. Each has its proofs below it.
--                       Auth/Provider is the redirect to a provider and its callback
--                       (authorization.go, provider_client.go), Auth/Challenge the challenge tokens
--                       (token.go)
--   ClientService       internal/service/client: the administration of clients, with the validators
--   UserService         internal/service/user
--   SessionService      internal/service/session: listings and revocations of codes and tokens
--   ProviderService     internal/service/provider: the providers, whose secrets are encrypted
--   Http                requests and replies, and the steps of a handler or a middleware
--   Middleware          internal/middleware: the gates for tokens, administrators, CSRF and rates, and
--                       the chains of the routes (transport/http/api/v1/router.go)
--   Api                 internal/transport/http/api/v1/handler, one module for each file of handlers
--   Web                 internal/transport/http/web/handler: the redirect of a browser to a provider
--                       and the callback, whose session travels in a signed cookie
--   Tests               a small world in which the theorems are applied
--
-- A method is a function from a world, which is the database and the number of questions that were put
-- to the environment, to a result or an error and the next world; what was written before an error
-- stays written, since the services use no transactions. Every statement may fail, and then changes
-- nothing; the n-th answer of the environment is arbitrary where a theorem does not limit it: the clock,
-- the faults and the random values. Errors are data, with `fmt.Errorf("...: %w", err)` as the
-- constructor `wrap`. A long method of the source is cut at its numbered steps into definitions that
-- call one another in that order. There are no loops without a bound, and so no fuel: the loops of the
-- source go over lists.
--
-- Durations are the patterns of 64-bit integers and wrap around as in the source; times are natural
-- numbers of nanoseconds. The calls of a sequence do not overlap: each query is atomic, but the
-- interleaving of two requests between their queries is treated only where a theorem says so. Foreign
-- keys are not modelled, but a statement may fail for that reason as for any other. Not modelled:
-- what the replies carry besides status, body and the session cookie that is set; the texts of most
-- errors; the picture of a user; the map of the rate limiters, CORS and the security headers; the
-- bootstrap of the first administrator, metrics, logging, the reading of the configuration and of the
-- keys, and the start of the server: they are input and output, or tables of settings.
pub mod Prelude
pub mod Model
pub mod Environment
pub mod Exec
pub mod Repository
pub mod Auth
pub mod Http
pub mod ClientService
pub mod UserService
pub mod SessionService
pub mod ProviderService
pub mod Middleware
pub mod Api
pub mod Web
pub mod Password
mod Tests
