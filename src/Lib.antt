-- ===== src/Lib.antt =====
-- OpenTrusty, an identity provider for OAuth 2.0 and OpenID Connect: a model of its services on the
-- tables of its database, and what is proved of them.
--
-- The program. The router and the HTTP handlers (internal/transport/http) call services: sessions
-- (internal/session), tenants (internal/tenant), identities and their bootstrap
-- (internal/identity), authorization (internal/authz), OAuth2 (internal/oauth2) with an OIDC
-- provider (internal/oidc). A service reads and writes through repositories
-- (internal/store/postgres) and reports to the audit log (internal/audit). The process
-- (cmd/server) reads a configuration (internal/config) and logs (internal/observability).
--
-- Files.
--   Domain/*: the structs of internal/*/models.go, keys.go, user.go and session.go, with their
--     fields; a row of a table has the fields of the struct, or a record of its own where the table
--     has fewer.
--   World: the state, which is the tables, the audit log and the count of calls out of the program,
--     and the monad `M A = World → Result A × World`, in which each method of a service or a
--     repository is one function of the same name in snake case. What is written before an error
--     stays written, since no method opens a transaction. World/Frame: which steps keep a part of
--     the state.
--   Store/*: one file per repository of internal/store/postgres, one function per method; a table is
--     the list of its rows in the order of insertion, and the keys and checks of the schema
--     are tests. Store/Sessions/AsMap: the map that the repository of sessions stands for.
--   Session, Identity/Service, Identity/Password, Identity/Bootstrap, Authz, Authz/Permissions, Oidc,
--     Oidc/KeySet, Oauth2/Client, Oauth2/Service, Oauth2/Authorize, Oauth2/Exchange, Oauth2/Refresh,
--     Oauth2/Encryption, Tenant: the services. The two grants of the token endpoint are cut into the
--     numbered steps of the source; Oauth2/Exchange/Race has two halves of one of them, between
--     which another request may run.
--   Http, Http/Login, Http/Oauth2, Http/Clients, Http/Tenants, Http/Profile: middleware and handlers
--     of internal/transport/http, from a request to a reply; a call of a service goes through
--     `attempt`, so a handler replies whatever fails; a panic of argon2, which the middleware
--     `Recoverer` answers with 500, ends the request with the error `panicked`. Http/Router: from a mode, a method and the segments of
--     a path to the middleware and the handler. Http/RateLimiter: ratelimit.go; Http/Router/Front
--     puts it before the routes.
--   Audit: the line of an event. Config, Startup, Logging: internal/config, what cmd/server makes of
--     it and of its arguments, and internal/observability/logger.
--   Prelude, Text: tests, tables as lists, integers, and functions of the packages strings.
--   The files below a service prove what is listed under Results; Tests/* run the definitions.
--
-- The environment. What the program calls outside its own code is the record `Env` of World: the
-- clock, identifiers, random bytes, failures of statements, SHA-256, base64, Argon2id and the
-- signature of JWTs. The n-th call is answered by the n-th entry, so a theorem for every environment
-- holds for every clock and every pattern of failures. `outage n` stands for a failure of the n-th
-- statement before it has an effect. AES-GCM, the limiter of golang.org/x/time/rate, the handlers
-- of slog, os.Getenv and time.ParseDuration are arguments of the definitions that call them.
--
-- Times. The clock reads nanoseconds. What a TIMESTAMP keeps are the microseconds of a process whose
-- zone is UTC: the tables of sessions, codes, tokens and keys, whose times decide who is let in, are
-- written through `stored_time`. The other tables keep the nanoseconds in the model; their times
-- order listings and decide nothing else.
--
-- Numbers. Times are nanoseconds, and durations, limits and counters of the services are natural
-- numbers: they are those of a configuration that is not negative, and their sums stay far below
-- 2^63. The configuration itself is read into integers, with the bounds of strconv.Atoi and the
-- conversions to uint32 and uint8 written out; the scanners of a password hash keep the bounds of
-- the machine integers they fill. The fuel of `decimal` is one more than its number, and that of
-- `bytes_from` is its number: both divide by 10 or by 256 in each step.
--
-- Not modelled: the pages of the SPA; foreign keys and cascades, other than those of roles; the
-- migrations and the pool of connections; the wiring of the services and the server loop; metrics
-- and tracing; the attributes of log lines other than those of the audit log. Each call
-- of a service is one step, and calls that interleave are not modelled but for the redemption of a
-- code.
pub mod Prelude
pub mod Text
pub mod Domain
pub mod World
pub mod Store
pub mod Session
pub mod Tenant
pub mod Audit
pub mod Config
pub mod Logging
pub mod Authz
pub mod Oidc
pub mod Oauth2
pub mod Identity
pub mod Http
pub mod Startup
pub mod Tests
