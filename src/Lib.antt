-- ===== src/Lib.antt =====
-- Verification of a Traefik middleware for OpenID Connect, written in Go.
--
-- The middleware stands before a service. `ServeHTTP` (main.go) lets excluded paths through, loads
-- the session from encrypted cookies (session.go), checks or refreshes its token, sends new users
-- to the provider, and on the callback exchanges the code and fills the session. Tokens are
-- verified (main.go, jwt.go) with the provider's keys (jwk.go), which are cached, as verified
-- tokens and a blacklist are (cache.go). The endpoints come from a discovery (main.go,
-- metadata_cache.go), the configuration from settings.go.
--
-- - Base: strings as lists of bytes, signed instants and durations in nanoseconds, maps with string
--   keys as association lists. Error: an error is its text. Platform: what Go's libraries do to
--   decode, parse and verify, a parameter of all that uses it.
-- - Cache models cache.go: items, list and element map as they are there. Cache/Lru is the list of
--   entries in order of use that a cache stands for (Cache/Refines); Cache/Operations, Cache/Cleanup,
--   Cache/Runs and Cache/Reads have the operations, the clean-up, sequences of calls, and reads.
-- - Jwt models jwt.go (`parse_jwt`, `verify` and its parts, the replay cache), Jwt/Signature
--   `verifySignature` and the conversions of jwk.go, Jwks the key cache. Jwt/Accepted, Jwt/Signed and
--   Jwt/Replay have what is accepted, and the second use of a token.
-- - Verifier models the verification and revocation in main.go and the token cache of helpers.go;
--   Verifier/Checked, Verifier/Blacklist and Verifier/Listed what acceptance, revocation and the
--   blacklist mean.
-- - Metadata models the discovery and metadata_cache.go, Settings the configuration and `New`, Url
--   the URLs that main.go and helpers.go build.
-- - Session has the data of session.go: session objects behind references, which the cookie store
--   hands out, and the cookies written. Session/Token has tokens, their compression and chunks,
--   Session/Manager `GetSession`, `Save`, `Clear` and the fields. Session/Chunks, Session/RoundTrip,
--   Session/Expiry, Session/Clearing and Session/Loading have their properties. Session/Sent says
--   which cookies count after `Save`, Session/Next what a browser brings back, Session/Survival and
--   Session/Kept what the next request finds, Session/Carried and Session/Stale the same for a token.
-- - Server has the request, the reply and what a handler takes from outside; Server/Exchange,
--   Server/Initiate, Server/Refresh, Server/Authorize, Server/Callback and Server/Serve are the
--   handlers of main.go and helpers.go under the source's names. Server/Closed, Server/Access,
--   Server/Login, Server/Headers, Server/Forwarded, Server/Replayed and Server/Revocation have their
--   properties.
--   Server/Attempt (what an initiated login leaves in the session), Server/Filled (what the callback
--   writes there) and Server/Completes follow a login over two requests, on Session/Saved and
--   Session/Untouched.
-- - System is the middleware as a whole: `New`, `initializeMetadata`, the refresh and the tickers
--   (autocleanup.go) and the requests. System/Steps has the steps, in any order; System/Genuine,
--   System/Lifecycle and System/Ready what holds of all runs, Server/Preserved, Server/Unchanged and
--   Verifier/Bounded what each request preserves, Metadata/Finds when the discovery succeeds.
-- - Random has the random values of helpers.go and session.go, HttpClient the client of main.go,
--   Settings/Logger the logger, Settings/Members the sets of strings, Session/Cookies the cookie
--   names, Session/Fuel the ends of the loops.
-- - Tests has concrete libraries, runs of the handlers on them, and an application of each result.
--
-- A function takes the instant at which it runs, the answers of the provider, the random values and
-- the failures of the cookie store as arguments; a handler runs at one instant, and what other
-- goroutines do to the sessions during a refresh is a function of the world. Loops run on structure
-- or on fuel: splitting takes the length of the text, as each round takes a byte; the loops over
-- chunk cookies take the number of the request's cookies, as they end at the first one missing;
-- reading chunks takes the size of the map; the discovery makes five attempts as the source does.
-- Integers are not bounded: instants and durations stay far from the bounds of `int64` for times
-- that occur, and a number in a claim stands for its conversion to `int64`.
--
-- Not modelled: the transport of the HTTP client, the texts of log lines, the lengths of the
-- tickers' intervals, the mutexes (a cache sees its calls in sequence), the texts of library errors,
-- the HTML of error pages, and what a browser does beyond `IsNext`. Copies of other projects'
-- libraries under vendor/ are parameters.
pub mod Base
pub mod Cache
pub mod Error
pub mod Platform
pub mod Jwt
pub mod Jwks
pub mod Metadata
pub mod Verifier
pub mod Session
pub mod Random
pub mod HttpClient
pub mod Url
pub mod Settings
pub mod Server
pub mod System
pub mod Tests
