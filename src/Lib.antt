-- ===== src/Lib.antt =====
-- Verification of the Sokol middleware for Traefik, a plugin that asks a local Agent about each request
-- and lets it pass, blocks it, limits its rate or puts a challenge before it.
--
-- One request runs through `ServeHTTP` of middleware.go. It finds the address of the client
-- (client_ip.go, with the ranges of content delivery networks in provider_ranges.go), routes the
-- challenge endpoints (challenge.go), checks the metadata, captures the body (body.go), selects the
-- headers and cookies to describe (forwarding.go), looks for a cached denial (cache.go), asks the
-- circuit breaker (cache.go) and then the Agent (agent.go), and acts on the decision: the request goes
-- on, or the client gets a page (responses.go). `New` of plugin.go validates the configuration and makes
-- all of these parts.
--
-- The files and the code that they model:
--   Prelude       Boolean tests, lists, integers, and Go maps as association lists
--   Text          byte strings: what the code uses of Go's strings, sort and strconv
--   Wire          agent.go: `evaluationRequest` and `evaluationResponse`
--   Breaker       cache.go: `circuitBreaker` with `allow`, `success` and `failure`; Breaker/Phase has
--                 the machine of three phases that it implements, Breaker/Admission the sequences of
--                 calls
--   CacheKey      cache.go: `evaluationCacheKey`, `cacheCompositeKey`
--   Cache         cache.go: `decisionCache` with `get`, `put` and `deleteEntry`; Cache/Invariant and
--                 Cache/Preserved have the invariant, Cache/History the state after a list of calls,
--                 Cache/Hits what a hit says of it, Cache/Reads, Cache/Eviction and Cache/Confused
--                 the single calls
--   Agent         agent.go: `evaluate`, `validateEvaluationResponse`, `lowerHex`, `validPublicReason`;
--                 Agent/WellFormed describes the valid responses field by field
--   Net           what the code uses of net and net/http: addresses, networks, headers, requests
--   Providers     provider_ranges.go: `providerRangeStore` with `replace` and `providerFor`, and
--                 `refresh`; Providers/Lists has `fetch` with the parsers of the lists and `run`
--   ClientIp      client_ip.go
--   Forwarding    forwarding.go, with `validHeaderName` and `validCookieName` of plugin.go;
--                 Forwarding/Bounds and Forwarding/Origin are about what is forwarded,
--                 Forwarding/Complete and Forwarding/Present about what is not left out
--   Body          body.go
--   Inbound       middleware.go: request ID, metadata, scheme, protocol type
--   Middleware    middleware.go: `ServeHTTP`, `handleDecision`, `handleFailure`,
--                 `logClientIPProblem`; challenge.go: the routing. Middleware/Steps is about the state
--                 after a request, Middleware/Guarded about what passes, Middleware/Asked and
--                 Middleware/Sizes about what the Agent is asked, Middleware/Runs about the states
--                 that the middleware comes to, one request after another
--   Challenge     challenge.go: `challengeCreate` and `challengeVerify` with their checks; agent.go:
--                 `challengeRequest` and the checks of what the Agent answers to it
--   Paths         responses.go: `pathWithin`; plugin.go: `validateRelativePagePath`
--   Transport     agent.go: `newAgentClient`, `dialLocalAgent`; plugin.go: `validateAgentEndpoint`,
--                 `localAgentIP`; Transport/Dialling is about what is dialled, Transport/Timely about the
--                 deadline that the lookup and the dials share
--   Config        plugin.go: `Config`, `CreateConfig` (Config/Defaults) and `validateConfig`
--                 (Config/Check); Config/Meaning says what a configuration stands for, Config/Valid and
--                 Config/Timed are about parts of it
--   Pages         responses.go: `pageStore` with `page` and `load`; Pages/Media has `mediaQuality` and
--                 `prefersJSON`, Pages/Write has `write` and the headers, Pages/Fill the replacing of
--                 the placeholders, Pages/Fallback the pages in the source. Pages/Recent, Pages/Safe
--                 and Pages/Served are about the pages, Pages/Headers, Pages/Cors, Pages/Markup and
--                 Pages/Written about the responses
--   Start         plugin.go: `New`, `readTokenFile`; Start/Ready is about the plugin that it makes,
--                 Start/Total about every way that it ends
--
-- A struct is a record, an enum a data type, a string or a byte slice the list of its bytes, a Go map an
-- association list, a `time.Time` and a `time.Duration` the number of its nanoseconds, with 0 for the
-- zero time; `nil` is `none` and an error a value. An operation that changes its receiver returns the
-- new one. Locks are left out: each method of the cache and of the breaker holds its own from start to
-- end, so that requests which interleave are sequences of these calls. The order in which Go ranges
-- over a map is that of the association list; where it replaces the placeholders of a page, it is that
-- of an argument, `shuffle`.
--
-- The one loop with fuel is that of `format_uint`, with 20 rounds: a `uint64` has at most 20 decimal
-- digits. `int64` in Prelude wraps the product that makes a lifetime of milliseconds. Letters are those
-- of ASCII where the code changes case, and spaces those of ASCII where it trims.
--
-- Parameters, since their code is not in this repository: the SHA-256 digest with its hex encoding, the
-- JSON decoder (what it decodes, how many bytes it takes, whether the input is then at its end), the
-- HTTP exchange with the Agent, `net.ParseIP`, `net.SplitHostPort`, `IP.String`, `mime.ParseMediaType`,
-- `utf8.ValidString`, `Request.Cookies`, `url.Parse` with `URL.Hostname`, `URL.Query` and
-- `URL.EscapedPath`, `url.QueryEscape`, `net.ParseCIDR`, `IPNet.String`, the XML decoder, the HTTP
-- replies of the sources of provider ranges, the resolver and the dialer (each with the time at which it
-- returns), `path/filepath`, the file
-- system (which may change between any two calls), `time.ParseDuration`, `float64` with its order and
-- `strconv.ParseFloat`, the random identifiers and the clocks.
--
-- Not modelled: the settings of the HTTP transports, the goroutine and the ticker behind the refresh of
-- the provider ranges (its rounds are a list, each with its clock), the text of the JSON answers, the
-- headers of the answers of the challenge endpoints, the texts of the error messages, the test harness
-- and the scripts.
pub mod Prelude
pub mod Text
pub mod Wire
pub mod Breaker
pub mod CacheKey
pub mod Cache
pub mod Agent
pub mod Net
pub mod Providers
pub mod ClientIp
pub mod Forwarding
pub mod Body
pub mod Inbound
pub mod Middleware
pub mod Challenge
pub mod Paths
pub mod Config
pub mod Transport
pub mod Pages
pub mod Start
