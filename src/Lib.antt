-- ===== src/Lib.antt =====
-- A model of httpc, an HTTP client for Go with retries, caching, a circuit breaker, response limits
-- and protection against server-side request forgery (SSRF), and the theorems that make it correct.
--
-- The program. `Client.Do` (client.go) checks the request's URL against an IP policy (ssrf.go), asks the
-- circuit breaker (circuitbreaker.go) for its host, runs the hooks of the caller, sends the request
-- through a retrying client (helpers.go decides on retries and waits), limits the body of the
-- response, tells the breaker the result, and repeats the request once after a 401. Below it, the
-- hooks of the transport (client.go, policyTransport) judge every address that is dialed, and, for a
-- request that goes through a proxy, its target; the verdicts on targets are cached for a while.
-- Responses are unpacked under a limit (compression.go), counted (metrics_transport.go), and cached on disk
-- or in memory (filecache.go, memorycache.go), under keys that carry the policy's fingerprint. A client is built from a configuration
-- whose layers are merged (appconfig.go).
--
-- The files, and what they model:
--   Prelude (with Int, Text, Dict, Lists, Splits, Decimal, Tests): names that all modules share; signed
--     integers, texts as lists of code points, dictionaries as association lists, numbers as text.
--   Errors: Go errors as the chain that errors.Is and errors.As walk.
--   Net: the parts of the standard package net that the tables of ssrf.go stand on, as its
--     documentation has them: IP addresses in 4 and 16 bytes, networks, masks, Contains.
--   Policy: ssrf.go, IPPolicy.CheckIP (`check_ip`), embeddedIPv4, the tables of blocks; Policy/Tables:
--     PrivateIPNets, MetadataIPNets and cloneIPNets, over a memory in which slices may share bytes.
--   Url: ssrf.go, ValidateURL (`validate_url`), ValidateURLResolved, ControlFunc (`control`),
--     NewIPPolicy. Parsers and the resolver are the record `Platform`.
--   VerdictCache: client.go, targetVerdictCache (`check`, `admit`, `evict_if_full`); VerdictCache/Interleaved:
--     the Load, the validation and the section under the lock of each call, as goroutines interleave them.
--   Dial: client.go, the Proxy, DialContext and DialTLSContext hooks, checkDialedConn, remoteIP,
--     validateProxiedTarget; Dial/RoundTrip: markingTransport.RoundTrip, whose attempts share a marker.
--   Breaker: circuitbreaker.go, allow, recordSuccess, recordFailure, getState; Breaker/Interleaved:
--     their sections under the locks and their calls of the metrics collector, as goroutines interleave them.
--   Body: client.go, limitedReadCloser, and compression.go, gzipReadCloser.
--   Compression: compression.go, compressionTransport.RoundTrip (`round_trip`).
--   Retry: helpers.go and wrapCheckRetryWithMetrics of client.go.
--   Client: client.go, Client.Do (`do_request`) and handleAuthRetry; Client/Tripped: Do and the breaker
--     together, in calls one after the other.
--   Defaults: defaults.go, the constants and defaultCacheDir.
--   ClientConfig, AppConfig: client.go, DefaultConfig and ipPolicy; appconfig.go, MergeAppConfig and
--     NewClientFromAppConfig (`client_config`) up to the call of NewClient.
--   Disk: the files of a directory, as package os shows them to filecache.go.
--   FileCache: filecache.go, the state, Del (`del`) and the names of files; FileCache/Setting and
--     FileCache/Getting: Set (`set`) and Get (`get`); FileCache/Upkeep: Clear, CleanExpired, Close,
--     Stats and the tracked size; FileCache/Open: NewFileCache, and expandHome
--     of defaults.go; FileCache/Spec: the map with a time to live that the cache refines;
--     FileCache/Writers: the calls of Set one by one, for Sets that interleave.
--   MemoryCache: memorycache.go, the counting wrapper.
--   Metrics: metrics_transport.go, parameterizePath, extractMetricLabels, categorizeError, RoundTrip.
--   Fingerprint: ssrf.go, fingerprint of a policy; Fingerprint/Identity: resolverIdentity.
--   Assembly: client.go, NewClient (`new_client`), newBaseTransport, setupTransport, wrapTransport,
--     newCache, CheckRedirect, urlPolicyTransport.
--   Management: client.go, Get, Post, Put, Delete, and the methods of Client on the cache.
--
-- How state is modelled. An operation takes the state and gives the new one; a lock makes an operation one
-- step, and a run is a list of steps in the order in which the locks are taken (Breaker/Steps); in
-- Breaker/Interleaved the read lock, the write lock and the calls after it are steps of their own. Times
-- are arguments, in nanoseconds. The effects of Do are a list of events; a panic is one, after which it
-- returns nothing. A value that may be nil
-- is an option; a *bool, too. The text of an error keeps its fixed part.
--
-- Fuel. CheckIP calls itself on an embedded IPv4 address, which embeds none: it runs on fuel 2, which
-- Policy/CheckIp shows to satisfy the source's recursion. All other loops are structural.
--
-- Integers. Products of durations wrap at 64 bits (`wrap64`). Counters (failures, bytes, entries) are
-- natural numbers: to overflow them takes 2^63 steps.
--
-- Files. Each call of package os, and each look at a context, returns what an argument says: an operation is
-- modelled for every way in which its calls may fail. Runs of operations are sequences of whole operations,
-- but in FileCache/Writers, where Sets interleave call by call.
--
-- Not modelled: loggers; the metrics interface, whose methods do nothing or are the caller's;
-- mustParseCIDRs, which parses the tables when the program starts: the model has them parsed; and the code of
-- other packages (retryablehttp, otelhttp, httpcache, net/http, os, reflect), which is a parameter where the
-- model calls it.
pub mod Prelude
pub mod Errors
pub mod Defaults
pub mod Breaker
pub mod Net
pub mod Policy
pub mod Url
pub mod VerdictCache
pub mod Body
pub mod Compression
pub mod ClientConfig
pub mod AppConfig
pub mod Retry
pub mod Dial
pub mod Client
pub mod Disk
pub mod FileCache
pub mod Metrics
pub mod MemoryCache
pub mod Fingerprint
pub mod Assembly
pub mod Management
