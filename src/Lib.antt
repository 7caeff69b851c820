-- ===== src/Lib.antt =====
-- A model of the SP-API smart proxy, a reverse proxy in Go that adds caching, rate limiting,
-- restricted data tokens and the redaction of personal data to the traffic between sellers'
-- programs and Amazon's Selling Partner API.
--
-- A request passes through a chain of middlewares: the merchant is resolved, the request is logged,
-- the rate limiter waits or rejects, the cache answers what it has, the token middleware swaps the
-- access token, and the reverse proxy sends it on. The parts that are modelled here, with the files
-- that do it:
--
-- internal/cache/memory.go (Cache/Memory): the LRU cache. `MemoryCache` has the code's map, its
-- recency list of addressed elements, its byte count and its counters; `get`, `set`, `delete`,
-- `delete_by_prefix`, `stats`, `close` and `evict_expired` are the methods of these names. Its
-- children have the invariant that the three views of the contents agree (Invariant, Recency,
-- Removal, Writes, Steps), the evictions (Fit, Eviction, Sweep), and the contract over a plain list
-- of entries, most recent first, which the operations are compared with (Spec, Bounds).
--
-- internal/cache (Cache): Keys is keys.go with the suffix filter of middleware.go, Tiers is
-- tiers.go, Ttl is `resolveTTL` of middleware.go, and Invalidation is invalidation.go, which works
-- on the cache of Cache/Memory. Isolation is about keys and invalidation together; Stale describes
-- the resource of a path and what a write to it removes, and Paths has what this needs of split
-- texts. Http has what the handlers read and write; Serve is the lookup and the recording of
-- answers, Post is postcache.go, Batch is batch.go with its keys (Keys) and its handler (Elements),
-- and Middleware is middleware.go, which puts these together. Middleware/Own is the relation of
-- what a request may do to the cache: reads, writes and removals under keys of its own merchant.
-- Single, Batched and Owned place every handler in it, and say which part of the next handler's
-- answer is stored.
--
-- internal/ratelimit (RateLimit): Bucket is bucket.go, the token bucket (`TryConsume` is
-- `try_consume`). FeedLimit is feedlimit.go, at most five feeds in a window. Throttle is
-- `resolveThrottleMode` and `resolveTimeout` of middleware.go, what the operator's configuration
-- and the client's header resolve to. Defaults is the tables of defaults.go, Limiter the buckets of
-- limiter.go, and Reachable relates the tables to the classifier. Queue is queue.go: the waiting
-- requests, one function for each step under the lock, and histories as lists of steps, so in every
-- interleaving. Admission is the handler of middleware.go over the buckets; how a wait ends is an
-- argument of it. Its children say when a request passes (Granted), when it does not (Rejects), and
-- that the wait for the application's bucket ends (Ends).
--
-- internal/bodies/rotator.go (Bodies/Rotator): the cycle that moves the hourly files with logged
-- bodies from the local directory to an object store, compresses them and deletes the oldest;
-- Eviction is the size budget, Deleted what a deletion does to the inventory of the disk, and
-- Budget that the budget holds. Any call on the directory or the store may fail. Store is writer.go
-- and reader.go over the same directory and store: lines appended to the file of the hour, and
-- references that are looked up in the three tiers. Its children are about writes (Growth, Step,
-- Short), about reading what was written (Roundtrip), and about reading while the rotator moves the
-- files (Rotation).
--
-- internal/rdt (Rdt): TokenCache is cache.go, Matcher the table and search of matcher.go, Reports
-- the tracker of reports.go, Middleware the handler of middleware.go with all its branches, a body
-- that cannot be read to its end included. Sources, Forwarding and Rejection say what the handler
-- sends upstream, with whose token, and what a refusal does.
--
-- internal/endpoint/classify.go (Endpoint): Patterns is the table, Classify `Classify` and
-- `ClassifyKnown`, and Known compares them with a description of the paths that fit an entry. The
-- patterns key the tables of the personal data rules.
--
-- internal/pii (Pii): Rules has the tables of registry.go and Registry its tests; Agreement and
-- Messaging relate them to one another and to the classifier. Query is query.go and headers.go.
-- Json is jsonpath.go over decoded documents, Engine is engine.go and `redactBody` of
-- internal/logging/logger.go; their children follow a value from the rule that names it to the
-- redacted document.
--
-- internal/merchant/resolver.go (Merchant): whose request it is, by header, configured token or
-- hash of the token. internal/tokenstore/store.go (TokenStore): the last token of each merchant,
-- for replays.
--
-- Base has what these share: numbers, Boolean tests, lists, byte strings with the functions of Go's
-- strings package that the code calls (Text, Clean), Go maps as association lists (Dict), sorting.
--
-- Conventions. A Go string is its bytes, and case is that of ASCII. Times and durations are natural
-- numbers of nanoseconds, and the clock's reading is an argument; it does not run backwards where a
-- theorem says so. Every operation that the code runs under a lock is one function. An error that
-- the code returns or logs is a value (`none`, a flag). Map iteration follows the order of the
-- association list. 64-bit byte counts do not overflow, and the bucket's floats are exact
-- fixed-point numbers. The wait that a bucket names is the pair of the missing tokens and the rate;
-- its rounding in floats and its conversion to a time.Duration, which overflows at the smallest
-- rates, are left to what prints it.
--
-- Fuel. The eviction loops run on the length of the recency list: every round removes one element
-- (Cache/Memory/Eviction). The fields of a nested body are stripped on the length of the body and
-- one (Cache/Post/Depth), since a value is shorter than the object that has it. A number is printed
-- on its value and one. All other loops are structural; the loop that waits for an application's
-- bucket is over the list of its rounds.
--
-- Parameters. The next handler, the token API behind the minter and the JSON fields that the token
-- middleware sniffs (`Upstream`), the JSON codec and SHA-256 of the redaction engine (`Codec`), the
-- next handler, SHA-256, parsers and JSON decoders of the cache's handlers (`Outside` and
-- `JsonCodec` of Cache/Http), the formats of fmt in the rate limiter's headers (`Format`), the
-- failing calls, the compressor and the name of the active file of the rotator (`Outside` of
-- Bodies/Rotator), JSON, the decompressors and the failing calls of the body store
-- (`StoreOutside`), and strconv.ParseFloat (of numbers that are not negative), time.ParseDuration,
-- time.Parse and url.ParseQuery. The theorems about them hold for all values of these parameters;
-- only the theorem on failing open is about a token API that gives out nothing, and those on
-- stripped bodies are about decoders whose values are shorter than the object, and encoders that
-- depend only on the value of each key.
--
-- Not modelled: blobs beside their deletion, logs and audit events; configuration parsing; the
-- dashboard, metrics and servers. What is left of them beside I/O is listed with its plan in the
-- manifest of the development. Two requests that share one singleflight call are not modelled
-- either.
pub mod Base
pub mod Cache
pub mod RateLimit
pub mod Endpoint
pub mod Pii
pub mod Merchant
pub mod TokenStore
pub mod Bodies
pub mod Rdt
