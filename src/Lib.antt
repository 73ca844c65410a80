-- ===== src/Lib.antt =====
-- A recursive DNS resolver that validates, as functions and theorems about them.
--
-- The program's parts, and how they meet. A query comes in as bytes; dnsmsg unpacks it into a
-- message and a chain of handlers answers it: middleware/cache answers from its store or passes
-- the query on, and stores what comes back; the handler behind it walks the name tree (package
-- resolver), which keeps a cache of delegations and sends shortened names to the servers;
-- package dnssec judges what they answer. Responses are packed by dnsmsg again.
--
-- Which file is about what:
--   Prelude          lists, Boolean tests and the results of fallible code: `ok`, or `err` with the
--                    kind of the error. A run-time panic and a loop that runs out of rounds are errors
--                    of their own, `panic` and `out_of_fuel`.
--   Text             the functions of Go's package strings on names; splitName, equalName and the
--                    like of dnssec/verify.go and resolver/delegationcache.go.
--   GoMap, Lru       Go's map, and the map with a list in the order of use that two caches keep.
--   Dnsmsg           dnsmsg/message.go (data; PackQuery in Query), name.go (Name), decode.go and
--                    Unpack (Wire, Decode), dnssec.go (Dnssec). A reader takes the buffer and an
--                    offset, and returns its value with the offset behind it.
--   Cache            middleware/cache/cache.go: the store's operations as functions of the store and
--                    of the instant, in nanoseconds; Cache/Handler is ServeDNS, with the wrapped
--                    handler as a function from a query to the messages it writes.
--   Resolver         resolver/delegationcache.go (Delegations), resolver/privacy.go (Privacy) and
--                    resolver/validate.go (Validation; Validation/Chain for the steps from zone to
--                    zone). A step takes and returns the key cache and the number of the next
--                    reading of the clock. Validation/Trust says when keys are trusted: the abstract
--                    chain of trust that the steps are measured by. Replies is unpackAndVerify of
--                    resolver/resolver.go.
--   Denial           dnssec/denial.go (Denial, Claims) and dnssec/nsec3.go (Hashed, Claims).
--   Signature        dnssec/verify.go: the bytes that a signature is made over, and in
--                    Signature/Checks the tests of VerifyRRSet and VerifyDS.
--   Singleflight     middleware/singleflight/singleflight.go: the steps of queries that run at the
--                    same time, in any order (Steps), over the table of calls in flight.
--   Acl              middleware/acl/acl.go.
--   ResolverHandler  resolverhandler/resolverhandler.go: the response to a query, with the resolver
--                    as a function to the outcome of a resolution.
--   Tests            the theorems at concrete inputs.
--
-- Bounds and fuel. Numbers are natural numbers; where Go's width matters it is written out or is
-- a hypothesis. The loop of readName has 276 rounds: 20 jumps, and labels that take at least two
-- of 255 bytes each. The loops over raw RDATA have a round for each byte of it and one more.
-- Each round takes one byte at least, so this is enough. A loop that evicts has a round for each
-- entry. The loop of descendTo takes its rounds as an argument: each round comes down by a label of
-- the name asked for, so two more than it has labels are enough.
--
-- Parameters, for code that is not in the repository: what Go's Unicode tables do to texts that
-- are not ASCII (Text.Unicode), SHA-1 (Denial.Hashed.Digest), the hashes and signature schemes
-- (Signature.Checks.Crypto), the random bytes of randomizeCase, and the wrapped handlers. The
-- resolver that ResolverHandler calls is a parameter too, and what queryServers returns and the
-- clock are an interface (Resolver.Validation.Upstream), which the walk is to fill.
-- time.Duration.Seconds is written out with the rounding of float64 (Cache.whole_seconds), and
-- net/netip as far as Acl uses it.
--
-- Not modelled: Pack and EDNS, the walk of package resolver, the middleware ratelimit, the servers
-- and their sockets, the configuration and the commands. Concurrency appears where a mutex makes an
-- operation one step, and in Singleflight as the order of the steps.
pub mod Prelude
pub mod Text
pub mod GoMap
pub mod Lru
pub mod Cache
pub mod Resolver
pub mod ResolverHandler
pub mod Denial
pub mod Signature
pub mod Singleflight
pub mod Acl
pub mod Dnsmsg
pub mod Tests
