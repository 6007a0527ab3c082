-- ===== src/Lib.antt =====
-- A verification library for CogniDNS Core, a DNS server in Rust: the wire codec, the response cache,
-- the request policy, the health of upstream addresses, the statistics, and parts of the resolver, as
-- functions on bytes and records and as steps of tasks, with theorems about them.
--
-- How the parts work together: a request's bytes are read by the codec (src/codec/dns.rs), the
-- policy (src/policy.rs) decides whether it is answered and which view it gets, and the cache
-- (src/cache.rs) keeps the upstream's responses, whose TTLs the codec decays on a hit. The resolver
-- (src/resolver) lets one task resolve a key while the others wait, counts how popular a key is, and
-- orders the addresses of an answer by their health (src/health.rs) before the codec moves the
-- records. Each request is counted for the statistics (src/topn.rs).
--
-- Prelude: Boolean tests and lists over the native numbers, `?` on Option.
-- Maps: hash maps as lists of pairs whose order stands for the order of iteration, over an interface
--   of keys with a sound Boolean test; the theorems hold for every order.
-- Codec.Bytes, Codec.Text: packets as lists of numbers; the functions of the standard library on
--   slices, UTF-8, text and the text of addresses that the code calls. A read out of range gives 0,
--   where the code would panic; every read in the code stands behind a length test, which the
--   definitions keep.
-- Codec.Header, Codec.Name, Codec.Section, Codec.Question, Codec.Edns, Codec.Ttl, Codec.Build:
--   src/codec/dns.rs, one definition per function, under the function's name. `Result` and `Option`
--   are Option, a `&mut` argument is returned. `encode_name` returns the buffer beside its success,
--   since some callers ignore the error.
-- Codec.Answers: the addresses of a response and their order; Scans what a response answers,
--   Referral where it refers to, Rewrite and Append the changes of its question and answers, all of
--   src/codec/dns.rs; Chain is `normalize_cname_chain_answers` of src/codec/dns_rfc_patch.rs. The
--   share of glue, an f64 there, is a pair of numbers, and the tests on it are on the numbers.
-- Cache.Shard, Cache.Domain, Cache.State, Cache.Hex: src/cache.rs. `put` is `ResponseCache::insert`;
--   the other operations keep their names. Instants are nanoseconds, and the clock is an argument
--   wherever the code reads it. The hash of a key is a parameter without assumptions, and so is the
--   number of processors. `free` flags say which locks `try_write` gets.
-- Policy.Trie, Policy.Names, Policy.Rate, Policy.Engine: src/policy.rs. `insert_net` and `lookup_ip`
--   are the methods of `CidrTrie`. The parser of networks, of the package ipnet, is a parameter.
--   Calls of `consume_token` run one after the other; the outcome of the weak exchange is an
--   argument. The fields of a view and of a request that the policy does not read are left out.
-- Health.Config, Health.State, Health.Webhook: src/health.rs, under the names of the methods of
--   `IpHealthManager`. The results of probes, the clock and the outcome of each attempt of the
--   webhook are arguments.
-- TopN.State: src/topn.rs. A round of the background task is a function of the batch it receives
--   and of its readings of the two clocks; the counters wrap around at 64 bits.
-- Resolver.Popularity: src/resolver/popularity.rs, with increments one after the other. The pair of
--   hashes is a parameter without assumptions.
-- Resolver.Names, Resolver.Client: src/resolver/util.rs, and `normalize_ra_for_recursion_policy`.
-- Resolver.Zones, Resolver.Upstreams, Resolver.Expiring, Resolver.Delegation, Resolver.EventLog,
--   Resolver.NsHosts, Resolver.Serving, Resolver.Windows: src/resolver/mod.rs. Metrics and traces are
--   left out. Scores and ratios are floats there: a score is its rank, its formula and the tests of
--   the miss ratio are parameters, and so are the hashes and the test of an address family.
-- Resolver.DnssecCache: src/resolver/dnssec_cache.rs.
-- Resolver.Inflight: `register_or_wait` and `finish_inflight` of src/resolver/mod.rs for one key, as
--   steps of any number of tasks, which interleave freely. A task that waits or resolves can be
--   dropped at any time, as its future is when the client goes away.
--
-- Loops over packets run on fuel: the length of the packet and one more, and each round moves the
-- offset by one at least, so the fuel lasts. The loops over records run as often as the header
-- counts them. A name follows at most 17 pointers, as in the code. The eviction loop runs on the
-- number of entries, of which each round removes one.
--
-- Not modelled: the builders of static and authoritative answers in src/codec/dns.rs, cache dumps,
-- the resolver's state machine, upstream queries and iteration, DNSSEC, the probes of health checks and their
-- log, configuration, the administration interface, and all sockets and files; poisoned locks;
-- 64-bit lengths and instants, which the inputs cannot reach.
pub mod Prelude
pub mod Codec
pub mod Maps
pub mod Cache
pub mod Policy
pub mod Health
pub mod TopN
pub mod Resolver
