-- ===== src/Lib.antt =====
-- Verification of the Wormsign controller: detectors watch a cluster for faults, the correlator
-- groups the fault events of a time window, and an analyzer explains them, behind a circuit breaker
-- and a token budget. The replicas of the controller share the namespaces of the cluster by a hash,
-- and a filter of policies says which resources are left alone.
--
-- The parts, and the files that model them:
--   Common      shared names, lists, Go's int, maps and their iteration order, counting, texts.
--   Model       internal/model/types.go: events, bundles, reports and their constructors.
--   Detector    internal/detector: Base is base.go, the cooldown that every detector goes through; the
--               other files are the detectors, each named for the file of the source that it models.
--   Controller  internal/controller/detectors.go: Objects are the conversions, Bridge the callback and
--               the checks, Start the making of the bridge; Blind, Submitted and Cascades hold the proofs.
--   Filter      internal/filter/engine.go: Types, Selectors and Engine; Levels, Precedence,
--               Owners and Matching hold the proofs.
--   Pipeline    Queue is the PriorityQueue of internal/pipeline/queue/queues.go, with its two waits for
--               an end of the work in Waits, whose answers Drains explains; Correlator is
--               internal/pipeline/correlator (Config, the rules in Defs, the engine in Engine).
--   Shard       internal/shard: hasher.go is Doubles, Hasher and Assignment, manager.go is Manager and
--               Coordinator; the other files hold the proofs.
--   Gatherer    internal/gatherer/pod_events.go, whose sections Analyzer/Rules reads.
--   Analyzer    internal/analyzer: Breaker is circuit_breaker.go, Limiter is rate_limiter.go, Reports is
--               response.go and noop.go, Rules is rules.go: Patterns has its regular expressions,
--               Sections, Logs and Extraction the parsers, Chain and Workloads the rules.
-- In the other parts Defs holds the code. There is one function for each function, method or loop of
-- the source, with a method returning the new state; the files beside hold the proofs, and Tests the
-- runs.
--
-- Conventions. An int of the configuration is an integer without a bound, and a counter or a length
-- a natural number: overflow of 64 bits is not modelled, but for the hashes of Shard, which wrap,
-- and whose jumps fit an int64 within the bound of 2 ^ 31 replicas. A time is a number, and each
-- read of the clock is an argument, as are the answers of analyzer backends and the identifiers
-- that generateUUID draws. A locked section is one step. A
-- wait with a timeout is a list of moments, in which the timer fires at any place. A Go map is an association list; the order
-- in which range visits it is a parameter, a permutation that is otherwise unknown. A nil error is
-- the absence of an error, and constructors return the first check that fails. The loop of JumpHash
-- runs on fuel, one round for each bucket, which is enough since each jump goes forwards; the
-- digits of a number are found on one more round than the number, each of which divides it by ten;
-- all other loops are over lists or counters. A double is a mantissa with a scale, rounded as IEEE
-- 754 does. Logging and metrics change no state and are left out. The objects of the cluster are
-- records of the fields that the source reads.
--
-- The engines of regular expressions and of file-name patterns are parameters of the filter. The
-- expressions that the analyzer takes lines apart with are lists of pieces, matched with
-- backtracking; those that recognise errors in logs are a parameter, and so are the decoder of
-- JSON, the expression for a code fence and the numbers of type float64. A text is a list of
-- characters, so that lengths, and what %q prints, are those of the source for printable ASCII.
--
-- Not modelled: client-go work queues and informers, calls of external services, prompt texts, and
-- the parts that PROJECT.json lists as such.
pub mod Common
pub mod Model
pub mod Analyzer
pub mod Controller
pub mod Detector
pub mod Pipeline
pub mod Shard
pub mod Filter
pub mod Gatherer
