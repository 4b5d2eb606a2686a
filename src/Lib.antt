-- ===== src/Lib.antt =====
-- statsd_exporter receives StatsD lines over UDP, TCP and Unix sockets and exposes what they say as
-- Prometheus metrics.
--
-- A line is parsed into events (pkg/line/line.go), which wait in a queue until enough of them are
-- there or a timer ticks (pkg/event/event.go). The exporter takes batches of events from the queue's
-- channel (pkg/exporter/exporter.go). For each event it asks the mapper for a mapping
-- (pkg/mapper/mapper.go), which looks into a cache (pkg/mappercache), then into the machine of the
-- glob rules (pkg/mapper/fsm/fsm.go) and then tries the regex rules; it escapes the name
-- (pkg/mapper/escape.go), merges the labels and books the value in the registry
-- (pkg/registry/registry.go), which registers vectors with the Prometheus client library and removes
-- metrics whose time to live is over. Lines are also relayed to another server in packets of bounded
-- length (pkg/relay/relay.go).
--
-- The files:
--   Prelude   lists, maps, text and UTF-8 over the native numbers; `none` as a panic, and `Returns`
--             for a computation that has a result with a property
--   Float     the float64 operations, a parameter
--   Labels    label maps and the heap of those that are shared: events hold references to them
--   Event     the kinds of events; Event/Queue is EventQueue: Queue, Flush and FlushUnlocked
--   Line      LineToEvents of pkg/line/line.go: Line/Tags for the tag styles, Line/Sample for one
--             sample, Line/Parse for a whole line. The files Returns below them follow the results
--   Escape    EscapeMetricName with its offsets, byte by byte
--   Config    the records of the configuration: pkg/mapper/mapping.go, mapper_defaults.go and the
--             string types beside them; Config/Decode has their UnmarshalYAML methods, Config/Texts
--             the texts of the string types
--   Fsm       mappingState, NewFSM and AddState of pkg/mapper/fsm/fsm.go; Fsm/Search is GetMapping.
--             Fsm/Hits, Rounds and Backtrack follow the search, Fsm/Walk and Best compare it with the
--             relation Glob of rules and metrics, Fsm/Grow, Bounds, Rank, Rules, Grown and Runs follow
--             AddState, and Fsm/Finds puts both together; Fsm/Sound follows the search whatever the
--             options of the machine, and Fsm/Adds has the metric types that AddState knows.
--             Fsm/Template is NewTemplateFormatter, with Fsm/Formats for its indexes, and Fsm/Needs is
--             TestIfNeedBacktracking
--   Mapper    GetMapping of pkg/mapper/mapper.go and Format of pkg/mapper/fsm/formatter.go, with the
--             interface of the cache as the record Cache; Mapper/Cached compares it with the mapper
--             without a cache. Mapper/Init is InitFromYAMLString up to the lock, with its results in
--             Mapper/Outcome, and Mapper/Patterns its three fixed patterns as automata; Mapper/Reload
--             has all of it, InitFromFile and UseCache. Mapper/Safe, Options, Ready and Read follow
--             the loop over the mappings, Mapper/Fills, Lookup and Answers the way from a rule of the
--             machine to the result of GetMapping, and Mapper/Ordered has the configurations that
--             keep the order of their rules
--   MapperCache   the cache with random replacement and the wrapper of the LRU cache
--   Metrics   the types of pkg/metrics/metrics.go and the client library, a parameter
--   Registry  pkg/registry/registry.go: Get, Store and RemoveStaleMetrics, with HashLabels in
--             Registry/Hash, the order of its labels in Registry/Hashes and the four getters in
--             Registry/Getters; Registry/Run has the runs
--   Exporter  handleEvent and one round of Listen of pkg/exporter/exporter.go
--   Relay     RelayLine and the goroutine relayOutput of pkg/relay/relay.go
--   Listener  pkg/listener/listener.go: packets and lines on their way to the relay, the parser and the
--             queue; Listener/Delivery has the runs of the UDP listener, Listener/Drain the packets
--             that wait, and Listener/Connection a TCP connection
--   Address   pkg/address/address.go
--   Main      of main.go: getCache with the caches behind their interface (Main/Caches), the reloads of
--             the configuration by signal and by HTTP (Main/Reloads), the health endpoints, and the
--             start of the relay and the listeners, or why main exits (Main/Start, Main/Starts)
--   Tests     runs at concrete inputs, and the properties at concrete inputs
--
-- The code is modelled as functions on records. A function that may panic (an index out of range, a
-- nil pointer or map), or wait for the relay, returns an Option; goroutines, ticks and the answers
-- of sockets and of the client library are steps of runs, or arguments. A mutex makes each method
-- one step. Maps are association lists; the order of the list stands for the order of `range`.
-- Integers that wrap around do so explicitly, modulo 2 ^ 64; lengths and counters of lines do not
-- reach that bound.
--
-- Loops are structural recursion, but for the loop of the glob search over its stack, which runs on
-- fuel: `rounds fields`, which doubles with each field, is enough, since every search is one choice
-- between the field and the star at each place. GetMapping of the machine returns no captures with
-- nil; the source returns empty ones, which no caller reads.
--
-- Not modelled: the metrics, the landing page and the start of the goroutines in main.go,
-- the dump of the machine, the logs but for the warnings that need the mapper's logger, and the gauges that
-- only report. Float64 arithmetic, strconv.ParseFloat, package yaml, package regexp for the patterns of the
-- user, fmt.Sprintf, the resolver of package net, the LRU cache and the Prometheus client library are
-- parameters. The fixed patterns of the mapper, of the template formatter and of
-- TestIfNeedBacktracking are written as scanners.
pub mod Prelude
pub mod Float
pub mod Labels
pub mod Event
pub mod Config
pub mod Metrics
pub mod Registry
pub mod Relay
pub mod Escape
pub mod Line
pub mod Fsm
pub mod Mapper
pub mod MapperCache
pub mod Listener
pub mod Exporter
pub mod Address
pub mod Main
mod Tests
