-- ===== src/Lib.antt =====
-- A model of the parts of SkyWalking Rover that keep state of their own: the agent that watches
-- processes through eBPF and reports access logs and profiles.
--
-- Buffer models pkg/tools/buffer/buffer.go: the socket data of one connection arrives as events in
-- any order, is kept in order, and is read as one stream of bytes by the protocol analyzers, which
-- remove what they have read of a message (RemoveReadElements) before they begin the next one
-- (PrepareForReading).
--   Buffer/Events: the events of pkg/accesslog/events/data.go, and the limited ones.
--   Buffer/Elements, Buffer/State: container/list, and the struct Buffer.
--   Buffer/Append: AppendDataEvent, AppendDetailEvent and Merge.
--   Buffer/Read: Read, Peek and ReadUntilBufferFull.
--   Buffer/Cycle: PrepareForReading, SkipCurrentElement, RemoveReadElements and Clean.
--   Buffer/Ranges: DataIDRange, BuildDetails and DeleteExpireEvents.
-- AccessLog models the way of the access logs of pkg/accesslog to the backend.
--   AccessLog/Queue: common/queue.go, as steps of the goroutines that share the queue.
--   AccessLog/Resolution: how long common/connection.go holds back the logs of a connection.
--   AccessLog/Runner: the consumer of runner.go, that builds the batch of one flush.
--   AccessLog/Batch, AccessLog/Sender: sender/logs.go and sender/sender.go.
-- Symbols models pkg/tools/profiling/api.go: the names of the addresses of a stack, found by a
-- binary search in each module and kept in a cache. The search halves its range, so as many rounds
-- as there are symbols, and one, are enough, which is part of what is proved of it.
-- Ztunnel models how pkg/accesslog/collector/ztunnel reads the identities of a connection out of
-- ztunnel, with the offsets of pkg/tools/ztunnel/offsets.go: as long as no offsets are known, a
-- calibration looks for them; then they go to the probe of bpf/accesslog/ambient/ztunnel.c, which
-- sends compact events instead of windows; and when events cannot be decoded, the source gives up.
--   Ztunnel/Integers, Ztunnel/Offsets: signed numbers; struct Offsets and Validate.
--   Ztunnel/Strings: arcStrCache, over an interface of the LRU cache.
--   Ztunnel/Decode, Ztunnel/Compact: Decode of a window, and the compact event with decodeCompact.
--   Ztunnel/Correlation, Ztunnel/Spiffe: the mappings of ztunnel.go, and the identities that
--   ztunnel_identity.go parses.
--   Ztunnel/Labels: findNearestLabel.
--   Ztunnel/Calibration, Ztunnel/Source: Observe; ztunnelIdentitySource and its handlers.
-- The memory of ztunnel, what deriveFromSample makes of a window, and whether a mapping of an
-- address exists, are arguments there. The agent keeps no order between the goroutines that handle
-- events; an event is one step of the model.
-- Http1 models pkg/accesslog/collector/protocols/http1.go: the requests that wait for a response,
-- and the pairs that wait for their details.
-- Processes models pkg/process/finders/storage.go: the processes that the finders detect, and in
-- Processes/Report their report to the backend.
-- Connections models pkg/accesslog/common/connection.go and filter.go, the manager of the monitored
-- processes and of their connections:
--   Connections/Monitor, Connections/Cgroups: the processes, with the maps of the kernel.
--   Connections/Tracking, Connections/Addresses: pkg/tools/ip/conntrack.go, and the addresses of a
--   connection that Find builds with it.
--   Connections/Handling: Find, and what an event does to a connection.
--   Connections/Table, Connections/Unresolved: OnBuildConnectionLogFinished, which deletes connections
--   after a flush, and what it records of their addresses.
--   Connections/Upkeep: the downgrade of a protocol, the push of a resolution, its latency, and the
--   cleaning of the map of active connections.
-- Windows models pkg/profiling/continuous/base/windows.go: the last seconds of a value that the
-- continuous profiling watches, one slot for each second, over an interface of window data.
-- Metrics models topn.go, histogram.go and counter.go of
-- pkg/profiling/task/network/analyze/layer7/protocols/metrics.
-- Boot models pkg/boot/module.go: the order in which the modules start, and the run of them.
-- Examples applies the theorems to concrete inputs and tests the definitions.
-- Common holds what the others share.
--
-- A state is a record, an operation a function on it, and an error a constructor of its result.
-- Locks are left out: an operation that runs under one is a function. Loops are structural, or run
-- on fuel. Peek and ReadUntilBufferFull run for as many rounds as there are elements behind the
-- reader and bytes to read; each round moves to the next element or takes a byte, so the fuel is
-- enough. The resolution of the modules visits a new
-- module at each nested call, so as many nested calls as there are modules are enough, which is
-- proved as well, as it is that handleLogs needs one round more than batches wait. A nil
-- dereference or a slice out of range is a result of its own where the code can meet one; sums of
-- offsets wrap around as ints do.
-- Floating point numbers, names, log messages and the calls of other libraries are parameters or
-- stand for themselves as numbers that are only compared. What talks to the kernel, to the backend
-- or to Kubernetes is not modelled, but for the part of the probe that Ztunnel/Compact names: what
-- the maps of the kernel, its tracked sessions, the clock and the expiring caches answer is an
-- argument of the operation that asks, and the calls that write to a cache are kept in the state.
pub mod Common
pub mod AccessLog
pub mod Buffer
pub mod Symbols
pub mod Ztunnel
pub mod Http1
pub mod Processes
pub mod Connections
pub mod Windows
pub mod Metrics
pub mod Boot
pub mod Examples
