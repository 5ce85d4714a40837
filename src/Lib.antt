-- ===== src/Lib.antt =====
-- Otus, a packet capture and analysis agent: raw frames are decoded, parsed and reported.
--
-- A task (internal/task/task.go) owns capturers, a dispatcher, pipelines and reporters. A capturer
-- puts raw frames on a channel; in dispatch mode `dispatchLoop` spreads them over the pipelines by the
-- hash of their flow. A pipeline (internal/pipeline/pipeline.go) decodes a frame
-- (internal/core/decoder), gives the packet to the first parser that handles it (plugins/parser), and
-- puts the result on the channel of the sender, which hands it to the reporter wrappers
-- (internal/task/reporter_wrapper.go) and they to the reporters (plugins/reporter). The parsers of a
-- task share a flow registry (internal/task/flow_registry.go): the SIP parser registers the media flows
-- of a call, the RTP parser labels their packets. The task manager (internal/task/manager.go) makes a
-- task from its configuration and the plugin registry and persists it in a store; commands
-- (internal/command) that come through Kafka or a socket create, list and delete its tasks.
--
-- Files and the code they model:
--   Base, Base/*           lists, Go's byte slices and words, maps, tests on native numbers
--   Core, Output           internal/core: addresses, headers, packets, errors, labels
--   Fnv                    hash/fnv of Go's standard library, 32-bit FNV-1a
--   Decoder/Ethernet       `decodeEthernet`; Frames builds frames and takes them apart
--   Decoder/Ip, Transport, Tunnel   ip.go, transport.go, tunnel.go
--   Decoder/RateLimiter    rate_limiter.go; Window counts what a window lets through
--   Decoder/Fragments, Reassembly   reassembly.go: `insertBSDRight`; `Process`, `build`, `cleanup`. Chain keeps
--                          the list sorted, Content follows its bytes, Copy and Build the result, Invariant and
--                          Cleanup the whole state, Datagram, Delivery, Tiling and Assembly the
--                          fragments of one datagram, Panic and Overlap two corner cases
--   Decoder/Standard       decoder.go: `Decode`
--   Pipeline               `processPacket` and `Run`; Accounting its counters, Parsing its parsers
--   Task/Flows             `FlowRegistry`; Refinement against a function from keys
--   Task/Dispatch          `flowHash`, `Dispatch`, `dispatchLoop`; Headers and Affinity against the
--                          decoder
--   Task/Wrapper           `ReporterWrapper`; Delivery follows its packets
--   Task/Stats             `statsCollectorLoop`, whose counters are exact numbers here
--   Task/Lifecycle         `Start`, `Stop`, `Pause`, `Resume`, `captureLoop` as a step relation;
--                          Closing and Safety for its channels, Faults for its failures
--   Text, Text/*           Go's `bytes`, `strings` and `strconv` on ASCII; Split and Tokens with lemmas
--   Config                 internal/config/task.go: `Validate` and its defaults; Defaults what it accepts
--   Plugins                pkg/plugin/registry.go
--   Task/Store             internal/task/store.go; Files follows `Save` call by call
--   Task/Assembly, Task/Manager   internal/task/manager.go: the phases of `Create`; the manager with
--                          `Delete`, `StopAll`, `Restore`, `GCOldTasks`. Creation, Phases, Complete, Runs,
--                          Shutdown and History hold what is proved of them
--   Parser/Rtp             plugins/parser/rtp/rtp.go; Labelling its labels
--   Parser/Sip             plugins/parser/sip/sip.go: Message reads messages, Sdp their bodies, Session is
--                          the parser with its cache and the registry. Headers, Media, Flows and Calls
--                          hold what is proved of each; Printing writes bodies, Lines and RoundTrip
--                          read them back
--   Hep, Hep/Reporter      plugins/reporter/hep: `Encode`, and `Report` with `selectConn`; Frame reads
--                          frames as a collector does, Encode compares the two
--   Kafka, Kafka/*         plugins/reporter/kafka/kafka.go: `Init`, `Report`, `ReportBatch`; Settings on its
--                          options, Counting on its counters, Envelope on its headers
--   Command, Command/*     internal/command/handler.go: `Handle`; Kafka is the consumer of kafka.go. Answers
--                          and Filter hold what is proved of the two
--   Examples/*             the theorems at concrete inputs
--
-- State is passed explicitly: an operation takes the record and returns the new one beside its
-- answer. A run-time panic of Go is a constructor of the result. Time is an argument. A word of 8, 16,
-- 32 or 64 bits keeps its wrap where the source adds to it, but for the counters of the rate limiter.
--
-- Bounds: the loop over the VLAN tags has the length of the frame as fuel, enough since each round
-- needs four more bytes. The other loops are structural.
--
-- Not modelled: logs, Prometheus metrics (but the gauge of active flows), the text that `Sprintf`
-- makes (a parameter), sockets and system calls, and the interleaving of two goroutines inside
-- `Process`. Of texts, white space and letters beyond ASCII are not modelled, nor that the SIP parser
-- writes into the payload when it unfolds a header; its session cache (go-cache) is an interface with
-- laws, and `netip.ParseAddr` and `Itoa` are parameters. So are encoding/json of the task store and
-- `time.ParseDuration`; the manager's `Status` gives only the states of the tasks, and
-- `UpdateMetricsInterval` is not modelled. Of the commands, encoding/json is a parameter and an error
-- message is what it is about. For the Kafka reporter the client, encoding/json and the texts of
-- addresses and numbers are parameters, its counters are exact numbers, and the labels come in the
-- order of the model. The socket server and the global configuration are not modelled.
mod Base
pub mod Core
pub mod Output
pub mod Task
pub mod Pipeline
pub mod Parser
pub mod Fnv
pub mod Decoder
pub mod Hep
pub mod Kafka
pub mod Examples
pub mod Text
pub mod Config
pub mod Plugins
pub mod Command
