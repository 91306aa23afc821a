-- ===== src/Lib.antt =====
-- The gateway that serves a command-line assistant over an OpenAI-shaped API, and the tunnel that
-- makes it reachable from outside.
--
-- Parts. A request to the gateway starts or continues a session of the assistant; tool calls that
-- the assistant announces are parked in the session until the client brings their results. The
-- resume store maps conversations that ended to the assistant's own session ids. The tunnel joins
-- a client behind a NAT with a public relay by one connection, which the multiplexer splits
-- into streams of frames.
--
-- Files.
--   Wire, internal/tunnel/mux.go: the frame codec. A byte is a number below 256 and a byte stream
--     the list of what is still to come; a writer accepts a number of bytes and then fails.
--   Mux, internal/tunnel/mux.go: Conn and Stream. Streams are pointers into a heap, since the map
--     of live streams, the accept queue and the callers share them. Go's select is a choice that
--     is an argument of the functions. Mux.Conn has the operations of a connection, Mux.Stream
--     those of a stream, Mux.ReadLoop the handlers of the read loop; Mux.Reach is the relation of
--     all interleavings of their critical sections. Mux.Line joins the writer of one stream with
--     the read loop and the reader at the other end, in any order of the two; Mux.Transport has the
--     invariant of that, Mux.Delivery and Mux.Drain what the reader gets, and Mux.Closed the end of a
--     connection. Mux.Pipe is pipe, and Wire.Names the names of the frame types.
--   Resume, internal/gateway/resume.go: the bounded LRU ResumeStore, its list elements as pointers
--     that its map shares. Resume.Spec is the cache that it promises.
--   Session, internal/gateway/session.go: the SessionManager, with one function per critical section
--     of its locks; set_cmd and receive_on are the writes of internal/gateway/claudecli.go and
--     internal/gateway/mcpserver.go to a session. Session.Calls has the sessions, their pending calls
--     and the result channels, Session.Ids the ids and canonical JSON. Session.Step is the relation of
--     all interleavings, and Session.Stopped is about Close.
--   Server, internal/gateway/server.go: the Semaphore, with the goroutines of its callers;
--     Server.Request has what the handlers read off a request, and the plan of a resumed turn.
--   Tunnel, internal/tunnel/relay.go and internal/tunnel/tunnel.go: Tunnel.Relay has the public end,
--     with its slot for one tunnel client, Tunnel.Client the private end with its reconnect loop.
--     Tunnel.Serving has Serve, the TLS protocols, the answer to a caller when no client is there, and
--     the critical sections of register, unregister and Close, whose interleavings are the relation
--     of Tunnel.Single; Tunnel.Admission is about the handshake. Tunnel.Dial has connectAndServe, one
--     event at a time, and the client's TLS configuration; Tunnel.Publish joins both ends, from the
--     handshake to the gateway, and Tunnel.Alpn is about the protocol that they agree on.
--   Prompt, internal/gateway/openai.go: messages and BuildPrompt; Prompt.Reply the responses,
--     Prompt.Plan the planning functions of internal/gateway/resume.go, Prompt.Format
--     internal/gateway/contextlength.go and internal/gateway/responseformat.go.
--   Cli, internal/gateway/claudecli.go: the decoded lines of the CLI. Cli.Run is RunClaude, Cli.Relay
--     relaySessionStream, Cli.Start the command of a session; a scanner is the lines up to the first
--     one that does not fit.
--   Turn, internal/gateway/server.go: collectTurn, on the arrivals that the select may take.
--     Turn.Answer has the start of handleToolTurn and its errors, Turn.Finish its end, Turn.Stream
--     streamToolTurn.
--   Mcp, internal/gateway/mcpserver.go: the endpoint, its polling loop and its wait for a result.
--   Http, internal/gateway/server.go: routing, model resolution, the continuation lookup; Http.Run has
--     the runs of the CLI, Http.Chat the pieces of handleChatCompletions and handleStreamingResponse,
--     Http.Gateway the Server, NewServer and Shutdown. Http.Handler is handleChatCompletions as a
--     whole; its Surroundings are the answers of the CLI and what other goroutines do to the shared
--     state between two of its steps. Http.Leaves and Http.Billing with Http.Charging are about the
--     slots it takes and the usage it records, Http.Keeping about what it leaves alone; Http.Example has a server and requests to run it on.
--     Http.Replies has readBody, sendError and the end of ListenAndServe.
--   Usage, internal/gateway/usage.go: the ledger and its file, with Usage.Calendar for the dates. Its
--     save is the sequence of its calls on a temp file and the rename; Usage.Saving is about where
--     it stops, Usage.Totals and Usage.Ledger about the totals.
--   Metrics, internal/gateway/metrics.go: the counters.
--   Command, cmd/valyrium/main.go: subcommands and configuration, with what relay and tunnel read in
--     Command.Start; Command.Bin cmd/valyrium/claudebin.go.
--   Base: shared names, Boolean tests, lists over the native numbers, association lists.
--
-- Bounds and fuel. The loop of Stream.Write has the length of the slice as fuel, one round per
-- frame, and the loop of Put the length of the list, one round per element that goes; both are
-- enough, as the theorems about them show by giving the result. Frame lengths and stream ids are
-- 32 bits wide and written out as such.
--
-- Parameters. Ids of sessions and calls are arguments of the functions that draw them, and so is
-- the time. Canonical JSON is an argument of a call, and the JSON encoder and decoder, the hash of
-- a conversation and the lowering of letters are arguments of the functions that use them. A save of
-- the ledger comes with the encoder and with which of its calls on the disk succeed; a duration is an
-- int64 by its bits.
--
-- The CLI is a list of lines with their lengths, or a function from the options of a run to
-- such a list. What others do to the session table between two steps of a handler is a function
-- that comes with the step. A round of the polling loop comes with its time. float64 is a type
-- with an addition and a zero, and sums of int64 are taken modulo 2 ^ 64.
--
-- Not modelled: deadlines and timers, TLS, sockets, processes, signals and net/http, which are I/O;
-- the copying of bytes by io.Copy; the texts of the Prometheus format, of log lines and of the
-- dashboard; the capacity of a session's channel of events, so that its reader never waits here.
pub mod Base
pub mod Wire
pub mod Resume
pub mod Session
pub mod Prompt
pub mod Tunnel
pub mod Server
pub mod Cli
pub mod Turn
pub mod Usage
pub mod Metrics
pub mod Mcp
pub mod Http
pub mod Command
pub mod Mux
