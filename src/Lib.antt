-- ===== src/Lib.antt =====
-- A model of the channel library: its wire format, the connections that make up a channel, and how the
-- two ends find each other, with the theorems that make it correct.
--
-- The program. A channel carries messages over one or more underlays, the connections. A dialer sends a
-- hello, a listener answers it; a group of underlays shares a connection id and a group secret, and the
-- MultiListener hands each underlay of a group to one channel. The channel runs a sender and a receiver
-- for each underlay, matches replies to requests, closes when its constraints on underlays are no longer
-- met, and dials more underlays through its dial policy. What is sent waits in a bounded queue, in an
-- envelope that may wait for the write or the reply; heartbeats ride on the messages of either side.
--
-- The files.
--   Base, Base/*: Boolean tests, lists, Go maps as association lists, little-endian bytes.
--   Io, Io/Segments (io.ReadFull and io.Reader as the source uses them): a stream is the list of chunks
--     in which its bytes arrive, so that a theorem over all lists of chunks covers every way to cut it.
--   Message, Message/Headers, Message/Keys (message.go, messages.go): Message, the reply-for cache, the
--     typed header accessors, the keys and the content types.
--   Wire (message.go): Wire/Marshal has MarshalV2 and marshalV3, Wire/Read has ReadV2 and unmarshalV2,
--     Wire/Hello has readHello, WriteUnknownVersionResponse and GetRetryVersion. Wire/Decode says what
--     bytes mean without a stream, and the other files prove that the readers agree with it;
--     Wire/Truncation is about messages that are cut off.
--   Codec, Codec/* (message.go): the encoders and decoders of string slices and of the two map types;
--     Codec/Accessors has the header accessors for them.
--   Transport (classic_impl.go, existing_conn_impl.go, ws_impl.go): the stream underlays, over a
--     connection. Transport/Packets (datagram_underlay.go, websockets/ws_underlay.go) has those whose
--     connection keeps messages apart, Transport/WholePackets proofs of these.
--   Loops (impl.go): rxer and txer over a stream underlay. Loops/Turns, InOrder, Sending, Complete, Ending
--     and Conversation are proofs.
--   Handshake (messages.go, hello_reject.go): hello, result, RejectHello and the reject classes.
--     Handshake/Dialer (classic_dialer.go) has CreateWithHeaders and sendHello, Handshake/Listener
--     (classic_listener.go) has acceptConnection, receiveHello and ackHello. What the transport and the
--     peer do is given as answers. Handshake/Refusals, Responses, Agreement and Attempts are proofs.
--     Handshake/Existing (existing_conn_dialer.go, existing_conn_listener.go) has the exchange over a
--     connection that is there already, Handshake/Respond (ws_listener.go) the WebSocket listener, and
--     Handshake/Listening (classic_listener.go) Listen, Close, Create and the hand-over between them.
--     Handshake/Listening/Config has the configuration and the constructors; PoolSizes is a proof.
--   Acceptors, Acceptors/Routing (hello_acceptor.go, accept_dispatcher.go): who gets an underlay.
--   MultiListener, MultiListener/* (multi_listener.go): AcceptUnderlay for grouped underlays and the
--     close callback of a registration, as the steps of any number of goroutines in any order.
--     MultiListener/Ungrouped has the rest of AcceptUnderlay and the constructors.
--   Waiters, Waiters/Laws (impl.go): waiterMap.
--   Underlays, Underlays/Laws (underlays.go): the set of underlays.
--   Channel (impl.go): channelImpl, Close, AcceptUnderlay, UnderlayRemoved, closeUnderlay.
--     Channel/Setup has NewChannel, Channel/Constraints has countsShowValidState and the check of
--     applyConstraints, Channel/Dialing its dial loop and dialUnderlay, Channel/Dispatch has rx and tx,
--     Channel/Handlers the handlers that they call, Channel/Binding (bind.go, handler.go) what a binder
--     registers, Channel/Registering (bind.go, handler.go) the functions that a Binding stores, with the
--     proofs in Functions and LastWins, Channel/Single NewSingleChannel and NewSingleChannelWithUnderlay,
--     Channel/Steps the steps of a running channel. Channel/Effects, Invariant, Safety, Acceptance,
--     Enforcement, Replies, Dialing/History, Growth and Progress prove things of these.
--   DialPolicy (dial_policy.go): BackoffDialPolicy. DialPolicy/Delay and DialPolicy/Groups are proofs.
--   Senders (senders.go, message_source.go): Send and TrySend of any number of goroutines on one queue,
--     step by step. Senders/Retry has RetryToQueues, Senders/Sources the message sources over one, two
--     and three queues; Senders/Invariant, Senders/Delivery and Senders/Sources/Serving, Receiving and
--     InTurn are proofs.
--   Envelope, Envelope/Outcomes (envelope.go): what an envelope that waits learns of what tx did.
--     Envelope/Contexts (envelope.go, message.go) has the contexts that envelopes make and cancel, with
--     proofs in Deadlines and Older. Envelope/Typed (protobufs/protobufs.go) has envelopes made of typed
--     messages.
--   Heartbeater (heartbeater.go): Tx cut at its atomic loads and stores, Rx, the events and the pulse.
--     Heartbeater/Invariant, Transform, RoundTrip and Races are proofs.
--   Latency, Latency/Probe (latency/latency.go): probes and those who answer them. Latency/RoundTrip,
--     Responses, Frequency and Answered are proofs.
--   Options, Options/Loading, Heartbeats and Sizes (options.go, constants.go, heartbeater.go): defaults,
--     loading and validation.
--   Trace, Trace/* (trace.go, trace/write.go, trace/read.go): trace records, their file and its reader.
--     Trace/Decoding (decoder.go, trace_decode.go) has what a trace shows of a message, with proofs in
--     Shown.
--   Logging (logging.go): the loggers of names and their handler. Logging/Following is proofs.
--   Tests, Tests/*: concrete runs, and each result at an input that meets its conditions.
--
-- State and numbers. An int32 or int64 is its bit pattern, with the wrap-around written out; the counts
-- of a Config are natural numbers, since a negative one acts as zero. Pointers, handlers and receivers
-- are named by numbers. A lock's critical section is one function; goroutines are lists of steps, and
-- what a channel does to the outside is a list of effects. Where a select has several cases that are
-- ready, the schedule picks one.
--
-- Bounds and fuel. unmarshalHeaders and the decoders run on fuel that is the number of bytes; each turn
-- consumes at least one byte, so it suffices, and running out of it is a result of its own. The loops of
-- the two dialers run on two turns, which is all that they take; that of applyConstraints ends after
-- at most one turn more than there are underlays missing if its dials succeed, and need not end if they
-- fail, so there the fuel is an argument. It is one also of rxer, which takes at most one turn for every
-- 20 bytes of its stream and one more, and of the reader of a trace file, one turn for each record and
-- one more.
--
-- Not modelled: sockets and the transports, TLS, log records, and generated code. A bind handler that
-- closes its channel, or hands it an underlay, is outside the model of NewChannel. The loops of rxer
-- and txer run by themselves: only the closing of the underlay comes in between. RetryToQueues is not a
-- step of the goroutines that share a queue with Send. The admitter, the
-- factory and the ack of the MultiListener are free choices of the schedule. The worker pool of a
-- listener, the handlers of slog, JSON and the verbs of fmt are parameters, and so are random numbers,
-- floating point arithmetic, protobuf encodings, the parsing of durations, the numbering of messages
-- and the text of a derived connection id.
pub mod Logging
pub mod Base
pub mod Io
pub mod Message
pub mod Wire
pub mod Codec
pub mod MultiListener
pub mod Waiters
pub mod Underlays
pub mod Channel
pub mod DialPolicy
pub mod Handshake
pub mod Acceptors
pub mod Senders
pub mod Envelope
pub mod Heartbeater
pub mod Latency
pub mod Transport
pub mod Loops
pub mod Trace
pub mod Options
mod Tests
