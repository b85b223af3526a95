-- ===== src/Tests.antt =====
-- Concrete runs, and each theorem at an input that meets its hypotheses.
mod Listener
mod Wire
mod Codec
mod Channel
mod Dial
mod Handshake
mod Acceptors
mod Senders
mod Envelope
mod Heartbeater
mod Dialing
mod Latency
mod Transport
mod Loops
mod Trace
mod Registering
mod Observing
mod Options
