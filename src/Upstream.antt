-- ===== src/Upstream.antt =====
-- internal/upstream: the upstream DNS servers. The pool orders them and asks one after the other;
-- an upstream over TCP or TLS keeps its connections in a bounded pool of its own.
pub mod Pool
pub mod ConnPool
pub mod Exchange
