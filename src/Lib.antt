-- ===== src/Lib.antt =====
-- dns-over-minecraft: a recursive DNS server that is reached through the Minecraft status protocol.
--
-- A client turns a DNS query into a server address, opens a Minecraft handshake to that address and
-- asks for the status; the server takes the query out of the address, resolves it and puts the
-- answer into the favicon of the status. Both ends keep a cache of answers.
--
-- The parts, and where they stand:
--   Prelude, Bytes, Text, Base32, Base64: Go's numbers, byte readers, uvarints, strings, base32 and
--     base64 as far as the program uses them. A byte string is a list of numbers, and a reader is
--     what it has left.
--   Dns: the data of github.com/miekg/dns, and the calls of it as a record of functions, which the
--     theorems take as a parameter.
--   Codec: internal/dnscodec/codec.go. Codec.Query has EncodeQuery (encode_query), DecodeQuery
--     (decode_query) and StripSuffix (strip_suffix), over Codec.Labels (packLabels, unpackLabels)
--     and Codec.Tld (tldList, init). Codec.Response has packCompactResponse and
--     unpackCompactResponse, whose part before the DNS library's Unpack is rebuild_wire. The
--     closures encodeName and readName take their captured variables as arguments and return the
--     new name table. Codec.Favicon has EncodeResponse and DecodeResponse, Codec.Status has
--     BuildStatusJSON and BuildVanillaStatusJSON over encoding/json as a record of functions, and
--     Codec.Opt has StripOPT and BuildErrorResponse.
--   Cache: internal/cache/cache.go. get and set are the operations on a question, get_key and
--     set_key those on its key; Cache.Optional is the guard for a caller that has no cache.
--   Mc: internal/mc. Mc.VarInt is varint.go, Mc.Frame is frame.go with the status response of
--     status.go and the part of `exchange` in client.go that takes the JSON text out, Mc.RateLimit
--     is ratelimit.go, Mc.Fragment is fragment.go, and Mc.Address is the addresses of client.go
--     with extractPassphrase and isFragmented of server.go. Mc.Server is server.go: handleConn
--     (handle_conn of Mc.Server.Connection) and all that it calls are functions of the bytes that
--     the client writes, and return the state and the bytes that the server writes; Mc.Server.Slots
--     is the accept loop of ListenAndServe as a step relation. Mc.Client is
--     Query of client.go and what it calls, over the server that is dialled; Mc.Client.EndToEnd puts
--     the server of Mc.Server there.
--   Records: internal/records/records.go, New (new_store) and Lookup (lookup).
--   Client: internal/client/client.go, with the functions that query a VPN and a Minecraft server as
--     arguments, as the source has them as fields; Client.Listener is queryVpn of vpn.go and
--     handleDNS of server.go.
--   Resolver: internal/resolver, over an interface of the upstream pool; Resolver.Stats is stats.go, and
--     Resolver.Upstreams puts the pool of Upstream.Pool into the interface.
--   Upstream: internal/upstream. Upstream.Pool is upstream.go, Upstream.ConnPool is conn_pool.go as
--     schedules of the atomic actions of its threads, and Upstream.Exchange is one call of Exchange
--     of tcp.go, dot.go and doh.go.
--   VpnDns: internal/vpndns. Config: internal/config, with Default and Load. Commands: what
--     cmd/dnsmc/main.go builds of a loaded configuration, and the texts of its commands;
--     Commands.Startup is the state that a server starts with.
--   Tests: the theorems at concrete inputs.
--
-- State is passed explicitly: an operation returns the new state with its result. A (value, error)
-- pair is a Result with a constructor for each error. Times are nanoseconds. Go's int is a natural
-- number, but an integer for the limits, the cache sizes and times and the refresh interval of the
-- configuration, whose negative values Load keeps; negative values of its other numbers are left
-- out. The integers of the wire keep their width (`% 2 ^ w`).
--
-- Fuel: the loops over a wire (unpack_labels_loop, read_wire_name_loop) take one round more than
-- the wire has bytes, and each round takes a byte; the loops that cut a text have one round more
-- than its length; eviction has a round for each entry; chunk_loop has as many rounds as its text
-- has bytes; format_digits has ten digits, enough for 32 bits.
--
-- Simplified: calls under a mutex are taken one after the other, and so are the connections of the
-- server, of which one that waits for the pieces of another query is given the set that it sees at
-- the end. What other threads do is an argument where a call depends on it: the servers that other
-- calls of Resolve take between two attempts of the client, and the actions on a connection pool
-- while an Exchange waits for a connection. What a connection writes is always taken; letters
-- change their case, and white space is trimmed, in ASCII only; the float64 of the rate limiter is
-- exact arithmetic in units of 1e-9 token, that of the pool is a type with operations, and the
-- sinusoid of the player count is a parameter; a Go map is the list of its entries; counters do
-- not wrap.
-- Not modelled: sockets, deadlines, TLS, HTTP, logging and its texts, and the JSON text of a status;
-- EncodeStatusResponse and DecodeStatusResponse of internal/mc/status.go, which nothing calls; flags,
-- printing and signals of cmd.
pub mod Prelude
pub mod Bytes
pub mod Text
pub mod Base32
pub mod Base64
pub mod Dns
pub mod Codec
pub mod Cache
pub mod Mc
pub mod Records
pub mod Client
pub mod Resolver
pub mod Upstream
pub mod VpnDns
pub mod Config
pub mod Commands
mod Tests
