-- ===== src/Lib.antt =====
-- Verification of awg-easy-rs, the server that manages AmneziaWG tunnels and hides them behind a
-- UDP proxy. The development covers the core of the proxy, the obfuscation parameters on their way
-- from the generator to the proxy, the addresses of the clients, the firewall, and the limits on
-- login attempts.
--
-- The proxy (src/proxy) stands between the clients and the AmneziaWG kernel interface. A datagram
-- of a client is matched to its session, a packet of the tunnel is forwarded, and the random
-- padding in front of a packet is overwritten so that the flow looks like QUIC, DNS, STUN or SIP.
-- A datagram that is no tunnel packet may be a probe; it is answered as a server of its protocol
-- would, within a rate for each client. Both ends of a tunnel agree on obfuscation parameters: the
-- generator (src/wg/params.rs) draws them, the interface's row in the database keeps them, the
-- supervisor (src/proxy/supervisor.rs) prints them as text, and the proxy's parser
-- (src/proxy/config.rs) reads that text; by these values the proxy knows a tunnel packet from a
-- probe. The parts and their files:
--   Rng: src/rng.rs, random bytes, numbers below a bound and in a range. Rng/Below, Ranges and
--     Uniform say what is drawn, Rng/Yields is the reasoning on a computation that draws.
--   Wg/Params, Splits, Generate, InitSpec: src/wg/params.rs. Params has the parameters and the check
--     of their ranges, Splits the numbers that the header windows are cut at, Generate
--     `generate_awg_params`, InitSpec `validate_init_spec`, with the tags it accepts in InitSpec/Tags.
--   Db: the rows of src/db.rs that the other parts read. Wg/Store writes generated parameters to the
--     interface's row; Wg/Store/Laws joins the generator, the row, the supervisor and the parser.
--   Proxy/Supervisor: src/proxy/supervisor.rs. The file itself prints and normalises the parameters,
--     Supervisor/Ports chooses the ports, Supervisor/Machine is the life of the proxy's task as
--     operations on the shared state and steps between them. Supervisor/Text, Params and Headers
--     are about what the parser makes of the printed text.
--   Proxy/Config: the parser of the obfuscation parameters in src/proxy/config.rs, with the reading
--     of a text in Config/Text and of a range in Config/Ranges. Proxy/Settings is the proxy's own
--     configuration and its defaults.
--   Proxy/Params: `HRange` and `AwgParams` of src/proxy/config.rs, the values that both ends of a
--     tunnel agree on. Packet and Transform read them.
--   Proxy/Packet: `classify_awg_packet` of src/proxy/responder.rs, which tells a tunnel packet and
--     its type by size and header. Packet/Laws says what its answer means.
--   Proxy/Echo: `DnsEcho` of src/proxy/responder.rs, the question of a client that the DNS padding
--     answers. Responder/Query reads it, Transform/Dns writes it.
--   Proxy/Transform: `apply_awg_transform` of src/proxy/transform.rs and the padding of each
--     protocol, in Transform/Quic, Dns, Stun and Sip, with the generator in Transform/Random. Each
--     has its own laws: Dns/Framing, Stun/Laws, Sip/Length and Sip/Framing are about what an observer
--     parses, Transform/Laws about the packet behind the padding.
--   Proxy/Responder: the rest of src/proxy/responder.rs. Responder/Qname is `dns_qname_end`, Query
--     the reading of a DNS query, Detect `detect_protocol`, Answers the QUIC, DNS and STUN answers,
--     Sip the SIP dialogs: their lines (Sip/Lines), requests (Sip/Request), answers and stages
--     (Sip/Stage) and the stateless answer (Sip/Trying); Response chooses the answer by protocol.
--   Proxy/Call: `handle_sip_probe` of src/proxy/proxy.rs for one client, with the two sends of its
--     deferred task. It uses Responder/Sip. Call/Runs puts requests and sends in any order.
--   Proxy/Session: `SessionTable` of src/proxy/session.rs, one operation per method. Session/Expiry
--     is the sweep, Session/Race the atomic steps of concurrent calls as a step relation.
--   Proxy/Metrics: `ClientMetrics` and `MetricsStore` of src/proxy/metrics.rs, with the token bucket
--     in Metrics/Bucket and the store in Metrics/Store.
--   Db/Addresses: `next_ipv4` and `next_ipv6` of src/db.rs. Api/Cidr is `change_cidr` of
--     src/api/admin.rs, which gives every client an address of a new network by them.
--   Api/Login: the limits on login attempts of src/api/session.rs. Login/Store and Sweep are about
--     the map of windows, Limit about the key of one username, Attempts about sequences of attempts.
--   Firewall: src/firewall.rs. The file itself reads the targets of the clients and prints the
--     transaction of their chain, Firewall/Dns that of the DNS lockdown. Firewall/Policy is what the
--     chain is to let through, packet by packet; Rules, Chain and Refines lead from the printed text
--     to the policy; Counts, Targets and Lines are about stored text that could break a line.
--   Prelude: what the parts share. Buffers models writes into a slice, Words big and little endian
--     numbers, Text the bytes of a literal, Bits masks, Assoc maps as association lists, Results the
--     results of fallible code, Ints signed numbers, Numerals and Strings the parsing of text.
--
-- A byte is a number below 256, a buffer a list of them, a word of w bits is reduced by `% 2 ^ w`
-- where the code wraps and cut by `min` where it saturates. An index or a slice out of range panics
-- in the code and is `none` here. Text is its UTF-8 bytes. A socket address is a number where it is
-- only compared. Clocks, sockets, the outcome of each send and the operating system's answers are
-- arguments, and so is the reading of a network address. The operating system's random bytes are a
-- list that is taken from its front; a list that is too short has no answer. Signed numbers are `ℤ`
-- over the native numbers. An integer that overflows wraps, as in the release profile.
--
-- Loops run over lists or over a count that the code has too. Fuel is used where they do not: the
-- digits of a number (Prelude/Text) have more rounds than the number has digits; the width of SIP's
-- Content-Length (Transform/Sip) has the rounds of the code's own bound; the walk over a DNS name
-- (Responder/Qname) has one round for each byte of the packet and one more, and a round moves on;
-- the check of an init packet (Wg/InitSpec) has one round for each byte of the text, and a round
-- takes at least one; the loops that draw again (Wg/Splits, Wg/Generate) have one round for
-- each random byte left and one more, and a round takes at least one.
--
-- Not modelled: the event loops and sockets, the forwarding of DNS probes to a resolver, the SQL of
-- the database, the HTTP handlers other than those named above, the WireGuard tools and the
-- configuration printed for them, the order in which a change of settings restarts the parts, and
-- the supervisors of other programs, the run of nft with the jumps of its chains. In a call, another
-- task may run between the answer and the change of the stage; Call runs a request as one step, and
-- Call/Laws has the change from any stage.
pub mod Api
pub mod Db
pub mod Firewall
pub mod Prelude
pub mod Proxy
pub mod Rng
pub mod Wg
