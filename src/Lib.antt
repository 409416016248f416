-- ===== src/Lib.antt =====
-- Pisaller: a client that takes SOCKS5 and HTTP connections and tunnels them through smux streams
-- over WebSocket connections to a relay server, with an encrypted client hello whose configuration it
-- looks up in the DNS.
--
-- How the parts work together. The client (cmd/client/main.go) holds a pool of channels, each one a
-- WebSocket connection (internal/transport/wsconn.go) with smux above it. For a connection of its
-- user it picks a channel, opens a stream, sends an open header with the kind, the strategy and the
-- target, and then chunks. The server (cmd/server/main.go) takes a connection's first stream for a
-- handshake, compares its UUID with the configured ones, registers later streams in a session
-- (internal/session/session.go) and hands them to the relay (internal/relay), which resolves and
-- dials the target by the strategy. internal/transport/uuid.go holds the client's own UUID, and
-- internal/transport/dnagg.go gathers bytes on their way down.
--
-- Which file models what.
-- Base and its children: lists, tests, the errors, integers, big-endian bytes, the functions on text
--   of the packages strings and net, and parsers. A `Parse` is a value, an error, a read out of range,
--   or fuel that has run out.
-- Stream: a connection as explicit state: the bytes that wait and how they end, the bytes written,
--   planned faults of writes, and the two deadlines; io.ReadFull and Write on it.
-- Protocol: internal/protocol/handshake.go and stream.go, the constants of
--   internal/constants/constants.go, and the framing functions of cmd/client/main.go and
--   internal/relay/tcp.go. Protocol/Copies has the functions that the repository has a second time.
-- Ech: buildDNSQuery, parseDNSResponse and parseHTTPSRecord of internal/transport/ech.go.
--   Ech/Reply describes a well-formed answer on its own, without the parser. Ech/Lookup is the rest of
--   the file: the queries over UDP and HTTP, InitECH, RefreshECH and GetECHList.
-- WsConn: internal/transport/wsconn.go: the queue of writes with its timer, and the reads.
--   WsConn/Deadlines is its deadlines and addresses.
-- DnAgg: internal/transport/dnagg.go: Write, Close, and the sections of the flusher. DnAgg/Proxying is
--   ProxyConnStream, with a flush taken apart into its copy, its write and its clear, and DnAgg/Wakeup
--   is Close against the flusher's wait, as a step relation.
-- Uuid: internal/transport/uuid.go, its package variables as a state.
-- Session: internal/session/session.go, the map as an association list, and (Session/Accept)
--   acceptStreams of cmd/server/main.go.
-- Address: net.IP as a list of bytes, with To4.
-- Socks: parseSOCKS5UDPPacket, buildSOCKS5UDPPacket and parseAuthAndAddr of cmd/client/main.go.
-- Socks5: the handshake of handleSOCKS5, with its authentication and its request, of
--   cmd/client/main.go.
-- Association: UDPAssociation of cmd/client/main.go; Association/Steps is the step relation of its
--   three goroutines, and Association/Binding is handleSOCKS5UDP up to it.
-- Http: handleHTTP of cmd/client/main.go up to its target; Http/Tunnel goes on to the stream and the
--   bytes that are sent on it first.
-- Listen: runSOCKS5 and runHTTP of cmd/client/main.go.
-- Dial: resolveIPsForDial, its filters, and the collector of DialTCPWithRace of
--   internal/relay/dial.go. Dial/Dialling is DialTCPWithStrategy and DialTCPWithRace.
-- Relay: HandleSmuxStream and handleUDPStream of internal/relay/tcp.go, and resolveUDPAddr of
--   internal/relay/udp.go. Relay/Tcp is handleTCPStream, as the step relation of its goroutines, and
--   Relay/Udp is handleUDPStream as a whole, with its two loops as turns in any order.
-- Pool: openBestStream, openTCPStream, openUDPStream and the probe of cmd/client/main.go, and what the
--   channel goroutines store in the pool. Pool/Serve is dialAndServe with probeChannelRTT, as a step
--   relation.
-- Client: doHandshake, the ping of keepAlive, and (Client/Websocket) dialWS of cmd/client/main.go.
--   Client/Websocket/Dialling is the dial at its end. Client/Loop is connectLoop with keepAlive,
--   acceptStreams and main's signal, as a step relation, and Client/Startup is the start of main, with
--   startPool and the listeners.
-- Fingerprints: internal/transport/utls.go.
-- Proxy: proxyConn of cmd/client/main.go, as the step relation of its two goroutines.
-- Route: how the parts work together for one connection of a SOCKS5 client, for one request to the
--   HTTP proxy (Route/Web), and from the two configuration files to a session (Route/Welcome).
-- Config: the defaults of internal/config/config.go and parseStrategy; Config/Loading is
--   LoadClientConfig and LoadServerConfig.
-- Server: the UUIDs of LoadServerConfig of internal/config/config.go, and the handshake of
--   handleWebSocket of cmd/server/main.go. Server/WebSocket is handleWebSocket as a whole, with
--   the map of sessions, and Server/Startup is the start of the process: the variable upgrader, then
--   main.
-- Modules named Examples hold runs on concrete data.
--
-- Parameters. What the operating system and the packages outside the repository do is a part of a
-- state or an argument: the faults of a stream and the end of its input, the outcomes and messages
-- of a WebSocket, net.IP's text form and parser (IpText), the resolver, what smux answers, what
-- the network answers to a DNS query or a dial (Network, Net), what is decoded from a configuration
-- file, net.Listen and Accept, WriteTo and Read of a socket, the WebSocket upgrader, http.ReadRequest, url.Parse, the
-- decoder of base64, strconv.Itoa, strconv.Atoi and fmt.Sscanf of a number. The aggregator's Write
-- calls a method flushLocked that the source does not declare; it is an argument. A connection's
-- deadline is the number of the moment and the timeout that it was set with.
--
-- Bounds and fuel. Bytes are natural numbers, and the places where the code cuts a number to 8,
-- 16, 32 or 64 bits are written out. The loops of the DNS parser over a name and over the
-- parameters run on the length of the data and one more: each round moves on by a byte at least.
-- The loop over the answers runs on their number. The relay's loop over chunks runs on the length
-- of the stream and one more, since each chunk takes two bytes at least. A port has at most five
-- decimal digits. The longest slice that make can make is an argument of the client's start. Sums of lengths are taken not to overflow a Go int.
--
-- Locks and goroutines. A section under one lock is one definition; what happens between two
-- sections is a sequence of such definitions, in the order of interest, or a step relation with
-- every order: Association/Steps, Relay/Tcp, Relay/Udp, DnAgg/Proxying, Pool/Serve, Proxy, Client/Loop and DnAgg/Wakeup. A race
-- of dials is given by how its goroutines end.
--
-- Not modelled: what TLS and the WebSocket library do beyond their answers, the HTTP server
-- around handleWebSocket and its shutdown, the decoder of JSON, the buffer pool, and the logs. The
-- assignments to IPStrategy are left out, since the source calls parseStrategy with a byte there.
pub mod Base
pub mod Stream
pub mod Protocol
pub mod Ech
pub mod WsConn
pub mod DnAgg
pub mod Uuid
pub mod Session
pub mod Address
pub mod Socks
pub mod Dial
pub mod Pool
pub mod Server
pub mod Socks5
pub mod Association
pub mod Relay
pub mod Config
pub mod Http
pub mod Client
pub mod Proxy
pub mod Fingerprints
pub mod Route
pub mod Listen
