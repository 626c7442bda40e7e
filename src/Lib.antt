-- ===== src/Lib.antt =====
-- vibe-vpn: a VPN in Go that carries IP packets between a TUN device and a datagram or stream
-- transport. A client and a server agree on keys with a Noise handshake; afterwards each frame is
-- encrypted by an AEAD under a random nonce, with a 32-bit sequence number inside, against which
-- the receiver keeps a sliding replay window. The server gives every client an address out of one
-- subnet and routes packets from its TUN device to sessions by destination address.
--
-- The parts and their files:
-- - Base: numbers, lists, byte slices (a slice out of range panics, which is `none`), digits of
--   binary numbers, results.
-- - Wire: internal/protocol/wire.go, the message types.
-- - Replay: internal/protocol/replay.go. `check` and `add` are Check and Add, `shift_up` is shiftUp
--   with its loop in place. Bitmap says where each mark goes, Window what `check` answers after
--   `add`, Valid is the invariant, History follows the window over sequences of frames, and Spec
--   compares it with a receiver that remembers every number.
-- - Ippkt: internal/ippkt/ippkt.go, Parse.
-- - Aead: crypto/cipher.AEAD, which the repository calls: a record of operations, and the
--   documented behaviour that the theorems assume. Aead.Clear is a concrete cipher with that
--   behaviour, for the tests only.
-- - Framing: internal/framing/framing.go: Seal, Open, OpenInto, ParseInner; Framing.Shaping is
--   Shaping.PaddingFor with its helpers.
-- - Session.Keys: Keys of internal/session/session.go, the counter, the AEADs and the window.
-- - Session.Pool: ipPool of internal/session/server.go.
-- - Session.Manager: Manager of the same file. Each function is one critical section of its mutex,
--   but tun_packet of Route, which puts those of LookupIP and Reply into one step; Adopt has adopt, remove and the allowlist; Route has LookupIP, Reply and the body of TunLoop.
--   Steps puts the sections of all goroutines into sequences in any order, Invariant, Preserve and
--   Index hold what every section keeps, Owners draws the conclusions, and Ids is about the
--   search for a session id.
-- - Session.Cookie: requireCookie, cookieFor and validCookie of internal/session/server.go with
--   MakeCookie and CheckCookie of internal/crypto/keyencrypt.go, over any MAC.
-- - Session.Noise: the operations of internal/crypto/handshake.go, of which nothing is assumed.
-- - Session.Server: serverSession of internal/session/server.go. Server has both handshake messages
--   and encryptSend, Server.Handle the dispatch of a datagram, the rekey, the ticker and finish;
--   Deliver and Rekeying prove what a datagram can cause. Server.Run is the loop of run, round by
--   round, with the manager that the other sessions leave; Handshaken and Trusted follow the keys
--   through it, and Life the packets.
-- - Session.Client: handleFrame, sendPacket, the rekey and encryptSend of internal/session/client.go;
--   Session.Client.Safety proves what a datagram can cause, and reads back the assignment. Connect has
--   the first handshake, connect and reconnect of the same file, over the events that its select
--   statements see; Connected and Failed say what they leave. Client.Run has Run: the first
--   connection, each case of the select statement, and rounds of them. Trusted, Quiet and Life follow
--   the keys and the packets through one round, Rounds through all of them; Stuck is about a rekey
--   that fails.
-- - Session.Random: cryptoRandInt, crandInt63n and decoyJitter of internal/session. Session.Stats: the
--   histograms of internal/session/stats.go. Session.Jitter: internal/framing/jitter.go, and peerIP of
--   internal/session/server.go over a transport that it wraps.
-- - Session.Join: a client and a server in the same handshake, message by message (Server, Client,
--   and both in Agree). The record `Run` is the documented behaviour of a Noise handshake between
--   honest parties.
-- - Udp: internal/transport/udp/udp.go, the server's table of endpoints. Valid has its
--   invariant, Steps takes it through the operations, Safety runs them one after another, Demux
--   follows datagrams into the queues, and Race looks at two operations at once. Udp.Client is the
--   client, whose steps come in any order.
-- - Tls: the two modes of the client and the listener of internal/transport/tlsx/tlsx.go; Tls.Itoa is
--   its itoa.
-- - Dial: clientDial and tlsDialer of cmd/vpn/client.go. Setup: setupServerDir and setupClientDir of
--   cmd/vpn/setup.go, over the configurations of Config; Setup.Peer is readPeer and the file that it
--   reads.
-- - Startup: runServer and runClient of cmd/vpn/server.go and cmd/vpn/client.go, as the sequence of
--   parts that they start and stop and of the settings of the host that the server makes; Startup.Trace
--   and Startup.Settings run such a sequence and Startup.Clean says what the commands leave. Startup.Reload is parsePeers
--   and the reload on SIGHUP.
-- - Crypto: internal/crypto/key.go, EncryptKey and DecryptKey of internal/crypto/keyencrypt.go, and
--   cmd/vpn/keyload.go, over base64, scrypt and an AEAD.
-- - Pcap: internal/pcap/pcap.go. Pcap.ReadBack has a reader of the format.
-- - Host: commands on the host. Host.Routing is internal/routing/routing_linux.go and Host.Plan the
--   plan that it follows; Host.Desync is internal/desync/desync.go.
-- - Framed: internal/transport/framed/framed.go, Send and Receive on a byte stream.
-- - Config: internal/config/config.go, the defaults and the validation of both roles; what net and
--   os check is a parameter.
--
-- A *serverSession is a number, with its fields in the function `entry` of the manager; an IPv4
-- address is its 32-bit number; a client's static key is a number. A Go panic is the outer `none`
-- of a result. Machine words keep their width by `% 2 ^ w`. The loops on fuel are the search for a
-- free session id, `alloc_id`, with one round more than there are sessions, so that one of
-- the ids that it tries is free, and `digits` of itoa, whose fuel is the room in its buffer. A list of events or rounds that
-- ends stands for a client that still waits.
--
-- Not modelled: the handshake and the ciphers themselves (third-party libraries), sockets, TLS, TUN
-- devices, the Windows commands, the control socket and the metrics endpoint (text over a socket, with
-- no state of the tunnel), the accept loop of the raw TCP listener, flags, signals, quick, status,
-- keygen and certgen of cmd/vpn, Dump of the statistics, the capture that a session writes, the wait of
-- the jitter, what happens between LookupIP and Reply of one packet, the sessions when runServer
-- returns, the routes that the client's commands set up; freelists of buffers, which only save allocations.
pub mod Base
pub mod Wire
pub mod Replay
pub mod Ippkt
pub mod Aead
pub mod Crypto
pub mod Framing
pub mod Session
pub mod Framed
pub mod Udp
pub mod Startup
pub mod Pcap
pub mod Host
pub mod Tls
pub mod Dial
pub mod Setup
pub mod Config
