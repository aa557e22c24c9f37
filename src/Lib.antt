-- ===== src/Lib.antt =====
-- passage is a reverse TCP tunnel: a client behind a NAT keeps one TLS connection to a server, proves
-- who it is, and the server listens for users on the client's behalf and leads each of them through a
-- stream of that connection to a target of the client's choice.
--
-- The parts, and the files that model them:
--   Proto       internal/proto: the messages (Messages) and their frames of a 4-byte length and a JSON
--               body (Framing: write_message, read_message).
--   Auth        internal/auth: the bytes that the Ed25519 and ML-DSA signatures cover (SigningInput),
--               Sign, Verify, PQSign and PQVerify (Verify), CheckClockSkew (Skew), and key texts and
--               files (Keys).
--   Config      internal/config: the types (Types), defaults and Validate of the server (Server) and the
--               client (Client), LoadServer and LoadClient (Load).
--   Tunnel      internal/tunnel. Server: NewServer's tables and validateAuth. Handshake: runHandshake of
--               server.go (server_handshake) and of client.go (client_handshake). Sessions:
--               replaceSession, removeSession, shutdown and runSession before (open_session) and after
--               (close_session) its wait; Sessions/Interleaving: runSession of all sessions at once.
--               Admission: the semaphore of Run and handleControl. Control: handleControl as a whole,
--               NewNonce and newSessionID. Run: NewServer as a whole and the loop of Run.
--               Control/History: the table of sessions over all connections. Users: acceptUsers. Proxy:
--               proxyUser and handleStream. Relay: relay. Cidr: parseCIDRs and cidrAllowed. Client:
--               NewClient, VerifyOnce, connectAndServe, acceptStreams and Run. Backoff: the delays of Run
--               and jitterDelay. Tls: the settings, the fingerprint and the callbacks of tls.go.
--   Mux         internal/mux: the settings of yamux.
--   QuickDocker internal/quickdocker: Spec.Validate (Spec), Load (Load), server.yaml, client.yaml and the published
--               ports (Render) and the compose files (Compose) of generate.go, generateSelfSignedTLS of
--               cert.go and FingerprintFromCertFile of tunnel/tls.go (Cert), ensureFreshDir and Generate
--               (Generate); the services as a quotient that forgets the walk (Render/Unordered).
--   Cmd         cmd/passage/main.go: the choice of the subcommand, the exit status, keygen, pq-keygen
--               and fingerprint; verify (Verify), server and client (Start), quick-docker (Deploy) and the
--               text of usage (Usage).
--   Go          the parts of Go's standard library that these use: binary, io and net.Conn, time, os,
--               net.SplitHostPort, hex, buffered channels, sort, strconv.Quote, filepath.Clean
--               (Path), and files and directories (Disk).
--   Base        shared names, lists, texts, maps, results and integers.
--   Examples    simple stand-ins for the libraries, and the theorems at concrete inputs.
--
-- Strings and byte slices are lists of bytes; an int64 is an integer whose wrap-around is written out
-- where the code can leave the range; a Go map is an association list, and where the code walks a map
-- the list's order is the order of the walk. A call that returns an error is a Result. A connection
-- (Go.Io.Conn) has the bytes that will arrive before it ends, the bytes sent, and how many writes it
-- still takes; a deadline that passes is an end of what arrives or of the writes. The sessions of the
-- server stand in a store, since the table, the session's goroutine and a successor share them. What
-- runs concurrently is a relation of steps: the accept loop, the two goroutines of relay, and the
-- goroutines of all sessions, where what the mutex guards, and each other access to a session, is one
-- step. Attempts of the client are a list, each with what the network and the libraries do in it. A
-- call that changes the disk keeps its effects when a later one fails.
--
-- Parameters: encoding/json (Proto.Framing.Json), crypto/ed25519 and circl's mldsa65
-- (Auth.Crypto), encoding/base64 and encoding/pem (Auth.Keys), crypto/x509 (QuickDocker.Cert),
-- the YAML decoder (Config.Load, QuickDocker.Load), net/netip (Tunnel.Cidr.Netip), SHA-256,
-- tls.LoadX509KeyPair, yamux as its default settings, the streams it gives and its end, the
-- values that flag gives, and which addresses are free to listen on. What random generators and
-- clocks return is an argument. No definition needs fuel: all loops go over lists, Client.Run
-- over the list of its attempts, and acceptUsers over the list of what Accept returns.
--
-- Not modelled: the parsing of YAML; the protocol of yamux, of which the default settings and whether it
-- starts a session are parameters; signals, which end a context; file modes; and logging.
pub mod Base
pub mod Go
pub mod Proto
pub mod Mux
pub mod Auth
pub mod Cmd
pub mod Config
pub mod Tunnel
pub mod QuickDocker
pub mod Examples
