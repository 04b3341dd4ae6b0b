-- ===== src/Lib.antt =====
-- A verification library for the p2p package: a partial gossip network whose nodes keep
-- connections to peers, exchange parcels with them and choose whom a parcel goes to.
--
-- The application hands parcels to the network, which the controller routes to peers; each peer has
-- a channel of parcels to send, a protocol on its connection, and a cache of what it has seen. What
-- peers deliver goes to the application or is answered by the controller. The controller takes
-- incoming connections from the limited listener and makes outgoing ones through the dialer, settles
-- the protocol in a handshake, and keeps the peers that are online in the store. Each file models
-- one part; its children prove what they are named for, and its Tests run it on concrete inputs.
--
-- The modules and the code, from the repository's root:
-- - Prelude (with Tests, Lists, Int, Maps, Perms): shared names and lemmas. Go's maps are
--   association lists with one entry to a key, its int counters that can go down are integers, and
--   its strings are lists of bytes.
-- - Net: strconv.Atoi and net.SplitHostPort of the standard library. net.ParseIP is a parameter, a
--   function whose addresses have four or sixteen bytes.
-- - Endpoint: endpoint.go (Valid, NewEndpoint, ParseEndpoint, String, Equal); Endpoint.Special:
--   parseSpecial of util.go.
-- - NetworkId, Parcel, Crc32: networkId.go, parcelType.go, parcel.go, with IP2LocationQuick and
--   StringToUint32 of util.go. SHA-256 is a parameter.
-- - Configuration: configuration.go (defaults, Sanitize, Check). Handshake: handshake.go.
-- - Limiter: limiter.go; accept is Accept with the three readings of the clock that it makes.
-- - ParcelChannel: parcelChannel.go; send is Send, receive a receive from the channel.
-- - PeerHashCache: peerHashCache.go; the goroutine is the sequence of its ticks, and none is the
--   panic of a division by zero.
-- - PeerStore: peerStore.go; a peer is its pointer, hash, endpoint and direction, and the order of
--   a range over a map is any permutation.
-- - Protocol.V9, Protocol.V10, Protocol.V11: protocolV9.go, protocolV10.go and protocolV11.go.
--   gob carries a message over as it is; JSON and protobuf are codecs whose Unmarshal gives back
--   what Marshal took. Version 11 runs on a connection of bytes that may run short.
-- - Protocol.Interface, Protocol.Versions: protocol.go as a record of operations and laws, and the three
--   versions as such records. Protocol.Gob: the types that gob's encoders and decoders know of, with the
--   encoder that handshakeOutgoing of controller_connections.go adopts.
-- - PeerHash: the hash of newPeer of peer.go. Traffic: metricsReadWriter.go, with statLoop of peer.go.
-- - PeerLoops: Send, Stop, deliver, readLoop and sendLoop of peer.go, an iteration of a loop being an
--   operation; the cache is what its Add was called with.
-- - Link: two peers on the ends of one connection, in one direction, over any protocol.
-- - Metrics: GetMetrics and the rates of statLoop of peer.go, makeMetrics and runMetrics of
--   controller_run.go, GetInfo of network.go, info.go and PeerMetrics of peerUtil.go; a float64 is a
--   parameter that adds whole numbers up to 2^53 exactly.
-- - Debug: DebugHalfviz of debug.go.
-- - Dialer: dialer.go; an attempt stands for the call of the net package.
-- - Controller.Bans, Controller.Bans.Cache, Controller.Special: ban, banEndpoint, isBannedIP,
--   isBannedEndpoint, disconnect, setSpecial, isSpecial of controller.go, and
--   controller_persistence.go.
-- - Controller.Selection, Controller.Routing, Controller.Data: controller_routing.go, with
--   makePeerShare, processPeerShare, shuffleTrimShare and sharePeers of controller_cat.go. Shuffles
--   are any permutation, drawn numbers any number.
-- - Controller.Round, Controller.Replenish: runCatRound and catReplenish of controller_cat.go, with
--   Dial of controller_connections.go as the outcome of a handshake. Controller.RunLoop:
--   controller_run.go.
-- - Controller.ShareRequest: asyncPeerRequest of controller_cat.go against the responses in manageData
--   of controller_routing.go, as steps of the two goroutines.
-- - Controller.Admission, Controller.Admission.Negotiation, Controller.Online: allowIncoming,
--   selectProtocol, detectProtocolFromFirstMessage and manageOnline of controller_connections.go.
-- - Controller.Connect, Controller.Dialling, Controller.Listening: handshakeIncoming, RejectWithShare,
--   handshakeOutgoing, Dial and listen of controller_connections.go. Controller.Connect.Wire puts a
--   handshake of one node through the messages of Protocol, Controller.Connect.Meeting joins the
--   two sides; the two directions of a connection carry what is written to them.
-- - Seed: seed.go, with WebScanner of util.go; what http.Get returns is an argument.
-- - Controller.Online.Jam: manageOnline against peerStatus, the channel of ten that it reads and writes.
-- - Network: network.go, with newController of controller.go.
-- - Node: the controller with its stored peers, bans, dialer, channel of reports and handshakes under
--   way, and one event after the other, a handshake's check and its end being two, of what Start of controller.go, the application and other nodes set going: it composes the
--   definitions of Controller.Connect, Controller.Dialling, Controller.Online, Controller.Round,
--   Controller.Bans and Network.
--
-- Times are numbers of nanoseconds, counted from Go's zero time where a field may have that value.
-- Lengths and counters that the code keeps in 32 or 64 bits wrap round where the code can reach
-- the bound; sizes of lists in memory do not. No definition runs on fuel: the loop of catReplenish
-- recurses on the attempts that its limit leaves and on its queue.
--
-- A method that holds a mutex is one step. Where goroutines meet, the model has the sequence of
-- their steps: additions and ticks of the cache, sends and receives of a channel, reports of peers,
-- parcels that arrive, the two sides of a request for peers, and the views that the loop of
-- catReplenish has of a changing controller.
--
-- Not modelled: IP2Location, which nothing calls; logging and the registration of gauges
-- (prometheus.go); DebugMessage and DebugServer of debug.go, which format tables; lockSource.go, a
-- mutex round math/rand; and the generated code of protocolV11.pb.go but for its message types. gob's
-- wire format is not modelled beyond the messages and the types that were described.
pub mod Prelude
pub mod Net
pub mod Endpoint
pub mod Limiter
pub mod ParcelChannel
pub mod PeerHashCache
pub mod PeerStore
pub mod Network
pub mod NetworkId
pub mod Node
pub mod Parcel
pub mod Configuration
pub mod Crc32
pub mod Handshake
pub mod Protocol
pub mod Dialer
pub mod PeerHash
pub mod Seed
pub mod Traffic
pub mod PeerLoops
pub mod Link
pub mod Metrics
pub mod Debug
pub mod Controller
