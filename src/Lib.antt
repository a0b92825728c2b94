-- ===== src/Lib.antt =====
-- A model of ironwood, the routing library of this repository. In package network, nodes with ed25519
-- keys build a spanning tree by announcements, route greedily over distances in that tree, and find
-- each other's places in it by lookups and notifications; package encrypted lays sessions over it,
-- whose keys are exchanged by inits and acks and rotate with the traffic.
--
-- The parts, and the files that model them:
--   types/errors.go        Types: the errors, and the outcome of a Go call: a value, an error, a panic
--   network/wire.go        Wire, and Wire/: uvarints and zero-terminated paths on lists of bytes
--   network/crypto.go      Crypto, Crypto/Order: keys as lists of bytes, their order; crypto/ed25519 is
--                          the parameter `Ed25519`, with the law that a signature verifies
--   network/router.go      Messages/SigReq, SigRes, Announce: the messages; Router and Router/: the
--                          record of the router's maps, and a module for each group of methods:
--                          Tree (_getRootAndPath, _getRootAndDists, ancestries), Distance (_getDist),
--                          NextHop (_lookup), Update (_update and its timers), Handlers (requests,
--                          responses, announcements, _becomeRoot), Parent (_fix, _sendReqs),
--                          Announces (_sendAnnounces), PeerSet (addPeer, removePeer), Maintenance
--                          (init, _doMaintenance, _shutdown); Router/Sent: the states that are reached
--   network/pathfinder.go  Messages/Lookup, NotifyInfo, Notify, Broken: the messages; Pathfinder: its
--                          maps and timers, Pathfinder/Notifications (_handleNotify), Forwarding
--                          (lookups, rumors, traffic and broken paths), Arrivals (the router's
--                          handleTraffic)
--   network/traffic.go     Messages/Traffic
--   network/peers.go       Peers: the messages, the frames of a connection, what handler reads and the
--                          handlers make of it; Peers/Table: addPeer and removePeer; Peers/Sending:
--                          a peer with its queue and its writer, as two actors with inboxes;
--                          Peers/Monitor: keepalives and read deadlines
--   network/bloomfilter.go Bloom and Bloom/: the wire format of a filter's 128 chunks; Blooms: the filters
--                          of the router's peers, with github.com/bits-and-blooms/bloom as the
--                          parameter `Filter`, whose laws are that it finds what was added or merged
--   network/packetqueue.go PacketQueue, PacketQueue/Heap: the queue, and container/heap on slices; proofs
--                          about the loops in PacketQueue/Heap/, about the queue in PacketQueue/
--   encrypted/session.go   Session: a session's record, doSend and the updates by inits and acks; Session/
--                          Recv (doRecv), Init (the messages sessionInit and sessionAck), Manager
--                          (sessionManager: sessions, buffers, timers); proofs in the other modules of
--                          Session/, by what they are about
--   encrypted/crypto.go    nonceForUint64 in Session; nacl/box is the parameter `Box`, with the laws that
--                          a sealed message opens and that the two sides agree on the shared key, and
--                          the conversion of ed25519 keys the parameter `Curve` of Session/Init
--   signed/packetconn.go   Signed
-- Base has the shared helpers, Keyed the Go maps whose keys are public keys.
--
-- A method of the code keeps its name in snake_case, without a leading underscore, and stands in the
-- module of its type: routerSigReq.encode is Messages.SigReq.encode. A method that changes its object
-- takes it and returns it; what it sends is a list of outputs. A Go map is a list of entries and a loop
-- over it a recursion on that list, so what holds for every list holds for every order of iteration.
-- A peer object, a session and a buffer are told apart by the field `order`, a timer by the number under
-- which it was made, and an actor's handlers run one at a time. A key that newBoxKeys draws is an
-- argument, or the next of a stream that the manager has; the clock is an argument.
--
-- Numbers are natural numbers, with the wrap-around at 2 ^ 64 written out where the code can reach it.
-- The walks up the tree take as fuel one more than the entries of the map of infos, which is enough,
-- since a walk never visits a key twice. The decoder of a path takes as fuel one more than the bytes,
-- each port taking one at least. The loops of container/heap take the length of the slice, and each
-- round moves the index. The reading of a connection takes one more than the bytes that it gives, each
-- packet taking one at least.
--
-- Calls of _handleTraffic that nest through _handleNotify take the calls left as fuel, of which two
-- are enough.
--
-- The loop of addPeer for a free port takes one round more than there are ports in use.
--
-- Not modelled: the times srst and srrt of a peer (network/peers.go), the packet connections with
-- their channels and deadlines (network/packetconn.go, encrypted/packetconn.go and
-- encrypted/network.go), buffer pools, options and debugging output; cmd/ironwood-example is I/O
-- only.
pub mod Base
pub mod Types
pub mod Wire
pub mod Crypto
pub mod Messages
pub mod Keyed
pub mod Router
pub mod Bloom
pub mod PacketQueue
pub mod Blooms
pub mod Session
pub mod Signed
pub mod Peers
pub mod Pathfinder
