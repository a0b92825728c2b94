-- ===== src/Peers/Tests.antt =====
-- Messages of network/peers.go, of which one is too large, a table of two peers, a peer that
-- sends, and its monitor.
use ironwood.Base.{◌≡◌, refl, List, [], ◌∷◌, some, arith, All, ◌≤◌, ◌↔◌, inl, true, false}
use ironwood.Keyed.{lookup, insert}
use ironwood.Wire.{wire_size_path, wire_size_uint, uvarint_bytes}
use ironwood.Messages.SigReq
use ironwood.Messages.Lookup
use ironwood.Crypto.{equal}
use ironwood.Router.{Peer}
use ironwood.PacketQueue
use ironwood.PacketQueue.{PqPacket, packet_size}
use ironwood.PacketQueue.Run.{empty_queue, empty-ValidUntil}
use ironwood.Peers.Table.{Peers, init_peers, add_peer, has_port, free_port}
use ironwood.Peers.Table.Reached.{Reached, starts, adds, IsConnected, Reached-port}
use ironwood.PacketQueue.Invariant.{held}
use ironwood.PacketQueue.Heap.Entries.{sum}
use ironwood.Peers.Sending.{PeerAct, queues, writes, Sender, message_of, peer_step, writer_step}
use ironwood.Peers.Sending.Served.{
  is_asked, is_at_work, is_served, too_large, writer_step-is_served,
}
use ironwood.Peers.Sending.Turns.{next_fits, next_size, act_size, Turns, peer_step-Turns}
use ironwood.Peers.Monitor.{Delays, Event, sends, receives, after}
use ironwood.Peers.Monitor.Silence.{
  sent_since, received_since, first_traffic, delayed, after-first_traffic,
}
use ironwood.Peers.Sending.Stalled.{Stalls, push_packet-Stalls}
use ironwood.Router.Tests.{toy, key}
use ironwood.Peers.{Message, sig_req, path_lookup, handler, handle_packet, read_error, message_size}
use ironwood.Peers.Framing.{stream_of, kept}
use ironwood.Peers.Delivery.{IsSendable, handler-messages}

abbrev some_messages : List Message
some_messages =
    sig_req record { seq = 3; nonce = 500 }
    ∷ path_lookup record { source = key 1; dest = key 2; from = 1 ∷ 300 ∷ [] }
    ∷ sig_req record { seq = 4; nonce = 501 }
    ∷ []

some_messages-IsSendable : All (IsSendable toy (key 1) (key 2)) some_messages
unfolding IsSendable
some_messages-IsSendable = (
  record { seq_fits = omega arith; nonce_fits = omega arith },
  (
    record {
      source_size = refl;
      dest_size = refl;
      from_ports = ((omega arith, omega arith), ((omega arith, omega arith), tt));
    },
    (record { seq_fits = omega arith; nonce_fits = omega arith }, tt),
  ),
)

handler-messages_example :
    handler (handle_packet toy (key 1) (key 2)) 40 (stream_of 40 some_messages)
    ≡ (kept (λ (m : Message). some m) 40 some_messages, read_error)
handler-messages_example =
    handler-messages toy (key 1) (key 2) 40 some_messages (omega arith) some_messages-IsSendable

abbrev first : Peer
first = record { key = key 1; port = 1; prio = 0; order = 0 }

abbrev second : Peer
second = record { key = key 2; port = 2; prio = 3; order = 1 }

abbrev one_peer : Peers
one_peer = record { closed = false; ports = 1 ∷ []; peers = (key 1, first ∷ []) ∷ []; order = 1 }

abbrev two_peers : Peers
two_peers = record {
  closed = false;
  ports = 2 ∷ 1 ∷ [];
  peers = (key 1, first ∷ []) ∷ (key 2, second ∷ []) ∷ [];
  order = 2;
}

two_peers-Reached : Reached two_peers
unfolding init_peers add_peer has_port free_port lookup insert equal
two_peers-Reached =
    adds {t = one_peer} {p = second} (key 2) 3
      (adds {t = init_peers} {p = first} (key 1) 0 starts refl) refl

first-IsConnected : IsConnected two_peers first
unfolding lookup equal
first-IsConnected = record { key_peers = first ∷ []; found = refl; member = inl refl }

second-IsConnected : IsConnected two_peers second
unfolding lookup equal
second-IsConnected = record { key_peers = second ∷ []; found = refl; member = inl refl }

Reached-port_example : ((first.port ≡ second.port) ↔ (first.key ≡ second.key)) × (1 ≤ first.port)
Reached-port_example =
    Reached-port two_peers first second two_peers-Reached first-IsConnected second-IsConnected

abbrev query : PqPacket
query = PacketQueue.path_lookup record { source = key 1; dest = key 2; from = 1 ∷ 300 ∷ [] }

size-query : packet_size query ≡ 68
unfolding packet_size Lookup.size wire_size_path wire_size_uint uvarint_bytes
size-query = refl

-- A peer with an empty queue, whose writer is idle.
abbrev idle : List PeerAct → Sender
idle acts = record {
  queue = empty_queue;
  ready = true;
  seq = 7;
  peer_inbox = acts;
  writer_inbox = [];
  buffered = [];
  flushed = [];
}

peer_step-Turns_example : Turns 1000 5 (peer_step 5 (idle (queues query ∷ [])))
unfolding is_served next_size act_size next_fits too_large held sum message_of message_size
    Lookup.size wire_size_path wire_size_uint uvarint_bytes
peer_step-Turns_example =
    peer_step-Turns 1000 0 5 (idle (queues query ∷ [])) empty-ValidUntil (omega arith)
      (omega (arith, size-query)) refl refl refl

abbrev writing : Sender
writing = record (idle []) { ready = false; writer_inbox = writes some_request ∷ [] }
  where
    some_request : Message
    some_request = sig_req record { seq = 3; nonce = 500 }

writer_step-is_served_example : is_served 40 (writer_step 40 writing) ≡ true
unfolding is_served is_asked is_at_work too_large message_size SigReq.size wire_size_uint
    uvarint_bytes
writer_step-is_served_example = writer_step-is_served 40 writing refl

push_packet-Stalls_example : Stalls 40 5 6 query query (idle [])
unfolding is_asked message_size message_of Lookup.size wire_size_path wire_size_uint uvarint_bytes
push_packet-Stalls_example =
    push_packet-Stalls 40 0 5 6 query query (idle []) refl refl refl refl empty-ValidUntil
      (omega arith) (omega (arith, size-query))

abbrev delays : Delays
delays = record { keep_alive_delay = 1; timeout = 4 }

abbrev events : List Event
events = sends 9 30 ∷ sends 2 20 ∷ receives 1 15 ∷ receives 9 10 ∷ []

after-first_traffic_example :
    ((after delays events).deadline ≡ delayed 4 (first_traffic (sent_since events)))
    × ((after delays events).keep_alive_timer ≡ delayed 1 (first_traffic (received_since events)))
after-first_traffic_example = after-first_traffic delays events
