-- ===== src/Peers/Sending.antt =====
-- How network/peers.go sends: a peer with its queue, and its writer, as two actors with inboxes. An
-- action is put at the end of an inbox and taken from its front. Times are in nanoseconds.
pub mod Queueing
pub mod Served
pub mod Turns
pub mod Stalled
use ironwood.Base.{
  ℕ, zero, suc, ◌+◌, ◌-◌, ◌%◌, ◌^◌, Bool, true, false, List, [], ◌∷◌, ◌++◌, Option, none, some, ltb,
  ◌==◌, if◌then◌else◌,
}
use ironwood.Types.{Result, ok, ◌>>=◌}
use ironwood.PacketQueue.{PqPacket, PqPacketInfo, PacketQueue, push, pop, peek, drop_packet}
use ironwood.PacketQueue
use ironwood.Peers.{Message, path_lookup, path_notify, path_broken, traffic, message_size}

-- `packet` as data to send, with its wireType.
unfoldable pub message_of : PqPacket → Message
message_of (PacketQueue.traffic p) = traffic p
message_of (PacketQueue.path_lookup p) = path_lookup p
message_of (PacketQueue.path_notify p) = path_notify p
message_of (PacketQueue.path_broken p) = path_broken p

-- What waits in the peer's inbox: a call of sendQueued, sendDirect or pop.
pub data PeerAct : Type 0 where
  queues : PqPacket → PeerAct
  sends : Message → PeerAct
  asks : PeerAct

-- What waits in the writer's inbox: a call of sendPacket or keepAlive, the question of _write
-- whether something was written since, and a flush.
pub data WriterAct : Type 0 where
  writes : Message → WriterAct
  keeps_alive flushes : WriterAct
  checks : ℕ → WriterAct

-- What the writer wrote: a message, or a keepalive.
pub data Written : Type 0 where
  message : Message → Written
  keepalive : Written

-- `buffered` is what was written and not flushed yet, `seq` counts the writes.
pub record Sender : Type 0 where
  pub queue : PacketQueue
  pub ready : Bool
  pub seq : ℕ
  pub peer_inbox : List PeerAct
  pub writer_inbox : List WriterAct
  pub buffered : List Written
  pub flushed : List Written

-- Room is made when the oldest packet waits for more than 25 ms.
unfoldable pub make_room : ℕ → PacketQueue → Result PacketQueue
make_room now q = do
  oldest ← peek q
  elim oldest as (λ o. Result PacketQueue) [
    | none ↦ ok q
    | some info ↦
        if ltb 25000000 (now - info.time)
        then (drop_packet q >>= λ (r : Bool × PacketQueue). ok r.1)
        else ok q
  ]

-- The writer's inbox and the flag, with the queue, after _push or pop.
unfoldable pub hand_over : Sender → PacketQueue → Bool → List WriterAct → Sender
hand_over s q ready acts = record s {
  queue = q;
  ready = ready;
  writer_inbox = s.writer_inbox ++ acts;
}

-- _push
unfoldable pub push_packet : ℕ → PqPacket → Sender → Result Sender
unfolding hand_over make_room
push_packet now packet s =
    if s.ready
    then ok (hand_over s s.queue false (writes (message_of packet) ∷ []))
    else (make_room now s.queue >>= λ (q : PacketQueue).
        ok (hand_over s (push q packet now) false []))

-- pop
unfoldable pub pop_packet : Sender → Result Sender
unfolding hand_over
pop_packet s = do
  (found, q) ← pop s.queue
  elim found as (λ o. Result Sender) [
    | none ↦ ok (hand_over s q true (flushes ∷ []))
    | some info ↦ ok (hand_over s q s.ready (writes (message_of info.packet) ∷ []))
  ]

unfoldable pub peer_act : ℕ → PeerAct → Sender → Result Sender
unfolding push_packet pop_packet hand_over
peer_act now (queues packet) s = push_packet now packet s
peer_act now (sends m) s = ok (hand_over s s.queue s.ready (writes m ∷ []))
peer_act now asks s = pop_packet s

-- The peer takes the next action of its inbox.
unfoldable pub peer_step : ℕ → Sender → Result Sender
unfolding peer_act
peer_step now s = elim s.peer_inbox as (λ l. Result Sender) [
  | [] ↦ ok s
  | a ∷ rest ↦ peer_act now a record s { peer_inbox = rest }
]

-- _write, and the question that it leaves.
unfoldable pub write : Written → Sender → Sender
write w s =
    let seq = (s.seq + 1) % 2 ^ 64 in
    record s {
      seq = seq;
      writer_inbox = s.writer_inbox ++ (checks seq ∷ []);
      buffered = s.buffered ++ (w ∷ []);
    }

unfoldable pub writer_act : ℕ → WriterAct → Sender → Sender
unfolding write
writer_act max_size (writes m) s =
    if ltb max_size (message_size m + 1) then s else write (message m) s
writer_act max_size keeps_alive s = write keepalive s
writer_act max_size flushes s = record s { buffered = []; flushed = s.flushed ++ s.buffered }
writer_act max_size (checks seq) s =
    if seq == s.seq then record s { peer_inbox = s.peer_inbox ++ (asks ∷ []) } else s

-- The writer takes the next action of its inbox.
unfoldable pub writer_step : ℕ → Sender → Sender
unfolding writer_act
writer_step max_size s = elim s.writer_inbox as (λ l. Sender) [
  | [] ↦ s
  | a ∷ rest ↦ writer_act max_size a record s { writer_inbox = rest }
]
