-- ===== src/Peers/Sending/Stalled.antt =====
-- What an oversized packet does to a peer whose writer is idle.
use ironwood.Base.{
  ℕ, ◌+◌, ◌^◌, ◌≤◌, ◌<◌, ◌≡◌, refl, sym, ap, ◌∙◌, subst, true, false, List, [], ◌∷◌, ◌++◌, ltb,
  arith,
}
use ironwood.Types.{Result, ok, ◌>>=◌}
use ironwood.PacketQueue.{PqPacket, PqPacketInfo, PacketQueue, packet_size, push}
use ironwood.PacketQueue.Invariant.{held}
use ironwood.PacketQueue.Push.{stamped}
use ironwood.PacketQueue.Run.{ValidUntil, push-ValidUntil}
use ironwood.Peers.{Message, message_size}
use ironwood.Peers.Sending.{
  WriterAct, writes, Sender, message_of, hand_over, make_room, push_packet, writer_act, writer_step,
}
use ironwood.Peers.Sending.Queueing.{make_room-Smaller, push-held}
use ironwood.Peers.Sending.Served.{is_asked, if_true, if_false, with_inbox}

-- Nothing waits that leads to a write or to a pop, and packets are queued. No keepalive is due; when the
-- monitor's timer adds one, it is written.
pub record IsStalled (max_size : ℕ) (s : Sender) : Type 0 where
  pub waits : s.ready ≡ false
  pub nothing_written : s.writer_inbox ≡ []
  pub unasked : is_asked max_size s.peer_inbox ≡ false

push_packet-ready :
    (now : ℕ) (packet : PqPacket) (s : Sender)
    → s.ready ≡ true
    → push_packet now packet s ≡ ok (hand_over s s.queue false (writes (message_of packet) ∷ []))
unfolding push_packet
push_packet-ready now packet s ready = if_true _ _ ready

writer_act-large :
    (max_size : ℕ) (m : Message) (s : Sender)
    → ltb max_size (message_size m + 1) ≡ true
    → writer_act max_size (writes m) s ≡ s
unfolding writer_act
writer_act-large max_size m s large = if_true _ _ large

-- What the writer leaves of the oversized packet.
handed-large :
    (max_size : ℕ) (m : Message) (s : Sender)
    → s.writer_inbox ≡ []
    → ltb max_size (message_size m + 1) ≡ true
    → writer_step max_size (hand_over s s.queue false (writes m ∷ []))
      ≡ with_inbox record s { ready = false } []
unfolding writer_step hand_over
handed-large max_size m s empty large = go s.writer_inbox empty
  where
    start : List WriterAct → Sender
    start acts = record s { ready = false; writer_inbox = acts }

    go :
        (acts : List WriterAct)
        → acts ≡ []
        → writer_step max_size (start (acts ++ (writes m ∷ []))) ≡ start []
    go acts e =
        ap (λ (l : List WriterAct). writer_step max_size (start (l ++ (writes m ∷ [])))) e
        ∙ writer_act-large max_size m (start []) large

-- The queue after a push: what is there once room is made, and the packet.
pub record IsQueuedOn (now : ℕ) (packet : PqPacket) (before after : PacketQueue) : Type 0 where
  pub kept : PacketQueue
  pub makes_room : make_room now before ≡ ok kept
  pub at_most : (f : PqPacketInfo → ℕ) → held f kept ≤ held f before
  pub queued : (f : PqPacketInfo → ℕ) → held f after ≡ held f kept + f (stamped packet now)

record PushesOn (max_size t : ℕ) (packet : PqPacket) (s : Sender) (m : Result Sender) : Type 0 where
  after : Sender
  runs : m ≡ ok after
  queued : IsQueuedOn t packet s.queue after.queue
  stalled : IsStalled max_size after
  unwritten : after.buffered ≡ s.buffered
  valid : ValidUntil t after.queue

push_packet-IsStalled :
    (max_size t now : ℕ) (packet : PqPacket) (s : Sender)
    → IsStalled max_size s
    → ValidUntil t s.queue
    → t ≤ now
    → s.queue.size + packet_size packet < 2 ^ 64
    → PushesOn max_size now packet s (push_packet now packet s)
unfolding push_packet hand_over
push_packet-IsStalled max_size t now packet s x v later room =
    let (q, (runs, smaller)) = make_room-Smaller t now s.queue v in
    record {
      after = hand_over s (push q packet now) false [];
      runs =
          if_false _ _ x.waits
          ∙ ap
              (λ (m : Result PacketQueue).
                m >>= λ (r : PacketQueue). ok (hand_over s (push r packet now) false []))
              runs;
      queued = record {
        kept = q;
        makes_room = runs;
        at_most = smaller.held_most;
        queued =
            push-held t now q packet smaller.valid later (omega (arith, room, smaller.at_most));
      };
      stalled = record {
        waits = refl;
        nothing_written = ap (λ (l : List WriterAct). l ++ []) x.nothing_written;
        unasked = x.unasked;
      };
      unwritten = refl;
      valid =
          push-ValidUntil t now q packet smaller.valid later (omega (arith, room, smaller.at_most));
    }

-- What becomes of a packet that is pushed after the oversized one.
pub record Stalls (max_size now later : ℕ) (large packet : PqPacket) (s : Sender) : Type 0 where
  pub pushed : Sender
  pub pushes : push_packet now large s ≡ ok pushed
  pub stalled : IsStalled max_size (writer_step max_size pushed)
  pub after : Sender
  pub queues : push_packet later packet (writer_step max_size pushed) ≡ ok after
  pub queued : IsQueuedOn later packet s.queue after.queue
  pub still_stalled : IsStalled max_size after
  pub unwritten : after.buffered ≡ s.buffered

-- When a packet above the maximum is pushed while the writer is idle, the writer drops it and
-- nothing waits any more that leads to a write or to a pop, yet the peer is not ready: of a packet
-- that is pushed next the queue holds one more than it does once room is made, and nothing else
-- changes there, but it is not written, and nothing waits that leads to its write. The queue keeps its
-- invariant, the clock does not go back, and the sizes fit 64 bits. A keepalive that falls due
-- afterwards is outside this.
pub push_packet-Stalls :
    (max_size t now later : ℕ) (large packet : PqPacket) (s : Sender)
    → s.ready ≡ true
    → s.writer_inbox ≡ []
    → is_asked max_size s.peer_inbox ≡ false
    → ltb max_size (message_size (message_of large) + 1) ≡ true
    → ValidUntil t s.queue
    → t ≤ later
    → s.queue.size + packet_size packet < 2 ^ 64
    → Stalls max_size now later large packet s
push_packet-Stalls max_size t now later large packet s ready empty unasked too_large v clock room =
    let left : Sender = with_inbox record s { ready = false } [] in
    let dropped = handed-large max_size (message_of large) s empty too_large in
    let idle : IsStalled max_size left = record {
      waits = refl;
      nothing_written = refl;
      unasked = unasked;
    } in
    let next = push_packet-IsStalled max_size t later packet left idle v clock room in
    record {
      pushed = hand_over s s.queue false (writes (message_of large) ∷ []);
      pushes = push_packet-ready now large s ready;
      stalled = subst (IsStalled max_size) (sym dropped) idle;
      after = next.after;
      queues = ap (push_packet later packet) dropped ∙ next.runs;
      queued = next.queued;
      still_stalled = next.stalled;
      unwritten = next.unwritten;
    }
