-- ===== src/Peers/Sending/Turns.antt =====
-- The turns of a peer in network/peers.go: its queue does not stand still.
use ironwood.Base.{
  ℕ, ◌+◌, ◌^◌, ◌≤◌, ◌<◌, ◌≡◌, refl, sym, ap, ◌∙◌, Bool, true, false, not, List, [], ◌∷◌, Option,
  none, some, if◌then◌else◌, arith,
}
use ironwood.Types.{Result, ok, ◌>>=◌}
use ironwood.PacketQueue.{PqPacket, PqPacketInfo, PacketQueue, packet_size, push, pop}
use ironwood.PacketQueue.Invariant.{held}
use ironwood.PacketQueue.Run.{ValidUntil, ValidUntil-later, push-ValidUntil}
use ironwood.Peers.{Message}
use ironwood.Peers.Sending.{
  PeerAct, queues, sends, asks, writes, flushes, Sender, message_of, hand_over, push_packet,
  pop_packet, peer_act, peer_step,
}
use ironwood.Peers.Sending.Queueing.{weight, make_room-Smaller, pop-Returns, push-held}
use ironwood.Peers.Sending.Served.{
  too_large, is_asked, is_at_work, is_served, is_at_work-append, if_true, if_false,
}

-- A waiting packet that the writer would drop.
unfoldable pub oversized : ℕ → PqPacketInfo → ℕ
oversized max_size i = if too_large max_size (message_of i.packet) then 1 else 0

-- The peer's next action does not queue a packet that the writer would drop.
unfoldable pub next_fits : ℕ → List PeerAct → Bool
next_fits max_size (queues packet ∷ rest) = not (too_large max_size (message_of packet))
next_fits max_size _ = true

-- How much the peer's next action adds to the queue.
unfoldable pub act_size : PeerAct → ℕ
act_size (queues packet) = packet_size packet
act_size _ = 0

unfoldable pub next_size : List PeerAct → ℕ
next_size [] = 0
next_size (a ∷ rest) = act_size a

-- What a turn of the peer does.
pub record Turns (max_size now : ℕ) (m : Result Sender) : Type 0 where
  pub after : Sender
  pub runs : m ≡ ok after
  pub served : is_served max_size after ≡ true
  pub fits : held (oversized max_size) after.queue ≡ 0
  pub valid : ValidUntil now after.queue

abbrev pub with_acts : Sender → List PeerAct → Sender
with_acts s acts = record s { peer_inbox = acts }

handed-write :
    (max_size : ℕ) (s : Sender) (q : PacketQueue) (ready : Bool) (m : Message)
    → too_large max_size m ≡ false
    → is_served max_size (hand_over s q ready (writes m ∷ [])) ≡ true
unfolding hand_over is_served is_at_work
handed-write max_size s q ready m small =
    ground (arith, small, is_at_work-append max_size s.seq s.writer_inbox (writes m ∷ []))

fitting :
    (max_size : ℕ) (i : PqPacketInfo)
    → oversized max_size i ≡ 0
    → too_large max_size (message_of i.packet) ≡ false
unfolding oversized
fitting max_size i h = ground (arith, h)

pop_packet-Turns :
    (max_size t : ℕ) (s : Sender)
    → ValidUntil t s.queue
    → held (oversized max_size) s.queue ≡ 0
    → Turns max_size t (pop_packet s)
unfolding pop_packet hand_over is_served weight
pop_packet-Turns max_size t s v fit =
    let p = pop-Returns t s.queue v in
    go p.found p.rest p.runs p.valid (sym (p.held_was (oversized max_size)) ∙ fit)
  where
    go :
        (found : Option PqPacketInfo) (q : PacketQueue)
        → pop s.queue ≡ ok (found, q)
        → ValidUntil t q
        → weight (oversized max_size) found + held (oversized max_size) q ≡ 0
        → Turns max_size t (pop_packet s)
    go none q runs valid fit = record {
      after = hand_over s q true (flushes ∷ []);
      runs = rw (runs) refl;
      served = refl;
      fits = omega (arith, fit);
      valid = valid;
    }
    go (some info) q runs valid fit = record {
      after = hand_over s q s.ready (writes (message_of info.packet) ∷ []);
      runs = rw (runs) refl;
      served =
          handed-write max_size s q s.ready (message_of info.packet)
            (fitting max_size info (omega (arith, fit)));
      fits = omega (arith, fit);
      valid = valid;
    }

push_packet-Turns :
    (max_size t now : ℕ) (packet : PqPacket) (s : Sender)
    → ValidUntil t s.queue
    → t ≤ now
    → s.queue.size + packet_size packet < 2 ^ 64
    → held (oversized max_size) s.queue ≡ 0
    → too_large max_size (message_of packet) ≡ false
    → is_served max_size s ≡ true
    → Turns max_size now (push_packet now packet s)
unfolding push_packet is_served hand_over is_at_work oversized
push_packet-Turns max_size t now packet s v later room fit small h = go s.ready refl
  where
    go : (b : Bool) → s.ready ≡ b → Turns max_size now (push_packet now packet s)
    go true ready = record {
      after = hand_over s s.queue false (writes (message_of packet) ∷ []);
      runs = if_true _ _ ready;
      served = handed-write max_size s s.queue false (message_of packet) small;
      fits = fit;
      valid = ValidUntil-later t now s.queue later v;
    }
    go false waits =
        let (q, (runs, smaller)) = make_room-Smaller t now s.queue v in
        record {
          after = hand_over s (push q packet now) false [];
          runs =
              if_false _ _ waits
              ∙ ap
                  (λ (m : Result PacketQueue).
                    m >>= λ (r : PacketQueue). ok (hand_over s (push r packet now) false []))
                  runs;
          served = ground (arith, h, waits, is_at_work-append max_size s.seq s.writer_inbox []);
          fits = omega (
            arith,
            push-held t now q packet smaller.valid later (omega (arith, room, smaller.at_most))
                (oversized max_size),
            smaller.held_most (oversized max_size),
            fit,
            if_false {A = ℕ} 1 0 small,
          );
          valid =
              push-ValidUntil t now q packet smaller.valid later
                (omega (arith, room, smaller.at_most));
        }

peer_act-Turns :
    (max_size t now : ℕ) (a : PeerAct) (rest : List PeerAct) (s : Sender)
    → ValidUntil t s.queue
    → t ≤ now
    → s.queue.size + act_size a < 2 ^ 64
    → held (oversized max_size) s.queue ≡ 0
    → next_fits max_size (a ∷ rest) ≡ true
    → is_served max_size (with_acts s (a ∷ rest)) ≡ true
    → Turns max_size now (peer_act now a (with_acts s rest))
unfolding peer_act act_size is_served is_asked is_at_work next_fits hand_over
peer_act-Turns max_size t now (queues packet) rest s v later room fit next h =
    push_packet-Turns max_size t now packet (with_acts s rest) v later room fit
      (ground (arith, next)) h
peer_act-Turns max_size t now (sends m) rest s v later room fit next h = record {
  after = hand_over (with_acts s rest) s.queue s.ready (writes m ∷ []);
  runs = refl;
  served = ground (arith, h, is_at_work-append max_size s.seq s.writer_inbox (writes m ∷ []));
  fits = fit;
  valid = ValidUntil-later t now s.queue later v;
}
peer_act-Turns max_size t now asks rest s v later room fit next h =
    pop_packet-Turns max_size now (with_acts s rest) (ValidUntil-later t now s.queue later v) fit

-- A turn of the peer does not panic, and leaves a queue that keeps its invariant; when the writer
-- was known to be idle, or an action waited that leads to a write or to a pop, this is so again. The
-- packets that wait, and the one that is queued, are not above the maximum, which is so of those
-- that wait afterwards, too; a message above it that is sent directly counts as no action. The clock
-- does not go back, and the sizes fit 64 bits.
pub peer_step-Turns :
    (max_size t now : ℕ) (s : Sender)
    → ValidUntil t s.queue
    → t ≤ now
    → s.queue.size + next_size s.peer_inbox < 2 ^ 64
    → held (oversized max_size) s.queue ≡ 0
    → next_fits max_size s.peer_inbox ≡ true
    → is_served max_size s ≡ true
    → Turns max_size now (peer_step now s)
unfolding peer_step next_size
peer_step-Turns max_size t now s v later room fit next h = go s.peer_inbox room next h
  where
    go :
        (acts : List PeerAct)
        → s.queue.size + next_size acts < 2 ^ 64
        → next_fits max_size acts ≡ true
        → is_served max_size (with_acts s acts) ≡ true
        → Turns max_size now (peer_step now (with_acts s acts))
    go [] room next h = record {
      after = with_acts s [];
      runs = refl;
      served = h;
      fits = fit;
      valid = ValidUntil-later t now s.queue later v;
    }
    go (a ∷ rest) room next h = peer_act-Turns max_size t now a rest s v later room fit next h
