-- ===== src/Peers/Sending/Queueing.antt =====
-- What a peer's calls do to its queue.
use ironwood.Base.{
  ℕ, ◌+◌, ◌-◌, ◌^◌, ◌≤◌, ◌<◌, ◌≡◌, refl, inl, inr, true, false, Option, none, some, ltb, ◌==◌,
  length, arith, Bool-cases,
}
use ironwood.Types.{ok}
use ironwood.PacketQueue.{
  PqPacket, PqPacketInfo, PacketQueue, dest_size, source_size, packet_size, push, pop, peek,
  drop_packet,
}
use ironwood.PacketQueue.Heap.Entries.{nth_in, sum-nth}
use ironwood.PacketQueue.Invariant.{DestValid, QueueValid, held}
use ironwood.PacketQueue.Take.{source-sized}
use ironwood.PacketQueue.Pop.{pop-TakesOldest}
use ironwood.PacketQueue.Push.{stamped, push-Pushed}
use ironwood.PacketQueue.Drop.{drop-DropsLargest}
use ironwood.PacketQueue.Run.{ValidUntil, waits_until, pop-empty, still_none_late, late}
use ironwood.Peers.Sending.{make_room}

peek-empty : (q : PacketQueue) → QueueValid q → q.size ≡ 0 → peek q ≡ ok none
unfolding peek
peek-empty q v empty = elim (Bool-cases (ltb 0 (length q.dests))) [
  | inl waits ↦
      let (d, found) = nth_in 0 q.dests (ground (arith, waits)) in
      let dv : DestValid d = v.ordered.good 0 d (ground (arith, waits)) found in
      let (s, s_found) = nth_in 0 d.sources dv.waiting in
      absurd (
        omega (
          arith,
          empty,
          v.adds_up,
          sum-nth dest_size 0 d q.dests found,
          dv.adds_up,
          sum-nth source_size 0 s d.sources s_found,
          source-sized s (dv.ordered.good 0 s dv.waiting s_found),
        ))
  | inr nothing ↦ rw (nothing, peek) refl
]

-- A queue that is at most as large, and as valid.
pub record Smaller (t : ℕ) (q q' : PacketQueue) : Type 0 where
  pub valid : ValidUntil t q'
  pub at_most : q'.size ≤ q.size
  pub held_most : (f : PqPacketInfo → ℕ) → held f q' ≤ held f q

make_room-kept :
    (now : ℕ) (q : PacketQueue) (info : PqPacketInfo)
    → peek q ≡ ok (some info)
    → ltb 25000000 (now - info.time) ≡ false
    → make_room now q ≡ ok q
unfolding make_room
make_room-kept now q info shown fresh = rw (shown, fresh) refl

make_room-dropped :
    (now : ℕ) (q rest : PacketQueue) (info : PqPacketInfo)
    → peek q ≡ ok (some info)
    → ltb 25000000 (now - info.time) ≡ true
    → drop_packet q ≡ ok (true, rest)
    → make_room now q ≡ ok rest
unfolding make_room
make_room-dropped now q rest info shown old runs = rw (shown, old, runs) refl

make_room-none : (now : ℕ) (q : PacketQueue) → peek q ≡ ok none → make_room now q ≡ ok q
unfolding make_room
make_room-none now q shown = rw (shown) refl

pub make_room-Smaller :
    (t now : ℕ) (q : PacketQueue)
    → ValidUntil t q
    → (q' : PacketQueue) × ((make_room now q ≡ ok q') × Smaller t q q')
make_room-Smaller t now q v = elim (Bool-cases (q.size == 0)) [
  | inl empty ↦ (
    q,
    (
      make_room-none now q (peek-empty q v.valid (ground (arith, empty))),
      record { valid = v; at_most = omega arith; held_most = λ f. omega arith },
    ),
  )
  | inr waits ↦
      let p = pop-TakesOldest q v.valid (ground (arith, waits)) in
      elim (Bool-cases (ltb 25000000 (now - p.info.time))) [
        | inl old ↦
            let d = drop-DropsLargest q v.valid (ground (arith, waits)) in
            let x = d.dropped_info in
            (
              x.rest,
              (
                make_room-dropped now q x.rest p.info p.shown old x.runs,
                record {
                  valid = record {
                    valid = x.valid;
                    none_late =
                        still_none_late t q x.rest d.chosen.info v.none_late (x.held_was (late t));
                  };
                  at_most = x.smaller;
                  held_most = λ f. omega (arith, x.held_was f);
                },
              ),
            )
        | inr fresh ↦ (
          q,
          (
            make_room-kept now q p.info p.shown fresh,
            record { valid = v; at_most = omega arith; held_most = λ f. omega arith },
          ),
        )
      ]
]

-- What a packet counts that may be there.
unfoldable pub weight : (PqPacketInfo → ℕ) → Option PqPacketInfo → ℕ
weight f none = 0
weight f (some i) = f i

-- What pop gives, and the queue that it leaves.
pub record PopReturns (t : ℕ) (q : PacketQueue) : Type 0 where
  pub found : Option PqPacketInfo
  pub rest : PacketQueue
  pub runs : pop q ≡ ok (found, rest)
  pub valid : ValidUntil t rest
  pub held_was : (f : PqPacketInfo → ℕ) → held f q ≡ weight f found + held f rest

pub pop-Returns : (t : ℕ) (q : PacketQueue) → ValidUntil t q → PopReturns t q
unfolding weight
pop-Returns t q v = elim (Bool-cases (q.size == 0)) [
  | inl empty ↦ record {
    found = none;
    rest = q;
    runs = pop-empty q empty;
    valid = v;
    held_was = λ f. omega arith;
  }
  | inr waits ↦
      let p = pop-TakesOldest q v.valid (ground (arith, waits)) in
      let x = p.popped in
      record {
        found = some p.info;
        rest = x.rest;
        runs = x.runs;
        valid = record {
          valid = x.valid;
          none_late = still_none_late t q x.rest p.info v.none_late (x.held_was (late t));
        };
        held_was = x.held_was;
      }
]

-- A queue holds just what it held, and the packet that is pushed.
pub push-held :
    (t now : ℕ) (q : PacketQueue) (packet : PqPacket)
    → ValidUntil t q
    → t ≤ now
    → q.size + packet_size packet < 2 ^ 64
    → (f : PqPacketInfo → ℕ) → held f (push q packet now) ≡ held f q + f (stamped packet now)
push-held t now q packet v later fits =
    let p =
      push-Pushed q packet now v.valid (λ j x. omega (arith, waits_until t q j v x, later)) fits in
    p.held_is
