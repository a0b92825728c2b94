-- ===== src/PacketQueue/Oldest.antt =====
-- Which of the waiting packets was queued first.
use ironwood.Base.{ℕ, zero, suc, ◌≤◌, ◌≡◌, ap, List, [], ◌∷◌, length, arith}
use ironwood.Types.{ok}
use ironwood.PacketQueue.{PqPacketInfo, PqSource, PqDest, PacketQueue}
use ironwood.PacketQueue.Heap.{nth}
use ironwood.PacketQueue.Heap.Entries.{at, at-nth, nth-lt, ok-equal}
use ironwood.PacketQueue.Heap.Order.{root_least}
use ironwood.PacketQueue.Invariant.{
  SourceValid, DestValid, QueueValid, IsAscending, info_time, source_time, dest_time,
}

-- A packet waits in the queue.
pub record IsQueued (q : PacketQueue) (i : PqPacketInfo) : Type 0 where
  pub dest_index : ℕ
  pub source_index : ℕ
  pub info_index : ℕ
  pub dest : PqDest
  pub source : PqSource
  pub dest_found : nth dest_index q.dests ≡ ok dest
  pub source_found : nth source_index dest.sources ≡ ok source
  pub info_found : nth info_index source.infos ≡ ok i

first_ascending :
    (t c : ℕ) (is : List PqPacketInfo) (i : PqPacketInfo)
    → IsAscending t is
    → nth c is ≡ ok i
    → t ≤ i.time
unfolding nth
first_ascending t c [] i h e = absurd (cc (e))
first_ascending t zero (j ∷ is) i h e = omega (arith, h.0, ap info_time (ok-equal e))
first_ascending t (suc c) (j ∷ is) i h e = omega (arith, h.0, first_ascending j.time c is i h.1 e)

source_oldest :
    (c : ℕ) (is : List PqPacketInfo) (i : PqPacketInfo)
    → IsAscending 0 is
    → nth c is ≡ ok i
    → at info_time 0 is ≤ i.time
unfolding nth at
source_oldest c [] i h e = absurd (cc (e))
source_oldest zero (j ∷ is) i h e = omega (arith, ap info_time (ok-equal e))
source_oldest (suc c) (j ∷ is) i h e = first_ascending j.time c is i h.1 e

-- The packet that is first of the first source of the first destination is no later than the
-- others.
pub first_oldest :
    (q : PacketQueue) (i : PqPacketInfo)
    → QueueValid q
    → IsQueued q i
    → at dest_time 0 q.dests ≤ i.time
unfolding dest_time source_time
first_oldest q i v x =
    let in_dests = nth-lt x.dest_index q.dests x.dest x.dest_found in
    let dv : DestValid x.dest = v.ordered.good x.dest_index x.dest in_dests x.dest_found in
    let in_sources = nth-lt x.source_index x.dest.sources x.source x.source_found in
    let sv : SourceValid x.source =
      dv.ordered.good x.source_index x.source in_sources x.source_found in
    omega (
      arith,
      root_least dest_time x.dest_index (length q.dests) x.dest_index q.dests (omega arith) in_dests
          v.ordered.heap,
      at-nth dest_time x.dest_index q.dests x.dest x.dest_found,
      root_least source_time x.source_index (length x.dest.sources) x.source_index x.dest.sources
          (omega arith) in_sources dv.ordered.heap,
      at-nth source_time x.source_index x.dest.sources x.source x.source_found,
      source_oldest x.info_index x.source.infos i sv.ascending x.info_found,
    )
