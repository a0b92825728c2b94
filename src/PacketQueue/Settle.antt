-- ===== src/PacketQueue/Settle.antt =====
-- What heap.Fix and heap.Remove make of a destination's sources and of the queue's destinations.
use ironwood.Base.{
  ℕ, ◌+◌, ◌-◌, ◌^◌, ◌≤◌, ◌<◌, ◌≡◌, refl, Bool, true, false, List, length, arith, if◌then◌else◌,
}
use ironwood.Types.{ok}
use ironwood.PacketQueue.{
  PqSource, PqDest, PacketQueue, source_less, dest_less, settle_source, settle_dest, fix_source,
  remove_source, fix_dest, remove_dest, sub64,
}
use ironwood.PacketQueue.Heap.{nth, set_nth}
use ironwood.PacketQueue.Heap.Entries.{sum}
use ironwood.PacketQueue.Heap.Order.{GoodHeap}
use ironwood.PacketQueue.Heap.Replace
use ironwood.PacketQueue.Invariant.{
  source_time, dest_time, SourceValid, DestValid, source_agrees, dest_agrees,
}

-- Where no wrap-around happens.
pub sub64_le : (a b : ℕ) → b ≤ a → a < 2 ^ 64 → sub64 a b ≡ a - b
sub64_le a b h bounded = omega arith

pub sub64_zero : (a : ℕ) → a < 2 ^ 64 → sub64 a 0 ≡ a
sub64_zero a bounded = omega arith

pub record SourceSettled (keep : Bool) (d : PqDest) (b : ℕ) (s s' : PqSource) (size : ℕ)
    : Type 0 where
  pub sources : List PqSource
  pub runs :
      settle_source keep record { key = d.key; sources = set_nth b s' d.sources; size = size } b
      ≡ ok record { key = d.key; sources = sources; size = size }
  pub ordered : GoodHeap source_time SourceValid sources
  pub sums : (f : PqSource → ℕ) → sum f sources + f s ≡ sum f d.sources + (if keep then f s' else 0)
  pub count : length sources + 1 ≡ length d.sources + (if keep then 1 else 0)

pub settle_source-Kept :
    (d : PqDest) (b : ℕ) (s s' : PqSource) (size : ℕ)
    → nth b d.sources ≡ ok s
    → GoodHeap source_time SourceValid d.sources
    → SourceValid s'
    → SourceSettled true d b s s' size
unfolding settle_source fix_source
settle_source-Kept d b s s' size found g v =
    let x =
      Replace.fix-Fixed source_less source_time SourceValid source_agrees b s' s d.sources found v
        g in
    record {
      sources = x.entries;
      runs = rw (x.runs) refl;
      ordered = x.ordered;
      sums = x.sums;
      count = omega (arith, x.size);
    }

pub settle_source-Removed :
    (d : PqDest) (b : ℕ) (s s' : PqSource) (size : ℕ)
    → nth b d.sources ≡ ok s
    → GoodHeap source_time SourceValid d.sources
    → s'.size ≡ 0
    → size < 2 ^ 64
    → SourceSettled false d b s s' size
unfolding settle_source remove_source
settle_source-Removed d b s s' size found g empty bounded =
    let x =
      Replace.remove-TakenOut source_less source_time SourceValid source_agrees b s' s d.sources
        found g in
    record {
      sources = x.entries;
      runs = rw (x.runs, empty, sub64_zero size bounded) refl;
      ordered = x.ordered;
      sums = λ f. omega (arith, x.sums f);
      count = omega (arith, x.size);
    }

pub record DestSettled (keep : Bool) (q : PacketQueue) (a : ℕ) (d d' : PqDest) (size : ℕ)
    : Type 0 where
  pub dests : List PqDest
  pub runs :
      settle_dest keep record { dests = set_nth a d' q.dests; size = size } a
      ≡ ok record { dests = dests; size = size }
  pub ordered : GoodHeap dest_time DestValid dests
  pub sums : (f : PqDest → ℕ) → sum f dests + f d ≡ sum f q.dests + (if keep then f d' else 0)

pub settle_dest-Kept :
    (q : PacketQueue) (a : ℕ) (d d' : PqDest) (size : ℕ)
    → nth a q.dests ≡ ok d
    → GoodHeap dest_time DestValid q.dests
    → DestValid d'
    → DestSettled true q a d d' size
unfolding settle_dest fix_dest
settle_dest-Kept q a d d' size found g v =
    let x = Replace.fix-Fixed dest_less dest_time DestValid dest_agrees a d' d q.dests found v g in
    record { dests = x.entries; runs = rw (x.runs) refl; ordered = x.ordered; sums = x.sums }

pub settle_dest-Removed :
    (q : PacketQueue) (a : ℕ) (d d' : PqDest) (size : ℕ)
    → nth a q.dests ≡ ok d
    → GoodHeap dest_time DestValid q.dests
    → d'.size ≡ 0
    → size < 2 ^ 64
    → DestSettled false q a d d' size
unfolding settle_dest remove_dest
settle_dest-Removed q a d d' size found g empty bounded =
    let x =
      Replace.remove-TakenOut dest_less dest_time DestValid dest_agrees a d' d q.dests found g in
    record {
      dests = x.entries;
      runs = rw (x.runs, empty, sub64_zero size bounded) refl;
      ordered = x.ordered;
      sums = λ f. omega (arith, x.sums f);
    }
