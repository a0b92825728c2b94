-- ===== src/PacketQueue/Invariant.antt =====
-- What holds of the queue of network/packetqueue.go between its operations.
use ironwood.Base.{ℕ, ◌^◌, ◌≤◌, ◌<◌, ◌≡◌, refl, ◌∙◌, List, [], ◌∷◌, length, ltb, if◌then◌else◌, All}
use ironwood.Types.{ok}
use ironwood.Crypto.{PublicKey, equal}
use ironwood.PacketQueue.{
  PqPacketInfo, PqSource, PqDest, PacketQueue, first_info, first_of_dest, source_less, dest_less,
  source_size, dest_size,
}
use ironwood.PacketQueue.Heap.Entries.{sum, at, nth_in, at-nth}
use ironwood.PacketQueue.Heap.Order.{GoodHeap}

-- When the next packet of a source, and of a destination, was queued.
abbrev pub info_time : PqPacketInfo → ℕ
info_time i = i.time

unfoldable pub source_time : PqSource → ℕ
source_time s = at info_time 0 s.infos

unfoldable pub dest_time : PqDest → ℕ
dest_time d = at source_time 0 d.sources

abbrev pub info_size : PqPacketInfo → ℕ
info_size i = i.size

-- One where the key is a given one, else zero.
abbrev pub key_is : PublicKey → PublicKey → ℕ
key_is k j = if equal j k then 1 else 0

abbrev pub source_under : PublicKey → PqSource → ℕ
source_under k s = key_is k s.key

abbrev pub dest_under : PublicKey → PqDest → ℕ
dest_under k d = key_is k d.key

-- The times do not decrease, from a first one on.
abbrev pub IsAscending : ℕ → List PqPacketInfo → Type 0
IsAscending t [] = Unit
IsAscending t (i ∷ is) = (t ≤ i.time) × IsAscending i.time is

abbrev pub AreSized : List PqPacketInfo → Type 0
AreSized = All λ (i : PqPacketInfo). 0 < i.size

pub record SourceValid (s : PqSource) : Type 0 where
  pub waiting : 0 < length s.infos
  pub ascending : IsAscending 0 s.infos
  pub sized : AreSized s.infos
  pub adds_up : s.size ≡ sum info_size s.infos

abbrev HasFirst : PqSource → PqPacketInfo → Type 0
HasFirst s i = (first_info s ≡ ok i) × (source_time s ≡ i.time)

pub source_first : (s : PqSource) → SourceValid s → (i : PqPacketInfo) × HasFirst s i
unfolding first_info source_time
source_first s v =
    let (i, found) = nth_in 0 s.infos v.waiting in (i, (found, at-nth info_time 0 s.infos i found))

pub source_agrees :
    (x y : PqSource)
    → SourceValid x
    → SourceValid y
    → source_less x y ≡ ok (ltb (source_time x) (source_time y))
unfolding source_less
source_agrees x y v w =
    let (i, (x_first, x_time)) = source_first x v in
    let (j, (y_first, y_time)) = source_first y w in rw (x_first, y_first, x_time, y_time) refl

pub record DestValid (d : PqDest) : Type 0 where
  pub waiting : 0 < length d.sources
  pub ordered : GoodHeap source_time SourceValid d.sources
  pub adds_up : d.size ≡ sum source_size d.sources
  pub unique : (k : PublicKey) → sum (source_under k) d.sources ≤ 1

abbrev pub DestHasFirst : PqDest → PqPacketInfo → Type 0
DestHasFirst d i = (first_of_dest d ≡ ok i) × (dest_time d ≡ i.time)

pub dest_first : (d : PqDest) → DestValid d → (i : PqPacketInfo) × DestHasFirst d i
unfolding first_of_dest dest_time
dest_first d v =
    let (s, found) = nth_in 0 d.sources v.waiting in
    let (i, (s_first, s_time)) = source_first s (v.ordered.good 0 s v.waiting found) in
    (i, (rw (found) s_first, at-nth source_time 0 d.sources s found ∙ s_time))

pub dest_agrees :
    (x y : PqDest)
    → DestValid x
    → DestValid y
    → dest_less x y ≡ ok (ltb (dest_time x) (dest_time y))
unfolding dest_less
dest_agrees x y v w =
    let (i, (x_first, x_time)) = dest_first x v in
    let (j, (y_first, y_time)) = dest_first y w in rw (x_first, y_first, x_time, y_time) refl

pub record QueueValid (q : PacketQueue) : Type 0 where
  pub ordered : GoodHeap dest_time DestValid q.dests
  pub adds_up : q.size ≡ sum dest_size q.dests
  pub unique : (k : PublicKey) → sum (dest_under k) q.dests ≤ 1
  pub bounded : q.size < 2 ^ 64

-- What a function gives, summed over the packets that wait.
unfoldable pub held_by_source : (PqPacketInfo → ℕ) → PqSource → ℕ
held_by_source f s = sum f s.infos

unfoldable pub held_by_dest : (PqPacketInfo → ℕ) → PqDest → ℕ
held_by_dest f d = sum (held_by_source f) d.sources

unfoldable pub held : (PqPacketInfo → ℕ) → PacketQueue → ℕ
held f q = sum (held_by_dest f) q.dests
