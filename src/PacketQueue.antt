-- ===== src/PacketQueue.antt =====
-- network/packetqueue.go: the queue of packets that wait for a peer, and what it takes of
-- container/heap. A time is a number.
pub mod Heap
pub mod Invariant
pub mod Settle
pub mod Take
pub mod TakeDest
pub mod Oldest
pub mod Pop
pub mod Push
pub mod Largest
pub mod Drop
pub mod Run
pub mod Tests
use ironwood.Base.{
  ℕ, zero, suc, ◌+◌, ◌-◌, ◌%◌, ◌^◌, Bool, true, false, List, [], ◌∷◌, ◌++◌, Option, none, some, ltb,
  ◌==◌, if◌then◌else◌, length, drop,
}
use ironwood.Types.{Result, ok, panic, ◌>>=◌}
use ironwood.Crypto.{PublicKey, equal}
use ironwood.PacketQueue.Heap.{nth, set_nth, fix, remove}
use ironwood.Messages.Traffic
use ironwood.Messages.Lookup
use ironwood.Messages.Notify
use ironwood.Messages.Broken

-- The types that implement `pqPacket`.
pub data PqPacket : Type 0 where
  traffic : Traffic.Traffic → PqPacket
  path_lookup : Lookup.PathLookup → PqPacket
  path_notify : Notify.PathNotify → PqPacket
  path_broken : Broken.PathBroken → PqPacket

pub source_key : PqPacket → PublicKey
source_key (traffic p) = p.source
source_key (path_lookup p) = p.source
source_key (path_notify p) = p.source
source_key (path_broken p) = p.source

pub dest_key : PqPacket → PublicKey
dest_key (traffic p) = p.dest
dest_key (path_lookup p) = p.dest
dest_key (path_notify p) = p.dest
dest_key (path_broken p) = p.dest

unfoldable pub packet_size : PqPacket → ℕ
packet_size (traffic p) = Traffic.size p
packet_size (path_lookup p) = Lookup.size p
packet_size (path_notify p) = Notify.size p
packet_size (path_broken p) = Broken.size p

pub record PqPacketInfo : Type 0 where
  pub packet : PqPacket
  pub size : ℕ
  pub time : ℕ

pub record PqSource : Type 0 where
  pub key : PublicKey
  pub infos : List PqPacketInfo
  pub size : ℕ

pub record PqDest : Type 0 where
  pub key : PublicKey
  pub sources : List PqSource
  pub size : ℕ

pub record PacketQueue : Type 0 where
  pub dests : List PqDest
  pub size : ℕ

-- uint64 arithmetic
abbrev pub add64 : ℕ → ℕ → ℕ
add64 a b = (a + b) % 2 ^ 64

abbrev pub sub64 : ℕ → ℕ → ℕ
sub64 a b = (a + 2 ^ 64 - b) % 2 ^ 64

-- `infos[0]`
pub first_info : PqSource → Result PqPacketInfo
unfolding nth
first_info s = nth 0 s.infos

unfoldable pub first_of_dest : PqDest → Result PqPacketInfo
unfolding nth first_info
first_of_dest d = nth 0 d.sources >>= first_info

-- The `Less` of a destination's sources, and of the queue's destinations.
unfoldable pub source_less : PqSource → PqSource → Result Bool
source_less a b = do x ← first_info a; y ← first_info b; ok (ltb x.time y.time)

unfoldable pub dest_less : PqDest → PqDest → Result Bool
dest_less a b = do x ← first_of_dest a; y ← first_of_dest b; ok (ltb x.time y.time)

-- `heap.Remove(&dest, i)` with the `Pop` of a destination.
unfoldable pub remove_source : PqDest → ℕ → Result PqDest
remove_source d i = do
  (sources, last) ← remove source_less i d.sources
  ok record { key = d.key; sources = sources; size = sub64 d.size last.size }

-- `heap.Remove(q, i)` with the `Pop` of the queue.
unfoldable pub remove_dest : PacketQueue → ℕ → Result PacketQueue
remove_dest q i = do
  (dests, last) ← remove dest_less i q.dests
  ok record { dests = dests; size = sub64 q.size last.size }

unfoldable pub fix_source : PqDest → ℕ → Result PqDest
fix_source d i = do
  sources ← fix source_less i d.sources
  ok record { key = d.key; sources = sources; size = d.size }

unfoldable pub fix_dest : PacketQueue → ℕ → Result PacketQueue
fix_dest q i = do dests ← fix dest_less i q.dests; ok record { dests = dests; size = q.size }

-- The first entry under a key, with its index: the loops over the destinations and over the
-- sources of one.
unfoldable pub find_key : {A : Type 0} → (A → PublicKey) → PublicKey → ℕ → List A → Option (ℕ × A)
find_key key_of k idx [] = none
find_key key_of k idx (x ∷ xs) =
    let later = find_key key_of k (idx + 1) xs in
    if equal (key_of x) k then some (idx, x) else later

abbrev pub key_of_dest : PqDest → PublicKey
key_of_dest d = d.key

abbrev pub key_of_source : PqSource → PublicKey
key_of_source s = s.key

unfoldable pub push_info : PqSource → PqPacketInfo → PqSource
push_info s info = record {
  key = s.key;
  infos = s.infos ++ (info ∷ []);
  size = add64 s.size info.size;
}

unfoldable pub put_source : PublicKey → List PqSource → PqPacketInfo → List PqSource
unfolding push_info
put_source s_key sources info = elim (find_key key_of_source s_key 0 sources) [
  | none ↦ sources ++ (push_info record { key = s_key; infos = []; size = 0 } info ∷ [])
  | some (idx, s) ↦ set_nth idx (push_info s info) sources
]

unfoldable pub push_to_dest : PublicKey → PqDest → PqPacketInfo → PqDest
unfolding put_source
push_to_dest s_key d info = record {
  key = d.key;
  sources = put_source s_key d.sources info;
  size = add64 d.size info.size;
}

unfoldable pub put_dest : PublicKey → PublicKey → List PqDest → PqPacketInfo → List PqDest
unfolding push_to_dest
put_dest d_key s_key dests info = elim (find_key key_of_dest d_key 0 dests) [
  | none ↦ dests ++ (push_to_dest s_key record { key = d_key; sources = []; size = 0 } info ∷ [])
  | some (idx, d) ↦ set_nth idx (push_to_dest s_key d info) dests
]

-- `now` is what the clock tells.
unfoldable pub push : PacketQueue → PqPacket → ℕ → PacketQueue
unfolding put_dest
push q packet now =
    let info : PqPacketInfo = record { packet = packet; size = packet_size packet; time = now } in
    record {
      dests = put_dest (dest_key packet) (source_key packet) q.dests info;
      size = add64 q.size info.size;
    }

-- heap.Fix of a source, or heap.Remove.
unfoldable pub settle_source : Bool → PqDest → ℕ → Result PqDest
settle_source true d i = fix_source d i
settle_source false d i = remove_source d i

unfoldable pub settle_dest : Bool → PacketQueue → ℕ → Result PacketQueue
settle_dest true q i = fix_dest q i
settle_dest false q i = remove_dest q i

-- pop, once it has read the first packet of the first source of the first destination.
unfoldable pub pop_info :
    PacketQueue → PqDest → PqSource → PqPacketInfo → Result (Option PqPacketInfo × PacketQueue)
pop_info q dest source info = do
  let many = ltb 1 (length source.infos)
  let source1 : PqSource = record {
    key = source.key;
    infos = if many then drop 1 source.infos else source.infos;
    size = sub64 source.size info.size;
  }
  dest2 ←
      settle_source many
        record {
          key = dest.key;
          sources = set_nth 0 source1 dest.sources;
          size = sub64 dest.size info.size;
        }
        0
  q2 ←
      settle_dest (ltb 0 (length dest2.sources))
        record { dests = set_nth 0 dest2 q.dests; size = sub64 q.size info.size } 0
  ok (some info, q2)

unfoldable pub pop : PacketQueue → Result (Option PqPacketInfo × PacketQueue)
unfolding pop_info
pop q = elim (q.size == 0) [
  | true ↦ ok (none, q)
  | false ↦ do
    dest ← nth 0 q.dests
    source ← nth 0 dest.sources
    info ← nth 0 source.infos
    pop_info q dest source info
]

unfoldable pub peek : PacketQueue → Result (Option PqPacketInfo)
peek q = elim (ltb 0 (length q.dests)) [
  | true ↦ do dest ← nth 0 q.dests; info ← first_of_dest dest; ok (some info)
  | false ↦ ok none
]

-- The index of the first entry of the greatest size; `best` is that of those already seen.
pub largest : List ℕ → ℕ → ℕ → ℕ → ℕ
largest [] idx best best_size = best
largest (n ∷ ns) idx best best_size =
    let changed = largest ns (idx + 1) idx n in
    let same = largest ns (idx + 1) best best_size in if ltb best_size n then changed else same

pub sizes_of : {A : Type 0} → (A → ℕ) → List A → List ℕ
sizes_of size_of [] = []
sizes_of size_of (x ∷ xs) = size_of x ∷ sizes_of size_of xs

abbrev pub source_size : PqSource → ℕ
source_size s = s.size

abbrev pub dest_size : PqDest → ℕ
dest_size d = d.size

unfoldable pub first_largest : List ℕ → ℕ
unfolding largest
first_largest [] = 0
first_largest (n ∷ ns) = largest ns 1 0 n

-- drop, once it has chosen the destination and the source and read the first packet.
unfoldable pub drop_info :
    PacketQueue → ℕ → ℕ → PqDest → PqSource → PqPacketInfo → Result (Bool × PacketQueue)
drop_info q d_idx s_idx dest source info = do
  let source1 : PqSource = record {
    key = source.key;
    infos = drop 1 source.infos;
    size = sub64 source.size info.size;
  }
  dest2 ←
      settle_source (ltb 0 source1.size)
        record { key = dest.key; sources = set_nth s_idx source1 dest.sources; size = dest.size }
        s_idx
  let dest3 : PqDest = record {
    key = dest2.key;
    sources = dest2.sources;
    size = sub64 dest2.size info.size;
  }
  q2 ←
      settle_dest (ltb 0 dest3.size) record { dests = set_nth d_idx dest3 q.dests; size = q.size }
        d_idx
  ok (true, record { dests = q2.dests; size = sub64 q2.size info.size })

unfoldable pub drop_packet : PacketQueue → Result (Bool × PacketQueue)
unfolding drop_info
drop_packet q = elim (q.size == 0) [
  | true ↦ ok (false, q)
  | false ↦ do
    let d_idx = first_largest (sizes_of dest_size q.dests)
    dest ← nth d_idx q.dests
    let s_idx = first_largest (sizes_of source_size dest.sources)
    source ← nth s_idx dest.sources
    info ← nth 0 source.infos
    drop_info q d_idx s_idx dest source info
]
