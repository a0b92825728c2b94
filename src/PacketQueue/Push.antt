-- ===== src/PacketQueue/Push.antt =====
-- packetQueue.push.
pub mod Source
pub mod Dest
use ironwood.Base.{
  ℕ, zero, suc, ◌+◌, ◌^◌, ◌≤◌, ◌<◌, ◌≡◌, refl, sym, ap, ◌∙◌, subst, inl, inr, List, [], ◌∷◌, ◌++◌,
  Option, none, some, length, arith, Bool, true, false, if◌then◌else◌, length-append, Bool-cases,
  Option-cases,
}
use ironwood.Types.{Result, ok}
use ironwood.Crypto.{PublicKey, equal}
use ironwood.Crypto.Order.{equal_iff}
use ironwood.PacketQueue.{
  PqPacket, traffic, path_lookup, path_notify, path_broken, packet_size, PqPacketInfo, PqSource,
  PqDest, PacketQueue, source_key, dest_key, find_key, key_of_dest, push_to_dest, put_dest, push,
  add64, source_size, dest_size,
}
use ironwood.Messages.Traffic
use ironwood.Messages.Lookup
use ironwood.Messages.Notify
use ironwood.Messages.Broken
use ironwood.PacketQueue.Heap.{nth, set_nth}
use ironwood.PacketQueue.Heap.Entries.{
  sum, sum-one, sum-append, sum-set_nth, sum-nth, at, at_le, at-nth, nth-lt,
}
use ironwood.PacketQueue.Heap.Order.{GoodHeap}
use ironwood.PacketQueue.Heap.Append.{append-GoodHeap, set_nth-GoodHeap}
use ironwood.PacketQueue.Invariant.{
  DestValid, QueueValid, info_time, source_time, dest_time, key_is, source_under, dest_under,
  held_by_dest, held,
}
use ironwood.PacketQueue.Oldest.{IsQueued}
use ironwood.PacketQueue.Push.Source.{find_key-none, FoundKey, find_key-some, add64-fits}
use ironwood.PacketQueue.Push.Dest.{AllBefore, DestPushed, push_to_dest-Pushed}

record DestsPut (ds : List PqDest) (i : PqPacketInfo) (ds' : List PqDest) : Type 0 where
  ordered : GoodHeap dest_time DestValid ds'
  size_is : sum dest_size ds' ≡ sum dest_size ds + i.size
  unique : (k : PublicKey) → sum (dest_under k) ds' ≤ 1
  held_is : (f : PqPacketInfo → ℕ) → sum (held_by_dest f) ds' ≡ sum (held_by_dest f) ds + f i

abbrev new_dest : PublicKey → PqDest
new_dest k = record { key = k; sources = []; size = 0 }

module _ (d_key s_key : PublicKey) (ds : List PqDest) (i : PqPacketInfo)
    (ordered : GoodHeap dest_time DestValid ds)
    (unique : (k : PublicKey) → sum (dest_under k) ds ≤ 1) (positive : 0 < i.size)
    (fits : sum dest_size ds + i.size < 2 ^ 64)
    (before : (a : ℕ) (d : PqDest) → nth a ds ≡ ok d → AllBefore d.sources i.time) where
  dest_times : (k : ℕ) → at dest_time k ds ≤ i.time
  unfolding dest_time source_time
  dest_times k =
      at_le dest_time i.time k ds
        λ a d e. at_le source_time i.time 0 d.sources λ b s g. before a d e b 0 s g

  new_Put :
      find_key key_of_dest d_key 0 ds ≡ none
      → DestsPut ds i (ds ++ (push_to_dest s_key (new_dest d_key) i ∷ []))
  unfolding push_to_dest held_by_dest sum
  new_Put e =
      let p =
        push_to_dest-Pushed (new_dest d_key) s_key i
          record { good = λ k x h g. absurd (omega arith); heap = λ k h g. absurd (omega arith) }
          (λ k. omega arith) refl positive (omega (arith, fits))
          (λ b c s g. absurd (omega (arith, nth-lt b [] s g))) in
      let v = push_to_dest s_key (new_dest d_key) i in
      let absent = find_key-none key_of_dest d_key 0 ds e in
      record {
        ordered =
            append-GoodHeap dest_time DestValid ds v ordered p.valid
              (λ k. omega (arith, dest_times k, p.time_new refl));
        size_is = omega (arith, sum-append dest_size ds (v ∷ []), sum-one dest_size v, p.size_is);
        unique = λ k. elim (Bool-cases (equal d_key k)) [
          | inl same ↦
              let none_under : sum (dest_under k) ds ≡ 0 =
                subst (λ (j : PublicKey). sum (dest_under j) ds ≡ 0) ((equal_iff d_key k).0 same)
                  absent in
              ground
                (arith, sum-append (dest_under k) ds (v ∷ []), sum-one (dest_under k) v, none_under)
          | inr other ↦ ground (
            arith,
            sum-append (dest_under k) ds (v ∷ []),
            sum-one (dest_under k) v,
            other,
            unique k,
          )
        ];
        held_is = λ f. omega (
          arith,
          sum-append (held_by_dest f) ds (v ∷ []),
          sum-one (held_by_dest f) v,
          p.held_is f,
        );
      }

  old_Put :
      (j : ℕ) (d : PqDest)
      → find_key key_of_dest d_key 0 ds ≡ some (j, d)
      → DestsPut ds i (set_nth j (push_to_dest s_key d i) ds)
  unfolding push_to_dest
  old_Put j d e =
      let r = find_key-some key_of_dest d_key 0 j d ds e in
      let found : nth j ds ≡ ok d =
        subst (λ (n : ℕ). nth n ds ≡ ok d) (omega (arith, r.index_is)) r.found in
      let dv : DestValid d = ordered.good j d (nth-lt j ds d found) found in
      let v = push_to_dest s_key d i in
      let p =
        push_to_dest-Pushed d s_key i dv.ordered dv.unique dv.adds_up positive
          (omega (arith, fits, sum-nth dest_size j d ds found)) (before j d found) in
      record {
        ordered =
            set_nth-GoodHeap dest_time DestValid j v d ds found ordered p.valid
              (p.time_same dv.waiting);
        size_is = omega (arith, sum-set_nth dest_size j v d ds found, p.size_is);
        unique = λ k. omega (arith, sum-set_nth (dest_under k) j v d ds found, unique k);
        held_is = λ f. omega (arith, sum-set_nth (held_by_dest f) j v d ds found, p.held_is f);
      }

  put_dest-Put : DestsPut ds i (put_dest d_key s_key ds i)
  unfolding put_dest
  put_dest-Put = elim (Option-cases (find_key key_of_dest d_key 0 ds)) [
    | inl e ↦ rw (e, put_dest) (new_Put e)
    | inr ((j, d), e) ↦ rw (e, put_dest) (old_Put j d e)
  ]

packet_size-positive : (p : PqPacket) → 0 < packet_size p
unfolding packet_size Traffic.size Lookup.size Notify.size Broken.size
packet_size-positive (traffic p) = omega arith
packet_size-positive (path_lookup p) = omega arith
packet_size-positive (path_notify p) = omega arith
packet_size-positive (path_broken p) = omega arith

-- A packet as push stores it.
abbrev pub stamped : PqPacket → ℕ → PqPacketInfo
stamped packet now = record { packet = packet; size = packet_size packet; time = now }

-- What push does.
pub record Pushed (q : PacketQueue) (packet : PqPacket) (now : ℕ) : Type 0 where
  pub valid : QueueValid (push q packet now)
  pub held_is :
      (f : PqPacketInfo → ℕ) → held f (push q packet now) ≡ held f q + f (stamped packet now)

-- A push, at a time that is no earlier than those of the packets that wait, keeps the invariant,
-- and the queue then holds the packet and just those that it held; the sum of the sizes fits 64
-- bits.
pub push-Pushed :
    (q : PacketQueue) (packet : PqPacket) (now : ℕ)
    → QueueValid q
    → ((j : PqPacketInfo) → IsQueued q j → j.time ≤ now)
    → q.size + packet_size packet < 2 ^ 64
    → Pushed q packet now
unfolding push held
push-Pushed q packet now v waits fits =
    let i = stamped packet now in
    let p =
      put_dest-Put (dest_key packet) (source_key packet) q.dests i v.ordered v.unique
        (packet_size-positive packet) (omega (arith, fits, v.adds_up)) before in
    let size = add64-fits q.size i.size fits in
    record {
      valid = record {
        ordered = p.ordered;
        adds_up = omega (arith, size, v.adds_up, p.size_is);
        unique = p.unique;
        bounded = omega (arith, size, fits);
      };
      held_is = p.held_is;
    }
  where
    before : (a : ℕ) (d : PqDest) → nth a q.dests ≡ ok d → AllBefore d.sources now
    before a d e b c s g = at_le info_time now c s.infos λ n j h. waits j record {
      dest_index = a;
      source_index = b;
      info_index = n;
      dest = d;
      source = s;
      dest_found = e;
      source_found = g;
      info_found = h;
    }
