-- ===== src/PacketQueue/Push/Dest.antt =====
-- A packet is put under its source at a destination.
use ironwood.Base.{
  ℕ, ◌+◌, ◌^◌, ◌≤◌, ◌<◌, ◌≡◌, refl, subst, inl, inr, List, [], ◌∷◌, ◌++◌, none, some, length, arith,
  length-append, Bool-cases, Option-cases,
}
use ironwood.Types.{ok}
use ironwood.Crypto.{PublicKey, equal}
use ironwood.Crypto.Order.{equal_iff}
use ironwood.PacketQueue.{
  PqPacketInfo, PqSource, PqDest, find_key, key_of_source, push_info, put_source, push_to_dest,
  add64, source_size,
}
use ironwood.PacketQueue.Heap.{nth, set_nth}
use ironwood.PacketQueue.Heap.Entries.{
  sum, sum-one, sum-append, sum-set_nth, sum-nth, at, at_le, at-nth, nth-lt, at-append,
  at-append_only, at-set_nth, length-set_nth,
}
use ironwood.PacketQueue.Heap.Order.{GoodHeap}
use ironwood.PacketQueue.Heap.Append.{append-GoodHeap, set_nth-GoodHeap}
use ironwood.PacketQueue.Invariant.{
  SourceValid, DestValid, info_time, source_time, dest_time, source_under, held_by_source,
  held_by_dest,
}
use ironwood.PacketQueue.Push.Source.{find_key-none, find_key-some, add64-fits, push_info-Pushed}

-- Sources as a packet leaves them that is put under one of them.
record SourcesPut (ss : List PqSource) (i : PqPacketInfo) (ss' : List PqSource) : Type 0 where
  waiting : 0 < length ss'
  ordered : GoodHeap source_time SourceValid ss'
  size_is : sum source_size ss' ≡ sum source_size ss + i.size
  unique : (k : PublicKey) → sum (source_under k) ss' ≤ 1
  time_same : 0 < length ss → at source_time 0 ss' ≡ at source_time 0 ss
  time_new : length ss ≡ 0 → i.time ≤ at source_time 0 ss'
  held_is : (f : PqPacketInfo → ℕ) → sum (held_by_source f) ss' ≡ sum (held_by_source f) ss + f i

abbrev pub AllBefore : List PqSource → ℕ → Type 0
AllBefore ss t = (b c : ℕ) (s : PqSource) → nth b ss ≡ ok s → at info_time c s.infos ≤ t

abbrev new_source : PublicKey → PqSource
new_source k = record { key = k; infos = []; size = 0 }

module _ (s_key : PublicKey) (ss : List PqSource) (i : PqPacketInfo)
    (ordered : GoodHeap source_time SourceValid ss)
    (unique : (k : PublicKey) → sum (source_under k) ss ≤ 1) (positive : 0 < i.size)
    (fits : sum source_size ss + i.size < 2 ^ 64) (before : AllBefore ss i.time) where
  source_times : (k : ℕ) → at source_time k ss ≤ i.time
  unfolding source_time
  source_times k = at_le source_time i.time k ss (λ b s e. before b 0 s e)

  new_Put :
      find_key key_of_source s_key 0 ss ≡ none
      → SourcesPut ss i (ss ++ (push_info (new_source s_key) i ∷ []))
  unfolding push_info source_time at held_by_source sum
  new_Put e =
      let p =
        push_info-Pushed (new_source s_key) i tt tt refl positive (omega (arith, fits))
          (λ k. omega arith) in
      let v = push_info (new_source s_key) i in
      let absent = find_key-none key_of_source s_key 0 ss e in
      record {
        waiting = omega (arith, length-append ss (v ∷ []));
        ordered = append-GoodHeap source_time SourceValid ss v ordered p.valid source_times;
        size_is =
            omega (arith, sum-append source_size ss (v ∷ []), sum-one source_size v, p.size_is);
        unique = λ k. elim (Bool-cases (equal s_key k)) [
          | inl same ↦
              let none_under : sum (source_under k) ss ≡ 0 =
                subst (λ (j : PublicKey). sum (source_under j) ss ≡ 0) ((equal_iff s_key k).0 same)
                  absent in
              ground (
                arith,
                sum-append (source_under k) ss (v ∷ []),
                sum-one (source_under k) v,
                none_under,
              )
          | inr other ↦ ground (
            arith,
            sum-append (source_under k) ss (v ∷ []),
            sum-one (source_under k) v,
            other,
            unique k,
          )
        ];
        time_same = λ h. at-append source_time 0 ss (v ∷ []) h;
        time_new = λ h. omega (arith, at-append_only source_time ss v h);
        held_is = λ f. omega (
          arith,
          sum-append (held_by_source f) ss (v ∷ []),
          sum-one (held_by_source f) v,
          p.held_is f,
        );
      }

  old_Put :
      (j : ℕ) (s : PqSource)
      → find_key key_of_source s_key 0 ss ≡ some (j, s)
      → SourcesPut ss i (set_nth j (push_info s i) ss)
  unfolding push_info
  old_Put j s e =
      let r = find_key-some key_of_source s_key 0 j s ss e in
      let found : nth j ss ≡ ok s =
        subst (λ (n : ℕ). nth n ss ≡ ok s) (omega (arith, r.index_is)) r.found in
      let hj = nth-lt j ss s found in
      let sv : SourceValid s = ordered.good j s hj found in
      let v = push_info s i in
      let p =
        push_info-Pushed s i sv.ascending sv.sized sv.adds_up positive
          (omega (arith, fits, sum-nth source_size j s ss found)) (λ k. before j k s found) in
      let same_time = p.time_same sv.waiting in
      record {
        waiting = omega (arith, length-set_nth j v ss, hj);
        ordered = set_nth-GoodHeap source_time SourceValid j v s ss found ordered p.valid same_time;
        size_is = omega (arith, sum-set_nth source_size j v s ss found, p.size_is);
        unique = λ k. omega (arith, sum-set_nth (source_under k) j v s ss found, unique k);
        time_same = λ h.
            ground (
              arith,
              at-set_nth source_time j 0 v ss hj,
              at-nth source_time j ss s found,
              same_time,
            );
        time_new = λ h. absurd (omega (arith, hj, h));
        held_is = λ f. omega (arith, sum-set_nth (held_by_source f) j v s ss found, p.held_is f);
      }

  put_source-Put : SourcesPut ss i (put_source s_key ss i)
  unfolding put_source
  put_source-Put = elim (Option-cases (find_key key_of_source s_key 0 ss)) [
    | inl e ↦ rw (e, put_source) (new_Put e)
    | inr ((j, s), e) ↦ rw (e, put_source) (old_Put j s e)
  ]

-- A destination as a packet leaves it that is put under one of its sources.
pub record DestPushed (d : PqDest) (s_key : PublicKey) (i : PqPacketInfo) : Type 0 where
  pub valid : DestValid (push_to_dest s_key d i)
  pub size_is : add64 d.size i.size ≡ d.size + i.size
  pub time_same : 0 < length d.sources → dest_time (push_to_dest s_key d i) ≡ dest_time d
  pub time_new : length d.sources ≡ 0 → i.time ≤ dest_time (push_to_dest s_key d i)
  pub held_is :
      (f : PqPacketInfo → ℕ) → held_by_dest f (push_to_dest s_key d i) ≡ held_by_dest f d + f i

-- The destination may be a new one, without sources.
pub push_to_dest-Pushed :
    (d : PqDest) (s_key : PublicKey) (i : PqPacketInfo)
    → GoodHeap source_time SourceValid d.sources
    → ((k : PublicKey) → sum (source_under k) d.sources ≤ 1)
    → d.size ≡ sum source_size d.sources
    → 0 < i.size
    → d.size + i.size < 2 ^ 64
    → AllBefore d.sources i.time
    → DestPushed d s_key i
unfolding push_to_dest dest_time held_by_dest
push_to_dest-Pushed d s_key i ordered unique adds_up positive fits before =
    let p =
      put_source-Put s_key d.sources i ordered unique positive (omega (arith, fits, adds_up))
        before in
    let size = add64-fits d.size i.size fits in
    record {
      valid = record {
        waiting = p.waiting;
        ordered = p.ordered;
        adds_up = omega (arith, size, adds_up, p.size_is);
        unique = p.unique;
      };
      size_is = size;
      time_same = p.time_same;
      time_new = p.time_new;
      held_is = p.held_is;
    }
