-- ===== src/PacketQueue/Drop.antt =====
-- packetQueue.drop.
use ironwood.Base.{
  ℕ, ◌+◌, ◌^◌, ◌≤◌, ◌<◌, ◌≡◌, refl, sym, ap, ◌∙◌, subst, inl, inr, Bool, true, false, List, [], ◌∷◌,
  ltb, ◌==◌, length, drop, arith, Bool-cases,
}
use ironwood.Types.{ok}
use ironwood.PacketQueue.{
  PqPacketInfo, PqSource, PqDest, PacketQueue, settle_source, settle_dest, sub64, drop_info,
  drop_packet, first_largest, sizes_of, dest_size, source_size,
}
use ironwood.PacketQueue.Heap.{nth, set_nth}
use ironwood.PacketQueue.Heap.Entries.{sum, sum-none, sum-nth, at-nth, nth_in}
use ironwood.PacketQueue.Invariant.{AreSized, SourceValid, DestValid, QueueValid, info_size, held}
use ironwood.PacketQueue.Take.{
  later, with_sources, TakenAt, later-TakenAt, last-TakenAt, source_leaves, source_valid,
}
use ironwood.PacketQueue.Pop.{has_dests, uncons, first_found, none_of}
use ironwood.PacketQueue.Largest.{largest-entry}
use ironwood.PacketQueue.TakeDest.{with_dests, settle_dest-QueueTaken}

-- The packet that drop chooses.
pub record Chosen (q : PacketQueue) : Type 0 where
  pub dest : PqDest
  pub source : PqSource
  pub info : PqPacketInfo
  pub others : List PqPacketInfo
  pub dest_found : nth (first_largest (sizes_of dest_size q.dests)) q.dests ≡ ok dest
  pub source_found :
      nth (first_largest (sizes_of source_size dest.sources)) dest.sources ≡ ok source
  pub infos : source.infos ≡ info ∷ others
  pub valid : DestValid dest
  pub bounded : dest.size < 2 ^ 64
  pub dest_largest : (k : ℕ) (d : PqDest) → nth k q.dests ≡ ok d → d.size ≤ dest.size
  pub source_largest : (k : ℕ) (s : PqSource) → nth k dest.sources ≡ ok s → s.size ≤ source.size

abbrev d_index : PacketQueue → ℕ
d_index q = first_largest (sizes_of dest_size q.dests)

abbrev s_index : PqDest → ℕ
s_index d = first_largest (sizes_of source_size d.sources)

queue-Chosen : (q : PacketQueue) → QueueValid q → 0 < q.size → Chosen q
queue-Chosen q v h =
    let some_dest = has_dests q v h in
    let (hd, d_best) = largest-entry dest_size q.dests some_dest in
    let (d, d_found) = nth_in (d_index q) q.dests hd in
    let dv : DestValid d = v.ordered.good (d_index q) d hd d_found in
    let (hs, s_best) = largest-entry source_size d.sources dv.waiting in
    let (s, s_found) = nth_in (s_index d) d.sources hs in
    let sv : SourceValid s = dv.ordered.good (s_index d) s hs s_found in
    let (i, (is, infos)) = uncons s.infos sv.waiting in
    record {
      dest = d;
      source = s;
      info = i;
      others = is;
      dest_found = d_found;
      source_found = s_found;
      infos = infos;
      valid = dv;
      bounded =
          omega (arith, v.bounded, v.adds_up, sum-nth dest_size (d_index q) d q.dests d_found);
      dest_largest = λ k x e. omega (
        arith,
        d_best k,
        at-nth dest_size k q.dests x e,
        at-nth dest_size (d_index q) q.dests d d_found,
      );
      source_largest = λ k x e. omega (
        arith,
        s_best k,
        at-nth source_size k d.sources x e,
        at-nth source_size (s_index d) d.sources s s_found,
      );
    }

drop_reads :
    (q : PacketQueue) (c : Chosen q)
    → 0 < q.size
    → drop_packet q ≡ drop_info q (d_index q) (s_index c.dest) c.dest c.source c.info
unfolding drop_packet
drop_reads q c h =
    let positive : (q.size == 0) ≡ false = ground arith in
    rw (positive, drop_packet)
      (rw (c.dest_found, c.source_found, first_found c.source c.info c.others c.infos) refl)

-- The source as drop writes it back.
abbrev dropped : PqSource → PqPacketInfo → PqSource
dropped s i = later s i (drop 1 s.infos)

drop_info-settled :
    (q : PacketQueue) (a b : ℕ) (d : PqDest) (s : PqSource) (i : PqPacketInfo) (ss : List PqSource)
    (ds : List PqDest)
    → settle_source
        (ltb 0 (sub64 s.size i.size))
        (with_sources d (set_nth b (dropped s i) d.sources) d.size)
        b
      ≡ ok (with_sources d ss d.size)
    → settle_dest
        (ltb 0 (sub64 d.size i.size))
        (with_dests (set_nth a (with_sources d ss (sub64 d.size i.size)) q.dests) q.size)
        a
      ≡ ok (with_dests ds q.size)
    → drop_info q a b d s i ≡ ok (true, with_dests ds (sub64 q.size i.size))
unfolding drop_info
drop_info-settled q a b d s i ss ds e g = rw (e, g) refl

abbrev ChosenTaken : (q : PacketQueue) → Chosen q → Bool → PqSource → Type 0
ChosenTaken q c keep s' =
    TakenAt c.dest (s_index c.dest) c.source c.info c.others c.valid c.bounded c.source_found
      c.infos keep s' c.dest.size

sized-one : (is : List PqPacketInfo) → AreSized is → ltb 0 (sum info_size is) ≡ ltb 0 (length is)
unfolding sum
sized-one [] h = refl
sized-one (i ∷ is) h = ground (arith, h.0)

drop-ChosenTaken :
    (q : PacketQueue) (c : Chosen q)
    → ChosenTaken q c (ltb 0 (sub64 c.source.size c.info.size)) (dropped c.source c.info)
drop-ChosenTaken q c =
    let l =
      source_leaves c.dest (s_index c.dest) c.source c.info c.others c.valid c.bounded
        c.source_found c.infos in
    let sv =
      source_valid c.dest (s_index c.dest) c.source c.info c.others c.valid c.bounded c.source_found
        c.infos in
    let sized : AreSized c.others =
      (subst (λ (is : List PqPacketInfo). AreSized is) c.infos sv.sized).1 in
    let same : later c.source c.info c.others ≡ dropped c.source c.info =
      ap (λ (is : List PqPacketInfo). later c.source c.info (drop 1 is)) (sym c.infos) in
    let asked : ltb 0 (length c.others) ≡ ltb 0 (sub64 c.source.size c.info.size) =
      sym (ap (ltb 0) l.size_later ∙ sized-one c.others sized) in
    subst (λ (s : PqSource). ChosenTaken q c (ltb 0 (sub64 c.source.size c.info.size)) s) same
      (elim (Bool-cases (ltb 0 (length c.others))) [
        | inl more ↦
            subst (λ (b : Bool). ChosenTaken q c b (later c.source c.info c.others))
              (sym more ∙ asked)
              (later-TakenAt c.dest (s_index c.dest) c.source c.info c.others c.valid c.bounded
                c.source_found c.infos c.dest.size (ground (arith, more)))
        | inr last ↦
            subst (λ (b : Bool). ChosenTaken q c b (later c.source c.info c.others))
              (sym last ∙ asked)
              (last-TakenAt c.dest (s_index c.dest) c.source c.info c.others c.valid c.bounded
                c.source_found c.infos (later c.source c.info c.others) c.dest.size c.bounded
                (none_of c.others last) refl
                (l.size_later ∙ sum-none info_size c.others (ground (arith, last))))
      ])

-- What drop does on a queue that is not empty.
pub record Dropped (q : PacketQueue) (i : PqPacketInfo) : Type 0 where
  pub rest : PacketQueue
  pub runs : drop_packet q ≡ ok (true, rest)
  pub valid : QueueValid rest
  pub held_was : (f : PqPacketInfo → ℕ) → held f q ≡ f i + held f rest
  pub smaller : rest.size ≤ q.size

drop-Dropped : (q : PacketQueue) (c : Chosen q) → QueueValid q → 0 < q.size → Dropped q c.info
drop-Dropped q c v h =
    let i = c.info in
    let t = drop-ChosenTaken q c in
    let d' = with_sources c.dest t.settled.sources (sub64 c.dest.size i.size) in
    let x =
      settle_dest-QueueTaken q (d_index q) c.dest d' i q.size v c.dest_found t.taken v.bounded in
    record {
      rest = with_dests x.dests (sub64 q.size i.size);
      runs =
          drop_reads q c h
          ∙ drop_info-settled q (d_index q) (s_index c.dest) c.dest c.source i t.settled.sources
              x.dests t.settled.runs
              (subst
                (λ (b : Bool).
                  settle_dest b (with_dests (set_nth (d_index q) d' q.dests) q.size) (d_index q)
                  ≡ ok (with_dests x.dests q.size))
                (sym t.taken.counted) x.runs);
      valid = x.valid;
      held_was = x.held_was;
      smaller = x.smaller;
    }

-- What drop does on a queue that is not empty, and which packet it takes.
pub record DropsLargest (q : PacketQueue) : Type 0 where
  pub chosen : Chosen q
  pub dropped_info : Dropped q chosen.info

-- On a queue that keeps the invariant and is not empty, drop does not panic: it takes the first
-- packet of a largest source of a largest destination, and leaves a queue that holds just the
-- others and keeps the invariant.
pub drop-DropsLargest : (q : PacketQueue) → QueueValid q → 0 < q.size → DropsLargest q
drop-DropsLargest q v h =
    let c = queue-Chosen q v h in record { chosen = c; dropped_info = drop-Dropped q c v h }
