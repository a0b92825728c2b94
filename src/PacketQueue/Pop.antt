-- ===== src/PacketQueue/Pop.antt =====
-- packetQueue.pop and packetQueue.peek.
use ironwood.Base.{
  ℕ, suc, ◌+◌, ◌^◌, ◌≤◌, ◌<◌, ◌≡◌, refl, sym, ap, ◌∙◌, subst, inl, inr, Bool, true, false, List, [],
  ◌∷◌, some, ltb, ◌==◌, length, drop, arith, if◌then◌else◌, Bool-cases,
}
use ironwood.Types.{ok}
use ironwood.PacketQueue.{
  PqPacketInfo, PqSource, PqDest, PacketQueue, settle_source, settle_dest, sub64, pop_info, pop,
  peek, first_of_dest, first_info, dest_size,
}
use ironwood.PacketQueue.Heap.{nth, set_nth}
use ironwood.PacketQueue.Heap.Entries.{sum-none, sum-nth, at-nth, nth_in}
use ironwood.PacketQueue.Invariant.{
  SourceValid, DestValid, QueueValid, info_size, info_time, source_time, dest_time, held,
}
use ironwood.PacketQueue.Oldest.{IsQueued, first_oldest}
use ironwood.PacketQueue.Take.{
  later, with_sources, TakenAt, later-TakenAt, last-TakenAt, source_leaves,
}
use ironwood.PacketQueue.TakeDest.{with_dests, settle_dest-QueueTaken}

-- The first packet of the first source of the first destination.
pub record Front (q : PacketQueue) : Type 0 where
  pub dest : PqDest
  pub source : PqSource
  pub info : PqPacketInfo
  pub others : List PqPacketInfo
  pub dest_found : nth 0 q.dests ≡ ok dest
  pub source_found : nth 0 dest.sources ≡ ok source
  pub infos : source.infos ≡ info ∷ others
  pub valid : DestValid dest
  pub bounded : dest.size < 2 ^ 64

pub uncons : {A : Type 0} (xs : List A) → 0 < length xs → (x : A) × ((ys : List A) × (xs ≡ x ∷ ys))
uncons [] h = absurd (omega arith)
uncons (x ∷ xs) h = (x, (xs, refl))

pub has_dests : (q : PacketQueue) → QueueValid q → 0 < q.size → 0 < length q.dests
has_dests q v h = elim (Bool-cases (ltb 0 (length q.dests))) [
  | inl e ↦ ground (arith, e)
  | inr e ↦ absurd (omega (arith, v.adds_up, sum-none dest_size q.dests (ground (arith, e))))
]

pub queue-Front : (q : PacketQueue) → QueueValid q → 0 < q.size → Front q
queue-Front q v h =
    let some_dest = has_dests q v h in
    let (d, d_found) = nth_in 0 q.dests some_dest in
    let dv : DestValid d = v.ordered.good 0 d some_dest d_found in
    let (s, s_found) = nth_in 0 d.sources dv.waiting in
    let sv : SourceValid s = dv.ordered.good 0 s dv.waiting s_found in
    let (i, (is, infos)) = uncons s.infos sv.waiting in
    record {
      dest = d;
      source = s;
      info = i;
      others = is;
      dest_found = d_found;
      source_found = s_found;
      infos = infos;
      valid = dv;
      bounded = omega (arith, v.bounded, v.adds_up, sum-nth dest_size 0 d q.dests d_found);
    }

pub first_found :
    (s : PqSource) (i : PqPacketInfo) (is : List PqPacketInfo)
    → s.infos ≡ i ∷ is
    → nth 0 s.infos ≡ ok i
unfolding nth
first_found s i is e = ap (nth 0) e

pop_reads : (q : PacketQueue) (f : Front q) → 0 < q.size → pop q ≡ pop_info q f.dest f.source f.info
unfolding pop
pop_reads q f h =
    let positive : (q.size == 0) ≡ false = ground arith in
    rw (positive, pop)
      (rw (f.dest_found, f.source_found, first_found f.source f.info f.others f.infos) refl)

-- The source as pop writes it back.
abbrev popped : PqSource → PqPacketInfo → PqSource
popped s i = record {
  key = s.key;
  infos = if ltb 1 (length s.infos) then drop 1 s.infos else s.infos;
  size = sub64 s.size i.size;
}

pop_info-settled :
    (q : PacketQueue) (d : PqDest) (s : PqSource) (i : PqPacketInfo) (ss : List PqSource)
    (ds : List PqDest)
    → settle_source
        (ltb 1 (length s.infos))
        (with_sources d (set_nth 0 (popped s i) d.sources) (sub64 d.size i.size))
        0
      ≡ ok (with_sources d ss (sub64 d.size i.size))
    → settle_dest
        (ltb 0 (length ss))
        (with_dests
          (set_nth 0 (with_sources d ss (sub64 d.size i.size)) q.dests)
          (sub64 q.size i.size))
        0
      ≡ ok (with_dests ds (sub64 q.size i.size))
    → pop_info q d s i ≡ ok (some i, with_dests ds (sub64 q.size i.size))
unfolding pop_info
pop_info-settled q d s i ss ds e g = rw (e, g) refl

-- What pop does on a queue that is not empty.
pub record Popped (q : PacketQueue) (i : PqPacketInfo) : Type 0 where
  pub rest : PacketQueue
  pub runs : pop q ≡ ok (some i, rest)
  pub valid : QueueValid rest
  pub held_was : (f : PqPacketInfo → ℕ) → held f q ≡ f i + held f rest
  pub smaller : rest.size ≤ q.size

pub none_of : {A : Type 0} (xs : List A) → ltb 0 (length xs) ≡ false → xs ≡ []
none_of [] e = refl
none_of (x ∷ xs) e = absurd (ground arith)

popped_infos :
    {A : Type 0} (xs ys : List A) (x : A)
    → xs ≡ x ∷ ys
    → ltb 0 (length ys) ≡ true
    → (if ltb 1 (length xs) then drop 1 xs else xs) ≡ ys
popped_infos xs ys x e more =
    subst (λ l. (if ltb 1 (length l) then drop 1 l else l) ≡ ys) (sym e) tail_
  where
    many : ltb 1 (suc (length ys)) ≡ true
    many = ground arith

    tail_ : (if ltb 1 (suc (length ys)) then ys else x ∷ ys) ≡ ys
    tail_ = rw (many) refl

-- The source and the destination that pop leaves.
abbrev FrontTaken : (q : PacketQueue) → Front q → Bool → PqSource → Type 0
FrontTaken q f keep s' =
    TakenAt f.dest 0 f.source f.info f.others f.valid f.bounded f.source_found f.infos keep s'
      (sub64 f.dest.size f.info.size)

pop-FrontTaken :
    (q : PacketQueue) (f : Front q)
    → FrontTaken q f (ltb 1 (length f.source.infos)) (popped f.source f.info)
pop-FrontTaken q f = elim (Bool-cases (ltb 0 (length f.others))) [
  | inl more ↦
      let many : true ≡ ltb 1 (length f.source.infos) = ground (arith, more, ap length f.infos) in
      let same : later f.source f.info f.others ≡ popped f.source f.info =
        ap (λ (l : List PqPacketInfo). later f.source f.info l)
          (sym (popped_infos f.source.infos f.others f.info f.infos more)) in
      subst (λ (b : Bool). FrontTaken q f b (popped f.source f.info)) many
        (subst (λ (s : PqSource). FrontTaken q f true s) same
          (later-TakenAt f.dest 0 f.source f.info f.others f.valid f.bounded f.source_found f.infos
            (sub64 f.dest.size f.info.size) (ground (arith, more))))
  | inr last ↦
      let single : false ≡ ltb 1 (length f.source.infos) =
        ground (arith, last, ap length f.infos) in
      let l =
        source_leaves f.dest 0 f.source f.info f.others f.valid f.bounded f.source_found f.infos in
      subst (λ (b : Bool). FrontTaken q f b (popped f.source f.info)) single
        (last-TakenAt f.dest 0 f.source f.info f.others f.valid f.bounded f.source_found f.infos
          (popped f.source f.info) (sub64 f.dest.size f.info.size) (omega arith)
          (none_of f.others last) refl
          (l.size_later ∙ sum-none info_size f.others (ground (arith, last))))
]

pop-Popped : (q : PacketQueue) (f : Front q) → QueueValid q → 0 < q.size → Popped q f.info
pop-Popped q f v h =
    let t = pop-FrontTaken q f in
    let i = f.info in
    let x =
      settle_dest-QueueTaken q 0 f.dest
        (with_sources f.dest t.settled.sources (sub64 f.dest.size i.size)) i (sub64 q.size i.size) v
        f.dest_found t.taken (omega arith) in
    record {
      rest = with_dests x.dests (sub64 q.size i.size);
      runs =
          pop_reads q f h
          ∙ pop_info-settled q f.dest f.source i t.settled.sources x.dests t.settled.runs x.runs;
      valid = x.valid;
      held_was = x.held_was;
      smaller = x.smaller;
    }

pop_takes_oldest :
    (q : PacketQueue) (f : Front q) (j : PqPacketInfo)
    → QueueValid q
    → IsQueued q j
    → f.info.time ≤ j.time
unfolding dest_time source_time
pop_takes_oldest q f j v waits = omega (
  arith,
  first_oldest q j v waits,
  at-nth dest_time 0 q.dests f.dest f.dest_found,
  at-nth source_time 0 f.dest.sources f.source f.source_found,
  at-nth info_time 0 f.source.infos f.info (first_found f.source f.info f.others f.infos),
)

peek_lem : (q : PacketQueue) (f : Front q) → 0 < length q.dests → peek q ≡ ok (some f.info)
unfolding peek first_of_dest first_info
peek_lem q f h =
    let waits : ltb 0 (length q.dests) ≡ true = ground arith in
    rw (waits, peek)
      (rw (f.dest_found, f.source_found, first_found f.source f.info f.others f.infos) refl)

-- What pop does on a queue that is not empty, and which packet it takes.
pub record TakesOldest (q : PacketQueue) : Type 0 where
  pub info : PqPacketInfo
  pub waits : IsQueued q info
  pub oldest : (j : PqPacketInfo) → IsQueued q j → info.time ≤ j.time
  pub shown : peek q ≡ ok (some info)
  pub popped : Popped q info

-- On a queue that keeps the invariant and is not empty, pop does not panic: it gives a packet that
-- waits and that was queued no later than any other, which peek shows too, and leaves a queue that
-- holds just the others and keeps the invariant.
pub pop-TakesOldest : (q : PacketQueue) → QueueValid q → 0 < q.size → TakesOldest q
pop-TakesOldest q v h =
    let f = queue-Front q v h in
    record {
      info = f.info;
      waits = record {
        dest_index = 0;
        source_index = 0;
        info_index = 0;
        dest = f.dest;
        source = f.source;
        dest_found = f.dest_found;
        source_found = f.source_found;
        info_found = first_found f.source f.info f.others f.infos;
      };
      oldest = λ j waits. pop_takes_oldest q f j v waits;
      shown = peek_lem q f (has_dests q v h);
      popped = pop-Popped q f v h;
    }
