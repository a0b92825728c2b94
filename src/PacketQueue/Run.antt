-- ===== src/PacketQueue/Run.antt =====
-- Any sequence of a peer's calls on its queue.
use ironwood.Base.{
  ℕ, ◌+◌, ◌^◌, ◌≤◌, ◌<◌, ◌≡◌, refl, inl, inr, true, false, List, [], ◌∷◌, none, ltb, ◌==◌, arith,
  if◌then◌else◌, Bool-cases,
}
use ironwood.Types.{Result, ok, ◌>>=◌}
use ironwood.PacketQueue.{PqPacket, PqPacketInfo, PacketQueue, packet_size, push, pop, drop_packet}
use ironwood.PacketQueue.Heap.Entries.{sum, sum-nth, sum_le}
use ironwood.PacketQueue.Invariant.{QueueValid, held_by_source, held_by_dest, held}
use ironwood.PacketQueue.Oldest.{IsQueued}
use ironwood.PacketQueue.Push.Source.{add64-fits}
use ironwood.PacketQueue.Push.{stamped, push-Pushed}
use ironwood.PacketQueue.Pop.{pop-TakesOldest}
use ironwood.PacketQueue.Drop.{drop-DropsLargest}

pub data Call : Type 0 where
  pushes : PqPacket → ℕ → Call
  pops drops : Call

unfoldable pub call : Call → PacketQueue → Result PacketQueue
call (pushes packet now) q = ok (push q packet now)
call pops q = do (o, q') ← pop q; ok q'
call drops q = do (b, q') ← drop_packet q; ok q'

unfoldable pub run : List Call → PacketQueue → Result PacketQueue
unfolding call
run [] q = ok q
run (c ∷ cs) q = do q' ← call c q; run cs q'

-- The clock does not go back, from a first time on.
abbrev pub IsClocked : ℕ → List Call → Type 0
IsClocked t [] = Unit
IsClocked t (pushes packet now ∷ cs) = (t ≤ now) × IsClocked now cs
IsClocked t (pops ∷ cs) = IsClocked t cs
IsClocked t (drops ∷ cs) = IsClocked t cs

-- The sum of the sizes that are pushed.
abbrev pub pushed_size : List Call → ℕ
pushed_size [] = 0
pushed_size (pushes packet now ∷ cs) = packet_size packet + pushed_size cs
pushed_size (pops ∷ cs) = pushed_size cs
pushed_size (drops ∷ cs) = pushed_size cs

abbrev pub empty_queue : PacketQueue
empty_queue = record { dests = []; size = 0 }

pub empty-QueueValid : QueueValid empty_queue
unfolding sum
empty-QueueValid = record {
  ordered = record { good = λ k x h e. absurd (omega arith); heap = λ k p h. absurd (omega arith) };
  adds_up = refl;
  unique = λ k. omega arith;
  bounded = omega arith;
}

-- One for a packet that is later than a time.
pub late : ℕ → PqPacketInfo → ℕ
late t i = if ltb t i.time then 1 else 0

IsQueued-held :
    (f : PqPacketInfo → ℕ) (q : PacketQueue) (j : PqPacketInfo) → IsQueued q j → f j ≤ held f q
unfolding held held_by_dest held_by_source
IsQueued-held f q j x = omega (
  arith,
  sum-nth f x.info_index j x.source.infos x.info_found,
  sum-nth (held_by_source f) x.source_index x.source x.dest.sources x.source_found,
  sum-nth (held_by_dest f) x.dest_index x.dest q.dests x.dest_found,
)

held_le :
    (f g : PqPacketInfo → ℕ) (q : PacketQueue)
    → ((j : PqPacketInfo) → f j ≤ g j)
    → held f q ≤ held g q
unfolding held held_by_dest held_by_source
held_le f g q h =
    sum_le (held_by_dest f) (held_by_dest g) q.dests
      λ d. sum_le (held_by_source f) (held_by_source g) d.sources λ s. sum_le f g s.infos h

late_le : (t now : ℕ) (j : PqPacketInfo) → t ≤ now → late now j ≤ late t j
unfolding late
late_le t now j h = ground arith

-- The invariant, with the time of the last push.
pub record ValidUntil (t : ℕ) (q : PacketQueue) : Type 0 where
  pub valid : QueueValid q
  pub none_late : held (late t) q ≡ 0

pub empty-ValidUntil : ValidUntil 0 empty_queue
unfolding held sum
empty-ValidUntil = record { valid = empty-QueueValid; none_late = refl }

pub ValidUntil-later : (t now : ℕ) (q : PacketQueue) → t ≤ now → ValidUntil t q → ValidUntil now q
ValidUntil-later t now q later v = record {
  valid = v.valid;
  none_late =
      omega (arith, held_le (late now) (late t) q (λ j. late_le t now j later), v.none_late);
}

pub waits_until :
    (t : ℕ) (q : PacketQueue) (j : PqPacketInfo) → ValidUntil t q → IsQueued q j → j.time ≤ t
unfolding late
waits_until t q j v x = ground (arith, v.none_late, IsQueued-held (late t) q j x)

stamped-late : (p : PqPacket) (n : ℕ) → late n (stamped p n) ≡ 0
unfolding late
stamped-late p n = ground arith

pub push-ValidUntil :
    (t now : ℕ) (q : PacketQueue) (packet : PqPacket)
    → ValidUntil t q
    → t ≤ now
    → q.size + packet_size packet < 2 ^ 64
    → ValidUntil now (push q packet now)
push-ValidUntil t now q packet v later fits =
    let p =
      push-Pushed q packet now v.valid (λ j x. omega (arith, waits_until t q j v x, later)) fits in
    record {
      valid = p.valid;
      none_late = omega (
        arith,
        p.held_is (late now),
        held_le (late now) (late t) q (λ j. late_le t now j later),
        v.none_late,
        stamped-late packet now,
      );
    }

-- A call that only takes packets away.
record Shrunk (t : ℕ) (c : Call) (q : PacketQueue) : Type 0 where
  rest : PacketQueue
  runs : call c q ≡ ok rest
  valid : ValidUntil t rest
  smaller : rest.size ≤ q.size

pub still_none_late :
    (t : ℕ) (q rest : PacketQueue) (i : PqPacketInfo)
    → held (late t) q ≡ 0
    → held (late t) q ≡ late t i + held (late t) rest
    → held (late t) rest ≡ 0
still_none_late t q rest i h e = omega (arith, h, e)

pub pop-empty : (q : PacketQueue) → (q.size == 0) ≡ true → pop q ≡ ok (none, q)
unfolding pop
pop-empty q e = rw (e, pop) refl

drop-empty : (q : PacketQueue) → (q.size == 0) ≡ true → drop_packet q ≡ ok (false, q)
unfolding drop_packet
drop-empty q e = rw (e, drop_packet) refl

pop-Shrunk : (t : ℕ) (q : PacketQueue) → ValidUntil t q → Shrunk t pops q
unfolding call
pop-Shrunk t q v = elim (Bool-cases (q.size == 0)) [
  | inl empty ↦ record {
    rest = q;
    runs = rw (pop-empty q empty) refl;
    valid = v;
    smaller = omega arith;
  }
  | inr some_wait ↦
      let t1 = pop-TakesOldest q v.valid (ground (arith, some_wait)) in
      let p = t1.popped in
      record {
        rest = p.rest;
        runs = rw (p.runs) refl;
        valid = record {
          valid = p.valid;
          none_late = still_none_late t q p.rest t1.info v.none_late (p.held_was (late t));
        };
        smaller = p.smaller;
      }
]

drop-Shrunk : (t : ℕ) (q : PacketQueue) → ValidUntil t q → Shrunk t drops q
unfolding call
drop-Shrunk t q v = elim (Bool-cases (q.size == 0)) [
  | inl empty ↦ record {
    rest = q;
    runs = rw (drop-empty q empty) refl;
    valid = v;
    smaller = omega arith;
  }
  | inr some_wait ↦
      let t1 = drop-DropsLargest q v.valid (ground (arith, some_wait)) in
      let p = t1.dropped_info in
      record {
        rest = p.rest;
        runs = rw (p.runs) refl;
        valid = record {
          valid = p.valid;
          none_late = still_none_late t q p.rest t1.chosen.info v.none_late (p.held_was (late t));
        };
        smaller = p.smaller;
      }
]

run-cons :
    (c : Call) (cs : List Call) (q q1 q2 : PacketQueue)
    → call c q ≡ ok q1
    → run cs q1 ≡ ok q2
    → run (c ∷ cs) q ≡ ok q2
unfolding run
run-cons c cs q q1 q2 e g = rw (e, g) refl

pub Runs : List Call → PacketQueue → Type 0
Runs cs q = (q' : PacketQueue) × ((run cs q ≡ ok q') × QueueValid q')

-- No sequence of pushes, pops and drops on a queue that keeps the invariant makes it panic, and the
-- queue keeps the invariant; the clock does not go back, and the sizes add up to less than 2 ^ 64.
pub run-QueueValid :
    (cs : List Call) (t : ℕ) (q : PacketQueue)
    → ValidUntil t q
    → IsClocked t cs
    → q.size + pushed_size cs < 2 ^ 64
    → Runs cs q
unfolding run call push Runs
run-QueueValid [] t q v clocked fits = (q, (refl, v.valid))
run-QueueValid (pushes packet now ∷ cs) t q v clocked fits =
    let (q', (e, valid)) =
      run-QueueValid cs now (push q packet now)
        (push-ValidUntil t now q packet v clocked.0 (omega (arith, fits))) clocked.1
        (omega (arith, fits, add64-fits q.size (packet_size packet) (omega (arith, fits)))) in
    (q', (run-cons (pushes packet now) cs q (push q packet now) q' refl e, valid))
run-QueueValid (pops ∷ cs) t q v clocked fits =
    let s = pop-Shrunk t q v in
    let (q', (e, valid)) =
      run-QueueValid cs t s.rest s.valid clocked (omega (arith, fits, s.smaller)) in
    (q', (run-cons pops cs q s.rest q' s.runs e, valid))
run-QueueValid (drops ∷ cs) t q v clocked fits =
    let s = drop-Shrunk t q v in
    let (q', (e, valid)) =
      run-QueueValid cs t s.rest s.valid clocked (omega (arith, fits, s.smaller)) in
    (q', (run-cons drops cs q s.rest q' s.runs e, valid))
