-- ===== src/PacketQueue/TakeDest.antt =====
-- What the queue is after a packet has left one of its destinations.
use ironwood.Base.{
  ℕ, ◌+◌, ◌^◌, ◌≤◌, ◌<◌, ◌≡◌, refl, sym, ap, ◌∙◌, subst, inl, inr, Bool, true, false, List, ltb,
  length, arith, if◌then◌else◌, Bool-cases,
}
use ironwood.Types.{ok}
use ironwood.PacketQueue.{PqPacketInfo, PqDest, PacketQueue, settle_dest, sub64, dest_size}
use ironwood.PacketQueue.Heap.{nth, set_nth}
use ironwood.PacketQueue.Heap.Entries.{sum-nth, sum-none}
use ironwood.PacketQueue.Invariant.{
  QueueValid, key_is, dest_under, held_by_source, held_by_dest, held,
}
use ironwood.PacketQueue.Settle.{sub64_le, DestSettled, settle_dest-Kept, settle_dest-Removed}
use ironwood.PacketQueue.Take.{InfoTaken}

abbrev pub with_dests : List PqDest → ℕ → PacketQueue
with_dests ds size = record { dests = ds; size = size }

pub record QueueTaken (q : PacketQueue) (a : ℕ) (i : PqPacketInfo) (d' : PqDest) (size : ℕ)
    : Type 0 where
  pub dests : List PqDest
  pub runs :
      settle_dest (ltb 0 (length d'.sources)) (with_dests (set_nth a d' q.dests) size) a
      ≡ ok (with_dests dests size)
  pub valid : QueueValid (with_dests dests (sub64 q.size i.size))
  pub held_was :
      (f : PqPacketInfo → ℕ) → held f q ≡ f i + held f (with_dests dests (sub64 q.size i.size))
  pub smaller : sub64 q.size i.size ≤ q.size

kept_held :
    (f : PqPacketInfo → ℕ) (d : PqDest) (b : Bool)
    → ltb 0 (length d.sources) ≡ b
    → (if b then held_by_dest f d else 0) ≡ held_by_dest f d
unfolding held_by_dest
kept_held f d true e = refl
kept_held f d false e = sym (sum-none (held_by_source f) d.sources (ground (arith, e)))

settled-QueueTaken :
    (keep : Bool) (q : PacketQueue) (a : ℕ) (d d' : PqDest) (i : PqPacketInfo) (size : ℕ)
    → QueueValid q
    → nth a q.dests ≡ ok d
    → InfoTaken d i d'
    → ltb 0 (length d'.sources) ≡ keep
    → DestSettled keep q a d d' size
    → QueueTaken q a i d' size
unfolding held
settled-QueueTaken keep q a d d' i size v found x is_kept t =
    let fits : i.size ≤ q.size =
      omega (arith, x.size_was, sum-nth dest_size a d q.dests found, v.adds_up) in
    let left = sub64_le q.size i.size fits v.bounded in
    record {
      dests = t.dests;
      runs =
          subst
            (λ (b : Bool).
              settle_dest b (with_dests (set_nth a d' q.dests) size) a
              ≡ ok (with_dests t.dests size))
            (sym is_kept) t.runs;
      valid = record {
        ordered = t.ordered;
        adds_up = omega (
          arith,
          left,
          v.adds_up,
          x.size_was,
          t.sums dest_size,
          kept_size keep (x.counted ∙ is_kept),
        );
        unique = λ k.
            let same : dest_under k d' ≡ dest_under k d = ap (key_is k) x.key_same in
            omega (arith, v.unique k, t.sums (dest_under k), same, if_le keep (dest_under k d'));
        bounded = omega (arith, left, v.bounded);
      };
      held_was =
          λ f. omega (arith, x.held_was f, t.sums (held_by_dest f), kept_held f d' keep is_kept);
      smaller = omega (arith, left);
    }
  where
    if_le : (b : Bool) (n : ℕ) → (if b then n else 0) ≤ n
    if_le b n = ground arith

    kept_size : (b : Bool) → ltb 0 d'.size ≡ b → (if b then d'.size else 0) ≡ d'.size
    kept_size b e = ground arith

pub settle_dest-QueueTaken :
    (q : PacketQueue) (a : ℕ) (d d' : PqDest) (i : PqPacketInfo) (size : ℕ)
    → QueueValid q
    → nth a q.dests ≡ ok d
    → InfoTaken d i d'
    → size < 2 ^ 64
    → QueueTaken q a i d' size
settle_dest-QueueTaken q a d d' i size v found x fits =
    elim (Bool-cases (ltb 0 (length d'.sources))) [
      | inl more ↦
          settled-QueueTaken true q a d d' i size v found x more
            (settle_dest-Kept q a d d' size found v.ordered (x.valid (ground (arith, more))))
      | inr none_left ↦ settled-QueueTaken false q a d d' i size v found x none_left (
          settle_dest-Removed q a d d' size found v.ordered (ground (arith, none_left, x.counted))
            fits)
    ]
