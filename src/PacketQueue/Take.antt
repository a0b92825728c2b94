-- ===== src/PacketQueue/Take.antt =====
-- A packet leaves its source, the source its destination, and the destination the queue.
use ironwood.Base.{
  ℕ, ◌+◌, ◌^◌, ◌≤◌, ◌<◌, ◌≡◌, refl, ap, ◌∙◌, subst, Bool, true, false, List, [], ◌∷◌, ltb, length,
  arith, if◌then◌else◌,
}
use ironwood.Types.{ok}
use ironwood.PacketQueue.{PqPacketInfo, PqSource, PqDest, sub64, source_size}
use ironwood.PacketQueue.Heap.{nth}
use ironwood.PacketQueue.Heap.Entries.{sum, sum-nth, nth-lt}
use ironwood.PacketQueue.Heap.Order.{GoodHeap}
use ironwood.PacketQueue.Invariant.{
  source_time, SourceValid, DestValid, info_size, IsAscending, AreSized, key_is, source_under,
  held_by_source, held_by_dest,
}
use ironwood.PacketQueue.Settle.{sub64_le, SourceSettled, settle_source-Kept, settle_source-Removed}

IsAscending-later :
    (t : ℕ) (i : PqPacketInfo) (is : List PqPacketInfo) → IsAscending t (i ∷ is) → IsAscending 0 is
IsAscending-later t i [] h = tt
IsAscending-later t i (j ∷ is) h = (omega arith, h.1.1)

-- The source behind its first packet.
abbrev pub later : PqSource → PqPacketInfo → List PqPacketInfo → PqSource
later s i is = record { key = s.key; infos = is; size = sub64 s.size i.size }

sum-sized :
    (i : PqPacketInfo) (is : List PqPacketInfo) → AreSized (i ∷ is) → 0 < sum info_size (i ∷ is)
unfolding sum
sum-sized i is h = omega (arith, h.0)

pub record FirstLeaves (s : PqSource) (i : PqPacketInfo) (is : List PqPacketInfo) : Type 0 where
  pub size_later : sub64 s.size i.size ≡ sum info_size is
  pub size_was : s.size ≡ i.size + sum info_size is
  pub valid : 0 < length is → SourceValid (later s i is)
  pub held_was : (f : PqPacketInfo → ℕ) → held_by_source f s ≡ f i + sum f is

pub source-FirstLeaves :
    (s : PqSource) (i : PqPacketInfo) (is : List PqPacketInfo)
    → SourceValid s
    → s.infos ≡ i ∷ is
    → s.size < 2 ^ 64
    → FirstLeaves s i is
unfolding sum held_by_source
source-FirstLeaves s i is v e bounded =
    let was : s.size ≡ i.size + sum info_size is = v.adds_up ∙ ap (sum info_size) e in
    let left : sub64 s.size i.size ≡ sum info_size is =
      sub64_le s.size i.size (omega (arith, was)) bounded ∙ omega (arith, was) in
    record {
      size_later = left;
      size_was = was;
      valid = λ h. record {
        waiting = h;
        ascending =
            IsAscending-later 0 i is
              (subst (λ (l : List PqPacketInfo). IsAscending 0 l) e v.ascending);
        sized = (subst (λ (l : List PqPacketInfo). AreSized l) e v.sized).1;
        adds_up = left;
      };
      held_was = λ f. ap (sum f) e;
    }

pub source-sized : (s : PqSource) → SourceValid s → 0 < s.size
unfolding sum
source-sized s v = go s.infos v.waiting v.sized v.adds_up
  where
    go :
        (is : List PqPacketInfo)
        → 0 < length is
        → AreSized is
        → s.size ≡ sum info_size is
        → 0 < s.size
    go [] h sized e = absurd (omega arith)
    go (i ∷ is) h sized e = omega (arith, e, sized.0)

sources-sized :
    (ss : List PqSource)
    → GoodHeap source_time SourceValid ss
    → ltb 0 (sum source_size ss) ≡ ltb 0 (length ss)
unfolding sum nth
sources-sized [] g = refl
sources-sized (s ∷ ss) g = ground (arith, source-sized s (g.good 0 s (omega arith) refl))

-- A destination after a packet has left it.
pub record InfoTaken (d : PqDest) (i : PqPacketInfo) (d' : PqDest) : Type 0 where
  pub key_same : d'.key ≡ d.key
  pub valid : 0 < length d'.sources → DestValid d'
  pub counted : ltb 0 d'.size ≡ ltb 0 (length d'.sources)
  pub size_was : d.size ≡ i.size + d'.size
  pub held_was : (f : PqPacketInfo → ℕ) → held_by_dest f d ≡ f i + held_by_dest f d'

abbrev pub with_sources : PqDest → List PqSource → ℕ → PqDest
with_sources d ss size = record { key = d.key; sources = ss; size = size }

settled-InfoTaken :
    (keep : Bool) (d : PqDest) (b : ℕ) (s s' : PqSource) (size : ℕ) (i : PqPacketInfo)
    → DestValid d
    → d.size < 2 ^ 64
    → nth b d.sources ≡ ok s
    → s'.key ≡ s.key
    → s.size ≡ i.size + (if keep then s'.size else 0)
    → ((f : PqPacketInfo → ℕ)
        → held_by_source f s ≡ f i + (if keep then held_by_source f s' else 0))
    → (t : SourceSettled keep d b s s' size)
    → InfoTaken d i (with_sources d t.sources (sub64 d.size i.size))
unfolding held_by_dest
settled-InfoTaken keep d b s s' size i v bounded found key_same size_was held_was t =
    let fits : i.size ≤ d.size =
      omega (arith, size_was, sum-nth source_size b s d.sources found, v.adds_up) in
    let left = sub64_le d.size i.size fits bounded in
    let adds : sub64 d.size i.size ≡ sum source_size t.sources =
      omega (arith, left, size_was, v.adds_up, t.sums source_size) in
    record {
      key_same = refl;
      valid = λ h. record {
        waiting = h;
        ordered = t.ordered;
        adds_up = adds;
        unique = λ k.
            let same : source_under k s' ≡ source_under k s = ap (key_is k) key_same in
            omega
              (arith, v.unique k, t.sums (source_under k), same, if_le keep (source_under k s'));
      };
      counted = ap (ltb 0) adds ∙ sources-sized t.sources t.ordered;
      size_was = omega (arith, left, fits);
      held_was = λ f. omega (arith, t.sums (held_by_source f), held_was f);
    }
  where
    if_le : (b : Bool) (n : ℕ) → (if b then n else 0) ≤ n
    if_le b n = ground arith

module _ (d : PqDest) (b : ℕ) (s : PqSource) (i : PqPacketInfo) (is : List PqPacketInfo)
    (v : DestValid d) (bounded : d.size < 2 ^ 64) (found : nth b d.sources ≡ ok s)
    (first : s.infos ≡ i ∷ is) where
  pub source_valid : SourceValid s
  source_valid = v.ordered.good b s (nth-lt b d.sources s found) found

  pub source_leaves : FirstLeaves s i is
  source_leaves =
      source-FirstLeaves s i is source_valid first
        (omega (arith, sum-nth source_size b s d.sources found, v.adds_up, bounded))

  -- A source from which a packet was taken, put in order or removed.
  pub record TakenAt (keep : Bool) (s' : PqSource) (size : ℕ) : Type 0 where
    pub settled : SourceSettled keep d b s s' size
    pub taken : InfoTaken d i (with_sources d settled.sources (sub64 d.size i.size))

  pub later-TakenAt : (size : ℕ) → 0 < length is → TakenAt true (later s i is) size
  unfolding held_by_source
  later-TakenAt size more =
      let l = source_leaves in
      let t = settle_source-Kept d b s (later s i is) size found v.ordered (l.valid more) in
      record {
        settled = t;
        taken =
            settled-InfoTaken true d b s (later s i is) size i v bounded found refl
              (omega (arith, l.size_was, l.size_later)) l.held_was t;
      }

  pub last-TakenAt :
      (s' : PqSource) (size : ℕ)
      → size < 2 ^ 64
      → is ≡ []
      → s'.key ≡ s.key
      → s'.size ≡ 0
      → TakenAt false s' size
  unfolding held_by_source sum
  last-TakenAt s' size fits none_left key_same empty =
      let l = source_leaves in
      let t = settle_source-Removed d b s s' size found v.ordered empty fits in
      record {
        settled = t;
        taken =
            settled-InfoTaken false d b s s' size i v bounded found key_same
              (omega (arith, l.size_was, ap (sum info_size) none_left))
              (λ f. omega (arith, l.held_was f, ap (sum f) none_left)) t;
      }
