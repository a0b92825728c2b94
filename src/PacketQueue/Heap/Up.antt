-- ===== src/PacketQueue/Heap/Up.antt =====
-- The loop of container/heap's up, and Fix and Remove, which are both loops.
use ironwood.Base.{
  ℕ, zero, suc, ◌≤◌, ◌<◌, ◌≡◌, refl, ap, ◌∙◌, subst, inl, inr, Bool, true, false, List, ltb, ◌==◌,
  length, arith, Bool-cases,
}
use ironwood.Types.{Result, ok, ◌>>=◌}
use ironwood.PacketQueue.Heap.{nth, swap, less_at, up_loop, fix_below, down_loop}
use ironwood.PacketQueue.Heap.Entries.{at, nth_in, Below}
use ironwood.PacketQueue.Heap.Swaps.{
  swapped, swap-ok, length-swapped, at-swapped, Swaps, done, step, Below-swapped,
}
use ironwood.PacketQueue.Heap.Order.{parent, IsHeap, IsHeapBut, IsLoose, IsBridged}
use ironwood.PacketQueue.Heap.Down

module _ {A : Type 0} (less : A → A → Result Bool) (time : A → ℕ) (IsGood : A → Type 0)
    (agrees : (x y : A) → IsGood x → IsGood y → less x y ≡ ok (ltb (time x) (time y))) where
  up_step :
      (fuel j : ℕ) (xs : List A) (lower : Bool)
      → (parent j == j) ≡ false
      → less_at less j (parent j) xs ≡ ok lower
      → up_loop less (suc fuel) j xs ≡ elim lower [
        | false ↦ ok xs
        | true ↦ swap (parent j) j xs >>= λ ys. up_loop less fuel (parent j) ys
      ]
  unfolding up_loop
  up_step fuel j xs lower moves e = rw (moves, e, up_loop) refl

  up_stops_at_root : (fuel : ℕ) (xs : List A) → up_loop less fuel 0 xs ≡ ok xs
  unfolding up_loop
  up_stops_at_root zero xs = refl
  up_stops_at_root (suc fuel) xs = refl

  swapped-IsHeapBut :
      (j n : ℕ) (x y : A) (xs : List A)
      → nth (parent j) xs ≡ ok x
      → nth j xs ≡ ok y
      → 0 < j
      → j < n
      → at time j xs < at time (parent j) xs
      → IsHeapBut time j n xs
      → IsBridged time j n xs
      → IsHeapBut time (parent j) n (swapped (parent j) j x y xs)
        × IsBridged time (parent j) n (swapped (parent j) j x y xs)
  swapped-IsHeapBut j n x y xs e g positive hj lower but bridged =
      let moved = λ (k : ℕ). at-swapped time (parent j) j k x y xs e g in
      (
        λ k p q r. ground (arith, moved k, moved (parent k), but k p q, bridged k p q),
        λ k p q r t.
            ground (arith, moved k, moved (parent (parent j)), but k p q, but (parent j) r),
      )

  pub record Ordered (n : ℕ) (xs : List A) (m : Result (List A)) : Type 0 where
    pub entries : List A
    pub runs : m ≡ ok entries
    pub swaps : Swaps n xs entries
    pub heap : IsHeap time n entries

  up_loop-Ordered :
      (fuel j n : ℕ) (xs : List A)
      → j ≤ fuel
      → j < n
      → n ≤ length xs
      → Below IsGood n xs
      → IsHeapBut time j n xs
      → IsBridged time j n xs
      → Ordered n xs (up_loop less fuel j xs)
  up_loop-Ordered fuel zero n xs enough hj size good but bridged = record {
    entries = xs;
    runs = up_stops_at_root fuel xs;
    swaps = done;
    heap = λ k p q. but k p q (omega arith);
  }
  up_loop-Ordered zero (suc j) n xs enough hj size good but bridged = absurd (omega arith)
  up_loop-Ordered (suc fuel) (suc j) n xs enough hj size good but bridged =
      let i = parent (suc j) in
      let hi : i < n = omega arith in
      let moves : (i == suc j) ≡ false = ground arith in
      let told = Down.less_at-ok less time IsGood agrees (suc j) i n xs hj hi size good in
      elim (Bool-cases (ltb (at time (suc j) xs) (at time i xs))) [
        | inl lower ↦
            let (x, e) = nth_in i xs (omega (arith, hi)) in
            let (y, g) = nth_in (suc j) xs (omega arith) in
            let zs = swapped i (suc j) x y xs in
            let (but', bridged') =
              swapped-IsHeapBut (suc j) n x y xs e g (omega arith) hj (ground (arith, lower)) but
                bridged in
            let rest =
              up_loop-Ordered fuel i n zs (omega arith) hi
                (omega (arith, length-swapped i (suc j) x y xs))
                (Below-swapped IsGood n i (suc j) x y xs hi hj e g good) but' bridged' in
            record {
              entries = rest.entries;
              runs =
                  up_step fuel (suc j) xs true moves (told ∙ ap ok lower)
                  ∙ rw (swap-ok i (suc j) x y xs e g) rest.runs;
              swaps = step i (suc j) x y hi hj e g rest.swaps;
              heap = rest.heap;
            }
        | inr higher ↦ record {
          entries = xs;
          runs = up_step fuel (suc j) xs false moves (told ∙ ap ok higher);
          swaps = done;
          heap = λ k p q. elim (Bool-cases (k == suc j)) [
            | inl here ↦
                let same : suc j ≡ k = ground (arith, here) in
                subst (λ (l : ℕ). at time (parent l) xs ≤ at time l xs) same
                  (ground (arith, higher))
            | inr other ↦ but k p q (ground (arith, other))
          ];
        }
      ]

  fix_below_up :
      (i n last : ℕ) (xs ys : List A)
      → down_loop less n i n xs ≡ ok (ys, last)
      → ltb i last ≡ false
      → fix_below less i n xs ≡ up_loop less i i ys
  unfolding fix_below
  fix_below_up i n last xs ys e stays = rw (e, stays) refl

  fix_below_down :
      (i n last : ℕ) (xs ys : List A)
      → down_loop less n i n xs ≡ ok (ys, last)
      → ltb i last ≡ true
      → fix_below less i n xs ≡ ok ys
  unfolding fix_below
  fix_below_down i n last xs ys e moved = rw (e, moved) refl

  -- The loops of Fix and Remove order the first `n` entries, of which one may be out of place.
  pub fix_below-Ordered :
      (i n : ℕ) (xs : List A)
      → i < n
      → n ≤ length xs
      → Below IsGood n xs
      → IsLoose time i n xs
      → IsBridged time i n xs
      → Ordered n xs (fix_below less i n xs)
  fix_below-Ordered i n xs hi size good loose bridged =
      let d =
        Down.down_loop-Downed less time IsGood agrees n i n xs (omega arith) hi size good loose
          bridged in
      elim d.order [
        | inl (stays, (same, but)) ↦
            let u = up_loop-Ordered i i n xs (omega arith) hi size good but bridged in
            record {
              entries = u.entries;
              runs =
                  fix_below_up i n d.last xs d.entries d.runs (ground (arith, stays))
                  ∙ ap (λ (l : List A). up_loop less i i l) same
                  ∙ u.runs;
              swaps = u.swaps;
              heap = u.heap;
            }
        | inr (moved, heap) ↦ record {
          entries = d.entries;
          runs = fix_below_down i n d.last xs d.entries d.runs (ground (arith, moved));
          swaps = d.swaps;
          heap = heap;
        }
      ]
