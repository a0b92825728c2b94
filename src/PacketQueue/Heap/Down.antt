-- ===== src/PacketQueue/Heap/Down.antt =====
-- The loop of container/heap's down.
use ironwood.Base.{
  ℕ, zero, suc, ◌+◌, ◌*◌, ◌≤◌, ◌<◌, ◌≡◌, refl, ◌⊎◌, inl, inr, Bool, true, false, List, ltb, leb,
  ◌==◌, if◌then◌else◌, length, arith, Bool-cases, subst, sym, ap, ◌∙◌,
}
use ironwood.Types.{Result, ok, ◌>>=◌}
use ironwood.PacketQueue.Heap.{nth, swap, less_at, child, down_loop}
use ironwood.PacketQueue.Heap.Entries.{at, nth_in, at-nth, Below}
use ironwood.PacketQueue.Heap.Swaps.{
  swapped, swap-ok, length-swapped, at-swapped, Swaps, done, step, Below-swapped,
}
use ironwood.PacketQueue.Heap.Order.{parent, IsHeap, IsHeapBut, IsLoose, IsBridged}

module _ {A : Type 0} (less : A → A → Result Bool) (time : A → ℕ) (IsGood : A → Type 0)
    (agrees : (x y : A) → IsGood x → IsGood y → less x y ≡ ok (ltb (time x) (time y))) where
  pub less_at-ok :
      (i j n : ℕ) (xs : List A)
      → i < n
      → j < n
      → n ≤ length xs
      → Below IsGood n xs
      → less_at less i j xs ≡ ok (ltb (at time i xs) (at time j xs))
  unfolding less_at
  less_at-ok i j n xs hi hj size good =
      let (x, e) = nth_in i xs (omega arith) in
      let (y, g) = nth_in j xs (omega arith) in
      rw (e, g, at-nth time i xs x e, at-nth time j xs y g)
        (agrees x y (good i x hi e) (good j y hj g))

  child_one :
      (i n : ℕ) (xs : List A) → ltb (2 * i + 2) n ≡ false → child less i n xs ≡ ok (2 * i + 1)
  unfolding child
  child_one i n xs one = rw (one, child) refl

  child_two :
      (i n : ℕ) (xs : List A) (right : Bool)
      → ltb (2 * i + 2) n ≡ true
      → n ≤ length xs
      → Below IsGood n xs
      → ltb (at time (2 * i + 2) xs) (at time (2 * i + 1) xs) ≡ right
      → child less i n xs ≡ ok (if right then 2 * i + 2 else 2 * i + 1)
  unfolding child
  child_two i n xs right two size good e =
      rw
        (
          two,
          less_at-ok (2 * i + 2) (2 * i + 1) n xs (ground (arith, two)) (ground (arith, two)) size
              good,
          e,
          child,
        )
        refl

  -- A child of `i` that is due no later than the other one.
  pub record Child (i n : ℕ) (xs : List A) : Type 0 where
    pub index : ℕ
    pub taken : child less i n xs ≡ ok index
    pub inside : index < n
    pub under : parent index ≡ i
    pub later : i < index
    pub least : (c : ℕ) → 0 < c → c < n → parent c ≡ i → at time index xs ≤ at time c xs

  child_lem :
      (i n : ℕ) (xs : List A) → 2 * i + 1 < n → n ≤ length xs → Below IsGood n xs → Child i n xs
  child_lem i n xs has_left size good = elim (Bool-cases (ltb (2 * i + 2) n)) [
    | inl two ↦ elim (Bool-cases (ltb (at time (2 * i + 2) xs) (at time (2 * i + 1) xs))) [
      | inl right ↦ record {
        index = 2 * i + 2;
        taken = child_two i n xs true two size good right;
        inside = ground (arith, two);
        under = omega arith;
        later = omega arith;
        least = λ c p q r. ground (arith, right);
      }
      | inr left ↦ record {
        index = 2 * i + 1;
        taken = child_two i n xs false two size good left;
        inside = has_left;
        under = omega arith;
        later = omega arith;
        least = λ c p q r. ground (arith, left);
      }
    ]
    | inr one ↦ record {
      index = 2 * i + 1;
      taken = child_one i n xs one;
      inside = has_left;
      under = omega arith;
      later = omega arith;
      least = λ c p q r. ground (arith, one);
    }
  ]

  down_stops_at_leaf :
      (fuel i n : ℕ) (xs : List A)
      → leb n (2 * i + 1) ≡ true
      → down_loop less (suc fuel) i n xs ≡ ok (xs, i)
  unfolding down_loop
  down_stops_at_leaf fuel i n xs leaf = rw (leaf, down_loop) refl

  down_step :
      (fuel i j n : ℕ) (xs : List A) (lower : Bool)
      → leb n (2 * i + 1) ≡ false
      → child less i n xs ≡ ok j
      → less_at less j i xs ≡ ok lower
      → down_loop less (suc fuel) i n xs ≡ elim lower [
        | false ↦ ok (xs, i)
        | true ↦ swap i j xs >>= λ ys. down_loop less fuel j n ys
      ]
  unfolding down_loop
  down_step fuel i j n xs lower inner taken e = rw (inner, taken, e, down_loop) refl

  swapped-IsLoose :
      (i j n : ℕ) (x y : A) (xs : List A)
      → nth i xs ≡ ok x
      → nth j xs ≡ ok y
      → i < n
      → j < n
      → parent j ≡ i
      → i < j
      → ((c : ℕ) → 0 < c → c < n → parent c ≡ i → at time j xs ≤ at time c xs)
      → at time j xs < at time i xs
      → IsLoose time i n xs
      → IsBridged time i n xs
      → IsLoose time j n (swapped i j x y xs)
        × (IsBridged time j n (swapped i j x y xs)
            × (at time (parent j) (swapped i j x y xs) ≤ at time j (swapped i j x y xs)))
  swapped-IsLoose i j n x y xs e g hi hj under later least lower loose bridged =
      let moved = λ (k : ℕ). at-swapped time i j k x y xs e g in
      (
        λ k p q r t. ground (arith, moved k, moved (parent k), loose k p q, bridged j, least k p q),
        (
          λ k p q r t. ground (arith, moved k, moved (parent j), loose k p q),
          ground (arith, moved j, moved (parent j)),
        ),
      )

  -- How the loop ends: it did not move the entry, or it gives a heap.
  pub record Downed (fuel i n : ℕ) (xs : List A) : Type 0 where
    pub entries : List A
    pub last : ℕ
    pub runs : down_loop less fuel i n xs ≡ ok (entries, last)
    pub swaps : Swaps n xs entries
    pub order :
        ((last ≡ i) × ((entries ≡ xs) × IsHeapBut time i n xs))
        ⊎ ((i < last) × IsHeap time n entries)

  stays :
      (fuel i n : ℕ) (xs : List A)
      → down_loop less fuel i n xs ≡ ok (xs, i)
      → IsHeapBut time i n xs
      → Downed fuel i n xs
  stays fuel i n xs runs but = record {
    entries = xs;
    last = i;
    runs = runs;
    swaps = done;
    order = inl (refl, (refl, but));
  }

  -- A heap in which the entry at `i` may be out of place is put in order below `i`.
  pub down_loop-Downed :
      (fuel i n : ℕ) (xs : List A)
      → n ≤ i + fuel
      → i < n
      → n ≤ length xs
      → Below IsGood n xs
      → IsLoose time i n xs
      → IsBridged time i n xs
      → Downed fuel i n xs
  down_loop-Downed zero i n xs enough hi size good loose bridged = absurd (omega arith)
  down_loop-Downed (suc fuel) i n xs enough hi size good loose bridged =
      elim (Bool-cases (leb n (2 * i + 1))) [
        | inl leaf ↦
            stays (suc fuel) i n xs (down_stops_at_leaf fuel i n xs leaf)
              (λ k p q r. ground (arith, leaf, loose k p q r))
        | inr inner ↦
            let m = child_lem i n xs (ground (arith, inner)) size good in
            let j = m.index in
            let told = less_at-ok j i n xs m.inside hi size good in
            elim (Bool-cases (ltb (at time j xs) (at time i xs))) [
              | inl lower ↦
                  let (x, e) = nth_in i xs (omega arith) in
                  let (y, g) = nth_in j xs (omega (arith, m.inside)) in
                  let zs = swapped i j x y xs in
                  let (loose', (bridged', edge)) =
                    swapped-IsLoose i j n x y xs e g hi m.inside m.under m.later m.least
                      (ground (arith, lower)) loose bridged in
                  let rest =
                    down_loop-Downed fuel j n zs (omega (arith, m.later)) m.inside
                      (omega (arith, length-swapped i j x y xs))
                      (Below-swapped IsGood n i j x y xs hi m.inside e g good) loose' bridged' in
                  record {
                    entries = rest.entries;
                    last = rest.last;
                    runs =
                        down_step fuel i j n xs true inner m.taken (told ∙ ap ok lower)
                        ∙ rw (swap-ok i j x y xs e g) rest.runs;
                    swaps = step i j x y hi m.inside e g rest.swaps;
                    order = inr (in_order i j n zs rest.entries rest.last m.later edge rest.order);
                  }
              | inr higher ↦
                  stays (suc fuel) i n xs
                    (down_step fuel i j n xs false inner m.taken (told ∙ ap ok higher))
                    (λ k p q r. ground (arith, higher, loose k p q r, m.least k p q))
            ]
      ]
    where
      in_order :
          (i j n : ℕ) (zs ys : List A) (last : ℕ)
          → i < j
          → at time (parent j) zs ≤ at time j zs
          → ((last ≡ j) × ((ys ≡ zs) × IsHeapBut time j n zs)) ⊎ ((j < last) × IsHeap time n ys)
          → (i < last) × IsHeap time n ys
      in_order i j n zs ys last later edge (inl (e, (same, but))) = (
        omega arith,
        subst (λ (l : List A). IsHeap time n l) (sym same)
            (λ k p q. elim (Bool-cases (k == j)) [
              | inl at_j ↦
                  subst (λ (l : ℕ). at time (parent l) zs ≤ at time l zs) (ground (arith, at_j))
                    edge
              | inr other ↦ but k p q (ground (arith, other))
            ]),
      )
      in_order i j n zs ys last later edge (inr (moved, heap)) = (omega arith, heap)
