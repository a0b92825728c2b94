-- ===== src/PacketQueue/Heap/Remove.antt =====
-- container/heap's Remove: the entry leaves, the others are kept in order.
use ironwood.Base.{
  ℕ, suc, ◌+◌, ◌-◌, ◌<◌, ◌≡◌, ◌≢◌, refl, sym, ap, ◌∙◌, subst, inl, inr, Bool, true, false, List, [],
  ◌∷◌, ltb, ◌==◌, length, arith, Bool-cases,
}
use ironwood.Types.{Result, ok}
use ironwood.PacketQueue.Heap.{nth, swap, fix_below, remove, pop_last}
use ironwood.PacketQueue.Heap.Entries.{
  at, nth_in, nth-lt, Below, sum, sum-one, sum-append, pop_last-append, last_of, nth-append,
  at-append,
}
use ironwood.PacketQueue.Heap.Swaps.{
  swapped, swap-ok, length-swapped, at-swapped, nth-swapped, length-Swaps, sum-Swaps, sum-swapped,
  nth-Swaps, Below-Swaps,
}
use ironwood.PacketQueue.Heap.Order.{parent, IsHeap, IsLoose, IsBridged}
use ironwood.PacketQueue.Heap.Up

module _ {A : Type 0} (less : A → A → Result Bool) (time : A → ℕ) (IsGood : A → Type 0)
    (agrees : (x y : A) → IsGood x → IsGood y → less x y ≡ ok (ltb (time x) (time y))) where
  abbrev pub OthersGood : ℕ → List A → Type 0
  OthersGood i xs = (k : ℕ) (x : A) → k ≢ i → nth k xs ≡ ok x → IsGood x

  pub record Removed (i n : ℕ) (xs : List A) (x : A) : Type 0 where
    pub entries : List A
    pub runs : remove less i xs ≡ ok (entries, x)
    pub size : length entries ≡ n
    pub sums : (f : A → ℕ) → sum f entries + f x ≡ sum f xs
    pub good : Below IsGood n entries
    pub heap : IsHeap time n entries

  remove_last : (i : ℕ) (xs : List A) → (length xs - 1 == i) ≡ true → remove less i xs ≡ pop_last xs
  unfolding remove
  remove_last i xs e = rw (e, remove) refl

  remove_inner :
      (i n : ℕ) (xs ys zs : List A)
      → length xs ≡ suc n
      → i < n
      → swap i n xs ≡ ok ys
      → fix_below less i n ys ≡ ok zs
      → remove less i xs ≡ pop_last zs
  unfolding remove
  remove_inner i n xs ys zs size hi e g =
      let inner : (length xs - 1 == i) ≡ false = ground (arith, size, hi) in
      let n-is : length xs - 1 ≡ n = omega (arith, size) in
      rw (inner, remove) (rw (n-is, e, g) refl)

  -- What is known once the removed entry stands last.
  cut :
      (i n : ℕ) (xs zs : List A) (x : A)
      → length zs ≡ suc n
      → nth n zs ≡ ok x
      → remove less i xs ≡ pop_last zs
      → ((f : A → ℕ) → sum f zs ≡ sum f xs)
      → Below IsGood n zs
      → IsHeap time n zs
      → Removed i n xs x
  cut i n xs zs x size at_n runs sums good heap =
      let (ys, (same, ys_size)) = last_of n zs x size at_n in
      record {
        entries = ys;
        runs = runs ∙ ap pop_last same ∙ pop_last-append ys x;
        size = ys_size;
        sums = λ f. omega (arith, sums f, ap (sum f) same, sum-append f ys (x ∷ []), sum-one f x);
        good = λ k y hk found.
            good k y hk
              (ap (nth k) same ∙ nth-append k ys (x ∷ []) (omega (arith, ys_size)) ∙ found);
        heap = λ k p q. omega (
          arith,
          heap k p q,
          ap (at time k) same,
          ap (at time (parent k)) same,
          at-append time k ys (x ∷ []) (omega (arith, ys_size)),
          at-append time (parent k) ys (x ∷ []) (omega (arith, ys_size)),
        );
      }

  -- Remove takes out the entry at an index. That entry is not compared with others, so it may be
  -- one that Less does not accept.
  pub remove-Removed :
      (i n : ℕ) (xs : List A) (x : A)
      → length xs ≡ suc n
      → nth i xs ≡ ok x
      → OthersGood i xs
      → IsLoose time i (suc n) xs
      → IsBridged time i (suc n) xs
      → Removed i n xs x
  remove-Removed i n xs x size found good loose bridged = elim (Bool-cases (length xs - 1 == i)) [
    | inl here ↦
        let i-is : i ≡ n = ground (arith, size, here) in
        cut i n xs xs x size (subst (λ (l : ℕ). nth l xs ≡ ok x) i-is found) (remove_last i xs here)
          (λ f. refl) (λ k y hk e. good k y (omega (arith, i-is)) e)
          (λ k p q. loose k p (omega arith) (omega (arith, i-is)) (omega (arith, i-is)))
    | inr there ↦
        let hi : i < n = ground (arith, there, size, nth-lt i xs x found) in
        let (y, g) = nth_in n xs (omega (arith, size)) in
        let ys = swapped i n x y xs in
        let moved = λ (k : ℕ). at-swapped time i n k x y xs found g in
        let o =
          Up.fix_below-Ordered less time IsGood agrees i n ys hi
            (omega (arith, length-swapped i n x y xs, size)) (swapped_good y g hi)
            (λ k p q r t. ground (arith, moved k, moved (parent k), loose k p))
            (λ k p q r t. ground (arith, moved k, moved (parent i), bridged k p)) in
        cut i n xs o.entries x (length-Swaps o.swaps ∙ length-swapped i n x y xs ∙ size)
          (nth-Swaps n (omega arith) o.swaps
            ∙ ground (arith, nth-swapped i n n x y xs found g, found))
          (remove_inner i n xs ys o.entries size hi (swap-ok i n x y xs found g) o.runs)
          (λ f. sum-Swaps f o.swaps ∙ sum-swapped f i n x y xs found g)
          (Below-Swaps IsGood o.swaps (swapped_good y g hi)) o.heap
  ]
    where
      swapped_good : (y : A) (g : nth n xs ≡ ok y) → i < n → Below IsGood n (swapped i n x y xs)
      swapped_good y g hi k z hk e =
          let moved = nth-swapped i n k x y xs found g in
          elim (Bool-cases (k == i)) [
            | inl here ↦
                let from : nth k (swapped i n x y xs) ≡ nth n xs = ground (arith, moved, hk) in
                good n z (omega arith) (sym from ∙ e)
            | inr there ↦
                let from : nth k (swapped i n x y xs) ≡ nth k xs = ground (arith, moved, hk) in
                good k z (ground (arith, there)) (sym from ∙ e)
          ]
