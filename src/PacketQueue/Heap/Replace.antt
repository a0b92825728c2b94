-- ===== src/PacketQueue/Heap/Replace.antt =====
-- An entry of a heap is overwritten, and then put in place by Fix or taken out by Remove.
use ironwood.Base.{
  ℕ, suc, ◌+◌, ◌<◌, ◌≡◌, ◌≢◌, sym, ap, ◌∙◌, subst, inl, inr, Bool, List, ◌∷◌, [], ltb, ◌==◌, length,
  arith, Bool-cases,
}
use ironwood.Types.{Result, ok}
use ironwood.PacketQueue.Heap.{nth, set_nth, fix, remove}
use ironwood.PacketQueue.Heap.Entries.{
  sum, nth-lt, ok-equal, Below, length-set_nth, nth-set_nth_same, nth-set_nth_other, at-set_nth,
  sum-set_nth,
}
use ironwood.PacketQueue.Heap.Swaps.{length-Swaps, sum-Swaps, Below-Swaps}
use ironwood.PacketQueue.Heap.Order.{parent, IsHeap, IsLoose, IsBridged, GoodHeap}
use ironwood.PacketQueue.Heap.Up
use ironwood.PacketQueue.Heap.Remove

module _ {A : Type 0} (less : A → A → Result Bool) (time : A → ℕ) (IsGood : A → Type 0)
    (agrees : (x y : A) → IsGood x → IsGood y → less x y ≡ ok (ltb (time x) (time y))) where
  pub record Fixed (i : ℕ) (v x : A) (xs : List A) : Type 0 where
    pub entries : List A
    pub runs : fix less i (set_nth i v xs) ≡ ok entries
    pub size : length entries ≡ length xs
    pub sums : (f : A → ℕ) → sum f entries + f x ≡ sum f xs + f v
    pub ordered : GoodHeap time IsGood entries

  pub record TakenOut (i : ℕ) (v x : A) (xs : List A) : Type 0 where
    pub entries : List A
    pub runs : remove less i (set_nth i v xs) ≡ ok (entries, v)
    pub size : suc (length entries) ≡ length xs
    pub sums : (f : A → ℕ) → sum f entries + f x ≡ sum f xs
    pub ordered : GoodHeap time IsGood entries

  set_nth-IsLoose :
      (i n : ℕ) (v : A) (xs : List A)
      → i < length xs
      → IsHeap time n xs
      → IsLoose time i n (set_nth i v xs) × IsBridged time i n (set_nth i v xs)
  set_nth-IsLoose i n v xs hi heap =
      let moved = λ (k : ℕ). at-set_nth time i k v xs hi in
      (
        λ k p q r t. ground (arith, moved k, moved (parent k), heap k p q),
        λ k p q r t. ground (arith, moved k, moved (parent i), heap k p q, heap i r),
      )

  set_nth-Others :
      (i : ℕ) (v : A) (xs : List A)
      → GoodHeap time IsGood xs
      → (k : ℕ) (y : A) → k ≢ i
      → nth k (set_nth i v xs) ≡ ok y
      → IsGood y
  set_nth-Others i v xs g k y other e =
      let found = sym (nth-set_nth_other i k v xs other) ∙ e in
      g.good k y (nth-lt k xs y found) found

  pub fix-Fixed :
      (i : ℕ) (v x : A) (xs : List A)
      → nth i xs ≡ ok x
      → IsGood v
      → GoodHeap time IsGood xs
      → Fixed i v x xs
  unfolding fix
  fix-Fixed i v x xs found good_v g =
      let hi = nth-lt i xs x found in
      let ys = set_nth i v xs in
      let size = length-set_nth i v xs in
      let (loose, bridged) =
        set_nth-IsLoose i (length ys) v xs hi
          (subst (λ (l : ℕ). IsHeap time l xs) (sym size) g.heap) in
      let o =
        Up.fix_below-Ordered less time IsGood agrees i (length ys) ys (omega (arith, size, hi))
          (omega arith) all_good loose bridged in
      let same = length-Swaps o.swaps in
      record {
        entries = o.entries;
        runs = o.runs;
        size = same ∙ size;
        sums = λ f. omega (arith, sum-Swaps f o.swaps, sum-set_nth f i v x xs found);
        ordered = record {
          good =
              subst (λ (l : ℕ). Below IsGood l o.entries) (sym same)
                (Below-Swaps IsGood o.swaps all_good);
          heap = subst (λ (l : ℕ). IsHeap time l o.entries) (sym same) o.heap;
        };
      }
    where
      all_good : Below IsGood (length (set_nth i v xs)) (set_nth i v xs)
      all_good k y hk e = elim (Bool-cases (k == i)) [
        | inl here ↦
            let k-is : k ≡ i = ground (arith, here) in
            let at_i = nth-set_nth_same i v xs (nth-lt i xs x found) in
            subst IsGood
              (ok-equal (sym at_i ∙ subst (λ (l : ℕ). nth l (set_nth i v xs) ≡ ok y) k-is e)) good_v
        | inr there ↦ set_nth-Others i v xs g k y (ground (arith, there)) e
      ]

  pub remove-TakenOut :
      (i : ℕ) (v x : A) (xs : List A)
      → nth i xs ≡ ok x
      → GoodHeap time IsGood xs
      → TakenOut i v x xs
  remove-TakenOut i v x [] found g = absurd (omega (arith, nth-lt i [] x found))
  remove-TakenOut i v x (x0 ∷ xs0) found g =
      let xs = x0 ∷ xs0 in
      let hi = nth-lt i xs x found in
      let n = length xs0 in
      let size = length-set_nth i v xs in
      let (loose, bridged) = set_nth-IsLoose i (suc n) v xs hi g.heap in
      let r =
        Remove.remove-Removed less time IsGood agrees i n (set_nth i v xs) v size
          (nth-set_nth_same i v xs hi) (set_nth-Others i v xs g) loose bridged in
      record {
        entries = r.entries;
        runs = r.runs;
        size = ap suc r.size;
        sums = λ f. omega (arith, r.sums f, sum-set_nth f i v x xs found);
        ordered = record {
          good = subst (λ (l : ℕ). Below IsGood l r.entries) (sym r.size) r.good;
          heap = subst (λ (l : ℕ). IsHeap time l r.entries) (sym r.size) r.heap;
        };
      }
