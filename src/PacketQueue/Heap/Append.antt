-- ===== src/PacketQueue/Heap/Append.antt =====
-- An entry put last in a heap, or written over one that has the same time.
use ironwood.Base.{
  ℕ, ◌≤◌, ◌<◌, ◌≡◌, sym, ◌∙◌, subst, inl, inr, List, [], ◌∷◌, ◌++◌, ltb, ◌==◌, length, arith,
  Bool-cases, length-append,
}
use ironwood.Types.{ok}
use ironwood.PacketQueue.Heap.{nth, set_nth}
use ironwood.PacketQueue.Heap.Entries.{
  at, at-nth, nth-lt, ok-equal, nth-append, nth-append_last, at-append, nth-set_nth_same,
  nth-set_nth_other, length-set_nth, at-set_nth,
}
use ironwood.PacketQueue.Heap.Order.{parent, GoodHeap}

module _ {A : Type 0} (time : A → ℕ) (IsGood : A → Type 0) where
  -- An entry that is no earlier than the others is put last.
  pub append-GoodHeap :
      (xs : List A) (v : A)
      → GoodHeap time IsGood xs
      → IsGood v
      → ((k : ℕ) → at time k xs ≤ time v)
      → GoodHeap time IsGood (xs ++ (v ∷ []))
  append-GoodHeap xs v g good_v latest = record {
    good = λ k y hk e. elim (Bool-cases (ltb k (length xs))) [
      | inl before ↦
          let hk' : k < length xs = ground (arith, before) in
          g.good k y hk' (sym (nth-append k xs (v ∷ []) hk') ∙ e)
      | inr last ↦
          let k-is : k ≡ length xs = ground (arith, last, hk, length-append xs (v ∷ [])) in
          subst IsGood
            (ok-equal (
              sym (nth-append_last xs v) ∙ subst (λ (l : ℕ). nth l (xs ++ (v ∷ [])) ≡ ok y) k-is e))
            good_v
    ];
    heap = λ k p q.
        let size = length-append xs (v ∷ []) in
        let parent_same = at-append time (parent k) xs (v ∷ []) (omega (arith, size, p, q)) in
        elim (Bool-cases (ltb k (length xs))) [
          | inl before ↦
              let hk : k < length xs = ground (arith, before) in
              omega (arith, parent_same, at-append time k xs (v ∷ []) hk, g.heap k p hk)
          | inr last ↦
              let k-is : length xs ≡ k = ground (arith, last, q, size) in
              let at_k : at time k (xs ++ (v ∷ [])) ≡ time v =
                at-nth time k (xs ++ (v ∷ [])) v
                  (subst (λ (l : ℕ). nth l (xs ++ (v ∷ [])) ≡ ok v) k-is (nth-append_last xs v)) in
              omega (arith, parent_same, at_k, latest (parent k))
        ];
  }

  -- An entry is written over one that has the same time.
  pub set_nth-GoodHeap :
      (i : ℕ) (v x : A) (xs : List A)
      → nth i xs ≡ ok x
      → GoodHeap time IsGood xs
      → IsGood v
      → time v ≡ time x
      → GoodHeap time IsGood (set_nth i v xs)
  set_nth-GoodHeap i v x xs found g good_v same =
      let hi = nth-lt i xs x found in
      let x-time = at-nth time i xs x found in
      record {
        good = λ k y hk e. elim (Bool-cases (k == i)) [
          | inl here ↦
              let k-is : k ≡ i = ground (arith, here) in
              subst IsGood
                (ok-equal (
                  sym (nth-set_nth_same i v xs hi)
                  ∙ subst (λ (l : ℕ). nth l (set_nth i v xs) ≡ ok y) k-is e))
                good_v
          | inr there ↦
              let e' = sym (nth-set_nth_other i k v xs (ground (arith, there))) ∙ e in
              g.good k y (nth-lt k xs y e') e'
        ];
        heap = λ k p q.
            let size = length-set_nth i v xs in
            let hk : k < length xs = omega (arith, q, size) in
            ground (
              arith,
              at-set_nth time i k v xs hi,
              at-set_nth time i (parent k) v xs hi,
              x-time,
              same,
              g.heap k p hk,
            );
      }
