-- ===== src/PacketQueue/Largest.antt =====
-- The loops of packetQueue.drop that look for the largest entry.
use ironwood.Base.{
  ℕ, zero, suc, ◌+◌, ◌≤◌, ◌<◌, ◌≡◌, refl, ap, ◌∙◌, ◌⊎◌, inl, inr, List, [], ◌∷◌, ltb, length, arith,
  Bool-cases,
}
use ironwood.PacketQueue.{largest, first_largest, sizes_of}
use ironwood.PacketQueue.Heap.Entries.{at}

abbrev same_number : ℕ → ℕ
same_number n = n

at_cons_le :
    {A : Type 0} (f : A → ℕ) (t : ℕ) (x : A) (xs : List A)
    → f x ≤ t
    → ((k : ℕ) → at f k xs ≤ t)
    → (k : ℕ) → at f k (x ∷ xs) ≤ t
unfolding at
at_cons_le f t x xs h hs zero = h
at_cons_le f t x xs h hs (suc k) = hs k

-- The index that the loop over sizes gives, and that no size is greater than the one there.
largest-best :
    (ns : List ℕ) (idx best best_size : ℕ)
    → ((largest ns idx best best_size ≡ best) × ((k : ℕ) → at same_number k ns ≤ best_size))
      ⊎ ((m : ℕ) × ((largest ns idx best best_size ≡ idx + m)
            × ((m < length ns)
                × ((best_size < at same_number m ns)
                    × ((k : ℕ) → at same_number k ns ≤ at same_number m ns)))))
unfolding largest at
largest-best [] idx best best_size = inl (refl, λ k. omega arith)
largest-best (n ∷ ns) idx best best_size = elim (Bool-cases (ltb best_size n)) [
  | inl higher ↦ elim (largest-best ns (idx + 1) idx n) [
    | inl (e, h) ↦ inr (
      0,
      (
        rw (higher) (e ∙ omega arith),
        (omega arith, (ground (arith, higher), at_cons_le same_number n n ns (omega arith) h)),
      ),
    )
    | inr (m, (e, (hm, (above, h)))) ↦ inr (
      suc m,
      (
        rw (higher) (e ∙ omega arith),
        (
          omega (arith, hm),
          (
            ground (arith, higher, above),
            at_cons_le same_number (at same_number m ns) n ns (omega (arith, above)) h,
          ),
        ),
      ),
    )
  ]
  | inr lower ↦ elim (largest-best ns (idx + 1) best best_size) [
    | inl (e, h) ↦
        inl (rw (lower) e, at_cons_le same_number best_size n ns (ground (arith, lower)) h)
    | inr (m, (e, (hm, (above, h)))) ↦ inr (
      suc m,
      (
        rw (lower) (e ∙ omega arith),
        (
          omega (arith, hm),
          (
            above,
            at_cons_le same_number (at same_number m ns) n ns (ground (arith, lower, above)) h,
          ),
        ),
      ),
    )
  ]
]

at-sizes_of :
    {A : Type 0} (size_of : A → ℕ) (k : ℕ) (xs : List A)
    → at same_number k (sizes_of size_of xs) ≡ at size_of k xs
unfolding at sizes_of
at-sizes_of size_of k [] = refl
at-sizes_of size_of zero (x ∷ xs) = refl
at-sizes_of size_of (suc k) (x ∷ xs) = at-sizes_of size_of k xs

length-sizes_of :
    {A : Type 0} (size_of : A → ℕ) (xs : List A) → length (sizes_of size_of xs) ≡ length xs
unfolding sizes_of
length-sizes_of size_of [] = refl
length-sizes_of size_of (x ∷ xs) = ap suc (length-sizes_of size_of xs)

first_largest-best :
    (ns : List ℕ)
    → 0 < length ns
    → (first_largest ns < length ns)
      × ((k : ℕ) → at same_number k ns ≤ at same_number (first_largest ns) ns)
unfolding first_largest at
first_largest-best [] h = absurd (omega arith)
first_largest-best (n ∷ ns) h = elim (largest-best ns 1 0 n) [
  | inl (e, hs) ↦ rw (e) (omega arith, at_cons_le same_number n n ns (omega arith) hs)
  | inr (m, (e, (hm, (above, hs)))) ↦ rw (e ∙ one_more m) (
    omega (arith, hm),
    at_cons_le same_number (at same_number m ns) n ns (omega (arith, above)) hs,
  )
]
  where
    one_more : (m : ℕ) → 1 + m ≡ suc m
    one_more m = omega arith

-- The index of the first largest entry is in range, and no entry is larger than that one.
pub largest-entry :
    {A : Type 0} (size_of : A → ℕ) (xs : List A)
    → 0 < length xs
    → (first_largest (sizes_of size_of xs) < length xs)
      × ((k : ℕ) → at size_of k xs ≤ at size_of (first_largest (sizes_of size_of xs)) xs)
largest-entry size_of xs h =
    let size = length-sizes_of size_of xs in
    let (inside, best) = first_largest-best (sizes_of size_of xs) (omega (arith, size)) in
    (
      omega (arith, inside, size),
      λ k. omega (
        arith,
        best k,
        at-sizes_of size_of k xs,
        at-sizes_of size_of (first_largest (sizes_of size_of xs)) xs,
      ),
    )
