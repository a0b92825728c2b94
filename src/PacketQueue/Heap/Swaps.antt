-- ===== src/PacketQueue/Heap/Swaps.antt =====
-- What the swaps of container/heap's loops leave as it was.
use ironwood.Base.{
  ℕ, ◌≤◌, ◌<◌, ◌≡◌, refl, sym, ◌∙◌, subst, inl, inr, List, ◌==◌, if◌then◌else◌, length, arith,
  Bool-cases,
}
use ironwood.Types.{ok}
use ironwood.PacketQueue.Heap.{nth, set_nth, swap}
use ironwood.PacketQueue.Heap.Entries.{
  sum, at, nth-lt, at-nth, length-set_nth, nth-set_nth_same, nth-set_nth_other, at-set_nth,
  sum-set_nth, Below,
}

module _ {A : Type 0} where
  abbrev pub swapped : ℕ → ℕ → A → A → List A → List A
  swapped i j x y xs = set_nth j x (set_nth i y xs)

  pub swap-ok :
      (i j : ℕ) (x y : A) (xs : List A)
      → nth i xs ≡ ok x
      → nth j xs ≡ ok y
      → swap i j xs ≡ ok (swapped i j x y xs)
  unfolding swap
  swap-ok i j x y xs e f = rw (e, f) refl

  pub length-swapped : (i j : ℕ) (x y : A) (xs : List A) → length (swapped i j x y xs) ≡ length xs
  length-swapped i j x y xs = length-set_nth j x (set_nth i y xs) ∙ length-set_nth i y xs

  pub at-swapped :
      (f : A → ℕ) (i j k : ℕ) (x y : A) (xs : List A)
      → nth i xs ≡ ok x
      → nth j xs ≡ ok y
      → at f k (swapped i j x y xs)
        ≡ (if k == j then at f i xs else if k == i then at f j xs else at f k xs)
  at-swapped f i j k x y xs e g = ground (
    arith,
    at-set_nth f j k x (set_nth i y xs) (omega (arith, length-set_nth i y xs, nth-lt j xs y g)),
    at-set_nth f i k y xs (nth-lt i xs x e),
    at-nth f i xs x e,
    at-nth f j xs y g,
  )

  pub nth-swapped :
      (i j k : ℕ) (x y : A) (xs : List A)
      → nth i xs ≡ ok x
      → nth j xs ≡ ok y
      → nth k (swapped i j x y xs)
        ≡ (if k == j then nth i xs else if k == i then nth j xs else nth k xs)
  nth-swapped i j k x y xs e g = elim (Bool-cases (k == j)) [
    | inl here ↦
        let same : j ≡ k = ground arith in
        rw (here) (
          subst (λ (m : ℕ). nth m (swapped i j x y xs) ≡ nth i xs) same
            (nth-set_nth_same j x (set_nth i y xs)
                (omega (arith, length-set_nth i y xs, nth-lt j xs y g))
              ∙ sym e))
    | inr there ↦ rw (there) (
        nth-set_nth_other j k x (set_nth i y xs) (ground (arith, there))
        ∙ elim (Bool-cases (k == i)) [
          | inl here ↦
              let same : i ≡ k = ground arith in
              rw (here) (
                subst (λ (m : ℕ). nth m (set_nth i y xs) ≡ nth j xs) same
                  (nth-set_nth_same i y xs (nth-lt i xs x e) ∙ sym g))
          | inr other ↦ rw (other) (nth-set_nth_other i k y xs (ground (arith, other)))
        ])
  ]

  pub sum-swapped :
      (f : A → ℕ) (i j : ℕ) (x y : A) (xs : List A)
      → nth i xs ≡ ok x
      → nth j xs ≡ ok y
      → sum f (swapped i j x y xs) ≡ sum f xs
  sum-swapped f i j x y xs e g = elim (Bool-cases (j == i)) [
    | inl same ↦ omega (
      arith,
      sum-set_nth f j x y (set_nth i y xs) (
          subst (λ (m : ℕ). nth m (set_nth i y xs) ≡ ok y) (ground (arith, same))
            (nth-set_nth_same i y xs (nth-lt i xs x e))),
      sum-set_nth f i y x xs e,
    )
    | inr other ↦ omega (
      arith,
      sum-set_nth f j x y (set_nth i y xs) (nth-set_nth_other i j y xs (ground (arith, other)) ∙ g),
      sum-set_nth f i y x xs e,
    )
  ]

  -- Swaps of entries below `n`, one after another.
  pub data Swaps (n : ℕ) : List A → List A → Type 0 where
    done : {xs : List A} → Swaps n xs xs
    step :
        {xs zs : List A} (i j : ℕ) (x y : A)
        → i < n
        → j < n
        → nth i xs ≡ ok x
        → nth j xs ≡ ok y
        → Swaps n (swapped i j x y xs) zs
        → Swaps n xs zs

  pub length-Swaps : {n : ℕ} {xs ys : List A} → Swaps n xs ys → length ys ≡ length xs
  length-Swaps done = refl
  length-Swaps (step {xs} i j x y hi hj e g s) = length-Swaps s ∙ length-swapped i j x y xs

  pub sum-Swaps : {n : ℕ} {xs ys : List A} (f : A → ℕ) → Swaps n xs ys → sum f ys ≡ sum f xs
  sum-Swaps f done = refl
  sum-Swaps f (step {xs} i j x y hi hj e g s) = sum-Swaps f s ∙ sum-swapped f i j x y xs e g

  pub nth-Swaps : {n : ℕ} {xs ys : List A} (k : ℕ) → n ≤ k → Swaps n xs ys → nth k ys ≡ nth k xs
  nth-Swaps k above done = refl
  nth-Swaps k above (step {xs} i j x y hi hj e g s) =
      nth-Swaps k above s ∙ ground (arith, nth-swapped i j k x y xs e g)

  pub Below-swapped :
      (P : A → Type 0) (n i j : ℕ) (x y : A) (xs : List A)
      → i < n
      → j < n
      → nth i xs ≡ ok x
      → nth j xs ≡ ok y
      → Below P n xs
      → Below P n (swapped i j x y xs)
  Below-swapped P n i j x y xs hi hj e g h k z hk found =
      let moved = nth-swapped i j k x y xs e g in
      elim (Bool-cases (k == j)) [
        | inl at_j ↦
            let from : nth k (swapped i j x y xs) ≡ nth i xs = ground (arith, moved) in
            h i z hi (sym from ∙ found)
        | inr not_j ↦ elim (Bool-cases (k == i)) [
          | inl at_i ↦
              let from : nth k (swapped i j x y xs) ≡ nth j xs = ground (arith, moved) in
              h j z hj (sym from ∙ found)
          | inr not_i ↦
              let from : nth k (swapped i j x y xs) ≡ nth k xs = ground (arith, moved) in
              h k z hk (sym from ∙ found)
        ]
      ]

  pub Below-Swaps :
      (P : A → Type 0) {n : ℕ} {xs ys : List A} → Swaps n xs ys → Below P n xs → Below P n ys
  Below-Swaps P done h = h
  Below-Swaps P {n} (step {xs} i j x y hi hj e g s) h =
      Below-Swaps P s (Below-swapped P n i j x y xs hi hj e g h)
