-- ===== src/PacketQueue/Heap/Entries.antt =====
-- Reads and writes of a slice's entries by index, as container/heap's callers make them.
use ironwood.Base.{
  ℕ, zero, suc, ◌+◌, ◌≤◌, ◌<◌, ◌≡◌, ◌≢◌, refl, ap, List, [], ◌∷◌, ◌++◌, ◌==◌, if◌then◌else◌, length,
  arith,
}
use ironwood.Types.{Result, ok}
use ironwood.PacketQueue.Heap.{nth, set_nth, pop_last}

module _ {A : Type 0} where
  -- What a function gives, summed over the entries.
  unfoldable pub sum : (A → ℕ) → List A → ℕ
  sum f [] = 0
  sum f (x ∷ xs) = f x + sum f xs

  -- What a function gives for the entry at an index, with zero out of range.
  unfoldable pub at : (A → ℕ) → ℕ → List A → ℕ
  at f i [] = 0
  at f zero (x ∷ xs) = f x
  at f (suc i) (x ∷ xs) = at f i xs

  pub nth_in : (i : ℕ) (xs : List A) → i < length xs → (x : A) × (nth i xs ≡ ok x)
  unfolding nth
  nth_in i [] h = absurd (omega arith)
  nth_in zero (x ∷ xs) h = (x, refl)
  nth_in (suc i) (x ∷ xs) h = nth_in i xs (omega arith)

  pub nth-lt : (i : ℕ) (xs : List A) (x : A) → nth i xs ≡ ok x → i < length xs
  unfolding nth
  nth-lt i [] x e = absurd (cc (e))
  nth-lt zero (y ∷ xs) x e = omega arith
  nth-lt (suc i) (y ∷ xs) x e = omega (arith, nth-lt i xs x e)

  pub ok-equal : {x y : A} → Result.ok x ≡ ok y → x ≡ y
  ok-equal e = cc (e)

  pub at-nth : (f : A → ℕ) (i : ℕ) (xs : List A) (x : A) → nth i xs ≡ ok x → at f i xs ≡ f x
  unfolding nth at
  at-nth f i [] x e = absurd (cc (e))
  at-nth f zero (y ∷ xs) x e = ap f (ok-equal e)
  at-nth f (suc i) (y ∷ xs) x e = at-nth f i xs x e

  pub length-set_nth : (i : ℕ) (v : A) (xs : List A) → length (set_nth i v xs) ≡ length xs
  unfolding set_nth
  length-set_nth i v [] = refl
  length-set_nth zero v (x ∷ xs) = refl
  length-set_nth (suc i) v (x ∷ xs) = ap suc (length-set_nth i v xs)

  pub nth-set_nth_same :
      (i : ℕ) (v : A) (xs : List A) → i < length xs → nth i (set_nth i v xs) ≡ ok v
  unfolding nth set_nth
  nth-set_nth_same i v [] h = absurd (omega arith)
  nth-set_nth_same zero v (x ∷ xs) h = refl
  nth-set_nth_same (suc i) v (x ∷ xs) h = nth-set_nth_same i v xs (omega arith)

  pub nth-set_nth_other :
      (i k : ℕ) (v : A) (xs : List A) → k ≢ i → nth k (set_nth i v xs) ≡ nth k xs
  unfolding nth set_nth
  nth-set_nth_other i k v [] h = refl
  nth-set_nth_other zero zero v (x ∷ xs) h = absurd (h refl)
  nth-set_nth_other zero (suc k) v (x ∷ xs) h = refl
  nth-set_nth_other (suc i) zero v (x ∷ xs) h = refl
  nth-set_nth_other (suc i) (suc k) v (x ∷ xs) h = nth-set_nth_other i k v xs (omega arith)

  pub at-set_nth :
      (f : A → ℕ) (i k : ℕ) (v : A) (xs : List A)
      → i < length xs
      → at f k (set_nth i v xs) ≡ (if k == i then f v else at f k xs)
  unfolding at set_nth
  at-set_nth f i k v [] h = absurd (omega arith)
  at-set_nth f zero zero v (x ∷ xs) h = ground arith
  at-set_nth f zero (suc k) v (x ∷ xs) h = ground arith
  at-set_nth f (suc i) zero v (x ∷ xs) h = ground arith
  at-set_nth f (suc i) (suc k) v (x ∷ xs) h = ground (arith, at-set_nth f i k v xs (omega arith))

  pub sum-set_nth :
      (f : A → ℕ) (i : ℕ) (v x : A) (xs : List A)
      → nth i xs ≡ ok x
      → sum f (set_nth i v xs) + f x ≡ sum f xs + f v
  unfolding sum set_nth nth
  sum-set_nth f i v x [] e = absurd (cc (e))
  sum-set_nth f zero v x (y ∷ xs) e = omega (arith, ap f (ok-equal e))
  sum-set_nth f (suc i) v x (y ∷ xs) e = omega (arith, sum-set_nth f i v x xs e)

  pub sum-append : (f : A → ℕ) (xs ys : List A) → sum f (xs ++ ys) ≡ sum f xs + sum f ys
  unfolding sum
  sum-append f [] ys = omega arith
  sum-append f (x ∷ xs) ys = omega (arith, sum-append f xs ys)

  pub at_le :
      (f : A → ℕ) (t k : ℕ) (xs : List A)
      → ((i : ℕ) (x : A) → nth i xs ≡ ok x → f x ≤ t)
      → at f k xs ≤ t
  unfolding at nth
  at_le f t k [] h = omega arith
  at_le f t zero (x ∷ xs) h = h 0 x refl
  at_le f t (suc k) (x ∷ xs) h = at_le f t k xs (λ i y e. h (suc i) y e)

  pub at-append_only :
      (f : A → ℕ) (xs : List A) (x : A) → length xs ≡ 0 → at f 0 (xs ++ (x ∷ [])) ≡ f x
  unfolding at
  at-append_only f [] x e = refl
  at-append_only f (y ∷ xs) x e = absurd (omega (arith, e))

  pub sum_le : (f g : A → ℕ) (xs : List A) → ((x : A) → f x ≤ g x) → sum f xs ≤ sum g xs
  unfolding sum
  sum_le f g [] h = omega arith
  sum_le f g (x ∷ xs) h = omega (arith, h x, sum_le f g xs h)

  pub sum-none : (f : A → ℕ) (xs : List A) → length xs ≡ 0 → sum f xs ≡ 0
  unfolding sum
  sum-none f [] e = refl
  sum-none f (x ∷ xs) e = absurd (omega (arith, e))

  pub sum-one : (f : A → ℕ) (x : A) → sum f (x ∷ []) ≡ f x
  unfolding sum
  sum-one f x = omega arith

  pub sum-nth : (f : A → ℕ) (i : ℕ) (x : A) (xs : List A) → nth i xs ≡ ok x → f x ≤ sum f xs
  unfolding sum nth
  sum-nth f i x [] e = absurd (cc (e))
  sum-nth f zero x (y ∷ xs) e = omega (arith, ap f (ok-equal e))
  sum-nth f (suc i) x (y ∷ xs) e = omega (arith, sum-nth f i x xs e)

  -- The first `n` entries have a property.
  abbrev pub Below : (A → Type 0) → ℕ → List A → Type 0
  Below P n xs = (k : ℕ) (x : A) → k < n → nth k xs ≡ ok x → P x

  pub pop_last-append : (xs : List A) (x : A) → pop_last (xs ++ (x ∷ [])) ≡ ok (xs, x)
  unfolding pop_last
  pop_last-append [] x = refl
  pop_last-append (y ∷ []) x = refl
  pop_last-append (y ∷ z ∷ xs) x = rw (pop_last-append (z ∷ xs) x, pop_last) refl

  -- A slice that is not empty, cut before its last entry.
  pub last_of :
      (n : ℕ) (xs : List A) (x : A)
      → length xs ≡ suc n
      → nth n xs ≡ ok x
      → (ys : List A) × ((xs ≡ ys ++ (x ∷ [])) × (length ys ≡ n))
  unfolding nth
  last_of n [] x e at_n = absurd (omega arith)
  last_of zero (y ∷ []) x e at_n = ([], (ap (λ (z : A). z ∷ []) (ok-equal at_n), refl))
  last_of zero (y ∷ z ∷ xs) x e at_n = absurd (omega arith)
  last_of (suc n) (y ∷ xs) x e at_n =
      let (ys, (cut, size)) = last_of n xs x (omega arith) at_n in
      (y ∷ ys, (ap (◌∷◌ y) cut, ap suc size))

  pub nth-append : (k : ℕ) (xs ys : List A) → k < length xs → nth k (xs ++ ys) ≡ nth k xs
  unfolding nth
  nth-append k [] ys h = absurd (omega arith)
  nth-append zero (x ∷ xs) ys h = refl
  nth-append (suc k) (x ∷ xs) ys h = nth-append k xs ys (omega arith)

  pub nth-append_last : (xs : List A) (x : A) → nth (length xs) (xs ++ (x ∷ [])) ≡ ok x
  unfolding nth
  nth-append_last [] x = refl
  nth-append_last (y ∷ xs) x = nth-append_last xs x

  pub at-append :
      (f : A → ℕ) (k : ℕ) (xs ys : List A) → k < length xs → at f k (xs ++ ys) ≡ at f k xs
  unfolding at
  at-append f k [] ys h = absurd (omega arith)
  at-append f zero (x ∷ xs) ys h = refl
  at-append f (suc k) (x ∷ xs) ys h = at-append f k xs ys (omega arith)
