-- ===== src/PacketQueue/Heap/Order.antt =====
-- The order that container/heap keeps, and the orders in which one entry may be out of place.
use ironwood.Base.{ℕ, ◌-◌, ◌/◌, ◌≤◌, ◌<◌, ◌≡◌, ◌≢◌, List, length, arith, suc, zero}
use ironwood.PacketQueue.Heap.Entries.{at, Below}

abbrev pub parent : ℕ → ℕ
parent k = (k - 1) / 2

module _ {A : Type 0} (time : A → ℕ) where
  -- None of the first `n` entries has an earlier time than its parent.
  abbrev pub IsHeap : ℕ → List A → Type 0
  IsHeap n xs = (k : ℕ) → 0 < k → k < n → at time (parent k) xs ≤ at time k xs

  -- All of that, but for the parent of `i`.
  abbrev pub IsHeapBut : ℕ → ℕ → List A → Type 0
  IsHeapBut i n xs = (k : ℕ) → 0 < k → k < n → k ≢ i → at time (parent k) xs ≤ at time k xs

  -- All of that, but for the parent and the children of `i`.
  abbrev pub IsLoose : ℕ → ℕ → List A → Type 0
  IsLoose i n xs =
      (k : ℕ) → 0 < k → k < n → k ≢ i → parent k ≢ i → at time (parent k) xs ≤ at time k xs

  -- The children of `i` are in order with its parent.
  abbrev pub IsBridged : ℕ → ℕ → List A → Type 0
  IsBridged i n xs =
      (k : ℕ) → 0 < k → k < n → 0 < i → parent k ≡ i → at time (parent i) xs ≤ at time k xs

  -- A slice that is a heap of good entries.
  pub record GoodHeap (IsGood : A → Type 0) (xs : List A) : Type 0 where
    pub good : Below IsGood (length xs) xs
    pub heap : IsHeap (length xs) xs

  -- The first entry has the earliest time.
  pub root_least :
      (fuel n k : ℕ) (xs : List A) → k ≤ fuel → k < n → IsHeap n xs → at time 0 xs ≤ at time k xs
  root_least fuel n zero xs enough hk h = omega arith
  root_least zero n (suc k) xs enough hk h = absurd (omega arith)
  root_least (suc fuel) n (suc k) xs enough hk h = omega (
    arith,
    h (suc k) (omega arith) hk,
    root_least fuel n (parent (suc k)) xs (omega arith) (omega arith) h,
  )
