-- ===== src/PacketQueue/Heap.antt =====
-- The operations of Go's container/heap that network/packetqueue.go calls, on a slice.
pub mod Entries
pub mod Swaps
pub mod Order
pub mod Down
pub mod Up
pub mod Remove
pub mod Replace
pub mod Append
use ironwood.Base.{
  ℕ, zero, suc, ◌+◌, ◌*◌, ◌-◌, ◌/◌, Bool, true, false, List, [], ◌∷◌, ltb, leb, ◌==◌, if◌then◌else◌,
  length,
}
use ironwood.Types.{Result, ok, panic, ◌>>=◌}

module _ {A : Type 0} where
  -- `xs[i]`
  unfoldable pub nth : ℕ → List A → Result A
  nth i [] = panic
  nth zero (x ∷ xs) = ok x
  nth (suc i) (x ∷ xs) = nth i xs

  -- `xs[i] = v`, after a read of `xs[i]`
  unfoldable pub set_nth : ℕ → A → List A → List A
  set_nth i v [] = []
  set_nth zero v (x ∷ xs) = v ∷ xs
  set_nth (suc i) v (x ∷ xs) = x ∷ set_nth i v xs

  unfoldable pub swap : ℕ → ℕ → List A → Result (List A)
  swap i j xs = do x ← nth i xs; y ← nth j xs; ok (set_nth j x (set_nth i y xs))

  -- The last entry, and those before it.
  unfoldable pub pop_last : List A → Result (List A × A)
  pop_last [] = panic
  pop_last (x ∷ []) = ok ([], x)
  pop_last (x ∷ y ∷ xs) = do (before, last) ← pop_last (y ∷ xs); ok (x ∷ before, last)

module _ {A : Type 0} (less : A → A → Result Bool) where
  pub less_at : ℕ → ℕ → List A → Result Bool
  less_at i j xs = do x ← nth i xs; y ← nth j xs; less x y

  -- The smaller one of the children of `i`, of which the left one is below `n`.
  pub child : ℕ → ℕ → List A → Result ℕ
  child i n xs = elim (ltb (2 * i + 2) n) [
    | false ↦ ok (2 * i + 1)
    | true ↦ do
      right ← less_at (2 * i + 2) (2 * i + 1) xs
      ok (if right then 2 * i + 2 else 2 * i + 1)
  ]

  -- The loop of `down`, with the index it stops at. Each round raises `i`, so `n` rounds are
  -- enough.
  pub down_loop : ℕ → ℕ → ℕ → List A → Result (List A × ℕ)
  down_loop zero i n xs = ok (xs, i)
  down_loop (suc fuel) i n xs = elim (leb n (2 * i + 1)) [
    | true ↦ ok (xs, i)
    | false ↦ do
      j ← child i n xs
      lower ← less_at j i xs
      elim lower [ false ↦ ok (xs, i) | true ↦ do ys ← swap i j xs; down_loop fuel j n ys ]
  ]

  -- Each round lowers `j`, so `j` rounds are enough.
  pub up_loop : ℕ → ℕ → List A → Result (List A)
  up_loop zero j xs = ok xs
  up_loop (suc fuel) j xs =
      let i = (j - 1) / 2 in
      elim (i == j) [
        | true ↦ ok xs
        | false ↦ do
          lower ← less_at j i xs
          elim lower [ false ↦ ok xs | true ↦ do ys ← swap i j xs; up_loop fuel i ys ]
      ]

  unfoldable pub fix_below : ℕ → ℕ → List A → Result (List A)
  fix_below i n xs = do
    (ys, last) ← down_loop n i n xs
    if ltb i last then ok ys else up_loop i i ys

  unfoldable pub fix : ℕ → List A → Result (List A)
  fix i xs = fix_below i (length xs) xs

  unfoldable pub remove : ℕ → List A → Result (List A × A)
  remove i xs =
      let n = length xs - 1 in
      elim (n == i) [
        | true ↦ pop_last xs
        | false ↦ do ys ← swap i n xs; zs ← fix_below i n ys; pop_last zs
      ]
