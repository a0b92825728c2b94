-- ===== src/Bloom/Flags.antt =====
-- Setting a flag sets that flag and no other.
use ironwood.Base.{
  ℕ, zero, suc, ◌/◌, ◌%◌, ◌^◌, ◌<◌, ◌≡◌, refl, sym, ap, ◌∙◌, Bool, true, false, not, ◌||◌, [], ◌∷◌,
  ltb, ◌==◌, if◌then◌else◌, length, All, arith, Bool-cases, ltb→lt, inl, inr,
}
use Prim.Native.Nat.{bit_and, bit_or}
use ironwood.Wire.{Bytes}
use ironwood.Bloom.{mask, set_flag_at, set_flag, byte_at, flag}

abbrev pub IsByte : ℕ → Type 0
IsByte b = b < 256

-- `p i` for each `i` below the bound.
unfoldable pub every : ℕ → (ℕ → Bool) → Bool
every zero p = true
every (suc n) p = let rest = every n p in if p n then rest else false

pub every_below : (n : ℕ) (p : ℕ → Bool) (i : ℕ) → every n p ≡ true → i < n → p i ≡ true
unfolding every
every_below zero p i h lt = absurd (omega arith)
every_below (suc n) p i h lt = elim (Bool-cases (p n)) [
  | inl e ↦ ground (arith, e, every_below n p i)
  | inr e ↦ absurd (ground (arith, e))
]

same_test : Bool → Bool → Bool
same_test true b = b
same_test false b = not b

same_test_lem : (a b : Bool) → same_test a b ≡ true → a ≡ b
unfolding same_test
same_test_lem a b h = ground arith

abbrev bit : ℕ → ℕ
bit i = 0x80 / 2 ^ i

abbrev is_set : ℕ → ℕ → Bool
is_set b i = not (bit_and b (bit i) == 0)

-- Over all bytes and all pairs of bits, by evaluation.
set_bit_table :
    every 8 (λ i.
      every 8
        (λ j. every 256 (λ b. same_test (is_set (bit_or b (bit i)) j) (i == j || is_set b j))))
    ≡ true
unfolding every same_test
set_bit_table = refl

byte_table : every 8 (λ i. every 256 (λ b. ltb (bit_or b (bit i)) 256)) ≡ true
unfolding every
byte_table = refl

set_bit :
    (b i j : ℕ) → b < 256 → i < 8 → j < 8 → is_set (bit_or b (bit i)) j ≡ (i == j || is_set b j)
set_bit b i j hb hi hj =
    same_test_lem _ _
      (every_below 256 _ b (every_below 8 _ j (every_below 8 _ i set_bit_table hi) hj) hb)

set_byte : (b i : ℕ) → b < 256 → i < 8 → bit_or b (bit i) < 256
set_byte b i hb hi = ltb→lt _ _ (every_below 256 _ b (every_below 8 _ i byte_table hi) hb)

byte_at-set_flag_at :
    (flags : Bytes) (n k m : ℕ)
    → n < length flags
    → byte_at (set_flag_at flags n m) k
      ≡ (if n == k then bit_or (byte_at flags k) m else byte_at flags k)
unfolding byte_at set_flag_at
byte_at-set_flag_at [] n k m h = absurd (omega arith)
byte_at-set_flag_at (b ∷ flags) zero zero m h = refl
byte_at-set_flag_at (b ∷ flags) zero (suc k) m h = ground arith
byte_at-set_flag_at (b ∷ flags) (suc n) zero m h = ground arith
byte_at-set_flag_at (b ∷ flags) (suc n) (suc k) m h =
    ground (arith, byte_at-set_flag_at flags n k m)

byte_at-IsByte : (flags : Bytes) (n : ℕ) → All IsByte flags → byte_at flags n < 256
unfolding byte_at
byte_at-IsByte [] n h = omega arith
byte_at-IsByte (b ∷ flags) zero h = h.0
byte_at-IsByte (b ∷ flags) (suc n) h = byte_at-IsByte flags n h.1

-- Sixteen bytes.
pub record IsFlags (flags : Bytes) : Type 0 where
  pub sized : length flags ≡ 16
  pub bytes : All IsByte flags

length-set_flag_at : (flags : Bytes) (n m : ℕ) → length (set_flag_at flags n m) ≡ length flags
unfolding set_flag_at
length-set_flag_at [] n m = refl
length-set_flag_at (b ∷ flags) zero m = refl
length-set_flag_at (b ∷ flags) (suc n) m = ap suc (length-set_flag_at flags n m)

set_flag_at-IsByte :
    (flags : Bytes) (n i : ℕ) → i < 8 → All IsByte flags → All IsByte (set_flag_at flags n (bit i))
unfolding set_flag_at
set_flag_at-IsByte [] n i hi h = tt
set_flag_at-IsByte (b ∷ flags) zero i hi h = (set_byte b i h.0 hi, h.1)
set_flag_at-IsByte (b ∷ flags) (suc n) i hi h = (h.0, set_flag_at-IsByte flags n i hi h.1)

pub set_flag-IsFlags : (flags : Bytes) (idx : ℕ) → IsFlags flags → IsFlags (set_flag flags idx)
unfolding set_flag
set_flag-IsFlags flags idx h = record {
  sized = length-set_flag_at flags (idx / 8) (mask idx) ∙ h.sized;
  bytes = set_flag_at-IsByte flags (idx / 8) (idx % 8) (omega arith) h.bytes;
}

-- Of the 128 flags, exactly the one that is set changes.
pub flag-set_flag :
    (flags : Bytes) (idx j : ℕ)
    → IsFlags flags
    → idx < 128
    → flag (set_flag flags idx) j ≡ (idx == j || flag flags j)
unfolding flag set_flag
flag-set_flag flags idx j h lt = elim (Bool-cases (idx / 8 == j / 8)) [
  | inl same ↦
      rw (byte_at-set_flag_at flags (idx / 8) (j / 8) (mask idx) (omega (arith, h.sized)), same)
        (set_bit (byte_at flags (j / 8)) (idx % 8) (j % 8) (byte_at-IsByte flags (j / 8) h.bytes)
            (omega arith) (omega arith)
          ∙ ap (λ (b : Bool). b || flag flags j) (same_place idx j same))
  | inr other ↦
      rw (byte_at-set_flag_at flags (idx / 8) (j / 8) (mask idx) (omega (arith, h.sized)), other)
        (ap (λ (b : Bool). b || flag flags j) (sym (apart idx j other)))
]
  where
    same_place : (a b : ℕ) → (a / 8 == b / 8) ≡ true → (a % 8 == b % 8) ≡ (a == b)
    same_place a b e = ground (arith, e)

    apart : (a b : ℕ) → (a / 8 == b / 8) ≡ false → (a == b) ≡ false
    apart a b e = ground (arith, e)
