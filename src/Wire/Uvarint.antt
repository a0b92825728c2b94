-- ===== src/Wire/Uvarint.antt =====
-- wireAppendUint and wireChopUint are inverse, and what wireChopUint does on any input.
use ironwood.Base.{
  ℕ, zero, suc, ◌+◌, ◌*◌, ◌/◌, ◌%◌, ◌^◌, ◌≤◌, ◌<◌, ◌≡◌, refl, ap, ◌∙◌, [], ◌∷◌, ◌++◌, some, none,
  length, arith,
}
use ironwood.Wire.{
  Bytes, IsU64, uvarint_bytes, wire_append_uint, wire_size_uint, uvarint_loop, wire_chop_uint,
}
use native.Mathlib.Numerals.{towards_suc}
use native.Mathlib.Nat.{div-add-mod}

-- The bytes of one integer, as the code appends them.
unfoldable pub uvarint : ℕ → Bytes
unfolding uvarint_bytes
uvarint u = uvarint_bytes 9 u

pub wire_append_uint-uvarint : (out : Bytes) (u : ℕ) → wire_append_uint out u ≡ out ++ uvarint u
unfolding wire_append_uint uvarint
wire_append_uint-uvarint out u = refl

pub length-uvarint : (u : ℕ) → length (uvarint u) ≡ wire_size_uint u
unfolding wire_size_uint uvarint
length-uvarint u = refl

pow_seven : (s : ℕ) → 2 ^ (s + 7) ≡ 128 * 2 ^ s
pow_seven s = simp towards_suc (omega arith)

shift_next : (i : ℕ) → 2 ^ (7 * (i + 1)) ≡ 128 * 2 ^ (7 * i)
shift_next i = ap (λ (t : ℕ). 2 ^ t) (omega arith) ∙ pow_seven (7 * i)

-- The lowest seven bits of `w` and the rest, both shifted by `i` groups.
split_group : (w i : ℕ) → w * 2 ^ (7 * i) ≡ w % 128 * 2 ^ (7 * i) + w / 128 * 2 ^ (7 * (i + 1))
split_group w i = omega (
  arith,
  ap (λ (t : ℕ). t * 2 ^ (7 * i)) (div-add-mod w 128),
  ap (λ (t : ℕ). w / 128 * t) (shift_next i),
)

loop-last :
    (b i x : ℕ) (rest : Bytes)
    → b < 128
    → i ≤ 9
    → (i ≡ 9 → b < 2)
    → x + b * 2 ^ (7 * i) < 2 ^ 64
    → uvarint_loop (b ∷ rest) i x ≡ some (x + b * 2 ^ (7 * i), rest)
unfolding uvarint_loop
loop-last b i x rest hb hi top fits = ground arith

loop-next :
    (g i x : ℕ) (rest : Bytes)
    → g < 128
    → i ≤ 9
    → x + g * 2 ^ (7 * i) < 2 ^ 64
    → uvarint_loop ((g + 128) ∷ rest) i x ≡ uvarint_loop rest (i + 1) (x + g * 2 ^ (7 * i))
unfolding uvarint_loop
loop-next g i x rest hg hi fits = ground arith

group_below : (k w : ℕ) → w < 2 ^ (7 * suc k + 1) → w / 128 < 2 ^ (7 * k + 1)
group_below k w h = omega (arith, pow_seven (7 * k + 1), ap (λ (t : ℕ). 2 ^ t) (sum_seven k))
  where
    sum_seven : (n : ℕ) → 7 * suc n + 1 ≡ 7 * n + 1 + 7
    sum_seven n = omega arith

loop-bytes :
    (k w i x : ℕ) (rest : Bytes)
    → i + k ≡ 9
    → w < 2 ^ (7 * k + 1)
    → x + w * 2 ^ (7 * i) < 2 ^ 64
    → uvarint_loop (uvarint_bytes k w ++ rest) i x ≡ some (x + w * 2 ^ (7 * i), rest)
unfolding uvarint_bytes
loop-bytes zero w i x rest hk hw fits = ground (arith, loop-last (w % 256) i x rest)
loop-bytes (suc k) w i x rest hk hw fits = ground (
  arith,
  loop-last (w % 256) i x rest,
  split_group w i,
  loop-next (w % 128) i x (uvarint_bytes k (w / 128) ++ rest),
  loop-bytes k (w / 128) (i + 1) (x + w % 128 * 2 ^ (7 * i)) rest (omega arith)
      (group_below k w hw),
)

pub wire_chop_uint-uvarint :
    (u : ℕ) (rest : Bytes) → IsU64 u → wire_chop_uint (uvarint u ++ rest) ≡ some (u, rest)
unfolding wire_chop_uint uvarint
wire_chop_uint-uvarint u rest h = ground (arith, loop-bytes 9 u 0 0 rest refl)

pub wire_chop_uint-nil : wire_chop_uint [] ≡ none
unfolding wire_chop_uint uvarint_loop
wire_chop_uint-nil = refl

bytes_bounds : (k w : ℕ) → (1 ≤ length (uvarint_bytes k w)) × (length (uvarint_bytes k w) ≤ k + 1)
unfolding uvarint_bytes
bytes_bounds zero w = omega arith
bytes_bounds (suc k) w = ground (arith, bytes_bounds k (w / 128))

pub wire_size_uint_bounds : (u : ℕ) → (1 ≤ wire_size_uint u) × (wire_size_uint u ≤ 10)
unfolding wire_size_uint
wire_size_uint_bounds u = bytes_bounds 9 u

-- wireAppendUint appends as many bytes as wireSizeUint says, one to ten, and from them
-- wireChopUint reads the uint64 back and leaves what follows.
uint_round_trip :
    (out : Bytes) (u : ℕ) (rest : Bytes)
    → IsU64 u
    → (bs : Bytes) × (wire_append_uint out u ≡ out ++ bs)
      × (length bs ≡ wire_size_uint u)
      × ((1 ≤ length bs) × (length bs ≤ 10))
      × (wire_chop_uint (bs ++ rest) ≡ some (u, rest))
uint_round_trip out u rest h = (
  uvarint u,
  wire_append_uint-uvarint out u,
  length-uvarint u,
  (
    omega (arith, wire_size_uint_bounds u, length-uvarint u),
    omega (arith, wire_size_uint_bounds u, length-uvarint u),
  ),
  wire_chop_uint-uvarint u rest h,
)

loop_takes :
    (bs : Bytes) (i x u : ℕ) (rest : Bytes)
    → i ≤ 10
    → x < 2 ^ 64
    → uvarint_loop bs i x ≡ some (u, rest)
    → IsU64 u × (length rest < length bs) × (length bs + i ≤ length rest + 10)
unfolding uvarint_loop
loop_takes [] i x u rest hi hx e = absurd (ground arith)
loop_takes (b ∷ bs) i x u rest hi hx e =
    ground (arith, loop_takes bs (i + 1) ((x + b % 128 * 2 ^ (7 * i) % 2 ^ 64) % 2 ^ 64) u rest)

-- A successful wireChopUint returns a uint64 and takes one to ten bytes.
pub wire_chop_uint_takes :
    (bs : Bytes) (u : ℕ) (rest : Bytes)
    → wire_chop_uint bs ≡ some (u, rest)
    → IsU64 u × (length rest < length bs) × (length bs ≤ length rest + 10)
unfolding wire_chop_uint
wire_chop_uint_takes bs u rest e = ground (arith, loop_takes bs 0 0 u rest)
