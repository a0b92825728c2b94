-- ===== src/Wire/BigEndian.antt =====
-- binary.BigEndian.PutUint64 and Uint64.
use ironwood.Base.{
  ℕ, zero, suc, ◌+◌, ◌*◌, ◌/◌, ◌%◌, ◌^◌, ◌<◌, ◌≡◌, refl, ◌∙◌, [], ◌∷◌, ◌++◌, length, arith,
  length-append,
}
use ironwood.Wire.{Bytes, IsU64}

-- The last `k` bytes of a number, the highest first.
put_bytes : ℕ → ℕ → Bytes
put_bytes zero u = []
put_bytes (suc k) u = put_bytes k (u / 256) ++ (u % 256 ∷ [])

pub put_uint64 : ℕ → Bytes
unfolding put_bytes
put_uint64 u = put_bytes 8 u

read_bytes : ℕ → Bytes → ℕ
read_bytes acc [] = acc
read_bytes acc (b ∷ bs) = read_bytes (acc * 256 + b) bs

pub uint64 : Bytes → ℕ
unfolding read_bytes
uint64 bs = read_bytes 0 bs

length-put_bytes : (k u : ℕ) → length (put_bytes k u) ≡ k
unfolding put_bytes
length-put_bytes zero u = refl
length-put_bytes (suc k) u =
    omega
      (arith, length-append (put_bytes k (u / 256)) (u % 256 ∷ []), length-put_bytes k (u / 256))

pub length-put_uint64 : (u : ℕ) → length (put_uint64 u) ≡ 8
unfolding put_uint64
length-put_uint64 u = length-put_bytes 8 u

read_bytes-append :
    (acc : ℕ) (xs : Bytes) (b : ℕ) → read_bytes acc (xs ++ (b ∷ [])) ≡ read_bytes acc xs * 256 + b
unfolding read_bytes
read_bytes-append acc [] b = refl
read_bytes-append acc (x ∷ xs) b = read_bytes-append (acc * 256 + x) xs b

pow_256 : (k : ℕ) → 256 ^ suc k ≡ 256 * 256 ^ k
pow_256 k = omega arith

read-put_bytes : (k u : ℕ) → u < 256 ^ k → read_bytes 0 (put_bytes k u) ≡ u
unfolding put_bytes
read-put_bytes zero u h = unfold read_bytes in omega (arith, h)
read-put_bytes (suc k) u h =
    read_bytes-append 0 (put_bytes k (u / 256)) (u % 256)
    ∙ omega (arith, read-put_bytes k (u / 256) (omega (arith, pow_256 k)))

-- A uint64 is read back from the eight bytes that it was written to.
pub uint64-put_uint64 : (u : ℕ) → IsU64 u → uint64 (put_uint64 u) ≡ u
unfolding uint64 put_uint64
uint64-put_uint64 u h = read-put_bytes 8 u (omega arith)
