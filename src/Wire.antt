-- ===== src/Wire.antt =====
-- network/wire.go: the wire format's integers, byte strings and paths. A byte string is a list of
-- numbers below 256. A `wireChop…` function that Go writes through two pointers returns the value
-- and the bytes that follow; `none` is its answer false, which leaves both as they were.
pub mod Uvarint
pub mod Paths
pub mod Encoded
pub mod BigEndian
use ironwood.Base.{
  ℕ, zero, suc, ◌+◌, ◌-◌, ◌*◌, ◌/◌, ◌%◌, ◌^◌, ◌<◌, ◌&&◌, true, false, List, [], ◌∷◌, ◌++◌, Option,
  none, some, ltb, leb, ◌==◌, if◌then◌else◌, length, take, drop,
}
use ironwood.Types.{Result, ok, panic}

abbrev pub Bytes : Type 0
Bytes = List ℕ

abbrev pub IsU64 : ℕ → Type 0
IsU64 u = u < 2 ^ 64

-- `^uint64(0)`
abbrev pub max_u64 : ℕ
max_u64 = 2 ^ 64 - 1

-- binary.AppendUvarint: seven bits a byte, lowest first, `byte(x)|0x80` on all but the last. A
-- uint64 takes ten bytes at most, so the loop shifts nine times at most.
unfoldable pub uvarint_bytes : ℕ → ℕ → Bytes
uvarint_bytes zero x = (x % 256) ∷ []
uvarint_bytes (suc k) x =
    let rest = uvarint_bytes k (x / 128) in
    if leb 128 x then (x % 128 + 128) ∷ rest else (x % 256) ∷ []

pub wire_append_uint : Bytes → ℕ → Bytes
unfolding uvarint_bytes
wire_append_uint out u = out ++ uvarint_bytes 9 u

-- The bytes that binary.PutUvarint writes to an empty buffer.
unfoldable pub wire_size_uint : ℕ → ℕ
unfolding uvarint_bytes
wire_size_uint u = length (uvarint_bytes 9 u)

-- binary.Uvarint: `i` bytes are read and `x` holds their bits. The bits of `b` lie above those
-- of `x`, so `|` is a sum. The tenth byte may only carry the highest bit.
uvarint_loop : Bytes → ℕ → ℕ → Option (ℕ × Bytes)
uvarint_loop [] i x = none
uvarint_loop (b ∷ bs) i x =
    let more = uvarint_loop bs (i + 1) ((x + b % 128 * 2 ^ (7 * i) % 2 ^ 64) % 2 ^ 64) in
    if i == 10
    then none
    else if ltb b 128
    then (if i == 9 && ltb 1 b then none else some ((x + b * 2 ^ (7 * i) % 2 ^ 64) % 2 ^ 64, bs))
    else more

pub wire_chop_uint : Bytes → Option (ℕ × Bytes)
unfolding uvarint_loop
wire_chop_uint bs = uvarint_loop bs 0 0

-- `len(out)` bytes are copied to `out`.
pub wire_chop_slice : ℕ → Bytes → Option (Bytes × Bytes)
wire_chop_slice n bs = if ltb (length bs) n then none else some (take n bs, drop n bs)

pub wire_chop_bytes : Bytes → Bytes → ℕ → Option (Bytes × Bytes)
wire_chop_bytes out bs n = if ltb (length bs) n then none else some (out ++ take n bs, drop n bs)

abbrev pub PeerPort : Type 0
PeerPort = ℕ

unfoldable pub wire_size_path : List PeerPort → ℕ
wire_size_path [] = wire_size_uint 0
wire_size_path (p ∷ ps) = wire_size_uint p + wire_size_path ps

pub wire_append_path : Bytes → List PeerPort → Bytes
wire_append_path dest [] = wire_append_uint dest 0
wire_append_path dest (p ∷ ps) = wire_append_path (wire_append_uint dest p) ps

-- Each round takes a byte at least, so `length source` rounds and one more are enough.
decode_ports : ℕ → Bytes → List PeerPort → Option (List PeerPort × Bytes)
decode_ports zero bs path = none
decode_ports (suc fuel) bs path = elim (wire_chop_uint bs) [
  | none ↦ none
  | some (u, rest) ↦ elim (u == 0) [
    | true ↦ some (path, rest)
    | false ↦ decode_ports fuel rest (path ++ (u ∷ []))
  ]
]

-- The path, and the number of bytes that it takes; `none` for a negative length.
pub wire_decode_path : Bytes → Option (List PeerPort × ℕ)
unfolding decode_ports
wire_decode_path source = elim (decode_ports (suc (length source)) source []) [
  | none ↦ none
  | some (path, bs) ↦ some (path, length source - length bs)
]

pub wire_chop_path : List PeerPort → Bytes → Option (List PeerPort × Bytes)
wire_chop_path out bs = elim (wire_decode_path bs) [
  | none ↦ none
  | some (path, n) ↦ some (out ++ path, drop n bs)
]

-- `if end-start != obj.size() { panic(…) }`, with which every encode method ends.
pub checked_size : Bytes → Bytes → ℕ → Result Bytes
checked_size start out size = if length out - length start == size then ok out else panic
