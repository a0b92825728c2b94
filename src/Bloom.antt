-- ===== src/Bloom.antt =====
-- network/bloomfilter.go: the wire format of a bloom filter. The filter is that of
-- github.com/bits-and-blooms/bloom, whose bit set is read and made as 128 uint64s.
pub mod Flags
pub mod Rounds
pub mod Codec
use ironwood.Base.{
  ℕ, zero, suc, ◌+◌, ◌-◌, ◌/◌, ◌%◌, ◌^◌, Bool, true, false, not, ◌&&◌, List, [], ◌∷◌, ◌++◌, Option,
  none, some, ltb, leb, ◌==◌, if◌then◌else◌, length, take, drop, replicate,
}
use Prim.Native.Nat.{bit_and, bit_or}
use ironwood.Types.{Result, ok, err, err_decode, or_fail, guard, ◌>>=◌, ◌>>◌}
use ironwood.Wire.{Bytes, wire_chop_slice, checked_size, max_u64}
use ironwood.Wire.BigEndian.{put_uint64, uint64}

abbrev pub bloom_filter_f : ℕ
bloom_filter_f = 16

abbrev pub bloom_filter_u : ℕ
bloom_filter_u = 128

-- The chunks of the backing array.
abbrev pub Words : Type 0
Words = List ℕ

-- `0x80 >> (idx % 8)`
pub mask : ℕ → ℕ
mask idx = 0x80 / 2 ^ (idx % 8)

-- `flags[idx/8] |= 0x80 >> (idx % 8)`, with the bytes before that byte still to pass.
pub set_flag_at : Bytes → ℕ → ℕ → Bytes
set_flag_at [] n m = []
set_flag_at (b ∷ bs) zero m = bit_or b m ∷ bs
set_flag_at (b ∷ bs) (suc n) m = b ∷ set_flag_at bs n m

pub set_flag : Bytes → ℕ → Bytes
unfolding set_flag_at mask
set_flag flags idx = set_flag_at flags (idx / 8) (mask idx)

pub byte_at : Bytes → ℕ → ℕ
byte_at [] n = 0
byte_at (b ∷ bs) zero = b
byte_at (b ∷ bs) (suc n) = byte_at bs n

-- `flags[idx/8] & (0x80 >> (idx % 8)) != 0`
pub flag : Bytes → ℕ → Bool
unfolding byte_at mask
flag flags idx = not (bit_and (byte_at flags (idx / 8)) (mask idx) == 0)

pub size_words : Words → ℕ
size_words [] = 0
size_words (u ∷ us) =
    let rest = size_words us in if not (u == 0) && not (u == max_u64) then 8 + rest else rest

pub size : Words → ℕ
unfolding size_words
size us = bloom_filter_f + bloom_filter_f + size_words us

-- The loop over the chunks: the flags of the zero chunks, those of the full ones, the others.
pub encode_loop : Words → ℕ → Bytes → Bytes → Words → Bytes × Bytes × Words
encode_loop [] idx flags0 flags1 keep = (flags0, flags1, keep)
encode_loop (u ∷ us) idx flags0 flags1 keep =
    let zeros = encode_loop us (idx + 1) (set_flag flags0 idx) flags1 keep in
    let ones = encode_loop us (idx + 1) flags0 (set_flag flags1 idx) keep in
    let kept = encode_loop us (idx + 1) flags0 flags1 (keep ++ (u ∷ [])) in
    if u == 0 then zeros else if u == max_u64 then ones else kept

pub put_words : Bytes → Words → Bytes
put_words out [] = out
put_words out (u ∷ us) = put_words (out ++ put_uint64 u) us

abbrev no_flags : Bytes
no_flags = replicate 16 0

pub encode : Words → Bytes → Result Bytes
encode us start =
    let (flags0, flags1, keep) = encode_loop us 0 no_flags no_flags [] in
    checked_size start (put_words (start ++ flags0 ++ flags1) keep) (size us)

-- The loop over the index, with the rounds left.
pub decode_loop : ℕ → ℕ → Bytes → Bytes → Words → Bytes → Result (Words × Bytes)
decode_loop zero idx flags0 flags1 us bs = ok (us, bs)
decode_loop (suc n) idx flags0 flags1 us bs =
    let zeros = decode_loop n (idx + 1) flags0 flags1 (us ++ (0 ∷ [])) bs in
    let ones = decode_loop n (idx + 1) flags0 flags1 (us ++ (max_u64 ∷ [])) bs in
    let kept =
      decode_loop n (idx + 1) flags0 flags1 (us ++ (uint64 (take 8 bs) ∷ [])) (drop 8 bs) in
    if flag flags0 idx && flag flags1 idx
    then err err_decode
    else if flag flags0 idx
    then zeros
    else if flag flags1 idx
    then ones
    else if leb 8 (length bs)
    then kept
    else err err_decode

pub decode : Bytes → Result Words
decode data0 = do
  (flags0, data1) ← or_fail (wire_chop_slice bloom_filter_f data0) err_decode
  (flags1, data2) ← or_fail (wire_chop_slice bloom_filter_f data1) err_decode
  (us, data3) ← decode_loop bloom_filter_u 0 flags0 flags1 [] data2
  guard (length data3 == 0) err_decode
  ok us
