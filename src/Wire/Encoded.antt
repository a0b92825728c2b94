-- ===== src/Wire/Encoded.antt =====
-- What the encode and decode methods of the messages share.
use ironwood.Base.{
  ℕ, ◌+◌, ◌-◌, ◌≤◌, ◌<◌, ◌≡◌, refl, ◌++◌, some, true, ◌==◌, if◌then◌else◌, length, take, drop,
  arith, length-append, append_assoc, take-append, drop-append, ltb,
}
use ironwood.Types.{ok}
use ironwood.Wire.{Bytes, checked_size, wire_chop_slice}
use ironwood.Wire.Uvarint.{wire_append_uint-uvarint}
use ironwood.Wire.Paths.{wire_append_path-path_bytes}

-- The check at the end of an encode method passes where the size is that of the bytes appended.
pub checked_size_ok :
    (out body : Bytes) (size : ℕ)
    → length body ≡ size
    → checked_size out (out ++ body) size ≡ ok (out ++ body)
unfolding checked_size
checked_size_ok out body size h = ground (arith, length-append out body)

pub wire_chop_slice-append :
    (n : ℕ) (xs rest : Bytes) → length xs ≡ n → wire_chop_slice n (xs ++ rest) ≡ some (xs, rest)
unfolding wire_chop_slice
wire_chop_slice-append n xs rest h =
    rw (← h) (ground (arith, length-append xs rest, take-append xs rest, drop-append xs rest))

-- To bring an encode method's output into the form `out ++ body`.
pub ruleset appended = (wire_append_uint-uvarint, wire_append_path-path_bytes, append_assoc)
