-- ===== src/Messages/Lookup.antt =====
-- pathLookup of network/pathfinder.go.
use ironwood.Base.{
  ℕ, ◌+◌, ◌≡◌, [], List, ◌++◌, some, ◌==◌, All, length, arith, length-append, append-nil,
}
use ironwood.Types.{Result, ok, err_decode, or_fail, guard, ◌>>=◌, ◌>>◌}
use ironwood.Wire.{
  Bytes, PeerPort, wire_chop_slice, wire_chop_path, wire_size_path, wire_append_path, checked_size,
}
use ironwood.Wire.Paths.{path_bytes, length-path_bytes, wire_chop_path-path_bytes, IsPort}
use ironwood.Wire.Encoded.{checked_size_ok, appended, wire_chop_slice-append}
use ironwood.Crypto.{PublicKey, IsPublicKey, public_key_size}

pub record PathLookup : Type 0 where
  pub source : PublicKey
  pub dest : PublicKey
  pub from : List PeerPort

unfoldable pub size : PathLookup → ℕ
size lookup = public_key_size + public_key_size + wire_size_path lookup.from

pub encode : PathLookup → Bytes → Result Bytes
encode lookup start =
    checked_size start (wire_append_path (start ++ lookup.source ++ lookup.dest) lookup.from)
      (size lookup)

pub decode : Bytes → Result PathLookup
decode data0 = do
  (source, data1) ← or_fail (wire_chop_slice public_key_size data0) err_decode
  (dest, data2) ← or_fail (wire_chop_slice public_key_size data1) err_decode
  (from, data3) ← or_fail (wire_chop_path [] data2) err_decode
  guard (length data3 == 0) err_decode
  ok (record { source = source; dest = dest; from = from })

pub record IsValid (lookup : PathLookup) : Type 0 where
  pub source_size : IsPublicKey lookup.source
  pub dest_size : IsPublicKey lookup.dest
  pub from_ports : All IsPort lookup.from

image : PathLookup → Bytes
image lookup = lookup.source ++ (lookup.dest ++ path_bytes lookup.from)

module _ (lookup : PathLookup) (v : IsValid lookup) where
  length-image : length (image lookup) ≡ size lookup
  unfolding image size
  length-image = omega (
    arith,
    length-append lookup.source (lookup.dest ++ path_bytes lookup.from),
    length-append lookup.dest (path_bytes lookup.from),
    length-path_bytes lookup.from,
    v.source_size,
    v.dest_size,
  )

  encode-image : (out : Bytes) → encode lookup out ≡ ok (out ++ image lookup)
  unfolding encode image
  encode-image out = simp appended (checked_size_ok out (image lookup) (size lookup) length-image)

  decode-image : decode (image lookup) ≡ ok lookup
  unfolding decode image
  decode-image = rw (
    wire_chop_slice-append 32 lookup.source (lookup.dest ++ path_bytes lookup.from) v.source_size,
    wire_chop_slice-append 32 lookup.dest (path_bytes lookup.from) v.dest_size,
    whole,
  )
    where
      whole : wire_chop_path [] (path_bytes lookup.from) ≡ some (lookup.from, [])
      whole =
          rw (append-nil (path_bytes lookup.from)) at
            (wire_chop_path-path_bytes [] lookup.from [] v.from_ports)

-- Encoding a lookup whose keys have 32 bytes and whose path holds nonzero uint64 ports does not
-- panic, appends `size` bytes, and they decode to it.
pub lookup_round_trip :
    (lookup : PathLookup) (out : Bytes)
    → IsValid lookup
    → (bs : Bytes) × (encode lookup out ≡ ok (out ++ bs))
      × (length bs ≡ size lookup)
      × (decode bs ≡ ok lookup)
lookup_round_trip lookup out v =
    (image lookup, encode-image lookup v out, length-image lookup v, decode-image lookup v)
