-- ===== src/Messages/Broken.antt =====
-- pathBroken of network/pathfinder.go.
use ironwood.Base.{
  ℕ, ◌+◌, ◌≡◌, [], List, ◌++◌, some, ◌==◌, All, length, arith, length-append, append-nil,
}
use ironwood.Types.{Result, ok, err_decode, or_fail, guard, ◌>>=◌, ◌>>◌}
use ironwood.Wire.{
  Bytes, IsU64, PeerPort, wire_chop_slice, wire_chop_uint, wire_chop_path, wire_size_uint,
  wire_size_path, wire_append_uint, wire_append_path, checked_size,
}
use ironwood.Wire.Uvarint.{uvarint, length-uvarint, wire_chop_uint-uvarint}
use ironwood.Wire.Paths.{path_bytes, length-path_bytes, wire_chop_path-path_bytes, IsPort}
use ironwood.Wire.Encoded.{checked_size_ok, appended, wire_chop_slice-append}
use ironwood.Crypto.{PublicKey, IsPublicKey, public_key_size}

pub record PathBroken : Type 0 where
  pub path : List PeerPort
  pub watermark : ℕ
  pub source : PublicKey
  pub dest : PublicKey

unfoldable pub size : PathBroken → ℕ
size broken =
    wire_size_path broken.path + wire_size_uint broken.watermark + public_key_size + public_key_size

pub encode : PathBroken → Bytes → Result Bytes
encode broken start =
    let out = wire_append_uint (wire_append_path start broken.path) broken.watermark in
    checked_size start (out ++ broken.source ++ broken.dest) (size broken)

pub decode : Bytes → Result PathBroken
decode data0 = do
  (path, data1) ← or_fail (wire_chop_path [] data0) err_decode
  (watermark, data2) ← or_fail (wire_chop_uint data1) err_decode
  (source, data3) ← or_fail (wire_chop_slice public_key_size data2) err_decode
  (dest, data4) ← or_fail (wire_chop_slice public_key_size data3) err_decode
  guard (length data4 == 0) err_decode
  ok (record { path = path; watermark = watermark; source = source; dest = dest })

pub record IsValid (broken : PathBroken) : Type 0 where
  pub path_ports : All IsPort broken.path
  pub watermark_fits : IsU64 broken.watermark
  pub source_size : IsPublicKey broken.source
  pub dest_size : IsPublicKey broken.dest

image : PathBroken → Bytes
image broken =
    path_bytes broken.path ++ (uvarint broken.watermark ++ (broken.source ++ broken.dest))

module _ (broken : PathBroken) (v : IsValid broken) where
  length-image : length (image broken) ≡ size broken
  unfolding image size
  length-image = omega (
    arith,
    length-append (path_bytes broken.path)
        (uvarint broken.watermark ++ (broken.source ++ broken.dest)),
    length-append (uvarint broken.watermark) (broken.source ++ broken.dest),
    length-append broken.source broken.dest,
    length-path_bytes broken.path,
    length-uvarint broken.watermark,
    v.source_size,
    v.dest_size,
  )

  encode-image : (out : Bytes) → encode broken out ≡ ok (out ++ image broken)
  unfolding encode image
  encode-image out = simp appended (checked_size_ok out (image broken) (size broken) length-image)

  decode-image : decode (image broken) ≡ ok broken
  unfolding decode image
  decode-image = rw (
    wire_chop_path-path_bytes [] broken.path
        (uvarint broken.watermark ++ (broken.source ++ broken.dest)) v.path_ports,
    wire_chop_uint-uvarint broken.watermark (broken.source ++ broken.dest) v.watermark_fits,
    wire_chop_slice-append 32 broken.source broken.dest v.source_size,
    whole,
  )
    where
      whole : wire_chop_slice 32 broken.dest ≡ some (broken.dest, [])
      whole = rw (append-nil broken.dest) at (wire_chop_slice-append 32 broken.dest [] v.dest_size)

-- Encoding a path-broken notice whose ports are nonzero uint64s and whose watermark and keys fit
-- does not panic, appends `size` bytes, and they decode to it.
pub broken_round_trip :
    (broken : PathBroken) (out : Bytes)
    → IsValid broken
    → (bs : Bytes) × (encode broken out ≡ ok (out ++ bs))
      × (length bs ≡ size broken)
      × (decode bs ≡ ok broken)
broken_round_trip broken out v =
    (image broken, encode-image broken v out, length-image broken v, decode-image broken v)
