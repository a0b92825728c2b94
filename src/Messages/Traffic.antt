-- ===== src/Messages/Traffic.antt =====
-- network/traffic.go. Buffers come from a pool and are reused; the model has their contents only.
use ironwood.Base.{ℕ, ◌+◌, ◌≡◌, [], List, ◌++◌, All, length, arith, length-append}
use ironwood.Types.{Result, ok, err_decode, or_fail, ◌>>=◌}
use ironwood.Wire.{
  Bytes, IsU64, PeerPort, wire_chop_slice, wire_chop_uint, wire_chop_path, wire_size_uint,
  wire_size_path, wire_append_uint, wire_append_path, checked_size,
}
use ironwood.Wire.Uvarint.{uvarint, length-uvarint, wire_chop_uint-uvarint}
use ironwood.Wire.Paths.{path_bytes, length-path_bytes, wire_chop_path-path_bytes, IsPort}
use ironwood.Wire.Encoded.{checked_size_ok, appended, wire_chop_slice-append}
use ironwood.Crypto.{PublicKey, IsPublicKey, public_key_size}

pub record Traffic : Type 0 where
  pub path : List PeerPort
  pub from : List PeerPort
  pub source : PublicKey
  pub dest : PublicKey
  pub watermark : ℕ
  pub payload : Bytes

unfoldable pub size : Traffic → ℕ
size tr =
    wire_size_path tr.path
    + wire_size_path tr.from
    + public_key_size
    + public_key_size
    + wire_size_uint tr.watermark
    + length tr.payload

pub encode : Traffic → Bytes → Result Bytes
encode tr start =
    let out = wire_append_path (wire_append_path start tr.path) tr.from ++ tr.source ++ tr.dest in
    checked_size start (wire_append_uint out tr.watermark ++ tr.payload) (size tr)

-- The payload is all that follows, so nothing can be left over.
pub decode : Bytes → Result Traffic
decode data0 = do
  (path, data1) ← or_fail (wire_chop_path [] data0) err_decode
  (from, data2) ← or_fail (wire_chop_path [] data1) err_decode
  (source, data3) ← or_fail (wire_chop_slice public_key_size data2) err_decode
  (dest, data4) ← or_fail (wire_chop_slice public_key_size data3) err_decode
  (watermark, data5) ← or_fail (wire_chop_uint data4) err_decode
  ok (record {
    path = path;
    from = from;
    source = source;
    dest = dest;
    watermark = watermark;
    payload = data5;
  })

pub record IsValid (tr : Traffic) : Type 0 where
  pub path_ports : All IsPort tr.path
  pub from_ports : All IsPort tr.from
  pub source_size : IsPublicKey tr.source
  pub dest_size : IsPublicKey tr.dest
  pub watermark_fits : IsU64 tr.watermark

-- What follows the two paths.
body : Traffic → Bytes
body tr = tr.source ++ (tr.dest ++ (uvarint tr.watermark ++ tr.payload))

image : Traffic → Bytes
image tr = path_bytes tr.path ++ (path_bytes tr.from ++ body tr)

module _ (tr : Traffic) (v : IsValid tr) where
  length-image : length (image tr) ≡ size tr
  unfolding image body size
  length-image = omega (
    arith,
    length-append (path_bytes tr.path) (path_bytes tr.from ++ body tr),
    length-append (path_bytes tr.from) (body tr),
    length-append tr.source (tr.dest ++ (uvarint tr.watermark ++ tr.payload)),
    length-append tr.dest (uvarint tr.watermark ++ tr.payload),
    length-append (uvarint tr.watermark) tr.payload,
    length-path_bytes tr.path,
    length-path_bytes tr.from,
    length-uvarint tr.watermark,
    v.source_size,
    v.dest_size,
  )

  encode-image : (out : Bytes) → encode tr out ≡ ok (out ++ image tr)
  unfolding encode image body
  encode-image out = simp appended (checked_size_ok out (image tr) (size tr) length-image)

  decode-image : decode (image tr) ≡ ok tr
  unfolding decode image body
  decode-image = rw (
    wire_chop_path-path_bytes [] tr.path (path_bytes tr.from ++ body tr) v.path_ports,
    wire_chop_path-path_bytes [] tr.from (body tr) v.from_ports,
    wire_chop_slice-append 32 tr.source (tr.dest ++ (uvarint tr.watermark ++ tr.payload))
        v.source_size,
    wire_chop_slice-append 32 tr.dest (uvarint tr.watermark ++ tr.payload) v.dest_size,
    wire_chop_uint-uvarint tr.watermark tr.payload v.watermark_fits,
  )

-- Encoding a traffic packet whose ports are nonzero uint64s and whose watermark and keys fit does
-- not panic, appends `size` bytes, and they decode to it, whatever the payload.
pub traffic_round_trip :
    (tr : Traffic) (out : Bytes)
    → IsValid tr
    → (bs : Bytes) × (encode tr out ≡ ok (out ++ bs)) × (length bs ≡ size tr) × (decode bs ≡ ok tr)
traffic_round_trip tr out v =
    (image tr, encode-image tr v out, length-image tr v, decode-image tr v)
