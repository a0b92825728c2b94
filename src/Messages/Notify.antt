-- ===== src/Messages/Notify.antt =====
-- pathNotify of network/pathfinder.go, which carries a pathNotifyInfo.
use ironwood.Base.{ℕ, ◌+◌, ◌≡◌, [], List, ◌++◌, Bool, All, length, arith, length-append}
use ironwood.Types.{Result, ok, err_decode, or_fail, ◌>>=◌}
use ironwood.Wire.{
  Bytes, IsU64, PeerPort, wire_chop_slice, wire_chop_uint, wire_chop_path, wire_size_uint,
  wire_size_path, wire_append_uint, wire_append_path, checked_size,
}
use ironwood.Wire.Uvarint.{uvarint, length-uvarint, wire_chop_uint-uvarint}
use ironwood.Wire.Paths.{path_bytes, length-path_bytes, wire_chop_path-path_bytes, IsPort}
use ironwood.Wire.Encoded.{checked_size_ok, appended, wire_chop_slice-append}
use ironwood.Crypto.{PublicKey, IsPublicKey, Ed25519, public_key_size}
use ironwood.Messages.NotifyInfo
use ironwood.Messages.NotifyInfo.{PathNotifyInfo}

pub record PathNotify : Type 0 where
  pub path : List PeerPort
  pub watermark : ℕ
  pub source : PublicKey
  pub dest : PublicKey
  pub info : PathNotifyInfo

pub check : Ed25519 → PathNotify → Bool
check ed notify = ed.verify notify.source (NotifyInfo.bytes_for_sig notify.info) notify.info.sig

unfoldable pub size : PathNotify → ℕ
size notify =
    wire_size_path notify.path
    + wire_size_uint notify.watermark
    + public_key_size
    + public_key_size
    + NotifyInfo.size notify.info

pub encode : PathNotify → Bytes → Result Bytes
encode notify start = do
  let out1 = wire_append_uint (wire_append_path start notify.path) notify.watermark
  out2 ← NotifyInfo.encode notify.info (out1 ++ notify.source ++ notify.dest)
  checked_size start out2 (size notify)

pub decode : Bytes → Result PathNotify
decode data0 = do
  (path, data1) ← or_fail (wire_chop_path [] data0) err_decode
  (watermark, data2) ← or_fail (wire_chop_uint data1) err_decode
  (source, data3) ← or_fail (wire_chop_slice public_key_size data2) err_decode
  (dest, data4) ← or_fail (wire_chop_slice public_key_size data3) err_decode
  info ← NotifyInfo.decode data4
  ok (record { path = path; watermark = watermark; source = source; dest = dest; info = info })

pub record IsValid (notify : PathNotify) : Type 0 where
  pub path_ports : All IsPort notify.path
  pub watermark_fits : IsU64 notify.watermark
  pub source_size : IsPublicKey notify.source
  pub dest_size : IsPublicKey notify.dest
  pub info_valid : NotifyInfo.IsValid notify.info

-- What follows the path, and what follows the watermark.
keys : PathNotify → Bytes
keys notify = notify.source ++ (notify.dest ++ NotifyInfo.image notify.info)

image : PathNotify → Bytes
image notify = path_bytes notify.path ++ (uvarint notify.watermark ++ keys notify)

module _ (notify : PathNotify) (v : IsValid notify) where
  length-image : length (image notify) ≡ size notify
  unfolding image keys size
  length-image = omega (
    arith,
    length-append (path_bytes notify.path) (uvarint notify.watermark ++ keys notify),
    length-append (uvarint notify.watermark) (keys notify),
    length-append notify.source (notify.dest ++ NotifyInfo.image notify.info),
    length-append notify.dest (NotifyInfo.image notify.info),
    length-path_bytes notify.path,
    length-uvarint notify.watermark,
    NotifyInfo.length-image notify.info v.info_valid.sig_size,
    v.source_size,
    v.dest_size,
  )

  encode-image : (out : Bytes) → encode notify out ≡ ok (out ++ image notify)
  unfolding encode image keys
  encode-image out =
      rw
        (NotifyInfo.encode-image notify.info
          (wire_append_uint (wire_append_path out notify.path) notify.watermark
            ++ notify.source
            ++ notify.dest)
          v.info_valid.sig_size)
        (simp appended (checked_size_ok out (image notify) (size notify) length-image))

  decode-image : decode (image notify) ≡ ok notify
  unfolding decode image keys
  decode-image = rw (
    wire_chop_path-path_bytes [] notify.path (uvarint notify.watermark ++ keys notify) v.path_ports,
    wire_chop_uint-uvarint notify.watermark (keys notify) v.watermark_fits,
    wire_chop_slice-append 32 notify.source (notify.dest ++ NotifyInfo.image notify.info)
        v.source_size,
    wire_chop_slice-append 32 notify.dest (NotifyInfo.image notify.info) v.dest_size,
    NotifyInfo.decode-image notify.info v.info_valid,
  )

-- Encoding a notification whose ports are nonzero uint64s and whose numbers, keys and signature
-- fit does not panic, appends `size` bytes, and they decode to it.
pub notify_round_trip :
    (notify : PathNotify) (out : Bytes)
    → IsValid notify
    → (bs : Bytes) × (encode notify out ≡ ok (out ++ bs))
      × (length bs ≡ size notify)
      × (decode bs ≡ ok notify)
notify_round_trip notify out v =
    (image notify, encode-image notify v out, length-image notify v, decode-image notify v)
