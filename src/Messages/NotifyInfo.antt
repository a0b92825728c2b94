-- ===== src/Messages/NotifyInfo.antt =====
-- pathNotifyInfo of network/pathfinder.go.
use ironwood.Base.{
  ℕ, ◌+◌, ◌≡◌, [], ◌∷◌, List, ◌++◌, Bool, true, false, not, some, ◌==◌, if◌then◌else◌, All, length,
  arith, length-append, append-nil,
}
use ironwood.Types.{Result, ok, err_decode, or_fail, guard, ◌>>=◌, ◌>>◌}
use ironwood.Wire.{
  Bytes, IsU64, PeerPort, wire_chop_slice, wire_chop_uint, wire_chop_path, wire_size_uint,
  wire_size_path, wire_append_uint, wire_append_path, checked_size,
}
use ironwood.Wire.Uvarint.{uvarint, length-uvarint, wire_chop_uint-uvarint}
use ironwood.Wire.Paths.{path_bytes, length-path_bytes, wire_chop_path-path_bytes, IsPort}
use ironwood.Wire.Encoded.{checked_size_ok, appended, wire_chop_slice-append}
use ironwood.Crypto.{Signature, IsSignature, PrivateKey, Ed25519, signature_size}

pub record PathNotifyInfo : Type 0 where
  pub seq : ℕ
  pub path : List PeerPort
  pub sig : Signature

-- The loop over the index compares the ports of two paths of one length.
same_ports : List PeerPort → List PeerPort → Bool
same_ports [] [] = true
same_ports (p ∷ ps) (q ∷ qs) = if not (p == q) then false else same_ports ps qs
same_ports _ _ = true

pub equal : PathNotifyInfo → PathNotifyInfo → Bool
unfolding same_ports
equal info cmp =
    if not (info.seq == cmp.seq)
    then false
    else if not (length info.path == length cmp.path)
    then false
    else same_ports info.path cmp.path

pub bytes_for_sig : PathNotifyInfo → Bytes
bytes_for_sig info = wire_append_path (wire_append_uint [] info.seq) info.path

pub sign : Ed25519 → PrivateKey → PathNotifyInfo → PathNotifyInfo
sign ed key info = record info { sig = ed.sign key (bytes_for_sig info) }

pub size : PathNotifyInfo → ℕ
size info = wire_size_uint info.seq + wire_size_path info.path + signature_size

pub encode : PathNotifyInfo → Bytes → Result Bytes
encode info start =
    checked_size start (wire_append_path (wire_append_uint start info.seq) info.path ++ info.sig)
      (size info)

pub decode : Bytes → Result PathNotifyInfo
decode data0 = do
  (seq, data1) ← or_fail (wire_chop_uint data0) err_decode
  (path, data2) ← or_fail (wire_chop_path [] data1) err_decode
  (sig, data3) ← or_fail (wire_chop_slice signature_size data2) err_decode
  guard (length data3 == 0) err_decode
  ok (record { seq = seq; path = path; sig = sig })

pub record IsValid (info : PathNotifyInfo) : Type 0 where
  pub seq_fits : IsU64 info.seq
  pub path_ports : All IsPort info.path
  pub sig_size : IsSignature info.sig

pub image : PathNotifyInfo → Bytes
image info = uvarint info.seq ++ (path_bytes info.path ++ info.sig)

module _ (info : PathNotifyInfo) where
  pub length-image : IsSignature info.sig → length (image info) ≡ size info
  unfolding image size
  length-image h = omega (
    arith,
    length-append (uvarint info.seq) (path_bytes info.path ++ info.sig),
    length-append (path_bytes info.path) info.sig,
    length-uvarint info.seq,
    length-path_bytes info.path,
  )

  pub encode-image : (out : Bytes) → IsSignature info.sig → encode info out ≡ ok (out ++ image info)
  unfolding encode image
  encode-image out h = simp appended (checked_size_ok out (image info) (size info) (length-image h))

  pub decode-image : IsValid info → decode (image info) ≡ ok info
  unfolding decode image
  decode-image v = rw (
    wire_chop_uint-uvarint info.seq (path_bytes info.path ++ info.sig) v.seq_fits,
    wire_chop_path-path_bytes [] info.path info.sig v.path_ports,
    whole,
  )
    where
      whole : wire_chop_slice 64 info.sig ≡ some (info.sig, [])
      whole = rw (append-nil info.sig) at (wire_chop_slice-append 64 info.sig [] v.sig_size)

-- Encoding a notification's signed part, whose seq is a uint64, whose ports are nonzero uint64s
-- and whose signature has 64 bytes, does not panic, appends `size` bytes, and they decode to it.
notify_info_round_trip :
    (info : PathNotifyInfo) (out : Bytes)
    → IsValid info
    → (bs : Bytes) × (encode info out ≡ ok (out ++ bs))
      × (length bs ≡ size info)
      × (decode bs ≡ ok info)
notify_info_round_trip info out v = (
  image info,
  encode-image info out v.sig_size,
  length-image info v.sig_size,
  decode-image info v,
)
