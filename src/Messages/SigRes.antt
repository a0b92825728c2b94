-- ===== src/Messages/SigRes.antt =====
-- routerSigRes of network/router.go, which embeds a routerSigReq.
use ironwood.Base.{
  ℕ, ◌+◌, ◌≡◌, [], ◌++◌, Bool, ◌==◌, length, arith, length-append, append_assoc, append-nil,
}
use ironwood.Types.{Result, ok, err_decode, or_fail, guard, ◌>>=◌, ◌>>◌}
use ironwood.Wire.{
  Bytes, IsU64, PeerPort, wire_append_uint, wire_size_uint, wire_chop_uint, wire_chop_slice,
  checked_size,
}
use ironwood.Wire.Uvarint.{
  uvarint, wire_append_uint-uvarint, length-uvarint, wire_chop_uint-uvarint,
}
use ironwood.Wire.Encoded.{checked_size_ok, appended, wire_chop_slice-append}
use ironwood.Crypto.{PublicKey, Signature, IsSignature, Ed25519, signature_size}
use ironwood.Messages.SigReq
use ironwood.Messages.SigReq.{RouterSigReq}

pub record RouterSigRes : Type 0 where
  pub req : RouterSigReq
  pub open req use *
  pub port : PeerPort
  pub psig : Signature

unfoldable pub bytes_for_sig : RouterSigRes → PublicKey → PublicKey → Result Bytes
bytes_for_sig res node parent = do
  bs ← SigReq.bytes_for_sig res.req node parent
  ok (wire_append_uint bs res.port)

unfoldable pub check : Ed25519 → RouterSigRes → PublicKey → PublicKey → Result Bool
check ed res node parent = do bs ← bytes_for_sig res node parent; ok (ed.verify parent bs res.psig)

pub size : RouterSigRes → ℕ
size res = SigReq.size res.req + wire_size_uint res.port + signature_size

pub encode : RouterSigRes → Bytes → Result Bytes
encode res start = do
  out ← SigReq.encode res.req start
  checked_size start (wire_append_uint out res.port ++ res.psig) (size res)

pub chop : Bytes → Result (RouterSigRes × Bytes)
chop data0 = do
  (req, data1) ← SigReq.chop data0
  (port, data2) ← or_fail (wire_chop_uint data1) err_decode
  (psig, data3) ← or_fail (wire_chop_slice signature_size data2) err_decode
  ok (record { req = req; port = port; psig = psig }, data3)

pub decode : Bytes → Result RouterSigRes
decode bs = do (tmp, rest) ← chop bs; guard (length rest == 0) err_decode; ok tmp

pub record IsValid (res : RouterSigRes) : Type 0 where
  pub req_valid : SigReq.IsValid res.req
  pub port_fits : IsU64 res.port
  pub psig_size : IsSignature res.psig

pub image : RouterSigRes → Bytes
image res = SigReq.image res.req ++ (uvarint res.port ++ res.psig)

pub length-image : (res : RouterSigRes) → IsSignature res.psig → length (image res) ≡ size res
unfolding image size
length-image res h = omega (
  arith,
  length-append (SigReq.image res.req) (uvarint res.port ++ res.psig),
  length-append (uvarint res.port) res.psig,
  SigReq.length-image res.req,
  length-uvarint res.port,
)

pub encode-image :
    (res : RouterSigRes) (out : Bytes)
    → IsSignature res.psig
    → encode res out ≡ ok (out ++ image res)
unfolding encode image
encode-image res out h =
    rw (SigReq.encode-image res.req out)
      (simp appended (checked_size_ok out (image res) (size res) (length-image res h)))

pub chop-image :
    (res : RouterSigRes) (rest : Bytes) → IsValid res → chop (image res ++ rest) ≡ ok (res, rest)
unfolding chop image
chop-image res rest v = rw (
  append_assoc (SigReq.image res.req) (uvarint res.port ++ res.psig) rest,
  append_assoc (uvarint res.port) res.psig rest,
  SigReq.chop-image res.req (uvarint res.port ++ (res.psig ++ rest)) v.req_valid,
  wire_chop_uint-uvarint res.port (res.psig ++ rest) v.port_fits,
  wire_chop_slice-append signature_size res.psig rest v.psig_size,
)

-- Encoding a response of uint64s with a 64-byte signature does not panic, appends `size` bytes,
-- and they decode to it.
pub sig_res_round_trip :
    (res : RouterSigRes) (out : Bytes)
    → IsValid res
    → (bs : Bytes) × (encode res out ≡ ok (out ++ bs))
      × (length bs ≡ size res)
      × (decode bs ≡ ok res)
unfolding decode
sig_res_round_trip res out v =
    (image res, encode-image res out v.psig_size, length-image res v.psig_size, rw (whole, decode))
  where
    whole : chop (image res) ≡ ok (res, [])
    whole = rw (append-nil (image res)) at (chop-image res [] v)

-- The bytes that a response's signatures are made over.
pub sig_bytes : RouterSigReq → PeerPort → PublicKey → PublicKey → Bytes
sig_bytes req port node parent = node ++ parent ++ SigReq.image req ++ uvarint port

pub bytes_for_sig-sig_bytes :
    (res : RouterSigRes) (node parent : PublicKey)
    → bytes_for_sig res node parent ≡ ok (sig_bytes res.req res.port node parent)
unfolding bytes_for_sig sig_bytes
bytes_for_sig-sig_bytes res node parent = rw (
  SigReq.bytes_for_sig-image res.req node parent,
  wire_append_uint-uvarint (node ++ parent ++ SigReq.image res.req) res.port,
)
