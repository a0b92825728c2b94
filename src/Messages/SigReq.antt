-- ===== src/Messages/SigReq.antt =====
-- routerSigReq of network/router.go.
use ironwood.Base.{
  ℕ, ◌+◌, ◌≡◌, [], ◌++◌, ◌==◌, length, arith, length-append, append_assoc, append-nil,
}
use ironwood.Types.{Result, ok, err_decode, or_fail, guard, ◌>>=◌, ◌>>◌}
use ironwood.Wire.{Bytes, IsU64, wire_append_uint, wire_size_uint, wire_chop_uint, checked_size}
use ironwood.Wire.Uvarint.{uvarint, length-uvarint, wire_chop_uint-uvarint}
use ironwood.Wire.Encoded.{checked_size_ok, appended}
use ironwood.Crypto.{PublicKey}

pub record RouterSigReq : Type 0 where
  pub seq : ℕ
  pub nonce : ℕ

unfoldable pub size : RouterSigReq → ℕ
size req = wire_size_uint req.seq + wire_size_uint req.nonce

pub encode : RouterSigReq → Bytes → Result Bytes
encode req out =
    checked_size out (wire_append_uint (wire_append_uint out req.seq) req.nonce) (size req)

pub chop : Bytes → Result (RouterSigReq × Bytes)
chop data0 = do
  (seq, data1) ← or_fail (wire_chop_uint data0) err_decode
  (nonce, data2) ← or_fail (wire_chop_uint data1) err_decode
  ok (record { seq = seq; nonce = nonce }, data2)

pub decode : Bytes → Result RouterSigReq
decode bs = do (tmp, rest) ← chop bs; guard (length rest == 0) err_decode; ok tmp

-- `out, _ = req.encode(out)` keeps what `encode` returned.
pub bytes_for_sig : RouterSigReq → PublicKey → PublicKey → Result Bytes
bytes_for_sig req node parent = encode req (node ++ parent)

-- The fields are uint64s.
pub record IsValid (req : RouterSigReq) : Type 0 where
  pub seq_fits : IsU64 req.seq
  pub nonce_fits : IsU64 req.nonce

pub image : RouterSigReq → Bytes
image req = uvarint req.seq ++ uvarint req.nonce

pub length-image : (req : RouterSigReq) → length (image req) ≡ size req
unfolding image size
length-image req = omega (
  arith,
  length-append (uvarint req.seq) (uvarint req.nonce),
  length-uvarint req.seq,
  length-uvarint req.nonce,
)

pub encode-image : (req : RouterSigReq) (out : Bytes) → encode req out ≡ ok (out ++ image req)
unfolding encode image
encode-image req out = simp appended (checked_size_ok out (image req) (size req) (length-image req))

pub chop-image :
    (req : RouterSigReq) (rest : Bytes) → IsValid req → chop (image req ++ rest) ≡ ok (req, rest)
unfolding chop image
chop-image req rest v = rw (
  append_assoc (uvarint req.seq) (uvarint req.nonce) rest,
  wire_chop_uint-uvarint req.seq (uvarint req.nonce ++ rest) v.seq_fits,
  wire_chop_uint-uvarint req.nonce rest v.nonce_fits,
)

pub bytes_for_sig-image :
    (req : RouterSigReq) (node parent : PublicKey)
    → bytes_for_sig req node parent ≡ ok (node ++ parent ++ image req)
unfolding bytes_for_sig
bytes_for_sig-image req node parent = encode-image req (node ++ parent)

-- Encoding a request of uint64s does not panic, appends `size` bytes, and they decode to it.
pub sig_req_round_trip :
    (req : RouterSigReq) (out : Bytes)
    → IsValid req
    → (bs : Bytes) × (encode req out ≡ ok (out ++ bs))
      × (length bs ≡ size req)
      × (decode bs ≡ ok req)
unfolding decode
sig_req_round_trip req out v =
    (image req, encode-image req out, length-image req, rw (whole, decode))
  where
    whole : chop (image req) ≡ ok (req, [])
    whole = rw (append-nil (image req)) at (chop-image req [] v)
