-- ===== src/Messages/Announce.antt =====
-- routerAnnounce and routerInfo of network/router.go, which embed a routerSigRes.
use ironwood.Base.{
  ℕ, ◌+◌, ◌≡◌, [], ◌++◌, Bool, false, ◌&&◌, not, some, ◌==◌, if◌then◌else◌, length, arith,
  length-append, append-nil,
}
use ironwood.Types.{Result, ok, err_decode, or_fail, guard, ◌>>=◌, ◌>>◌}
use ironwood.Wire.{Bytes, wire_chop_slice, checked_size}
use ironwood.Wire.Encoded.{checked_size_ok, appended, wire_chop_slice-append}
use ironwood.Crypto.{
  PublicKey, Signature, IsPublicKey, IsSignature, Ed25519, equal, public_key_size, signature_size,
}
use ironwood.Messages.SigRes
use ironwood.Messages.SigRes.{RouterSigRes}

pub record RouterAnnounce : Type 0 where
  pub key : PublicKey
  pub parent : PublicKey
  pub res : RouterSigRes
  pub open res use *
  pub sig : Signature

pub record RouterInfo : Type 0 where
  pub parent : PublicKey
  pub res : RouterSigRes
  pub open res use *
  pub sig : Signature

unfoldable pub get_announce : RouterInfo → PublicKey → RouterAnnounce
get_announce info key = record { key = key; parent = info.parent; res = info.res; sig = info.sig }

unfoldable pub check : Ed25519 → RouterAnnounce → Result Bool
check ed ann =
    let signed = do
      bs ← SigRes.bytes_for_sig ann.res ann.key ann.parent
      ok (ed.verify ann.key bs ann.sig && ed.verify ann.parent bs ann.psig)
    in if ann.port == 0 && not (equal ann.key ann.parent) then ok false else signed

pub size : RouterAnnounce → ℕ
size ann = public_key_size + public_key_size + SigRes.size ann.res + signature_size

pub encode : RouterAnnounce → Bytes → Result Bytes
encode ann start = do
  out ← SigRes.encode ann.res (start ++ ann.key ++ ann.parent)
  checked_size start (out ++ ann.sig) (size ann)

pub decode : Bytes → Result RouterAnnounce
decode data0 = do
  (key, data1) ← or_fail (wire_chop_slice public_key_size data0) err_decode
  (parent, data2) ← or_fail (wire_chop_slice public_key_size data1) err_decode
  (res, data3) ← SigRes.chop data2
  (sig, data4) ← or_fail (wire_chop_slice signature_size data3) err_decode
  guard (length data4 == 0) err_decode
  ok (record { key = key; parent = parent; res = res; sig = sig })

pub record IsValid (ann : RouterAnnounce) : Type 0 where
  pub key_size : IsPublicKey ann.key
  pub parent_size : IsPublicKey ann.parent
  pub res_valid : SigRes.IsValid ann.res
  pub sig_size : IsSignature ann.sig

pub image : RouterAnnounce → Bytes
image ann = ann.key ++ (ann.parent ++ (SigRes.image ann.res ++ ann.sig))

module _ (ann : RouterAnnounce) (v : IsValid ann) where
  length-image : length (image ann) ≡ size ann
  unfolding image size
  length-image = omega (
    arith,
    length-append ann.key (ann.parent ++ (SigRes.image ann.res ++ ann.sig)),
    length-append ann.parent (SigRes.image ann.res ++ ann.sig),
    length-append (SigRes.image ann.res) ann.sig,
    SigRes.length-image ann.res v.res_valid.psig_size,
    v.key_size,
    v.parent_size,
    v.sig_size,
  )

  encode-image : (out : Bytes) → encode ann out ≡ ok (out ++ image ann)
  unfolding encode image
  encode-image out =
      rw (SigRes.encode-image ann.res (out ++ ann.key ++ ann.parent) v.res_valid.psig_size)
        (simp appended (checked_size_ok out (image ann) (size ann) length-image))

  decode-image : decode (image ann) ≡ ok ann
  unfolding decode image
  decode-image = rw (
    wire_chop_slice-append 32 ann.key (ann.parent ++ (SigRes.image ann.res ++ ann.sig)) v.key_size,
    wire_chop_slice-append 32 ann.parent (SigRes.image ann.res ++ ann.sig) v.parent_size,
    SigRes.chop-image ann.res ann.sig v.res_valid,
    whole,
  )
    where
      whole : wire_chop_slice 64 ann.sig ≡ some (ann.sig, [])
      whole = rw (append-nil ann.sig) at (wire_chop_slice-append 64 ann.sig [] v.sig_size)

-- Encoding an announcement whose numbers are uint64s and whose keys and signatures have their
-- sizes does not panic, appends `size` bytes, and they decode to it.
pub announce_round_trip :
    (ann : RouterAnnounce) (out : Bytes)
    → IsValid ann
    → (bs : Bytes) × (encode ann out ≡ ok (out ++ bs))
      × (length bs ≡ size ann)
      × (decode bs ≡ ok ann)
announce_round_trip ann out v =
    (image ann, encode-image ann v out, length-image ann v, decode-image ann v)
