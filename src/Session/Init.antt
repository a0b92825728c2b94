-- ===== src/Session/Init.antt =====
-- The init and ack messages of encrypted/session.go, and the keys of encrypted/crypto.go.
pub mod RoundTrip
use ironwood.Base.{
  ℕ, ◌+◌, ◌≡◌, Bool, true, false, List, [], ◌∷◌, ◌++◌, Option, none, some, ◌==◌, if◌then◌else◌,
  length, take, drop,
}
use ironwood.Types.{Result, ok, panic, ◌>>=◌}
use ironwood.Wire.{Bytes}
use ironwood.Wire.BigEndian.{put_uint64, uint64}
use ironwood.Crypto.{PublicKey, PrivateKey, Ed25519, signature_size}
use ironwood.Session.{
  Box, BoxPub, BoxPriv, SessionInit, type_init, type_ack, box_pub_size, box_overhead,
  nonce_for_uint64,
}

-- The conversion of ed25519 keys to curve25519: any two functions that agree on the two keys of a pair.
pub record Curve (ed : Ed25519) (box : Box) : Type 0 where
  pub to_box_pub : PublicKey → BoxPub
  pub to_box_priv : PrivateKey → BoxPriv
  pub agree : (k : PrivateKey) → to_box_pub (ed.public k) ≡ box.public (to_box_priv k)

-- sessionInitSize
abbrev pub init_size : ℕ
init_size = 1 + box_pub_size + box_overhead + signature_size + box_pub_size + box_pub_size + 8 + 8

-- The bytes from the keys on, which the signature and the encryption cover.
pub init_body : SessionInit → Bytes
init_body init = init.current ++ (init.next ++ (put_uint64 init.key_seq ++ put_uint64 init.seq))

-- The init that a body holds.
pub read_body : Bytes → SessionInit
read_body body =
    let after_current = drop box_pub_size body in
    let after_next = drop box_pub_size after_current in
    let after_key_seq = drop 8 after_next in
    record {
      current = take box_pub_size body;
      next = take box_pub_size after_current;
      key_seq = uint64 (take 8 after_next);
      seq = uint64 (take 8 after_key_seq);
    }

module _ (ed : Ed25519) (box : Box) (curve : Curve ed box) where
  -- `ephemeral` is the private key that newBoxKeys draws for the message.
  pub encrypt : SessionInit → PrivateKey → PublicKey → BoxPriv → Result Bytes
  unfolding init_body nonce_for_uint64
  encrypt init from to ephemeral =
      let from_pub = box.public ephemeral in
      let sig = ed.sign from (from_pub ++ init_body init) in
      let boxed =
        box.seal (sig ++ init_body init) (nonce_for_uint64 0)
          (box.shared (curve.to_box_pub to) ephemeral) in
      let bytes = type_init ∷ (from_pub ++ boxed) in
      if length bytes == init_size then ok bytes else panic

  -- From the opened payload on.
  pub checked_init : PublicKey → BoxPub → Bytes → Option SessionInit
  unfolding read_body
  checked_init from from_box payload =
      let body = drop signature_size payload in
      if ed.verify from (from_box ++ body) (take signature_size payload)
      then some (read_body body)
      else none

  pub decrypt : BoxPriv → PublicKey → Bytes → Option SessionInit
  unfolding checked_init nonce_for_uint64
  decrypt priv from bytes =
      let from_box = take box_pub_size (drop 1 bytes) in
      let boxed = drop (1 + box_pub_size) bytes in
      let read =
        elim (box.open_box boxed (nonce_for_uint64 0) (box.shared from_box priv))
          as (λ o. Option SessionInit) [
            | none ↦ none
            | some payload ↦ checked_init from from_box payload
          ] in
      if length bytes == init_size then read else none

  -- `data[0] = sessionTypeAck`
  pub encrypt_ack : SessionInit → PrivateKey → PublicKey → BoxPriv → Result Bytes
  unfolding encrypt
  encrypt_ack ack from to ephemeral = do
    bytes ← encrypt ack from to ephemeral
    ok (type_ack ∷ drop 1 bytes)
