-- ===== src/Session/Init/RoundTrip.antt =====
-- An init and an ack are read back by the node that they were encrypted for.
use ironwood.Base.{
  ℕ, suc, ◌≡◌, refl, sym, ap, ◌∙◌, subst, true, [], ◌∷◌, ◌++◌, some, ◌==◌, length, take, drop,
  arith, length-append, take-append, drop-append, append-nil,
}
use ironwood.Types.{ok}
use ironwood.Wire.{Bytes, IsU64}
use ironwood.Wire.BigEndian.{put_uint64, length-put_uint64, uint64-put_uint64}
use ironwood.Crypto.{PrivateKey, Ed25519}
use ironwood.Session.{Box, BoxPub, BoxPriv, SessionInit, nonce_for_uint64, type_init, type_ack}
use ironwood.Session.Init.{Curve, init_body, read_body, encrypt, checked_init, decrypt, encrypt_ack}

pub record IsInit (init : SessionInit) : Type 0 where
  pub current_size : length init.current ≡ 32
  pub next_size : length init.next ≡ 32
  pub key_seq_fits : IsU64 init.key_seq
  pub seq_fits : IsU64 init.seq

-- Taking and dropping as much as the first part of a concatenation has.
take_first : (n : ℕ) (xs ys : Bytes) → length xs ≡ n → take n (xs ++ ys) ≡ xs
take_first n xs ys h = subst (λ (m : ℕ). take m (xs ++ ys) ≡ xs) h (take-append xs ys)

drop_first : (n : ℕ) (xs ys : Bytes) → length xs ≡ n → drop n (xs ++ ys) ≡ ys
drop_first n xs ys h = subst (λ (m : ℕ). drop m (xs ++ ys) ≡ ys) h (drop-append xs ys)

take_all : (n : ℕ) (xs : Bytes) → length xs ≡ n → take n xs ≡ xs
take_all n xs h = rw (append-nil xs) at (take_first n xs [] h)

read_body-init_body : (init : SessionInit) → IsInit init → read_body (init_body init) ≡ init
unfolding read_body init_body
read_body-init_body init v =
    rw
      (
        take_first 32 init.current (init.next ++ (put_uint64 init.key_seq ++ put_uint64 init.seq))
            v.current_size,
        drop_first 32 init.current (init.next ++ (put_uint64 init.key_seq ++ put_uint64 init.seq))
            v.current_size,
        take_first 32 init.next (put_uint64 init.key_seq ++ put_uint64 init.seq) v.next_size,
        drop_first 32 init.next (put_uint64 init.key_seq ++ put_uint64 init.seq) v.next_size,
        take_first 8 (put_uint64 init.key_seq) (put_uint64 init.seq)
            (length-put_uint64 init.key_seq),
        drop_first 8 (put_uint64 init.key_seq) (put_uint64 init.seq)
            (length-put_uint64 init.key_seq),
        take_all 8 (put_uint64 init.seq) (length-put_uint64 init.seq),
        uint64-put_uint64 init.key_seq v.key_seq_fits,
        uint64-put_uint64 init.seq v.seq_fits,
      )
      refl

length-init_body : (init : SessionInit) → IsInit init → length (init_body init) ≡ 80
unfolding init_body
length-init_body init v = omega (
  arith,
  v.current_size,
  v.next_size,
  length-append init.current (init.next ++ (put_uint64 init.key_seq ++ put_uint64 init.seq)),
  length-append init.next (put_uint64 init.key_seq ++ put_uint64 init.seq),
  length-append (put_uint64 init.key_seq) (put_uint64 init.seq),
  length-put_uint64 init.key_seq,
  length-put_uint64 init.seq,
)

module _ (ed : Ed25519) (box : Box) (curve : Curve ed box) (init : SessionInit)
    (from to : PrivateKey) (ephemeral : BoxPriv) (v : IsInit init) where
  from_pub : BoxPub
  from_pub = box.public ephemeral

  body : Bytes
  body = init_body init

  sig : Bytes
  sig = ed.sign from (box.public ephemeral ++ init_body init)

  boxed : Bytes
  boxed =
      box.seal (sig ++ body) (nonce_for_uint64 0)
        (box.shared (curve.to_box_pub (ed.public to)) ephemeral)

  -- The bytes after the type.
  message : Bytes
  message = from_pub ++ boxed

  length-message : length message ≡ 192
  unfolding message from_pub boxed sig body
  length-message = omega (
    arith,
    length-append from_pub boxed,
    box.length-public ephemeral,
    box.length-seal (sig ++ body) (nonce_for_uint64 0)
        (box.shared (curve.to_box_pub (ed.public to)) ephemeral),
    length-append sig body,
    ed.sign-IsSignature from (box.public ephemeral ++ init_body init),
    length-init_body init v,
  )

  encrypt-message :
      encrypt ed box curve init from (ed.public to) ephemeral ≡ ok (type_init ∷ message)
  unfolding encrypt message from_pub boxed sig body
  encrypt-message = rw (sized) refl
    where
      sized : (suc (length message) == 193) ≡ true
      sized = ground (arith, length-message)

  opens :
      box.open_box boxed (nonce_for_uint64 0) (box.shared from_pub (curve.to_box_priv to))
      ≡ some (sig ++ body)
  unfolding boxed from_pub
  opens =
      ap (box.open_box boxed (nonce_for_uint64 0)) (
        box.shared_comm ephemeral (curve.to_box_priv to)
        ∙ ap (λ (k : BoxPub). box.shared k ephemeral) (sym (curve.agree to)))
      ∙ box.open_box-seal (sig ++ body) (nonce_for_uint64 0)
          (box.shared (curve.to_box_pub (ed.public to)) ephemeral)

  checked : checked_init ed box curve (ed.public from) from_pub (sig ++ body) ≡ some init
  unfolding checked_init sig body from_pub
  checked =
      rw
        (
          take_first 64 sig body
              (ed.sign-IsSignature from (box.public ephemeral ++ init_body init)),
          drop_first 64 sig body
              (ed.sign-IsSignature from (box.public ephemeral ++ init_body init)),
          ed.verify-sign from (box.public ephemeral ++ init_body init),
          read_body-init_body init v,
        )
        refl

  -- Whatever the type byte is.
  decrypt-message :
      (kind : ℕ)
      → decrypt ed box curve (curve.to_box_priv to) (ed.public from) (kind ∷ message) ≡ some init
  unfolding decrypt message from_pub
  decrypt-message kind =
      rw
        (
          sized,
          take_first 32 from_pub boxed (box.length-public ephemeral),
          drop_first 32 from_pub boxed (box.length-public ephemeral),
          opens,
        )
        (ap (λ (k : BoxPub). checked_init ed box curve (ed.public from) k (sig ++ body))
            (take_first 32 from_pub boxed (box.length-public ephemeral))
          ∙ checked)
    where
      sized : (suc (length message) == 193) ≡ true
      sized = ground (arith, length-message)

  -- Encrypting an init, or an ack, for a node neither fails nor panics, and the node reads it back with
  -- its own key and the sender's public key. The init's keys have 32 bytes and its numbers are uint64s.
  pub decrypt-encrypt :
      (bytes ack_bytes : Bytes) × (encrypt ed box curve init from (ed.public to) ephemeral
        ≡ ok bytes)
      × (encrypt_ack ed box curve init from (ed.public to) ephemeral ≡ ok ack_bytes)
      × (decrypt ed box curve (curve.to_box_priv to) (ed.public from) bytes ≡ some init)
      × (decrypt ed box curve (curve.to_box_priv to) (ed.public from) ack_bytes ≡ some init)
  unfolding encrypt_ack
  decrypt-encrypt = (
    type_init ∷ message,
    type_ack ∷ message,
    encrypt-message,
    rw encrypt-message refl,
    decrypt-message type_init,
    decrypt-message type_ack,
  )
