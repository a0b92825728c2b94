-- ===== src/Signed.antt =====
-- signed/packetconn.go: packets that are signed for the node they are sent to.
pub mod Delivery
pub mod Tests
use ironwood.Base.{
  ℕ, ◌+◌, ◌-◌, ◌%◌, ◌^◌, ◌≡◌, Bool, true, false, List, [], ◌∷◌, ◌++◌, Option, none, some, ltb,
  if◌then◌else◌, length, take, drop,
}
use ironwood.Types.{Result, ok, err, panic, Error, err_bad_address}
use ironwood.Wire.{Bytes}
use ironwood.Crypto.{PublicKey, PrivateKey, Ed25519, signature_size}

pub record PacketConn : Type 0 where
  pub secret : PrivateKey
  pub public : PublicKey

-- net.Addr, which is an Addr of this library or another address.
pub data NetAddr : Type 0 where
  addr : PublicKey → NetAddr
  other : NetAddr

-- `copy(p, msg)` for a buffer of `size` bytes: the bytes that are read.
abbrev pub copied : ℕ → Bytes → Bytes
copied size msg = take size msg

module _ (ed : Ed25519) where
  pub new_packet_conn : PrivateKey → PacketConn
  new_packet_conn secret = record { secret = secret; public = ed.public secret }

  pub sign : PacketConn → Bytes → PublicKey → Bytes → Bytes
  sign pc dest to_key msg = dest ++ (ed.sign pc.secret (to_key ++ msg) ++ msg)

  pub unpack : PacketConn → Bytes → PublicKey → Option Bytes
  unpack pc bs from_key =
      let msg = drop signature_size bs in
      if ltb (length bs) signature_size
      then none
      else if ed.verify from_key (pc.public ++ msg) (take signature_size bs)
      then some msg
      else none

  -- The count of a write: the overhead is subtracted, but not below zero.
  unfoldable pub written : ℕ → Bytes → Bytes → ℕ
  written n signed msg = n - (length signed - length msg)

  -- What the network's WriteTo is called with, and what is returned from its answer.
  pub write_to :
      PacketConn
      → Bytes
      → NetAddr
      → (PublicKey → Bytes → ℕ × Option Error)
      → Option (PublicKey × Bytes) × ℕ × Option Error
  unfolding sign written
  write_to pc p other network = (none, 0, some err_bad_address)
  write_to pc p (addr to_key) network =
      let msg = sign pc [] to_key p in
      let (n, e) = network to_key msg in (some (to_key, msg), written n msg p, e)

  -- ReadFrom over what reaches the network's ReadFrom, call by call: packets with their sender, or an
  -- error. The network copies each packet into the caller's buffer of `size` bytes, as far as it fits
  -- (network/packetconn.go: `copy(p, tr.payload)`), and the message is checked there. Packets that do not
  -- verify are skipped. `none` waits for more.
  pub read_from :
      PacketConn → ℕ → List (Result (Bytes × PublicKey)) → Option (Result (Bytes × PublicKey))
  unfolding unpack
  read_from pc size [] = none
  read_from pc size (ok (bs, from) ∷ calls) =
      let rest = read_from pc size calls in
      elim (unpack pc (copied size bs) from) as (λ o. Option (Result (Bytes × PublicKey))) [
        | none ↦ rest
        | some msg ↦ some (ok (copied size msg, from))
      ]
  read_from pc size (err e ∷ calls) = some (err e)
  read_from pc size (panic ∷ calls) = some panic

-- `pc.PacketConn.MTU() - ed25519.SignatureSize` on uint64s.
unfoldable pub mtu : ℕ → ℕ
mtu inner = (inner + 2 ^ 64 - signature_size) % 2 ^ 64
