-- ===== src/Signed/Delivery.antt =====
-- A signed packet is read by the node that it was written to.
use ironwood.Base.{
  ℕ, zero, suc, ◌+◌, ◌-◌, ◌≤◌, ◌≡◌, refl, ap, ◌∙◌, subst, false, List, [], ◌∷◌, ◌++◌, Option, none,
  some, ltb, length, take, drop, arith, All, length-append, take-append, drop-append,
}
use ironwood.Types.{Result, ok, err, panic, Error}
use ironwood.Wire.{Bytes}
use ironwood.Crypto.{PublicKey, PrivateKey, Ed25519}
use ironwood.Signed.{
  PacketConn, addr, new_packet_conn, sign, unpack, written, copied, write_to, read_from,
}

take_all : (n : ℕ) (xs : Bytes) → length xs ≤ n → take n xs ≡ xs
take_all zero [] h = refl
take_all zero (x ∷ xs) h = absurd (omega (arith, h))
take_all (suc n) [] h = refl
take_all (suc n) (x ∷ xs) h = ap (◌∷◌ x) (take_all n xs (omega (arith, h)))

module _ (ed : Ed25519) where
  -- A packet that does not verify, as far as the buffer holds it.
  unfoldable pub Skipped : PacketConn → ℕ → Result (Bytes × PublicKey) → Type 0
  Skipped pc size call =
      (bs : Bytes) × (from : PublicKey) × (call ≡ ok (bs, from))
      × (unpack ed pc (copied size bs) from ≡ none)

  unpack-sign :
      (a b : PrivateKey) (p : Bytes)
      → unpack ed
          (new_packet_conn ed b)
          (sign ed (new_packet_conn ed a) [] (ed.public b) p)
          (ed.public a)
        ≡ some p
  unfolding unpack sign new_packet_conn
  unpack-sign a b p = rw (long, first, last, ed.verify-sign a (ed.public b ++ p)) refl
    where
      sig : Bytes
      sig = ed.sign a (ed.public b ++ p)

      long : ltb (length (ed.sign a (ed.public b ++ p) ++ p)) 64 ≡ false
      long = ground (
        arith,
        length-append (ed.sign a (ed.public b ++ p)) p,
        ed.sign-IsSignature a (ed.public b ++ p),
      )

      first : take 64 (ed.sign a (ed.public b ++ p) ++ p) ≡ ed.sign a (ed.public b ++ p)
      first =
          subst
            (λ (n : ℕ). take n (ed.sign a (ed.public b ++ p) ++ p) ≡ ed.sign a (ed.public b ++ p))
            (ed.sign-IsSignature a (ed.public b ++ p))
            (take-append (ed.sign a (ed.public b ++ p)) p)

      last : drop 64 (ed.sign a (ed.public b ++ p) ++ p) ≡ p
      last =
          subst (λ (n : ℕ). drop n (ed.sign a (ed.public b ++ p) ++ p) ≡ p)
            (ed.sign-IsSignature a (ed.public b ++ p))
            (drop-append (ed.sign a (ed.public b ++ p)) p)

  length-sign :
      (pc : PacketConn) (to_key : PublicKey) (p : Bytes)
      → length (sign ed pc [] to_key p) ≡ length p + 64
  unfolding sign
  length-sign pc to_key p = omega (
    arith,
    length-append (ed.sign pc.secret (to_key ++ p)) p,
    ed.sign-IsSignature pc.secret (to_key ++ p),
  )

  unpack-none :
      (pc : PacketConn) (size : ℕ) (bs : Bytes) (from : PublicKey)
      → Skipped pc size (ok (bs, from))
      → unpack ed pc (copied size bs) from ≡ none
  unfolding Skipped
  unpack-none pc size bs from (bs', from', e, bad) = cc (e, bad)

  skips_one :
      (pc : PacketConn) (size : ℕ) (bs : Bytes) (from : PublicKey)
      (calls : List (Result (Bytes × PublicKey)))
      → unpack ed pc (copied size bs) from ≡ none
      → read_from ed pc size (ok (bs, from) ∷ calls) ≡ read_from ed pc size calls
  unfolding read_from
  skips_one pc size bs from calls bad = rw (bad, read_from) refl

  takes_one :
      (pc : PacketConn) (size : ℕ) (bs : Bytes) (from : PublicKey)
      (calls : List (Result (Bytes × PublicKey))) (msg : Bytes)
      → unpack ed pc (copied size bs) from ≡ some msg
      → read_from ed pc size (ok (bs, from) ∷ calls) ≡ some (ok (take size msg, from))
  unfolding read_from
  takes_one pc size bs from calls msg good = rw (good, read_from) refl

  skips :
      (pc : PacketConn) (size : ℕ) (junk calls : List (Result (Bytes × PublicKey)))
      → All (Skipped pc size) junk
      → read_from ed pc size (junk ++ calls) ≡ read_from ed pc size calls
  unfolding read_from Skipped
  skips pc size [] calls h = refl
  skips pc size (ok (bs, from) ∷ junk) calls h =
      skips_one pc size bs from (junk ++ calls) (unpack-none pc size bs from h.0)
      ∙ skips pc size junk calls h.1
  skips pc size (err e ∷ junk) calls h = absurd (ground (arith, h.0.2))
  skips pc size (panic ∷ junk) calls h = absurd (ground (arith, h.0.2))

  -- WriteTo hands one packet to the network, and says that the whole message was written where the network
  -- says so of the packet. When the node that it is for reads, with room for the message and a signature
  -- of 64 bytes, it gets the message and the writer's key, whatever packets that do not verify come
  -- before it.
  pub read_from-write_to :
      (a b : PrivateKey) (p : Bytes) (size : ℕ) (network : PublicKey → Bytes → ℕ × Option Error)
      (junk calls : List (Result (Bytes × PublicKey)))
      → length p + 64 ≤ size
      → ((to_key : PublicKey) (m : Bytes) → network to_key m ≡ (length m, none))
      → All (Skipped (new_packet_conn ed b) size) junk
      → (packet : Bytes) × (write_to ed (new_packet_conn ed a) p (addr (ed.public b)) network
          ≡ (some (ed.public b, packet), length p, none))
        × (read_from ed (new_packet_conn ed b) size (junk ++ (ok (packet, ed.public a) ∷ calls))
            ≡ some (ok (p, ed.public a)))
  unfolding write_to written
  read_from-write_to a b p size network junk calls room sends bad =
      let packet = sign ed (new_packet_conn ed a) [] (ed.public b) p in
      (
        packet,
        rw (sends (ed.public b) packet) (
            ap (λ (n : ℕ). (some (ed.public b, packet), n, none))
              (whole packet (omega (arith, length-sign (new_packet_conn ed a) (ed.public b) p)))),
        skips (new_packet_conn ed b) size junk (ok (packet, ed.public a) ∷ calls) bad
            ∙ takes_one (new_packet_conn ed b) size packet (ed.public a) calls p (
                ap (λ (m : Bytes). unpack ed (new_packet_conn ed b) m (ed.public a))
                  (take_all size packet
                    (omega (arith, room, length-sign (new_packet_conn ed a) (ed.public b) p)))
                ∙ unpack-sign a b p)
            ∙ ap (λ (m : Bytes). some (ok (m, ed.public a)))
                (take_all size p (omega (arith, room))),
      )
    where
      whole :
          (packet : Bytes)
          → length p ≤ length packet
          → length packet - (length packet - length p) ≡ length p
      whole packet h = omega (arith, h)
