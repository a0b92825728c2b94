-- ===== src/Session/Ratchet.antt =====
-- Two ends of a session: how their keys stand to each other, and that the packets of each open at
-- the other.
use ironwood.Base.{
  ℕ, ◌+◌, ◌%◌, ◌^◌, ◌≤◌, ◌<◌, ◌≡◌, ◌⊎◌, refl, ap, ◌∙◌, false, [], ◌∷◌, ◌++◌, suc, Option, some, ltb,
  lt→ltb, ◌==◌, length, take, drop, arith, subst, append_assoc, length-append, take-append,
  drop-append,
}
use ironwood.Types.{ok}
use ironwood.Wire.{Bytes, IsU64, wire_append_uint}
use ironwood.Wire.Uvarint.{
  uvarint, wire_append_uint-uvarint, wire_chop_uint-uvarint, length-uvarint, wire_size_uint_bounds,
}
use ironwood.Session.{
  Box, BoxPriv, SessionInfo, deliver, reset_timer, next64, packet, stepped, type_traffic,
  nonce_for_uint64,
}
use ironwood.Session.Recv.{
  Way, to_recv, to_next_send, to_next_recv, unknown, counted, way, last_nonce, key_of, on_success,
  opened, recv_way, recv_header, recv_from, do_recv,
}

module _ (box : Box) where
  -- The public keys belong to the private ones, and the shared keys are those of the keys that stand
  -- beside them.
  pub record IsKeyed (s : SessionInfo) : Type 0 where
    pub recv_pub : s.recv_pub ≡ box.public s.recv_priv
    pub send_pub : s.send_pub ≡ box.public s.send_priv
    pub next_pub : s.next_pub ≡ box.public s.next_priv
    pub recv_shared : s.recv_shared ≡ box.shared s.current s.recv_priv
    pub send_shared : s.send_shared ≡ box.shared s.current s.send_priv
    pub next_send_shared : s.next_send_shared ≡ box.shared s.next s.send_priv
    pub local_fits : IsU64 s.local_key_seq
    pub remote_fits : IsU64 s.remote_key_seq

  -- The end `a` has rotated its keys and `b` has not yet: `a` sends by the keys that `b` expects next,
  -- `b` by those that `a` received from it before.
  pub record IsAhead (a b : SessionInfo) : Type 0 where
    pub current : a.current ≡ b.send_pub
    pub next : a.next ≡ b.next_pub
    pub remote_key_seq : a.remote_key_seq ≡ b.local_key_seq
    pub their_current : b.current ≡ a.recv_pub
    pub their_next : b.next ≡ a.send_pub
    pub their_key_seq : next64 b.remote_key_seq ≡ a.local_key_seq
    pub their_nonce : b.next_send_nonce ≤ a.send_nonce
    pub nonce : a.recv_nonce ≤ b.send_nonce
    pub unused : a.next_send_nonce ≡ 0

  -- What a session sends where the nonce does not overflow.
  abbrev pub sender : SessionInfo → SessionInfo
  sender s = record s { send_nonce = s.send_nonce + 1 }

  pub stepped-sender :
      (s : SessionInfo) (fresh : BoxPriv)
      → s.send_nonce + 1 < 2 ^ 64
      → stepped box s fresh ≡ sender s
  unfolding stepped
  stepped-sender s fresh h = rw (plain) (rw (nonzero) refl)
    where
      plain : (s.send_nonce + 1) % 2 ^ 64 ≡ s.send_nonce + 1
      plain = omega arith

      nonzero : (s.send_nonce + 1 == 0) ≡ false
      nonzero = ground arith

  unfoldable pub header : SessionInfo → Bytes
  header s = uvarint s.local_key_seq ++ (uvarint s.remote_key_seq ++ uvarint s.send_nonce)

  sealed : SessionInfo → Bytes → Bytes
  sealed s msg = box.seal (s.next_pub ++ msg) (nonce_for_uint64 s.send_nonce) s.send_shared

  packet-header :
      (s : SessionInfo) (msg : Bytes) → packet box s msg ≡ type_traffic ∷ (header s ++ sealed s msg)
  unfolding packet header sealed
  packet-header s msg =
      rw
        (
          wire_append_uint-uvarint
              (wire_append_uint (wire_append_uint (type_traffic ∷ []) s.local_key_seq)
                s.remote_key_seq)
              s.send_nonce,
          wire_append_uint-uvarint (wire_append_uint (type_traffic ∷ []) s.local_key_seq)
              s.remote_key_seq,
          wire_append_uint-uvarint (type_traffic ∷ []) s.local_key_seq,
          append_assoc (uvarint s.local_key_seq) (uvarint s.remote_key_seq) (uvarint s.send_nonce),
        )
        refl

  pub recv_header-header :
      (s : SessionInfo) (boxed : Bytes)
      → IsU64 s.local_key_seq
      → IsU64 s.remote_key_seq
      → IsU64 s.send_nonce
      → recv_header (header s ++ boxed)
        ≡ some (s.local_key_seq, s.remote_key_seq, s.send_nonce, boxed)
  unfolding recv_header header
  recv_header-header s boxed hl hr hn =
      rw
        (
          append_assoc (uvarint s.local_key_seq) (uvarint s.remote_key_seq ++ uvarint s.send_nonce)
              boxed,
          append_assoc (uvarint s.remote_key_seq) (uvarint s.send_nonce) boxed,
          wire_chop_uint-uvarint s.local_key_seq
              (uvarint s.remote_key_seq ++ (uvarint s.send_nonce ++ boxed)) hl,
          recv_header,
          wire_chop_uint-uvarint s.remote_key_seq (uvarint s.send_nonce ++ boxed) hr,
          wire_chop_uint-uvarint s.send_nonce boxed hn,
        )
        refl

  long_enough : (s : SessionInfo) (msg : Bytes) → IsKeyed s → 51 ≤ length (header s ++ sealed s msg)
  unfolding header sealed
  long_enough s msg k = omega (
    arith,
    length-append (uvarint s.local_key_seq ++ (uvarint s.remote_key_seq ++ uvarint s.send_nonce))
        (box.seal (s.next_pub ++ msg) (nonce_for_uint64 s.send_nonce) s.send_shared),
    length-append (uvarint s.local_key_seq) (uvarint s.remote_key_seq ++ uvarint s.send_nonce),
    length-append (uvarint s.remote_key_seq) (uvarint s.send_nonce),
    length-uvarint s.local_key_seq,
    length-uvarint s.remote_key_seq,
    length-uvarint s.send_nonce,
    wire_size_uint_bounds s.local_key_seq,
    wire_size_uint_bounds s.remote_key_seq,
    wire_size_uint_bounds s.send_nonce,
    box.length-seal (s.next_pub ++ msg) (nonce_for_uint64 s.send_nonce) s.send_shared,
    length-append s.next_pub msg,
    ap (λ (b : Bytes). length b) k.next_pub,
    box.length-public s.next_priv,
  )

  pub recv_way-opened :
      (w : Way) (b : SessionInfo) (nonce : ℕ) (boxed : Bytes) (now unix : ℕ) (fresh : BoxPriv)
      → (w ≡ to_recv) ⊎ (w ≡ to_next_send)
      → last_nonce w b < nonce
      → recv_way box w b nonce boxed now unix fresh
        ≡ opened box w b nonce
            (box.open_box boxed (nonce_for_uint64 nonce) (key_of w b))
            now
            unix
            fresh
  unfolding recv_way
  recv_way-opened to_recv b nonce boxed now unix fresh known later =
      rw (lt→ltb _ _ later, recv_way) refl
  recv_way-opened to_next_send b nonce boxed now unix fresh known later =
      rw (lt→ltb _ _ later, recv_way) refl
  recv_way-opened to_next_recv b nonce boxed now unix fresh known later =
      absurd (ground (arith, known))
  recv_way-opened unknown b nonce boxed now unix fresh known later = absurd (ground (arith, known))

  opened_whole :
      (w : Way) (b : SessionInfo) (nonce : ℕ) (inner msg : Bytes) (now unix : ℕ) (fresh : BoxPriv)
      → length inner ≡ 32
      → opened box w b nonce (some (inner ++ msg)) now unix fresh
        ≡ ok
            (counted (on_success box w b nonce inner now fresh) msg, deliver msg ∷ reset_timer ∷ [])
  unfolding opened
  opened_whole w b nonce inner msg now unix fresh h =
      rw
        (
          short,
          subst (λ (n : ℕ). take n (inner ++ msg) ≡ inner) h (take-append inner msg),
          subst (λ (n : ℕ). drop n (inner ++ msg) ≡ msg) h (drop-append inner msg),
        )
        refl
    where
      short : ltb (length (inner ++ msg)) 32 ≡ false
      short = ground (arith, length-append inner msg, h)

  pub recv_from-header :
      (b : SessionInfo) (bs boxed : Bytes) (remote local nonce now unix : ℕ) (fresh : BoxPriv)
      → recv_header bs ≡ some (remote, local, nonce, boxed)
      → recv_from box b bs now unix fresh
        ≡ recv_way box (way b remote local) b nonce boxed now unix fresh
  unfolding recv_from
  recv_from-header b bs boxed remote local nonce now unix fresh e = rw (e, recv_from) refl

  pub do_recv-recv_from :
      (b : SessionInfo) (bs : Bytes) (now unix : ℕ) (fresh : BoxPriv)
      → 51 ≤ length bs
      → do_recv box b (type_traffic ∷ bs) now unix fresh ≡ recv_from box b bs now unix fresh
  unfolding do_recv
  do_recv-recv_from b bs now unix fresh h = rw short refl
    where
      short : ltb (suc (length bs)) 52 ≡ false
      short = ground arith

  -- A packet that is not old, by way `w`, under the key that the receiver keeps for it: its message is
  -- delivered.
  pub delivered :
      (w : Way) (a b : SessionInfo) (msg : Bytes) (now unix : ℕ) (fresh : BoxPriv)
      → IsKeyed a
      → IsU64 a.send_nonce
      → way b a.local_key_seq a.remote_key_seq ≡ w
      → (w ≡ to_recv) ⊎ (w ≡ to_next_send)
      → last_nonce w b < a.send_nonce
      → key_of w b ≡ a.send_shared
      → do_recv box b (packet box a msg) now unix fresh
        ≡ ok (
          counted (on_success box w b a.send_nonce a.next_pub now fresh) msg,
          deliver msg ∷ reset_timer ∷ [],
        )
  unfolding sealed
  delivered w a b msg now unix fresh k hn found known later same =
      ap (λ (bs : Bytes). do_recv box b bs now unix fresh) (packet-header a msg)
      ∙ do_recv-recv_from b (header a ++ sealed a msg) now unix fresh (long_enough a msg k)
      ∙ recv_from-header b (header a ++ sealed a msg) (sealed a msg) a.local_key_seq
          a.remote_key_seq a.send_nonce now unix fresh
          (recv_header-header a (sealed a msg) k.local_fits k.remote_fits hn)
      ∙ ap (λ (v : Way). recv_way box v b a.send_nonce (sealed a msg) now unix fresh) found
      ∙ recv_way-opened w b a.send_nonce (sealed a msg) now unix fresh known later
      ∙ ap (λ (o : Option Bytes). opened box w b a.send_nonce o now unix fresh)
          (ap (box.open_box (sealed a msg) (nonce_for_uint64 a.send_nonce)) same
            ∙ box.open_box-seal (a.next_pub ++ msg) (nonce_for_uint64 a.send_nonce) a.send_shared)
      ∙ opened_whole w b a.send_nonce a.next_pub msg now unix fresh
          (ap (λ (bs : Bytes). length bs) k.next_pub ∙ box.length-public a.next_priv)
