-- ===== src/Session/Short.antt =====
-- Packets of encrypted/session.go whose text, under encryption, is shorter than the key that it starts with.
use ironwood.Base.{ℕ, ◌<◌, ◌≤◌, ◌≡◌, refl, ◌∙◌, inr, ◌∷◌, ◌++◌, some, lt→ltb, length, arith}
use ironwood.Types.{panic}
use ironwood.Wire.{Bytes, IsU64}
use ironwood.Session.{
  Box, BoxPriv, SessionInfo, nonce_for_uint64, type_traffic, traffic_overhead_min, box_pub_size,
}
use ironwood.Session.Recv.{to_next_send, last_nonce, key_of, opened, do_recv}
use ironwood.Session.Ratchet.{
  IsKeyed, IsAhead, header, recv_header-header, recv_way-opened, recv_from-header,
  do_recv-recv_from,
}
use ironwood.Session.Conversation.{way_forth, key_forth}

module _ (box : Box) where
  -- What a session would send if `text` stood under the encryption: in `packet`, that is the next key
  -- and the message.
  unfoldable pub sealed_packet : SessionInfo → Bytes → Bytes
  sealed_packet s text =
      type_traffic ∷ (header box s ++ box.seal text (nonce_for_uint64 s.send_nonce) s.send_shared)

  opened_short :
      (b : SessionInfo) (nonce : ℕ) (text : Bytes) (now unix : ℕ) (fresh : BoxPriv)
      → length text < box_pub_size
      → opened box to_next_send b nonce (some text) now unix fresh ≡ panic
  unfolding opened
  opened_short b nonce text now unix fresh h = rw (lt→ltb _ _ h) refl

  -- A node with whose session this one's keys agree can make doRecv panic: with a packet that is long
  -- enough (52 bytes) and later than what was accepted, but seals fewer than the 32 bytes of a key,
  -- for the keys that the receiver expects next.
  pub do_recv-sealed_packet :
      (a b : SessionInfo) (text : Bytes) (now unix : ℕ) (fresh : BoxPriv)
      → IsAhead box a b
      → IsKeyed box a
      → IsKeyed box b
      → IsU64 a.send_nonce
      → b.next_send_nonce < a.send_nonce
      → length text < box_pub_size
      → traffic_overhead_min ≤ length (sealed_packet a text)
      → do_recv box b (sealed_packet a text) now unix fresh ≡ panic
  unfolding sealed_packet last_nonce key_of
  do_recv-sealed_packet a b text now unix fresh h ka kb fits later short long =
      let boxed = box.seal text (nonce_for_uint64 a.send_nonce) a.send_shared in
      do_recv-recv_from box b (header box a ++ boxed) now unix fresh (omega (arith, long))
      ∙ recv_from-header box b (header box a ++ boxed) boxed a.local_key_seq a.remote_key_seq
          a.send_nonce now unix fresh
          (recv_header-header box a boxed ka.local_fits ka.remote_fits fits)
      ∙ rw
          (
            way_forth box a b h kb,
            recv_way-opened box to_next_send b a.send_nonce boxed now unix fresh (inr refl) later,
            key_forth box a b h ka kb,
            box.open_box-seal text (nonce_for_uint64 a.send_nonce) a.send_shared,
          )
          (opened_short (record b { next_send_shared = a.send_shared }) a.send_nonce text now unix
            fresh short)
