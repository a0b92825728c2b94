-- ===== src/Session/Conversation.antt =====
-- What two ends of a session say to each other, where each packet is handed over at once.
pub mod Arrival
pub mod Taken
use ironwood.Base.{
  ℕ, map, ◌+◌, ◌%◌, ◌^◌, ◌≤◌, ◌<◌, ◌≡◌, ◌≢◌, ◌⊎◌, refl, sym, ap, ◌∙◌, inl, inr, Bool, true, false,
  not, ◌&&◌, List, [], ◌∷◌, ◌++◌, Option, none, some, ltb, ◌==◌, ==_refl, if◌then◌else◌, length,
  arith, Bool-cases,
}
use ironwood.Types.{Result, ok, panic, ◌>>=◌}
use ironwood.Wire.{Bytes, IsU64}
use ironwood.Session.{
  Box, BoxPriv, SessionInfo, Effect, write_to, deliver, send_init, send_ack, reset_timer, next64,
  packet, stepped, do_send, fix_shared, advance,
}
use ironwood.Session.Recv.{
  Way, to_recv, to_next_send, way, last_nonce, key_of, may_rotate, rotate, on_success, counted,
  do_recv,
}
use ironwood.Session.Ratchet.{IsKeyed, IsAhead, sender, stepped-sender, delivered}

-- The packets among what a session does, and the messages.
unfoldable pub written : List Effect → List Bytes
written [] = []
written (write_to bs ∷ out) = bs ∷ written out
written (_ ∷ out) = written out

unfoldable pub deliveries : List Effect → List Bytes
deliveries [] = []
deliveries (deliver msg ∷ out) = msg ∷ deliveries out
deliveries (_ ∷ out) = deliveries out

-- One message, from the first end or from the second, with the clock and the fresh keys that the two
-- ends may use.
pub record Turn : Type 0 where
  pub from_first : Bool
  pub msg : Bytes
  pub now : ℕ
  pub unix : ℕ
  pub fresh_sender : BoxPriv
  pub fresh_receiver : BoxPriv

module _ (box : Box) where
  -- The receiver takes the packets as they come.
  pub carry : SessionInfo → Turn → List Bytes → Result (SessionInfo × List Bytes)
  unfolding deliveries
  carry r t [] = ok (r, [])
  carry r t (bs ∷ more) = do
    (r', out) ← do_recv box r bs t.now t.unix t.fresh_receiver
    (r'', msgs) ← carry r' t more
    ok (r'', deliveries out ++ msgs)

  pub say : SessionInfo → SessionInfo → Turn → Result (SessionInfo × SessionInfo × List Bytes)
  unfolding carry written
  say s r t = do
    let (s', out) = do_send box s t.msg t.fresh_sender
    (r', msgs) ← carry r t (written out)
    ok (s', r', msgs)

  -- The messages that arrive, in either direction.
  pub converse : SessionInfo → SessionInfo → List Turn → Result (List Bytes)
  unfolding say
  converse a b [] = ok []
  converse a b (t ∷ ts) =
      let forth = do (a', b', msgs) ← say a b t; more ← converse a' b' ts; ok (msgs ++ more)
      in let back = do (b', a', msgs) ← say b a t; more ← converse a' b' ts; ok (msgs ++ more)
        in if t.from_first then forth else back

  -- The way that a packet of the end ahead takes at the other, and the other's back.
  pub way_forth :
      (a b : SessionInfo)
      → IsAhead box a b
      → IsKeyed box b
      → way b a.local_key_seq a.remote_key_seq ≡ to_next_send
  unfolding way
  way_forth a b h kb = ground (arith, h.remote_key_seq, h.their_key_seq, kb.remote_fits)

  pub way_back :
      (a b : SessionInfo) → IsAhead box a b → way a b.local_key_seq b.remote_key_seq ≡ to_recv
  unfolding way
  way_back a b h = ground (arith, h.remote_key_seq, h.their_key_seq)

  -- The shared keys agree.
  pub key_forth :
      (a b : SessionInfo)
      → IsAhead box a b
      → IsKeyed box a
      → IsKeyed box b
      → b.next_send_shared ≡ a.send_shared
  key_forth a b h ka kb =
      kb.next_send_shared
      ∙ ap (λ (k : Bytes). box.shared k b.send_priv) (h.their_next ∙ ka.send_pub)
      ∙ box.shared_comm a.send_priv b.send_priv
      ∙ ap (λ (k : Bytes). box.shared k a.send_priv) (sym (h.current ∙ kb.send_pub))
      ∙ sym ka.send_shared

  pub key_back :
      (a b : SessionInfo)
      → IsAhead box a b
      → IsKeyed box a
      → IsKeyed box b
      → a.recv_shared ≡ b.send_shared
  key_back a b h ka kb =
      ka.recv_shared
      ∙ ap (λ (k : Bytes). box.shared k a.recv_priv) (h.current ∙ kb.send_pub)
      ∙ box.shared_comm b.send_priv a.recv_priv
      ∙ ap (λ (k : Bytes). box.shared k b.send_priv) (sym (h.their_current ∙ ka.recv_pub))
      ∙ sym kb.send_shared

  unfoldable pub sent : SessionInfo → Bytes → SessionInfo
  sent s msg = record (sender box s) { tx = (s.tx + length msg) % 2 ^ 64 }

  pub do_send-sent :
      (s : SessionInfo) (msg : Bytes) (fresh : BoxPriv)
      → s.send_nonce + 1 < 2 ^ 64
      → do_send box s msg fresh
        ≡ (sent s msg, write_to (packet box (sender box s) msg) ∷ reset_timer ∷ [])
  unfolding do_send sent
  do_send-sent s msg fresh h = rw (stepped-sender box s fresh h) refl

  pub sender-IsKeyed : (s : SessionInfo) → IsKeyed box s → IsKeyed box (sender box s)
  sender-IsKeyed s k = record {
    recv_pub = k.recv_pub;
    send_pub = k.send_pub;
    next_pub = k.next_pub;
    recv_shared = k.recv_shared;
    send_shared = k.send_shared;
    next_send_shared = k.next_send_shared;
    local_fits = k.local_fits;
    remote_fits = k.remote_fits;
  }

  pub sent-IsKeyed : (s : SessionInfo) (msg : Bytes) → IsKeyed box s → IsKeyed box (sent s msg)
  unfolding sent
  sent-IsKeyed s msg k = record {
    recv_pub = k.recv_pub;
    send_pub = k.send_pub;
    next_pub = k.next_pub;
    recv_shared = k.recv_shared;
    send_shared = k.send_shared;
    next_send_shared = k.next_send_shared;
    local_fits = k.local_fits;
    remote_fits = k.remote_fits;
  }
