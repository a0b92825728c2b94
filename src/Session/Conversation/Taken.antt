-- ===== src/Session/Conversation/Taken.antt =====
-- What doRecv of encrypted/session.go makes of one packet of the other end, and of its ack.
use ironwood.Base.{
  ℕ, ◌+◌, ◌^◌, ◌<◌, ◌≡◌, refl, sym, ap, ◌∙◌, ◌⊎◌, inl, inr, subst, true, List, [], ◌∷◌, leb, arith,
  Bool-cases,
}
use ironwood.Types.{ok}
use ironwood.Wire.{Bytes}
use ironwood.Session.{
  Box, BoxPriv, SessionInfo, deliver, reset_timer, next64, init_of, packet, handle_update,
  handle_ack, fix_shared, advance,
}
use ironwood.Session.Recv.{
  Way, to_recv, to_next_send, way, last_nonce, key_of, counted, on_success, do_recv,
}
use ironwood.Session.Ratchet.{IsKeyed, IsAhead, sender, delivered}
use ironwood.Session.Conversation.{
  Turn, sent, sender-IsKeyed, way_forth, way_back, key_forth, key_back,
}
use ironwood.Session.Conversation.Arrival.{say_arrives, either-Said}

module _ (box : Box) where
  -- The receiver `r` of what `s` sends delivers the message, and one end is ahead afterwards.
  pub record Taken (s r : SessionInfo) (msg : Bytes) (now unix : ℕ) (fresh : BoxPriv) : Type 0 where
    pub r' : SessionInfo
    pub takes :
        do_recv box r (packet box (sender box s) msg) now unix fresh
        ≡ ok (r', deliver msg ∷ reset_timer ∷ [])
    pub keyed : IsKeyed box r'
    pub ahead : IsAhead box (sent box s msg) r' ⊎ IsAhead box r' (sent box s msg)

  -- Two results of one call are the same.
  same_ends :
      (x y : SessionInfo × SessionInfo × List Bytes) → ok x ≡ ok y → (x.0 ≡ y.0) × (x.1 ≡ y.1)
  same_ends x y e =
      let same : x ≡ y = ground (arith, e) in
      (
        ap (λ (z : SessionInfo × SessionInfo × List Bytes). z.0) same,
        ap (λ (z : SessionInfo × SessionInfo × List Bytes). z.1) same,
      )

  take_way :
      (w : Way) (s r : SessionInfo) (msg : Bytes) (now unix : ℕ) (fresh : BoxPriv)
      → IsAhead box s r ⊎ IsAhead box r s
      → IsKeyed box s
      → IsKeyed box r
      → s.send_nonce + 1 < 2 ^ 64
      → way r s.local_key_seq s.remote_key_seq ≡ w
      → (w ≡ to_recv) ⊎ (w ≡ to_next_send)
      → last_nonce w r < s.send_nonce + 1
      → key_of w r ≡ s.send_shared
      → Taken s r msg now unix fresh
  take_way w s r msg now unix fresh h ks kr fits found known later same =
      let t : Turn = record {
        msg = msg;
        now = now;
        unix = unix;
        from_first = true;
        fresh_sender = fresh;
        fresh_receiver = fresh;
      } in
      let said = either-Said box s r t h ks kr fits in
      let ends =
        same_ends _ _ (sym said.arrives ∙ say_arrives box w s r t ks fits found known later same) in
      record {
        r' = counted (on_success box w r (s.send_nonce + 1) s.next_pub now fresh) msg;
        takes =
            delivered box w (sender box s) r msg now unix fresh (sender-IsKeyed box s ks) fits found
              known later same;
        keyed = subst (IsKeyed box) ends.1 said.keyed_r;
        ahead =
            subst
              (λ (x : SessionInfo). IsAhead box (sent box s msg) x ⊎ IsAhead box x (sent box s msg))
              ends.1
              (subst (λ (x : SessionInfo). IsAhead box x said.r' ⊎ IsAhead box said.r' x) ends.0
                said.ahead);
      }

  -- Whichever end is ahead, the other takes its next packet.
  pub taken :
      (s r : SessionInfo) (msg : Bytes) (now unix : ℕ) (fresh : BoxPriv)
      → IsAhead box s r ⊎ IsAhead box r s
      → IsKeyed box s
      → IsKeyed box r
      → s.send_nonce + 1 < 2 ^ 64
      → Taken s r msg now unix fresh
  unfolding last_nonce key_of
  taken s r msg now unix fresh (inl h) ks kr fits =
      take_way to_next_send s r msg now unix fresh (inl h) ks kr fits (way_forth box s r h kr)
        (inr refl) (omega (arith, h.their_nonce)) (key_forth box s r h ks kr)
  taken s r msg now unix fresh (inr h) ks kr fits =
      take_way to_recv s r msg now unix fresh (inr h) ks kr fits (way_back box r s h) (inl refl)
        (omega (arith, h.nonce)) (key_back box r s h kr ks)

  -- The other end's keys, as its ack tells them, put this end ahead.
  updated-IsAhead :
      (a b : SessionInfo) (unix : ℕ) (fresh : BoxPriv)
      → IsAhead box a b
      → IsAhead box (handle_update box b (init_of a unix) fresh).0 a
  unfolding handle_update fix_shared advance init_of
  updated-IsAhead a b unix fresh h = record {
    current = refl;
    next = refl;
    remote_key_seq = refl;
    their_current = h.current;
    their_next = h.next;
    their_key_seq = ap next64 h.remote_key_seq;
    their_nonce = omega (arith, h.unused);
    nonce = omega arith;
    unused = refl;
  }

  updated-IsKeyed :
      (a b : SessionInfo) (unix : ℕ) (fresh : BoxPriv)
      → IsKeyed box a
      → IsKeyed box b
      → IsKeyed box (handle_update box b (init_of a unix) fresh).0
  unfolding handle_update fix_shared advance init_of
  updated-IsKeyed a b unix fresh ka kb = record {
    recv_pub = kb.send_pub;
    send_pub = kb.next_pub;
    next_pub = refl;
    recv_shared = refl;
    send_shared = refl;
    next_send_shared = refl;
    local_fits = omega arith;
    remote_fits = ka.local_fits;
  }

  -- After the ack, which the end behind takes or not by its seq, one end is ahead.
  pub acked :
      (a b : SessionInfo) (unix : ℕ) (fresh : BoxPriv)
      → IsAhead box a b
      → IsKeyed box a
      → IsKeyed box b
      → (IsAhead box a (handle_ack box b (init_of a unix) fresh).0
          ⊎ IsAhead box (handle_ack box b (init_of a unix) fresh).0 a)
        × IsKeyed box (handle_ack box b (init_of a unix) fresh).0
  unfolding handle_ack
  acked a b unix fresh h ka kb = elim (Bool-cases (leb (init_of a unix).seq b.seq)) [
    | inl old ↦ rw (old) (inl h, kb)
    | inr new ↦
        rw (new) (inr (updated-IsAhead a b unix fresh h), updated-IsKeyed a b unix fresh ka kb)
  ]
