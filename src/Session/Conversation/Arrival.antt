-- ===== src/Session/Conversation/Arrival.antt =====
-- A conversation in which the keys rotate in step.
use ironwood.Base.{
  map, ◌+◌, ◌^◌, ◌≤◌, ◌<◌, ◌≡◌, ◌⊎◌, refl, ap, ◌∙◌, inl, inr, true, false, List, [], ◌∷◌, length,
  arith, Bool-cases,
}
use ironwood.Types.{ok}
use ironwood.Wire.{Bytes}
use ironwood.Session.{Box, SessionInfo, next64, do_send, fix_shared, advance}
use ironwood.Session.Recv.{
  Way, to_recv, to_next_send, way, last_nonce, key_of, may_rotate, rotate, on_success, counted,
}
use ironwood.Session.Ratchet.{IsKeyed, IsAhead, sender, delivered}
use ironwood.Session.Conversation.{
  Turn, written, deliveries, carry, say, converse, way_forth, way_back, key_forth, key_back, sent,
  do_send-sent, sender-IsKeyed, sent-IsKeyed,
}

swap : {A B : Type 0} → A ⊎ B → B ⊎ A
swap (inl a) = inr a
swap (inr b) = inl b

module _ (box : Box) where
  -- What a message that was said leaves behind: it arrives, and one end is ahead of the other.
  pub record Said (s r : SessionInfo) (t : Turn) : Type 0 where
    pub s' : SessionInfo
    pub r' : SessionInfo
    pub arrives : say box s r t ≡ ok (s', r', t.msg ∷ [])
    pub keyed_s : IsKeyed box s'
    pub keyed_r : IsKeyed box r'
    pub ahead : IsAhead box s' r' ⊎ IsAhead box r' s'
    pub nonce_s : s'.send_nonce ≤ s.send_nonce + 1
    pub nonce_r : r'.send_nonce ≤ r.send_nonce

  pub say_arrives :
      (w : Way) (s r : SessionInfo) (t : Turn)
      → IsKeyed box s
      → s.send_nonce + 1 < 2 ^ 64
      → way r s.local_key_seq s.remote_key_seq ≡ w
      → (w ≡ to_recv) ⊎ (w ≡ to_next_send)
      → last_nonce w r < s.send_nonce + 1
      → key_of w r ≡ s.send_shared
      → say box s r t
        ≡ ok (
          sent box s t.msg,
          counted (on_success box w r (s.send_nonce + 1) s.next_pub t.now t.fresh_receiver) t.msg,
          t.msg ∷ [],
        )
  unfolding say carry written deliveries
  say_arrives w s r t k h found known later same =
      rw
        (
          do_send-sent box s t.msg t.fresh_sender h,
          delivered box w (sender box s) r t.msg t.now t.unix t.fresh_receiver
              (sender-IsKeyed box s k) h found known later same,
        )
        refl

  -- The receiver that keeps its keys, and the one that rotates them.
  noted-Said :
      (a b : SessionInfo) (t : Turn)
      → IsAhead box a b
      → IsKeyed box a
      → IsKeyed box b
      → a.send_nonce + 1 < 2 ^ 64
      → may_rotate b.rotated t.now ≡ false
      → Said a b t
  unfolding sent counted on_success last_nonce key_of
  noted-Said a b t h ka kb fits keep = record {
    s' = sent box a t.msg;
    r' = counted (record b { next_send_nonce = a.send_nonce + 1 }) t.msg;
    arrives =
        say_arrives to_next_send a b t ka fits (way_forth box a b h kb) (inr refl)
          (omega (arith, h.their_nonce)) (key_forth box a b h ka kb)
        ∙ rw (keep, on_success) refl;
    keyed_s = sent-IsKeyed box a t.msg ka;
    keyed_r = record {
      recv_pub = kb.recv_pub;
      send_pub = kb.send_pub;
      next_pub = kb.next_pub;
      recv_shared = kb.recv_shared;
      send_shared = kb.send_shared;
      next_send_shared = kb.next_send_shared;
      local_fits = kb.local_fits;
      remote_fits = kb.remote_fits;
    };
    ahead = inl record {
      current = h.current;
      next = h.next;
      remote_key_seq = h.remote_key_seq;
      their_current = h.their_current;
      their_next = h.their_next;
      their_key_seq = h.their_key_seq;
      their_nonce = omega arith;
      nonce = h.nonce;
      unused = h.unused;
    };
    nonce_s = omega arith;
    nonce_r = omega arith;
  }

  rotated-Said :
      (a b : SessionInfo) (t : Turn)
      → IsAhead box a b
      → IsKeyed box a
      → IsKeyed box b
      → a.send_nonce + 1 < 2 ^ 64
      → may_rotate b.rotated t.now ≡ true
      → Said a b t
  unfolding sent counted on_success rotate fix_shared advance last_nonce key_of
  rotated-Said a b t h ka kb fits turn = record {
    s' = sent box a t.msg;
    r' =
        counted
          (rotate box (record b { next_send_nonce = a.send_nonce + 1 }) (a.send_nonce + 1)
            a.next_pub t.now t.fresh_receiver)
          t.msg;
    arrives =
        say_arrives to_next_send a b t ka fits (way_forth box a b h kb) (inr refl)
          (omega (arith, h.their_nonce)) (key_forth box a b h ka kb)
        ∙ rw (turn, on_success) refl;
    keyed_s = sent-IsKeyed box a t.msg ka;
    keyed_r = record {
      recv_pub = kb.send_pub;
      send_pub = kb.next_pub;
      next_pub = refl;
      recv_shared = refl;
      send_shared = refl;
      next_send_shared = refl;
      local_fits = omega arith;
      remote_fits = omega arith;
    };
    ahead = inr record {
      current = h.their_next;
      next = refl;
      remote_key_seq = h.their_key_seq;
      their_current = h.current;
      their_next = h.next;
      their_key_seq = ap next64 h.remote_key_seq;
      their_nonce = omega (arith, h.unused);
      nonce = omega arith;
      unused = refl;
    };
    nonce_s = omega arith;
    nonce_r = omega arith;
  }

  forth-Said :
      (a b : SessionInfo) (t : Turn)
      → IsAhead box a b
      → IsKeyed box a
      → IsKeyed box b
      → a.send_nonce + 1 < 2 ^ 64
      → Said a b t
  forth-Said a b t h ka kb fits = elim (Bool-cases (may_rotate b.rotated t.now)) [
    | inl turn ↦ rotated-Said a b t h ka kb fits turn
    | inr keep ↦ noted-Said a b t h ka kb fits keep
  ]

  back-Said :
      (a b : SessionInfo) (t : Turn)
      → IsAhead box a b
      → IsKeyed box a
      → IsKeyed box b
      → b.send_nonce + 1 < 2 ^ 64
      → Said b a t
  unfolding sent counted on_success last_nonce key_of
  back-Said a b t h ka kb fits = record {
    s' = sent box b t.msg;
    r' = counted (record a { recv_nonce = b.send_nonce + 1 }) t.msg;
    arrives =
        say_arrives to_recv b a t kb fits (way_back box a b h) (inl refl) (omega (arith, h.nonce))
          (key_back box a b h ka kb);
    keyed_s = sent-IsKeyed box b t.msg kb;
    keyed_r = record {
      recv_pub = ka.recv_pub;
      send_pub = ka.send_pub;
      next_pub = ka.next_pub;
      recv_shared = ka.recv_shared;
      send_shared = ka.send_shared;
      next_send_shared = ka.next_send_shared;
      local_fits = ka.local_fits;
      remote_fits = ka.remote_fits;
    };
    ahead = inr record {
      current = h.current;
      next = h.next;
      remote_key_seq = h.remote_key_seq;
      their_current = h.their_current;
      their_next = h.their_next;
      their_key_seq = h.their_key_seq;
      their_nonce = h.their_nonce;
      nonce = omega arith;
      unused = h.unused;
    };
    nonce_s = omega arith;
    nonce_r = omega arith;
  }

  -- Whichever end is ahead, a message from either end arrives.
  pub either-Said :
      (s r : SessionInfo) (t : Turn)
      → IsAhead box s r ⊎ IsAhead box r s
      → IsKeyed box s
      → IsKeyed box r
      → s.send_nonce + 1 < 2 ^ 64
      → Said s r t
  either-Said s r t (inl h) ks kr fits = forth-Said s r t h ks kr fits
  either-Said s r t (inr h) ks kr fits = back-Said r s t h kr ks fits

  abbrev pub msgs_of : List Turn → List Bytes
  msgs_of ts = map (λ t. t.msg) ts

  -- Two ends of a session of which one is ahead, and whose keys belong together on each side, agree on
  -- keys and nonces for good: where each packet is handed over at once, before the next message is
  -- sent, the receiver opens and delivers every message, from whichever end it comes and whenever
  -- the keys rotate, as long as there are fewer messages than nonces left.
  pub converse-msgs_of :
      (a b : SessionInfo) (ts : List Turn)
      → IsAhead box a b ⊎ IsAhead box b a
      → IsKeyed box a
      → IsKeyed box b
      → a.send_nonce + length ts < 2 ^ 64
      → b.send_nonce + length ts < 2 ^ 64
      → converse box a b ts ≡ ok (msgs_of ts)
  unfolding converse do_send
  converse-msgs_of a b [] h ka kb fa fb = refl
  converse-msgs_of a b (t ∷ ts) h ka kb fa fb = elim (Bool-cases t.from_first) [
    | inl first ↦
        let said = either-Said a b t h ka kb (omega arith) in
        rw
          (
            first,
            said.arrives,
            converse-msgs_of said.s' said.r' ts said.ahead said.keyed_s said.keyed_r
                (omega (arith, said.nonce_s)) (omega (arith, said.nonce_r)),
          )
          refl
    | inr second ↦
        let said = either-Said b a t (swap h) kb ka (omega arith) in
        rw
          (
            second,
            said.arrives,
            converse-msgs_of said.r' said.s' ts (swap said.ahead) said.keyed_r said.keyed_s
                (omega (arith, said.nonce_r)) (omega (arith, said.nonce_s)),
          )
          refl
  ]
