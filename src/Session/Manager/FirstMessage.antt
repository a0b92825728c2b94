-- ===== src/Session/Manager/FirstMessage.antt =====
-- The first message to a node without a session: init, ack and the message.
use ironwood.Base.{ℕ, ◌≡◌, ◌⊎◌, [], ◌∷◌, some, Member}
use ironwood.Types.{ok}
use ironwood.Wire.{Bytes}
use ironwood.Crypto.{PublicKey}
use ironwood.Keyed.{lookup}
use ironwood.Session.{
  Box, BoxPriv, SessionInfo, SessionInit, write_to, deliver, send_init, send_ack, reset_timer,
}
use ironwood.Session.Recv.{do_recv}
use ironwood.Session.Ratchet.{IsKeyed, IsAhead}
use ironwood.Session
use ironwood.Session.Manager.{
  SessionBuffer, Manager, key_at, handle_init, handle_ack, new_init, write_message,
}

module _ (box : Box) where
  -- The buffer that waits for an ack.
  waiting : Manager → Bytes → ℕ → SessionBuffer
  waiting mgr msg unix = record {
    order = mgr.next_order;
    bytes = msg;
    init = new_init box mgr unix;
    current_priv = key_at mgr 0;
    next_priv = key_at mgr 1;
  }

  -- What becomes of a first message from Alice to Bob: she sends `init`, which Bob answers with `ack`,
  -- and keeps the session `b`; that makes her send `told` and the packet `bs`, in this order, and keep the
  -- session `a`; `told` makes Bob keep the session `b1`, and `bs` makes that deliver the message and be
  -- `b'`.
  pub record Arrives (alice bob : Manager) (a_key b_key : PublicKey) (msg : Bytes)
      (t0 t1 t2 t3 now unix : ℕ) (fresh : BoxPriv) : Type 0 where
    pub init : SessionInit
    pub ack : SessionInit
    pub told : SessionInit
    pub a : SessionInfo
    pub b : SessionInfo
    pub b1 : SessionInfo
    pub b' : SessionInfo
    pub bs : Bytes
    pub sends_init : (write_message box alice b_key msg t0).1 ≡ (b_key, send_init init) ∷ []
    pub sends_ack : Member (a_key, send_ack ack) (handle_init box bob a_key init t1).1
    pub keeps_b : lookup a_key (handle_init box bob a_key init t1).0.sessions ≡ some b
    pub sends_told :
        Member
          (b_key, send_ack told)
          (handle_ack box (write_message box alice b_key msg t0).0 b_key ack t2).1
    pub sends_packet :
        Member
          (b_key, write_to bs)
          (handle_ack box (write_message box alice b_key msg t0).0 b_key ack t2).1
    pub keeps_a :
        lookup b_key
          (handle_ack box (write_message box alice b_key msg t0).0 b_key ack t2).0.sessions
        ≡ some a
    pub keeps_b1 :
        lookup a_key (handle_ack box (handle_init box bob a_key init t1).0 a_key told t3).0.sessions
        ≡ some b1
    pub delivers : do_recv box b1 bs now unix fresh ≡ ok (b', deliver msg ∷ reset_timer ∷ [])
    pub ahead : IsAhead box a b' ⊎ IsAhead box b' a
    pub keyed_a : IsKeyed box a
    pub keyed_b : IsKeyed box b'
