-- ===== src/Session/Manager/Handshake.antt =====
-- A first message between two nodes: init, ack, and the sessions that they leave.
use ironwood.Base.{ℕ, ◌+◌, ◌-◌, ◌%◌, ◌^◌, ◌<◌, ◌≡◌, refl, false, [], ◌∷◌, none, some, leb, arith}
use ironwood.Wire.{IsU64}
use ironwood.Crypto.{PublicKey}
use ironwood.Keyed.{lookup, has-lookup-none}
use ironwood.Session.{
  Box, BoxPriv, SessionInfo, SessionInit, Effect, write_to, deliver, send_init, send_ack,
  reset_timer, next64, init_of, fix_shared, advance, new_session, handle_update, do_send,
}
use ironwood.Session
use ironwood.Session.Ratchet.{IsKeyed, IsAhead}
use ironwood.Session.Manager.{
  SessionBuffer, Manager, done_for, drew, key_at, save, make_session, take_over, session_for_init,
  flush, handle_init, handle_ack, started,
}

module _ (box : Box) where
  newer : (seq : ℕ) → 0 < seq → seq < 2 ^ 64 → leb seq ((seq + 2 ^ 64 - 1) % 2 ^ 64) ≡ false
  newer seq lo hi = ground arith

  -- A session that was just made takes the init it was made for.
  update_new :
      (info : SessionInfo) (init : SessionInit) (fresh : BoxPriv) (unix : ℕ)
      → info.seq ≡ (init.seq + 2 ^ 64 - 1) % 2 ^ 64
      → 0 < init.seq
      → init.seq < 2 ^ 64
      → Session.handle_init box info init fresh unix ≡ (
        (handle_update box info init fresh).0,
        reset_timer ∷ send_ack (init_of (handle_update box info init fresh).0 unix) ∷ [],
      )
  unfolding Session.handle_init handle_update
  update_new info init fresh unix e lo hi = rw (old) refl
    where
      old : leb init.seq info.seq ≡ false
      old = rw e (newer init.seq lo hi)

  pub session_new :
      (mgr : Manager) (pub_key : PublicKey) (init : SessionInit)
      → lookup pub_key mgr.sessions ≡ none
      → lookup pub_key mgr.buffers ≡ none
      → (mgr' : Manager) × (session_for_init box mgr pub_key init
          ≡ (make_session box mgr pub_key init, none, mgr'))
  unfolding session_for_init save
  session_new mgr pub_key init fresh alone = rw (fresh, session_for_init, alone) (_, refl)

  pub session_buffered :
      (mgr : Manager) (pub_key : PublicKey) (init : SessionInit) (buf : SessionBuffer)
      → lookup pub_key mgr.sessions ≡ none
      → lookup pub_key mgr.buffers ≡ some buf
      → (mgr' : Manager) × (session_for_init box mgr pub_key init
          ≡ (take_over box (make_session box mgr pub_key init) buf, some buf, mgr'))
  unfolding session_for_init save
  session_buffered mgr pub_key init buf fresh waits = rw (fresh, session_for_init, waits) (_, refl)

  -- The end of the node that was asked, and the end of the one that asked.
  unfoldable pub joined : Manager → PublicKey → SessionInit → BoxPriv → SessionInfo
  joined mgr pub_key init fresh =
      (handle_update box (make_session box mgr pub_key init) init fresh).0

  unfoldable pub answered :
      Manager → PublicKey → SessionBuffer → SessionInit → BoxPriv → SessionInfo
  answered mgr pub_key buf ack fresh =
      (handle_update box (take_over box (make_session box mgr pub_key ack) buf) ack fresh).0

  pub joined-IsKeyed :
      (mgr : Manager) (pub_key : PublicKey) (init : SessionInit) (fresh : BoxPriv)
      → IsU64 init.key_seq
      → IsKeyed box (joined mgr pub_key init fresh)
  unfolding joined handle_update fix_shared advance make_session new_session
  joined-IsKeyed mgr pub_key init fresh h = record {
    recv_pub = refl;
    send_pub = refl;
    next_pub = refl;
    recv_shared = refl;
    send_shared = refl;
    next_send_shared = refl;
    local_fits = omega arith;
    remote_fits = h;
  }

  -- The keys of a buffer are those of its init.
  pub record IsBuffer (buf : SessionBuffer) : Type 0 where
    pub current : buf.init.current ≡ box.public buf.current_priv
    pub next : buf.init.next ≡ box.public buf.next_priv
    pub first : buf.init.key_seq ≡ 0

  pub answered-IsKeyed :
      (mgr : Manager) (pub_key : PublicKey) (buf : SessionBuffer) (ack : SessionInit)
      (fresh : BoxPriv)
      → IsBuffer buf
      → IsU64 ack.key_seq
      → IsKeyed box (answered mgr pub_key buf ack fresh)
  unfolding answered take_over handle_update fix_shared advance make_session new_session
  answered-IsKeyed mgr pub_key buf ack fresh v h = record {
    recv_pub = v.current;
    send_pub = v.next;
    next_pub = refl;
    recv_shared = refl;
    send_shared = refl;
    next_send_shared = refl;
    local_fits = omega arith;
    remote_fits = h;
  }

  -- After the handshake the node that asked is ahead.
  pub answered-IsAhead :
      (alice bob : Manager) (a_key b_key : PublicKey) (buf : SessionBuffer) (fresh fresh' : BoxPriv)
      (unix : ℕ)
      → IsBuffer buf
      → IsAhead box
          (answered alice b_key buf (init_of (joined bob a_key buf.init fresh) unix) fresh')
          (joined bob a_key buf.init fresh)
  unfolding answered joined take_over handle_update fix_shared advance make_session new_session
      init_of
  answered-IsAhead alice bob a_key b_key buf fresh fresh' unix v = record {
    current = refl;
    next = refl;
    remote_key_seq = refl;
    their_current = refl;
    their_next = refl;
    their_key_seq = rw v.first refl;
    their_nonce = omega arith;
    nonce = omega arith;
    unused = refl;
  }

  -- The session that handle_init leaves, and what it does, from those of session_for_init.
  pub left_by_init :
      (mgr mgr' : Manager) (pub_key : PublicKey) (init : SessionInit) (unix : ℕ)
      (info : SessionInfo)
      → session_for_init box mgr pub_key init ≡ (info, none, mgr')
      → info.seq ≡ (init.seq + 2 ^ 64 - 1) % 2 ^ 64
      → 0 < init.seq
      → init.seq < 2 ^ 64
      → lookup pub_key mgr.sessions ≡ none
      → (handle_init box mgr pub_key init unix ≡ (
        save pub_key (handle_update box info init (key_at mgr' 0)).0 (drew 2 mgr'),
        (pub_key, reset_timer)
            ∷ (pub_key, reset_timer)
            ∷ (pub_key, send_ack (init_of (handle_update box info init (key_at mgr' 0)).0 unix))
            ∷ [],
      ))
  unfolding handle_init flush started
  left_by_init mgr mgr' pub_key init unix info e old lo hi fresh =
      rw
        (
          e,
          update_new info init (key_at mgr' 0) unix old lo hi,
          has-lookup-none pub_key mgr.sessions fresh,
        )
        refl

  pub left_by_ack :
      (mgr mgr' : Manager) (pub_key : PublicKey) (ack : SessionInit) (unix : ℕ) (info : SessionInfo)
      (buf : SessionBuffer)
      → session_for_init box mgr pub_key ack ≡ (info, some buf, mgr')
      → info.seq ≡ (ack.seq + 2 ^ 64 - 1) % 2 ^ 64
      → 0 < ack.seq
      → ack.seq < 2 ^ 64
      → lookup pub_key mgr.sessions ≡ none
      → (handle_ack box mgr pub_key ack unix ≡ (
        save pub_key
            (do_send box (handle_update box info ack (key_at mgr' 0)).0 buf.bytes (key_at mgr' 1)).0
            (drew 2 mgr'),
        (pub_key, reset_timer)
            ∷ (pub_key, reset_timer)
            ∷ (pub_key, send_ack (init_of (handle_update box info ack (key_at mgr' 0)).0 unix))
            ∷ done_for pub_key
                (do_send box
                  (handle_update box info ack (key_at mgr' 0)).0
                  buf.bytes
                  (key_at mgr' 1)).1,
      ))
  unfolding handle_ack flush started
  left_by_ack mgr mgr' pub_key ack unix info buf e old lo hi fresh =
      rw
        (
          has-lookup-none pub_key mgr.sessions fresh,
          e,
          update_new info ack (key_at mgr' 0) unix old lo hi,
        )
        refl
