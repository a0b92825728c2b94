-- ===== src/Session/Manager.antt =====
-- The session manager of encrypted/session.go. It and its sessions are actors; the model runs what the
-- manager hands to a session at once.
pub mod Handshake
pub mod FirstMessage
use ironwood.Base.{
  ℕ, zero, suc, ◌+◌, ◌-◌, ◌%◌, ◌^◌, Bool, true, false, List, [], ◌∷◌, ◌++◌, Option, none, some,
  ◌==◌, if◌then◌else◌, map,
}
use ironwood.Types.{Result, ok, panic, ◌>>=◌}
use ironwood.Wire.{Bytes}
use ironwood.Crypto.{PublicKey, PrivateKey, Ed25519}
use ironwood.Keyed.{KeyMap, lookup, has, insert, delete}
use ironwood.Session.{
  Box, BoxPriv, SessionInfo, SessionInit, Effect, write_to, deliver, send_init, send_ack,
  reset_timer, type_init, type_ack, type_traffic, fix_shared, new_session, do_send,
}
use ironwood.Session
use ironwood.Session.Recv.{do_recv}
use ironwood.Session.Init.{Curve, encrypt, encrypt_ack, decrypt}

pub record SessionBuffer : Type 0 where
  pub order : ℕ
  pub bytes : Bytes
  pub init : SessionInit
  pub current_priv : BoxPriv
  pub next_priv : BoxPriv

-- `random` is what newBoxKeys will draw, and `drawn` counts the draws. `next_order` numbers the sessions
-- and the buffers.
pub record Manager : Type 0 where
  pub secret_ed : PrivateKey
  pub secret_box : BoxPriv
  pub random : ℕ → BoxPriv
  pub drawn : ℕ
  pub next_order : ℕ
  pub sessions : KeyMap SessionInfo
  pub buffers : KeyMap SessionBuffer

-- What is done, and for which remote node.
abbrev pub Done : Type 0
Done = List (PublicKey × Effect)

abbrev pub done_for : PublicKey → List Effect → Done
done_for pub_key out = map (λ e. (pub_key, e)) out

-- _newSession starts the timer.
pub started : Manager → PublicKey → List Effect
started mgr pub_key = if has pub_key mgr.sessions then [] else reset_timer ∷ []

-- The manager after `n` draws.
abbrev pub drew : ℕ → Manager → Manager
drew n mgr = record mgr { drawn = mgr.drawn + n }

abbrev pub key_at : Manager → ℕ → BoxPriv
key_at mgr i = mgr.random (mgr.drawn + i)

pub save : PublicKey → SessionInfo → Manager → Manager
save pub_key info mgr = record mgr { sessions = insert pub_key info mgr.sessions }

module _ (box : Box) where
  unfoldable pub make_session : Manager → PublicKey → SessionInit → SessionInfo
  make_session mgr pub_key init =
      new_session box mgr.next_order pub_key init.current init.next init.seq (key_at mgr 0)
        (key_at mgr 1) (key_at mgr 2)

  -- The session takes over the keys of the init that waits in the buffer.
  unfoldable pub take_over : SessionInfo → SessionBuffer → SessionInfo
  take_over info buf =
      fix_shared box
        (record info {
          send_pub = buf.init.current;
          send_priv = buf.current_priv;
          next_pub = buf.init.next;
          next_priv = buf.next_priv;
        })
        0 0

  -- The session of a node, or a new one; then with the buffer for it, which is removed.
  pub session_for_init :
      Manager → PublicKey → SessionInit → SessionInfo × Option SessionBuffer × Manager
  unfolding make_session take_over save
  session_for_init mgr pub_key init =
      let fresh = make_session mgr pub_key init in
      let made : Manager = record (drew 3 mgr) { next_order = mgr.next_order + 1 } in
      elim (lookup pub_key mgr.sessions) [
        | some info ↦ (info, none, mgr)
        | none ↦ elim (lookup pub_key mgr.buffers) [
          | none ↦ (fresh, none, save pub_key fresh made)
          | some buf ↦ (
            take_over fresh buf,
            some buf,
            save pub_key (take_over fresh buf)
                (record made { buffers = delete pub_key mgr.buffers }),
          )
        ]
      ]

  -- Data that waited in the buffer is sent.
  pub flush : Option SessionBuffer → SessionInfo → BoxPriv → SessionInfo × List Effect
  flush none info fresh = (info, [])
  flush (some buf) info fresh = do_send box info buf.bytes fresh

  pub handle_init : Manager → PublicKey → SessionInit → ℕ → Manager × Done
  unfolding session_for_init flush save started
  handle_init mgr pub_key init unix =
      let (info, buf, mgr1) = session_for_init mgr pub_key init in
      let (info1, out1) = Session.handle_init box info init (key_at mgr1 0) unix in
      let (info2, out2) = flush buf info1 (key_at mgr1 1) in
      (save pub_key info2 (drew 2 mgr1), done_for pub_key (started mgr pub_key ++ (out1 ++ out2)))

  pub handle_ack : Manager → PublicKey → SessionInit → ℕ → Manager × Done
  unfolding session_for_init flush save started
  handle_ack mgr pub_key ack unix =
      let (info, buf, mgr1) = session_for_init mgr pub_key ack in
      let (info1, out1) =
        if has pub_key mgr.sessions
        then Session.handle_ack box info ack (key_at mgr1 0)
        else Session.handle_init box info ack (key_at mgr1 0) unix in
      let (info2, out2) = flush buf info1 (key_at mgr1 1) in
      (save pub_key info2 (drew 2 mgr1), done_for pub_key (started mgr pub_key ++ (out1 ++ out2)))

  -- An init with keys that are forgotten, for a node without a session.
  pub new_init : Manager → ℕ → SessionInit
  new_init mgr unix = record {
    current = box.public (key_at mgr 0);
    next = box.public (key_at mgr 1);
    key_seq = 0;
    seq = unix;
  }

  unfoldable pub handle_traffic : Manager → PublicKey → Bytes → ℕ → ℕ → Result (Manager × Done)
  unfolding new_init save
  handle_traffic mgr pub_key msg now unix = elim (lookup pub_key mgr.sessions) [
    | none ↦ ok (drew 2 mgr, (pub_key, send_init (new_init mgr unix)) ∷ [])
    | some info ↦ do
      (info', out) ← do_recv box info msg now unix (key_at mgr 0)
      ok (save pub_key info' (drew 1 mgr), done_for pub_key out)
  ]

  -- The buffer for a node, or a new one.
  pub buffer_for : Manager → PublicKey → ℕ → SessionBuffer × Manager
  unfolding new_init
  buffer_for mgr pub_key unix = elim (lookup pub_key mgr.buffers) [
    | some buf ↦ (buf, mgr)
    | none ↦ (
      record {
        order = mgr.next_order;
        bytes = [];
        init = new_init mgr unix;
        current_priv = key_at mgr 0;
        next_priv = key_at mgr 1;
      },
      record (drew 2 mgr) { next_order = mgr.next_order + 1 },
    )
  ]

  pub buffer_and_init : Manager → PublicKey → Bytes → ℕ → Manager × Done
  unfolding buffer_for
  buffer_and_init mgr pub_key msg unix =
      let (buf, mgr') = buffer_for mgr pub_key unix in
      (
        record mgr' { buffers = insert pub_key (record buf { bytes = msg }) mgr'.buffers },
        (pub_key, send_init buf.init) ∷ [],
      )

  pub write_message : Manager → PublicKey → Bytes → ℕ → Manager × Done
  unfolding buffer_and_init save
  write_message mgr pub_key msg unix = elim (lookup pub_key mgr.sessions) [
    | none ↦ buffer_and_init mgr pub_key msg unix
    | some info ↦
        let (info', out) = do_send box info msg (key_at mgr 0) in
        (save pub_key info' (drew 1 mgr), done_for pub_key out)
  ]

-- The functions that are handed to time.AfterFunc: they act if the session or the buffer is still the
-- one of its node.
pub session_times_out : Manager → PublicKey → ℕ → Manager
session_times_out mgr pub_key order = elim (lookup pub_key mgr.sessions) [
  | none ↦ mgr
  | some info ↦
      if info.order == order then record mgr { sessions = delete pub_key mgr.sessions } else mgr
]

pub buffer_times_out : Manager → PublicKey → ℕ → Manager
buffer_times_out mgr pub_key order = elim (lookup pub_key mgr.buffers) [
  | none ↦ mgr
  | some buf ↦
      if buf.order == order then record mgr { buffers = delete pub_key mgr.buffers } else mgr
]

module _ (ed : Ed25519) (box : Box) (curve : Curve ed box) where
  -- Bytes from the network.
  pub handle_data : Manager → PublicKey → Bytes → ℕ → ℕ → Result (Manager × Done)
  unfolding handle_init handle_ack handle_traffic
  handle_data mgr pub_key [] now unix = ok (mgr, [])
  handle_data mgr pub_key (kind ∷ rest) now unix =
      let bytes = kind ∷ rest in
      let read = decrypt ed box curve mgr.secret_box pub_key bytes in
      let init = elim read as (λ o. Result (Manager × Done)) [
        | none ↦ ok (mgr, [])
        | some init ↦ ok (handle_init box mgr pub_key init unix)
      ] in
      let ack = elim read as (λ o. Result (Manager × Done)) [
        | none ↦ ok (mgr, [])
        | some ack ↦ ok (handle_ack box mgr pub_key ack unix)
      ] in
      if kind == type_init
      then init
      else if kind == type_ack
      then ack
      else if kind == type_traffic
      then handle_traffic box mgr pub_key bytes now unix
      else ok (mgr, [])

  -- What sendInit, sendAck and WriteTo put on the network.
  pub transmit : Manager → PublicKey × Effect → Result (Manager × List (PublicKey × Bytes))
  transmit mgr (dest, write_to bs) = ok (mgr, (dest, bs) ∷ [])
  transmit mgr (dest, send_init init) = do
    bs ← encrypt ed box curve init mgr.secret_ed dest (key_at mgr 0)
    ok (drew 1 mgr, (dest, bs) ∷ [])
  transmit mgr (dest, send_ack ack) = do
    bs ← encrypt_ack ed box curve ack mgr.secret_ed dest (key_at mgr 0)
    ok (drew 1 mgr, (dest, bs) ∷ [])
  transmit mgr (dest, deliver msg) = ok (mgr, [])
  transmit mgr (dest, reset_timer) = ok (mgr, [])
