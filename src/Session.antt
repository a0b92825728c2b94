-- ===== src/Session.antt =====
-- encrypted/session.go: the state of a session and its key ratchet, over golang.org/x/crypto/nacl/box.
-- A session is an actor, so its handlers run one at a time. A time is a number of nanoseconds, and
-- `unix` the clock in seconds. A key that newBoxKeys draws is an argument, by its private part.
pub mod Recv
pub mod Ratchet
pub mod Conversation
pub mod Init
pub mod Replay
pub mod Short
pub mod Tests
pub mod Manager
use ironwood.Base.{
  ℕ, ◌+◌, ◌-◌, ◌*◌, ◌%◌, ◌^◌, ◌≡◌, Bool, true, false, List, [], ◌∷◌, ◌++◌, Option, none, some, ltb,
  leb, ◌==◌, if◌then◌else◌, length, replicate,
}
use ironwood.Wire.{Bytes, wire_append_uint}
use ironwood.Wire.BigEndian.{put_uint64}
use ironwood.Crypto.{PublicKey}

abbrev pub BoxPub : Type 0
BoxPub = Bytes

abbrev pub BoxPriv : Type 0
BoxPriv = Bytes

abbrev pub BoxShared : Type 0
BoxShared = Bytes

-- nacl/box, which the program calls and does not implement: any functions such that two pairs of keys
-- agree on their shared key, and a sealed message is 16 bytes longer and opens under the nonce and the
-- shared key that sealed it.
pub record Box : Type 0 where
  pub public : BoxPriv → BoxPub
  pub shared : BoxPub → BoxPriv → BoxShared
  pub seal : Bytes → Bytes → BoxShared → Bytes
  pub open_box : Bytes → Bytes → BoxShared → Option Bytes
  pub length-public : (k : BoxPriv) → length (public k) ≡ 32
  pub shared_comm : (j k : BoxPriv) → shared (public j) k ≡ shared (public k) j
  pub open_box-seal : (m nonce : Bytes) (s : BoxShared) → open_box (seal m nonce s) nonce s ≡ some m
  pub length-seal : (m nonce : Bytes) (s : BoxShared) → length (seal m nonce s) ≡ length m + 16

-- boxPubSize and boxOverhead
abbrev pub box_pub_size : ℕ
box_pub_size = 32

abbrev pub box_overhead : ℕ
box_overhead = 16

-- sessionTypeInit, sessionTypeAck and sessionTypeTraffic
abbrev pub type_init : ℕ
type_init = 1

abbrev pub type_ack : ℕ
type_ack = 2

abbrev pub type_traffic : ℕ
type_traffic = 3

abbrev pub traffic_overhead_min : ℕ
traffic_overhead_min = 4 + box_overhead + box_pub_size

abbrev pub minute : ℕ
minute = 60 * 10 ^ 9

-- The last eight bytes of the nonce are the number.
pub nonce_for_uint64 : ℕ → Bytes
nonce_for_uint64 n = replicate 16 0 ++ put_uint64 n

-- `order` is unique, and stands for the pointer. `rotated` is `none` for the zero time.
pub record SessionInfo : Type 0 where
  pub order : ℕ
  pub seq : ℕ
  pub ed : PublicKey
  pub remote_key_seq : ℕ
  pub current : BoxPub
  pub next : BoxPub
  pub local_key_seq : ℕ
  pub recv_priv : BoxPriv
  pub recv_pub : BoxPub
  pub recv_shared : BoxShared
  pub recv_nonce : ℕ
  pub send_priv : BoxPriv
  pub send_pub : BoxPub
  pub send_shared : BoxShared
  pub send_nonce : ℕ
  pub next_priv : BoxPriv
  pub next_pub : BoxPub
  pub rotated : Option ℕ
  pub rx : ℕ
  pub tx : ℕ
  pub next_send_shared : BoxShared
  pub next_send_nonce : ℕ
  pub next_recv_shared : BoxShared
  pub next_recv_nonce : ℕ

pub record SessionInit : Type 0 where
  pub current : BoxPub
  pub next : BoxPub
  pub key_seq : ℕ
  pub seq : ℕ

-- What a session does outside: bytes to the network, messages to the reader, an init or an ack for the
-- remote node, and its timer started anew.
pub data Effect : Type 0 where
  write_to : Bytes → Effect
  deliver : Bytes → Effect
  send_init send_ack : SessionInit → Effect
  reset_timer : Effect

-- uint64 `n + 1`
abbrev pub next64 : ℕ → ℕ
next64 n = (n + 1) % 2 ^ 64

-- newSessionInit, for the keys that a session has.
pub init_of : SessionInfo → ℕ → SessionInit
init_of info unix = record {
  current = info.send_pub;
  next = info.next_pub;
  key_seq = info.local_key_seq;
  seq = unix;
}

module _ (box : Box) where
  pub fix_shared : SessionInfo → ℕ → ℕ → SessionInfo
  fix_shared info recv_nonce send_nonce = record info {
    recv_shared = box.shared info.current info.recv_priv;
    send_shared = box.shared info.current info.send_priv;
    next_send_shared = box.shared info.next info.send_priv;
    next_recv_shared = box.shared info.next info.recv_priv;
    next_send_nonce = 0;
    next_recv_nonce = 0;
    recv_nonce = recv_nonce;
    send_nonce = send_nonce;
  }

  -- The keys for sending become those for receiving, the next ones those for sending.
  pub advance : SessionInfo → BoxPriv → SessionInfo
  advance info fresh = record info {
    recv_pub = info.send_pub;
    recv_priv = info.send_priv;
    send_pub = info.next_pub;
    send_priv = info.next_priv;
    next_pub = box.public fresh;
    next_priv = fresh;
    local_key_seq = next64 info.local_key_seq;
  }

  -- `info.seq` is one less than `seq`, so that the first update works.
  pub new_session : ℕ → PublicKey → BoxPub → BoxPub → ℕ → BoxPriv → BoxPriv → BoxPriv → SessionInfo
  unfolding fix_shared
  new_session order ed current next seq recv send after =
      let made : SessionInfo = record {
        order = order;
        seq = (seq + 2 ^ 64 - 1) % 2 ^ 64;
        ed = ed;
        remote_key_seq = 0;
        current = current;
        next = next;
        local_key_seq = 0;
        recv_priv = recv;
        recv_pub = box.public recv;
        recv_shared = [];
        recv_nonce = 0;
        send_priv = send;
        send_pub = box.public send;
        send_shared = [];
        send_nonce = 0;
        next_priv = after;
        next_pub = box.public after;
        rotated = none;
        rx = 0;
        tx = 0;
        next_send_shared = [];
        next_send_nonce = 0;
        next_recv_shared = [];
        next_recv_nonce = 0;
      } in
      fix_shared made 0 0

  pub handle_update : SessionInfo → SessionInit → BoxPriv → SessionInfo × List Effect
  unfolding fix_shared advance
  handle_update info init fresh =
      let told : SessionInfo = record info {
        current = init.current;
        next = init.next;
        seq = init.seq;
        remote_key_seq = init.key_seq;
      } in
      (fix_shared (advance told fresh) 0 info.send_nonce, reset_timer ∷ [])

  pub handle_init : SessionInfo → SessionInit → BoxPriv → ℕ → SessionInfo × List Effect
  unfolding handle_update
  handle_init info init fresh unix =
      let (info', out) = handle_update info init fresh in
      if leb init.seq info.seq
      then (info, [])
      else (info', out ++ (send_ack (init_of info' unix) ∷ []))

  pub handle_ack : SessionInfo → SessionInit → BoxPriv → SessionInfo × List Effect
  unfolding handle_update
  handle_ack info ack fresh =
      if leb ack.seq info.seq then (info, []) else handle_update info ack fresh

  -- The packet of a message: the header, and under encryption the next key before the message.
  pub packet : SessionInfo → Bytes → Bytes
  unfolding nonce_for_uint64
  packet info msg =
      wire_append_uint
        (wire_append_uint (wire_append_uint (type_traffic ∷ []) info.local_key_seq)
          info.remote_key_seq)
        info.send_nonce
      ++ box.seal (info.next_pub ++ msg) (nonce_for_uint64 info.send_nonce) info.send_shared

  -- The nonce advances before anything else; where it overflows, the keys rotate.
  pub stepped : SessionInfo → BoxPriv → SessionInfo
  unfolding fix_shared advance
  stepped info fresh =
      let more : SessionInfo = record info { send_nonce = next64 info.send_nonce } in
      if next64 info.send_nonce == 0 then fix_shared (advance more fresh) 0 0 else more

  pub do_send : SessionInfo → Bytes → BoxPriv → SessionInfo × List Effect
  unfolding packet stepped
  do_send info msg fresh =
      let info' = stepped info fresh in
      (
        record info' { tx = (info'.tx + length msg) % 2 ^ 64 },
        write_to (packet info' msg) ∷ reset_timer ∷ [],
      )
