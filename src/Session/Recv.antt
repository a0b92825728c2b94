-- ===== src/Session/Recv.antt =====
-- doRecv of encrypted/session.go.
use ironwood.Base.{
  ℕ, ◌+◌, ◌-◌, ◌%◌, ◌^◌, Bool, true, ◌&&◌, ◌||◌, not, List, [], ◌∷◌, Option, none, some, ltb, ◌==◌,
  if◌then◌else◌, length, take, drop,
}
use ironwood.Types.{Result, ok, panic}
use ironwood.Wire.{Bytes, wire_chop_uint}
use ironwood.Session.{
  Box, BoxPub, BoxPriv, BoxShared, SessionInfo, Effect, deliver, send_init, reset_timer, next64,
  init_of, minute, type_traffic, traffic_overhead_min, box_pub_size, fix_shared, advance,
  nonce_for_uint64,
}

-- The cases of the switch: which keys a message is sealed for.
pub data Way : Type 0 where
  to_recv to_next_send to_next_recv unknown : Way

unfoldable pub way : SessionInfo → ℕ → ℕ → Way
way info remote_key_seq local_key_seq =
    let from_current = remote_key_seq == info.remote_key_seq in
    let from_next = remote_key_seq == next64 info.remote_key_seq in
    let for_recv = next64 local_key_seq == info.local_key_seq in
    let for_send = local_key_seq == info.local_key_seq in
    if from_current && for_recv
    then to_recv
    else if from_next && for_send
    then to_next_send
    else if from_next && for_recv
    then to_next_recv
    else unknown

-- The last nonce that was accepted this way, and the key.
unfoldable pub last_nonce : Way → SessionInfo → ℕ
last_nonce to_recv info = info.recv_nonce
last_nonce to_next_send info = info.next_send_nonce
last_nonce to_next_recv info = info.next_recv_nonce
last_nonce unknown info = 0

unfoldable pub key_of : Way → SessionInfo → BoxShared
key_of to_recv info = info.recv_shared
key_of to_next_send info = info.next_send_shared
key_of to_next_recv info = info.next_recv_shared
key_of unknown info = []

-- `info.rotated.IsZero() || time.Since(info.rotated) > time.Minute`
pub may_rotate : Option ℕ → ℕ → Bool
may_rotate none now = true
may_rotate (some t) now = ltb minute (now - t)

-- The three numbers after the type, and what follows them.
unfoldable pub recv_header : Bytes → Option (ℕ × ℕ × ℕ × Bytes)
recv_header msg = elim (wire_chop_uint msg) [
  | none ↦ none
  | some (remote_key_seq, rest1) ↦ elim (wire_chop_uint rest1) [
    | none ↦ none
    | some (local_key_seq, rest2) ↦ elim (wire_chop_uint rest2) [
      | none ↦ none
      | some (nonce, boxed) ↦ some (remote_key_seq, local_key_seq, nonce, boxed)
    ]
  ]
]

-- `info.rx += uint64(len(msg))`
unfoldable pub counted : SessionInfo → Bytes → SessionInfo
counted info msg = record info { rx = (info.rx + length msg) % 2 ^ 64 }

module _ (box : Box) where
  -- Both sides' keys rotate.
  unfoldable pub rotate : SessionInfo → ℕ → BoxPub → ℕ → BoxPriv → SessionInfo
  unfolding fix_shared advance
  rotate info nonce inner now fresh =
      let theirs : SessionInfo = record info {
        current = info.next;
        next = inner;
        remote_key_seq = next64 info.remote_key_seq;
      } in
      record (fix_shared box (advance box theirs fresh) nonce 0) { rotated = some now }

  -- `onSuccess`, with the key from under the encryption.
  unfoldable pub on_success : Way → SessionInfo → ℕ → BoxPub → ℕ → BoxPriv → SessionInfo
  unfolding rotate may_rotate
  on_success to_recv info nonce inner now fresh = record info { recv_nonce = nonce }
  on_success to_next_send info nonce inner now fresh =
      let noted : SessionInfo = record info { next_send_nonce = nonce } in
      if may_rotate info.rotated now then rotate noted nonce inner now fresh else noted
  on_success to_next_recv info nonce inner now fresh =
      let noted : SessionInfo = record info { next_recv_nonce = nonce } in
      if may_rotate info.rotated now then rotate noted nonce inner now fresh else noted
  on_success unknown info nonce inner now fresh = info

  -- A message that opens is delivered; `unboxed[len(key):]` panics where it is too short. One that
  -- does not open is answered with an init.
  unfoldable pub opened :
      Way → SessionInfo → ℕ → Option Bytes → ℕ → ℕ → BoxPriv → Result (SessionInfo × List Effect)
  unfolding on_success counted
  opened w info nonce none now unix fresh = ok (info, send_init (init_of info unix) ∷ [])
  opened w info nonce (some unboxed) now unix fresh =
      let msg = drop box_pub_size unboxed in
      let info' = on_success w info nonce (take box_pub_size unboxed) now fresh in
      if ltb (length unboxed) box_pub_size
      then panic
      else ok (counted info' msg, deliver msg ∷ reset_timer ∷ [])

  -- From the header's numbers on.
  unfoldable pub recv_way :
      Way → SessionInfo → ℕ → Bytes → ℕ → ℕ → BoxPriv → Result (SessionInfo × List Effect)
  unfolding opened last_nonce key_of
  recv_way unknown info nonce boxed now unix fresh = ok (info, send_init (init_of info unix) ∷ [])
  recv_way w info nonce boxed now unix fresh =
      if not (ltb (last_nonce w info) nonce)
      then ok (info, [])
      else opened w info nonce (box.open_box boxed (nonce_for_uint64 nonce) (key_of w info)) now
          unix fresh

  unfoldable pub recv_from :
      SessionInfo → Bytes → ℕ → ℕ → BoxPriv → Result (SessionInfo × List Effect)
  unfolding recv_header recv_way way
  recv_from info msg now unix fresh = elim (recv_header msg) [
    | none ↦ ok (info, [])
    | some (remote_key_seq, local_key_seq, nonce, boxed) ↦
        recv_way (way info remote_key_seq local_key_seq) info nonce boxed now unix fresh
  ]

  unfoldable pub do_recv :
      SessionInfo → Bytes → ℕ → ℕ → BoxPriv → Result (SessionInfo × List Effect)
  unfolding recv_from
  do_recv info [] now unix fresh = ok (info, [])
  do_recv info (b ∷ msg) now unix fresh =
      if ltb (length (b ∷ msg)) traffic_overhead_min || not (b == type_traffic)
      then ok (info, [])
      else recv_from info msg now unix fresh
