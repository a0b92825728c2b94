-- ===== src/Session/Tests.antt =====
-- Sessions of encrypted/session.go at toy keys.
use ironwood.Base.{
  ℕ, ◌+◌, ◌-◌, ◌*◌, ◌^◌, ◌≡◌, refl, ap, inl, inr, Bool, true, false, List, [], ◌∷◌, ◌++◌, Option,
  none, some, ◌==◌, ==_refl, if◌then◌else◌, length, take, drop, replicate, arith, length-append,
  take-append, drop-append,
}
use ironwood.Types.{ok, panic}
use ironwood.Wire.{Bytes, uvarint_bytes}
use ironwood.Wire.Uvarint.{uvarint}
use ironwood.Router.Tests.{toy, key}
use ironwood.Session.{
  Box, SessionInfo, SessionInit, Effect, deliver, reset_timer, packet, init_of, handle_update,
  fix_shared, advance, new_session,
}
use ironwood.Session.Recv.{last_nonce, key_of, to_next_send, counted, on_success, do_recv}
use ironwood.Session.Ratchet.{IsKeyed, IsAhead, sender, header, delivered}
use ironwood.Session.Conversation.{sender-IsKeyed, way_forth, key_forth, Turn, converse, deliveries}
use ironwood.Session.Conversation.Arrival.{msgs_of, converse-msgs_of}
use ironwood.Session.Init.{Curve, encrypt, encrypt_ack, decrypt}
use ironwood.Session.Init.RoundTrip.{IsInit, decrypt-encrypt}
use ironwood.Session.Replay.{do_recv-do_recv}
use ironwood.Session.Short.{sealed_packet, do_recv-sealed_packet}
use ironwood.Session.Manager.{SessionBuffer, Manager, make_session, take_over}
use ironwood.Session.Manager.Handshake.{
  joined, answered, IsBuffer, joined-IsKeyed, answered-IsKeyed, answered-IsAhead,
}

first_of : Bytes → ℕ
first_of [] = 0
first_of (b ∷ bs) = b

-- The shared key is the sum of the private keys' lengths; a box is the text and the key.
tag : ℕ → Bytes
tag n = replicate 16 n

open_toy : Bytes → ℕ → Option Bytes
open_toy boxed n =
    let size = length boxed - 16 in
    if first_of (drop size boxed) == n then some (take size boxed) else none

open_toy-tag : (m : Bytes) (n : ℕ) → open_toy (m ++ tag n) n ≡ some m
unfolding open_toy first_of tag
open_toy-tag m n = rw (size, drop-append m (tag n), take-append m (tag n), ==_refl n) refl
  where
    size : length (m ++ tag n) - 16 ≡ length m
    size = omega (arith, length-append m (tag n))

shared_toy : Bytes → Bytes → Bytes
shared_toy p k = (first_of p + length k) ∷ []

shared_toy_comm :
    (j k : Bytes) → shared_toy (replicate 32 (length j)) k ≡ shared_toy (replicate 32 (length k)) j
unfolding shared_toy first_of
shared_toy_comm j k = ap (λ (n : ℕ). n ∷ []) (omega arith)

length-tag : (m : Bytes) (n : ℕ) → length (m ++ tag n) ≡ length m + 16
unfolding tag
length-tag m n = length-append m (tag n)

abbrev toy_box : Box
toy_box = record {
  public = λ k. replicate 32 (length k);
  shared = shared_toy;
  seal = λ m n s. m ++ tag (first_of s);
  open_box = λ m n s. open_toy m (first_of s);
  length-public = λ k. refl;
  shared_comm = shared_toy_comm;
  open_box-seal = λ m n s. open_toy-tag m (first_of s);
  length-seal = λ m n s. length-tag m (first_of s);
}

abbrev toy_curve : Curve toy toy_box
toy_curve = record { to_box_pub = λ p. p; to_box_priv = λ k. k; agree = λ k. refl }

-- A node by itself; its keys are known by their lengths.
abbrev node : ℕ → Manager
node n = record {
  secret_ed = replicate n 1;
  secret_box = replicate n 1;
  random = λ i. replicate (n + i) 7;
  drawn = 0;
  next_order = 0;
  sessions = [];
  buffers = [];
}

abbrev some_init : SessionInit
some_init = record {
  current = replicate 32 4;
  next = replicate 32 9;
  key_seq = 3;
  seq = 1700000000;
}

some_init-IsInit : IsInit some_init
some_init-IsInit = record {
  current_size = refl;
  next_size = refl;
  key_seq_fits = omega arith;
  seq_fits = omega arith;
}

decrypt-encrypt_example :
    (bytes ack_bytes : Bytes) × (encrypt toy toy_box toy_curve some_init
        (5 ∷ [])
        (toy.public (5 ∷ 6 ∷ []))
        (8 ∷ [])
      ≡ ok bytes)
    × (encrypt_ack toy toy_box toy_curve some_init (5 ∷ []) (toy.public (5 ∷ 6 ∷ [])) (8 ∷ [])
        ≡ ok ack_bytes)
    × (decrypt toy toy_box toy_curve (5 ∷ 6 ∷ []) (toy.public (5 ∷ [])) bytes ≡ some some_init)
    × (decrypt toy toy_box toy_curve (5 ∷ 6 ∷ []) (toy.public (5 ∷ [])) ack_bytes ≡ some some_init)
decrypt-encrypt_example =
    decrypt-encrypt toy toy_box toy_curve some_init (5 ∷ []) (5 ∷ 6 ∷ []) (8 ∷ []) some_init-IsInit

abbrev a_buffer : SessionBuffer
a_buffer = record {
  order = 0;
  bytes = 1 ∷ [];
  init = record { current = replicate 32 3; next = replicate 32 2; key_seq = 0; seq = 1700000000 };
  current_priv = 0 ∷ 0 ∷ 0 ∷ [];
  next_priv = 0 ∷ 0 ∷ [];
}

a_buffer-IsBuffer : IsBuffer toy_box a_buffer
a_buffer-IsBuffer = record { current = refl; next = refl; first = refl }

-- The two ends that a handshake leaves.
abbrev end_b : SessionInfo
end_b = joined toy_box (node 60) (key 4) a_buffer.init []

abbrev end_a : SessionInfo
end_a = answered toy_box (node 40) (key 6) a_buffer (init_of end_b 1700000001) (6 ∷ [])

ends-IsAhead : IsAhead toy_box end_a end_b
ends-IsAhead =
    answered-IsAhead toy_box (node 40) (node 60) (key 4) (key 6) a_buffer [] (6 ∷ []) 1700000001
      a_buffer-IsBuffer

end_a-IsKeyed : IsKeyed toy_box end_a
unfolding joined handle_update fix_shared advance make_session new_session init_of
end_a-IsKeyed =
    answered-IsKeyed toy_box (node 40) (key 6) a_buffer (init_of end_b 1700000001) (6 ∷ [])
      a_buffer-IsBuffer (omega arith)

end_b-IsKeyed : IsKeyed toy_box end_b
end_b-IsKeyed = joined-IsKeyed toy_box (node 60) (key 4) a_buffer.init [] (omega arith)

abbrev turn : Bool → Bytes → ℕ → Turn
turn from_first msg now = record {
  from_first = from_first;
  msg = msg;
  now = now * 10 ^ 9;
  unix = 1700000001 + now;
  fresh_sender = [];
  fresh_receiver = replicate now 1;
}

-- The third message comes when the keys may rotate again.
abbrev talk : List Turn
talk =
    turn true (1 ∷ []) 1 ∷ turn false (2 ∷ 2 ∷ []) 2 ∷ turn false [] 90 ∷ turn true (3 ∷ []) 91 ∷ []

converse-msgs_of_example : converse toy_box end_a end_b talk ≡ ok (msgs_of toy_box talk)
unfolding joined answered handle_update fix_shared advance make_session new_session take_over
converse-msgs_of_example =
    converse-msgs_of toy_box end_a end_b talk (inl ends-IsAhead) end_a-IsKeyed end_b-IsKeyed
      (omega arith) (omega arith)

-- A packet that the first end sends, and the second after it has taken it.
abbrev some_packet : Bytes
some_packet = packet toy_box (sender toy_box end_a) (5 ∷ [])

abbrev end_b_later : SessionInfo
end_b_later = counted (on_success toy_box to_next_send end_b 1 end_a.next_pub 7 (9 ∷ [])) (5 ∷ [])

takes_packet :
    do_recv toy_box end_b some_packet 7 1700000005 (9 ∷ [])
    ≡ ok (end_b_later, deliver (5 ∷ []) ∷ reset_timer ∷ [])
unfolding joined answered handle_update fix_shared advance make_session new_session take_over
    last_nonce key_of shared_toy
takes_packet =
    delivered toy_box to_next_send (sender toy_box end_a) end_b (5 ∷ []) 7 1700000005 (9 ∷ [])
      (sender-IsKeyed toy_box end_a end_a-IsKeyed) (omega arith)
      (way_forth toy_box end_a end_b ends-IsAhead end_b-IsKeyed) (inr refl) (omega arith)
      (key_forth toy_box end_a end_b ends-IsAhead end_a-IsKeyed end_b-IsKeyed)

do_recv-do_recv_example :
    (out' : List Effect) × (do_recv toy_box end_b_later some_packet 8 1700000006 (4 ∷ [])
      ≡ ok (end_b_later, out'))
    × (deliveries out' ≡ [])
do_recv-do_recv_example =
    do_recv-do_recv toy_box end_b end_b_later some_packet (deliver (5 ∷ []) ∷ reset_timer ∷ []) 7
      1700000005 8 1700000006 (9 ∷ []) (4 ∷ []) takes_packet

abbrev far : SessionInfo
far = record end_a { send_nonce = 2 ^ 63 }

far-IsAhead : IsAhead toy_box far end_b
unfolding joined handle_update fix_shared advance make_session new_session
far-IsAhead = record {
  current = ends-IsAhead.current;
  next = ends-IsAhead.next;
  remote_key_seq = ends-IsAhead.remote_key_seq;
  their_current = ends-IsAhead.their_current;
  their_next = ends-IsAhead.their_next;
  their_key_seq = ends-IsAhead.their_key_seq;
  their_nonce = omega arith;
  nonce = ends-IsAhead.nonce;
  unused = ends-IsAhead.unused;
}

far-IsKeyed : IsKeyed toy_box far
far-IsKeyed = record {
  recv_pub = end_a-IsKeyed.recv_pub;
  send_pub = end_a-IsKeyed.send_pub;
  next_pub = end_a-IsKeyed.next_pub;
  recv_shared = end_a-IsKeyed.recv_shared;
  send_shared = end_a-IsKeyed.send_shared;
  next_send_shared = end_a-IsKeyed.next_send_shared;
  local_fits = end_a-IsKeyed.local_fits;
  remote_fits = end_a-IsKeyed.remote_fits;
}

do_recv-sealed_packet_example :
    do_recv toy_box end_b (sealed_packet toy_box far (replicate 31 0)) 7 1700000005 [] ≡ panic
unfolding sealed_packet header joined answered handle_update fix_shared advance make_session
    new_session take_over init_of uvarint uvarint_bytes tag
do_recv-sealed_packet_example =
    do_recv-sealed_packet toy_box far end_b (replicate 31 0) 7 1700000005 [] far-IsAhead far-IsKeyed
      end_b-IsKeyed (omega arith) (omega arith) (omega arith) (omega arith)
