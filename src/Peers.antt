-- ===== src/Peers.antt =====
-- network/peers.go: the frames on a connection, and what a peer's handler reads.
pub mod Framing
pub mod Delivery
pub mod Table
pub mod Sending
pub mod Monitor
pub mod Tests
use ironwood.Base.{
  ℕ, zero, suc, ◌+◌, Bool, true, false, List, [], ◌∷◌, ◌++◌, Option, none, some, ltb, leb, ◌==◌,
  if◌then◌else◌, length, take, drop,
}
use ironwood.Types.{
  Result, ok, err, panic, ◌>>=◌, ◌>>◌, guard, Error, err_oversized_message, err_empty_message,
  err_unrecognized_message, err_bad_message,
}
use ironwood.Wire.{Bytes, wire_append_uint, wire_chop_uint}
use ironwood.Crypto.{Ed25519, PublicKey}
use ironwood.Messages.SigReq
use ironwood.Messages.SigRes
use ironwood.Messages.Announce
use ironwood.Messages.Lookup
use ironwood.Messages.Notify
use ironwood.Messages.Broken
use ironwood.Messages.Traffic
use ironwood.Bloom
use ironwood.Bloom.{Words}

-- What a peer sends: the types that implement `wireEncodeable`, each with its wirePacketType.
pub data Message : Type 0 where
  sig_req : SigReq.RouterSigReq → Message
  sig_res : SigRes.RouterSigRes → Message
  announce : Announce.RouterAnnounce → Message
  bloom : Words → Message
  path_lookup : Lookup.PathLookup → Message
  path_notify : Notify.PathNotify → Message
  path_broken : Broken.PathBroken → Message
  traffic : Traffic.Traffic → Message

-- The packet types are numbered from zero; the first two are wireDummy and wireKeepAlive.
unfoldable pub packet_type : Message → ℕ
packet_type (sig_req m) = 2
packet_type (sig_res m) = 3
packet_type (announce m) = 4
packet_type (bloom m) = 5
packet_type (path_lookup m) = 6
packet_type (path_notify m) = 7
packet_type (path_broken m) = 8
packet_type (traffic m) = 9

unfoldable pub message_size : Message → ℕ
message_size (sig_req m) = SigReq.size m
message_size (sig_res m) = SigRes.size m
message_size (announce m) = Announce.size m
message_size (bloom m) = Bloom.size m
message_size (path_lookup m) = Lookup.size m
message_size (path_notify m) = Notify.size m
message_size (path_broken m) = Broken.size m
message_size (traffic m) = Traffic.size m

unfoldable pub message_encode : Message → Bytes → Result Bytes
message_encode (sig_req m) out = SigReq.encode m out
message_encode (sig_res m) out = SigRes.encode m out
message_encode (announce m) out = Announce.encode m out
message_encode (bloom m) out = Bloom.encode m out
message_encode (path_lookup m) out = Lookup.encode m out
message_encode (path_notify m) out = Notify.encode m out
message_encode (path_broken m) out = Broken.encode m out
message_encode (traffic m) out = Traffic.encode m out

-- wireEncode, with the panic of its caller on an error.
unfoldable pub wire_encode : Bytes → Message → Result Bytes
wire_encode out m = elim (message_encode m (out ++ (packet_type m ∷ []))) [
  | ok bs ↦ ok bs
  | err e ↦ panic
  | panic ↦ panic
]

-- sendPacket: the frame for _write. Data that is too large is dropped.
unfoldable pub send_packet : ℕ → Message → Result (Option Bytes)
unfolding wire_encode
send_packet max_size m =
    let size = message_size m + 1 in
    if ltb max_size size
    then ok none
    else (wire_encode (wire_append_uint [] size) m >>= λ (bs : Bytes). ok (some bs))

-- How a connection ends: by an error of reading, by an error of this library, or by a panic.
pub data Ending : Type 0 where
  read_error : Ending
  failed : Error → Ending
  panicked : Ending

module _ {C : Type 0} where
  -- A round of the loop behind the size, with what later rounds give.
  unfoldable pub read_packet :
      (Bytes → Result C) → ℕ → ℕ → Bytes → List C × Ending → List C × Ending
  read_packet handle max_size size rest (outcomes, ending) =
      if ltb max_size size
      then ([], failed err_oversized_message)
      else if ltb (length rest) size
      then ([], read_error)
      else elim (handle (take size rest)) as (λ o. List C × Ending) [
        | ok c ↦ (c ∷ outcomes, ending)
        | err e ↦ ([], failed e)
        | panic ↦ ([], panicked)
      ]

  -- The loop of handler on the bytes that the connection gives before it ends; `handle` is
  -- _handlePacket, and what it did comes first, packet by packet. Each round takes a byte at least,
  -- which bounds the fuel.
  unfoldable pub read_loop : (Bytes → Result C) → ℕ → ℕ → Bytes → List C × Ending
  unfolding read_packet
  read_loop handle max_size zero stream = ([], read_error)
  read_loop handle max_size (suc fuel) stream = elim (wire_chop_uint stream) [
    | none ↦ ([], read_error)
    | some (size, rest) ↦
        read_packet handle max_size size rest (read_loop handle max_size fuel (drop size rest))
  ]

  unfoldable pub handler : (Bytes → Result C) → ℕ → Bytes → List C × Ending
  unfolding read_loop
  handler handle max_size stream = read_loop handle max_size (suc (length stream)) stream

-- The methods that decode a packet and pass it to the router or the pathfinder, by the message that
-- they pass on; `own` is this node's key and `key` that of the peer.
pub handle_sig_req : Bytes → Result Message
handle_sig_req bs = do req ← SigReq.decode bs; ok (sig_req req)

pub handle_sig_res : Ed25519 → PublicKey → PublicKey → Bytes → Result Message
handle_sig_res ed own key bs = do
  res ← SigRes.decode bs
  good ← SigRes.check ed res own key
  guard good err_bad_message >> ok (sig_res res)

pub handle_announce : Ed25519 → Bytes → Result Message
handle_announce ed bs = do
  ann ← Announce.decode bs
  good ← Announce.check ed ann
  guard good err_bad_message >> ok (announce ann)

pub handle_bloom : Bytes → Result Message
handle_bloom bs = do b ← Bloom.decode bs; ok (bloom b)

pub handle_path_lookup : Bytes → Result Message
handle_path_lookup bs = do m ← Lookup.decode bs; ok (path_lookup m)

pub handle_path_notify : Bytes → Result Message
handle_path_notify bs = do m ← Notify.decode bs; ok (path_notify m)

pub handle_path_broken : Bytes → Result Message
handle_path_broken bs = do m ← Broken.decode bs; ok (path_broken m)

pub handle_traffic : Bytes → Result Message
handle_traffic bs = do m ← Traffic.decode bs; ok (traffic m)

-- The cases of the switch.
pub handle_type : Ed25519 → PublicKey → PublicKey → ℕ → Bytes → Result (Option Message)
handle_type ed own key kind bs =
    if leb kind 1 then ok none else (chosen >>= λ (m : Message). ok (some m))
  where
    chosen : Result Message
    chosen =
        if kind == 2
        then handle_sig_req bs
        else if kind == 3
        then handle_sig_res ed own key bs
        else if kind == 4
        then handle_announce ed bs
        else if kind == 5
        then handle_bloom bs
        else if kind == 6
        then handle_path_lookup bs
        else if kind == 7
        then handle_path_notify bs
        else if kind == 8
        then handle_path_broken bs
        else if kind == 9
        then handle_traffic bs
        else err err_unrecognized_message

unfoldable pub handle_packet : Ed25519 → PublicKey → PublicKey → Bytes → Result (Option Message)
unfolding handle_type
handle_packet ed own key [] = err err_empty_message
handle_packet ed own key (kind ∷ bs) = handle_type ed own key kind bs
