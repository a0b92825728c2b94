-- ===== src/Peers/Delivery.antt =====
-- Each kind of message, from sendPacket to the handlers of the other side.
use ironwood.Base.{ℕ, ◌≡◌, refl, true, List, some, All, All-map}
use ironwood.Types.{ok}
use ironwood.Wire.{IsU64}
use ironwood.Crypto.{Ed25519, PublicKey}
use ironwood.Messages.SigReq
use ironwood.Messages.SigRes
use ironwood.Messages.Announce
use ironwood.Messages.Lookup
use ironwood.Messages.Notify
use ironwood.Messages.Broken
use ironwood.Messages.Traffic
use ironwood.Bloom.{Words}
use ironwood.Bloom.Codec
use ironwood.Peers.{
  Message, sig_req, sig_res, announce, bloom, path_lookup, path_notify, path_broken, traffic,
  packet_type, message_size, message_encode, read_error, handler, handle_type, handle_packet,
  handle_sig_req, handle_sig_res, handle_announce, handle_bloom, handle_path_lookup,
  handle_path_notify, handle_path_broken, handle_traffic,
}
use ironwood.Peers.Framing.{stream_of, Handles, kept, handler-stream_of}

module _ (ed : Ed25519) (own key : PublicKey) where
  -- Numbers, keys and signatures are of the sizes that the format has room for, and the signatures
  -- verify that the other side checks: that of a response to `own`'s request by `key`, and those of
  -- an announcement.
  unfoldable pub IsSendable : Message → Type 0
  IsSendable (sig_req m) = SigReq.IsValid m
  IsSendable (sig_res m) = SigRes.IsValid m × (SigRes.check ed m own key ≡ ok true)
  IsSendable (announce m) = Announce.IsValid m × (Announce.check ed m ≡ ok true)
  IsSendable (bloom m) = Codec.IsWords m
  IsSendable (path_lookup m) = Lookup.IsValid m
  IsSendable (path_notify m) = Notify.IsValid m
  IsSendable (path_broken m) = Broken.IsValid m
  IsSendable (traffic m) = Traffic.IsValid m

  abbrev HandlesIt : Message → Type 0
  HandlesIt m = Handles (handle_packet ed own key) m (some m)

  handles_sig_req : (m : SigReq.RouterSigReq) → SigReq.IsValid m → HandlesIt (sig_req m)
  unfolding handle_packet handle_type handle_sig_req message_encode message_size packet_type
  handles_sig_req m v = record {
    image = λ out. (SigReq.sig_req_round_trip m out v).0;
    encoded = λ out. (SigReq.sig_req_round_trip m out v).1;
    size = λ out. (SigReq.sig_req_round_trip m out v).2;
    handled = λ out. rw ((SigReq.sig_req_round_trip m out v).3) refl;
  }

  handles_sig_res :
      (m : SigRes.RouterSigRes)
      → SigRes.IsValid m × (SigRes.check ed m own key ≡ ok true)
      → HandlesIt (sig_res m)
  unfolding handle_packet handle_type handle_sig_res message_encode message_size packet_type
  handles_sig_res m h = record {
    image = λ out. (SigRes.sig_res_round_trip m out h.0).0;
    encoded = λ out. (SigRes.sig_res_round_trip m out h.0).1;
    size = λ out. (SigRes.sig_res_round_trip m out h.0).2;
    handled = λ out. rw ((SigRes.sig_res_round_trip m out h.0).3, h.1) refl;
  }

  handles_announce :
      (m : Announce.RouterAnnounce)
      → Announce.IsValid m × (Announce.check ed m ≡ ok true)
      → HandlesIt (announce m)
  unfolding handle_packet handle_type handle_announce message_encode message_size packet_type
  handles_announce m h = record {
    image = λ out. (Announce.announce_round_trip m out h.0).0;
    encoded = λ out. (Announce.announce_round_trip m out h.0).1;
    size = λ out. (Announce.announce_round_trip m out h.0).2;
    handled = λ out. rw ((Announce.announce_round_trip m out h.0).3, h.1) refl;
  }

  handles_bloom : (m : Words) → Codec.IsWords m → HandlesIt (bloom m)
  unfolding handle_packet handle_type handle_bloom message_encode message_size packet_type
  handles_bloom m v = record {
    image = λ out. (Codec.bloom_round_trip m out v).0;
    encoded = λ out. (Codec.bloom_round_trip m out v).1;
    size = λ out. (Codec.bloom_round_trip m out v).2;
    handled = λ out. rw ((Codec.bloom_round_trip m out v).3) refl;
  }

  handles_path_lookup : (m : Lookup.PathLookup) → Lookup.IsValid m → HandlesIt (path_lookup m)
  unfolding handle_packet handle_type handle_path_lookup message_encode message_size packet_type
  handles_path_lookup m v = record {
    image = λ out. (Lookup.lookup_round_trip m out v).0;
    encoded = λ out. (Lookup.lookup_round_trip m out v).1;
    size = λ out. (Lookup.lookup_round_trip m out v).2;
    handled = λ out. rw ((Lookup.lookup_round_trip m out v).3) refl;
  }

  handles_path_notify : (m : Notify.PathNotify) → Notify.IsValid m → HandlesIt (path_notify m)
  unfolding handle_packet handle_type handle_path_notify message_encode message_size packet_type
  handles_path_notify m v = record {
    image = λ out. (Notify.notify_round_trip m out v).0;
    encoded = λ out. (Notify.notify_round_trip m out v).1;
    size = λ out. (Notify.notify_round_trip m out v).2;
    handled = λ out. rw ((Notify.notify_round_trip m out v).3) refl;
  }

  handles_path_broken : (m : Broken.PathBroken) → Broken.IsValid m → HandlesIt (path_broken m)
  unfolding handle_packet handle_type handle_path_broken message_encode message_size packet_type
  handles_path_broken m v = record {
    image = λ out. (Broken.broken_round_trip m out v).0;
    encoded = λ out. (Broken.broken_round_trip m out v).1;
    size = λ out. (Broken.broken_round_trip m out v).2;
    handled = λ out. rw ((Broken.broken_round_trip m out v).3) refl;
  }

  handles_traffic : (m : Traffic.Traffic) → Traffic.IsValid m → HandlesIt (traffic m)
  unfolding handle_packet handle_type handle_traffic message_encode message_size packet_type
  handles_traffic m v = record {
    image = λ out. (Traffic.traffic_round_trip m out v).0;
    encoded = λ out. (Traffic.traffic_round_trip m out v).1;
    size = λ out. (Traffic.traffic_round_trip m out v).2;
    handled = λ out. rw ((Traffic.traffic_round_trip m out v).3) refl;
  }

  sendable-Handles : (m : Message) → IsSendable m → HandlesIt m
  unfolding IsSendable
  sendable-Handles (sig_req m) v = handles_sig_req m v
  sendable-Handles (sig_res m) v = handles_sig_res m v
  sendable-Handles (announce m) v = handles_announce m v
  sendable-Handles (bloom m) v = handles_bloom m v
  sendable-Handles (path_lookup m) v = handles_path_lookup m v
  sendable-Handles (path_notify m) v = handles_path_notify m v
  sendable-Handles (path_broken m) v = handles_path_broken m v
  sendable-Handles (traffic m) v = handles_traffic m v

-- Messages of any kind that a peer sends one after another reach the handlers of the other side
-- unchanged, in order and once each, but for those above the maximum, which both sides know:
-- sendPacket does not panic on them, and no handler refuses one. The maximum is a uint64, the
-- values fit the format, and the signatures of responses and announcements verify.
pub handler-messages :
    (ed : Ed25519) (own key : PublicKey) (max_size : ℕ) (ms : List Message)
    → IsU64 max_size
    → All (IsSendable ed own key) ms
    → handler (handle_packet ed own key) max_size (stream_of max_size ms)
      ≡ (kept (λ (m : Message). some m) max_size ms, read_error)
handler-messages ed own key max_size ms fits sendable =
    handler-stream_of (handle_packet ed own key) max_size (λ (m : Message). some m) ms fits
      (All-map (λ (m : Message) (v : IsSendable ed own key m). sendable-Handles ed own key m v) ms
        sendable)
