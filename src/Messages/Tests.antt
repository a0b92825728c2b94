-- ===== src/Messages/Tests.antt =====
-- The wire format on concrete messages.
use ironwood.Base.{
  ℕ, zero, suc, ◌<◌, ◌≡◌, refl, List, [], ◌∷◌, ◌++◌, All, length, replicate, some, arith,
}
use ironwood.Types.{ok}
use ironwood.Wire.{
  Bytes, IsU64, PeerPort, wire_chop_uint, wire_chop_path, wire_append_path, wire_size_path, max_u64,
}
use ironwood.Wire.Uvarint.{uvarint, wire_chop_uint-uvarint}
use ironwood.Wire.Paths.{
  path_bytes, IsPort, path_round_trip, wire_chop_path-path_bytes, wire_chop_path_takes,
}
use ironwood.Crypto.{PublicKey, Signature}
use ironwood.Messages.SigReq
use ironwood.Messages.SigRes
use ironwood.Messages.Announce
use ironwood.Messages.Lookup
use ironwood.Messages.NotifyInfo
use ironwood.Messages.Notify
use ironwood.Messages.Broken
use ironwood.Messages.Traffic
use ironwood.Bloom.{Words}
use ironwood.Bloom
use ironwood.Bloom.Codec.{bloom_round_trip}

abbrev key : ℕ → PublicKey
key n = replicate 32 n

abbrev psig : Signature
psig = replicate 64 9

abbrev ports : List PeerPort
ports = 1 ∷ 300 ∷ []

ports-IsPort : All IsPort ports
ports-IsPort = ((omega arith, omega arith), ((omega arith, omega arith), tt))

read_300 : wire_chop_uint (uvarint 300 ++ (5 ∷ [])) ≡ some (300, 5 ∷ [])
read_300 = wire_chop_uint-uvarint 300 (5 ∷ []) (omega arith)

abbrev after : Bytes
after = 5 ∷ []

path_round_trip_example :
    (bs : Bytes) × (wire_append_path (7 ∷ []) ports ≡ (7 ∷ []) ++ bs)
    × (length bs ≡ wire_size_path ports)
    × (wire_chop_path [] (bs ++ (5 ∷ [])) ≡ some (ports, 5 ∷ []))
path_round_trip_example = path_round_trip (7 ∷ []) [] ports (5 ∷ []) ports-IsPort

read_ports : wire_chop_path [] (path_bytes ports ++ (5 ∷ [])) ≡ some (ports, 5 ∷ [])
read_ports = wire_chop_path-path_bytes [] ports (5 ∷ []) ports-IsPort

wire_chop_path_takes_example :
    (ps : List PeerPort) × (ports ≡ ps)
    × All IsPort ps
    × (length after < length (path_bytes ports ++ after))
wire_chop_path_takes_example =
    wire_chop_path_takes [] ports (path_bytes ports ++ (5 ∷ [])) (5 ∷ []) read_ports

abbrev req : SigReq.RouterSigReq
req = record { seq = 1; nonce = max_u64 }

abbrev res : SigRes.RouterSigRes
res = record { req = req; port = 3; psig = psig }

abbrev ann : Announce.RouterAnnounce
ann = record { key = key 1; parent = key 2; res = res; sig = psig }

abbrev lookup : Lookup.PathLookup
lookup = record { source = key 1; dest = key 2; from = ports }

abbrev info : NotifyInfo.PathNotifyInfo
info = record { seq = 300; path = ports; sig = psig }

abbrev notify : Notify.PathNotify
notify = record { path = ports; watermark = max_u64; source = key 1; dest = key 2; info = info }

abbrev broken : Broken.PathBroken
broken = record { path = ports; watermark = 4; source = key 1; dest = key 2 }

abbrev tr : Traffic.Traffic
tr = record {
  path = ports;
  from = [];
  source = key 1;
  dest = key 2;
  watermark = 4;
  payload = 104 ∷ 105 ∷ [];
}

abbrev words : Words
words = max_u64 ∷ 5 ∷ replicate 126 0

req-IsValid : SigReq.IsValid req
req-IsValid = record { seq_fits = omega arith; nonce_fits = omega arith }

res-IsValid : SigRes.IsValid res
res-IsValid = record { req_valid = req-IsValid; port_fits = omega arith; psig_size = refl }

ann-IsValid : Announce.IsValid ann
ann-IsValid = record {
  key_size = refl;
  parent_size = refl;
  res_valid = res-IsValid;
  sig_size = refl;
}

info-IsValid : NotifyInfo.IsValid info
info-IsValid = record { seq_fits = omega arith; path_ports = ports-IsPort; sig_size = refl }

notify_round_trip_example :
    (bs : Bytes) × (Notify.encode notify (7 ∷ []) ≡ ok ((7 ∷ []) ++ bs))
    × (length bs ≡ Notify.size notify)
    × (Notify.decode bs ≡ ok notify)
notify_round_trip_example = Notify.notify_round_trip notify (7 ∷ []) (record {
  path_ports = ports-IsPort;
  watermark_fits = omega arith;
  source_size = refl;
  dest_size = refl;
  info_valid = info-IsValid;
})

traffic_round_trip_example :
    (bs : Bytes) × (Traffic.encode tr (7 ∷ []) ≡ ok ((7 ∷ []) ++ bs))
    × (length bs ≡ Traffic.size tr)
    × (Traffic.decode bs ≡ ok tr)
traffic_round_trip_example = Traffic.traffic_round_trip tr (7 ∷ []) (record {
  path_ports = ports-IsPort;
  from_ports = tt;
  source_size = refl;
  dest_size = refl;
  watermark_fits = omega arith;
})

zeros-IsU64 : (n : ℕ) → All IsU64 (replicate n 0)
zeros-IsU64 zero = tt
zeros-IsU64 (suc n) = (omega arith, zeros-IsU64 n)

bloom_round_trip_example :
    (bs : Bytes) × (Bloom.encode words (7 ∷ []) ≡ ok ((7 ∷ []) ++ bs))
    × (length bs ≡ Bloom.size words)
    × (Bloom.decode bs ≡ ok words)
bloom_round_trip_example =
    bloom_round_trip words (7 ∷ [])
      (record { sized = refl; words = (omega arith, (omega arith, zeros-IsU64 126)) })
