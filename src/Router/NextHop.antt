-- ===== src/Router/NextHop.antt =====
-- _lookup of network/router.go: the peer to which a packet goes next.
pub mod Scan
pub mod Pick
pub mod Object
pub mod Greedy
pub mod Progress
use ironwood.Base.{
  ℕ, ◌-◌, ◌^◌, Bool, true, false, ◌&&◌, ◌||◌, List, [], ◌∷◌, Option, none, some, ltb, ◌==◌,
  if◌then◌else◌,
}
use ironwood.Wire.{PeerPort, max_u64}
use ironwood.Crypto.{PublicKey, less}
use ironwood.Keyed.{KeyMap, get_or}
use ironwood.Router.{Router, Peer}
use ironwood.Router.Tree.{Infos}
use ironwood.Router.Distance.{Cache, get_dist}

-- `bestPeer` and `bestDist`
pub record Best : Type 0 where
  pub peer : Option Peer
  pub dist : ℕ

-- If distances match, keep the peer with the lowest key.
unfoldable pub tiebreak : Option Peer → PublicKey → Bool
tiebreak none key = false
tiebreak (some best) key = less key best.key

unfoldable pub is_better : Best → PublicKey → ℕ → Bool
unfolding tiebreak
is_better best key dist = ltb dist best.dist || (dist == best.dist && tiebreak best.peer key)

-- The inner loop takes any peer object and stops.
unfoldable pub take_first : Best → List Peer → ℕ → Best
take_first best [] dist = best
take_first best (p ∷ ps) dist = record { peer = some p; dist = dist }

-- The loop over `r.peers`.
unfoldable pub scan : Infos → List PeerPort → KeyMap (List Peer) → Best → Cache → Best × Cache
unfolding is_better take_first
scan infos path [] best cache = (best, cache)
scan infos path ((k, ps) ∷ peers) best cache =
    let (dist, cache') = get_dist infos cache path k in
    scan infos path peers (if is_better best k dist then take_first best ps dist else best) cache'

-- The last loop: better priority, and at one priority, up for longer.
unfoldable pub pick : Peer → List Peer → Peer
pick best [] = best
pick best (p ∷ ps) =
    pick
      (if ltb p.prio best.prio
        then p
        else if p.prio == best.prio && ltb p.order best.order
        then p
        else best)
      ps

unfoldable pub refine : KeyMap (List Peer) → Option Peer → Option Peer
unfolding pick
refine peers none = none
refine peers (some best) = some (pick best (get_or [] best.key peers))

unfoldable pub search_peers :
    Infos → KeyMap (List Peer) → List PeerPort → ℕ → Cache → Option Peer × Cache
unfolding scan refine
search_peers infos peers path limit cache =
    let (best, cache') = scan infos path peers (record { peer = none; dist = limit }) cache in
    (refine peers best.peer, cache')

-- The peer, the watermark as it is afterwards, and the router with its cache filled.
-- `none` for the watermark is the nil pointer.
unfoldable pub lookup : Router → List PeerPort → Option ℕ → Option Peer × Option ℕ × Router
unfolding search_peers
lookup r path none =
    let (p, cache) = search_peers r.infos r.peers path max_u64 r.cache in
    (p, none, record r { cache = cache })
lookup r path (some watermark) =
    let (dist, cache) = get_dist r.infos r.cache path r.public_key in
    let (p, cache') = search_peers r.infos r.peers path dist cache in
    if ltb dist watermark
    then (p, some dist, record r { cache = cache' })
    else (none, some watermark, record r { cache = cache })
