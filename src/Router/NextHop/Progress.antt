-- ===== src/Router/NextHop/Progress.antt =====
-- The watermark of a packet bounds how often it is forwarded, however the tables change meanwhile.
use ironwood.Base.{
  ℕ, suc, ◌≤◌, ◌<◌, ◌≡◌, List, Option, some, ltb, arith, Bool-cases, inl, inr, ltb→lt,
}
use ironwood.Wire.{PeerPort}
use ironwood.Router.{Router, Peer}
use ironwood.Router.Distance.{get_dist}
use ironwood.Router.NextHop.{lookup}

-- A next hop is only ever returned with a lower watermark; no hypothesis on the router.
pub lookup_lowers :
    (r r' : Router) (path : List PeerPort) (watermark : ℕ) (p : Peer) (mark : Option ℕ)
    → lookup r path (some watermark) ≡ (some p, mark, r')
    → (lower : ℕ) × (mark ≡ some lower) × (lower < watermark)
unfolding lookup
lookup_lowers r r' path watermark p mark e =
    let self = (get_dist r.infos r.cache path r.public_key).0 in
    elim (Bool-cases (ltb self watermark)) [
      | inl low ↦ (self, ground (arith, low), ltb→lt self watermark low)
      | inr high ↦ absurd (ground (arith, high))
    ]

-- A packet's way through the network: each node that it meets has a router in any state, whose
-- _lookup hands it on with the watermark that the next node reads.
pub data Forwarded (path : List PeerPort) : ℕ → ℕ → Type 0 where
  stop : {watermark hops : ℕ} → hops ≡ 0 → Forwarded path watermark hops
  hop :
      {watermark lower hops hops' : ℕ} (r r' : Router) (p : Peer)
      → lookup r path (some watermark) ≡ (some p, some lower, r')
      → Forwarded path lower hops
      → hops' ≡ suc hops
      → Forwarded path watermark hops'

-- A packet is forwarded at most as often as its watermark says, whatever the states of the
-- routers on its way: routing loops end.
pub hops-le-watermark :
    (path : List PeerPort) {watermark hops : ℕ} → Forwarded path watermark hops → hops ≤ watermark
hops-le-watermark path (stop e) = omega (arith, e)
hops-le-watermark path (hop {watermark} {lower} r r' p e f s) =
    let (n, same, lt) = lookup_lowers r r' path watermark p (some lower) e in
    let agree : lower ≡ n = cc same in omega (arith, hops-le-watermark path f, agree, lt, s)
