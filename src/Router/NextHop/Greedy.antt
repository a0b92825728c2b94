-- ===== src/Router/NextHop/Greedy.antt =====
-- _lookup is greedy: what it returns is nearest to the destination, and nearer than the node itself.
use ironwood.Base.{
  ℕ, ◌≤◌, ◌<◌, ◌≡◌, refl, ap, subst, ◌⊎◌, inl, inr, false, List, [], Option, none, some, ltb, All,
  All-map, arith, ltb→lt, ltb→le, Bool-cases,
}
use ironwood.Wire.{PeerPort}
use ironwood.Crypto.{PublicKey, less}
use ironwood.Keyed.{KeyMap, get_or}
use ironwood.Router.{Router, Peer}
use ironwood.Router.Tree.{Infos}
use ironwood.Router.Distance.{Cache, get_dist, get_dist_lem, IsCoherent}
use ironwood.Router.NextHop.{Best, pick, refine, search_peers, lookup}
use ironwood.Router.NextHop.Scan.{
  Entry, tree_dist, scan_by, scan-scan_by, Sound, Loses, Loses→le, Loses→tie, scan_by-nearest,
  scan_by-Sound,
}
use ironwood.Router.NextHop.Object.{IsObject, Chosen, pick_from, get_or-objects, scan_by-Chosen}
use ironwood.Router.NextHop.Pick.{Ranks, pick-Ranks, get_or-keys}

-- `p` is the best next hop of a node at distance `self`: nearer than the node, no farther than any
-- other key of the map and with the lowest key of the nearest, one of its key's objects, and the best
-- of them.
pub record IsNext (d : PublicKey → ℕ) (peers : KeyMap (List Peer)) (self : ℕ) (p : Peer)
    : Type 0 where
  pub nearer : d p.key < self
  pub nearest : All (λ e. (d p.key < d e.0) ⊎ ((d p.key ≡ d e.0) × (less e.0 p.key ≡ false))) peers
  pub known : IsObject peers p
  pub ranks : All (Ranks p) (get_or [] p.key peers)

-- A search from the distance `self` finds the best next hop, or no key is nearer.
pub Found : (PublicKey → ℕ) → KeyMap (List Peer) → ℕ → Option Peer → Type 0
Found d peers self result =
    ((result ≡ none) × All (λ e. self ≤ d e.0) peers)
    ⊎ ((p : Peer) × (result ≡ some p) × IsNext d peers self p)

module _ (d : PublicKey → ℕ) (self : ℕ) (peers : KeyMap (List Peer)) (en : All Entry peers) where
  refine-Found :
      (best : Best)
      → Sound d self best
      → All (λ e. Loses d self best e.0) peers
      → Chosen peers best
      → Found d peers self (refine peers best.peer)
  unfolding Sound Loses Found refine
  refine-Found best (inl (e, f)) h c =
      inl (rw (e, refine), All-map (λ x l. omega (arith, f, Loses→le d self best x.0 l)) peers h)
  refine-Found best (inr (q, e, f, lt)) h c =
      let (own, ranks) =
        pick-Ranks q.key q (get_or [] q.key peers) refl (get_or-keys q.key peers en) in
      inr (
        pick q (get_or [] q.key peers),
        rw (e, refine),
        record {
          nearer = rw own lt;
          nearest = rw own (All-map (λ x l. rw (← f) (Loses→tie d self best q x.0 e l)) peers h);
          known =
              pick_from (IsObject peers) q (get_or [] q.key peers) (c q e)
                (get_or-objects peers q.key peers (λ x m. m) en);
          ranks = rw own ranks;
        },
      )

  scan_by-Found :
      Found d peers self (refine peers (scan_by d peers (record { peer = none; dist = self })).peer)
  unfolding Sound
  scan_by-Found =
      refine-Found _ (scan_by-Sound d self peers _ en (inl (refl, refl)))
        (scan_by-nearest d self peers _ en)
        (scan_by-Chosen d peers peers _ (λ x m. m) en (λ p e. absurd (ground (arith, e))))

module _ (infos : Infos) (peers : KeyMap (List Peer)) (path : List PeerPort)
    (en : All Entry peers) where
  search_peers-Found :
      (cache : Cache) (self : ℕ)
      → IsCoherent infos cache
      → Found (tree_dist infos path) peers self (search_peers infos peers path self cache).0
        × IsCoherent infos (search_peers infos peers path self cache).1
  unfolding search_peers
  search_peers-Found cache self c =
      let (same, coherent) =
        scan-scan_by infos path peers (record { peer = none; dist = self }) cache c in
      (
        rw (ap (λ (b : Best). b.peer) same) (scan_by-Found (tree_dist infos path) self peers en),
        coherent,
      )

-- What _lookup returns under a watermark, at the distance `self` of the node itself.
abbrev pub Routed :
    Infos → KeyMap (List Peer) → List PeerPort → ℕ → ℕ → Option Peer × Option ℕ × Router → Type 0
Routed infos peers path self watermark (result, mark, r) =
    (((watermark ≤ self) × (result ≡ none) × (mark ≡ some watermark))
      ⊎ ((self < watermark) × (mark ≡ some self) × Found (tree_dist infos path) peers self result))
    × IsCoherent r.infos r.cache

-- Over a coherent cache, and peer objects that stand under their keys, _lookup answers nil and
-- leaves the watermark unless the node is nearer to the destination than the watermark; then it
-- lowers the watermark to the node's own distance, and returns one of the peer objects that it
-- has, the best of the key that is nearest to the destination (of such keys the lowest) among those
-- nearer than the node, or nil where no key is nearer. The cache stays coherent.
pub lookup_greedy :
    (r : Router) (path : List PeerPort) (watermark : ℕ)
    → IsCoherent r.infos r.cache
    → All Entry r.peers
    → Routed r.infos r.peers path
        (tree_dist r.infos path r.public_key)
        watermark
        (lookup r path (some watermark))
unfolding lookup
lookup_greedy r path watermark c en = elim (Bool-cases (ltb self watermark)) [
  | inl low ↦ rw low (
    inr (
      rw (← same) (ltb→lt self watermark low),
      ap some same,
      subst
          (λ (n : ℕ).
            Found (tree_dist r.infos path) r.peers n
              (search_peers r.infos r.peers path self cache).0)
          same found.0,
    ),
    found.1,
  )
  | inr high ↦ rw high (inl (rw (← same) (ltb→le self watermark high), refl, refl), coherent)
]
  where
    self : ℕ
    self = (get_dist r.infos r.cache path r.public_key).0

    cache : Cache
    cache = (get_dist r.infos r.cache path r.public_key).1

    same : self ≡ tree_dist r.infos path r.public_key
    same = (get_dist_lem r.infos r.cache path r.public_key c).0

    coherent : IsCoherent r.infos cache
    coherent = (get_dist_lem r.infos r.cache path r.public_key c).1

    found :
        Found (tree_dist r.infos path) r.peers self (search_peers r.infos r.peers path self cache).0
        × IsCoherent r.infos (search_peers r.infos r.peers path self cache).1
    found = search_peers-Found r.infos r.peers path en cache self coherent
