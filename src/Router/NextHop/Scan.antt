-- ===== src/Router/NextHop/Scan.antt =====
-- The loop of _lookup over the peers: what it has at its end is not beaten by any of them.
use ironwood.Base.{
  ℕ, ◌≤◌, ◌<◌, ◌≡◌, ◌≢◌, refl, sym, ap, ◌∙◌, ◌⊎◌, inl, inr, true, false, List, [], ◌∷◌, Option,
  none, some, if◌then◌else◌, All, arith, Bool-cases,
}
use ironwood.Wire.{PeerPort}
use ironwood.Crypto.{PublicKey, less}
use ironwood.Crypto.Order.{less_trans, less_irrefl}
use ironwood.Keyed.{KeyMap}
use ironwood.Router.{Peer}
use ironwood.Router.Tree.{Infos}
use ironwood.Router.Distance.{Cache, get_dist, get_dist_lem, IsCoherent, path_dist, key_path}
use ironwood.Router.NextHop.{Best, is_better, take_first, scan}

-- The peer objects of a key stand under that key, and there is one at least.
abbrev pub Entry : PublicKey × List Peer → Type 0
Entry (k, ps) = (ps ≢ []) × All (λ p. p.key ≡ k) ps

-- The scan with the distances given by a function in place of the cache.
unfoldable pub scan_by : (PublicKey → ℕ) → KeyMap (List Peer) → Best → Best
scan_by d [] best = best
scan_by d ((k, ps) ∷ peers) best =
    scan_by d peers (if is_better best k (d k) then take_first best ps (d k) else best)

abbrev pub tree_dist : Infos → List PeerPort → PublicKey → ℕ
tree_dist infos path k = path_dist path (key_path infos k)

pub scan-scan_by :
    (infos : Infos) (path : List PeerPort) (peers : KeyMap (List Peer)) (best : Best)
    (cache : Cache)
    → IsCoherent infos cache
    → ((scan infos path peers best cache).0 ≡ scan_by (tree_dist infos path) peers best)
      × IsCoherent infos (scan infos path peers best cache).1
unfolding scan scan_by
scan-scan_by infos path [] best cache c = (refl, c)
scan-scan_by infos path ((k, ps) ∷ peers) best cache c =
    let (same, coherent) = get_dist_lem infos cache path k c in
    let next = λ (n : ℕ). if is_better best k n then take_first best ps n else best in
    let rest =
      scan-scan_by infos path peers (next (get_dist infos cache path k).0)
        (get_dist infos cache path k).1 coherent in
    (rest.0 ∙ ap (λ (n : ℕ). scan_by (tree_dist infos path) peers (next n)) same, rest.1)

-- A key that did not beat the best so far does not beat a better one.
keep_worse :
    (best : Option Peer) (n m i : ℕ) (p : Peer) (k j : PublicKey)
    → p.key ≡ k
    → is_better (record { peer = best; dist = n }) k m ≡ true
    → is_better (record { peer = best; dist = n }) j i ≡ false
    → is_better (record { peer = some p; dist = m }) j i ≡ false
unfolding is_better
keep_worse none n m i p k j hp better worse = ground arith
keep_worse (some q) n m i p k j hp better worse =
    ground (arith, less_trans j k q.key, ap (less j) hp)

take-worse :
    (p : Peer) (k : PublicKey) (m : ℕ)
    → p.key ≡ k
    → is_better (record { peer = some p; dist = m }) k m ≡ false
unfolding is_better
take-worse p k m hp = ground (arith, less_irrefl k, ap (less k) hp)

module _ (d : PublicKey → ℕ) (limit : ℕ) where
  abbrev update : Best → PublicKey → List Peer → Best
  update best k ps = if is_better best k (d k) then take_first best ps (d k) else best

  -- The best so far, where there is one, has the distance of its key, which is below the limit.
  unfoldable pub Sound : Best → Type 0
  Sound best =
      ((best.peer ≡ none) × (best.dist ≡ limit))
      ⊎ ((p : Peer) × (best.peer ≡ some p) × (best.dist ≡ d p.key) × (d p.key < limit))

  unfoldable pub Loses : Best → PublicKey → Type 0
  Loses best j = is_better best j (d j) ≡ false

  update-Loses :
      (best : Best) (k j : PublicKey) (ps : List Peer)
      → Entry (k, ps)
      → Loses best j
      → Loses (update best k ps) j
  unfolding Loses take_first
  update-Loses best k j [] en h = absurd (en.0 refl)
  update-Loses best k j (p ∷ ps) en h = elim (Bool-cases (is_better best k (d k))) [
    | inl better ↦ rw better (keep_worse best.peer best.dist (d k) (d j) p k j en.1.0 better h)
    | inr worse ↦ rw worse h
  ]

  update-Loses_self :
      (best : Best) (k : PublicKey) (ps : List Peer) → Entry (k, ps) → Loses (update best k ps) k
  unfolding Loses take_first
  update-Loses_self best k [] en = absurd (en.0 refl)
  update-Loses_self best k (p ∷ ps) en = elim (Bool-cases (is_better best k (d k))) [
    | inl better ↦ rw better (take-worse p k (d k) en.1.0)
    | inr worse ↦ rw worse worse
  ]

  pub Loses→le : (best : Best) (j : PublicKey) → Loses best j → best.dist ≤ d j
  unfolding Loses is_better
  Loses→le best j h = ground arith

  pub Loses→tie :
      (best : Best) (q : Peer) (j : PublicKey)
      → best.peer ≡ some q
      → Loses best j
      → (best.dist < d j) ⊎ ((best.dist ≡ d j) × (less j q.key ≡ false))
  unfolding Loses is_better
  Loses→tie best q j e h = ground (arith, e)

  better_below :
      (best : Best) (k : PublicKey) → Sound best → is_better best k (d k) ≡ true → d k < limit
  unfolding Sound is_better
  better_below best k (inl (e, f)) better = ground (arith, e, f)
  better_below best k (inr (p, e, f, lt)) better = ground (arith, e, f, lt)

  update-Sound :
      (best : Best) (k : PublicKey) (ps : List Peer)
      → Entry (k, ps)
      → Sound best
      → Sound (update best k ps)
  unfolding Sound take_first
  update-Sound best k [] en h = absurd (en.0 refl)
  update-Sound best k (p ∷ ps) en h = elim (Bool-cases (is_better best k (d k))) [
    | inl better ↦
        let own = ap d en.1.0 in
        rw better (inr (p, refl, sym own, omega (arith, own, better_below best k h better)))
    | inr worse ↦ rw worse h
  ]

  scan_by-Loses :
      (peers : KeyMap (List Peer)) (best : Best) (j : PublicKey)
      → All Entry peers
      → Loses best j
      → Loses (scan_by d peers best) j
  unfolding scan_by
  scan_by-Loses [] best j en h = h
  scan_by-Loses ((k, ps) ∷ peers) best j en h =
      scan_by-Loses peers (update best k ps) j en.1 (update-Loses best k j ps en.0 h)

  -- Nothing that was scanned beats the result.
  pub scan_by-nearest :
      (peers : KeyMap (List Peer)) (best : Best)
      → All Entry peers
      → All (λ e. Loses (scan_by d peers best) e.0) peers
  unfolding scan_by
  scan_by-nearest [] best en = tt
  scan_by-nearest ((k, ps) ∷ peers) best en = (
    scan_by-Loses peers (update best k ps) k en.1 (update-Loses_self best k ps en.0),
    scan_by-nearest peers (update best k ps) en.1,
  )

  pub scan_by-Sound :
      (peers : KeyMap (List Peer)) (best : Best)
      → All Entry peers
      → Sound best
      → Sound (scan_by d peers best)
  unfolding scan_by
  scan_by-Sound [] best en h = h
  scan_by-Sound ((k, ps) ∷ peers) best en h =
      scan_by-Sound peers (update best k ps) en.1 (update-Sound best k ps en.0 h)
