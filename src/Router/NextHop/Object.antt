-- ===== src/Router/NextHop/Object.antt =====
-- What _lookup finds in network/router.go is one of the peer objects that the node has.
use ironwood.Base.{
  ℕ, ◌≡◌, refl, sym, subst, inl, inr, true, false, ◌&&◌, Bool, ltb, ◌==◌, List, [], ◌∷◌, some, All,
  Member, arith, Bool-cases, if◌then◌else◌,
}
use ironwood.Crypto.{PublicKey, equal}
use ironwood.Keyed.{KeyMap, get_or}
use ironwood.Keyed
use ironwood.Router.{Peer}
use ironwood.Router.NextHop.{Best, is_better, take_first, pick}
use ironwood.Router.NextHop.Scan.{Entry, scan_by}

-- `p` is one of the objects that the map has under the key of `p`.
abbrev pub IsObject : KeyMap (List Peer) → Peer → Type 0
IsObject peers p = (ps : List Peer) × (Member (p.key, ps) peers × Member p ps)

-- Every entry of one map is in the other.
abbrev pub IsWithin : KeyMap (List Peer) → KeyMap (List Peer) → Type 0
IsWithin part peers = (e : PublicKey × List Peer) → Member e part → Member e peers

if_both : (P : Peer → Type 0) (b : Bool) (p q : Peer) → P p → P q → P (if b then p else q)
if_both P true p q h g = h
if_both P false p q h g = g

-- The object picked is one of those it is picked from, or the one to start from.
pub pick_from :
    (P : Peer → Type 0) (best : Peer) (ps : List Peer) → P best → All P ps → P (pick best ps)
unfolding pick
pick_from P best [] h hs = h
pick_from P best (p ∷ ps) h hs =
    pick_from P
      (if ltb p.prio best.prio
        then p
        else if p.prio == best.prio && ltb p.order best.order
        then p
        else best)
      ps
      (if_both P (ltb p.prio best.prio) p
        (if p.prio == best.prio && ltb p.order best.order then p else best) hs.0
        (if_both P (p.prio == best.prio && ltb p.order best.order) p best hs.0 h))
      hs.1

objects :
    (peers : KeyMap (List Peer)) (k : PublicKey) (ps qs : List Peer)
    → Member (k, ps) peers
    → All (λ p. p.key ≡ k) qs
    → ((p : Peer) → Member p qs → Member p ps)
    → All (IsObject peers) qs
objects peers k ps [] m keys within = tt
objects peers k ps (q ∷ qs) m keys within = (
  (ps, (subst (λ (j : PublicKey). Member (j, ps) peers) (sym keys.0) m, within q (inl refl))),
  objects peers k ps qs m keys.1 (λ p h. within p (inr h)),
)

pub get_or-objects :
    (peers : KeyMap (List Peer)) (k : PublicKey) (part : KeyMap (List Peer))
    → IsWithin part peers
    → All Entry part
    → All (IsObject peers) (get_or [] k part)
get_or-objects peers k [] within en = unfold get_or Keyed.lookup in tt
get_or-objects peers k ((j, ps) ∷ part) within en =
    rw (Keyed.get_or-cons [] k j ps part) (elim (Bool-cases (equal j k)) [
      | inl hit ↦ rw hit (objects peers j ps ps (within (j, ps) (inl refl)) en.0.1 (λ p h. h))
      | inr miss ↦ rw miss (get_or-objects peers k part (λ e m. within e (inr m)) en.1)
    ])

-- The best so far, where there is one, is an object of the map.
abbrev pub Chosen : KeyMap (List Peer) → Best → Type 0
Chosen peers best = (p : Peer) → best.peer ≡ some p → IsObject peers p

take-Chosen :
    (peers : KeyMap (List Peer)) (best : Best) (k : PublicKey) (ps : List Peer) (n : ℕ)
    → Member (k, ps) peers
    → Entry (k, ps)
    → Chosen peers best
    → Chosen peers (take_first best ps n)
unfolding take_first
take-Chosen peers best k [] n m en h = h
take-Chosen peers best k (q ∷ ps) n m en h = λ p e.
    let is_q : some q ≡ some p = e in
    let same : q ≡ p = ground (arith, is_q) in
    subst (IsObject peers) same
      ((q ∷ ps), (subst (λ (j : PublicKey). Member (j, (q ∷ ps)) peers) (sym en.1.0) m, inl refl))

update-Chosen :
    (peers : KeyMap (List Peer)) (best : Best) (b : Bool) (k : PublicKey) (ps : List Peer) (n : ℕ)
    → Member (k, ps) peers
    → Entry (k, ps)
    → Chosen peers best
    → Chosen peers (if b then take_first best ps n else best)
update-Chosen peers best true k ps n m en h = take-Chosen peers best k ps n m en h
update-Chosen peers best false k ps n m en h = h

pub scan_by-Chosen :
    (d : PublicKey → ℕ) (peers part : KeyMap (List Peer)) (best : Best)
    → IsWithin part peers
    → All Entry part
    → Chosen peers best
    → Chosen peers (scan_by d part best)
unfolding scan_by
scan_by-Chosen d peers [] best within en h = h
scan_by-Chosen d peers ((k, ps) ∷ part) best within en h =
    scan_by-Chosen d peers part (if is_better best k (d k) then take_first best ps (d k) else best)
      (λ e m. within e (inr m)) en.1
      (update-Chosen peers best (is_better best k (d k)) k ps (d k) (within (k, ps) (inl refl)) en.0
        h)
