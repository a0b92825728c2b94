-- ===== src/Router/NextHop/Pick.antt =====
-- The last loop of _lookup: the best peer object of a key.
use ironwood.Base.{
  ◌≤◌, ◌<◌, ◌≡◌, refl, ◌∙◌, ◌⊎◌, inl, inr, ◌&&◌, List, [], ◌∷◌, ltb, ◌==◌, if◌then◌else◌, All,
  All-map, arith, Bool-cases,
}
use ironwood.Crypto.{PublicKey, equal}
use ironwood.Crypto.Order.{equal_iff}
use ironwood.Keyed.{KeyMap, get_or}
use ironwood.Keyed
use ironwood.Router.{Peer}
use ironwood.Router.NextHop.Scan.{Entry}
use ironwood.Router.NextHop.{pick}

-- `p` is at least as good an object as `q`: by priority, and at one priority by the time it is up.
abbrev pub Ranks : Peer → Peer → Type 0
Ranks p q = (p.prio < q.prio) ⊎ ((p.prio ≡ q.prio) × (p.order ≤ q.order))

Ranks-trans : (p q r : Peer) → Ranks p q → Ranks q r → Ranks p r
Ranks-trans p q r h k = ground arith

choose : Peer → Peer → Peer
choose best p =
    if ltb p.prio best.prio
    then p
    else if p.prio == best.prio && ltb p.order best.order
    then p
    else best

choose-Ranks : (best p : Peer) → Ranks (choose best p) best × Ranks (choose best p) p
unfolding choose
choose-Ranks best p = ground arith

choose_key : (best p : Peer) (k : PublicKey) → best.key ≡ k → p.key ≡ k → (choose best p).key ≡ k
unfolding choose
choose_key best p k h e = ground arith

pick-Ranks_best : (best : Peer) (ps : List Peer) → Ranks (pick best ps) best
unfolding pick choose
pick-Ranks_best best [] = inr (refl, omega arith)
pick-Ranks_best best (p ∷ ps) =
    Ranks-trans (pick (choose best p) ps) (choose best p) best (pick-Ranks_best (choose best p) ps)
      (choose-Ranks best p).0

-- The object picked has the key of the others, and none of them ranks above it.
pub pick-Ranks :
    (k : PublicKey) (best : Peer) (ps : List Peer)
    → best.key ≡ k
    → All (λ p. p.key ≡ k) ps
    → ((pick best ps).key ≡ k) × All (Ranks (pick best ps)) ps
unfolding pick choose
pick-Ranks k best [] hb h = (hb, tt)
pick-Ranks k best (p ∷ ps) hb h =
    let rest = pick-Ranks k (choose best p) ps (choose_key best p k hb h.0) h.1 in
    let here =
      Ranks-trans (pick (choose best p) ps) (choose best p) p (pick-Ranks_best (choose best p) ps)
        (choose-Ranks best p).1 in
    (rest.0, (here, rest.1))

pub get_or-keys :
    (k : PublicKey) (peers : KeyMap (List Peer))
    → All Entry peers
    → All (λ p. p.key ≡ k) (get_or [] k peers)
get_or-keys k [] en = unfold get_or Keyed.lookup in tt
get_or-keys k ((j, ps) ∷ peers) en =
    rw (Keyed.get_or-cons [] k j ps peers) (elim (Bool-cases (equal j k)) [
      | inl hit ↦
          rw hit (All-map (λ (p : Peer) (e : p.key ≡ j). e ∙ (equal_iff j k).0 hit) ps en.0.1)
      | inr miss ↦ rw miss (get_or-keys k peers en.1)
    ])
