-- ===== src/Router/Parent/Choosing.antt =====
-- The root and the parent that _fix of network/router.go chooses.
use ironwood.Base.{
  ◌≡◌, ◌⊎◌, ◌∙◌, subst, inl, inr, true, false, List, [], ◌∷◌, All, arith, Bool-cases,
}
use ironwood.Wire.{PeerPort}
use ironwood.Crypto.{PublicKey, equal, less}
use ironwood.Crypto.Order.{equal_iff}
use ironwood.Keyed.{KeyMap, has, get_or, has-lookup}
use ironwood.Messages.SigRes.{RouterSigRes}
use ironwood.Router.{Router}
use ironwood.Router.Tree.{Infos, get_root_and_dists}
use ironwood.Router.Tree.Chain.{RootPath, at_root, below}
use ironwood.Router.Tree.Walk.{IsAbove}
use ironwood.Router.Tree.Above.{has-get_root_and_dists, root-get_root_and_dists}
use ironwood.Router.Handlers.{zero_info}
use ironwood.Router.Parent.{Choice, eligible, choose}
use ironwood.Router.Parent.Picking.{Outranked, Picked, choose-Picked}

-- What holds of each key of a map holds of one that is there.
All-has :
    (P : PublicKey → Type 0) (m : KeyMap RouterSigRes) (k : PublicKey)
    → All (λ e. P e.0) m
    → has k m ≡ true
    → P k
unfolding has
All-has P [] k h e = absurd (ground (arith, e))
All-has P ((j, v) ∷ m) k h e = elim (Bool-cases (equal j k)) [
  | inl same ↦ subst P ((equal_iff j k).0 same) h.0
  | inr other ↦ All-has P m k h.1 (ground (arith, e, other))
]

RootPath-known :
    (infos : Infos) (k root : PublicKey) (up : List PeerPort)
    → RootPath infos k root up
    → has k infos ≡ true
RootPath-known infos k root up (at_root i e p r u) = has-lookup k infos i e
RootPath-known infos k root up (below i e p n d u) = has-lookup k infos i e

-- The root at the end of the parents of `k`, where they lead to one.
abbrev pub LeadsTo : Infos → PublicKey → PublicKey → Type 0
LeadsTo infos k best =
    (root : PublicKey) (up : List PeerPort) → RootPath infos k root up → best ≡ root

-- What _fix may choose: the node itself as a root; its present parent, if that is a peer, with the
-- root above the node; or a peer that sent a response, whose info is known and which does not stand
-- below this node, with the root above it.
abbrev pub Chosen : Router → Choice → Type 0
Chosen r best =
    ((best.root ≡ r.public_key) × (best.parent ≡ r.public_key))
    ⊎ ((best.parent ≡ (get_or zero_info r.public_key r.infos).parent)
        × (has best.parent r.peers ≡ true)
        × LeadsTo r.infos r.public_key best.root)
    ⊎ ((has best.parent r.responses ≡ true)
        × (has best.parent r.infos ≡ true)
        × (IsAbove r.infos r.public_key best.parent → ⊥)
        × LeadsTo r.infos best.parent best.root)

leads :
    (infos : Infos) (k best : PublicKey)
    → best ≡ (get_root_and_dists infos k).0
    → LeadsTo infos k best
leads infos k best e root up d = e ∙ root-get_root_and_dists infos k root up d

-- The test of _fix: the peer's place is known, and it does not stand below this node.
eligible-false :
    (r : Router) (pk root : PublicKey) (up : List PeerPort)
    → RootPath r.infos pk root up
    → (IsAbove r.infos r.public_key pk → ⊥)
    → eligible r pk ≡ false
    → ⊥
unfolding eligible
eligible-false r pk root up d apart h =
    elim (Bool-cases (has r.public_key (get_root_and_dists r.infos pk).1)) [
      | inl loops ↦ apart ((has-get_root_and_dists r.infos r.public_key pk).0 loops)
      | inr free ↦ ground (arith, h, free, RootPath-known r.infos pk root up d)
    ]

eligible-true :
    (r : Router) (pk : PublicKey)
    → eligible r pk ≡ true
    → (has pk r.infos ≡ true) × (IsAbove r.infos r.public_key pk → ⊥)
unfolding eligible
eligible-true r pk h = (
  ground (arith, h),
  λ up. ground (arith, h, (has-get_root_and_dists r.infos r.public_key pk).1 up),
)

Picked-Chosen : (r : Router) (best : Choice) → Picked r best → Chosen r best
Picked-Chosen r best (inl self) = inl self
Picked-Chosen r best (inr (inl (e, peer, root))) =
    inr (inl (e, peer, leads r.infos r.public_key best.root root))
Picked-Chosen r best (inr (inr (sent, e, root))) =
    let (known, apart) = eligible-true r best.parent e in
    inr (inr (sent, known, apart, leads r.infos best.parent best.root root))

-- _fix chooses a root that is not above the node's own key, nor above the root of any peer that
-- sent a response, has a path to that root, and does not stand below this node. The choice is the
-- node itself; its present parent, where that is a peer; or a peer that sent a response, whose info
-- is known and which does not stand below this node. Where the parents of the chosen one (for the
-- present parent, of the node) lead to a root, that is the root chosen. Which of
-- the peers with one root it prefers is left open.
pub choose_best :
    (r : Router)
    → (less r.public_key (choose r).root ≡ false)
      × ((pk root : PublicKey) (up : List PeerPort)
          → has pk r.responses ≡ true
          → RootPath r.infos pk root up
          → (IsAbove r.infos r.public_key pk → ⊥)
          → less root (choose r).root ≡ false)
      × Chosen r (choose r)
choose_best r =
    let (low, beats, picked) = choose-Picked r in
    (
      low,
      λ pk root up sent d apart. elim (All-has (Outranked r (choose r)) r.responses pk beats sent) [
        | inl worse ↦ absurd (eligible-false r pk root up d apart worse)
        | inr high ↦
            subst (λ (k : PublicKey). less k (choose r).root ≡ false)
              (root-get_root_and_dists r.infos pk root up d) high
      ],
      Picked-Chosen r (choose r) picked,
    )
