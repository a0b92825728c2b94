-- ===== src/Router/Parent/Picking.antt =====
-- How the loop of _fix picks a root and a parent.
use ironwood.Base.{
  ◌≡◌, ◌⊎◌, refl, ◌∙◌, inl, inr, Bool, true, false, ◌&&◌, ◌||◌, [], ◌∷◌, All, arith, Bool-cases,
}
use ironwood.Crypto.{PublicKey, equal, less}
use ironwood.Crypto.Order.{less_trans, less_irrefl, less_asymm, equal_iff, equal_refl}
use ironwood.Keyed.{KeyMap, has, get_or}
use ironwood.Messages.SigRes.{RouterSigRes}
use ironwood.Router.{Router}
use ironwood.Router.Tree.{get_root_and_dists}
use ironwood.Router.Handlers.{zero_info}
use ironwood.Router.Parent.{Choice, prefer, eligible, consider, consider_all, first_choice, choose}

abbrev root_of : Router → PublicKey → PublicKey
root_of r k = (get_root_and_dists r.infos k).0

-- A key that the best root is not above stays so: the best root only falls.
consider-keeps :
    (r : Router) (own : PublicKey) (best : Choice) (pk j : PublicKey)
    → less j best.root ≡ false
    → less j (consider r own best pk).root ≡ false
unfolding consider prefer
consider-keeps r own best pk j h =
    ground (arith, less_trans j (root_of r pk) best.root, equal_iff (root_of r pk) best.root)

-- After its round an eligible peer has no better root.
consider-beats :
    (r : Router) (own : PublicKey) (best : Choice) (pk : PublicKey)
    → eligible r pk ≡ true
    → less (root_of r pk) (consider r own best pk).root ≡ false
unfolding consider prefer
consider-beats r own best pk h =
    ground (arith, less_irrefl (root_of r pk), equal_iff (root_of r pk) best.root)

-- The choice is the one before, or the peer considered with its root.
consider_cases :
    (r : Router) (own : PublicKey) (best : Choice) (pk : PublicKey)
    → (consider r own best pk ≡ best)
      ⊎ ((eligible r pk ≡ true)
          × (consider r own best pk ≡ record { root = root_of r pk; parent = pk }))
unfolding consider prefer
consider_cases r own best pk = ground arith

consider_all-keeps :
    (r : Router) (own : PublicKey) (best : Choice) (j : PublicKey) (responses : KeyMap RouterSigRes)
    → less j best.root ≡ false
    → less j (consider_all r own responses best).root ≡ false
unfolding consider_all
consider_all-keeps r own best j [] h = h
consider_all-keeps r own best j ((pk, res) ∷ responses) h =
    consider_all-keeps r own (consider r own best pk) j responses (consider-keeps r own best pk j h)

-- A peer that is no candidate, or whose root is not better than the choice's.
abbrev pub Outranked : Router → Choice → PublicKey → Type 0
Outranked r best pk =
    (eligible r pk ≡ false) ⊎ (less (get_root_and_dists r.infos pk).0 best.root ≡ false)

consider_all-beats :
    (r : Router) (own : PublicKey) (best : Choice) (responses : KeyMap RouterSigRes)
    → All (λ e. Outranked r (consider_all r own responses best) e.0) responses
unfolding consider_all
consider_all-beats r own best [] = tt
consider_all-beats r own best ((pk, res) ∷ responses) =
    (here (Bool-cases (eligible r pk)), consider_all-beats r own (consider r own best pk) responses)
  where
    here :
        (eligible r pk ≡ true) ⊎ (eligible r pk ≡ false)
        → Outranked r (consider_all r own responses (consider r own best pk)) pk
    here (inl e) = inr (
        consider_all-keeps r own (consider r own best pk) (root_of r pk) responses
          (consider-beats r own best pk e))
    here (inr e) = inl e

-- A choice is the one before the loop, or a candidate that sent a response, with its root.
consider_all_cases :
    (r : Router) (own : PublicKey) (best : Choice) (responses : KeyMap RouterSigRes)
    → (consider_all r own responses best ≡ best)
      ⊎ ((pk : PublicKey) × (has pk responses ≡ true)
          × (eligible r pk ≡ true)
          × (consider_all r own responses best ≡ record { root = root_of r pk; parent = pk }))
unfolding consider_all has
consider_all_cases r own best [] = inl refl
consider_all_cases r own best ((pk, res) ∷ responses) =
    elim (consider_all_cases r own (consider r own best pk) responses) [
      | inr (k, isin, e, same) ↦ inr (k, rw isin (or-true (equal pk k)), e, same)
      | inl same ↦ elim (consider_cases r own best pk) [
        | inl old ↦ inl (same ∙ old)
        | inr (e, new) ↦ inr (pk, rw (equal_refl pk) refl, e, same ∙ new)
      ]
    ]
  where
    or-true : (b : Bool) → (b || true) ≡ true
    or-true true = refl
    or-true false = refl

-- What the choice comes from, in the code's own terms.
abbrev pub Picked : Router → Choice → Type 0
Picked r best =
    ((best.root ≡ r.public_key) × (best.parent ≡ r.public_key))
    ⊎ ((best.parent ≡ (get_or zero_info r.public_key r.infos).parent)
        × (has best.parent r.peers ≡ true)
        × (best.root ≡ (get_root_and_dists r.infos r.public_key).0))
    ⊎ ((has best.parent r.responses ≡ true)
        × (eligible r best.parent ≡ true)
        × (best.root ≡ (get_root_and_dists r.infos best.parent).0))

first_choice-Picked :
    (r : Router)
    → (less r.public_key (first_choice r (get_or zero_info r.public_key r.infos).parent).root
        ≡ false)
      × Picked r (first_choice r (get_or zero_info r.public_key r.infos).parent)
unfolding first_choice
first_choice-Picked r = elim (Bool-cases test) [
  | inl e ↦
      rw e (
        less_asymm (root_of r r.public_key) r.public_key (better e),
        inr (inl (refl, peer e, refl)),
      )
  | inr e ↦ rw e (less_irrefl r.public_key, inl (refl, refl))
]
  where
    own : PublicKey
    own = (get_or zero_info r.public_key r.infos).parent

    test : Bool
    test = has own r.peers && less (root_of r r.public_key) r.public_key

    better : test ≡ true → less (root_of r r.public_key) r.public_key ≡ true
    better e = ground (arith, e)

    peer : test ≡ true → has own r.peers ≡ true
    peer e = ground (arith, e)

pub choose-Picked :
    (r : Router)
    → (less r.public_key (choose r).root ≡ false)
      × All (λ e. Outranked r (choose r) e.0) r.responses
      × Picked r (choose r)
unfolding choose
choose-Picked r = (
  consider_all-keeps r own (first_choice r own) r.public_key r.responses (first_choice-Picked r).0,
  consider_all-beats r own (first_choice r own) r.responses,
  elim (consider_all_cases r own (first_choice r own) r.responses) [
    | inl same ↦ rw same (first_choice-Picked r).1
    | inr (pk, isin, e, same) ↦ rw same (inr (inr (isin, e, refl)))
  ],
)
  where
    own : PublicKey
    own = (get_or zero_info r.public_key r.infos).parent
