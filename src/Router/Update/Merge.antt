-- ===== src/Router/Update/Merge.antt =====
-- What a sequence of announcements makes of what a node knows of one key.
use ironwood.Base.{
  ◌≡◌, refl, sym, ap, ◌∙◌, ◌⊎◌, inl, inr, true, false, List, [], ◌∷◌, Option, none, some,
  if◌then◌else◌, All, Member, arith, subst, Bool-cases,
}
use ironwood.Crypto.{PublicKey, IsPublicKey, equal}
use ironwood.Crypto.Order.{equal_iff}
use ironwood.Keyed.{lookup, lookup-insert}
use ironwood.Messages.Announce.{RouterAnnounce, RouterInfo}
use ironwood.Router.{Router}
use ironwood.Router.Update.{accepts, info_of, store, update}
use ironwood.Router.Update.Order.{supersedes_irrefl, supersedes_trans}

-- The router after a list of announcements, the first one first.
pub updates : Router → List RouterAnnounce → Router
updates r [] = r
updates r (ann ∷ anns) = updates (update r ann).1 anns

-- What one announcement makes of what is known of its key.
merge : Option RouterInfo → RouterAnnounce → Option RouterInfo
merge known ann = if accepts known ann then some (info_of ann) else known

merge_key : PublicKey → Option RouterInfo → RouterAnnounce → Option RouterInfo
merge_key k known ann = if equal ann.key k then merge known ann else known

pub merge_all : PublicKey → Option RouterInfo → List RouterAnnounce → Option RouterInfo
merge_all k known [] = known
merge_all k known (ann ∷ anns) = merge_all k (merge_key k known ann) anns

lookup-update :
    (k : PublicKey) (r : Router) (ann : RouterAnnounce)
    → lookup k (update r ann).1.infos ≡ merge_key k (lookup k r.infos) ann
unfolding update store merge_key merge
lookup-update k r ann = elim (Bool-cases (equal ann.key k)) [
  | inl same ↦
      let here : ann.key ≡ k = (equal_iff ann.key k).0 same in
      elim (Bool-cases (accepts (lookup ann.key r.infos) ann)) [
        | inl yes' ↦ ground (arith, same, yes', here, lookup-insert ann.key k (info_of ann) r.infos)
        | inr no' ↦ ground (arith, same, no', here)
      ]
  | inr other ↦ ground (arith, other, lookup-insert ann.key k (info_of ann) r.infos)
]

pub lookup-updates :
    (k : PublicKey) (r : Router) (anns : List RouterAnnounce)
    → lookup k (updates r anns).infos ≡ merge_all k (lookup k r.infos) anns
unfolding updates merge_all
lookup-updates k r [] = refl
lookup-updates k r (ann ∷ anns) =
    lookup-updates k (update r ann).1 anns
    ∙ ap (λ (o : Option RouterInfo). merge_all k o anns) (lookup-update k r ann)

abbrev pub IsSized : Option RouterInfo → Type 0
IsSized none = Unit {0}
IsSized (some info) = IsPublicKey info.parent

merge_keeps :
    (known : Option RouterInfo) (a b : RouterAnnounce)
    → IsSized known
    → IsPublicKey a.parent
    → IsPublicKey b.parent
    → accepts known a ≡ false
    → accepts (merge known b) a ≡ false
unfolding accepts merge info_of
merge_keeps none a b hk ha hb h = absurd (ground (arith, h))
merge_keeps (some i) a b hk ha hb h = ground (
  arith,
  supersedes_trans i.seq i.parent i.nonce b.seq b.parent b.nonce (hk ∙ sym hb) a.seq a.parent
      a.nonce (hb ∙ sym ha),
)

merge_beats : (known : Option RouterInfo) (a : RouterAnnounce) → accepts (merge known a) a ≡ false
unfolding accepts merge info_of
merge_beats none a = supersedes_irrefl a.seq a.parent a.nonce
merge_beats (some i) a = ground (arith, supersedes_irrefl a.seq a.parent a.nonce)

merge_key-IsSized :
    (k : PublicKey) (known : Option RouterInfo) (a : RouterAnnounce)
    → IsSized known
    → IsPublicKey a.parent
    → IsSized (merge_key k known a)
unfolding merge_key merge info_of
merge_key-IsSized k known a hk ha = elim (Bool-cases (equal a.key k)) [
  | inl e ↦ elim (Bool-cases (accepts known a)) [ inl f ↦ rw (e, f) ha | inr f ↦ rw (e, f) hk ]
  | inr e ↦ rw e hk
]

merge_key-keeps :
    (k : PublicKey) (known : Option RouterInfo) (a b : RouterAnnounce)
    → IsSized known
    → IsPublicKey a.parent
    → IsPublicKey b.parent
    → accepts known a ≡ false
    → accepts (merge_key k known b) a ≡ false
unfolding merge_key
merge_key-keeps k known a b hk ha hb h = elim (Bool-cases (equal b.key k)) [
  | inl e ↦ rw e (merge_keeps known a b hk ha hb h)
  | inr e ↦ rw e h
]

abbrev pub Sized : RouterAnnounce → Type 0
Sized ann = IsPublicKey ann.parent

merge_all-keeps :
    (k : PublicKey) (known : Option RouterInfo) (a : RouterAnnounce) (anns : List RouterAnnounce)
    → IsSized known
    → Sized a
    → All Sized anns
    → accepts known a ≡ false
    → accepts (merge_all k known anns) a ≡ false
unfolding merge_all
merge_all-keeps k known a [] hk ha h e = e
merge_all-keeps k known a (b ∷ anns) hk ha h e =
    merge_all-keeps k (merge_key k known b) a anns (merge_key-IsSized k known b hk h.0) ha h.1
      (merge_key-keeps k known a b hk ha h.0 e)

-- No announcement of the key that was merged supersedes the outcome.
pub merge_all-beats :
    (k : PublicKey) (known : Option RouterInfo) (a : RouterAnnounce) (anns : List RouterAnnounce)
    → IsSized known
    → All Sized anns
    → equal a.key k ≡ true
    → Member a anns
    → accepts (merge_all k known anns) a ≡ false
unfolding merge_all merge_key
merge_all-beats k known a [] hk h own m = absurd m
merge_all-beats k known a (b ∷ anns) hk h own (inl e) =
    merge_all-keeps k (merge_key k known b) a anns (merge_key-IsSized k known b hk h.0)
      (subst Sized (sym e) h.0) h.1 (rw (← e, own) (merge_beats known a))
merge_all-beats k known a (b ∷ anns) hk h own (inr m) =
    merge_all-beats k (merge_key k known b) a anns (merge_key-IsSized k known b hk h.0) h.1 own m

-- Where an outcome comes from.
unfoldable pub Origin : PublicKey → List RouterAnnounce → Option RouterInfo → Type 0
Origin k anns outcome =
    (a : RouterAnnounce) × Member a anns × (equal a.key k ≡ true) × (outcome ≡ some (info_of a))

pub merge_all-Origin :
    (k : PublicKey) (known : Option RouterInfo) (anns : List RouterAnnounce)
    → (merge_all k known anns ≡ known) ⊎ Origin k anns (merge_all k known anns)
unfolding merge_all Origin
merge_all-Origin k known [] = inl refl
merge_all-Origin k known (b ∷ anns) = elim (merge_all-Origin k (merge_key k known b) anns) [
  | inr (a, m, own, e) ↦ inr (a, inr m, own, e)
  | inl e ↦ elim (Bool-cases (equal b.key k)) [
    | inl own ↦ elim (Bool-cases (accepts known b)) [
      | inl new ↦ inr (b, inl refl, own, e ∙ unfold merge_key merge in rw (own, new))
      | inr old ↦ inl (e ∙ unfold merge_key merge in rw (own, old))
    ]
    | inr other ↦ inl (e ∙ unfold merge_key in rw other)
  ]
]
