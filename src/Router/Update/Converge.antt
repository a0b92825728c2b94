-- ===== src/Router/Update/Converge.antt =====
-- Two nodes that heard the same announcements agree, whatever the order they came in.
use ironwood.Base.{
  ◌≡◌, refl, sym, ◌∙◌, ◌≢◌, ◌⊎◌, inl, inr, false, List, [], ◌∷◌, Option, none, some, All, Member,
}
use ironwood.Crypto.{PublicKey, IsPublicKey}
use ironwood.Keyed.{lookup}
use ironwood.Messages.Announce.{RouterAnnounce, RouterInfo}
use ironwood.Router.{Router}
use ironwood.Router.Update.{supersedes, accepts, info_of}
use ironwood.Router.Update.Order.{supersedes_antisymm}
use ironwood.Router.Update.Merge.{
  updates, merge_all, lookup-updates, Sized, merge_all-beats, merge_all-Origin, Origin,
}

-- Both know nothing, or infos of one seq, one parent and one nonce.
abbrev pub Agree : Option RouterInfo → Option RouterInfo → Type 0
Agree none none = Unit {0}
Agree (some i) (some j) = (i.seq ≡ j.seq) × (i.parent ≡ j.parent) × (i.nonce ≡ j.nonce)
Agree _ _ = ⊥

-- An info that came from one list is not superseded by one that came from the other.
crossed :
    (k : PublicKey) (anns bnns : List RouterAnnounce) (i j : RouterInfo)
    → All Sized anns
    → ((a : RouterAnnounce) → Member a bnns → Member a anns)
    → Origin k bnns (some j)
    → merge_all k none anns ≡ some i
    → supersedes i.seq i.parent i.nonce j.seq j.parent j.nonce ≡ false
unfolding Origin accepts info_of
crossed k anns bnns i j sa back (a, m, own, e) known =
    let lost : accepts (some i) a ≡ false =
      rw known at (merge_all-beats k none a anns tt sa own (back a m)) in
    let same : j ≡ info_of a = cc in rw same lost

-- A list that leaves a key unknown has no announcement of it.
unknown :
    (k : PublicKey) (anns bnns : List RouterAnnounce) (o : Option RouterInfo)
    → All Sized anns
    → ((a : RouterAnnounce) → Member a bnns → Member a anns)
    → Origin k bnns o
    → merge_all k none anns ≢ none
unfolding Origin accepts
unknown k anns bnns o sa back (a, m, own, e) none_known =
    let lost : accepts none a ≡ false =
      rw none_known at (merge_all-beats k none a anns tt sa own (back a m)) in
    cc lost

-- The parent of an info that came from a list of announcements is 32 bytes.
Origin-Sized :
    (k : PublicKey) (anns : List RouterAnnounce) (i : RouterInfo)
    → All Sized anns
    → Origin k anns (some i)
    → IsPublicKey i.parent
unfolding Origin info_of
Origin-Sized k anns i sa (a, m, own, e) =
    let same : i ≡ info_of a = cc in rw same (All-Sized a anns sa m)
  where
    All-Sized :
        (x : RouterAnnounce) (xs : List RouterAnnounce) → All Sized xs → Member x xs → Sized x
    All-Sized x [] h n = absurd n
    All-Sized x (y ∷ ys) h (inl f) = rw f h.0
    All-Sized x (y ∷ ys) h (inr n) = All-Sized x ys h.1 n

module _ (k : PublicKey) (anns bnns : List RouterAnnounce) (sa : All Sized anns)
    (sb : All Sized bnns) (there : (a : RouterAnnounce) → Member a anns → Member a bnns)
    (back : (a : RouterAnnounce) → Member a bnns → Member a anns) where
  Agree-by_cases :
      (x y : Option RouterInfo)
      → merge_all k none anns ≡ x
      → merge_all k none bnns ≡ y
      → (x ≡ none) ⊎ Origin k anns x
      → (y ≡ none) ⊎ Origin k bnns y
      → Agree x y
  Agree-by_cases none none hx hy ox oy = tt
  Agree-by_cases none (some j) hx hy ox (inl e) = cc
  Agree-by_cases none (some j) hx hy ox (inr o) = unknown k anns bnns (some j) sa back o hx
  Agree-by_cases (some i) none hx hy (inl e) oy = cc
  Agree-by_cases (some i) none hx hy (inr o) oy = unknown k bnns anns (some i) sb there o hy
  Agree-by_cases (some i) (some j) hx hy (inl e) oy = absurd (cc)
  Agree-by_cases (some i) (some j) hx hy (inr o) (inl e) = absurd (cc)
  Agree-by_cases (some i) (some j) hx hy (inr o) (inr q) =
      supersedes_antisymm i.seq i.parent i.nonce j.seq j.parent j.nonce
        (Origin-Sized k anns i sa o ∙ sym (Origin-Sized k bnns j sb q))
        (crossed k anns bnns i j sa back q hx) (crossed k bnns anns j i sb there o hy)

  merge_all-Agree : Agree (merge_all k none anns) (merge_all k none bnns)
  merge_all-Agree =
      Agree-by_cases _ _ refl refl (merge_all-Origin k none anns) (merge_all-Origin k none bnns)

-- Two routers that know nothing and hear the same announcements, each in any order and any number
-- of times, end with the same seq, parent and nonce for every key, or both with nothing. The
-- parents' keys are 32 bytes.
pub updates-Agree :
    (r s : Router) (anns bnns : List RouterAnnounce) (k : PublicKey)
    → r.infos ≡ []
    → s.infos ≡ []
    → All Sized anns
    → All Sized bnns
    → ((a : RouterAnnounce) → Member a anns → Member a bnns)
    → ((a : RouterAnnounce) → Member a bnns → Member a anns)
    → Agree (lookup k (updates r anns).infos) (lookup k (updates s bnns).infos)
updates-Agree r s anns bnns k hr hs sa sb there back =
    rw (lookup-updates k r anns, lookup-updates k s bnns, hr, hs)
      (unfold lookup in merge_all-Agree k anns bnns sa sb there back)
