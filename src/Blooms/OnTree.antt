-- ===== src/Blooms/OnTree.antt =====
-- What _fixOnTree leaves, and sends.
use ironwood.Base.{
  ◌≡◌, refl, sym, ap, ◌∙◌, subst, inl, inr, true, false, not, ◌&&◌, List, [], ◌∷◌, ◌++◌, some,
  if◌then◌else◌, arith, Member, Bool-cases, Option-cases, ◌⊎◌, ◌↔◌,
}
use ironwood.Types.{ok}
use ironwood.Crypto.{PublicKey, equal}
use ironwood.Crypto.Order.{equal_iff}
use ironwood.Keyed.{lookup, get_or, has}
use ironwood.Messages.Announce.{RouterInfo}
use ironwood.Router.{Router, Peer}
use ironwood.Blooms.{
  Filter, BloomInfo, Blooms, Sent, send_to_all, is_linked, is_on_tree, fix_one, fix_loop,
  fix_on_tree,
}

-- `k` is the parent of the node whose info is given, or says that the node is its own.
unfoldable pub IsRelated : Router → RouterInfo → PublicKey → Type 0
IsRelated r info k =
    (info.parent ≡ k) ⊎ ((i : RouterInfo) × (lookup k r.infos ≡ some i) × (i.parent ≡ r.public_key))

related :
    (r : Router) (info : RouterInfo) (k : PublicKey)
    → IsRelated r info k
    → is_linked r info k ≡ true
unfolding IsRelated is_linked
related r info k (inl e) = rw ((equal_iff info.parent k).1 e) refl
related r info k (inr (i, found, e)) = elim (Bool-cases (equal info.parent k)) [
  | inl above ↦ rw (above) refl
  | inr other ↦ rw (other, found, (equal_iff i.parent r.public_key).1 e) refl
]

linked :
    (r : Router) (info : RouterInfo) (k : PublicKey)
    → is_linked r info k ≡ true
    → IsRelated r info k
unfolding IsRelated is_linked
linked r info k e = elim (Bool-cases (equal info.parent k)) [
  | inl above ↦ inl ((equal_iff info.parent k).0 above)
  | inr other ↦ elim (Option-cases (lookup k r.infos)) [
    | inl missing ↦ absurd (ground (arith, rw (other, missing) at e))
    | inr (i, found) ↦ inr (i, found, (equal_iff i.parent r.public_key).0 (rw (other, found) at e))
  ]
]

unrelated :
    (r : Router) (info : RouterInfo) (k : PublicKey)
    → (IsRelated r info k → ⊥)
    → is_linked r info k ≡ false
unrelated r info k no_link = elim (Bool-cases (is_linked r info k)) [
  | inl e ↦ absurd (no_link (linked r info k e))
  | inr e ↦ e
]

module _ (filter : Filter) where
  is_on_tree-cons :
      (j k : PublicKey) (pbi : BloomInfo filter) (bs : Blooms filter)
      → is_on_tree filter k ((j, pbi) ∷ bs)
        ≡ (if equal j k then pbi.on_tree else is_on_tree filter k bs)
  unfolding is_on_tree lookup
  is_on_tree-cons j k pbi bs = ground arith

  on_tree-fix_one :
      (r : Router) (info : RouterInfo) (k : PublicKey) (pbi : BloomInfo filter)
      → (fix_one filter r info k pbi).0.on_tree ≡ is_linked r info k
  unfolding fix_one
  on_tree-fix_one r info k pbi = elim (Bool-cases (pbi.on_tree && not (is_linked r info k))) [
    | inl left ↦ rw (left) refl
    | inr stays ↦ rw (stays) refl
  ]

  is_on_tree-fix_loop :
      (r : Router) (info : RouterInfo) (bs : Blooms filter) (k : PublicKey)
      → is_on_tree filter k (fix_loop filter r info bs).0 ≡ (has k bs && is_linked r info k)
  unfolding fix_loop has is_on_tree lookup
  is_on_tree-fix_loop r info [] k = refl
  is_on_tree-fix_loop r info ((j, pbi) ∷ bs) k = ground (
    arith,
    is_on_tree-cons j k (fix_one filter r info j pbi).0 (fix_loop filter r info bs).0,
    on_tree-fix_one r info j pbi,
    is_on_tree-fix_loop r info bs k,
    equal_iff j k,
  )

  -- What is known of a peer after the loop: of several entries the first counts.
  lookup-fix_loop :
      (r : Router) (info : RouterInfo) (bs : Blooms filter) (k : PublicKey) (pbi : BloomInfo filter)
      → lookup k bs ≡ some pbi
      → lookup k (fix_loop filter r info bs).0 ≡ some (fix_one filter r info k pbi).0
  unfolding fix_loop lookup
  lookup-fix_loop r info [] k pbi e = absurd (ground arith)
  lookup-fix_loop r info ((j, pj) ∷ bs) k pbi e = elim (Bool-cases (equal j k)) [
    | inl here ↦
        let at_k : j ≡ k = (equal_iff j k).0 here in
        let is_pbi : some pj ≡ some pbi = rw (here) at e in rw (here) (cc (at_k, is_pbi))
    | inr there ↦ rw (there) (lookup-fix_loop r info bs k pbi (rw (there) at e))
  ]

  Member-send_to_all :
      (ps : List Peer) (b : filter.Bits) (p : Peer)
      → Member p ps
      → Member (p, b) (send_to_all filter ps b)
  Member-send_to_all [] b p h = h
  Member-send_to_all (q ∷ ps) b p (inl e) = inl (ap (λ (p : Peer). (p, b)) e)
  Member-send_to_all (q ∷ ps) b p (inr h) = inr (Member-send_to_all ps b p h)

  Member-append_left :
      (xs ys : Sent filter) (m : Peer × filter.Bits) → Member m xs → Member m (xs ++ ys)
  Member-append_left [] ys m h = elim h [ ]
  Member-append_left (x ∷ xs) ys m (inl e) = inl e
  Member-append_left (x ∷ xs) ys m (inr h) = inr (Member-append_left xs ys m h)

  Member-append_right :
      (xs ys : Sent filter) (m : Peer × filter.Bits) → Member m ys → Member m (xs ++ ys)
  Member-append_right [] ys m h = h
  Member-append_right (x ∷ xs) ys m h = inr (Member-append_right xs ys m h)

  -- A peer that leaves the tree.
  blank-fix_one :
      (r : Router) (info : RouterInfo) (k : PublicKey) (pbi : BloomInfo filter)
      → pbi.on_tree ≡ true
      → is_linked r info k ≡ false
      → fix_one filter r info k pbi ≡ (
        record pbi { on_tree = false; send = filter.empty },
        send_to_all filter (get_or [] k r.peers) filter.empty,
      )
  unfolding fix_one
  blank-fix_one r info k pbi on off = rw (on, off) refl

  sent-fix_loop :
      (r : Router) (info : RouterInfo) (bs : Blooms filter) (k : PublicKey) (pbi : BloomInfo filter)
      (m : Peer × filter.Bits)
      → lookup k bs ≡ some pbi
      → Member m (fix_one filter r info k pbi).1
      → Member m (fix_loop filter r info bs).1
  unfolding fix_loop lookup
  sent-fix_loop r info [] k pbi m e h = absurd (ground arith)
  sent-fix_loop r info ((j, pj) ∷ bs) k pbi m e h = elim (Bool-cases (equal j k)) [
    | inl here ↦
        let at_k : k ≡ j = sym ((equal_iff j k).0 here) in
        let is_pj : some pbi ≡ some pj = sym (rw (here) at e) in
        let same : (fix_one filter r info k pbi).1 ≡ (fix_one filter r info j pj).1 =
          cc (at_k, is_pj) in
        Member-append_left _ _ m (subst (λ (out : Sent filter). Member m out) same h)
    | inr there ↦ Member-append_right _ _ m (sent-fix_loop r info bs k pbi m (rw (there) at e) h)
  ]

  on_tree-IsRelated :
      (r : Router) (info : RouterInfo) (bs : Blooms filter) (k : PublicKey)
      → is_on_tree filter k (fix_loop filter r info bs).0 ≡ true
      → (has k bs ≡ true) × IsRelated r info k
  on_tree-IsRelated r info bs k on =
      let both = sym (is_on_tree-fix_loop r info bs k) ∙ on in
      (ground (arith, both), linked r info k (ground (arith, both)))

  IsRelated-on_tree :
      (r : Router) (info : RouterInfo) (bs : Blooms filter) (k : PublicKey)
      → has k bs ≡ true
      → IsRelated r info k
      → is_on_tree filter k (fix_loop filter r info bs).0 ≡ true
  IsRelated-on_tree r info bs k known h =
      ground (arith, is_on_tree-fix_loop r info bs k, known, related r info k h)

  -- Where the node knows itself, _fixOnTree returns, and just those peers are on the tree that have an entry
  -- and are the node's parent or its child. A peer that leaves the tree is sent the blank filter
  -- through each of its objects, and the blank filter is what counts as sent to it.
  pub fix_on_tree_lem :
      (r : Router) (info : RouterInfo) (bs : Blooms filter)
      → lookup r.public_key r.infos ≡ some info
      → (bs' : Blooms filter) × (out : Sent filter) × (fix_on_tree filter r bs ≡ ok (bs', out))
        × ((k : PublicKey)
            → (is_on_tree filter k bs' ≡ true) ↔ ((has k bs ≡ true) × IsRelated r info k))
        × ((k : PublicKey) (pbi : BloomInfo filter)
            → lookup k bs ≡ some pbi
            → pbi.on_tree ≡ true
            → (IsRelated r info k → ⊥)
            → (lookup k bs' ≡ some (record pbi { on_tree = false; send = filter.empty }))
              × ((p : Peer) → Member p (get_or [] k r.peers) → Member (p, filter.empty) out))
  unfolding fix_on_tree
  fix_on_tree_lem r info bs e = (
    (fix_loop filter r info bs).0,
    (fix_loop filter r info bs).1,
    rw (e, fix_on_tree) refl,
    λ k. (λ on. on_tree-IsRelated r info bs k on, λ h. IsRelated-on_tree r info bs k h.0 h.1),
    λ k pbi at_k on apart.
        let off = unrelated r info k apart in
        (
          lookup-fix_loop r info bs k pbi at_k
              ∙ ap (λ (o : BloomInfo filter × Sent filter). some o.0)
                  (blank-fix_one r info k pbi on off),
          λ p h.
              sent-fix_loop r info bs k pbi (p, filter.empty) at_k
                (rw (blank-fix_one r info k pbi on off)
                  (Member-send_to_all (get_or [] k r.peers) filter.empty p h)),
        ),
  )
