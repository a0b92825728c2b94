-- ===== src/Router/Tree/Above.antt =====
-- _getRootAndDists finds the nodes above a node, and the root where its parents lead to one.
use ironwood.Base.{
  ℕ, suc, ◌≡◌, refl, sym, ap, ◌∙◌, inl, inr, Bool, true, false, ◌||◌, List, [], none, some, length,
  arith,
}
use ironwood.Wire.{PeerPort}
use ironwood.Crypto.{PublicKey}
use ironwood.Crypto.Order.{equal_refl}
use ironwood.Keyed.{lookup, has, insert, contains, has-insert, unvisited-le-length}
use ironwood.Messages.Announce.{RouterInfo}
use ironwood.Router.Tree.{Infos, zero_key, dists_loop, get_root_and_dists}
use ironwood.Router.Tree.Chain.{RootPath, Deeper}
use ironwood.Router.Tree.Walk.{
  IsAbove, here, above, Walked, finds, Closed, Keys, step, stays, found-IsAbove, dists_loop-Closed,
  dists_loop_root,
}

module _ (infos : Infos) where
  empty-Keys : Keys [] []
  unfolding has contains
  empty-Keys j = refl

  -- _getRootAndDists finds a node just when it stands above the one it is called for.
  pub has-get_root_and_dists :
      (a k : PublicKey)
      → (has a (get_root_and_dists infos k).1 ≡ true → IsAbove infos a k)
        × (IsAbove infos a k → has a (get_root_and_dists infos k).1 ≡ true)
  unfolding get_root_and_dists
  has-get_root_and_dists a k = (
    λ h. elim (found-IsAbove infos (suc (length infos)) k zero_key a [] 0 h) [
      | inl old ↦ absurd (ground (arith, empty-Keys a, old, none_visited a))
      | inr up ↦ up
    ],
    λ up. climb k up (starts up),
  )
    where
      none_visited : (j : PublicKey) → contains j [] ≡ false
      none_visited j = unfold contains in refl

      result : Walked
      result = dists_loop (suc (length infos)) infos k zero_key [] 0

      closed : Closed infos result.1
      closed =
          dists_loop-Closed infos (suc (length infos)) k zero_key [] 0 [] empty-Keys
            (omega (arith, unvisited-le-length [] infos))
            (λ v info found e. absurd (ground (arith, empty-Keys v, found, none_visited v)))

      begins : (info : RouterInfo) → lookup k infos ≡ some info → finds k result ≡ true
      begins info known =
          ap (finds k)
            (step infos (length infos) k zero_key [] 0 info (empty-Keys k ∙ none_visited k) known)
          ∙ stays infos (length infos) info.parent k k (insert k 0 []) 1
              (has-insert k k 0 [] ∙ ap (λ (b : Bool). b || has {V = ℕ} k []) (equal_refl k))

      starts : IsAbove infos a k → finds k result ≡ true
      starts (here info known e) = begins info known
      starts (above info known e up) = begins info known

      known_above : (p : PublicKey) → IsAbove infos a p → lookup p infos ≡ none → ⊥
      known_above p (here info known e) lost = ground (arith, known, lost)
      known_above p (above info known e up) lost = ground (arith, known, lost)

      climb : (j : PublicKey) → IsAbove infos a j → finds j result ≡ true → finds a result ≡ true
      climb j (here info known e) h = ap (λ (i : PublicKey). finds i result) e ∙ h
      climb j (above {p} info known e up) h = elim (closed j info h known) [
        | inl found ↦ climb p up (sym (ap (λ (i : PublicKey). finds i result) e) ∙ found)
        | inr lost ↦
            absurd (known_above p up (sym (ap (λ (i : PublicKey). lookup i infos) e) ∙ lost))
      ]

  pub root-get_root_and_dists :
      (k root : PublicKey) (up : List PeerPort)
      → RootPath infos k root up
      → (get_root_and_dists infos k).0 ≡ root
  unfolding get_root_and_dists
  root-get_root_and_dists k root up d =
      dists_loop_root infos (suc (length infos)) k zero_key root [] 0 [] up d (unfold Deeper in tt)
        empty-Keys (omega (arith, unvisited-le-length [] infos))
