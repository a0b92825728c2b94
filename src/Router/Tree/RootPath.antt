-- ===== src/Router/Tree/RootPath.antt =====
-- _getRootAndPath finds the path to a root where the parents lead to one, and nothing else.
use ironwood.Base.{
  ℕ, zero, suc, ◌<◌, ◌≡◌, ◌≢◌, refl, sym, ap, ◌∙◌, subst, ◌⊎◌, inl, inr, false, List, [], ◌∷◌, ◌++◌,
  none, some, length, reverse, arith, append_assoc, append-nil, Bool-cases, Option-cases,
  length-reverse,
}
use ironwood.Wire.{PeerPort}
use ironwood.Crypto.{PublicKey, equal}
use ironwood.Crypto.Order.{equal_iff}
use ironwood.Keyed.{lookup, contains, unvisited, unvisited_lt, unvisited-le-length}
use ironwood.Messages.Announce.{RouterInfo}
use ironwood.Router.Tree.{Infos, path_loop, get_root_and_path}
use ironwood.Router.Tree.Chain.{
  RootPath, not_equal, equal→ne, same_info, Deeper, Deeper-below, Deeper-fresh, at_root, below,
}

-- One round of the walk, at a root and below one.
module _ (fuel : ℕ) (infos : Infos) (dest next : PublicKey) (visited : List PublicKey)
    (ports : List PeerPort) (info : RouterInfo) (new : contains next visited ≡ false)
    (known : lookup next infos ≡ some info) where
  path_loop_root :
      info.parent ≡ next
      → path_loop (suc fuel) infos dest next visited ports ≡ (next, reverse ports)
  unfolding path_loop
  path_loop_root h = rw (new, known, (equal_iff next info.parent).1 (sym h), path_loop)

  path_loop_up :
      (p : PublicKey)
      → info.parent ≡ p
      → next ≢ p
      → path_loop (suc fuel) infos dest next visited ports
        ≡ path_loop fuel infos dest p (next ∷ visited) (ports ++ (info.port ∷ []))
  unfolding path_loop
  path_loop_up p hp h =
      rw (new, known, not_equal next info.parent (λ q. h (q ∙ hp)), path_loop)
        (ap
          (λ (q : PublicKey).
            path_loop fuel infos dest q (next ∷ visited) (ports ++ (info.port ∷ [])))
          hp)

path_loop_complete :
    (fuel : ℕ) (infos : Infos) (dest next root : PublicKey) (visited : List PublicKey)
    (ports up : List PeerPort)
    → RootPath infos next root up
    → Deeper infos (length up) visited
    → unvisited visited infos < fuel
    → path_loop fuel infos dest next visited ports ≡ (root, reverse (ports ++ up))
path_loop_complete zero infos dest next root visited ports up d h lt = absurd (omega arith)
path_loop_complete (suc fuel) infos dest next root visited ports up (at_root i e p r u) h lt =
    path_loop_root fuel infos dest next visited ports i
      (Deeper-fresh infos next root up visited (at_root i e p r u) h) e p
    ∙ ground (arith, append-nil ports)
path_loop_complete (suc fuel) infos dest next root visited ports up (below {p} {above} i e hp n d u)
      h lt =
    let fresh = Deeper-fresh infos next root up visited (below i e hp n d u) h in
    path_loop_up fuel infos dest next visited ports i fresh e p hp n
    ∙ path_loop_complete fuel infos dest p root (next ∷ visited) (ports ++ (i.port ∷ [])) above d
        (Deeper-below infos next root i.port above up visited (below i e hp n d u) u h)
        (omega (arith, unvisited_lt next visited infos i e fresh))
    ∙ ground (arith, append_assoc ports (i.port ∷ []) above)

-- What the walk returns: its start and no ports, or a root and the ports down from it.
Outcome : Infos → PublicKey → PublicKey → List PeerPort → PublicKey × List PeerPort → Type 0
Outcome infos dest next ports result =
    (result ≡ (dest, []))
    ⊎ ((root : PublicKey) × (up : List PeerPort) × RootPath infos next root up
        × (result ≡ (root, reverse (ports ++ up))))

Outcome-below :
    (infos : Infos) (dest next : PublicKey) (ports : List PeerPort) (info : RouterInfo)
    (result : PublicKey × List PeerPort)
    → lookup next infos ≡ some info
    → equal next info.parent ≡ false
    → Outcome infos dest info.parent (ports ++ (info.port ∷ [])) result
    → Outcome infos dest next ports result
unfolding Outcome
Outcome-below infos dest next ports info result known more (inl e) = inl e
Outcome-below infos dest next ports info result known more (inr (root, up, d, e)) = inr (
  root,
  info.port ∷ up,
  below info known refl (equal→ne next info.parent more) d refl,
  e ∙ ap (λ (l : List PeerPort). (root, reverse l)) (append_assoc ports (info.port ∷ []) up),
)

path_loop_sound :
    (fuel : ℕ) (infos : Infos) (dest next : PublicKey) (visited : List PublicKey)
    (ports : List PeerPort)
    → Outcome infos dest next ports (path_loop fuel infos dest next visited ports)
unfolding Outcome path_loop
path_loop_sound zero infos dest next visited ports = inl refl
path_loop_sound (suc fuel) infos dest next visited ports =
    elim (Bool-cases (contains next visited)) [
      | inl seen ↦ inl (rw (seen, path_loop))
      | inr new ↦ elim (Option-cases (lookup next infos)) [
        | inl lost ↦ inl (rw (new, lost, path_loop))
        | inr (info, known) ↦ elim (Bool-cases (equal next info.parent)) [
          | inl top ↦
              let self = (equal_iff next info.parent).0 top in
              inr (
                next,
                [],
                at_root info known (sym self) refl refl,
                rw (new, known, top, path_loop, append-nil ports),
              )
          | inr more ↦
              subst (Outcome infos dest next ports)
                (sym (
                  path_loop_up fuel infos dest next visited ports info new known info.parent refl
                    (equal→ne next info.parent more)))
                (Outcome-below infos dest next ports info _ known more (
                  path_loop_sound fuel infos dest info.parent (next ∷ visited)
                    (ports ++ (info.port ∷ []))))
        ]
      ]
    ]

length-reverse_cons : (p : PeerPort) (ps : List PeerPort) → reverse (p ∷ ps) ≢ []
length-reverse_cons p ps e = omega (arith, ap length e, length-reverse (p ∷ ps))

-- What _getRootAndPath owes: the root that the parents of `k` lead to and the ports from it down
-- to `k`, or `k` and no ports where they lead to none.
abbrev pub Leads : Infos → PublicKey → PublicKey × List PeerPort → Type 0
Leads infos k result =
    ((root : PublicKey) × (up : List PeerPort) × RootPath infos k root up
      × (result ≡ (root, reverse up)))
    ⊎ (((root : PublicKey) (up : List PeerPort) → ¬ RootPath infos k root up) × (result ≡ (k, [])))

complete :
    (infos : Infos) (k root : PublicKey) (up : List PeerPort)
    → RootPath infos k root up
    → get_root_and_path infos k ≡ (root, reverse up)
unfolding get_root_and_path
complete infos k root up d =
    path_loop_complete (suc (length infos)) infos k k root [] [] up d (unfold Deeper in tt)
      (omega (arith, unvisited-le-length [] infos))

-- Nodes whose walk ends with no ports are their own root or lead to none.
rootless :
    (infos : Infos) (k : PublicKey)
    → get_root_and_path infos k ≡ (k, [])
    → Leads infos k (get_root_and_path infos k)
rootless infos k e = elim (Option-cases (lookup k infos)) [
  | inl lost ↦ inr (unknown lost, e)
  | inr (info, known) ↦ elim (Bool-cases (equal k info.parent)) [
    | inl top ↦ inl (k, [], at_root info known (sym ((equal_iff k info.parent).0 top)) refl refl, e)
    | inr more ↦ inr (lower info known (equal→ne k info.parent more), e)
  ]
]
  where
    unknown :
        lookup k infos ≡ none → (root : PublicKey) (up : List PeerPort) → ¬ RootPath infos k root up
    unknown lost root up (at_root i f p r u) = cc
    unknown lost root up (below i f p n d u) = cc

    lower :
        (info : RouterInfo)
        → lookup k infos ≡ some info
        → k ≢ info.parent
        → (root : PublicKey) (up : List PeerPort) → ¬ RootPath infos k root up
    lower info known more root up (at_root i f p r u) =
        more (cc (same_info infos k k info i refl known f))
    lower info known more root up (below {above} i f p n d u) =
        length-reverse_cons i.port above (cc (e, complete infos k root up (below i f p n d u)))

-- _getRootAndPath returns the root that the parents of a node lead to and the ports from it down
-- to the node; where they lead to none, because of a loop or an unknown parent, it returns the
-- node itself and no ports.
pub get_root_and_path-Leads :
    (infos : Infos) (k : PublicKey) → Leads infos k (get_root_and_path infos k)
unfolding Outcome
get_root_and_path-Leads infos k = elim (outcome) [
  | inl e ↦ rootless infos k e
  | inr (root, up, d, e) ↦ inl (root, up, d, e)
]
  where
    outcome : Outcome infos k k [] (get_root_and_path infos k)
    outcome = unfold get_root_and_path in path_loop_sound (suc (length infos)) infos k k [] []
