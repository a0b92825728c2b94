-- ===== src/Router/Tree/Walk.antt =====
-- The walk of _getRootAndDists in network/router.go, round by round.
use ironwood.Base.{
  ℕ, zero, suc, ◌+◌, ◌<◌, ◌≡◌, refl, sym, ap, ◌∙◌, subst, ◌⊎◌, inl, inr, Bool, true, false, ◌||◌,
  List, ◌∷◌, none, some, length, arith, Bool-cases, Option-cases,
}
use ironwood.Wire.{PeerPort}
use ironwood.Crypto.{PublicKey, equal}
use ironwood.Crypto.Order.{equal_iff}
use ironwood.Keyed.{KeyMap, lookup, has, insert, contains, has-insert, unvisited, unvisited_lt}
use ironwood.Messages.Announce.{RouterInfo}
use ironwood.Router.Tree.{Infos, dists_loop}
use ironwood.Router.Tree.Chain.{
  RootPath, at_root, below, same_info, Deeper, Deeper-below, Deeper-fresh,
}

-- `a` is known, and is `k` or stands above it: the parents of `k` lead to it.
pub data IsAbove (infos : Infos) (a : PublicKey) : PublicKey → Type 0 where
  here :
      {k : PublicKey} (info : RouterInfo) → lookup k infos ≡ some info → a ≡ k → IsAbove infos a k
  above :
      {k p : PublicKey} (info : RouterInfo)
      → lookup k infos ≡ some info
      → info.parent ≡ p
      → IsAbove infos a p
      → IsAbove infos a k

abbrev pub Walked : Type 0
Walked = PublicKey × KeyMap ℕ

abbrev pub finds : PublicKey → Walked → Bool
finds a w = has a w.1

-- The keys of a map are those of a list.
abbrev pub Keys : KeyMap ℕ → List PublicKey → Type 0
Keys dists visited = (j : PublicKey) → has j dists ≡ contains j visited

module _ (infos : Infos) where
  pub step :
      (fuel : ℕ) (next root : PublicKey) (dists : KeyMap ℕ) (dist : ℕ) (info : RouterInfo)
      → has next dists ≡ false
      → lookup next infos ≡ some info
      → dists_loop (suc fuel) infos next root dists dist
        ≡ dists_loop fuel infos info.parent next (insert next dist dists) (dist + 1)
  unfolding dists_loop
  step fuel next root dists dist info new known = rw (new, known, dists_loop) refl

  stop_seen :
      (fuel : ℕ) (next root : PublicKey) (dists : KeyMap ℕ) (dist : ℕ)
      → has next dists ≡ true
      → dists_loop fuel infos next root dists dist ≡ (root, dists)
  unfolding dists_loop
  stop_seen zero next root dists dist seen = refl
  stop_seen (suc fuel) next root dists dist seen = rw (seen, dists_loop) refl

  stop_unknown :
      (fuel : ℕ) (next root : PublicKey) (dists : KeyMap ℕ) (dist : ℕ)
      → has next dists ≡ false
      → lookup next infos ≡ none
      → dists_loop fuel infos next root dists dist ≡ (root, dists)
  unfolding dists_loop
  stop_unknown zero next root dists dist new lost = refl
  stop_unknown (suc fuel) next root dists dist new lost = rw (new, lost, dists_loop) refl

  -- What the walk finds was found before, or stands above its start.
  pub found-IsAbove :
      (fuel : ℕ) (next root a : PublicKey) (dists : KeyMap ℕ) (dist : ℕ)
      → finds a (dists_loop fuel infos next root dists dist) ≡ true
      → (has a dists ≡ true) ⊎ IsAbove infos a next
  found-IsAbove zero next root a dists dist h = inl (unfold dists_loop in h)
  found-IsAbove (suc fuel) next root a dists dist h = elim (Bool-cases (has next dists)) [
    | inl seen ↦ inl (sym (ap (finds a) (stop_seen (suc fuel) next root dists dist seen)) ∙ h)
    | inr new ↦ elim (Option-cases (lookup next infos)) [
      | inl lost ↦
          inl (sym (ap (finds a) (stop_unknown (suc fuel) next root dists dist new lost)) ∙ h)
      | inr (info, known) ↦
          let more =
            found-IsAbove fuel info.parent next a (insert next dist dists) (dist + 1)
              (sym (ap (finds a) (step fuel next root dists dist info new known)) ∙ h) in
          elim more [
            | inl old ↦ elim (Bool-cases (equal next a)) [
              | inl same ↦ inr (here info known (sym ((equal_iff next a).0 same)))
              | inr other ↦ inl (ground (arith, old, other, has-insert next a dist dists))
            ]
            | inr up ↦ inr (above info known refl up)
          ]
    ]
  ]

  -- What was found stays.
  pub stays :
      (fuel : ℕ) (next root a : PublicKey) (dists : KeyMap ℕ) (dist : ℕ)
      → has a dists ≡ true
      → finds a (dists_loop fuel infos next root dists dist) ≡ true
  stays zero next root a dists dist h = unfold dists_loop in h
  stays (suc fuel) next root a dists dist h = elim (Bool-cases (has next dists)) [
    | inl seen ↦ ap (finds a) (stop_seen (suc fuel) next root dists dist seen) ∙ h
    | inr new ↦ elim (Option-cases (lookup next infos)) [
      | inl lost ↦ ap (finds a) (stop_unknown (suc fuel) next root dists dist new lost) ∙ h
      | inr (info, known) ↦
          ap (finds a) (step fuel next root dists dist info new known)
          ∙ stays fuel info.parent next a (insert next dist dists) (dist + 1)
              (ground (arith, h, has-insert next a dist dists))
    ]
  ]

  -- The parent of each node found is found, or is the next.
  abbrev pub Pending : KeyMap ℕ → PublicKey → Type 0
  Pending dists next =
      (v : PublicKey) (info : RouterInfo)
      → has v dists ≡ true
      → lookup v infos ≡ some info
      → (has info.parent dists ≡ true) ⊎ (info.parent ≡ next)

  -- The parent of each node found is found, or is unknown.
  abbrev pub Closed : KeyMap ℕ → Type 0
  Closed dists =
      (v : PublicKey) (info : RouterInfo)
      → has v dists ≡ true
      → lookup v infos ≡ some info
      → (has info.parent dists ≡ true) ⊎ (lookup info.parent infos ≡ none)

  Pending-insert :
      (dists : KeyMap ℕ) (next : PublicKey) (dist : ℕ) (info : RouterInfo)
      → lookup next infos ≡ some info
      → Pending dists next
      → Pending (insert next dist dists) info.parent
  Pending-insert dists next dist info known h v i found e =
      let now = has-insert next v dist dists in
      let up = has-insert next i.parent dist dists in
      elim (Bool-cases (equal next v)) [
        | inl same ↦
            inr (cc (same_info infos v next i info (sym ((equal_iff next v).0 same)) e known))
        | inr other ↦ elim (h v i (ground (arith, now, found, other)) e) [
          | inl old ↦ inl (ground (arith, up, old))
          | inr top ↦ inl (ground (arith, up, (equal_iff next i.parent).1 (sym top)))
        ]
      ]

  Keys-insert :
      (dists : KeyMap ℕ) (visited : List PublicKey) (next : PublicKey) (dist : ℕ)
      → Keys dists visited
      → Keys (insert next dist dists) (next ∷ visited)
  unfolding contains
  Keys-insert dists visited next dist h j =
      has-insert next j dist dists ∙ ap (λ (b : Bool). equal next j || b) (h j)

  pub stops-Closed :
      (dists : KeyMap ℕ) (next : PublicKey)
      → Pending dists next
      → (has next dists ≡ true) ⊎ (lookup next infos ≡ none)
      → Closed dists
  stops-Closed dists next h done v info found e = elim (h v info found e) [
    | inl old ↦ inl old
    | inr top ↦ elim done [
      | inl seen ↦ inl (ap (λ (k : PublicKey). has k dists) top ∙ seen)
      | inr lost ↦ inr (ap (λ (k : PublicKey). lookup k infos) top ∙ lost)
    ]
  ]

  pub dists_loop-Closed :
      (fuel : ℕ) (next root : PublicKey) (dists : KeyMap ℕ) (dist : ℕ) (visited : List PublicKey)
      → Keys dists visited
      → unvisited visited infos < fuel
      → Pending dists next
      → Closed (dists_loop fuel infos next root dists dist).1
  dists_loop-Closed zero next root dists dist visited keys lt h = absurd (omega (arith, lt))
  dists_loop-Closed (suc fuel) next root dists dist visited keys lt h =
      elim (Bool-cases (has next dists)) [
        | inl seen ↦
            subst (λ (w : Walked). Closed w.1)
              (sym (stop_seen (suc fuel) next root dists dist seen))
              (stops-Closed dists next h (inl seen))
        | inr new ↦ elim (Option-cases (lookup next infos)) [
          | inl lost ↦
              subst (λ (w : Walked). Closed w.1)
                (sym (stop_unknown (suc fuel) next root dists dist new lost))
                (stops-Closed dists next h (inr lost))
          | inr (info, known) ↦
              subst (λ (w : Walked). Closed w.1)
                (sym (step fuel next root dists dist info new known))
                (dists_loop-Closed fuel info.parent next (insert next dist dists) (dist + 1)
                  (next ∷ visited) (Keys-insert dists visited next dist keys)
                  (omega
                    (arith, lt, unvisited_lt next visited infos info known (sym (keys next) ∙ new)))
                  (Pending-insert dists next dist info known h))
        ]
      ]

  -- Where the parents lead to a root, the walk ends at the root.
  pub dists_loop_root :
      (fuel : ℕ) (next last root : PublicKey) (dists : KeyMap ℕ) (dist : ℕ)
      (visited : List PublicKey) (up : List PeerPort)
      → RootPath infos next root up
      → Deeper infos (length up) visited
      → Keys dists visited
      → unvisited visited infos < fuel
      → (dists_loop fuel infos next last dists dist).0 ≡ root
  dists_loop_root zero next last root dists dist visited up d h keys lt = absurd (omega (arith, lt))
  dists_loop_root (suc fuel) next last root dists dist visited up (at_root i e p r u) h keys lt =
      let new = keys next ∙ Deeper-fresh infos next root up visited (at_root i e p r u) h in
      let seen : has i.parent (insert next dist dists) ≡ true =
        has-insert next i.parent dist dists
        ∙ ap (λ (b : Bool). b || has i.parent dists) ((equal_iff next i.parent).1 (sym p)) in
      ap (λ (w : Walked). w.0) (step fuel next last dists dist i new e)
      ∙ ap (λ (w : Walked). w.0)
          (stop_seen fuel i.parent next (insert next dist dists) (dist + 1) seen)
      ∙ sym r
  dists_loop_root (suc fuel) next last root dists dist visited up (below {p} {above} i e hp n d u) h
        keys lt =
      let path : RootPath infos next root up = below i e hp n d u in
      let fresh = Deeper-fresh infos next root up visited path h in
      ap (λ (w : Walked). w.0) (step fuel next last dists dist i (keys next ∙ fresh) e)
      ∙ ap (λ (k : PublicKey). (dists_loop fuel infos k next (insert next dist dists) (dist + 1)).0)
          hp
      ∙ dists_loop_root fuel p next root (insert next dist dists) (dist + 1) (next ∷ visited) above
          d (Deeper-below infos next root i.port above up visited path u h)
          (Keys-insert dists visited next dist keys)
          (omega (arith, lt, unvisited_lt next visited infos i e fresh))
