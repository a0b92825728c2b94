-- ===== src/Router/Tree/Chain.antt =====
-- The chain of parents from a node to a root.
use ironwood.Base.{
  ℕ, ◌≤◌, ◌<◌, ◌≡◌, ◌≢◌, refl, ap, inl, inr, false, List, [], ◌∷◌, some, All, length, arith,
  Bool-cases,
}
use ironwood.Wire.{PeerPort}
use ironwood.Crypto.{PublicKey, equal}
use ironwood.Crypto.Order.{equal_iff}
use ironwood.Keyed.{lookup, contains}
use ironwood.Messages.Announce.{RouterInfo}
use ironwood.Router.Tree.{Infos}

-- The parents of `k` lead to `root`, which is its own parent, and `up` holds the ports on the way.
pub data RootPath (infos : Infos) : PublicKey → PublicKey → List PeerPort → Type 0 where
  at_root :
      {k root : PublicKey} {up : List PeerPort} (info : RouterInfo)
      → lookup k infos ≡ some info
      → info.parent ≡ k
      → root ≡ k
      → up ≡ []
      → RootPath infos k root up
  below :
      {k p root : PublicKey} {up above : List PeerPort} (info : RouterInfo)
      → lookup k infos ≡ some info
      → info.parent ≡ p
      → k ≢ p
      → RootPath infos p root above
      → up ≡ info.port ∷ above
      → RootPath infos k root up

pub not_equal : (a b : PublicKey) → a ≢ b → equal a b ≡ false
not_equal a b h = elim (Bool-cases (equal a b)) [
  | inl e ↦ absurd (h ((equal_iff a b).0 e))
  | inr e ↦ e
]

pub equal→ne : (a b : PublicKey) → equal a b ≡ false → a ≢ b
equal→ne a b h e = ground (arith, equal_iff a b)

pub same_info :
    (infos : Infos) (k l : PublicKey) (i j : RouterInfo)
    → k ≡ l
    → lookup k infos ≡ some i
    → lookup l infos ≡ some j
    → i ≡ j
same_info infos k l i j h e f = cc

-- A node has one path at most.
pub RootPath-unique :
    (infos : Infos) {k l r s : PublicKey} {up other : List PeerPort}
    → k ≡ l
    → RootPath infos k r up
    → RootPath infos l s other
    → (r ≡ s) × (up ≡ other)
RootPath-unique infos h (at_root i e p r u) (at_root j f q s v) = (cc, cc)
RootPath-unique infos {k} {l} h (at_root i e p r u) (below j f q n d v) =
    absurd (n (cc (same_info infos k l i j h e f)))
RootPath-unique infos {k} {l} h (below i e p n d u) (at_root j f q s v) =
    absurd (n (cc (same_info infos k l i j h e f)))
RootPath-unique infos {k} {l} h (below i e p n d u) (below j f q m d' v) =
    let same : i ≡ j = same_info infos k l i j h e f in
    let above = RootPath-unique infos (cc) d d' in (above.0, cc (above.1))

-- The nodes already visited lie further below the root than the walk is now.
unfoldable pub Deeper : Infos → ℕ → List PublicKey → Type 0
Deeper infos n visited =
    All (λ v. (r : PublicKey) × (us : List PeerPort) × RootPath infos v r us × (n < length us))
      visited

pub Deeper-mono :
    (infos : Infos) (m n : ℕ) (visited : List PublicKey)
    → m ≤ n
    → Deeper infos n visited
    → Deeper infos m visited
unfolding Deeper
Deeper-mono infos m n [] h d = tt
Deeper-mono infos m n (v ∷ visited) h d =
    ((d.0.0, d.0.1, d.0.2, omega arith), Deeper-mono infos m n visited h d.1)

pub Deeper-below :
    (infos : Infos) (next root : PublicKey) (port : PeerPort) (above up : List PeerPort)
    (visited : List PublicKey)
    → RootPath infos next root up
    → up ≡ port ∷ above
    → Deeper infos (length up) visited
    → Deeper infos (length above) (next ∷ visited)
unfolding Deeper
Deeper-below infos next root port above up visited path long old = (
  (root, up, path, omega (arith, ap length long)),
  Deeper-mono infos (length above) (length up) visited (omega (arith, ap length long)) old,
)

-- So the walk does not meet them again.
pub Deeper-fresh :
    (infos : Infos) (k r : PublicKey) (up : List PeerPort) (visited : List PublicKey)
    → RootPath infos k r up
    → Deeper infos (length up) visited
    → contains k visited ≡ false
unfolding Deeper contains
Deeper-fresh infos k r up [] d h = refl
Deeper-fresh infos k r up (v ∷ visited) d ((s, us, e, lt), h) = elim (Bool-cases (equal v k)) [
  | inl hit ↦
      absurd (omega (arith, ap length (RootPath-unique infos ((equal_iff v k).0 hit) e d).1))
  | inr miss ↦ rw miss (Deeper-fresh infos k r up visited d h)
]
