-- ===== src/Router/Distance/Metric.antt =====
-- The distance that the routing uses is a metric on paths.
use ironwood.Base.{
  ℕ, suc, ◌+◌, ◌-◌, ◌*◌, ◌≤◌, ◌≡◌, refl, ◌↔◌, ◌⊎◌, inl, List, [], ◌∷◌, ◌==◌, if◌then◌else◌, length,
  arith,
}
use ironwood.Wire.{PeerPort}
use ironwood.Router.Distance.{dist_loop, path_dist}

-- How many ports two paths share from the root on.
pub common : List PeerPort → List PeerPort → ℕ
common (x ∷ a) (y ∷ b) = let rest = common a b in if x == y then suc rest else 0
common _ _ = 0

common-le : (a b : List PeerPort) → (common a b ≤ length a) × (common a b ≤ length b)
unfolding common
common-le [] b = omega arith
common-le (x ∷ a) [] = omega arith
common-le (x ∷ a) (y ∷ b) = ground (arith, common-le a b)

common_comm : (a b : List PeerPort) → common a b ≡ common b a
unfolding common
common_comm [] [] = refl
common_comm [] (y ∷ b) = refl
common_comm (x ∷ a) [] = refl
common_comm (x ∷ a) (y ∷ b) = ground (arith, common_comm a b)

-- Of three paths, two branch off at the same place, which is the nearest to the root.
common_ultra : (a b c : List PeerPort) → (common a b ≤ common a c) ⊎ (common b c ≤ common a c)
unfolding common
common_ultra [] b c = inl (omega arith)
common_ultra (x ∷ a) [] c = ground arith
common_ultra (x ∷ a) (y ∷ b) [] = ground arith
common_ultra (x ∷ a) (y ∷ b) (z ∷ c) = ground (arith, common_ultra a b c)

common_full : (a b : List PeerPort) → common a b ≡ length a → length a ≡ length b → a ≡ b
unfolding common
common_full [] [] h k = refl
common_full [] (y ∷ b) h k = absurd (omega arith)
common_full (x ∷ a) [] h k = absurd (omega arith)
common_full (x ∷ a) (y ∷ b) h k = ground (arith, common_full a b)

common_self : (a : List PeerPort) → common a a ≡ length a
unfolding common
common_self [] = refl
common_self (x ∷ a) = ground (arith, common_self a)

dist_loop-common :
    (key dest : List PeerPort) (d : ℕ)
    → 2 * common key dest ≤ d
    → dist_loop key dest d + 2 * common key dest ≡ d
unfolding dist_loop common
dist_loop-common [] dest d h = omega arith
dist_loop-common (x ∷ a) [] d h = omega arith
dist_loop-common (x ∷ a) (y ∷ b) d h = ground (arith, dist_loop-common a b (d - 2))

-- The subtractions take nothing below zero: the distance and twice the shared part make up the
-- two lengths.
pub path_dist-common :
    (dest key : List PeerPort) → path_dist dest key + 2 * common key dest ≡ length key + length dest
unfolding path_dist
path_dist-common dest key =
    dist_loop-common key dest (length key + length dest) (omega (arith, common-le key dest))

-- _getDist is a metric on the paths of the spanning tree: symmetric, zero between equal paths
-- only, and subject to the triangle inequality.
pub path_dist_metric :
    (a b c : List PeerPort)
    → (path_dist a b ≡ path_dist b a)
      × ((path_dist a b ≡ 0) ↔ (a ≡ b))
      × (path_dist a c ≤ path_dist a b + path_dist b c)
path_dist_metric a b c = (
  omega (arith, path_dist-common a b, path_dist-common b a, common_comm a b),
  (
    λ z.
        common_full a b (omega (arith, path_dist-common a b, common_comm a b, common-le a b))
          (omega (arith, path_dist-common a b, common_comm a b, common-le a b)),
    λ e. rw e (omega (arith, path_dist-common b b, common_self b)),
  ),
  omega (
    arith,
    path_dist-common a c,
    path_dist-common a b,
    path_dist-common b c,
    common_comm a b,
    common_comm b c,
    common_comm a c,
    common_ultra a b c,
    common-le a b,
    common-le b c,
  ),
)
