-- ===== src/Router/Distance.antt =====
-- _getDist of network/router.go: the distance in the tree, and the cache of paths that it fills.
pub mod Metric
use ironwood.Base.{
  ℕ, ◌+◌, ◌-◌, List, [], ◌∷◌, Option, none, some, ◌==◌, if◌then◌else◌, length, ◌≡◌, arith, refl,
  sym, ap, inl, inr, All, Bool-cases, Option-cases,
}
use ironwood.Wire.{PeerPort}
use ironwood.Crypto.{PublicKey, equal}
use ironwood.Crypto.Order.{equal_iff}
use ironwood.Keyed.{KeyMap, lookup, insert, lookup-insert}
use ironwood.Router.Tree.{Infos, get_root_and_path}

abbrev pub Cache : Type 0
Cache = KeyMap (List PeerPort)

-- The loop over the index: two for each port that the paths share from the root on. The uint64
-- `dist` starts at the sum of the lengths, so it does not wrap (`path_dist-common`).
dist_loop : List PeerPort → List PeerPort → ℕ → ℕ
dist_loop (k ∷ key_path) (d ∷ dest_path) dist =
    let more = dist_loop key_path dest_path (dist - 2) in if k == d then more else dist
dist_loop _ _ dist = dist

unfoldable pub path_dist : List PeerPort → List PeerPort → ℕ
unfolding dist_loop
path_dist dest_path key_path = dist_loop key_path dest_path (length key_path + length dest_path)

-- The path of a key as the tree has it.
unfoldable pub key_path : Infos → PublicKey → List PeerPort
key_path infos k = (get_root_and_path infos k).1

-- The distance, and the cache with the key's path in it.
unfoldable pub get_dist : Infos → Cache → List PeerPort → PublicKey → ℕ × Cache
unfolding key_path
get_dist infos cache dest_path key = elim (lookup key cache) [
  | some cached ↦ (path_dist dest_path cached, cache)
  | none ↦ let found = key_path infos key in (path_dist dest_path found, insert key found cache)
]

-- What the cache holds is what the tree has.
pub IsCoherent : Infos → Cache → Type 0
IsCoherent infos cache = All (λ e. e.1 ≡ key_path infos e.0) cache

pub empty-IsCoherent : (infos : Infos) → IsCoherent infos []
unfolding IsCoherent
empty-IsCoherent infos = tt

lookup-IsCoherent :
    (infos : Infos) (cache : Cache) (k : PublicKey) (p : List PeerPort)
    → IsCoherent infos cache
    → lookup k cache ≡ some p
    → p ≡ key_path infos k
unfolding IsCoherent lookup
lookup-IsCoherent infos [] k p c e = absurd (ground (arith, e))
lookup-IsCoherent infos ((j, q) ∷ cache) k p c e =
    ground (arith, e, equal_iff j k, c.0, lookup-IsCoherent infos cache k p c.1)

insert-IsCoherent :
    (infos : Infos) (cache : Cache) (key : PublicKey)
    → IsCoherent infos cache
    → IsCoherent infos (insert key (key_path infos key) cache)
unfolding IsCoherent insert
insert-IsCoherent infos [] key c = (refl, tt)
insert-IsCoherent infos ((j, q) ∷ cache) key c = elim (Bool-cases (equal j key)) [
  | inl e ↦ rw e (ap (key_path infos) (sym ((equal_iff j key).0 e)), c.1)
  | inr e ↦ rw e (c.0, insert-IsCoherent infos cache key c.1)
]

-- Over a coherent cache the answer is the distance in the tree, and the cache stays coherent.
pub get_dist_lem :
    (infos : Infos) (cache : Cache) (dest_path : List PeerPort) (key : PublicKey)
    → IsCoherent infos cache
    → ((get_dist infos cache dest_path key).0 ≡ path_dist dest_path (key_path infos key))
      × IsCoherent infos (get_dist infos cache dest_path key).1
unfolding get_dist
get_dist_lem infos cache dest_path key c = elim (Option-cases (lookup key cache)) [
  | inl miss ↦ rw (miss, get_dist) (refl, insert-IsCoherent infos cache key c)
  | inr (p, hit) ↦
      rw (hit, get_dist) (ap (path_dist dest_path) (lookup-IsCoherent infos cache key p c hit), c)
]
