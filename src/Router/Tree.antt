-- ===== src/Router/Tree.antt =====
-- The walks up the spanning tree: _getRootAndPath, _getRootAndDists, _backwardsAncestry and
-- _getAncestry of network/router.go. Each visits an entry of `infos` once, so a round for each
-- entry and one more are enough; the fuel's last case is not reached.
pub mod Chain
pub mod RootPath
pub mod Walk
pub mod Above
use ironwood.Base.{
  ℕ, zero, suc, ◌+◌, Bool, true, false, List, [], ◌∷◌, ◌++◌, Option, none, some, length, reverse,
  replicate,
}
use ironwood.Wire.{PeerPort}
use ironwood.Crypto.{PublicKey, equal}
use ironwood.Keyed.{KeyMap, lookup, has, insert, contains}
use ironwood.Messages.Announce.{RouterInfo}

abbrev pub Infos : Type 0
Infos = KeyMap RouterInfo

-- `var root publicKey`
abbrev pub zero_key : PublicKey
zero_key = replicate 32 0

path_loop :
    ℕ → Infos → PublicKey → PublicKey → List PublicKey → List PeerPort → PublicKey × List PeerPort
path_loop zero infos dest next visited ports = (dest, [])
path_loop (suc fuel) infos dest next visited ports = elim (contains next visited) [
  | true ↦ (dest, [])
  | false ↦ elim (lookup next infos) [
    | none ↦ (dest, [])
    | some info ↦ elim (equal next info.parent) [
      | true ↦ (next, reverse ports)
      | false ↦ path_loop fuel infos dest info.parent (next ∷ visited) (ports ++ (info.port ∷ []))
    ]
  ]
]

-- The root above a node and the ports from the root down to it, or the node and no ports.
unfoldable pub get_root_and_path : Infos → PublicKey → PublicKey × List PeerPort
unfolding path_loop
get_root_and_path infos dest = path_loop (suc (length infos)) infos dest dest [] []

pub dists_loop : ℕ → Infos → PublicKey → PublicKey → KeyMap ℕ → ℕ → PublicKey × KeyMap ℕ
dists_loop zero infos next root dists dist = (root, dists)
dists_loop (suc fuel) infos next root dists dist = elim (has next dists) [
  | true ↦ (root, dists)
  | false ↦ elim (lookup next infos) [
    | none ↦ (root, dists)
    | some info ↦ dists_loop fuel infos info.parent next (insert next dist dists) (dist + 1)
  ]
]

-- The last node of the walk, and how far up each node of it is.
unfoldable pub get_root_and_dists : Infos → PublicKey → PublicKey × KeyMap ℕ
unfolding dists_loop
get_root_and_dists infos dest = dists_loop (suc (length infos)) infos dest zero_key [] 0

unfoldable pub ancestry_loop : ℕ → Infos → PublicKey → List PublicKey → List PublicKey
ancestry_loop zero infos here anc = anc
ancestry_loop (suc fuel) infos here anc = elim (contains here anc) [
  | true ↦ anc
  | false ↦ elim (lookup here infos) [
    | none ↦ anc
    | some info ↦ ancestry_loop fuel infos info.parent (anc ++ (here ∷ []))
  ]
]

unfoldable pub backwards_ancestry : Infos → PublicKey → List PublicKey
unfolding ancestry_loop
backwards_ancestry infos key = ancestry_loop (suc (length infos)) infos key []

unfoldable pub get_ancestry : Infos → PublicKey → List PublicKey
unfolding backwards_ancestry
get_ancestry infos key = reverse (backwards_ancestry infos key)
