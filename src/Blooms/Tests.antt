-- ===== src/Blooms/Tests.antt =====
-- Bloom filters of network/bloomfilter.go that are sets of keys.
use ironwood.Base.{
  ◌≡◌, ◌↔◌, ◌≢◌, refl, ap, inl, inr, Bool, true, false, ◌&&◌, ◌||◌, List, [], ◌∷◌, some, map,
  if◌then◌else◌, arith, Member,
}
use ironwood.Types.{ok}
use ironwood.Crypto.{PublicKey, PrivateKey, equal}
use ironwood.Crypto.Order.{equal_iff, equal_refl}
use ironwood.Keyed.{lookup, get_or, has, contains}
use ironwood.Router.{Router, Peer}
use ironwood.Messages.Lookup.{PathLookup}
use ironwood.Router.Handlers.{zero_sig}
use ironwood.Pathfinder.{Node, Config}
use ironwood.Router.Tests.{toy, key, peer, tree, empty_router, info_under}
use ironwood.Blooms.{
  Filter, BloomInfo, Blooms, Sent, is_on_tree, fix_on_tree, merge_one, merge_loop, with_ones,
  settle, get_bloom_for, send_all_blooms,
}
use ironwood.Blooms.OnTree.{IsRelated, fix_on_tree_lem}
use ironwood.Blooms.Carry.{IsCovered, get_bloom_for_finds, send_all_blooms-IsCovered}
use ironwood.Blooms.Multicast.{Link, Route, Forwards, IsPeered, send_multicast-Forwards}

-- The union, in which what is there already is not added.
union : List PublicKey → List PublicKey → List PublicKey
union [] ys = ys
union (x ∷ xs) ys = let rest = union xs ys in if contains x ys then rest else x ∷ rest

same_keys : List PublicKey → List PublicKey → Bool
same_keys [] [] = true
same_keys (x ∷ xs) (y ∷ ys) = equal x y && same_keys xs ys
same_keys _ _ = false

contains-union :
    (k : PublicKey) (xs ys : List PublicKey)
    → contains k (union xs ys) ≡ (contains k xs || contains k ys)
unfolding contains union
contains-union k [] ys = refl
contains-union k (x ∷ xs) ys = ground (arith, contains-union k xs ys, equal_iff x k)

same_keys_equal : (a b : List PublicKey) → same_keys a b ≡ true → a ≡ b
unfolding same_keys
same_keys_equal [] [] h = refl
same_keys_equal [] (y ∷ b) h = absurd (ground arith)
same_keys_equal (x ∷ a) [] h = absurd (ground arith)
same_keys_equal (x ∷ a) (y ∷ b) h = ground (arith, same_keys_equal a b, equal_iff x y)

same_keys_refl : (a : List PublicKey) → same_keys a a ≡ true
unfolding same_keys
same_keys_refl [] = refl
same_keys_refl (x ∷ a) = ground (arith, same_keys_refl a, equal_refl x)

contains_here : (k : PublicKey) (b : List PublicKey) → contains k (k ∷ b) ≡ true
unfolding contains
contains_here k b = ground (arith, equal_refl k)

union_left :
    (k : PublicKey) (a b : List PublicKey) → contains k a ≡ true → contains k (union a b) ≡ true
union_left k a b h = ground (arith, contains-union k a b)

union_right :
    (k : PublicKey) (a b : List PublicKey) → contains k b ≡ true → contains k (union a b) ≡ true
union_right k a b h = ground (arith, contains-union k a b)

abbrev key_sets : Filter
key_sets = record {
  Bits = List PublicKey;
  empty = [];
  add = λ k b. k ∷ b;
  merge = union;
  test = contains;
  same = same_keys;
  test-add = contains_here;
  test-merge_left = union_left;
  test-merge_right = union_right;
  same_equal = same_keys_equal;
  same_refl = same_keys_refl;
}

-- A key is transformed by a byte in front of it.
abbrev x_key : PublicKey → PublicKey
x_key k = 9 ∷ k

abbrev entry : List PublicKey → List PublicKey → Bool → BloomInfo key_sets
entry send recv on_tree = record { send = send; recv = recv; on_tree = on_tree; z_dirty = false }

-- Nodes 3 and 4 are children of node 2.
abbrev router : PrivateKey → List Peer → Router
router k ps = record (empty_router k) { peers = map (λ p. (p.key, p ∷ [])) ps; infos = tree }

abbrev node_2 : Router
node_2 = router (1 ∷ 1 ∷ []) (peer 3 ∷ peer 4 ∷ [])

abbrev node_3 : Router
node_3 = router (1 ∷ 1 ∷ 1 ∷ []) (peer 2 ∷ [])

abbrev node_4 : Router
node_4 = router (1 ∷ 1 ∷ 1 ∷ 1 ∷ []) (peer 2 ∷ [])

abbrev blooms_2 : Blooms key_sets
blooms_2 = (key 3, entry [] [] true) ∷ (key 4, entry [] (x_key (key 4) ∷ []) true) ∷ []

abbrev blooms_3 : Blooms key_sets
blooms_3 = (key 2, entry [] (x_key (key 2) ∷ x_key (key 4) ∷ []) true) ∷ []

abbrev blooms_4 : Blooms key_sets
blooms_4 = (key 2, entry [] [] true) ∷ []

get_bloom_for_finds_example :
    (contains (x_key (key 2)) (x_key (key 2) ∷ x_key (key 4) ∷ []) ≡ true)
    × ((k x : PublicKey) (pbi : BloomInfo key_sets)
        → lookup k blooms_2 ≡ some pbi
        → pbi.on_tree ≡ true
        → k ≢ key 3
        → contains x pbi.recv ≡ true
        → contains x (x_key (key 2) ∷ x_key (key 4) ∷ []) ≡ true)
    × ((x : PublicKey) (pbi : BloomInfo key_sets)
        → true ≡ true
        → lookup (key 3) blooms_2 ≡ some pbi
        → contains x pbi.send ≡ true
        → contains x (x_key (key 2) ∷ x_key (key 4) ∷ []) ≡ true)
unfolding get_bloom_for merge_loop merge_one with_ones settle lookup equal union same_keys contains
get_bloom_for_finds_example =
    get_bloom_for_finds key_sets (x_key (key 2)) (key 3) true blooms_2 _
      (x_key (key 2) ∷ x_key (key 4) ∷ []) true refl

abbrev x_config : Config
x_config = record { transform = x_key; path_throttle = 10 }

abbrev node_at : Router → Node
node_at r = record {
  router = r;
  info = record { seq = 0; path = []; sig = zero_sig };
  paths = [];
  rumors = [];
  next_timer = 0;
}

abbrev for_fourth : PathLookup
for_fourth = record { source = key 3; dest = key 4; from = [] }

third-Link :
    Link key_sets toy x_config
      (record { n = node_at node_3; bs = blooms_3 })
      (record { n = node_at node_2; bs = blooms_2 })
unfolding get_bloom_for merge_loop merge_one with_ones settle is_on_tree lookup equal union
    same_keys contains
third-Link = record {
  entry = entry [] (x_key (key 2) ∷ x_key (key 4) ∷ []) true;
  known = refl;
  on_tree = refl;
  back = refl;
  keep_ones = true;
  is_new = true;
  bs' = _;
  told = refl;
}

second-Link :
    Link key_sets toy x_config
      (record { n = node_at node_2; bs = blooms_2 })
      (record { n = node_at node_4; bs = blooms_4 })
unfolding get_bloom_for merge_loop merge_one with_ones settle is_on_tree lookup equal union
    same_keys contains
second-Link = record {
  entry = entry [] (x_key (key 4) ∷ []) true;
  known = refl;
  on_tree = refl;
  back = refl;
  keep_ones = true;
  is_new = true;
  bs' = _;
  told = refl;
}

node_2-IsPeered : IsPeered key_sets toy x_config node_2 blooms_2
unfolding IsPeered get_or lookup equal
node_2-IsPeered k pbi (inl e) =
    (peer 3, [], ap (λ (q : PublicKey × BloomInfo key_sets). get_or [] q.0 node_2.peers) e)
node_2-IsPeered k pbi (inr (inl e)) =
    (peer 4, [], ap (λ (q : PublicKey × BloomInfo key_sets). get_or [] q.0 node_2.peers) e)
node_2-IsPeered k pbi (inr (inr m)) = elim m [ ]

node_3-IsPeered : IsPeered key_sets toy x_config node_3 blooms_3
unfolding IsPeered get_or lookup equal
node_3-IsPeered k pbi (inl e) =
    (peer 2, [], ap (λ (q : PublicKey × BloomInfo key_sets). get_or [] q.0 node_3.peers) e)
node_3-IsPeered k pbi (inr m) = elim m [ ]

-- Node 3 looks for node 4, by way of node 2.
send_multicast-Forwards_example :
    Forwards key_sets toy x_config
      (record { n = node_at node_3; bs = blooms_3 })
      (record { n = node_at node_2; bs = blooms_2 }
        ∷ record { n = node_at node_4; bs = blooms_4 }
        ∷ [])
      for_fourth
      5
      1
unfolding Route
send_multicast-Forwards_example =
    send_multicast-Forwards key_sets toy x_config (record { n = node_at node_3; bs = blooms_3 })
      (record { n = node_at node_2; bs = blooms_2 }
        ∷ record { n = node_at node_4; bs = blooms_4 }
        ∷ [])
      for_fourth 5 1
      (
        third-Link,
        (λ e. ground (arith, e)),
        node_3-IsPeered,
        (second-Link, (λ e. ground (arith, e)), node_2-IsPeered, refl),
      )

-- Node 5 left node 2, which had told node 3 of it: node 2 tells node 3 nothing new.
abbrev blooms_late : Blooms key_sets
blooms_late = (key 3, entry (x_key (key 2) ∷ x_key (key 5) ∷ []) [] true) ∷ []

late-IsCovered :
    IsCovered key_sets
      (x_key (key 2))
      (key 3)
      blooms_late
      (entry (x_key (key 2) ∷ x_key (key 5) ∷ []) [] true)
unfolding lookup equal merge_loop merge_one union contains
late-IsCovered = record { known = refl; clean = refl; covered = refl }

send_all_blooms-IsCovered_example :
    send_all_blooms key_sets node_2 (x_key (key 2)) blooms_late ≡ ok (blooms_late, [])
send_all_blooms-IsCovered_example =
    send_all_blooms-IsCovered key_sets node_2 (x_key (key 2)) blooms_late (λ on. late-IsCovered, tt)

fix_on_tree_lem_example :
    (bs' : Blooms key_sets) × (out : Sent key_sets) × (fix_on_tree key_sets node_2 blooms_2
      ≡ ok (bs', out))
    × ((k : PublicKey)
        → (is_on_tree key_sets k bs' ≡ true)
          ↔ ((has k blooms_2 ≡ true) × IsRelated node_2 (info_under (key 1) 5) k))
    × ((k : PublicKey) (pbi : BloomInfo key_sets)
        → lookup k blooms_2 ≡ some pbi
        → pbi.on_tree ≡ true
        → (IsRelated node_2 (info_under (key 1) 5) k → ⊥)
        → (lookup k bs' ≡ some (record pbi { on_tree = false; send = [] }))
          × ((p : Peer) → Member p (get_or [] k node_2.peers) → Member (p, []) out))
unfolding lookup equal
fix_on_tree_lem_example = fix_on_tree_lem key_sets node_2 (info_under (key 1) 5) blooms_2 refl
