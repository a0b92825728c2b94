-- ===== src/Blooms.antt =====
-- The router's bloom filters in network/bloomfilter.go: which peers are on the tree, what is sent to
-- them, and where a multicast goes. A filter is never changed once it is stored or sent, so it is a
-- value here.
pub mod OnTree
pub mod Carry
pub mod Multicast
pub mod Tests
use ironwood.Base.{
  ℕ, ◌≡◌, Bool, true, false, not, ◌&&◌, ◌||◌, List, [], ◌∷◌, ◌++◌, Option, none, some, ltb,
  if◌then◌else◌, map,
}
use ironwood.Types.{Result, ok, panic, ◌>>=◌}
use ironwood.Crypto.{PublicKey, equal}
use ironwood.Keyed.{KeyMap, lookup, get_or, insert, delete}
use ironwood.Messages.Announce.{RouterInfo}
use ironwood.Router.{Router, Peer}

-- github.com/bits-and-blooms/bloom, which the program calls: any filter that finds the keys that were
-- added to it or to what was merged into it, and whose Equal tells filters apart.
pub record Filter : Type 1 where
  pub Bits : Type 0
  pub empty : Bits
  pub add : PublicKey → Bits → Bits
  pub merge : Bits → Bits → Bits
  pub test : PublicKey → Bits → Bool
  pub same : Bits → Bits → Bool
  pub test-add : (k : PublicKey) (b : Bits) → test k (add k b) ≡ true
  pub test-merge_left : (k : PublicKey) (a b : Bits) → test k a ≡ true → test k (merge a b) ≡ true
  pub test-merge_right : (k : PublicKey) (a b : Bits) → test k b ≡ true → test k (merge a b) ≡ true
  pub same_equal : (a b : Bits) → same a b ≡ true → a ≡ b
  pub same_refl : (a : Bits) → same a a ≡ true

-- The first object of the lowest priority.
pub best_of : Peer → List Peer → Peer
best_of best [] = best
best_of best (p ∷ ps) = if ltb p.prio best.prio then best_of p ps else best_of best ps

-- Whether the node and its peer `k` are parent and child.
pub is_linked : Router → RouterInfo → PublicKey → Bool
unfolding lookup
is_linked r self_info k =
    if equal self_info.parent k
    then true
    else elim (lookup k r.infos) [ none ↦ false | some info ↦ equal info.parent r.public_key ]

module _ (filter : Filter) where
  pub record BloomInfo : Type 0 where
    pub send : filter.Bits
    pub recv : filter.Bits
    pub on_tree : Bool
    pub z_dirty : Bool

  abbrev pub Blooms : Type 0
  Blooms = KeyMap BloomInfo

  -- A filter for a peer object.
  abbrev pub Sent : Type 0
  Sent = List (Peer × filter.Bits)

  abbrev pub send_to_all : List Peer → filter.Bits → Sent
  send_to_all ps b = map (λ p. (p, b)) ps

  pub is_on_tree : PublicKey → Blooms → Bool
  is_on_tree k bs = elim (lookup k bs) [ none ↦ false | some pbi ↦ pbi.on_tree ]

  unfoldable pub add_info : PublicKey → Blooms → Blooms
  add_info k bs =
      insert k
        (record { send = filter.empty; recv = filter.empty; on_tree = false; z_dirty = false }) bs

  unfoldable pub remove_info : PublicKey → Blooms → Blooms
  remove_info k bs = delete k bs

  unfoldable pub handle_bloom : PublicKey → filter.Bits → Blooms → Blooms
  handle_bloom from b bs = elim (lookup from bs) [
    | none ↦ bs
    | some pbi ↦ insert from (record pbi { recv = b }) bs
  ]

  -- One round of the loop of _fixOnTree: a peer that leaves the tree is sent a blank filter.
  pub fix_one : Router → RouterInfo → PublicKey → BloomInfo → BloomInfo × Sent
  unfolding is_linked
  fix_one r self_info k pbi =
      let linked = is_linked r self_info k in
      if pbi.on_tree && not linked
      then (
        record pbi { on_tree = linked; send = filter.empty },
        send_to_all (get_or [] k r.peers) filter.empty,
      )
      else (record pbi { on_tree = linked }, [])

  pub fix_loop : Router → RouterInfo → Blooms → Blooms × Sent
  unfolding fix_one
  fix_loop r self_info [] = ([], [])
  fix_loop r self_info ((k, pbi) ∷ bs) =
      let (pbi', out) = fix_one r self_info k pbi in
      let (bs', out') = fix_loop r self_info bs in ((k, pbi') ∷ bs', out ++ out')

  pub fix_on_tree : Router → Blooms → Result (Blooms × Sent)
  unfolding fix_loop
  fix_on_tree r bs = elim (lookup r.public_key r.infos) [
    | none ↦ panic
    | some self_info ↦ ok (fix_loop r self_info bs)
  ]

  -- What the peers on the tree other than `key` have told.
  pub merge_one : PublicKey → PublicKey → BloomInfo → filter.Bits → filter.Bits
  merge_one key k pbi b =
      if not pbi.on_tree then b else if equal k key then b else filter.merge b pbi.recv

  pub merge_loop : PublicKey → Blooms → filter.Bits → filter.Bits
  unfolding merge_one
  merge_loop key [] b = b
  merge_loop key ((k, pbi) ∷ bs) b = merge_loop key bs (merge_one key k pbi b)

  -- The filter that is due for `key`, and whether old bits are kept that it lacks.
  pub with_ones : BloomInfo → Bool → filter.Bits → filter.Bits × Bool
  with_ones pbi keep_ones b =
      let kept = filter.merge b pbi.send in
      if keep_ones
      then if not pbi.z_dirty then (kept, not (filter.same kept b)) else (kept, true)
      else (b, pbi.z_dirty)

  -- The filter to send, whether it is new, and what is known then.
  pub settle : PublicKey → BloomInfo → filter.Bits × Bool → Blooms → filter.Bits × Bool × Blooms
  settle key pbi (b, dirty) bs =
      if filter.same b pbi.send
      then (pbi.send, false, bs)
      else (b, true, insert key (record pbi { send = b; z_dirty = dirty }) bs)

  -- Parameter `self` is the node's own key as xKey transforms it.
  pub get_bloom_for : PublicKey → PublicKey → Bool → Blooms → Result (filter.Bits × Bool × Blooms)
  unfolding merge_loop with_ones settle
  get_bloom_for self key keep_ones bs = elim (lookup key bs) [
    | none ↦ panic
    | some pbi ↦ ok (
        settle key pbi (with_ones pbi keep_ones (merge_loop key bs (filter.add self filter.empty)))
          bs)
  ]

  -- `none` is the nil filter of a key without an entry.
  unfoldable pub send_bloom : PublicKey → Blooms → Option filter.Bits
  send_bloom k bs = elim (lookup k bs) [ none ↦ none | some pbi ↦ some pbi.send ]

  -- The loop reads an entry before it changes that entry, and no other.
  pub send_all_loop : Router → PublicKey → Blooms → Blooms → Result (Blooms × Sent)
  unfolding get_bloom_for
  send_all_loop r self [] bs = ok (bs, [])
  send_all_loop r self ((k, pbi) ∷ entries) bs =
      let rest = send_all_loop r self entries in
      if not pbi.on_tree then rest bs else do
        (b, is_new, bs1) ← get_bloom_for self k (not pbi.z_dirty) bs
        (if not is_new then rest bs1 else elim (lookup k r.peers) [
          | none ↦ panic
          | some ps ↦ do (bs2, out) ← rest bs1; ok (bs2, send_to_all ps b ++ out)
        ])

  pub send_all_blooms : Router → PublicKey → Blooms → Result (Blooms × Sent)
  unfolding send_all_loop
  send_all_blooms r self bs = send_all_loop r self bs bs

  unfoldable pub do_maintenance : Router → PublicKey → Blooms → Result (Blooms × Sent)
  unfolding fix_on_tree send_all_blooms
  do_maintenance r self bs = do
    (bs1, out1) ← fix_on_tree r bs
    (bs2, out2) ← send_all_blooms r self bs1
    ok (bs2, out1 ++ out2)

  -- None of the loop's three reasons to skip a peer.
  pub is_wanted : PublicKey → PublicKey → PublicKey → BloomInfo → Bool
  is_wanted from dest k pbi = pbi.on_tree && not (equal k from) && filter.test dest pbi.recv

  -- The peer objects that the packet is queued for; `dest` is the destination as xKey transforms it.
  pub send_multicast : Router → PublicKey → PublicKey → Blooms → Result (List Peer)
  unfolding best_of is_wanted
  send_multicast r from dest [] = ok []
  send_multicast r from dest ((k, pbi) ∷ bs) =
      let rest = send_multicast r from dest bs in
      let queued = elim (get_or [] k r.peers) as (λ o. Result (List Peer)) [
        | [] ↦ panic
        | p ∷ ps ↦ do out ← rest; ok (best_of p ps ∷ out)
      ] in
      if is_wanted from dest k pbi then queued else rest
