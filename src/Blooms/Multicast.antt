-- ===== src/Blooms/Multicast.antt =====
-- A multicast follows the tree to the node that it looks for.
use ironwood.Base.{
  ℕ, ◌≡◌, ◌≢◌, refl, ◌∙◌, inl, inr, subst, Bool, true, false, List, [], ◌∷◌, Option, some, arith,
  Bool-cases, Member,
}
use ironwood.Types.{ok}
use ironwood.Crypto.{PublicKey, Ed25519, equal}
use ironwood.Crypto.Order.{equal_iff, equal-false}
use ironwood.Keyed.{lookup, get_or}
use ironwood.Messages.Lookup.{PathLookup}
use ironwood.Messages.Traffic.{Traffic}
use ironwood.Router.{Router, Peer}
use ironwood.Pathfinder.{Node, Effect, multicast, Config}
use ironwood.Pathfinder.Forwarding.{handle_lookup, receive_lookup}
use ironwood.Blooms.{
  Filter, BloomInfo, Blooms, best_of, is_on_tree, get_bloom_for, send_multicast, is_wanted,
}
use ironwood.Blooms.Carry.{get_bloom_for_finds}

module _ (filter : Filter) (ed : Ed25519) (config : Config) where
  -- A node with its filters.
  pub record Place : Type 0 where
    pub n : Node
    pub bs : Blooms filter

  abbrev router_of : Place → Router
  router_of a = a.n.router

  abbrev key_of : Place → PublicKey
  key_of a = a.n.router.public_key

  -- Each key with an entry has a peer object.
  unfoldable pub IsPeered : Router → Blooms filter → Type 0
  IsPeered r bs =
      (k : PublicKey)
      → (pbi : BloomInfo filter) → Member (k, pbi) bs
      → (p : Peer) × (ps : List Peer) × (get_or [] k r.peers ≡ p ∷ ps)

  -- Each of the two has the other on its tree, and the filter that `a` has from `b` is one that `b` makes for
  -- `a`.
  pub record Link (a b : Place) : Type 0 where
    pub entry : BloomInfo filter
    pub known : lookup (key_of b) a.bs ≡ some entry
    pub on_tree : entry.on_tree ≡ true
    pub back : is_on_tree filter (key_of a) b.bs ≡ true
    pub keep_ones : Bool
    pub is_new : Bool
    pub bs' : Blooms filter
    pub told :
        get_bloom_for filter (config.transform (key_of b)) (key_of a) keep_ones b.bs
        ≡ ok (entry.recv, is_new, bs')

  -- The nodes from `a` on, which comes after the node with the key `prev`, are linked one by one up to the
  -- one with the key `dest`, without a turn back.
  unfoldable pub Route : PublicKey → Place → List Place → PublicKey → Type 0
  Route prev a [] dest = key_of a ≡ dest
  Route prev a (b ∷ places) dest =
      Link a b × (key_of b ≢ prev) × IsPeered (router_of a) a.bs × Route (key_of a) b places dest

  -- Of the effects of a lookup at `a`, which came from `prev`, the multicast queues it for an object of
  -- the node with the key `next`.
  unfoldable pub PassesOn :
      PublicKey → Place → PathLookup → PublicKey → Node × List Effect × Option Traffic → Type 0
  PassesOn prev a asked next result =
      Member (multicast prev asked) result.1
      × ((out : List Peer) × (p : Peer) × (ps : List Peer) × (get_or [] next a.n.router.peers
            ≡ p ∷ ps)
          × (send_multicast filter a.n.router prev (config.transform asked.dest) a.bs ≡ ok out)
          × Member (best_of p ps) out)

  -- What becomes of the lookup at `a`, which gets it from `prev`: the last node handles it, the others pass it on.
  -- Both are behind the test of handleLookup.
  pub Arrives : PublicKey → Place → List Place → PathLookup → ℕ → ℕ → Type 0
  Arrives prev a [] asked now unix =
      (key_of a ≡ asked.dest)
      × (receive_lookup ed config (is_on_tree filter prev a.bs) a.n prev asked now unix
          ≡ handle_lookup ed config a.n prev asked now unix)
  Arrives prev a (b ∷ places) asked now unix =
      PassesOn prev a asked (key_of b)
        (receive_lookup ed config (is_on_tree filter prev a.bs) a.n prev asked now unix)
      × Arrives (key_of a) b places asked now unix

  -- What becomes of the lookup that the node `a` sends itself.
  pub Forwards : Place → List Place → PathLookup → ℕ → ℕ → Type 0
  Forwards a [] asked now unix = key_of a ≡ asked.dest
  Forwards a (b ∷ places) asked now unix =
      PassesOn (key_of a) a asked (key_of b) (handle_lookup ed config a.n (key_of a) asked now unix)
      × Arrives (key_of a) b places asked now unix

  -- The filter from the next node finds the destination.
  finds :
      (a b : Place) (prev dest : PublicKey) (places : List Place) (l : Link a b)
      → Route (key_of a) b places dest
      → filter.test (config.transform dest) l.entry.recv ≡ true
  unfolding Route
  finds a b prev dest [] l e =
      let (own, others, kept) =
        get_bloom_for_finds filter (config.transform (key_of b)) (key_of a) l.keep_ones b.bs l.bs'
          l.entry.recv l.is_new l.told in
      subst (λ (k : PublicKey). filter.test (config.transform k) l.entry.recv ≡ true) e own
  finds a b prev dest (c ∷ places) l (next, other, peered, rest) =
      let (own, others, kept) =
        get_bloom_for_finds filter (config.transform (key_of b)) (key_of a) l.keep_ones b.bs l.bs'
          l.entry.recv l.is_new l.told in
      others (key_of c) (config.transform dest) next.entry next.known next.on_tree other
        (finds b c (key_of a) dest places next rest)

  multicast_skips :
      (r : Router) (from dest k : PublicKey) (pbi : BloomInfo filter) (bs : Blooms filter)
      → is_wanted filter from dest k pbi ≡ false
      → send_multicast filter r from dest ((k, pbi) ∷ bs) ≡ send_multicast filter r from dest bs
  unfolding send_multicast
  multicast_skips r from dest k pbi bs h = rw (h) refl

  multicast_queues :
      (r : Router) (from dest k : PublicKey) (pbi : BloomInfo filter) (bs : Blooms filter)
      (p : Peer) (ps out : List Peer)
      → is_wanted filter from dest k pbi ≡ true
      → get_or [] k r.peers ≡ p ∷ ps
      → send_multicast filter r from dest bs ≡ ok out
      → send_multicast filter r from dest ((k, pbi) ∷ bs) ≡ ok (best_of p ps ∷ out)
  unfolding send_multicast
  multicast_queues r from dest k pbi bs p ps out wanted some_peer rest =
      rw (wanted, some_peer, rest) refl

  multicast_ok :
      (r : Router) (from dest : PublicKey) (bs : Blooms filter)
      → IsPeered r bs
      → (out : List Peer) × (send_multicast filter r from dest bs ≡ ok out)
  unfolding send_multicast IsPeered
  multicast_ok r from dest [] h = ([], refl)
  multicast_ok r from dest ((k, pbi) ∷ bs) h =
      let (out, rest) = multicast_ok r from dest bs (λ j pj m. h j pj (inr m)) in
      let (p, ps, some_peer) = h k pbi (inl refl) in
      elim (Bool-cases (is_wanted filter from dest k pbi)) [
        | inl wanted ↦ (
          best_of p ps ∷ out,
          multicast_queues r from dest k pbi bs p ps out wanted some_peer rest,
        )
        | inr skipped ↦ (out, multicast_skips r from dest k pbi bs skipped ∙ rest)
      ]

  -- A wanted peer gets the packet.
  multicast_reaches :
      (r : Router) (from dest : PublicKey) (bs : Blooms filter) (k : PublicKey)
      (pbi : BloomInfo filter)
      → IsPeered r bs
      → lookup k bs ≡ some pbi
      → is_wanted filter from dest k pbi ≡ true
      → (out : List Peer) × (p : Peer) × (ps : List Peer) × (get_or [] k r.peers ≡ p ∷ ps)
        × (send_multicast filter r from dest bs ≡ ok out)
        × Member (best_of p ps) out
  unfolding IsPeered lookup
  multicast_reaches r from dest [] k pbi h e wanted = absurd (ground arith)
  multicast_reaches r from dest ((j, pj) ∷ bs) k pbi h e wanted =
      let peered : IsPeered r bs = λ i pi m. h i pi (inr m) in
      elim (Bool-cases (equal j k)) [
        | inl here ↦
            let at_k : j ≡ k = (equal_iff j k).0 here in
            let is_pbi : some pj ≡ some pbi = rw (here) at e in
            let (p, ps, some_peer) = h j pj (inl refl) in
            let (out, rest) = multicast_ok r from dest bs peered in
            let wanted' : is_wanted filter from dest j pj ≡ true = cc (at_k, is_pbi, wanted) in
            (
              best_of p ps ∷ out,
              p,
              ps,
              subst (λ (i : PublicKey). get_or [] i r.peers ≡ p ∷ ps) at_k some_peer,
              multicast_queues r from dest j pj bs p ps out wanted' some_peer rest,
              inl refl,
            )
        | inr there ↦
            let (out, p, ps, some_peer, rest, m) =
              multicast_reaches r from dest bs k pbi peered (rw (there) at e) wanted in
            elim (Bool-cases (is_wanted filter from dest j pj)) [
              | inl also ↦
                  let (q, qs, other_peer) = h j pj (inl refl) in
                  (
                    best_of q qs ∷ out,
                    p,
                    ps,
                    some_peer,
                    multicast_queues r from dest j pj bs q qs out also other_peer rest,
                    inr m,
                  )
              | inr skipped ↦
                  (out, p, ps, some_peer, multicast_skips r from dest j pj bs skipped ∙ rest, m)
            ]
      ]

  -- The multicast at `a` queues the lookup for the next node on the way.
  queues_next :
      (prev : PublicKey) (a b : Place) (places : List Place) (dest : PublicKey)
      → Route prev a (b ∷ places) dest
      → (out : List Peer) × (p : Peer) × (ps : List Peer) × (get_or [] (key_of b) a.n.router.peers
          ≡ p ∷ ps)
        × (send_multicast filter a.n.router prev (config.transform dest) a.bs ≡ ok out)
        × Member (best_of p ps) out
  unfolding Route is_wanted
  queues_next prev a b places dest (l, other, peered, rest) =
      multicast_reaches (router_of a) prev (config.transform dest) a.bs (key_of b) l.entry peered
        l.known
        (rw (l.on_tree, equal-false (key_of b) prev other, finds a b prev dest places l rest) refl)

  multicasts :
      (n : Node) (from : PublicKey) (asked : PathLookup) (now unix : ℕ)
      → Member (multicast from asked) (handle_lookup ed config n from asked now unix).1
  unfolding handle_lookup
  multicasts n from asked now unix =
      elim (Bool-cases
        (equal (config.transform asked.dest) (config.transform n.router.public_key))) [
          | inl e ↦ rw (e) (inl refl)
          | inr e ↦ rw (e) (inl refl)
        ]

  accepts :
      (on_tree : Bool) (n : Node) (from : PublicKey) (asked : PathLookup) (now unix : ℕ)
      → on_tree ≡ true
      → receive_lookup ed config on_tree n from asked now unix
        ≡ handle_lookup ed config n from asked now unix
  unfolding receive_lookup
  accepts on_tree n from asked now unix e = rw (e) refl

  arrives :
      (prev : PublicKey) (a : Place) (places : List Place) (asked : PathLookup) (now unix : ℕ)
      → is_on_tree filter prev a.bs ≡ true
      → Route prev a places asked.dest
      → Arrives prev a places asked now unix
  unfolding Route Arrives PassesOn
  arrives prev a [] asked now unix on e =
      (e, accepts (is_on_tree filter prev a.bs) a.n prev asked now unix on)
  arrives prev a (b ∷ places) asked now unix on h = (
    (
      rw (accepts (is_on_tree filter prev a.bs) a.n prev asked now unix on)
          (multicasts a.n prev asked now unix),
      queues_next prev a b places asked.dest h,
    ),
    arrives (key_of a) b places asked now unix h.0.back h.3,
  )

  -- Along a route over the tree, on which each node has the filter that the next one makes for it, and both
  -- count each other to the tree, a lookup that the first node sends comes to the node that it is for: every
  -- node on the way, which gets it behind the test of handleLookup, hands it to the multicast, which
  -- queues it for the next, and the last node handles it. The route does not turn back, and the keys with an
  -- entry have a peer object.
  pub send_multicast-Forwards :
      (a : Place) (places : List Place) (asked : PathLookup) (now unix : ℕ)
      → Route (key_of a) a places asked.dest
      → Forwards a places asked now unix
  unfolding Route Forwards PassesOn
  send_multicast-Forwards a [] asked now unix e = e
  send_multicast-Forwards a (b ∷ places) asked now unix h = (
    (multicasts a.n (key_of a) asked now unix, queues_next (key_of a) a b places asked.dest h),
    arrives (key_of a) b places asked now unix h.0.back h.3,
  )
