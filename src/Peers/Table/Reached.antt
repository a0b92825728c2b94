-- ===== src/Peers/Table/Reached.antt =====
-- The tables of peers that addPeer and removePeer make.
use ironwood.Base.{
  ℕ, ◌≤◌, ◌≡◌, refl, sym, ap, ◌∙◌, subst, ◌↔◌, inl, inr, Bool, true, false, List, [], ◌∷◌, some,
  ◌==◌, if◌then◌else◌, arith, All, All-map, Member, Bool-cases,
}
use ironwood.Types.{Result, ok, err, err_closed}
use ironwood.Wire.{PeerPort}
use ironwood.Crypto.{PublicKey, equal}
use ironwood.Crypto.Order.{equal_iff}
use ironwood.Keyed.{lookup, get_or-lookup}
use ironwood.Router.{Peer}
use ironwood.Router.PeerSet.{delete_object}
use ironwood.Peers.Table.{
  Peers, init_peers, has_port, first_port, add_under, add_peer, contains_peer, remaining,
  remove_peer,
}
use ironwood.Peers.Table.Ports.{has_port-delete}
use ironwood.Peers.Table.Apart.{
  TableValid, first_port_is, All-Member, some_equal, found_in_delete, written-TableValid,
  added-TableValid,
}

-- A peer is connected.
pub record IsConnected (t : Peers) (p : Peer) : Type 0 where
  pub key_peers : List Peer
  pub found : lookup p.key t.peers ≡ some key_peers
  pub member : Member p key_peers

All-delete_object :
    (P : Peer → Type 0) (p : Peer) (ps : List Peer) → All P ps → All P (delete_object p ps)
unfolding delete_object
All-delete_object P p [] h = tt
All-delete_object P p (q ∷ qs) h = elim (Bool-cases (q.order == p.order)) [
  | inl same ↦ rw (same) (All-delete_object P p qs h.1)
  | inr other ↦ rw (other) (h.0, All-delete_object P p qs h.1)
]

contains_peer-Member : (p : Peer) (ps : List Peer) → Member p ps → contains_peer p ps ≡ true
unfolding contains_peer
contains_peer-Member p [] m = absurd m
contains_peer-Member p (q ∷ qs) (inl e) = ground (arith, ap (λ (r : Peer). r.order) e)
contains_peer-Member p (q ∷ qs) (inr m) = ground (arith, contains_peer-Member p qs m)

remaining-TableValid :
    (t : Peers) (p : Peer) (ps left : List Peer)
    → lookup p.key t.peers ≡ some ps
    → Member p ps
    → All (λ (q : Peer). (q.key ≡ p.key) × (q.port ≡ p.port)) left
    → TableValid t
    → TableValid (remaining t p left)
unfolding remaining first_port
remaining-TableValid t p ps [] e m left v =
    let old = v.entries p.key ps e in
    let mine = All-Member (λ (q : Peer). (q.key ≡ p.key) × (q.port ≡ old.port)) p ps old.alike m in
    let first = first_port_is old.port p.key ps old.some_peer old.alike in
    record {
      entries = λ j js found.
          let (other, before) = found_in_delete p.key j js t.peers found in
          let theirs = v.entries j js before in
          let their_first = first_port_is theirs.port j js theirs.some_peer theirs.alike in
          record {
            port = theirs.port;
            positive = theirs.positive;
            used =
                has_port-delete p.port theirs.port t.ports
                  (λ same.
                    no_key j other (
                      v.apart j p.key js ps before e (their_first ∙ sym same ∙ mine.1 ∙ sym first)))
                  theirs.used;
            some_peer = theirs.some_peer;
            alike = theirs.alike;
          };
      apart = λ i j is js f g same.
          v.apart i j is js (found_in_delete p.key i is t.peers f).1
            (found_in_delete p.key j js t.peers g).1 same;
    }
  where
    no_key : (j : PublicKey) → equal p.key j ≡ false → j ≡ p.key → ⊥
    no_key j other same = ground (arith, other, (equal_iff p.key j).1 (sym same))
remaining-TableValid t p ps (q ∷ qs) e m left v =
    let old = v.entries p.key ps e in
    let mine = All-Member (λ (r : Peer). (r.key ≡ p.key) × (r.port ≡ old.port)) p ps old.alike m in
    let first = first_port_is old.port p.key ps old.some_peer old.alike in
    written-TableValid t t.ports p.key (q ∷ qs) t.order v (λ r h. h)
      record {
        port = p.port;
        positive = omega (arith, old.positive, mine.1);
        used = ap (λ (r : PeerPort). has_port r t.ports) mine.1 ∙ old.used;
        some_peer = omega arith;
        alike = left;
      }
      (λ j js found same. v.apart j p.key js ps found e (same ∙ left.0.1 ∙ mine.1 ∙ sym first))

remove_peer-remaining :
    (t : Peers) (p : Peer) (c : IsConnected t p)
    → remove_peer t p ≡ ok (remaining t p (delete_object p c.key_peers))
unfolding remove_peer
remove_peer-remaining t p c =
    rw
      (
        get_or-lookup [] p.key c.key_peers t.peers c.found,
        contains_peer-Member p c.key_peers c.member,
      )
      refl

ok-equal : {A : Type 0} {x y : A} → Result.ok x ≡ ok y → x ≡ y
ok-equal e = cc (e)

add_peer-TableValid :
    (t t' : Peers) (key : PublicKey) (prio : ℕ) (p : Peer)
    → TableValid t
    → add_peer t key prio ≡ ok (p, t')
    → TableValid t'
unfolding add_peer
add_peer-TableValid t t' key prio p v e =
    let same : add_under t key prio (lookup key t.peers) ≡ (p, t') =
      ok-equal (open_ t.closed (ok (add_under t key prio (lookup key t.peers))) (p, t') e) in
    subst (λ (r : Peer × Peers). TableValid r.1) same
      (added-TableValid t key prio (lookup key t.peers) refl v)
  where
    open_ :
        (b : Bool) (m : Result (Peer × Peers)) (x : Peer × Peers)
        → (if b then err err_closed else m) ≡ ok x
        → m ≡ ok x
    open_ true m x h = absurd (cc (h))
    open_ false m x h = h

remove_peer-TableValid :
    (t t' : Peers) (p : Peer)
    → TableValid t
    → IsConnected t p
    → remove_peer t p ≡ ok t'
    → TableValid t'
remove_peer-TableValid t t' p v c e =
    let old = v.entries p.key c.key_peers c.found in
    let mine =
      All-Member (λ (q : Peer). (q.key ≡ p.key) × (q.port ≡ old.port)) p c.key_peers old.alike
        c.member in
    subst TableValid (ok-equal (sym (remove_peer-remaining t p c) ∙ e)) (
      remaining-TableValid t p c.key_peers (delete_object p c.key_peers) c.found c.member
        (All-delete_object (λ (q : Peer). (q.key ≡ p.key) × (q.port ≡ p.port)) p c.key_peers
          (All-map
            (λ (q : Peer) (h : (q.key ≡ p.key) × (q.port ≡ old.port)). (h.0, h.1 ∙ sym mine.1))
            c.key_peers old.alike))
        v)

init-TableValid : TableValid init_peers
unfolding init_peers lookup
init-TableValid = record {
  entries = λ k ps e. absurd (cc (e));
  apart = λ j k js ks e. absurd (cc (e));
}

-- The tables that calls of addPeer, and calls of removePeer for connected peers, make of the empty
-- one, and that the closing of the packet connection leaves.
pub data Reached : Peers → Type 0 where
  starts : Reached init_peers
  adds :
      {t t' : Peers} {p : Peer} (key : PublicKey) (prio : ℕ)
      → Reached t
      → add_peer t key prio ≡ ok (p, t')
      → Reached t'
  removes :
      {t t' : Peers} (p : Peer) → Reached t → IsConnected t p → remove_peer t p ≡ ok t' → Reached t'
  closes : {t : Peers} → Reached t → Reached record t { closed = true }

Reached-TableValid : {t : Peers} → Reached t → TableValid t
Reached-TableValid starts = init-TableValid
Reached-TableValid (adds {t} {t'} {p} key prio r e) =
    add_peer-TableValid t t' key prio p (Reached-TableValid r) e
Reached-TableValid (removes {t} {t'} p r c e) =
    remove_peer-TableValid t t' p (Reached-TableValid r) c e
Reached-TableValid (closes r) =
    let v = Reached-TableValid r in record { entries = v.entries; apart = v.apart }

-- In every table that is reached, two connected peers have the same port just when they have the
-- same key, and no port is zero.
pub Reached-port :
    (t : Peers) (p q : Peer)
    → Reached t
    → IsConnected t p
    → IsConnected t q
    → ((p.port ≡ q.port) ↔ (p.key ≡ q.key)) × (1 ≤ p.port)
Reached-port t p q r c d =
    let v = Reached-TableValid r in
    let x = v.entries p.key c.key_peers c.found in
    let y = v.entries q.key d.key_peers d.found in
    let p_is =
      All-Member (λ (o : Peer). (o.key ≡ p.key) × (o.port ≡ x.port)) p c.key_peers x.alike
        c.member in
    let q_is =
      All-Member (λ (o : Peer). (o.key ≡ q.key) × (o.port ≡ y.port)) q d.key_peers y.alike
        d.member in
    let p_first = first_port_is x.port p.key c.key_peers x.some_peer x.alike in
    let q_first = first_port_is y.port q.key d.key_peers y.some_peer y.alike in
    (
      (
        λ same.
            v.apart p.key q.key c.key_peers d.key_peers c.found d.found
              (p_first ∙ sym p_is.1 ∙ same ∙ q_is.1 ∙ sym q_first),
        λ same_key.
            let lists : c.key_peers ≡ d.key_peers =
              some_equal
                (sym c.found ∙ ap (λ (k : PublicKey). lookup k t.peers) same_key ∙ d.found) in
            p_is.1 ∙ sym p_first ∙ ap first_port lists ∙ q_first ∙ sym q_is.1,
      ),
      omega (arith, x.positive, p_is.1),
    )
