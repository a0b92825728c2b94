-- ===== src/Peers/Table/Apart.antt =====
-- The ports of the peers: one for each key, and none for two.
use ironwood.Base.{
  ℕ, suc, ◌+◌, ◌%◌, ◌^◌, ◌≤◌, ◌⊎◌, ◌<◌, ◌≡◌, refl, sym, ap, ◌∙◌, subst, inl, inr, Bool, true, false,
  List, [], ◌∷◌, Option, none, some, length, arith, All, Member, Bool-cases,
}
use ironwood.Wire.{PeerPort}
use ironwood.Crypto.{PublicKey, equal}
use ironwood.Crypto.Order.{equal_iff}
use ironwood.Keyed.{KeyMap, lookup, insert, delete, lookup-insert, lookup-delete}
use ironwood.Router.{Peer}
use ironwood.Peers.Table.{Peers, has_port, free_port, first_port, new_peer, with_peer, add_under}
use ironwood.Peers.Table.Ports.{free_port_lem}

-- A key's peers: there is one, and all have the key and one port, which is not zero and is in use.
pub record EntryValid (ports : List PeerPort) (k : PublicKey) (ps : List Peer) : Type 0 where
  pub port : PeerPort
  pub positive : 1 ≤ port
  pub used : has_port port ports ≡ true
  pub some_peer : 0 < length ps
  pub alike : All (λ (p : Peer). (p.key ≡ k) × (p.port ≡ port)) ps

pub first_port_is :
    (port : PeerPort) (k : PublicKey) (ps : List Peer)
    → 0 < length ps
    → All (λ (p : Peer). (p.key ≡ k) × (p.port ≡ port)) ps
    → first_port ps ≡ port
unfolding first_port
first_port_is port k [] h a = absurd (omega arith)
first_port_is port k (p ∷ ps) h a = a.0.1

pub record TableValid (t : Peers) : Type 0 where
  pub entries :
      (k : PublicKey) (ps : List Peer) → lookup k t.peers ≡ some ps → EntryValid t.ports k ps
  pub apart :
      (j k : PublicKey) (js ks : List Peer)
      → lookup j t.peers ≡ some js
      → lookup k t.peers ≡ some ks
      → first_port js ≡ first_port ks
      → j ≡ k

pub All-Member : {A : Type 0} (P : A → Type 0) (a : A) (xs : List A) → All P xs → Member a xs → P a
All-Member P a [] h m = absurd m
All-Member P a (x ∷ xs) h (inl e) = subst P (sym e) h.0
All-Member P a (x ∷ xs) h (inr m) = All-Member P a xs h.1 m

pub some_equal : {A : Type 0} {x y : A} → Option.some x ≡ some y → x ≡ y
some_equal e = cc (e)

-- An entry that is found after an insert or a delete.
found_in_insert :
    (k j : PublicKey) (ps js : List Peer) (m : KeyMap (List Peer))
    → lookup j (insert k ps m) ≡ some js
    → ((j ≡ k) × (js ≡ ps)) ⊎ (lookup j m ≡ some js)
found_in_insert k j ps js m e =
    let e' = sym (lookup-insert k j ps m) ∙ e in
    elim (Bool-cases (equal k j)) [
      | inl same ↦ inl (sym ((equal_iff k j).0 same), sym (some_equal (rw (same) at e')))
      | inr other ↦ inr (rw (other) at e')
    ]

pub found_in_delete :
    (k j : PublicKey) (js : List Peer) (m : KeyMap (List Peer))
    → lookup j (delete k m) ≡ some js
    → (equal k j ≡ false) × (lookup j m ≡ some js)
found_in_delete k j js m e =
    let e' = sym (lookup-delete k j m) ∙ e in
    elim (Bool-cases (equal k j)) [
      | inl same ↦ absurd (cc (rw (same) at e'))
      | inr other ↦ (other, rw (other) at e')
    ]

-- The table after its entry under a key is written.
abbrev pub written : Peers → List PeerPort → PublicKey → List Peer → ℕ → Peers
written t ports k ps order = record {
  closed = t.closed;
  ports = ports;
  peers = insert k ps t.peers;
  order = order;
}

more_used :
    (ports ports' : List PeerPort) (k : PublicKey) (ps : List Peer)
    → ((p : PeerPort) → has_port p ports ≡ true → has_port p ports' ≡ true)
    → EntryValid ports k ps
    → EntryValid ports' k ps
more_used ports ports' k ps more e = record {
  port = e.port;
  positive = e.positive;
  used = more e.port e.used;
  some_peer = e.some_peer;
  alike = e.alike;
}

pub written-TableValid :
    (t : Peers) (ports : List PeerPort) (k : PublicKey) (ps : List Peer) (order : ℕ)
    → TableValid t
    → ((p : PeerPort) → has_port p t.ports ≡ true → has_port p ports ≡ true)
    → EntryValid ports k ps
    → ((j : PublicKey) (js : List Peer)
        → lookup j t.peers ≡ some js
        → first_port js ≡ first_port ps
        → j ≡ k)
    → TableValid (written t ports k ps order)
written-TableValid t ports k ps order v more e only = record {
  entries = λ j js found. elim (found_in_insert k j ps js t.peers found) [
    | inl (key_same, same) ↦
        subst (λ (l : List Peer). EntryValid ports j l) (sym same)
          (subst (λ (l : PublicKey). EntryValid ports l ps) (sym key_same) e)
    | inr old ↦ more_used t.ports ports j js more (v.entries j js old)
  ];
  apart = λ i j is js f g ports_same. elim (found_in_insert k i ps is t.peers f) [
    | inl (i_is, is_ps) ↦ elim (found_in_insert k j ps js t.peers g) [
      | inl (j_is, js_ps) ↦ i_is ∙ sym j_is
      | inr old ↦ i_is ∙ sym (only j js old (sym ports_same ∙ ap first_port is_ps))
    ]
    | inr old_i ↦ elim (found_in_insert k j ps js t.peers g) [
      | inl (j_is, js_ps) ↦ only i is old_i (ports_same ∙ ap first_port js_ps) ∙ sym j_is
      | inr old_j ↦ v.apart i j is js old_i old_j ports_same
    ]
  ];
}

pub added-TableValid :
    (t : Peers) (key : PublicKey) (prio : ℕ) (found : Option (List Peer))
    → lookup key t.peers ≡ found
    → TableValid t
    → TableValid (add_under t key prio found).1
unfolding add_under with_peer new_peer has_port first_port
added-TableValid t key prio (some ps) e v =
    let old = v.entries key ps e in
    let same = first_port_is old.port key ps old.some_peer old.alike in
    let p = new_peer t key prio (first_port ps) in
    written-TableValid t t.ports key (p ∷ ps) ((t.order + 1) % 2 ^ 64) v (λ q h. h)
      record {
        port = old.port;
        positive = old.positive;
        used = old.used;
        some_peer = omega arith;
        alike = ((refl, same), old.alike);
      }
      (λ j js found ports_same. v.apart j key js ps found e ports_same)
added-TableValid t key prio none e v =
    let port = free_port (suc (length t.ports)) 1 t.ports in
    let (free, positive) = free_port_lem t.ports in
    let p = new_peer t key prio port in
    written-TableValid t (port ∷ t.ports) key (p ∷ []) ((t.order + 1) % 2 ^ 64) v
      (λ q h. ground (arith, h))
      record {
        port = port;
        positive = positive;
        used = ground arith;
        some_peer = omega arith;
        alike = ((refl, refl), tt);
      }
      (λ j js found ports_same.
        let old = v.entries j js found in
        let clash : old.port ≡ port =
          sym (first_port_is old.port j js old.some_peer old.alike) ∙ ports_same in
        absurd (
          not_both (has_port port t.ports)
            (ap (λ (q : PeerPort). has_port q t.ports) (sym clash) ∙ old.used) free))
  where
    not_both : (b : Bool) → b ≡ true → b ≡ false → ⊥
    not_both b h g = ground (arith, h, g)
