-- ===== src/Peers/Table.antt =====
-- The peers of network/peers.go, addPeer and removePeer: which connections there are, and the ports
-- of their keys. A peer object is known by its order, which is drawn afresh for each.
pub mod Ports
pub mod Apart
pub mod Reached
use ironwood.Base.{
  ℕ, zero, suc, ◌+◌, ◌%◌, ◌^◌, Bool, true, false, ◌||◌, List, [], ◌∷◌, Option, none, some, ◌==◌,
  if◌then◌else◌, length,
}
use ironwood.Types.{Result, ok, err, Error, err_closed, err_peer_not_found}
use ironwood.Wire.{PeerPort}
use ironwood.Crypto.{PublicKey}
use ironwood.Keyed.{KeyMap, lookup, get_or, insert, delete}
use ironwood.Router.{Peer}
use ironwood.Router.PeerSet.{delete_object}

-- `closed` is whether the packet connection is, `ports` the set of ports in use.
pub record Peers : Type 0 where
  pub closed : Bool
  pub ports : List PeerPort
  pub peers : KeyMap (List Peer)
  pub order : ℕ

unfoldable pub init_peers : Peers
init_peers = record { closed = false; ports = []; peers = []; order = 0 }

unfoldable pub has_port : PeerPort → List PeerPort → Bool
has_port p [] = false
has_port p (q ∷ qs) = q == p || has_port p qs

-- `delete(ps.ports, p.port)`
unfoldable pub delete_port : PeerPort → List PeerPort → List PeerPort
delete_port p [] = []
delete_port p (q ∷ qs) = let rest = delete_port p qs in if q == p then rest else q ∷ rest

-- The loop over `idx`. A round that is not the last one finds a port that is in use, so one round
-- more than there are ports is enough.
unfoldable pub free_port : ℕ → ℕ → List PeerPort → PeerPort
free_port zero idx ports = idx
free_port (suc fuel) idx ports =
    let later = free_port fuel (idx + 1) ports in if has_port idx ports then later else idx

-- The port of the first peer that the loop over a key's peers meets.
unfoldable pub first_port : List Peer → PeerPort
first_port [] = 0
first_port (p ∷ ps) = p.port

unfoldable pub contains_peer : Peer → List Peer → Bool
contains_peer p [] = false
contains_peer p (q ∷ qs) = q.order == p.order || contains_peer p qs

-- The new peer under its port, and the peers and ports with it.
unfoldable pub new_peer : Peers → PublicKey → ℕ → PeerPort → Peer
new_peer ps key prio port = record { key = key; port = port; prio = prio; order = ps.order }

unfoldable pub with_peer : Peers → List PeerPort → List Peer → Peer → Peers
with_peer ps ports key_peers p = record {
  closed = ps.closed;
  ports = ports;
  peers = insert p.key (p ∷ key_peers) ps.peers;
  order = (ps.order + 1) % 2 ^ 64;
}

-- A key that has peers keeps its port, another one gets the lowest that is free.
unfoldable pub add_under : Peers → PublicKey → ℕ → Option (List Peer) → Peer × Peers
unfolding new_peer with_peer
add_under ps key prio (some key_peers) =
    let p = new_peer ps key prio (first_port key_peers) in (p, with_peer ps ps.ports key_peers p)
add_under ps key prio none =
    let port = free_port (suc (length ps.ports)) 1 ps.ports in
    let p = new_peer ps key prio port in (p, with_peer ps (port ∷ ps.ports) [] p)

unfoldable pub add_peer : Peers → PublicKey → ℕ → Result (Peer × Peers)
unfolding add_under
add_peer ps key prio =
    if ps.closed then err err_closed else ok (add_under ps key prio (lookup key ps.peers))

-- What is left of the key's peers, and of the ports, when a peer is gone.
unfoldable pub remaining : Peers → Peer → List Peer → Peers
remaining ps p [] = record {
  closed = ps.closed;
  ports = delete_port p.port ps.ports;
  peers = delete p.key ps.peers;
  order = ps.order;
}
remaining ps p (q ∷ qs) = record {
  closed = ps.closed;
  ports = ps.ports;
  peers = insert p.key (q ∷ qs) ps.peers;
  order = ps.order;
}

unfoldable pub remove_peer : Peers → Peer → Result Peers
unfolding remaining
remove_peer ps p =
    let key_peers = get_or [] p.key ps.peers in
    if contains_peer p key_peers
    then ok (remaining ps p (delete_object p key_peers))
    else err err_peer_not_found
