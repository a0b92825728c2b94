-- ===== src/Router/PeerSet.antt =====
-- addPeer and removePeer of network/router.go, over the peer objects of each key.
use ironwood.Base.{List, [], ◌∷◌, ◌++◌, ◌==◌, if◌then◌else◌, map, length}
use ironwood.Types.{Result, ok, ◌>>=◌}
use ironwood.Wire.{PeerPort}
use ironwood.Crypto.{PublicKey}
use ironwood.Keyed.{has, get_or, insert, delete}
use ironwood.Router.{Router, Peer}
use ironwood.Router.Handlers.{
  Output, send_announce, send_sig_req, add_bloom, remove_bloom, send_bloom, new_req, zero_req,
}
use ironwood.Router.Announces.{prepare}

-- A set of peer objects, which `order` tells apart.
pub add_object : Peer → List Peer → List Peer
add_object p [] = p ∷ []
add_object p (q ∷ qs) = if q.order == p.order then q ∷ qs else q ∷ add_object p qs

unfoldable pub delete_object : Peer → List Peer → List Peer
delete_object p [] = []
delete_object p (q ∷ qs) =
    let rest = delete_object p qs in if q.order == p.order then rest else q ∷ rest

pub insert_port : PeerPort → PublicKey → List (PeerPort × PublicKey) → List (PeerPort × PublicKey)
insert_port n k [] = (n, k) ∷ []
insert_port n k ((m, j) ∷ ports) = if m == n then (n, k) ∷ ports else (m, j) ∷ insert_port n k ports

pub delete_port : PeerPort → List (PeerPort × PublicKey) → List (PeerPort × PublicKey)
delete_port n [] = []
delete_port n ((m, j) ∷ ports) =
    let rest = delete_port n ports in if m == n then rest else (m, j) ∷ rest

-- The first part: a new key gets its entries, a known one is sent what its other objects were.
unfoldable pub greet : Router → Peer → Result (Router × List Output)
unfolding insert_port
greet r p =
    let known = do
      anns ← prepare r.infos (get_or [] p.key r.sent)
      ok (r, map (send_announce p) anns)
    in if has p.key r.peers
      then known
      else ok (
        record r {
          peers = insert p.key [] r.peers;
          sent = insert p.key [] r.sent;
          ports = insert_port p.port p.key r.ports;
        },
        add_bloom p.key ∷ [],
      )

-- The last part: the request that is under way, or a new one, if no response is there.
unfoldable pub request : Router → Peer → Router × List Output
request r p =
    let (req, r') = new_req r in
    let fresh : Router = record r' { requests = insert p.key req r'.requests } in
    let started = if has p.key r.requests then r else fresh in
    if has p.key r.responses
    then (r, [])
    else (started, send_sig_req p (get_or zero_req p.key started.requests) ∷ [])

unfoldable pub add_peer : Router → Peer → Result (Router × List Output)
unfolding greet add_object request
add_peer r p = do
  (r1, out1) ← greet r p
  let r2 = record r1 { peers = insert p.key (add_object p (get_or [] p.key r1.peers)) r1.peers }
  let (r3, out2) = request r2 p
  ok (r3, out1 ++ (out2 ++ (send_bloom p ∷ [])))

-- What is left of a key goes with its last object; else the others' blooms are sent again.
unfoldable pub remove_peer : Router → Peer → Router × List Output
unfolding delete_object delete_port
remove_peer r p =
    let ps = delete_object p (get_or [] p.key r.peers) in
    if length ps == 0
    then (
      record r {
        peers = delete p.key r.peers;
        sent = delete p.key r.sent;
        ports = delete_port p.port r.ports;
        requests = delete p.key r.requests;
        responses = delete p.key r.responses;
        res_seqs = delete p.key r.res_seqs;
        ancs = delete p.key r.ancs;
        cache = delete p.key r.cache;
      },
      remove_bloom p.key ∷ [],
    )
    else (record r { peers = insert p.key ps r.peers }, map send_bloom ps)
