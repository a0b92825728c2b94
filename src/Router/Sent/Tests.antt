-- ===== src/Router/Sent/Tests.antt =====
-- A router of network/router.go that gets a peer and hears an announcement.
use ironwood.Base.{◌≡◌, refl, true, List, [], ◌∷◌}
use ironwood.Types.{ok}
use ironwood.Crypto.{equal}
use ironwood.Keyed.{has, lookup, get_or, insert, map_values, delete_key, add_key, contains}
use ironwood.Messages.Announce.{RouterAnnounce, get_announce}
use ironwood.Router.{Router, Peer}
use ironwood.Router.Update.{update, info_of, store, accepts, reset_cache, mark_sent}
use ironwood.Router.Handlers.{Output, handle_announce, new_req}
use ironwood.Router.Announces.{send_announces}
use ironwood.Router.PeerSet.{add_peer, greet, request}
use ironwood.Router.Maintenance.{init}
use ironwood.Router.Tests.{toy, key, peer, info_under}
use ironwood.Router.Sent.{IsSound}
use ironwood.Router.Sent.Steps.{adds, announces, Reaches, here, then_, Reaches-never_panics}

abbrev start : Router
start = init toy (1 ∷ 1 ∷ 1 ∷ []) (λ n. n)

-- Its first peer is node 2.
abbrev with_peer : Router
with_peer = record start {
  peers = (key 2, peer 2 ∷ []) ∷ [];
  sent = (key 2, []) ∷ [];
  ports = (2, key 2) ∷ [];
  drawn = 1;
  requests = (key 2, record { seq = 1; nonce = 0 }) ∷ [];
}

with_peer-Reaches : Reaches toy start with_peer
unfolding init add_peer greet request new_req has get_or lookup insert equal
with_peer-Reaches = then_ here (adds (peer 2) refl)

-- It then hears that node 2 is a root.
abbrev heard : Router
heard = record with_peer {
  sent = (key 2, key 2 ∷ []) ∷ [];
  infos = (key 2, info_under (key 2) 0) ∷ [];
  timers = (key 2, 0) ∷ [];
  next_timer = 1;
}

heard-Reaches : Reaches toy start heard
unfolding handle_announce update accepts store reset_cache mark_sent map_values lookup insert equal
    delete_key add_key contains has get_or init get_announce info_of
heard-Reaches =
    then_ with_peer-Reaches
      (announces (peer 2) (get_announce (info_under (key 2) 0) (key 2)) refl refl)

Reaches-never_panics_example :
    IsSound heard
    × ((p : Peer) → (r' : Router) × (out : List Output) × (add_peer heard p ≡ ok (r', out)))
    × ((p : Peer) (ann : RouterAnnounce)
        → has p.key heard.peers ≡ true
        → (r' : Router) × (out : List Output) × (handle_announce heard p ann ≡ ok (r', out)))
    × ((r' : Router) × (out : List Output) × (send_announces heard ≡ ok (r', out)))
Reaches-never_panics_example =
    Reaches-never_panics toy (1 ∷ 1 ∷ 1 ∷ []) (λ n. n) heard heard-Reaches
