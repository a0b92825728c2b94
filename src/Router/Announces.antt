-- ===== src/Router/Announces.antt =====
-- _updateAncestries and _sendAnnounces of network/router.go.
use ironwood.Base.{Bool, true, false, List, [], ◌∷◌, ◌++◌, none, some, if◌then◌else◌, map}
use ironwood.Types.{Result, ok, panic, ◌>>=◌}
use ironwood.Crypto.{PublicKey, equal}
use ironwood.Keyed.{KeyMap, lookup, get_or, insert, contains, add_key}
use ironwood.Messages.Announce.{RouterAnnounce, get_announce}
use ironwood.Router.{Router, Peer}
use ironwood.Router.Tree.{Infos, get_ancestry}
use ironwood.Router.Handlers.{Output, send_announce}

-- `diff` is false where the two ancestries are equal, key by key.
pub same_ancestry : List PublicKey → List PublicKey → Bool
same_ancestry [] [] = true
same_ancestry (a ∷ xs) (b ∷ ys) = if equal a b then same_ancestry xs ys else false
same_ancestry _ _ = false

-- The loop over `r.peers`.
ancestries_loop : Infos → KeyMap (List Peer) → KeyMap (List PublicKey) → KeyMap (List PublicKey)
unfolding same_ancestry
ancestries_loop infos [] ancs = ancs
ancestries_loop infos ((k, ps) ∷ peers) ancs =
    let anc = get_ancestry infos k in
    ancestries_loop infos peers
      (if same_ancestry anc (get_or [] k ancs) then ancs else insert k anc ancs)

unfoldable pub update_ancestries : Router → Router
unfolding ancestries_loop
update_ancestries r = record r { ancs = ancestries_loop r.infos r.peers r.ancs }

-- The keys of an ancestry that were not sent, behind those to send, and what is sent with them.
unfoldable pub get_unsent :
    List PublicKey → List PublicKey × List PublicKey → List PublicKey × List PublicKey
get_unsent [] (to_send, sent) = (to_send, sent)
get_unsent (k ∷ anc) (to_send, sent) =
    get_unsent anc
      (if contains k sent then (to_send, sent) else (to_send ++ (k ∷ []), add_key k sent))

-- The announcements of the keys to send; an unknown key panics.
unfoldable pub prepare : Infos → List PublicKey → Result (List RouterAnnounce)
prepare infos [] = ok []
prepare infos (k ∷ keys) = elim (lookup k infos) [
  | none ↦ panic
  | some info ↦ do anns ← prepare infos keys; ok (get_announce info k ∷ anns)
]

-- Every announcement to every peer object of the key.
pub send_to : List Peer → List RouterAnnounce → List Output
send_to [] anns = []
send_to (p ∷ ps) anns = map (send_announce p) anns ++ send_to ps anns

-- The loop over `r.sent`: the new sets, and what is sent.
unfoldable pub announce_loop :
    Router
    → List PublicKey
    → KeyMap (List PublicKey)
    → Result (KeyMap (List PublicKey) × List Output)
unfolding get_unsent send_to
announce_loop r self_anc [] = ok ([], [])
announce_loop r self_anc ((peer_key, sent) ∷ rest) =
    let (to_send, sent') =
      get_unsent (get_ancestry r.infos peer_key) (get_unsent self_anc ([], sent)) in
    do
      anns ← prepare r.infos to_send
      (others, out) ← announce_loop r self_anc rest
      ok ((peer_key, sent') ∷ others, send_to (get_or [] peer_key r.peers) anns ++ out)

unfoldable pub send_announces : Router → Result (Router × List Output)
unfolding announce_loop
send_announces r = do
  (sent, out) ← announce_loop r (get_ancestry r.infos r.public_key) r.sent
  ok (record r { sent = sent }, out)
