-- ===== src/Router/Parent.antt =====
-- _fix of network/router.go and what it calls: the choice of a root and a parent.
pub mod Picking
pub mod Choosing
pub mod Total
use ironwood.Base.{
  ℕ, Bool, true, false, not, ◌&&◌, ◌||◌, List, [], ◌∷◌, ◌++◌, Option, none, some, ltb,
  if◌then◌else◌, map,
}
use ironwood.Types.{Result, ok, panic, ◌>>=◌}
use ironwood.Crypto.{PublicKey, Ed25519, equal, less}
use ironwood.Keyed.{KeyMap, lookup, has, get_or, insert}
use ironwood.Messages.SigRes.{RouterSigRes}
use ironwood.Router.{Router, Peer}
use ironwood.Router.Tree.{get_root_and_dists}
use ironwood.Router.Handlers.{Output, send_sig_req, zero_info, new_req, use_response, become_root}

unfoldable pub clear_reqs : Router → Router
clear_reqs r = record r { requests = []; responses = []; res_seqs = []; res_seq_ctr = 0 }

-- The loop over `r.peers`: a new request for each key, sent to all its peer objects.
unfoldable pub send_req_loop : KeyMap (List Peer) → Router → List Output → Router × List Output
send_req_loop [] r out = (r, out)
send_req_loop ((k, ps) ∷ peers) r out =
    let (req, r') = new_req r in
    send_req_loop peers (record r' { requests = insert k req r'.requests })
      (out ++ map (λ p. send_sig_req p req) ps)

unfoldable pub send_reqs : Router → Router × List Output
unfolding clear_reqs send_req_loop
send_reqs r = send_req_loop r.peers (clear_reqs r) []

-- `bestRoot` and `bestParent`
pub record Choice : Type 0 where
  pub root : PublicKey
  pub parent : PublicKey

-- The last test of a round: a better connected peer for the same root.
pub prefer : Router → PublicKey → PublicKey → Choice → Choice
prefer r own_parent pk best =
    if (r.refresh || not (equal best.parent own_parent))
      && ltb (get_or 0 pk r.res_seqs) (get_or 0 best.parent r.res_seqs)
    then record { root = (get_root_and_dists r.infos pk).0; parent = pk }
    else best

-- A peer that sent a response, has an info, and does not route through this node.
pub eligible : Router → PublicKey → Bool
eligible r pk = has pk r.infos && not (has r.public_key (get_root_and_dists r.infos pk).1)

-- One round of the loop over `r.responses`.
pub consider : Router → PublicKey → Choice → PublicKey → Choice
unfolding prefer eligible
consider r own_parent best pk =
    let root = (get_root_and_dists r.infos pk).0 in
    if not (eligible r pk)
    then best
    else if less root best.root
    then prefer r own_parent pk (record { root = root; parent = pk })
    else if not (equal root best.root)
    then best
    else prefer r own_parent pk best

pub consider_all : Router → PublicKey → KeyMap RouterSigRes → Choice → Choice
consider_all r own_parent [] best = best
consider_all r own_parent ((pk, res) ∷ responses) best =
    consider_all r own_parent responses (consider r own_parent best pk)

-- The choice before the loop: the node itself, or its parent if that leads to a better root.
pub first_choice : Router → PublicKey → Choice
first_choice r own_parent =
    let root = (get_root_and_dists r.infos r.public_key).0 in
    if has own_parent r.peers && less root r.public_key
    then record { root = root; parent = own_parent }
    else record { root = r.public_key; parent = r.public_key }

pub choose : Router → Choice
unfolding consider_all first_choice
choose r =
    let own_parent = (get_or zero_info r.public_key r.infos).parent in
    consider_all r own_parent r.responses (first_choice r own_parent)

module _ (ed : Ed25519) where
  -- After a new parent or a new root: the flags are reset and new requests go out.
  unfoldable pub settled : Router → Router × List Output
  settled r = send_reqs (record r { refresh = false; do_root1 = false; do_root2 = false })

  -- The cases after the first.
  unfoldable pub root_or_wait : Router → Result (Router × List Output)
  root_or_wait r =
      let rooted = do (accepted, r') ← become_root ed r; if accepted then ok (settled r') else panic
      in if r.do_root2
        then rooted
        else if not r.do_root1
        then ok (record r { do_root1 = true }, [])
        else ok (r, [])

  -- The first case, whose last conjunct has an effect: a failed _useResponse goes on below.
  unfoldable pub try_parent : Router → Choice → Option RouterSigRes → Result (Router × List Output)
  unfolding root_or_wait
  try_parent r best none = root_or_wait r
  try_parent r best (some res) =
      let used = do
        (accepted, r') ← use_response ed r best.parent res
        if accepted then ok (settled r') else root_or_wait r'
      in if not (equal best.root r.public_key) then used else root_or_wait r

  unfoldable pub fix : Router → Result (Router × List Output)
  unfolding choose try_parent
  fix r =
      let best = choose r in
      let own_parent = (get_or zero_info r.public_key r.infos).parent in
      if r.refresh || (r.do_root1 || (r.do_root2 || not (equal own_parent best.parent)))
      then try_parent r best (lookup best.parent r.responses)
      else ok (r, [])
