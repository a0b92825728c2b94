-- ===== src/Router/Parent/Total.antt =====
-- _fix returns: the panic behind _becomeRoot is not reached.
use ironwood.Base.{
  ◌+◌, ◌^◌, ◌<◌, ◌≡◌, refl, ◌⊎◌, inl, inr, Bool, true, false, not, ◌||◌, List, [], ◌∷◌, Option,
  none, some, Bool-cases, arith,
}
use ironwood.Types.{Result, ok}
use ironwood.Crypto.{PublicKey, Ed25519, equal}
use ironwood.Crypto.Order.{equal_iff}
use ironwood.Keyed.{KeyMap, lookup, get_or}
use ironwood.Messages.SigRes.{RouterSigRes}
use ironwood.Messages.Announce.{RouterAnnounce, RouterInfo}
use ironwood.Router.{Router, Peer}
use ironwood.Router.Update.{update, store, accepts}
use ironwood.Router.Handlers.{Output, zero_info, new_req, use_response, become_root}
use ironwood.Router.Handlers.Signing.{announced, own_announce-announced, become_root_succeeds}
use ironwood.Router.Parent.{
  Choice, choose, clear_reqs, send_req_loop, send_reqs, settled, root_or_wait, try_parent, fix,
}

module _ (ed : Ed25519) (r : Router) (own : r.public_key ≡ ed.public r.private_key)
    (fits : (get_or zero_info r.public_key r.infos).seq + 1 < 2 ^ 64) where
  abbrev Returns : Result (Router × List Output) → Type 0
  Returns result = (x : Router × List Output) × (result ≡ ok x)

  root_or_wait-Returns : Returns (root_or_wait ed r)
  unfolding root_or_wait
  root_or_wait-Returns = elim (Bool-cases r.do_root2) [
    | inl now ↦
        let (r', info, rooted, known, parent, seq) = become_root_succeeds ed r own fits in
        (settled ed r', ground (arith, now, rooted))
    | inr later ↦ elim (Bool-cases r.do_root1) [
      | inl wait ↦ ((r, []), ground (arith, later, wait))
      | inr start ↦ ((record r { do_root1 = true }, []), ground (arith, later, start))
    ]
  ]

  update_cases :
      (ann : RouterAnnounce) → (update r ann ≡ (true, store r ann)) ⊎ (update r ann ≡ (false, r))
  unfolding update
  update_cases ann = elim (Bool-cases (accepts (lookup ann.key r.infos) ann)) [
    | inl e ↦ inl (rw e)
    | inr e ↦ inr (rw e)
  ]

  use_response-update :
      (k : PublicKey) (res : RouterSigRes)
      → use_response ed r k res ≡ ok (update r (announced ed r k res))
  unfolding use_response
  use_response-update k res = rw (own_announce-announced ed r k res)

  try_parent-Returns :
      (best : Choice) (res : Option RouterSigRes) → Returns (try_parent ed r best res)
  unfolding try_parent
  try_parent-Returns best none = root_or_wait-Returns
  try_parent-Returns best (some res) = elim (Bool-cases (equal best.root r.public_key)) [
    | inl self ↦ (root_or_wait-Returns.0, rw self root_or_wait-Returns.1)
    | inr other ↦ elim (update_cases (announced ed r best.parent res)) [
      | inl e ↦ (
        settled ed (store r (announced ed r best.parent res)),
        rw (other, use_response-update best.parent res, e),
      )
      | inr e ↦ (
        root_or_wait-Returns.0,
        rw (other, use_response-update best.parent res, e) root_or_wait-Returns.1,
      )
    ]
  ]

  -- _fix returns, without a panic, where the node's public key is that of its private key and its own
  -- seq has not reached the last uint64.
  pub fix-Returns : (x : Router × List Output) × (fix ed r ≡ ok x)
  unfolding fix
  fix-Returns = elim (Bool-cases test) [
    | inl e ↦
        let (x, same) = try_parent-Returns (choose r) (lookup (choose r).parent r.responses) in
        (x, rw e same)
    | inr e ↦ ((r, []), rw e)
  ]
    where
      test : Bool
      test =
          r.refresh
          || (r.do_root1
              || (r.do_root2
                  || not (equal (get_or zero_info r.public_key r.infos).parent (choose r).parent)))

-- A new round of requests leaves the infos as they are, and the flags.
abbrev Kept : Router → Router → Type 0
Kept r s =
    (s.infos ≡ r.infos)
    × (s.public_key ≡ r.public_key)
    × (s.refresh ≡ r.refresh)
    × (s.do_root1 ≡ r.do_root1)
    × (s.do_root2 ≡ r.do_root2)

send_req_loop-Kept :
    (peers : KeyMap (List Peer)) (r : Router) (out : List Output)
    → Kept r (send_req_loop peers r out).0
unfolding send_req_loop new_req
send_req_loop-Kept [] r out = (refl, refl, refl, refl, refl)
send_req_loop-Kept ((k, ps) ∷ peers) r out = send_req_loop-Kept peers _ _

settled-Kept :
    (ed : Ed25519) (r : Router)
    → Kept (record r { refresh = false; do_root1 = false; do_root2 = false }) (settled ed r).0
unfolding settled send_reqs clear_reqs
settled-Kept ed r = send_req_loop-Kept r.peers _ []

root_or_wait-rooted :
    (ed : Ed25519) (r r' : Router)
    → r.do_root2 ≡ true
    → become_root ed r ≡ ok (true, r')
    → root_or_wait ed r ≡ ok (settled ed r')
unfolding root_or_wait
root_or_wait-rooted ed r r' now rooted = ground (arith, now, rooted)

try_parent-rooted :
    (ed : Ed25519) (r r' : Router) (best : Choice) (res : Option RouterSigRes)
    → r.do_root2 ≡ true
    → best.root ≡ r.public_key
    → become_root ed r ≡ ok (true, r')
    → try_parent ed r best res ≡ ok (settled ed r')
unfolding try_parent
try_parent-rooted ed r r' best none now self rooted = root_or_wait-rooted ed r r' now rooted
try_parent-rooted ed r r' best (some res) now self rooted =
    rw ((equal_iff best.root r.public_key).1 self) (root_or_wait-rooted ed r r' now rooted)

fix-rooted :
    (ed : Ed25519) (r r' : Router)
    → r.do_root2 ≡ true
    → (choose r).root ≡ r.public_key
    → become_root ed r ≡ ok (true, r')
    → fix ed r ≡ ok (settled ed r')
unfolding fix
fix-rooted ed r r' now self rooted =
    rw (due r.refresh r.do_root1 r.do_root2 _ now)
      (try_parent-rooted ed r r' (choose r) (lookup (choose r).parent r.responses) now self rooted)
  where
    due : (b c d e : Bool) → d ≡ true → (b || (c || (d || e))) ≡ true
    due b c d e h = ground (arith, h)

-- Where no better root was chosen and doRoot2 is set, _fix makes the node a root: its own parent,
-- under the next seq, with the three flags reset. The node's public key is that of its private key,
-- and its seq has not reached the last uint64.
pub fix_becomes_root :
    (ed : Ed25519) (r : Router)
    → r.public_key ≡ ed.public r.private_key
    → (get_or zero_info r.public_key r.infos).seq + 1 < 2 ^ 64
    → r.do_root2 ≡ true
    → (choose r).root ≡ r.public_key
    → (s : Router) × (out : List Output) × (info : RouterInfo) × (fix ed r ≡ ok (s, out))
      × (lookup r.public_key s.infos ≡ some info)
      × (info.parent ≡ r.public_key)
      × (info.seq ≡ (get_or zero_info r.public_key r.infos).seq + 1)
      × (s.refresh ≡ false)
      × (s.do_root1 ≡ false)
      × (s.do_root2 ≡ false)
fix_becomes_root ed r own fits now self =
    let (r', info, rooted, known, parent, seq) = become_root_succeeds ed r own fits in
    let kept = settled-Kept ed r' in
    (
      (settled ed r').0,
      (settled ed r').1,
      info,
      fix-rooted ed r r' now self rooted,
      rw (kept.0) known,
      parent,
      seq,
      kept.2,
      kept.3,
      kept.4,
    )
