-- ===== src/Router/Sent/Steps.antt =====
-- Every state that the router of network/router.go reaches.
use ironwood.Base.{
  ℕ, ◌≡◌, refl, sym, subst, ◌∙◌, inl, inr, Bool-cases, not, ◌&&◌, ◌++◌, true, List, ◌||◌,
}
use ironwood.Types.{ok}
use ironwood.Crypto.{PublicKey, PrivateKey, Ed25519}
use ironwood.Keyed.{has, get_or}
use ironwood.Messages.SigRes.{RouterSigRes}
use ironwood.Messages.Announce.{RouterAnnounce}
use ironwood.Router.{Router, Peer}
use ironwood.Router.Update.{timer_fires, reset_cache}
use ironwood.Router.Handlers.{Output, zero_req, req_equal, handle_response, handle_announce}
use ironwood.Router.Parent.{fix}
use ironwood.Router.Announces.{update_ancestries, send_announces}
use ironwood.Router.PeerSet.{add_peer, remove_peer}
use ironwood.Router.Maintenance.{init, maintain}
use ironwood.Router.Sent.{IsSound, timer_fires-IsSound}
use ironwood.Router.Sent.Announces.{send_announces-IsSound}
use ironwood.Router.Sent.Handlers.{
  Same, Same-IsSound, add_peer-IsSound, remove_peer-IsSound, handle_announce-IsSound,
}
use ironwood.Router.Sent.Fix.{Keeps, Sound, ok-Keeps, bind-Keeps, fix-IsSound}

module _ (ed : Ed25519) where
  -- What the actor runs, one at a time: peers come and go, messages arrive from peers, timers fire and
  -- maintenance is done.
  pub data Step (r : Router) : Router → Type 0 where
    adds : {r' : Router} {out : List Output} (p : Peer) → add_peer r p ≡ ok (r', out) → Step r r'
    removes : (p : Peer) → has p.key r.peers ≡ true → Step r (remove_peer r p).0
    responds : (p : Peer) (res : RouterSigRes) → Step r (handle_response r p res)
    announces :
        {r' : Router} {out : List Output} (p : Peer) (ann : RouterAnnounce)
        → has p.key r.peers ≡ true
        → handle_announce r p ann ≡ ok (r', out)
        → Step r r'
    fires : (key : PublicKey) (timer : ℕ) → Step r (timer_fires r key timer)
    maintains : {r' : Router} {out : List Output} → maintain ed r ≡ ok (r', out) → Step r r'

  pub data Reaches (r : Router) : Router → Type 0 where
    here : Reaches r r
    then_ : {s t : Router} → Reaches r s → Step s t → Reaches r t

  handle_response-Same :
      (r : Router) (p : Peer) (res : RouterSigRes) → Same r (handle_response r p res)
  unfolding handle_response
  handle_response-Same r p res =
      elim (Bool-cases
        (not (has p.key r.responses) && req_equal (get_or zero_req p.key r.requests) res.req)) [
          | inl fits ↦ rw (fits) (refl, refl, refl)
          | inr other ↦ rw (other) (refl, refl, refl)
        ]

  maintain-Keeps : (r : Router) → IsSound r → Keeps Sound (maintain ed r)
  unfolding maintain update_ancestries reset_cache Keeps
  maintain-Keeps r s =
      let r1 = update_ancestries (reset_cache (record r { do_root2 = r.do_root2 || r.do_root1 })) in
      bind-Keeps Sound Sound (fix ed r1) _
        (λ x e. fix-IsSound ed r1 x.0 x.1 e (Same-IsSound r r1 (refl, refl, refl) s))
        (λ x h.
          bind-Keeps Sound Sound (send_announces x.0) _ (λ y e. announces-IsSound x.0 y h e)
            (λ y h'. ok-Keeps Sound Sound (y.0, x.1 ++ y.1) h'))
    where
      announces-IsSound :
          (r : Router) (y : Router × List Output)
          → IsSound r
          → send_announces r ≡ ok y
          → IsSound y.0
      announces-IsSound r y s e =
          let (r', out, sends, s') = send_announces-IsSound r s in
          let same : ok y ≡ ok (r', out) = sym e ∙ sends in subst IsSound (cc (same)) s'

  Step-IsSound : (r r' : Router) → IsSound r → Step r r' → IsSound r'
  unfolding Keeps
  Step-IsSound r r' s (adds {out} p e) =
      let (r1, out1, adds1, s1) = add_peer-IsSound r p s in
      let same : ok (r1, out1) ≡ ok (r', out) = sym adds1 ∙ e in subst IsSound (cc (same)) s1
  Step-IsSound r _ s (removes p h) = remove_peer-IsSound r p s h
  Step-IsSound r _ s (responds p res) = Same-IsSound r _ (handle_response-Same r p res) s
  Step-IsSound r r' s (announces {out} p ann h e) =
      let (r1, out1, takes, s1) = handle_announce-IsSound r p ann s h in
      let same : ok (r1, out1) ≡ ok (r', out) = sym takes ∙ e in subst IsSound (cc (same)) s1
  Step-IsSound r _ s (fires key timer) = timer_fires-IsSound r key timer s
  Step-IsSound r r' s (maintains {out} e) = maintain-Keeps r s (r', out) e

  init-IsSound : (k : PrivateKey) (random : ℕ → ℕ) → IsSound (init ed k random)
  unfolding init has
  init-IsSound k random = record { known = tt; matched = λ j. refl }

  Reaches-IsSound : (r r' : Router) → IsSound r → Reaches r r' → IsSound r'
  Reaches-IsSound r _ s here = s
  Reaches-IsSound r r' s (then_ {s = m} path step) =
      Step-IsSound m r' (Reaches-IsSound r m s path) step

  -- In every state that a router reaches from its start, what is marked as sent to a peer has an info, and
  -- just the peers have such marks. So addPeer, announcements from a peer and _sendAnnounces never
  -- panic.
  pub Reaches-never_panics :
      (k : PrivateKey) (random : ℕ → ℕ) (r : Router)
      → Reaches (init ed k random) r
      → IsSound r
        × ((p : Peer) → (r' : Router) × (out : List Output) × (add_peer r p ≡ ok (r', out)))
        × ((p : Peer) (ann : RouterAnnounce)
            → has p.key r.peers ≡ true
            → (r' : Router) × (out : List Output) × (handle_announce r p ann ≡ ok (r', out)))
        × ((r' : Router) × (out : List Output) × (send_announces r ≡ ok (r', out)))
  Reaches-never_panics k random r path =
      let s = Reaches-IsSound (init ed k random) r (init-IsSound k random) path in
      (
        s,
        λ p. let (r', out, e, s') = add_peer-IsSound r p s in (r', out, e),
        λ p ann h. let (r', out, e, s') = handle_announce-IsSound r p ann s h in (r', out, e),
        (let (r', out, e, s') = send_announces-IsSound r s in (r', out, e)),
      )
