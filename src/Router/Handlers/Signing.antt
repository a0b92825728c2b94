-- ===== src/Router/Handlers/Signing.antt =====
-- The handshake between a node and its parent, and what verifies under whose key.
use ironwood.Base.{
  ℕ, ◌+◌, ◌^◌, ◌<◌, ◌≡◌, ◌≢◌, refl, ap, ◌∙◌, Bool, true, [], ◌∷◌, arith, some, Option-cases, inl,
  inr,
}
use ironwood.Types.{ok}
use ironwood.Wire.{Bytes}
use ironwood.Crypto.{PublicKey, Ed25519}
use ironwood.Crypto.Order.{equal_refl}
use ironwood.Keyed.{lookup, get_or, lookup-insert_self, get_or-lookup}
use ironwood.Messages.SigReq.{RouterSigReq}
use ironwood.Messages.SigRes
use ironwood.Messages.SigRes.{RouterSigRes, sig_bytes, bytes_for_sig-sig_bytes}
use ironwood.Messages.Announce.{RouterAnnounce, RouterInfo, get_announce}
use ironwood.Messages.Announce
use ironwood.Router.{Router, Peer}
use ironwood.Router.Update.{update, info_of, store, accepts, supersedes}
use ironwood.Router.Handlers.{
  send_sig_res, zero_sig, zero_info, new_req, signed_res, handle_request, own_announce,
  root_announce, become_root,
}

module _ (ed : Ed25519) where
  -- A response as a node signs it.
  pub response : Router → RouterSigReq → ℕ → PublicKey → RouterSigRes
  response r req port node = record {
    req = req;
    port = port;
    psig = ed.sign r.private_key (sig_bytes req port node r.public_key);
  }

  signed_res-response :
      (r : Router) (req : RouterSigReq) (port : ℕ) (node : PublicKey)
      → signed_res ed r req port node ≡ ok (response r req port node)
  unfolding signed_res response
  signed_res-response r req port node = rw (
      bytes_for_sig-sig_bytes (record { req = req; port = port; psig = zero_sig }) node
        r.public_key)

  -- A node's signatures verify under its key.
  own_verify :
      (r : Router) (m : Bytes)
      → r.public_key ≡ ed.public r.private_key
      → ed.verify r.public_key m (ed.sign r.private_key m) ≡ true
  own_verify r m own =
      ap (λ (k : PublicKey). ed.verify k m (ed.sign r.private_key m)) own
      ∙ ed.verify-sign r.private_key m

  response-check :
      (r : Router) (req : RouterSigReq) (port : ℕ) (node : PublicKey)
      → r.public_key ≡ ed.public r.private_key
      → SigRes.check ed (response r req port node) node r.public_key ≡ ok true
  unfolding SigRes.check response
  response-check r req port node own =
      rw (bytes_for_sig-sig_bytes (response r req port node) node r.public_key)
        (ap (λ (b : Bool). ok b) (own_verify r (sig_bytes req port node r.public_key) own))

  -- The announcement that a node makes of a response.
  pub announced : Router → PublicKey → RouterSigRes → RouterAnnounce
  announced r parent res = record {
    key = r.public_key;
    parent = parent;
    res = res;
    sig = ed.sign r.private_key (sig_bytes res.req res.port r.public_key parent);
  }

  pub own_announce-announced :
      (r : Router) (parent : PublicKey) (res : RouterSigRes)
      → own_announce ed r parent res ≡ ok (announced r parent res)
  unfolding own_announce announced
  own_announce-announced r parent res = rw (bytes_for_sig-sig_bytes res r.public_key parent)

  announced-check :
      (child parent : Router) (req : RouterSigReq) (port : ℕ)
      → child.public_key ≡ ed.public child.private_key
      → parent.public_key ≡ ed.public parent.private_key
      → port ≢ 0
      → Announce.check ed
          (announced child parent.public_key (response parent req port child.public_key))
        ≡ ok true
  unfolding Announce.check response announced
  announced-check child parent req port own_child own_parent nonzero =
      rw
        (
          bytes_for_sig-sig_bytes (response parent req port child.public_key) child.public_key
              parent.public_key,
          own_verify child (sig_bytes req port child.public_key parent.public_key) own_child,
          own_verify parent (sig_bytes req port child.public_key parent.public_key) own_parent,
        )
        (ground (arith, nonzero))

  -- A request that reaches a peer is answered with a response that repeats it, holds the peer's port
  -- for the node and passes the asking node's check, and the announcement that the node makes of it
  -- passes the check of every node. The keys of both are those of their private keys, and the peer's
  -- port for the node is not zero.
  pub handshake-check :
      (child parent : Router) (p : Peer) (req : RouterSigReq)
      → child.public_key ≡ ed.public child.private_key
      → parent.public_key ≡ ed.public parent.private_key
      → p.key ≡ child.public_key
      → p.port ≢ 0
      → (res : RouterSigRes) × (ann : RouterAnnounce) × (handle_request ed parent p req
          ≡ ok (parent, send_sig_res p res ∷ []))
        × (res.req ≡ req)
        × (res.port ≡ p.port)
        × (SigRes.check ed res child.public_key parent.public_key ≡ ok true)
        × (own_announce ed child parent.public_key res ≡ ok ann)
        × (Announce.check ed ann ≡ ok true)
  unfolding handle_request response
  handshake-check child parent p req own_child own_parent here nonzero = (
    response parent req p.port child.public_key,
    announced child parent.public_key (response parent req p.port child.public_key),
    rw (here, signed_res-response parent req p.port child.public_key),
    refl,
    refl,
    response-check parent req p.port child.public_key own_parent,
    own_announce-announced child parent.public_key _,
    announced-check child parent req p.port own_child own_parent nonzero,
  )

  rooted : Router → RouterSigReq → RouterAnnounce
  unfolding response
  rooted r req =
      let res = response r req 0 r.public_key in
      record { key = r.public_key; parent = r.public_key; res = res; sig = res.psig }

  root_announce-rooted :
      (r : Router) (req : RouterSigReq) → root_announce ed r req ≡ ok (rooted r req)
  unfolding root_announce rooted
  root_announce-rooted r req = rw (signed_res-response r req 0 r.public_key)

  rooted-check :
      (r : Router) (req : RouterSigReq)
      → r.public_key ≡ ed.public r.private_key
      → Announce.check ed (rooted r req) ≡ ok true
  unfolding Announce.check rooted
  rooted-check r req own = rw (
    bytes_for_sig-sig_bytes (response r req 0 r.public_key) r.public_key r.public_key,
    own_verify r (sig_bytes req 0 r.public_key r.public_key) own,
    equal_refl r.public_key,
  )

  -- A newer seq is accepted, whatever the rest.
  newer-accepts :
      (r : Router) (req : RouterSigReq)
      → (get_or zero_info r.public_key r.infos).seq < req.seq
      → accepts (lookup r.public_key r.infos) (rooted r req) ≡ true
  unfolding accepts supersedes rooted
  newer-accepts r req h = elim (Option-cases (lookup r.public_key r.infos)) [
    | inl e ↦ rw e refl
    | inr (i, e) ↦
        let newer : i.seq < req.seq = rw (get_or-lookup zero_info r.public_key i r.infos e) at h in
        rw e (ground (arith, newer))
  ]

  update-rooted :
      (r : Router) (req : RouterSigReq)
      → (get_or zero_info r.public_key r.infos).seq < req.seq
      → update r (rooted r req) ≡ (true, store r (rooted r req))
  unfolding update rooted
  update-rooted r req h = rw (newer-accepts r req h)

  become_root-rooted :
      (r : Router)
      → r.public_key ≡ ed.public r.private_key
      → become_root ed r ≡ ok (update (new_req r).1 (rooted (new_req r).1 (new_req r).0))
  unfolding become_root
  become_root-rooted r own = rw (
    root_announce-rooted (new_req r).1 (new_req r).0,
    rooted-check (new_req r).1 (new_req r).0 (unfold new_req in own),
  )

  -- A node whose seq has not reached the last uint64, and whose public key is that of its private
  -- key, can always become a root: the announcement passes the node's own check and replaces what
  -- the node knew of itself, with the next seq.
  pub become_root_succeeds :
      (r : Router)
      → r.public_key ≡ ed.public r.private_key
      → (get_or zero_info r.public_key r.infos).seq + 1 < 2 ^ 64
      → (r' : Router) × (info : RouterInfo) × (become_root ed r ≡ ok (true, r'))
        × (lookup r.public_key r'.infos ≡ some info)
        × (info.parent ≡ r.public_key)
        × (info.seq ≡ (get_or zero_info r.public_key r.infos).seq + 1)
  unfolding store info_of rooted new_req
  become_root_succeeds r own fits = (
    store (new_req r).1 (rooted (new_req r).1 (new_req r).0),
    info_of (rooted (new_req r).1 (new_req r).0),
    become_root-rooted r own
        ∙ ap ok (update-rooted (new_req r).1 (new_req r).0 (omega (arith, fits))),
    lookup-insert_self r.public_key _ r.infos,
    refl,
    omega (arith, fits),
  )
