-- ===== src/Router/Handlers.antt =====
-- The handlers of network/router.go for requests, responses and announcements, and the two ways
-- in which a node makes its own announcement. What a handler sends is a list of outputs.
pub mod Signing
use ironwood.Base.{
  ℕ, ◌+◌, ◌%◌, ◌^◌, Bool, true, false, not, ◌&&◌, List, [], ◌∷◌, ◌++◌, ◌==◌, if◌then◌else◌,
  replicate, Option, none, some,
}
use ironwood.Types.{Result, ok, panic, ◌>>=◌, ◌>>◌}
use ironwood.Crypto.{PublicKey, Signature, Ed25519, equal, signature_size}
use ironwood.Keyed.{lookup, has, get_or, insert, add_key}
use ironwood.Messages.SigReq.{RouterSigReq}
use ironwood.Messages.SigRes.{RouterSigRes}
use ironwood.Messages.SigRes
use ironwood.Messages.Announce.{RouterAnnounce, RouterInfo, get_announce}
use ironwood.Messages.Announce
use ironwood.Router.{Router, Peer}
use ironwood.Router.Tree.{zero_key}
use ironwood.Router.Update.{update, info_of, mark_sent}

-- What a handler does outside the router's maps: messages to a peer object, and calls of the blooms.
pub data Output : Type 0 where
  send_sig_req : Peer → RouterSigReq → Output
  send_sig_res : Peer → RouterSigRes → Output
  send_announce : Peer → RouterAnnounce → Output
  add_bloom remove_bloom : PublicKey → Output
  send_bloom : Peer → Output

abbrev pub zero_req : RouterSigReq
zero_req = record { seq = 0; nonce = 0 }

abbrev pub zero_sig : Signature
zero_sig = replicate 64 0

-- The value that a missing key of `infos` reads as.
abbrev pub zero_info : RouterInfo
zero_info = record {
  parent = zero_key;
  res = record { req = zero_req; port = 0; psig = zero_sig };
  sig = zero_sig;
}

-- `==` on the structs.
pub req_equal : RouterSigReq → RouterSigReq → Bool
req_equal a b = a.seq == b.seq && a.nonce == b.nonce

pub info_equal : RouterInfo → RouterInfo → Bool
unfolding req_equal
info_equal a b =
    equal a.parent b.parent
    && (req_equal a.req b.req && (a.port == b.port && (equal a.psig b.psig && equal a.sig b.sig)))

unfoldable pub new_req : Router → RouterSigReq × Router
new_req r = (
  record {
    seq = ((get_or zero_info r.public_key r.infos).seq + 1) % 2 ^ 64;
    nonce = r.random r.drawn % 2 ^ 64;
  },
  record r { drawn = r.drawn + 1 },
)

module _ (ed : Ed25519) where
  -- The response to a request, signed over both keys, the request and the port.
  pub signed_res : Router → RouterSigReq → ℕ → PublicKey → Result RouterSigRes
  signed_res r req port node = do
    bs ← SigRes.bytes_for_sig (record { req = req; port = port; psig = zero_sig }) node r.public_key
    ok (record { req = req; port = port; psig = ed.sign r.private_key bs })

  pub handle_request : Router → Peer → RouterSigReq → Result (Router × List Output)
  handle_request r p req = do res ← signed_res r req p.port p.key; ok (r, send_sig_res p res ∷ [])

  -- The announcement with which a node takes `peer_key` for its parent.
  pub own_announce : Router → PublicKey → RouterSigRes → Result RouterAnnounce
  unfolding get_announce
  own_announce r peer_key res = do
    bs ← SigRes.bytes_for_sig res r.public_key peer_key
    let sig = ed.sign r.private_key bs
    ok (get_announce (record { parent = peer_key; res = res; sig = sig }) r.public_key)

  unfoldable pub use_response : Router → PublicKey → RouterSigRes → Result (Bool × Router)
  use_response r peer_key res = do ann ← own_announce r peer_key res; ok (update r ann)

  -- The announcement with which a node becomes a root: its own parent, on port zero.
  pub root_announce : Router → RouterSigReq → Result RouterAnnounce
  root_announce r req = do
    res ← signed_res r req 0 r.public_key
    ok (record { key = r.public_key; parent = r.public_key; res = res; sig = res.psig })

  unfoldable pub become_root : Router → Result (Bool × Router)
  unfolding root_announce
  become_root r = do
    let (req, r') = new_req r
    ann ← root_announce r' req
    checked ← Announce.check ed ann
    if checked then ok (update r' ann) else panic

unfoldable pub handle_response : Router → Peer → RouterSigRes → Router
unfolding req_equal
handle_response r p res =
    if not (has p.key r.responses) && req_equal (get_or zero_req p.key r.requests) res.req
    then record r {
      res_seq_ctr = r.res_seq_ctr + 1;
      res_seqs = insert p.key (r.res_seq_ctr + 1) r.res_seqs;
      responses = insert p.key res r.responses;
    }
    else r

unfoldable pub handle_announce : Router → Peer → RouterAnnounce → Result (Router × List Output)
handle_announce r p ann =
    let (accepted, r') = update r ann in
    let old = get_or zero_info ann.key r'.infos in
    let learned = do
      r'' ←
          mark_sent (if equal ann.key r.public_key then record r' { refresh = true } else r') p.key
            ann.key
      ok (r'', [])
    in let told = do
      r'' ← mark_sent r' p.key ann.key
      ok (r'', send_announce p (get_announce old ann.key) ∷ [])
      in let known = do r'' ← mark_sent r' p.key ann.key; ok (r'', [])
        in if accepted then learned else if not (info_equal (info_of ann) old) then told else known
