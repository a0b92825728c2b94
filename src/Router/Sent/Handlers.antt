-- ===== src/Router/Sent/Handlers.antt =====
-- The handlers of network/router.go keep what was sent and what is known together.
use ironwood.Base.{
  ◌≡◌, refl, sym, ap, ◌∙◌, inl, inr, Bool, true, false, not, ◌||◌, List, [], ◌∷◌, ◌++◌,
  if◌then◌else◌, arith, Bool-cases, Option-cases, length, map, ◌==◌,
}
use ironwood.Types.{ok}
use ironwood.Crypto.{PublicKey, equal}
use ironwood.Crypto.Order.{equal_iff, equal_refl}
use ironwood.Keyed.{
  lookup, has, get_or, insert, has-insert, has-delete, Every-insert, Every-delete, Every-lookup,
}
use ironwood.Messages.Announce.{RouterAnnounce, get_announce}
use ironwood.Router.{Router, Peer}
use ironwood.Router.Update.{update, info_of}
use ironwood.Router.Handlers.{
  Output, new_req, handle_announce, info_equal, zero_info, send_announce, add_bloom, send_bloom,
}
use ironwood.Router.PeerSet.{
  greet, request, add_object, delete_object, add_peer, remove_peer, insert_port,
}
use ironwood.Router.Sent.{IsKnown, IsSound, update-IsSound, mark_sent-IsSound}
use ironwood.Router.Sent.Announces.{nil-IsKnown, prepare-IsKnown}

-- What changes none of the three maps.
abbrev pub Same : Router → Router → Type 0
Same r s = (s.sent ≡ r.sent) × (s.infos ≡ r.infos) × (s.peers ≡ r.peers)

pub Same-IsSound : (r s : Router) → Same r s → IsSound r → IsSound s
Same-IsSound r s (sent, infos, peers) h = record {
  known = rw (sent, infos) h.known;
  matched = λ k. rw (sent, peers) (h.matched k);
}

request-Same : (r : Router) (p : Peer) → Same r (request r p).0
unfolding request new_req
request-Same r p = elim (Bool-cases (has p.key r.responses)) [
  | inl there ↦ rw (there) (refl, refl, refl)
  | inr lacks ↦ elim (Bool-cases (has p.key r.requests)) [
    | inl asked ↦ rw (lacks, asked) (refl, refl, refl)
    | inr new ↦ rw (lacks, new) (refl, refl, refl)
  ]
]

get_or-IsKnown : (r : Router) (k : PublicKey) → IsSound r → IsKnown (get_or [] k r.sent) r.infos
unfolding get_or
get_or-IsKnown r k s = elim (Option-cases (lookup k r.sent)) [
  | inl missing ↦ rw (missing, get_or) (nil-IsKnown r.infos)
  | inr (ks, found) ↦
      rw (found, get_or) (Every-lookup (λ ks. IsKnown ks r.infos) k r.sent ks found s.known)
]

pub greet-IsSound :
    (r : Router) (p : Peer)
    → IsSound r
    → (r' : Router) × (out : List Output) × (greet r p ≡ ok (r', out))
      × IsSound r'
      × (has p.key r'.peers ≡ true)
unfolding greet
greet-IsSound r p s = elim (Bool-cases (has p.key r.peers)) [
  | inl known ↦
      let (anns, prepared) =
        prepare-IsKnown r.infos (get_or [] p.key r.sent) (get_or-IsKnown r p.key s) in
      (r, map (send_announce p) anns, rw (known, prepared) refl, s, known)
  | inr new ↦ (
    record r {
      peers = insert p.key [] r.peers;
      sent = insert p.key [] r.sent;
      ports = insert_port p.port p.key r.ports;
    },
    add_bloom p.key ∷ [],
    rw (new) refl,
    record {
      known = Every-insert _ p.key [] r.sent (nil-IsKnown r.infos) s.known;
      matched = λ k.
          has-insert p.key k [] r.sent
          ∙ ap (λ (b : Bool). equal p.key k || b) (s.matched k)
          ∙ sym (has-insert p.key k [] r.peers);
    },
    has-insert p.key p.key [] r.peers ∙ rw (equal_refl p.key) refl,
  )
]

pub add_peer-IsSound :
    (r : Router) (p : Peer)
    → IsSound r
    → (r' : Router) × (out : List Output) × (add_peer r p ≡ ok (r', out)) × IsSound r'
unfolding add_peer
add_peer-IsSound r p s =
    let (r1, out1, greeted, s1, here) = greet-IsSound r p s in
    let r2 : Router = record r1 {
      peers = insert p.key (add_object p (get_or [] p.key r1.peers)) r1.peers;
    } in
    let s2 : IsSound r2 = record {
      known = s1.known;
      matched = λ k. ground (
        arith,
        has-insert p.key k (add_object p (get_or [] p.key r1.peers)) r1.peers,
        s1.matched k,
        here,
        equal_iff p.key k,
      );
    } in
    (
      (request r2 p).0,
      out1 ++ ((request r2 p).1 ++ (send_bloom p ∷ [])),
      rw (greeted) refl,
      Same-IsSound r2 (request r2 p).0 (request-Same r2 p) s2,
    )

pub remove_peer-IsSound :
    (r : Router) (p : Peer) → IsSound r → has p.key r.peers ≡ true → IsSound (remove_peer r p).0
unfolding remove_peer
remove_peer-IsSound r p s here =
    elim (Bool-cases (length (delete_object p (get_or [] p.key r.peers)) == 0)) [
      | inl last ↦ rw (last) (record {
        known = Every-delete _ p.key r.sent s.known;
        matched = λ k.
            has-delete p.key k r.sent
            ∙ ap (λ (b : Bool). if equal p.key k then false else b) (s.matched k)
            ∙ sym (has-delete p.key k r.peers);
      })
      | inr others ↦ rw (others) (record {
        known = s.known;
        matched = λ k. ground (
          arith,
          has-insert p.key k (delete_object p (get_or [] p.key r.peers)) r.peers,
          s.matched k,
          here,
          equal_iff p.key k,
        );
      })
    ]

-- An announcement from a peer.
pub handle_announce-IsSound :
    (r : Router) (p : Peer) (ann : RouterAnnounce)
    → IsSound r
    → has p.key r.peers ≡ true
    → (r' : Router) × (out : List Output) × (handle_announce r p ann ≡ ok (r', out)) × IsSound r'
unfolding handle_announce
handle_announce-IsSound r p ann s here =
    let (s1, known, peers, key) = update-IsSound r ann s in
    let r1 = (update r ann).1 in
    let here1 : has p.key r1.peers ≡ true = rw (peers) here in
    let (r2, marked, s2, same) = mark_sent-IsSound r1 p.key ann.key s1 here1 known in
    let fresh : Router = record r1 { refresh = true } in
    let (r3, marked', s3, same') =
      mark_sent-IsSound fresh p.key ann.key (Same-IsSound r1 fresh (refl, refl, refl) s1) here1
        known in
    elim (Bool-cases (update r ann).0) [
      | inl accepted ↦ elim (Bool-cases (equal ann.key r.public_key)) [
        | inl own ↦ (r3, [], rw (accepted, own, marked') refl, s3)
        | inr other ↦ (r2, [], rw (accepted, other, marked) refl, s2)
      ]
      | inr stale ↦
          elim (Bool-cases (not (info_equal (info_of ann) (get_or zero_info ann.key r1.infos)))) [
            | inl differs ↦ (
              r2,
              send_announce p (get_announce (get_or zero_info ann.key r1.infos) ann.key) ∷ [],
              rw (stale, differs, marked) refl,
              s2,
            )
            | inr alike ↦ (r2, [], rw (stale, alike, marked) refl, s2)
          ]
    ]
