-- ===== src/Router/Sent/Announces.antt =====
-- _sendAnnounces and addPeer send only infos that are there.
use mathlib.Core.List.{reverse-cons}
use ironwood.Base.{
  ℕ, zero, suc, ◌≡◌, refl, sym, ap, ◌∙◌, inl, inr, Bool, true, ◌||◌, List, [], ◌∷◌, ◌++◌, arith,
  Bool-cases, Option-cases, reverse, length,
}
use ironwood.Types.{ok}
use ironwood.Crypto.{PublicKey, equal}
use ironwood.Crypto.Order.{equal_iff, equal_refl}
use ironwood.Keyed.{
  KeyMap, lookup, has, get_or, contains, add_key, contains-add_key, Every, has-lookup,
  has-lookup-none,
}
use ironwood.Messages.Announce.{RouterAnnounce, get_announce}
use ironwood.Router.{Router}
use ironwood.Router.Tree.{Infos, ancestry_loop, backwards_ancestry, get_ancestry}
use ironwood.Router.Handlers.{Output}
use ironwood.Router.Announces.{get_unsent, prepare, send_to, announce_loop, send_announces}
use ironwood.Router.Sent.{IsKnown, IsSound}

contains-append :
    (k : PublicKey) (xs ys : List PublicKey)
    → contains k (xs ++ ys) ≡ (contains k xs || contains k ys)
unfolding contains
contains-append k [] ys = refl
contains-append k (x ∷ xs) ys = ground (arith, contains-append k xs ys)

contains-reverse : (k : PublicKey) (xs : List PublicKey) → contains k (reverse xs) ≡ contains k xs
unfolding contains
contains-reverse k [] = refl
contains-reverse k (x ∷ xs) =
    rw (reverse-cons x xs)
      (ground (arith, contains-append k (reverse xs) (x ∷ []), contains-reverse k xs))

known_head :
    (infos : Infos) (k : PublicKey) (ks : List PublicKey)
    → IsKnown (k ∷ ks) infos
    → has k infos ≡ true
unfolding IsKnown contains
known_head infos k ks h = h k (ground (arith, equal_refl k))

IsKnown-tail :
    (infos : Infos) (k : PublicKey) (ks : List PublicKey)
    → IsKnown (k ∷ ks) infos
    → IsKnown ks infos
unfolding IsKnown contains
IsKnown-tail infos k ks h j e = h j (ground (arith, e))

IsKnown-append :
    (infos : Infos) (anc : List PublicKey) (k : PublicKey)
    → IsKnown anc infos
    → has k infos ≡ true
    → IsKnown (anc ++ (k ∷ [])) infos
unfolding IsKnown contains
IsKnown-append infos anc k h found j e =
    ground (arith, rw (contains-append j anc (k ∷ [])) at e, h j, found, equal_iff k j)

IsKnown-add_key :
    (infos : Infos) (ks : List PublicKey) (k : PublicKey)
    → IsKnown ks infos
    → has k infos ≡ true
    → IsKnown (add_key k ks) infos
unfolding IsKnown
IsKnown-add_key infos ks k h found j e =
    ground (arith, contains-add_key k j ks, e, h j, found, equal_iff k j)

pub nil-IsKnown : (infos : Infos) → IsKnown [] infos
unfolding IsKnown contains
nil-IsKnown infos j e = absurd (ground (arith, e))

ancestry_loop-IsKnown :
    (fuel : ℕ) (infos : Infos) (here : PublicKey) (anc : List PublicKey)
    → IsKnown anc infos
    → IsKnown (ancestry_loop fuel infos here anc) infos
unfolding ancestry_loop
ancestry_loop-IsKnown zero infos here anc h = h
ancestry_loop-IsKnown (suc fuel) infos here anc h = elim (Bool-cases (contains here anc)) [
  | inl seen ↦ rw (seen, ancestry_loop) h
  | inr new ↦ elim (Option-cases (lookup here infos)) [
    | inl missing ↦ rw (new, ancestry_loop, missing) h
    | inr (info, found) ↦
        rw (new, ancestry_loop, found)
          (ancestry_loop-IsKnown fuel infos info.parent (anc ++ (here ∷ []))
            (IsKnown-append infos anc here h (has-lookup here infos info found)))
  ]
]

-- Every key of an ancestry has an info.
pub get_ancestry-IsKnown :
    (infos : Infos) (key : PublicKey) → IsKnown (get_ancestry infos key) infos
unfolding get_ancestry backwards_ancestry IsKnown contains
get_ancestry-IsKnown infos key j h =
    ancestry_loop-IsKnown (suc (length infos)) infos key [] (nil-IsKnown infos) j
      (sym (contains-reverse j (ancestry_loop (suc (length infos)) infos key [])) ∙ h)

-- What is known can be sent.
pub prepare-IsKnown :
    (infos : Infos) (ks : List PublicKey)
    → IsKnown ks infos
    → (anns : List RouterAnnounce) × (prepare infos ks ≡ ok anns)
unfolding prepare
prepare-IsKnown infos [] h = ([], refl)
prepare-IsKnown infos (k ∷ ks) h = elim (Option-cases (lookup k infos)) [
  | inl missing ↦ absurd (ground (arith, has-lookup-none k infos missing, known_head infos k ks h))
  | inr (info, found) ↦
      let (anns, rest) = prepare-IsKnown infos ks (IsKnown-tail infos k ks h) in
      (get_announce info k ∷ anns, rw (found, prepare, rest) refl)
]

get_unsent-IsKnown :
    (infos : Infos) (anc to_send sent : List PublicKey)
    → IsKnown anc infos
    → IsKnown to_send infos
    → IsKnown sent infos
    → IsKnown (get_unsent anc (to_send, sent)).0 infos
      × IsKnown (get_unsent anc (to_send, sent)).1 infos
unfolding get_unsent
get_unsent-IsKnown infos [] to_send sent ha ht hs = (ht, hs)
get_unsent-IsKnown infos (k ∷ anc) to_send sent ha ht hs = elim (Bool-cases (contains k sent)) [
  | inl seen ↦
      rw (seen, get_unsent)
        (get_unsent-IsKnown infos anc to_send sent (IsKnown-tail infos k anc ha) ht hs)
  | inr new ↦
      rw (new, get_unsent)
        (get_unsent-IsKnown infos anc (to_send ++ (k ∷ [])) (add_key k sent)
          (IsKnown-tail infos k anc ha)
          (IsKnown-append infos to_send k ht (known_head infos k anc ha))
          (IsKnown-add_key infos sent k hs (known_head infos k anc ha)))
]

-- Each entry of `sent` keeps its key, and what it marks is known.
announce_loop-IsKnown :
    (r : Router) (self_anc : List PublicKey) (sent : KeyMap (List PublicKey))
    → IsKnown self_anc r.infos
    → Every (λ ks. IsKnown ks r.infos) sent
    → (sent' : KeyMap (List PublicKey)) × (out : List Output) × (announce_loop r self_anc sent
        ≡ ok (sent', out))
      × Every (λ ks. IsKnown ks r.infos) sent'
      × ((k : PublicKey) → has k sent' ≡ has k sent)
unfolding announce_loop has
announce_loop-IsKnown r self_anc [] hs known = ([], [], refl, tt, λ k. refl)
announce_loop-IsKnown r self_anc ((peer_key, sent) ∷ rest) hs known =
    let own = get_unsent-IsKnown r.infos self_anc [] sent hs (nil-IsKnown r.infos) known.0 in
    let both =
      get_unsent-IsKnown r.infos (get_ancestry r.infos peer_key) (get_unsent self_anc ([], sent)).0
        (get_unsent self_anc ([], sent)).1 (get_ancestry-IsKnown r.infos peer_key) own.0 own.1 in
    let (anns, prepared) = prepare-IsKnown r.infos _ both.0 in
    let (others, out, looped, all, keys) = announce_loop-IsKnown r self_anc rest hs known.1 in
    (
      (peer_key, (get_unsent (get_ancestry r.infos peer_key) (get_unsent self_anc ([], sent))).1)
          ∷ others,
      send_to (get_or [] peer_key r.peers) anns ++ out,
      rw (prepared, looped) refl,
      (both.1, all),
      λ k. ap (λ (b : Bool). equal peer_key k || b) (keys k),
    )

-- _sendAnnounces returns without a panic, and what it then marks as sent is known.
pub send_announces-IsSound :
    (r : Router)
    → IsSound r
    → (r' : Router) × (out : List Output) × (send_announces r ≡ ok (r', out)) × IsSound r'
unfolding send_announces
send_announces-IsSound r s =
    let (sent, out, looped, known, keys) =
      announce_loop-IsKnown r (get_ancestry r.infos r.public_key) r.sent
        (get_ancestry-IsKnown r.infos r.public_key) s.known in
    (
      record r { sent = sent },
      out,
      rw (looped) refl,
      record { known = known; matched = λ k. keys k ∙ s.matched k },
    )
