-- ===== src/Router/Sent.antt =====
-- What was sent to a peer is known: the invariant behind the panics of network/router.go.
pub mod Announces
pub mod Handlers
pub mod Fix
pub mod Steps
pub mod Tests
use ironwood.Base.{
  ℕ, ◌+◌, ◌≡◌, ◌⊎◌, refl, sym, ap, ◌∙◌, subst, inl, inr, Bool, true, false, not, ◌&&◌, ◌||◌, List,
  [], ◌∷◌, ◌++◌, Option, none, some, if◌then◌else◌, arith, Bool-cases, Option-cases,
}
use ironwood.Types.{Result, ok, panic}
use ironwood.Crypto.{PublicKey, equal}
use ironwood.Crypto.Order.{equal_iff, equal_refl}
use ironwood.Keyed.{
  KeyMap, lookup, has, get_or, insert, delete, map_values, contains, add_key, delete_key,
  has-insert, has-delete, has-map_values, Every, Every-insert, Every-map_values, Every-lookup,
  contains-add_key, contains-delete_key, has-lookup, has-lookup-none,
}
use ironwood.Messages.Announce.{RouterAnnounce, RouterInfo}
use ironwood.Router.{Router, Peer}
use ironwood.Router.Update.{
  update, info_of, store, accepts, reset_cache, expire, is_timer, timer_fires, mark_sent,
}

-- Every key of a list has an info.
pub IsKnown : List PublicKey → KeyMap RouterInfo → Type 0
IsKnown ks infos = (j : PublicKey) → contains j ks ≡ true → has j infos ≡ true

-- What is marked as sent to a peer has an info, and just the peers have such marks.
pub record IsSound (r : Router) : Type 0 where
  pub known : Every (λ ks. IsKnown ks r.infos) r.sent
  pub matched : (k : PublicKey) → has k r.sent ≡ has k r.peers

IsKnown-insert :
    (key : PublicKey) (info : RouterInfo) (infos : KeyMap RouterInfo) (ks : List PublicKey)
    → IsKnown ks infos
    → IsKnown (delete_key key ks) (insert key info infos)
unfolding IsKnown
IsKnown-insert key info infos ks h j e =
    ground (arith, h j, rw (contains-delete_key key j ks) at e, has-insert key j info infos)

IsKnown-delete :
    (key : PublicKey) (infos : KeyMap RouterInfo) (ks : List PublicKey)
    → IsKnown ks infos
    → IsKnown (delete_key key ks) (delete key infos)
unfolding IsKnown
IsKnown-delete key infos ks h j e =
    ground (arith, h j, rw (contains-delete_key key j ks) at e, has-delete key j infos)

store-IsSound : (r : Router) (ann : RouterAnnounce) → IsSound r → IsSound (store r ann)
unfolding store reset_cache
store-IsSound r ann s = record {
  known =
      Every-map_values (λ ks. IsKnown ks r.infos) _ (delete_key ann.key) r.sent
        (IsKnown-insert ann.key (info_of ann) r.infos) s.known;
  matched = λ k. has-map_values (delete_key ann.key) k r.sent ∙ s.matched k;
}

expire-IsSound : (r : Router) (key : PublicKey) → IsSound r → IsSound (expire r key)
unfolding expire reset_cache
expire-IsSound r key s = record {
  known =
      Every-map_values (λ ks. IsKnown ks r.infos) _ (delete_key key) r.sent
        (IsKnown-delete key r.infos) s.known;
  matched = λ k. has-map_values (delete_key key) k r.sent ∙ s.matched k;
}

pub timer_fires-IsSound :
    (r : Router) (key : PublicKey) (timer : ℕ) → IsSound r → IsSound (timer_fires r key timer)
unfolding timer_fires
timer_fires-IsSound r key timer s = elim (Bool-cases (is_timer (lookup key r.timers) timer)) [
  | inl now ↦ elim (Bool-cases (equal key r.public_key)) [
    | inl own ↦ rw (now, own) (record { known = s.known; matched = s.matched })
    | inr other ↦ rw (now, other) (expire-IsSound r key s)
  ]
  | inr late ↦ rw (late) s
]

stale_known :
    (r : Router) (ann : RouterAnnounce)
    → accepts (lookup ann.key r.infos) ann ≡ false
    → has ann.key r.infos ≡ true
unfolding accepts
stale_known r ann stale = elim (Option-cases (lookup ann.key r.infos)) [
  | inl missing ↦
      absurd
        (ground (arith, subst (λ (o : Option RouterInfo). accepts o ann ≡ false) missing stale))
  | inr (info, found) ↦ has-lookup ann.key r.infos info found
]

-- After _update the announcement's key has an info.
pub update-IsSound :
    (r : Router) (ann : RouterAnnounce)
    → IsSound r
    → IsSound (update r ann).1
      × (has ann.key (update r ann).1.infos ≡ true)
      × ((update r ann).1.peers ≡ r.peers)
      × ((update r ann).1.public_key ≡ r.public_key)
unfolding update store reset_cache
update-IsSound r ann s = elim (Bool-cases (accepts (lookup ann.key r.infos) ann)) [
  | inl fits ↦ rw (fits) (
    store-IsSound r ann s,
    ground (arith, has-insert ann.key ann.key (info_of ann) r.infos, equal_refl ann.key),
    refl,
    refl,
  )
  | inr stale ↦ rw (stale) (s, stale_known r ann stale, refl, refl)
]

-- A mark for a key that has an info.
pub mark_sent-IsSound :
    (r : Router) (peer_key key : PublicKey)
    → IsSound r
    → has peer_key r.peers ≡ true
    → has key r.infos ≡ true
    → (r' : Router) × (mark_sent r peer_key key ≡ ok r') × IsSound r' × (r'.peers ≡ r.peers)
unfolding mark_sent IsKnown
mark_sent-IsSound r peer_key key s here info = elim (Option-cases (lookup peer_key r.sent)) [
  | inl missing ↦
      absurd (ground (arith, has-lookup-none peer_key r.sent missing, s.matched peer_key, here))
  | inr (keys, found) ↦ (
    record r { sent = insert peer_key (add_key key keys) r.sent },
    rw (found, mark_sent) refl,
    record {
      known =
          Every-insert _ peer_key (add_key key keys) r.sent
            (marked keys
              (Every-lookup (λ ks. IsKnown ks r.infos) peer_key r.sent keys found s.known))
            s.known;
      matched = λ k. ground (
        arith,
        has-insert peer_key k (add_key key keys) r.sent,
        s.matched k,
        equal_iff peer_key k,
        here,
      );
    },
    refl,
  )
]
  where
    marked : (keys : List PublicKey) → IsKnown keys r.infos → IsKnown (add_key key keys) r.infos
    marked keys h j e = ground (arith, contains-add_key key j keys, e, equal_iff key j, info, h j)
