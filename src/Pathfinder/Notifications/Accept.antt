-- ===== src/Pathfinder/Notifications/Accept.antt =====
-- When _handleNotify changes what a node knows of a path.
use ironwood.Base.{
  ℕ, ◌<◌, ◌≡◌, refl, sym, ◌∙◌, ◌⊎◌, inl, inr, true, false, List, [], ◌∷◌, Option, none, some, leb,
  ltb, arith, Bool-cases, Option-cases,
}
use ironwood.Crypto.{PublicKey, Ed25519, equal}
use ironwood.Crypto.Order.{equal_iff}
use ironwood.Keyed.{has, insert, lookup-insert}
use ironwood.Keyed
use ironwood.Messages.NotifyInfo
use ironwood.Messages.Notify.{PathNotify, check}
use ironwood.Router.{Router}
use ironwood.Wire.{PeerPort}
use ironwood.Router.Distance.{get_dist}
use ironwood.Router.NextHop.{lookup}
use ironwood.Pathfinder.{PathInfo, Node, Config, Effect, reset_timer}
use ironwood.Pathfinder.Notifications.{
  stored, new_path, answered, save_path, renew, admit, deliver, handle_notify,
}

-- A path that was known is replaced by a later seq only; one that was not known answers a rumor.
abbrev pub Fresh : Config → Node → PathNotify → Option PathInfo → Type 0
Fresh config n notify none = has (config.transform notify.source) n.rumors ≡ true
Fresh config n notify (some info) = info.seq < notify.info.seq

-- The notification is for this node, its signature verifies, it is fresh, and the path that is then
-- known is the one it carries.
pub record IsAccepted (ed : Ed25519) (config : Config) (n : Node) (notify : PathNotify)
    (after : Option PathInfo) : Type 0 where
  pub own : notify.dest ≡ n.router.public_key
  pub signed : check ed notify ≡ true
  pub fresh : Fresh config n notify (Keyed.lookup notify.source n.paths)
  pub info : PathInfo
  pub known : after ≡ some info
  pub path : info.path ≡ notify.info.path
  pub seq : info.seq ≡ notify.info.seq
  pub mended : info.broken ≡ false

abbrev pub Outcome : Ed25519 → Config → Node → PathNotify → PublicKey → Node → Type 0
Outcome ed config n notify k after =
    (Keyed.lookup k after.paths ≡ Keyed.lookup k n.paths)
    ⊎ ((k ≡ notify.source) × IsAccepted ed config n notify (Keyed.lookup k after.paths))

module _ (ed : Ed25519) (config : Config) (n : Node) (notify : PathNotify) (k : PublicKey) where
  -- Saving the path of a notification that passed the tests.
  saved :
      (before : Node) (info : PathInfo) (out : List Effect)
      → before.paths ≡ n.paths
      → notify.dest ≡ n.router.public_key
      → check ed notify ≡ true
      → Fresh config n notify (Keyed.lookup notify.source n.paths)
      → Outcome ed config n notify k (save_path before notify info out).0
  unfolding save_path stored
  saved before info out same own signed fresh = elim (Bool-cases (equal notify.source k)) [
    | inl e ↦ inr (
      sym ((equal_iff notify.source k).0 e),
      record {
        own = own;
        signed = signed;
        fresh = fresh;
        info = stored notify info;
        known = lookup-insert notify.source k (stored notify info) before.paths ∙ rw e refl;
        path = refl;
        seq = refl;
        mended = refl;
      },
    )
    | inr e ↦
        inl (lookup-insert notify.source k (stored notify info) before.paths ∙ rw (e, same) refl)
  ]

  renew_cases :
      (info : PathInfo)
      → Keyed.lookup notify.source n.paths ≡ some info
      → notify.dest ≡ n.router.public_key
      → Outcome ed config n notify k (renew ed config n notify info).0
  unfolding renew
  renew_cases info known own = elim (Bool-cases (leb notify.info.seq info.seq)) [
    | inl e ↦ inl (rw e refl)
    | inr newer ↦
        elim (Bool-cases (NotifyInfo.equal (record notify.info { path = info.path }) notify.info)) [
          | inl e ↦ inl (rw (newer, e) refl)
          | inr other ↦ elim (Bool-cases (check ed notify)) [
            | inl signed ↦
                rw (newer, other, signed)
                  (saved n info (reset_timer info.timer ∷ []) refl own signed
                    (rw known (ground (arith, newer))))
            | inr e ↦ inl (rw (newer, other, e) refl)
          ]
        ]
  ]

  admit_cases :
      (now : ℕ)
      → Keyed.lookup notify.source n.paths ≡ none
      → notify.dest ≡ n.router.public_key
      → Outcome ed config n notify k (admit ed config n notify now).0
  unfolding admit answered
  admit_cases now new own = elim (Bool-cases (has (config.transform notify.source) n.rumors)) [
    | inr e ↦ inl (rw e refl)
    | inl asked ↦ elim (Bool-cases (check ed notify)) [
      | inl signed ↦
          rw (asked, signed)
            (saved (answered ed config n notify) (new_path ed config n notify now) [] refl own
              signed (rw new asked))
      | inr e ↦ inl (rw (asked, e) refl)
    ]
  ]

  deliver_cases : (now : ℕ) → Outcome ed config n notify k (deliver ed config n notify now).0
  unfolding deliver
  deliver_cases now = elim (Bool-cases (equal notify.dest n.router.public_key)) [
    | inr e ↦ inl (rw (e, deliver) refl)
    | inl e ↦
        let own : notify.dest ≡ n.router.public_key =
          (equal_iff notify.dest n.router.public_key).0 e in
        elim (Option-cases (Keyed.lookup notify.source n.paths)) [
          | inl new ↦ rw (e, deliver, new) (admit_cases now new own)
          | inr (info, known) ↦ rw (e, deliver, known) (renew_cases info known own)
        ]
  ]

lookup-public_key :
    (r : Router) (path : List PeerPort) (watermark : ℕ)
    → (lookup r path (some watermark)).2.public_key ≡ r.public_key
unfolding lookup
lookup-public_key r path watermark =
    elim (Bool-cases (ltb (get_dist r.infos r.cache path r.public_key).0 watermark)) [
      | inl e ↦ rw e refl
      | inr e ↦ rw e refl
    ]

-- The router's cache makes no difference to what is accepted.
with_router :
    (ed : Ed25519) (config : Config) (n : Node) (r : Router) (notify : PathNotify) (k : PublicKey)
    (after : Node)
    → r.public_key ≡ n.router.public_key
    → Outcome ed config (record n { router = r }) notify k after
    → Outcome ed config n notify k after
with_router ed config n r notify k after same (inl e) = inl e
with_router ed config n r notify k after same (inr (e, a)) = inr (
  e,
  record {
    own = a.own ∙ same;
    signed = a.signed;
    fresh = a.fresh;
    info = a.info;
    known = a.known;
    path = a.path;
    seq = a.seq;
    mended = a.mended;
  },
)

-- _handleNotify changes what is known of a path only for a notification that is addressed to this
-- node, whose signature verifies, and whose seq is later than the known one or which answers a
-- rumor where none is known; then the path is the notification's, and not broken.
pub handle_notify-IsAccepted :
    (ed : Ed25519) (config : Config) (n : Node) (notify : PathNotify) (k : PublicKey) (now : ℕ)
    → Outcome ed config n notify k (handle_notify ed config n notify now).0
unfolding handle_notify
handle_notify-IsAccepted ed config n notify k now =
    elim (Option-cases (lookup n.router notify.path (some notify.watermark)).0) [
      | inl e ↦
          let r = (lookup n.router notify.path (some notify.watermark)).2 in
          rw (e, handle_notify)
            (with_router ed config n r notify k
              (deliver ed config (record n { router = r }) notify now).0
              (lookup-public_key n.router notify.path notify.watermark)
              (deliver_cases ed config (record n { router = r }) notify k now))
      | inr (p, e) ↦ rw (e, handle_notify) (inl refl)
    ]
