-- ===== src/Pathfinder/Forwarding/Cached.antt =====
-- Traffic that waits for a path, and where it is kept.
use ironwood.Base.{
  ◌≡◌, refl, sym, subst, true, inl, inr, List, [], ◌∷◌, Option, none, some, All, if◌then◌else◌,
  arith, Bool-cases, Option-cases,
}
use ironwood.Crypto.{PublicKey, equal}
use ironwood.Crypto.Order.{equal_iff, equal_refl}
use ironwood.Keyed.{KeyMap, has, has-lookup, insert, lookup-insert_self}
use ironwood.Keyed
use ironwood.Messages.Notify.{PathNotify}
use ironwood.Messages.Traffic.{Traffic}
use ironwood.Pathfinder.{PathInfo, PathRumor, Node, Effect}
use ironwood.Pathfinder.Notifications.{stored, save_path, traffic_for, without_traffic}

abbrev pub Held : PublicKey → Option Traffic → Type 0
Held k none = Unit {0}
Held k (some tr) = tr.dest ≡ k

-- Traffic stands with the path to its destination only.
abbrev pub IsCached : KeyMap PathInfo → Type 0
IsCached paths = All (λ e. Held e.0 e.1.traffic) paths

-- Traffic that is handed over has a path.
abbrev pub Ready : Node → Option Traffic → Type 0
Ready n none = Unit {0}
Ready n (some tr) = (info : PathInfo) × (Keyed.lookup tr.dest n.paths ≡ some info)

pub lookup-Held :
    (paths : KeyMap PathInfo) (k : PublicKey) (info : PathInfo)
    → IsCached paths
    → Keyed.lookup k paths ≡ some info
    → Held k info.traffic
unfolding Keyed.lookup
lookup-Held [] k info c e = absurd (ground (arith, e))
lookup-Held ((j, i) ∷ paths) k info c e = elim (Bool-cases (equal j k)) [
  | inl same ↦
      let here : i ≡ info = ground (arith, e, same) in
      subst (λ (x : PathInfo). Held k x.traffic) here
        (subst (λ (x : PublicKey). Held x i.traffic) ((equal_iff j k).0 same) c.0)
  | inr other ↦ lookup-Held paths k info c.1 (rw other at e)
]

pub insert-IsCached :
    (paths : KeyMap PathInfo) (k : PublicKey) (info : PathInfo)
    → IsCached paths
    → Held k info.traffic
    → IsCached (insert k info paths)
unfolding insert
insert-IsCached [] k info c h = (h, tt)
insert-IsCached ((j, i) ∷ paths) k info c h = elim (Bool-cases (equal j k)) [
  | inl e ↦ rw e (subst (λ (x : PublicKey). Held x info.traffic) (sym ((equal_iff j k).0 e)) h, c.1)
  | inr e ↦ rw e (c.0, insert-IsCached paths k info c.1 h)
]

pub has-insert :
    {V : Type 0} (x k : PublicKey) (v : V) (m : KeyMap V)
    → has x m ≡ true
    → has x (insert k v m) ≡ true
unfolding has insert
has-insert x k v [] h = absurd (ground (arith, h))
has-insert x k v ((j, w) ∷ m) h = elim (Bool-cases (equal j k)) [
  | inl e ↦ ground (arith, e, h)
  | inr e ↦ ground (arith, e, h, has-insert x k v m)
]

pub has-insert_self :
    {V : Type 0} (k : PublicKey) (v : V) (m : KeyMap V) → has k (insert k v m) ≡ true
unfolding has insert
has-insert_self k v [] = ground (arith, equal_refl k)
has-insert_self k v ((j, w) ∷ m) = elim (Bool-cases (equal j k)) [
  | inl e ↦ ground (arith, e)
  | inr e ↦ ground (arith, e, has-insert_self k v m)
]

-- What a handler leaves, with the traffic that it hands over; `x` is a rumor that stays.
pub record Good (x : PublicKey) (result : Node × List Effect × Option Traffic) : Type 0 where
  pub cached : IsCached result.0.paths
  pub ready : Ready result.0 result.2
  pub rumor : has x result.0.rumors ≡ true

pub unchanged :
    (x : PublicKey) (n : Node) (out : List Effect)
    → IsCached n.paths
    → has x n.rumors ≡ true
    → Good x (n, out, none)
unchanged x n out c h = record { cached = c; ready = tt; rumor = h }

pub Ready-saved :
    (n : Node) (notify : PathNotify) (info : PathInfo) (waiting : Option Traffic) (after : Node)
    → Held notify.source waiting
    → after.paths ≡ insert notify.source (stored notify info) n.paths
    → Ready after waiting
Ready-saved n notify info none after h e = tt
Ready-saved n notify info (some tr) after h e =
    (stored notify info, rw (e, h) (lookup-insert_self notify.source (stored notify info) n.paths))

pub saved :
    (x : PublicKey) (n : Node) (notify : PathNotify) (info : PathInfo) (out : List Effect)
    → IsCached n.paths
    → has x n.rumors ≡ true
    → Held notify.source info.traffic
    → Good x (save_path n notify info out)
unfolding save_path stored
saved x n notify info out c h held = record {
  cached = insert-IsCached n.paths notify.source (stored notify info) c tt;
  ready = Ready-saved n notify info info.traffic (save_path n notify info out).0 held refl;
  rumor = h;
}

pub traffic_for-Held : (k : PublicKey) (rumor : Option PathRumor) → Held k (traffic_for k rumor)
unfolding traffic_for
traffic_for-Held k none = tt
traffic_for-Held k (some rumor) = held rumor.traffic
  where
    held :
        (t : Option Traffic)
        → Held k (elim t as (λ u. Option Traffic) [
          | none ↦ none
          | some tr ↦ if equal tr.dest k then some tr else none
        ])
    held none = tt
    held (some tr) = elim (Bool-cases (equal tr.dest k)) [
      | inl e ↦ rw e ((equal_iff tr.dest k).0 e)
      | inr e ↦ rw e tt
    ]

pub has-without_traffic :
    (x xform k : PublicKey) (rumors : KeyMap PathRumor)
    → has x rumors ≡ true
    → has x (without_traffic xform k rumors) ≡ true
unfolding without_traffic
has-without_traffic x xform k rumors h = elim (Option-cases (Keyed.lookup xform rumors)) [
  | inl e ↦ rw (e, without_traffic) h
  | inr (rumor, e) ↦ elim (Option-cases (traffic_for k (some rumor))) [
    | inl f ↦ rw (e, without_traffic, f) h
    | inr (tr, f) ↦ rw (e, without_traffic, f) (has-insert x xform _ rumors h)
  ]
]
