-- ===== src/Pathfinder/Forwarding/Total.antt =====
-- Why _handleTraffic reaches no panic.
use ironwood.Base.{
  ℕ, ◌≡◌, refl, subst, true, inl, inr, List, [], ◌∷◌, ◌++◌, Option, some, leb, arith, Bool-cases,
  Option-cases,
}
use ironwood.Types.{ok}
use ironwood.Crypto.{PublicKey, Ed25519, equal}
use ironwood.Keyed.{KeyMap, has, has-lookup, has-lookup-none, insert, lookup-insert_self}
use ironwood.Keyed
use ironwood.Messages.NotifyInfo
use ironwood.Messages.Lookup.{PathLookup}
use ironwood.Messages.Notify.{PathNotify, check}
use ironwood.Messages.Traffic.{Traffic}
use ironwood.Router.NextHop.{lookup}
use ironwood.Pathfinder.{PathInfo, Node, Config, Effect, reset_timer}
use ironwood.Pathfinder.Notifications.{new_path, answered, renew, admit, deliver, handle_notify}
use ironwood.Pathfinder.Forwarding.{
  handle_lookup, send_lookup, rumor_send_lookup, send_on_path, keep_traffic, handle_traffic, answer,
  throttled, is_recent, renewed,
}
use ironwood.Pathfinder.Forwarding.Cached.{
  Held, IsCached, Ready, lookup-Held, insert-IsCached, has-insert_self, Good, unchanged, saved,
  traffic_for-Held, has-without_traffic,
}

module _ (ed : Ed25519) (config : Config) (x : PublicKey) where
  renew-Good :
      (n : Node) (notify : PathNotify) (info : PathInfo)
      → IsCached n.paths
      → has x n.rumors ≡ true
      → Held notify.source info.traffic
      → Good x (renew ed config n notify info)
  unfolding renew
  renew-Good n notify info c h held = elim (Bool-cases (leb notify.info.seq info.seq)) [
    | inl e ↦ rw (e, renew) (unchanged x n [] c h)
    | inr newer ↦
        elim (Bool-cases (NotifyInfo.equal (record notify.info { path = info.path }) notify.info)) [
          | inl e ↦ rw (newer, renew, e) (unchanged x n [] c h)
          | inr other ↦ elim (Bool-cases (check ed notify)) [
            | inl signed ↦
                rw (newer, renew, other, signed)
                  (saved x n notify info (reset_timer info.timer ∷ []) c h held)
            | inr e ↦ rw (newer, renew, other, e) (unchanged x n [] c h)
          ]
        ]
  ]

  admit-Good :
      (n : Node) (notify : PathNotify) (now : ℕ)
      → IsCached n.paths
      → has x n.rumors ≡ true
      → Good x (admit ed config n notify now)
  unfolding admit answered new_path
  admit-Good n notify now c h = elim (Bool-cases (has (config.transform notify.source) n.rumors)) [
    | inr e ↦ rw (e, admit) (unchanged x n [] c h)
    | inl asked ↦ elim (Bool-cases (check ed notify)) [
      | inl signed ↦
          rw (asked, admit, signed)
            (saved x (answered ed config n notify) notify (new_path ed config n notify now) [] c
              (has-without_traffic x (config.transform notify.source) notify.source n.rumors h)
              (traffic_for-Held notify.source
                (Keyed.lookup (config.transform notify.source) n.rumors)))
      | inr e ↦ rw (asked, admit, e) (unchanged x n [] c h)
    ]
  ]

  deliver-Good :
      (n : Node) (notify : PathNotify) (now : ℕ)
      → IsCached n.paths
      → has x n.rumors ≡ true
      → Good x (deliver ed config n notify now)
  unfolding deliver
  deliver-Good n notify now c h = elim (Bool-cases (equal notify.dest n.router.public_key)) [
    | inr e ↦ rw (e, deliver) (unchanged x n [] c h)
    | inl e ↦ elim (Option-cases (Keyed.lookup notify.source n.paths)) [
      | inl new ↦ rw (e, deliver, new) (admit-Good n notify now c h)
      | inr (info, known) ↦
          rw (e, deliver, known)
            (renew-Good n notify info c h (lookup-Held n.paths notify.source info c known))
    ]
  ]

  handle_notify-Good :
      (n : Node) (notify : PathNotify) (now : ℕ)
      → IsCached n.paths
      → has x n.rumors ≡ true
      → Good x (handle_notify ed config n notify now)
  unfolding handle_notify
  handle_notify-Good n notify now c h =
      let r = (lookup n.router notify.path (some notify.watermark)).2 in
      elim (Option-cases (lookup n.router notify.path (some notify.watermark)).0) [
        | inl e ↦ rw (e, handle_notify) (deliver-Good (record n { router = r }) notify now c h)
        | inr (p, e) ↦ rw (e, handle_notify) (record { cached = c; ready = tt; rumor = h })
      ]

  more_effects :
      (n : Node) (out more : List Effect) (waiting : Option Traffic)
      → Good x (n, out, waiting)
      → Good x (n, more, waiting)
  more_effects n out more waiting g = record { cached = g.cached; ready = g.ready; rumor = g.rumor }

  handle_lookup-Good :
      (n : Node) (from : PublicKey) (asked : PathLookup) (now unix : ℕ)
      → IsCached n.paths
      → has x n.rumors ≡ true
      → Good x (handle_lookup ed config n from asked now unix)
  unfolding handle_lookup
  handle_lookup-Good n from asked now unix c h =
      let (notify, info) = answer ed config n asked unix in
      let g = handle_notify-Good (record n { info = info }) notify now c h in
      elim (Bool-cases
        (equal (config.transform asked.dest) (config.transform n.router.public_key))) [
          | inl e ↦ rw (e, handle_lookup) (more_effects _ _ _ _ g)
          | inr e ↦ rw (e, handle_lookup) (unchanged x n _ c h)
        ]

  send_lookup-Good :
      (n : Node) (dest : PublicKey) (now unix : ℕ)
      → IsCached n.paths
      → has x n.rumors ≡ true
      → Good x (send_lookup ed config n dest now unix)
  unfolding send_lookup
  send_lookup-Good n dest now unix c h =
      elim (Bool-cases (throttled ed config (Keyed.lookup dest n.paths) now)) [
        | inl e ↦ rw (e, send_lookup) (unchanged x n [] c h)
        | inr e ↦ rw (e, send_lookup) (handle_lookup-Good n n.router.public_key _ now unix c h)
      ]

module _ (ed : Ed25519) (config : Config) where
  recent_rumor :
      (n : Node) (xform : PublicKey) (now : ℕ)
      → is_recent ed config (Keyed.lookup xform n.rumors) now ≡ true
      → has xform n.rumors ≡ true
  unfolding is_recent
  recent_rumor n xform now e = elim (Option-cases (Keyed.lookup xform n.rumors)) [
    | inl missing ↦ absurd (ground (arith, rw missing at e))
    | inr (rumor, found) ↦ has-lookup xform n.rumors rumor found
  ]

  -- Afterwards the rumor is there.
  rumor_send_lookup-Good :
      (n : Node) (dest : PublicKey) (now unix : ℕ)
      → IsCached n.paths
      → Good (config.transform dest) (rumor_send_lookup ed config n dest now unix)
  unfolding rumor_send_lookup
  rumor_send_lookup-Good n dest now unix c =
      let xform = config.transform dest in
      let old = Keyed.lookup xform n.rumors in
      elim (Bool-cases (is_recent ed config old now)) [
        | inl e ↦ rw (e, rumor_send_lookup) (unchanged xform n [] c (recent_rumor n xform now e))
        | inr e ↦
            rw (e, rumor_send_lookup)
              (more_effects ed config xform _ _ _ _ (
                send_lookup-Good ed config xform _ dest now unix c
                  (has-insert_self xform (renewed ed config old now n.next_timer) n.rumors)))
      ]

  keep_traffic-Returns :
      (n : Node) (tr : Traffic) (out : List Effect)
      → IsCached n.paths
      → has (config.transform tr.dest) n.rumors ≡ true
      → (result : Node × List Effect) × (keep_traffic ed config n tr out ≡ ok result)
        × IsCached result.0.paths
  unfolding keep_traffic
  keep_traffic-Returns n tr out c h =
      elim (Option-cases (Keyed.lookup (config.transform tr.dest) n.rumors)) [
        | inl e ↦ absurd (ground (arith, h, has-lookup-none (config.transform tr.dest) n.rumors e))
        | inr (rumor, e) ↦
            rw (e, keep_traffic)
              (
                (
                  record n {
                    rumors =
                        insert (config.transform tr.dest) (record rumor { traffic = some tr })
                          n.rumors;
                  },
                  out,
                ),
                refl,
                c,
              )
      ]

  -- _handleTraffic returns, without its panic and with two nested calls at most, where the traffic
  -- that stands with a path is for that path; this stays so.
  pub handle_traffic-Returns :
      (n : Node) (tr : Traffic) (now unix : ℕ)
      → IsCached n.paths
      → (result : Node × List Effect) × (handle_traffic ed config 2 n tr now unix ≡ ok result)
        × IsCached result.0.paths
  unfolding handle_traffic send_on_path
  handle_traffic-Returns n tr now unix c =
      let (n', out, waiting) = rumor_send_lookup ed config n tr.dest now unix in
      let g = rumor_send_lookup-Good n tr.dest now unix c in
      elim (Option-cases (Keyed.lookup tr.dest n.paths)) [
        | inr (info, e) ↦
            rw (e, handle_traffic)
              (send_on_path ed config n info tr, refl, insert-IsCached n.paths tr.dest _ c refl)
        | inl e ↦ elim (Option-cases waiting) [
          | inl w ↦ rw (e, handle_traffic, w) (keep_traffic-Returns n' tr out g.cached g.rumor)
          | inr (held, w) ↦
              let (info, known) : Ready n' (some held) = subst (Ready n') w g.ready in
              rw (e, handle_traffic, w, known)
                (keep_traffic-Returns (send_on_path ed config n' info held).0 tr
                  (out ++ (send_on_path ed config n' info held).1)
                  (insert-IsCached n'.paths held.dest _ g.cached refl) g.rumor)
        ]
      ]
