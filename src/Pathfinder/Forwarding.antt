-- ===== src/Pathfinder/Forwarding.antt =====
-- Lookups, rumors, traffic and broken paths of network/pathfinder.go.
pub mod Cached
pub mod Total
use ironwood.Base.{
  ℕ, zero, suc, ◌+◌, ◌-◌, ◌%◌, ◌^◌, Bool, true, false, not, ◌&&◌, List, [], ◌∷◌, ◌++◌, Option, none,
  some, ltb, leb, ◌==◌, if◌then◌else◌,
}
use ironwood.Types.{Result, ok, panic, ◌>>=◌}
use ironwood.Wire.{PeerPort, max_u64}
use ironwood.Crypto.{PublicKey, Ed25519, equal}
use ironwood.Keyed.{KeyMap, has, insert, delete}
use ironwood.Keyed
use ironwood.Messages.Lookup.{PathLookup}
use ironwood.Messages.NotifyInfo.{PathNotifyInfo, sign}
use ironwood.Messages.NotifyInfo
use ironwood.Messages.Notify.{PathNotify, check}
use ironwood.Messages.Broken.{PathBroken}
use ironwood.Messages.Traffic.{Traffic}
use ironwood.Router.{Router, Peer}
use ironwood.Router.Tree.{get_root_and_path}
use ironwood.Router.NextHop.{lookup}
use ironwood.Router.Handlers.{zero_sig}
use ironwood.Pathfinder.{
  PathInfo, PathRumor, Node, Effect, send_notify, send_broken, multicast, route, path_notify,
  reset_timer, Config, marked,
}
use ironwood.Pathfinder.Notifications.{handle_notify}

module _ (ed : Ed25519) (config : Config) where
  -- The notification with which a node answers a lookup, and the info it has signed last.
  pub answer : Node → PathLookup → ℕ → PathNotify × PathNotifyInfo
  answer n asked unix =
      let self = n.router.public_key in
      let plain : PathNotifyInfo = record {
        seq = unix;
        path = (get_root_and_path n.router.infos self).1;
        sig = zero_sig;
      } in
      let info =
        if not (NotifyInfo.equal n.info plain)
        then sign ed n.router.private_key plain
        else n.info in
      (
        record {
          path = asked.from;
          watermark = max_u64;
          source = self;
          dest = asked.source;
          info = info;
        },
        info,
      )

  -- _handleLookup
  unfoldable pub handle_lookup :
      Node → PublicKey → PathLookup → ℕ → ℕ → Node × List Effect × Option Traffic
  unfolding answer
  handle_lookup n from_key asked now unix =
      let (notify, info) = answer n asked unix in
      let (n', out, tr) = handle_notify ed config (record n { info = info }) notify now in
      if equal (config.transform asked.dest) (config.transform n.router.public_key)
      then (n', multicast from_key asked ∷ out, tr)
      else (n, multicast from_key asked ∷ [], none)

  -- handleLookup: a lookup from a peer counts only where the peer is on the tree.
  unfoldable pub receive_lookup :
      Bool → Node → PublicKey → PathLookup → ℕ → ℕ → Node × List Effect × Option Traffic
  unfolding handle_lookup
  receive_lookup on_tree n from_key asked now unix =
      if on_tree then handle_lookup n from_key asked now unix else (n, [], none)

  -- Whether _sendLookup returns early.
  pub throttled : Option PathInfo → ℕ → Bool
  throttled none now = false
  throttled (some info) now = ltb (now - info.req_time) config.path_throttle

  pub send_lookup : Node → PublicKey → ℕ → ℕ → Node × List Effect × Option Traffic
  unfolding throttled
  send_lookup n dest now unix =
      let self = n.router.public_key in
      let asked : PathLookup = record {
        source = self;
        dest = dest;
        from = (get_root_and_path n.router.infos self).1;
      } in
      if throttled (Keyed.lookup dest n.paths) now
      then (n, [], none)
      else handle_lookup n self asked now unix

  -- The rumor that _rumorSendLookup leaves.
  pub renewed : Option PathRumor → ℕ → ℕ → PathRumor
  renewed none now timer = record { traffic = none; send_time = now; timer = timer }
  renewed (some rumor) now timer = record rumor { send_time = now }

  pub is_recent : Option PathRumor → ℕ → Bool
  is_recent none now = false
  is_recent (some rumor) now = ltb (now - rumor.send_time) config.path_throttle

  pub rumor_effects : Option PathRumor → List Effect
  rumor_effects none = []
  rumor_effects (some rumor) = reset_timer rumor.timer ∷ []

  pub rumor_send_lookup : Node → PublicKey → ℕ → ℕ → Node × List Effect × Option Traffic
  unfolding renewed is_recent rumor_effects
  rumor_send_lookup n dest now unix =
      let xform = config.transform dest in
      let old = Keyed.lookup xform n.rumors in
      let n' : Node = record n {
        rumors = insert xform (renewed old now n.next_timer) n.rumors;
        next_timer = n.next_timer + 1;
      } in
      let (n'', out, tr) = send_lookup n' dest now unix in
      if is_recent old now then (n, [], none) else (n'', rumor_effects old ++ out, tr)

  -- Traffic on a known path: it takes the path, a copy stays, and the router handles it.
  pub send_on_path : Node → PathInfo → Traffic → Node × List Effect
  send_on_path n info tr =
      let sent : Traffic = record tr {
        path = info.path;
        from = (get_root_and_path n.router.infos n.router.public_key).1;
      } in
      (
        record n { paths = insert tr.dest (record info { traffic = some sent }) n.paths },
        route sent ∷ [],
      )

  -- The traffic waits in its rumor.
  pub keep_traffic : Node → Traffic → List Effect → Result (Node × List Effect)
  keep_traffic n tr out = elim (Keyed.lookup (config.transform tr.dest) n.rumors) [
    | none ↦ panic
    | some rumor ↦ ok (
      record n {
        rumors = insert (config.transform tr.dest) (record rumor { traffic = some tr }) n.rumors;
      },
      out,
    )
  ]

  -- Each round is one call of _handleTraffic, of which an inner one comes from _handleNotify; where
  -- the rounds run out the answer is `panic`.
  pub handle_traffic : ℕ → Node → Traffic → ℕ → ℕ → Result (Node × List Effect)
  unfolding send_on_path keep_traffic
  handle_traffic zero n tr now unix = panic
  handle_traffic (suc calls) n tr now unix =
      let (n', out, waiting) = rumor_send_lookup n tr.dest now unix in
      elim (Keyed.lookup tr.dest n.paths) [
        | some info ↦ ok (send_on_path n info tr)
        | none ↦ elim waiting [
          | none ↦ keep_traffic n' tr out
          | some held ↦ do
            (n'', more) ← handle_traffic calls n' held now unix
            keep_traffic n'' tr (out ++ more)
        ]
      ]

  -- _handleBroken with the traffic that it may set off.
  pub handle_broken : Node → PathBroken → ℕ → ℕ → Result (Node × List Effect)
  unfolding marked
  handle_broken n broken now unix =
      let (next, mark, r) = lookup n.router broken.path (some broken.watermark) in
      let n1 : Node = record n { router = r } in
      elim next [
        | some p ↦
            ok (n1, send_broken p (record broken { watermark = marked mark broken.watermark }) ∷ [])
        | none ↦ elim (equal broken.source r.public_key) [
          | false ↦ ok (n1, [])
          | true ↦ elim (Keyed.lookup broken.dest n1.paths) [
            | none ↦ ok (n1, [])
            | some info ↦
                let n2 : Node = record n1 {
                  paths = insert broken.dest (record info { broken = true }) n1.paths;
                } in
                let (n3, out, waiting) = send_lookup n2 broken.dest now unix in
                elim waiting [
                  | none ↦ ok (n3, out)
                  | some held ↦ do
                    (n4, more) ← handle_traffic 2 n3 held now unix
                    ok (n4, out ++ more)
                ]
          ]
        ]
      ]

  pub do_broken : Node → Traffic → ℕ → ℕ → Result (Node × List Effect)
  do_broken n tr now unix =
      handle_broken n
        (record { path = tr.from; watermark = max_u64; source = tr.source; dest = tr.dest }) now
        unix
