-- ===== src/Pathfinder/Notifications.antt =====
-- _handleNotify of network/pathfinder.go.
pub mod Accept
use ironwood.Base.{
  ℕ, zero, suc, ◌+◌, ◌-◌, ◌%◌, ◌^◌, Bool, true, false, not, ◌&&◌, List, [], ◌∷◌, ◌++◌, Option, none,
  some, ltb, leb, ◌==◌, if◌then◌else◌,
}
use ironwood.Types.{Result, ok, panic, ◌>>=◌}
use ironwood.Wire.{PeerPort, max_u64}
use ironwood.Crypto.{PublicKey, Ed25519, equal}
use ironwood.Keyed.{KeyMap, has, insert, delete}
use ironwood.Keyed
use ironwood.Messages.Lookup.{PathLookup}
use ironwood.Messages.NotifyInfo.{PathNotifyInfo, sign}
use ironwood.Messages.NotifyInfo
use ironwood.Messages.Notify.{PathNotify, check}
use ironwood.Messages.Broken.{PathBroken}
use ironwood.Messages.Traffic.{Traffic}
use ironwood.Router.{Router, Peer}
use ironwood.Router.Tree.{get_root_and_path}
use ironwood.Router.NextHop.{lookup}
use ironwood.Router.Handlers.{zero_sig}
use ironwood.Pathfinder.{
  PathInfo, PathRumor, Node, Effect, send_notify, send_broken, multicast, route, path_notify,
  reset_timer, Config, marked,
}

-- What is saved of a notification.
unfoldable pub stored : PathNotify → PathInfo → PathInfo
stored notify info = record info {
  path = notify.info.path;
  seq = notify.info.seq;
  broken = false;
  traffic = none;
}

-- The end of _handleNotify: the path is saved, and traffic that waited for it is handed over to
-- _handleTraffic after that.
unfoldable pub save_path :
    Node → PathNotify → PathInfo → List Effect → Node × List Effect × Option Traffic
unfolding stored
save_path n notify info out = (
  record n { paths = insert notify.source (stored notify info) n.paths },
  out ++ (path_notify notify.source ∷ []),
  info.traffic,
)

-- A rumor's traffic, if it is for the key.
unfoldable pub traffic_for : PublicKey → Option PathRumor → Option Traffic
traffic_for key none = none
traffic_for key (some rumor) = elim rumor.traffic [
  | none ↦ none
  | some tr ↦ if equal tr.dest key then some tr else none
]

unfoldable pub without_traffic : PublicKey → PublicKey → KeyMap PathRumor → KeyMap PathRumor
unfolding traffic_for
without_traffic xform key rumors = elim (Keyed.lookup xform rumors) [
  | none ↦ rumors
  | some rumor ↦ elim (traffic_for key (some rumor)) [
    | none ↦ rumors
    | some tr ↦ insert xform (record rumor { traffic = none }) rumors
  ]
]

module _ (ed : Ed25519) (config : Config) where
  -- A notification about a path that is known.
  unfoldable pub renew : Node → PathNotify → PathInfo → Node × List Effect × Option Traffic
  unfolding save_path
  renew n notify info =
      if leb notify.info.seq info.seq
      then (n, [], none)
      else if NotifyInfo.equal (record notify.info { path = info.path }) notify.info
      then (n, [], none)
      else if not (check ed notify)
      then (n, [], none)
      else save_path n notify info (reset_timer info.timer ∷ [])

  -- The entry for a new path, and the node once a timer is made and the rumor gave up its traffic.
  unfoldable pub new_path : Node → PathNotify → ℕ → PathInfo
  unfolding traffic_for
  new_path n notify now = record {
    path = [];
    seq = 0;
    req_time = now;
    timer = n.next_timer;
    traffic = traffic_for notify.source (Keyed.lookup (config.transform notify.source) n.rumors);
    broken = false;
  }

  unfoldable pub answered : Node → PathNotify → Node
  unfolding without_traffic
  answered n notify = record n {
    rumors = without_traffic (config.transform notify.source) notify.source n.rumors;
    next_timer = n.next_timer + 1;
  }

  -- A notification about a new path, which must answer a rumor.
  unfoldable pub admit : Node → PathNotify → ℕ → Node × List Effect × Option Traffic
  unfolding save_path new_path answered
  admit n notify now =
      if not (has (config.transform notify.source) n.rumors)
      then (n, [], none)
      else if not (check ed notify)
      then (n, [], none)
      else save_path (answered n notify) notify (new_path n notify now) []

  unfoldable pub deliver : Node → PathNotify → ℕ → Node × List Effect × Option Traffic
  unfolding renew admit
  deliver n notify now = elim (equal notify.dest n.router.public_key) [
    | false ↦ (n, [], none)
    | true ↦ elim (Keyed.lookup notify.source n.paths) [
      | none ↦ admit n notify now
      | some info ↦ renew n notify info
    ]
  ]

  unfoldable pub handle_notify : Node → PathNotify → ℕ → Node × List Effect × Option Traffic
  unfolding deliver marked
  handle_notify n notify now =
      let (next, mark, r) = lookup n.router notify.path (some notify.watermark) in
      let n' : Node = record n { router = r } in
      elim next [
        | some p ↦ (
          n',
          send_notify p (record notify { watermark = marked mark notify.watermark }) ∷ [],
          none,
        )
        | none ↦ deliver n' notify now
      ]
