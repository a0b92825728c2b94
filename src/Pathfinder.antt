-- ===== src/Pathfinder.antt =====
-- network/pathfinder.go: the pathfinder's state and its timers. The pathfinder runs within the
-- router's actor, so its state stands beside the router's. A time is a number, and `unix` the clock in
-- seconds. The handlers are in the modules below.
pub mod Notifications
pub mod Forwarding
pub mod Arrivals
pub mod Tests
use ironwood.Base.{
  ℕ, zero, suc, ◌+◌, ◌-◌, ◌%◌, ◌^◌, Bool, true, false, not, ◌&&◌, List, [], ◌∷◌, ◌++◌, Option, none,
  some, ltb, leb, ◌==◌, if◌then◌else◌,
}
use ironwood.Types.{Result, ok, panic, ◌>>=◌}
use ironwood.Wire.{PeerPort, max_u64}
use ironwood.Crypto.{PublicKey, Ed25519, equal}
use ironwood.Keyed.{KeyMap, has, insert, delete}
use ironwood.Keyed
use ironwood.Messages.Lookup.{PathLookup}
use ironwood.Messages.NotifyInfo.{PathNotifyInfo, sign}
use ironwood.Messages.NotifyInfo
use ironwood.Messages.Notify.{PathNotify, check}
use ironwood.Messages.Broken.{PathBroken}
use ironwood.Messages.Traffic.{Traffic}
use ironwood.Router.{Router, Peer}
use ironwood.Router.Tree.{get_root_and_path}
use ironwood.Router.NextHop.{lookup}
use ironwood.Router.Handlers.{zero_sig}

pub record PathInfo : Type 0 where
  pub path : List PeerPort
  pub seq : ℕ
  pub req_time : ℕ
  pub timer : ℕ
  pub traffic : Option Traffic
  pub broken : Bool

pub record PathRumor : Type 0 where
  pub traffic : Option Traffic
  pub send_time : ℕ
  pub timer : ℕ

-- The router and the pathfinder's fields. A timer is the number under which it was made.
pub record Node : Type 0 where
  pub router : Router
  pub info : PathNotifyInfo
  pub paths : KeyMap PathInfo
  pub rumors : KeyMap PathRumor
  pub next_timer : ℕ

-- What the handlers do outside: packets to a peer, the multicast of a lookup, traffic that is handed
-- to the router, the callback for a new path, and timers that are set back.
pub data Effect : Type 0 where
  send_notify : Peer → PathNotify → Effect
  send_broken : Peer → PathBroken → Effect
  multicast : PublicKey → PathLookup → Effect
  route : Traffic → Effect
  path_notify : PublicKey → Effect
  reset_timer : ℕ → Effect

-- The options that the handlers read; `transform` is the application's bloomTransform.
pub record Config : Type 0 where
  pub transform : PublicKey → PublicKey
  pub path_throttle : ℕ

-- The watermark after _lookup.
unfoldable pub marked : Option ℕ → ℕ → ℕ
marked none watermark = watermark
marked (some lower) watermark = lower

-- A packet from a destination keeps its path alive, unless the path is broken.
unfoldable pub reset_timeout : Node → PublicKey → List Effect
reset_timeout n key = elim (Keyed.lookup key n.paths) [
  | none ↦ []
  | some info ↦ if not info.broken then reset_timer info.timer ∷ [] else []
]

pub is_path_timer : Option PathInfo → ℕ → Bool
is_path_timer none timer = false
is_path_timer (some info) timer = info.timer == timer

pub is_rumor_timer : Option PathRumor → ℕ → Bool
is_rumor_timer none timer = false
is_rumor_timer (some rumor) timer = rumor.timer == timer

-- The functions that the handlers give to time.AfterFunc.
pub path_timer_fires : Node → PublicKey → ℕ → Node
unfolding is_path_timer
path_timer_fires n key timer =
    if is_path_timer (Keyed.lookup key n.paths) timer
    then record n { paths = delete key n.paths }
    else n

pub rumor_timer_fires : Node → PublicKey → ℕ → Node
unfolding is_rumor_timer
rumor_timer_fires n xform timer =
    if is_rumor_timer (Keyed.lookup xform n.rumors) timer
    then record n { rumors = delete xform n.rumors }
    else n
