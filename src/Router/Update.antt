-- ===== src/Router/Update.antt =====
-- _update, _handleAnnounce and the timers of network/router.go: how a node's view of the tree
-- changes.
pub mod Order
pub mod Merge
pub mod Converge
use ironwood.Base.{
  ℕ, ◌+◌, Bool, true, false, List, [], ◌∷◌, Option, none, some, ltb, ◌==◌, if◌then◌else◌,
}
use ironwood.Types.{Result, ok, panic, ◌>>=◌}
use ironwood.Crypto.{PublicKey, equal, less}
use ironwood.Keyed.{KeyMap, lookup, insert, delete, map_values, add_key, delete_key}
use ironwood.Messages.Announce.{RouterAnnounce, RouterInfo, get_announce}
use ironwood.Router.{Router, Peer}

-- The switch of _update, over the seq, parent and nonce of the known info and of the announced
-- one. It must be the same on every node.
unfoldable pub supersedes : ℕ → PublicKey → ℕ → ℕ → PublicKey → ℕ → Bool
supersedes seq parent nonce seq' parent' nonce' =
    if ltb seq' seq
    then false
    else if ltb seq seq'
    then true
    else if less parent parent'
    then false
    else if less parent' parent
    then true
    else if ltb nonce' nonce
    then true
    else false

unfoldable pub accepts : Option RouterInfo → RouterAnnounce → Bool
accepts none ann = true
accepts (some info) ann = supersedes info.seq info.parent info.nonce ann.seq ann.parent ann.nonce

unfoldable pub info_of : RouterAnnounce → RouterInfo
info_of ann = record { parent = ann.parent; res = ann.res; sig = ann.sig }

unfoldable pub reset_cache : Router → Router
reset_cache r = record r { cache = [] }

-- Clean up what was sent and the cache, save the info, and start its timer in place of the old one.
unfoldable pub store : Router → RouterAnnounce → Router
unfolding reset_cache
store r ann = record (reset_cache r) {
  sent = map_values (delete_key ann.key) r.sent;
  infos = insert ann.key (info_of ann) r.infos;
  timers = insert ann.key r.next_timer r.timers;
  next_timer = r.next_timer + 1;
}

unfoldable pub update : Router → RouterAnnounce → Bool × Router
update r ann = if accepts (lookup ann.key r.infos) ann then (true, store r ann) else (false, r)

-- The functions that _update hands to time.AfterFunc, with the timer's number. They act if the
-- timer is still the one of its key: the node's own info is to be refreshed, another's expires.
unfoldable pub expire : Router → PublicKey → Router
unfolding reset_cache
expire r key = record (reset_cache r) {
  infos = delete key r.infos;
  timers = delete key r.timers;
  sent = map_values (delete_key key) r.sent;
}

pub is_timer : Option ℕ → ℕ → Bool
is_timer none timer = false
is_timer (some current) timer = current == timer

unfoldable pub timer_fires : Router → PublicKey → ℕ → Router
unfolding is_timer expire
timer_fires r key timer =
    if is_timer (lookup key r.timers) timer
    then (if equal key r.public_key then record r { refresh = true } else expire r key)
    else r

-- `r.sent[p.key][key] = struct{}{}` panics where the peer's map is nil.
unfoldable pub mark_sent : Router → PublicKey → PublicKey → Result Router
mark_sent r peer_key key = elim (lookup peer_key r.sent) [
  | none ↦ panic
  | some keys ↦ ok (record r { sent = insert peer_key (add_key key keys) r.sent })
]
