-- ===== src/Pathfinder/Tests.antt =====
-- The pathfinder on concrete paths and rumors.
use ironwood.Base.{ℕ, ◌≡◌, refl, false, List, [], ◌∷◌, some, none, ◌⊎◌, replicate}
use ironwood.Types.{ok}
use ironwood.Keyed.{KeyMap, get_or}
use ironwood.Keyed
use ironwood.Router.Handlers.{zero_sig}
use ironwood.Wire.{max_u64}
use ironwood.Messages.Notify.{PathNotify}
use ironwood.Messages.Traffic.{Traffic}
use ironwood.Pathfinder.{Node, Config, Effect, marked, reset_timeout}
use ironwood.Crypto.{equal}
use ironwood.Router.Distance.{get_dist, path_dist}
use ironwood.Pathfinder.Notifications.{handle_notify}
use ironwood.Pathfinder.Forwarding.{handle_traffic}
use ironwood.Pathfinder.Forwarding.Cached.{IsCached}
use ironwood.Pathfinder.Forwarding.Total.{handle_traffic-Returns}
use ironwood.Pathfinder.Arrivals.{IsFair, arrived, handle_traffic-IsFair}
use ironwood.Pathfinder.Arrivals
use ironwood.Router.NextHop.{lookup}
use ironwood.Pathfinder.Notifications.Accept.{IsAccepted, handle_notify-IsAccepted}
use ironwood.Router.Tests.{toy, key, tree, empty_router, to_third, to_fourth}

abbrev key_config : Config
key_config = record { transform = λ k. k; path_throttle = 10 }

-- Node 3 has asked for node 4, which answers.
abbrev asking : Node
asking = record {
  router = record (empty_router (1 ∷ 1 ∷ 1 ∷ [])) { infos = tree };
  info = record { seq = 0; path = []; sig = zero_sig };
  paths = [];
  rumors = (key 4, record { traffic = none; send_time = 0; timer = 0 }) ∷ [];
  next_timer = 1;
}

abbrev reply : PathNotify
reply = record {
  path = to_third;
  watermark = max_u64;
  source = key 4;
  dest = key 3;
  info = record { seq = 12; path = to_fourth; sig = replicate 64 4 };
}

handle_notify-IsAccepted_example :
    (Keyed.lookup (key 4) (handle_notify toy key_config asking reply 5).0.paths
      ≡ Keyed.lookup (key 4) asking.paths)
    ⊎ ((key 4 ≡ reply.source)
        × IsAccepted toy key_config asking reply
            (Keyed.lookup (key 4) (handle_notify toy key_config asking reply 5).0.paths))
handle_notify-IsAccepted_example = handle_notify-IsAccepted toy key_config asking reply (key 4) 5

abbrev hello : ℕ → Traffic
hello n = record {
  path = [];
  from = [];
  source = key 3;
  dest = key n;
  watermark = max_u64;
  payload = 104 ∷ 105 ∷ [];
}

-- A node with a path to node 2, on which it has sent before.
abbrev busy : Node
busy = record asking {
  paths =
      (
        key 2,
        record {
          path = 5 ∷ [];
          seq = 3;
          req_time = 0;
          timer = 0;
          traffic = some (hello 2);
          broken = false;
        },
      )
      ∷ [];
}

handle_traffic-Returns_example :
    (result : Node × List Effect) × (handle_traffic toy key_config 2 busy (hello 4) 20 1
      ≡ ok result)
    × IsCached result.0.paths
handle_traffic-Returns_example =
    handle_traffic-Returns toy key_config busy (hello 4) 20 1 (refl, tt)

-- Node 3 gets a packet for itself.
abbrev cached : Node
cached = record asking {
  router = record (empty_router (1 ∷ 1 ∷ 1 ∷ [])) { infos = tree; cache = (key 3, to_third) ∷ [] };
}

abbrev home : Traffic
home = record (hello 3) { path = to_third; watermark = 7 }

handle_traffic-IsFair_example :
    IsFair toy key_config cached home (arrived (record home { watermark = 0 }))
unfolding Arrivals.handle_traffic Arrivals.dispatch lookup get_dist Keyed.lookup equal path_dist
    marked reset_timeout
handle_traffic-IsFair_example =
    handle_traffic-IsFair toy key_config cached
      (record cached { router = (lookup cached.router to_third (some 7)).2 }) home 5 6
      (arrived (record home { watermark = 0 })) [] refl
