-- ===== src/Peers/Monitor.antt =====
-- The peerMonitor of network/peers.go: when a keepalive is due, and until when the other side may be
-- silent. Times are numbers; a timer and a read deadline are the times at which they run out.
pub mod Silence
use ironwood.Base.{ℕ, ◌+◌, Bool, true, false, List, [], ◌∷◌, Option, none, some, leb, if◌then◌else◌}

-- The configured delay of a keepalive, and the time that an answer may take.
pub record Delays : Type 0 where
  pub keep_alive_delay : ℕ
  pub timeout : ℕ

-- `done` is whether the handler of the peer has ended.
pub record Monitor : Type 0 where
  pub done : Bool
  pub keep_alive_timer : Option ℕ
  pub deadline : Option ℕ
  pub deadlined : Bool

unfoldable pub new_monitor : Monitor
new_monitor = record { done = false; keep_alive_timer = none; deadline = none; deadlined = false }

-- The packet types above wireDummy and wireKeepAlive.
unfoldable pub is_traffic : ℕ → Bool
is_traffic kind = if leb kind 1 then false else true

unfoldable pub sent : Delays → ℕ → ℕ → Monitor → Monitor
sent d kind now m =
    if m.deadlined
    then record m { keep_alive_timer = none }
    else if is_traffic kind
    then record m { keep_alive_timer = none; deadline = some (now + d.timeout); deadlined = true }
    else record m { keep_alive_timer = none }

-- The timer that recv leaves, by `done` and the timer that it finds.
unfoldable pub armed : Delays → ℕ → ℕ → Bool → Option ℕ → Option ℕ
armed d kind now done (some t) = some t
armed d kind now done none =
    if is_traffic kind then (if done then none else some (now + d.keep_alive_delay)) else none

unfoldable pub recv : Delays → ℕ → ℕ → Monitor → Monitor
unfolding armed
recv d kind now m = record m {
  keep_alive_timer = armed d kind now m.done m.keep_alive_timer;
  deadline = none;
  deadlined = false;
}

-- A packet of a type that was written, or read, at a time.
pub data Event : Type 0 where
  sends receives : ℕ → ℕ → Event

unfoldable pub notes : Delays → Event → Monitor → Monitor
notes d (sends kind now) m = sent d kind now m
notes d (receives kind now) m = recv d kind now m

-- The monitor after some events, the latest first.
unfoldable pub after : Delays → List Event → Monitor
unfolding notes
after d [] = new_monitor
after d (e ∷ es) = notes d e (after d es)
