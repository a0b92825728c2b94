-- ===== src/Router/Maintenance.antt =====
-- init, _doMaintenance and _shutdown of network/router.go.
use ironwood.Base.{ℕ, Bool, true, false, not, ◌||◌, List, [], ◌++◌, if◌then◌else◌}
use ironwood.Types.{Result, ok, ◌>>=◌}
use ironwood.Crypto.{PublicKey, PrivateKey, Ed25519}
use ironwood.Router.{Router}
use ironwood.Router.Update.{reset_cache}
use ironwood.Router.Handlers.{Output}
use ironwood.Router.Parent.{fix}
use ironwood.Router.Announces.{update_ancestries, send_announces}
use ironwood.Blooms.{Filter, Blooms, Sent}
use ironwood.Blooms

module _ (ed : Ed25519) where
  -- The maps are empty, and doRoot2 makes the first maintenance become a root.
  unfoldable pub init : PrivateKey → (ℕ → ℕ) → Router
  init private_key random = record {
    private_key = private_key;
    public_key = ed.public private_key;
    random = random;
    drawn = 0;
    peers = [];
    sent = [];
    ports = [];
    infos = [];
    timers = [];
    next_timer = 0;
    ancs = [];
    cache = [];
    requests = [];
    responses = [];
    res_seqs = [];
    res_seq_ctr = 0;
    refresh = false;
    do_root1 = false;
    do_root2 = true;
  }

  -- _doMaintenance without the blooms.
  unfoldable pub maintain : Router → Result (Router × List Output)
  unfolding reset_cache update_ancestries
  maintain r =
      let r1 = update_ancestries (reset_cache (record r { do_root2 = r.do_root2 || r.do_root1 })) in
      do (r2, out) ← fix ed r1; (r3, out') ← send_announces r2; ok (r3, out ++ out')

module _ (filter : Filter) where
  -- The router with its blooms. `running` tells that mainTimer is not nil.
  pub record Maintained : Type 0 where
    pub r : Router
    pub blooms : Blooms filter
    pub running : Bool

  unfoldable pub shutdown : Maintained → Maintained
  shutdown m = record m { running = false }

module _ (ed : Ed25519) (filter : Filter) where
  -- Parameter `self` is the node's own key as xKey transforms it.
  unfoldable pub do_maintenance :
      PublicKey → Maintained filter → Result (Maintained filter × List Output × Sent filter)
  unfolding maintain
  do_maintenance self m =
      let done = do
        (r', out) ← maintain ed m.r
        (blooms', sent) ← Blooms.do_maintenance filter r' self m.blooms
        ok (record m { r = r'; blooms = blooms' }, out, sent)
      in if not m.running then ok (m, [], []) else done
