-- ===== src/Pathfinder/Arrivals.antt =====
-- handleTraffic of network/router.go, which hands traffic to the next hop, to the connection, or to
-- the pathfinder.
use ironwood.Base.{
  ℕ, ◌<◌, ◌≡◌, ◌≢◌, refl, sym, ap, inl, inr, List, [], Option, none, some, if◌then◌else◌,
  Bool-cases, arith, subst,
}
use ironwood.Types.{Result, ok, ◌>>=◌}
use ironwood.Crypto.{Ed25519, equal}
use ironwood.Crypto.Order.{equal_iff}
use ironwood.Messages.Traffic.{Traffic}
use ironwood.Router.{Router, Peer}
use ironwood.Router.NextHop.{lookup}
use ironwood.Router.NextHop.Progress.{lookup_lowers}
use ironwood.Router.Sent.Fix.{Keeps, then-Keeps, ok-Keeps}
use ironwood.Pathfinder.{Node, Effect, Config, marked, reset_timeout}
use ironwood.Pathfinder.Forwarding.{do_broken}

-- Where the packet goes: to a peer, to the connection, or nowhere.
pub data Outcome : Type 0 where
  sent : Peer → Traffic → Outcome
  arrived : Traffic → Outcome
  lost : Outcome

module _ (ed : Ed25519) (config : Config) where
  -- Behind _lookup, which may have lowered the watermark.
  unfoldable pub dispatch :
      Node
      → Traffic
      → Option Peer
      → Option ℕ
      → Router
      → ℕ
      → ℕ
      → Result (Node × Outcome × List Effect)
  dispatch n tr (some p) mark r' now unix =
      ok (record n { router = r' }, sent p (record tr { watermark = marked mark tr.watermark }), [])
  dispatch n tr none mark r' now unix =
      let n' : Node = record n { router = r' } in
      let tr' : Traffic = record tr { watermark = marked mark tr.watermark } in
      let broken = do (n'', out) ← do_broken ed config n' tr' now unix; ok (n'', lost, out)
      in if equal tr.dest n.router.public_key
        then ok (n', arrived tr', reset_timeout n' tr.source)
        else broken

  unfoldable pub handle_traffic : Node → Traffic → ℕ → ℕ → Result (Node × Outcome × List Effect)
  unfolding dispatch
  handle_traffic n tr now unix =
      let (next, mark, r') = lookup n.router tr.path (some tr.watermark) in
      dispatch n tr next mark r' now unix

  -- What must hold of an outcome.
  pub IsFair : Node → Traffic → Outcome → Type 0
  IsFair n tr (sent p tr') =
      (tr'.watermark < tr.watermark) × (tr' ≡ (record tr { watermark = tr'.watermark }))
  IsFair n tr (arrived tr') =
      (tr.dest ≡ n.router.public_key) × (tr' ≡ (record tr { watermark = tr'.watermark }))
  IsFair n tr lost = tr.dest ≢ n.router.public_key

  abbrev Fair : Node → Traffic → Node × Outcome × List Effect → Type 0
  Fair n tr x = IsFair n tr x.1

  dispatch-IsFair :
      (n : Node) (tr : Traffic) (next : Option Peer) (mark : Option ℕ) (r' : Router) (now unix : ℕ)
      → ((p : Peer) → next ≡ some p → marked mark tr.watermark < tr.watermark)
      → Keeps (Fair n tr) (dispatch n tr next mark r' now unix)
  unfolding dispatch IsFair
  dispatch-IsFair n tr (some p) mark r' now unix lower =
      ok-Keeps (Fair n tr) (Fair n tr) _ (lower p refl, refl)
  dispatch-IsFair n tr none mark r' now unix lower =
      elim (Bool-cases (equal tr.dest n.router.public_key)) [
        | inl here ↦ rw (here) (
            ok-Keeps (Fair n tr) (Fair n tr) _
              ((equal_iff tr.dest n.router.public_key).0 here, refl))
        | inr other ↦ rw (other) (
            then-Keeps (Fair n tr) (do_broken ed config _ _ now unix) _ (λ x.
              ok-Keeps (Fair n tr) (Fair n tr) (x.0, lost, x.1)
                (λ e. absurd (ground (arith, (equal_iff tr.dest n.router.public_key).1 e, other)))))
      ]

  -- What handleTraffic hands to a peer has a lower watermark, what it hands to the connection is addressed to
  -- this node, and nothing of either packet but the watermark was changed; only a packet for another
  -- node is given up.
  pub handle_traffic-IsFair :
      (n n' : Node) (tr : Traffic) (now unix : ℕ) (o : Outcome) (out : List Effect)
      → handle_traffic n tr now unix ≡ ok (n', o, out)
      → IsFair n tr o
  unfolding handle_traffic Keeps marked
  handle_traffic-IsFair n n' tr now unix o out e =
      let found = lookup n.router tr.path (some tr.watermark) in
      dispatch-IsFair n tr found.0 found.1 found.2 now unix
        (λ p next.
          let (lower, at_mark, less) =
            lookup_lowers n.router found.2 tr.path tr.watermark p found.1
              (ap (λ (q : Option Peer). (q, found.1, found.2)) next) in
          subst (λ (m : Option ℕ). marked m tr.watermark < tr.watermark) (sym at_mark)
            (lowered lower less))
        (n', o, out) e
    where
      lowered : (lower : ℕ) → lower < tr.watermark → marked (some lower) tr.watermark < tr.watermark
      lowered lower h = h
