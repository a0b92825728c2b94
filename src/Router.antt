-- ===== src/Router.antt =====
-- network/router.go: the router's state. The handlers are in the modules below, over the
-- maps of this record. The router is an actor, so its handlers run one at a time.
pub mod Tree
pub mod Distance
pub mod NextHop
pub mod Update
pub mod Handlers
pub mod Parent
pub mod Announces
pub mod PeerSet
pub mod Maintenance
pub mod Sent
pub mod Tests
use ironwood.Base.{ℕ, Bool, List, []}
use ironwood.Wire.{PeerPort}
use ironwood.Crypto.{PublicKey, PrivateKey}
use ironwood.Keyed.{KeyMap}
use ironwood.Messages.SigReq.{RouterSigReq}
use ironwood.Messages.SigRes.{RouterSigRes}
use ironwood.Messages.Announce.{RouterInfo}

-- The fields of a peer that the router reads. `order` is unique, and stands for the pointer.
pub record Peer : Type 0 where
  pub key : PublicKey
  pub port : PeerPort
  pub prio : ℕ
  pub order : ℕ

-- A timer is the number under which it was made. `random` is what crypto/rand will return, and
-- `drawn` counts the draws.
pub record Router : Type 0 where
  pub private_key : PrivateKey
  pub public_key : PublicKey
  pub random : ℕ → ℕ
  pub drawn : ℕ
  pub peers : KeyMap (List Peer)
  pub sent : KeyMap (List PublicKey)
  pub ports : List (PeerPort × PublicKey)
  pub infos : KeyMap RouterInfo
  pub timers : KeyMap ℕ
  pub next_timer : ℕ
  pub ancs : KeyMap (List PublicKey)
  pub cache : KeyMap (List PeerPort)
  pub requests : KeyMap RouterSigReq
  pub responses : KeyMap RouterSigRes
  pub res_seqs : KeyMap ℕ
  pub res_seq_ctr : ℕ
  pub refresh : Bool
  pub do_root1 : Bool
  pub do_root2 : Bool
