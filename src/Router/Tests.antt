-- ===== src/Router/Tests.antt =====
-- The router on concrete keys, infos and peers.
use ironwood.Base.{
  ℕ, ◌+◌, ◌^◌, ◌<◌, ◌≤◌, ◌≡◌, ◌↔◌, inl, inr, refl, true, false, List, [], ◌∷◌, Option, some, All,
  replicate, take, length, arith,
}
use ironwood.Types.{ok}
use ironwood.Wire.{PeerPort}
use ironwood.Crypto.{PublicKey, PrivateKey, Ed25519, equal, less}
use ironwood.Crypto.Order.{equal_refl}
use ironwood.Keyed.{KeyMap, get_or}
use ironwood.Keyed
use ironwood.Messages.SigReq.{RouterSigReq}
use ironwood.Messages.SigRes.{RouterSigRes}
use ironwood.Messages.SigRes
use ironwood.Messages.Announce.{RouterAnnounce, RouterInfo}
use ironwood.Messages.Announce
use ironwood.Router.{Router, Peer}
use ironwood.Router.Tree.{Infos, get_root_and_path}
use ironwood.Router.Tree.RootPath.{Leads, get_root_and_path-Leads}
use ironwood.Router.Distance.{get_dist, empty-IsCoherent, path_dist, key_path}
use ironwood.Router.Distance.Metric.{path_dist_metric}
use ironwood.Router.NextHop.{
  lookup, search_peers, scan, refine, pick, is_better, tiebreak, take_first,
}
use ironwood.Router.NextHop.Scan.{Entry, tree_dist}
use ironwood.Router.NextHop.Greedy.{Routed, lookup_greedy}
use ironwood.Router.NextHop.Progress.{stop, hop, hops-le-watermark}
use ironwood.Router.Update.Merge.{updates}
use ironwood.Router.Update.Converge.{Agree, updates-Agree}
use ironwood.Router.Handlers.{
  Output, send_sig_res, zero_req, zero_sig, zero_info, handle_request, own_announce, become_root,
}
use ironwood.Router.Handlers.Signing.{handshake-check, become_root_succeeds}
use ironwood.Router.Parent.{choose, fix}
use ironwood.Router.Tree.Chain.{RootPath}
use ironwood.Router.Tree.Walk.{IsAbove}
use ironwood.Router.Parent.Choosing.{Chosen, choose_best}
use ironwood.Router.Parent.Total.{fix-Returns, fix_becomes_root}

-- A signature scheme: a key's signatures begin with it.
abbrev pub toy : Ed25519
toy = record {
  public = λ k. replicate 32 (length k);
  sign = λ k m. replicate 64 (length k);
  verify = λ k m s. equal (take 32 s) k;
  public-IsPublicKey = λ k. refl;
  sign-IsSignature = λ k m. refl;
  verify-sign = λ k m. equal_refl (replicate 32 (length k));
}

abbrev pub key : ℕ → PublicKey
key n = replicate 32 n

abbrev pub info_under : PublicKey → PeerPort → RouterInfo
info_under parent port = record {
  parent = parent;
  res = record { req = zero_req; port = port; psig = zero_sig };
  sig = zero_sig;
}

-- Node 1 is the root; 2 is its child, and 3 and 4 are children of 2.
abbrev pub tree : Infos
tree =
    (key 1, info_under (key 1) 0)
    ∷ (key 2, info_under (key 1) 5)
    ∷ (key 3, info_under (key 2) 6)
    ∷ (key 4, info_under (key 2) 7)
    ∷ []

abbrev pub peer : ℕ → Peer
peer n = record { key = key n; port = n; prio = 0; order = n }

abbrev pub empty_router : PrivateKey → Router
empty_router k = record {
  private_key = k;
  public_key = toy.public k;
  random = λ n. n;
  drawn = 0;
  peers = [];
  sent = [];
  ports = [];
  infos = [];
  timers = [];
  next_timer = 0;
  ancs = [];
  cache = [];
  requests = [];
  responses = [];
  res_seqs = [];
  res_seq_ctr = 0;
  refresh = false;
  do_root1 = false;
  do_root2 = false;
}

-- Node 3, whose peer is node 2, which answered its request.
abbrev third : Router
third = record (empty_router (1 ∷ 1 ∷ 1 ∷ [])) {
  peers = (key 2, peer 2 ∷ []) ∷ [];
  infos = tree;
  responses = (key 2, record { req = zero_req; port = 6; psig = zero_sig }) ∷ [];
}

get_root_and_path-Leads_example : Leads tree (key 4) (get_root_and_path tree (key 4))
get_root_and_path-Leads_example = get_root_and_path-Leads tree (key 4)

-- From the root to node 3 and to node 4.
abbrev pub to_third : List PeerPort
to_third = 5 ∷ 6 ∷ []

abbrev pub to_fourth : List PeerPort
to_fourth = 5 ∷ 7 ∷ []

path_dist_metric_example :
    (path_dist to_third to_fourth ≡ path_dist to_fourth to_third)
    × ((path_dist to_third to_fourth ≡ 0) ↔ (to_third ≡ to_fourth))
    × (path_dist to_third [] ≤ path_dist to_third to_fourth + path_dist to_fourth [])
path_dist_metric_example = path_dist_metric to_third to_fourth []

third-Entry : All Entry third.peers
third-Entry = ((λ e. absurd (ground (arith, e)), (refl, tt)), tt)

lookup_greedy_example :
    Routed tree third.peers to_fourth
      (tree_dist tree to_fourth third.public_key)
      9
      (lookup third to_fourth (some 9))
lookup_greedy_example = lookup_greedy third to_fourth 9 (empty-IsCoherent tree) third-Entry

-- A network of two nodes with short keys: node 2 below node 1, which is its peer.
abbrev one : Peer
one = record { key = 1 ∷ []; port = 4; prio = 0; order = 0 }

abbrev second : Router
second = record (empty_router []) {
  public_key = 2 ∷ [];
  peers = (1 ∷ [], one ∷ []) ∷ [];
  infos = (1 ∷ [], info_under (1 ∷ []) 0) ∷ (2 ∷ [], info_under (1 ∷ []) 5) ∷ [];
}

second_hop :
    ◌≡◌ {A = Option Peer × Option ℕ × Router}
      (lookup second [] (some 9))
      (some one, some 1, (lookup second [] (some 9)).2)
unfolding lookup get_dist path_dist key_path get_root_and_path search_peers scan refine is_better
    tiebreak take_first pick Keyed.insert Keyed.lookup get_or equal less Keyed.contains
second_hop = refl

hops-le-watermark_example : 1 ≤ 9
hops-le-watermark_example =
    hops-le-watermark [] (hop second (lookup second [] (some 9)).2 one second_hop (stop refl) refl)

-- Two announcements of node 5, with one seq and two parents.
abbrev ann_under : ℕ → RouterAnnounce
ann_under n = record {
  key = key 5;
  parent = key n;
  res = record { req = record { seq = 8; nonce = n }; port = 1; psig = zero_sig };
  sig = zero_sig;
}

abbrev heard_first : List RouterAnnounce
heard_first = ann_under 1 ∷ ann_under 2 ∷ []

abbrev heard_second : List RouterAnnounce
heard_second = ann_under 2 ∷ ann_under 1 ∷ ann_under 2 ∷ []

updates-Agree_example :
    Agree
      (Keyed.lookup (key 5) (updates (empty_router []) heard_first).infos)
      (Keyed.lookup (key 5) (updates (empty_router (1 ∷ [])) heard_second).infos)
updates-Agree_example =
    updates-Agree (empty_router []) (empty_router (1 ∷ [])) heard_first heard_second (key 5) refl
      refl (refl, (refl, tt)) (refl, (refl, (refl, tt)))
      (λ a m. elim m [
        | inl e ↦ inr (inl e)
        | inr n ↦ elim n [ inl e ↦ inl e | inr none' ↦ absurd none' ]
      ])
      (λ a m. elim m [
        | inl e ↦ inr (inl e)
        | inr n ↦ elim n [
          | inl e ↦ inl e
          | inr l ↦ elim l [ inl e ↦ inr (inl e) | inr none' ↦ absurd none' ]
        ]
      ])

choose_best_example :
    (less third.public_key (choose third).root ≡ false)
    × ((pk root : PublicKey) (up : List PeerPort)
        → Keyed.has pk third.responses ≡ true
        → RootPath third.infos pk root up
        → (IsAbove third.infos third.public_key pk → ⊥)
        → less root (choose third).root ≡ false)
    × Chosen third (choose third)
choose_best_example = choose_best third

-- A node without peers, that has waited for two rounds of maintenance.
abbrev lonely : Router
lonely = record (empty_router (1 ∷ [])) { do_root1 = true; do_root2 = true }

fits_lonely : (get_or zero_info lonely.public_key lonely.infos).seq + 1 < 2 ^ 64
unfolding get_or Keyed.lookup
fits_lonely = omega arith

chosen_lonely : (choose lonely).root ≡ lonely.public_key
unfolding Keyed.has
chosen_lonely = elim (choose_best lonely).2 [
  | inl self ↦ self.0
  | inr other ↦ elim other [
    | inl kept ↦ absurd (ground (arith, kept.1))
    | inr new ↦ absurd (ground (arith, new.0))
  ]
]

become_root_succeeds_example :
    (r' : Router) × (info : RouterInfo) × (become_root toy lonely ≡ ok (true, r'))
    × (Keyed.lookup lonely.public_key r'.infos ≡ some info)
    × (info.parent ≡ lonely.public_key)
    × (info.seq ≡ (get_or zero_info lonely.public_key lonely.infos).seq + 1)
become_root_succeeds_example = become_root_succeeds toy lonely refl fits_lonely

fix-Returns_example : (x : Router × List Output) × (fix toy lonely ≡ ok x)
fix-Returns_example = fix-Returns toy lonely refl fits_lonely

fix_becomes_root_example :
    (s : Router) × (out : List Output) × (info : RouterInfo) × (fix toy lonely ≡ ok (s, out))
    × (Keyed.lookup lonely.public_key s.infos ≡ some info)
    × (info.parent ≡ lonely.public_key)
    × (info.seq ≡ (get_or zero_info lonely.public_key lonely.infos).seq + 1)
    × (s.refresh ≡ false)
    × (s.do_root1 ≡ false)
    × (s.do_root2 ≡ false)
fix_becomes_root_example = fix_becomes_root toy lonely refl fits_lonely refl chosen_lonely

abbrev child_link : Peer
child_link = record { key = lonely.public_key; port = 3; prio = 0; order = 0 }

abbrev request : RouterSigReq
request = record { seq = 4; nonce = 77 }

handshake-check_example :
    (res : RouterSigRes) × (ann : RouterAnnounce) × (handle_request toy third child_link request
      ≡ ok (third, send_sig_res child_link res ∷ []))
    × (res.req ≡ request)
    × (res.port ≡ child_link.port)
    × (SigRes.check toy res lonely.public_key third.public_key ≡ ok true)
    × (own_announce toy lonely third.public_key res ≡ ok ann)
    × (Announce.check toy ann ≡ ok true)
handshake-check_example =
    handshake-check toy lonely third child_link request refl refl refl
      (λ e. absurd (omega (arith, e)))
