-- ===== src/Router/Sent/Fix.antt =====
-- _fix keeps what was sent and what is known together.
use ironwood.Base.{
  ◌+◌, ◌≡◌, refl, subst, Bool, true, false, not, List, [], ◌∷◌, Option, none, some, if◌then◌else◌,
  arith,
}
use ironwood.Types.{Result, ok, err, panic, ◌>>=◌}
use ironwood.Crypto.{PublicKey, Ed25519, equal}
use ironwood.Keyed.{KeyMap, lookup}
use ironwood.Messages.SigRes.{RouterSigRes}
use ironwood.Messages.Announce.{RouterAnnounce}
use ironwood.Messages.Announce
use ironwood.Router.{Router, Peer}
use ironwood.Router.Update.{update}
use ironwood.Router.Handlers.{
  Output, new_req, use_response, own_announce, root_announce, become_root,
}
use ironwood.Router.Parent.{
  clear_reqs, send_req_loop, send_reqs, settled, root_or_wait, try_parent, fix, choose, Choice,
}
use ironwood.Router.Sent.{IsSound, update-IsSound}
use ironwood.Router.Sent.Handlers.{Same, Same-IsSound}

-- What is returned satisfies `P`.
unfoldable pub Keeps : {A : Type 0} → (A → Type 0) → Result A → Type 0
Keeps {A} P m = (a : A) → m ≡ ok a → P a

module _ {A B : Type 0} (P : A → Type 0) (Q : B → Type 0) where
  pub ok-Keeps : (a : A) → P a → Keeps P (ok a)
  unfolding Keeps
  ok-Keeps a h b e = subst P (cc (e)) h

  panic-Keeps : Keeps P panic
  unfolding Keeps
  panic-Keeps b e = absurd (ground (arith, e))

  pub bind-Keeps :
      (m : Result A) (f : A → Result B)
      → Keeps P m
      → ((a : A) → P a → Keeps Q (f a))
      → Keeps Q (m >>= f)
  unfolding Keeps
  bind-Keeps (ok a) f h g b e = g a (h a refl) b e
  bind-Keeps (err x) f h g b e = absurd (ground (arith, e))
  bind-Keeps panic f h g b e = absurd (ground (arith, e))

if-Keeps :
    {A : Type 0} (P : A → Type 0) (b : Bool) (x y : Result A)
    → Keeps P x
    → Keeps P y
    → Keeps P (if b then x else y)
if-Keeps P true x y hx hy = hx
if-Keeps P false x y hx hy = hy

-- Whatever the first step returns.
pub then-Keeps :
    {A B : Type 0} (Q : B → Type 0) (m : Result A) (f : A → Result B)
    → ((a : A) → Keeps Q (f a))
    → Keeps Q (m >>= f)
unfolding Keeps
then-Keeps Q (ok a) f g b e = g a b e
then-Keeps Q (err x) f g b e = absurd (ground (arith, e))
then-Keeps Q panic f g b e = absurd (ground (arith, e))

abbrev pub Sound : Router × List Output → Type 0
Sound x = IsSound x.0

abbrev SoundAfter : Bool × Router → Type 0
SoundAfter x = IsSound x.1

send_req_loop-Same :
    (peers : KeyMap (List Peer)) (r : Router) (out : List Output)
    → Same r (send_req_loop peers r out).0
unfolding send_req_loop new_req
send_req_loop-Same [] r out = (refl, refl, refl)
send_req_loop-Same ((k, ps) ∷ peers) r out = send_req_loop-Same peers _ _

module _ (ed : Ed25519) where
  settled-IsSound : (r : Router) → IsSound r → IsSound (settled ed r).0
  unfolding settled send_reqs clear_reqs
  settled-IsSound r s = Same-IsSound r _ (send_req_loop-Same r.peers _ []) s

  update-Keeps :
      (r : Router) (ann : RouterAnnounce) → IsSound r → Keeps SoundAfter (ok (update r ann))
  update-Keeps r ann s = ok-Keeps SoundAfter SoundAfter (update r ann) (update-IsSound r ann s).0

  become_root-Keeps : (r : Router) → IsSound r → Keeps SoundAfter (become_root ed r)
  unfolding become_root new_req
  become_root-Keeps r s =
      let drawn : Router = record r { drawn = r.drawn + 1 } in
      then-Keeps SoundAfter (root_announce ed drawn (new_req r).0) _ (λ ann.
        then-Keeps SoundAfter (Announce.check ed ann) _ (λ b.
          elim b as (λ b. Keeps SoundAfter (if b then ok (update drawn ann) else panic)) [
            | true ↦ update-Keeps drawn ann (Same-IsSound r drawn (refl, refl, refl) s)
            | false ↦ panic-Keeps SoundAfter SoundAfter
          ]))

  use_response-Keeps :
      (r : Router) (k : PublicKey) (res : RouterSigRes)
      → IsSound r
      → Keeps SoundAfter (use_response ed r k res)
  unfolding use_response
  use_response-Keeps r k res s =
      then-Keeps SoundAfter (own_announce ed r k res) _ (λ ann. update-Keeps r ann s)

  root_or_wait-Keeps : (r : Router) → IsSound r → Keeps Sound (root_or_wait ed r)
  unfolding root_or_wait
  root_or_wait-Keeps r s =
      if-Keeps Sound r.do_root2 _ _
        (bind-Keeps SoundAfter Sound (become_root ed r) _ (become_root-Keeps r s) (λ x h.
          if-Keeps Sound x.0 _ _ (ok-Keeps Sound Sound (settled ed x.1) (settled-IsSound x.1 h))
            (panic-Keeps Sound Sound)))
        (if-Keeps Sound (not r.do_root1) _ _
          (ok-Keeps Sound Sound (record r { do_root1 = true }, [])
            (Same-IsSound r (record r { do_root1 = true }) (refl, refl, refl) s))
          (ok-Keeps Sound Sound (r, []) s))

  try_parent-Keeps :
      (r : Router) (best : Choice) (res : Option RouterSigRes)
      → IsSound r
      → Keeps Sound (try_parent ed r best res)
  unfolding try_parent
  try_parent-Keeps r best none s = root_or_wait-Keeps r s
  try_parent-Keeps r best (some res) s =
      if-Keeps Sound (not (equal best.root r.public_key)) _ _
        (bind-Keeps SoundAfter Sound (use_response ed r best.parent res) _
          (use_response-Keeps r best.parent res s)
          (λ x h.
            if-Keeps Sound x.0 _ _ (ok-Keeps Sound Sound (settled ed x.1) (settled-IsSound x.1 h))
              (root_or_wait-Keeps x.1 h)))
        (root_or_wait-Keeps r s)

  pub fix-IsSound :
      (r r' : Router) (out : List Output) → fix ed r ≡ ok (r', out) → IsSound r → IsSound r'
  unfolding fix Keeps
  fix-IsSound r r' out e s =
      if-Keeps Sound _ _ _ (try_parent-Keeps r (choose r) (lookup (choose r).parent r.responses) s)
        (ok-Keeps Sound Sound (r, []) s) (r', out) e
