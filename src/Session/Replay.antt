-- ===== src/Session/Replay.antt =====
-- A packet that is given to doRecv once more, at once.
pub mod Nonces
use ironwood.Base.{
  ℕ, ◌^◌, ◌<◌, ◌≡◌, ◌⊎◌, refl, sym, ap, ◌∙◌, inl, inr, subst, true, false, not, ◌||◌, List, [], ◌∷◌,
  Option, none, some, ltb, ◌==◌, if◌then◌else◌, length, arith, Bool-cases, Option-cases, drop, take,
}
use ironwood.Types.{Result, ok, err, panic}
use ironwood.Wire.{Bytes}
use ironwood.Session.{
  Box, BoxPriv, SessionInfo, Effect, deliver, reset_timer, next64, fix_shared, advance,
  nonce_for_uint64, type_traffic, traffic_overhead_min, box_pub_size,
}
use ironwood.Session.Recv.{
  Way, to_recv, to_next_send, to_next_recv, unknown, way, last_nonce, key_of, may_rotate, rotate,
  on_success, counted, opened, recv_way, recv_header, recv_from, do_recv,
}
use ironwood.Session.Ratchet.{recv_from-header}
use ironwood.Session.Conversation.{deliveries}
use ironwood.Session.Replay.Nonces.{Quiet, Spent, left, stale, spent, Spent-Quiet}

module _ (box : Box) where
  -- recv_way, where the way is known.
  attempt : Way → SessionInfo → ℕ → Bytes → ℕ → ℕ → BoxPriv → Result (SessionInfo × List Effect)
  attempt w info nonce boxed now unix fresh =
      if not (ltb (last_nonce w info) nonce)
      then ok (info, [])
      else opened box w info nonce (box.open_box boxed (nonce_for_uint64 nonce) (key_of w info)) now
          unix fresh

  attempt_old :
      (w : Way) (info : SessionInfo) (nonce : ℕ) (boxed : Bytes) (now unix : ℕ) (fresh : BoxPriv)
      → ltb (last_nonce w info) nonce ≡ false
      → attempt w info nonce boxed now unix fresh ≡ ok (info, [])
  unfolding attempt
  attempt_old w info nonce boxed now unix fresh old = rw (old) refl

  attempt_new :
      (w : Way) (info : SessionInfo) (nonce : ℕ) (boxed : Bytes) (now unix : ℕ) (fresh : BoxPriv)
      (o : Option Bytes)
      → ltb (last_nonce w info) nonce ≡ true
      → box.open_box boxed (nonce_for_uint64 nonce) (key_of w info) ≡ o
      → attempt w info nonce boxed now unix fresh ≡ opened box w info nonce o now unix fresh
  unfolding attempt
  attempt_new w info nonce boxed now unix fresh o new reads = rw (new, reads) refl

  opened-some :
      (w : Way) (info : SessionInfo) (nonce : ℕ) (text : Bytes) (now unix : ℕ) (fresh : BoxPriv)
      → ltb (length text) box_pub_size ≡ false
      → opened box w info nonce (some text) now unix fresh
        ≡ ok (
          counted
              (on_success box w info nonce (take box_pub_size text) now fresh)
              (drop box_pub_size text),
          deliver (drop box_pub_size text) ∷ reset_timer ∷ [],
        )
  unfolding opened
  opened-some w info nonce text now unix fresh whole = rw (whole) refl

  opened_short :
      (w : Way) (info : SessionInfo) (nonce : ℕ) (text : Bytes) (now unix : ℕ) (fresh : BoxPriv)
      → ltb (length text) box_pub_size ≡ true
      → opened box w info nonce (some text) now unix fresh ≡ panic
  unfolding opened
  opened_short w info nonce text now unix fresh short = rw (short) refl

  attempt_again :
      (w : Way) (info info' : SessionInfo) (r l nonce : ℕ) (boxed : Bytes) (out : List Effect)
      (now unix now' unix' : ℕ) (fresh fresh' : BoxPriv)
      → way info r l ≡ w
      → attempt w info nonce boxed now unix fresh ≡ ok (info', out)
      → recv_way box w info nonce boxed now' unix' fresh'
        ≡ attempt w info nonce boxed now' unix' fresh'
      → Quiet info' (recv_way box (way info' r l) info' nonce boxed now' unix' fresh')
  unfolding opened Quiet deliveries
  attempt_again w info info' r l nonce boxed out now unix now' unix' fresh fresh' known e same =
      elim (Bool-cases (ltb (last_nonce w info) nonce)) [
        | inr old ↦
            moved (left (sym (attempt_old w info nonce boxed now unix fresh old) ∙ e))
              (rw known (stale box w info nonce boxed now' unix' fresh' old))
        | inl new ↦
            elim (Option-cases (box.open_box boxed (nonce_for_uint64 nonce) (key_of w info))) [
              | inl shut ↦
                  moved
                    (left (sym (attempt_new w info nonce boxed now unix fresh none new shut) ∙ e))
                    (rw
                      (known, same, attempt_new w info nonce boxed now' unix' fresh' none new shut)
                      (_, refl, refl))
              | inr (text, reads) ↦
                  let first =
                    sym (attempt_new w info nonce boxed now unix fresh (some text) new reads) ∙ e in
                  elim (Bool-cases (ltb (length text) box_pub_size)) [
                    | inl short ↦ absurd (
                        ground (
                          arith,
                          sym (opened_short w info nonce text now unix fresh short) ∙ first,
                        ))
                    | inr whole ↦
                        moved
                          (left (sym (opened-some w info nonce text now unix fresh whole) ∙ first))
                          (Spent-Quiet box _ r l nonce boxed now' unix' fresh' (
                            spent box w info r l nonce (take box_pub_size text)
                              (drop box_pub_size text) now fresh known))
                  ]
            ]
      ]
    where
      moved :
          {i : SessionInfo}
          → i ≡ info'
          → Quiet i (recv_way box (way i r l) i nonce boxed now' unix' fresh')
          → Quiet info' (recv_way box (way info' r l) info' nonce boxed now' unix' fresh')
      moved p q =
          subst
            (λ (i : SessionInfo).
              Quiet i (recv_way box (way i r l) i nonce boxed now' unix' fresh'))
            p q

  -- The packet again, to the session that it left.
  again :
      (w : Way) (info info' : SessionInfo) (r l nonce : ℕ) (boxed : Bytes) (out : List Effect)
      (now unix now' unix' : ℕ) (fresh fresh' : BoxPriv)
      → way info r l ≡ w
      → recv_way box w info nonce boxed now unix fresh ≡ ok (info', out)
      → Quiet info' (recv_way box (way info' r l) info' nonce boxed now' unix' fresh')
  unfolding recv_way attempt Spent
  again to_recv info info' r l nonce boxed out now unix now' unix' fresh fresh' known e =
      attempt_again to_recv info info' r l nonce boxed out now unix now' unix' fresh fresh' known e
        refl
  again to_next_send info info' r l nonce boxed out now unix now' unix' fresh fresh' known e =
      attempt_again to_next_send info info' r l nonce boxed out now unix now' unix' fresh fresh'
        known e refl
  again to_next_recv info info' r l nonce boxed out now unix now' unix' fresh fresh' known e =
      attempt_again to_next_recv info info' r l nonce boxed out now unix now' unix' fresh fresh'
        known e refl
  again unknown info info' r l nonce boxed out now unix now' unix' fresh fresh' known e =
      subst
        (λ (i : SessionInfo). Quiet i (recv_way box (way i r l) i nonce boxed now' unix' fresh'))
        (left e) (Spent-Quiet box info r l nonce boxed now' unix' fresh' (inl known))

  refused :
      (info : SessionInfo) (b : ℕ) (msg : Bytes) (now unix : ℕ) (fresh : BoxPriv)
      → (ltb (length (b ∷ msg)) traffic_overhead_min || not (b == type_traffic)) ≡ true
      → do_recv box info (b ∷ msg) now unix fresh ≡ ok (info, [])
  unfolding do_recv
  refused info b msg now unix fresh bad = rw (bad) refl

  admitted :
      (info : SessionInfo) (b : ℕ) (msg : Bytes) (now unix : ℕ) (fresh : BoxPriv)
      → (ltb (length (b ∷ msg)) traffic_overhead_min || not (b == type_traffic)) ≡ false
      → do_recv box info (b ∷ msg) now unix fresh ≡ recv_from box info msg now unix fresh
  unfolding do_recv
  admitted info b msg now unix fresh good = rw (good) refl

  unread :
      (info : SessionInfo) (msg : Bytes) (now unix : ℕ) (fresh : BoxPriv)
      → recv_header msg ≡ none
      → recv_from box info msg now unix fresh ≡ ok (info, [])
  unfolding recv_from
  unread info msg now unix fresh bad = rw (bad, recv_from) refl

  recv_from-recv_from :
      (info info' : SessionInfo) (msg : Bytes) (out : List Effect) (now unix now' unix' : ℕ)
      (fresh fresh' : BoxPriv)
      → recv_from box info msg now unix fresh ≡ ok (info', out)
      → Quiet info' (recv_from box info' msg now' unix' fresh')
  unfolding Quiet deliveries
  recv_from-recv_from info info' msg out now unix now' unix' fresh fresh' e =
      elim (Option-cases (recv_header msg)) [
        | inl bad ↦ ([], unread info' msg now' unix' fresh' bad, refl)
        | inr ((r, l, nonce, boxed), reads) ↦
            rw (recv_from-header box info' msg boxed r l nonce now' unix' fresh' reads) (
              again (way info r l) info info' r l nonce boxed out now unix now' unix' fresh fresh'
                refl (sym (recv_from-header box info msg boxed r l nonce now unix fresh reads) ∙ e))
      ]

  -- Whatever doRecv made of a packet, and whatever session it met, the session that it left takes the same
  -- packet again, as the next one and at any time, without a change and delivers nothing. Of a packet
  -- that comes again after others it says nothing.
  pub do_recv-do_recv :
      (info info' : SessionInfo) (bs : Bytes) (out : List Effect) (now unix now' unix' : ℕ)
      (fresh fresh' : BoxPriv)
      → do_recv box info bs now unix fresh ≡ ok (info', out)
      → (out' : List Effect) × (do_recv box info' bs now' unix' fresh' ≡ ok (info', out'))
        × (deliveries out' ≡ [])
  unfolding Quiet do_recv deliveries
  do_recv-do_recv info info' [] out now unix now' unix' fresh fresh' e = ([], refl, refl)
  do_recv-do_recv info info' (b ∷ msg) out now unix now' unix' fresh fresh' e =
      elim (Bool-cases (ltb (length (b ∷ msg)) traffic_overhead_min || not (b == type_traffic))) [
        | inl bad ↦ ([], refused info' b msg now' unix' fresh' bad, refl)
        | inr good ↦ rw (admitted info' b msg now' unix' fresh' good) (
            recv_from-recv_from info info' msg out now unix now' unix' fresh fresh'
              (sym (admitted info b msg now unix fresh good) ∙ e))
      ]
