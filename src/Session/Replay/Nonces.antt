-- ===== src/Session/Replay/Nonces.antt =====
-- The nonces behind doRecv: a packet that was accepted is old afterwards.
use ironwood.Base.{
  ℕ, ◌^◌, ◌<◌, ◌≡◌, ◌⊎◌, refl, ap, inl, inr, false, List, [], ltb, arith, Bool-cases,
}
use ironwood.Types.{Result, ok, err, panic}
use ironwood.Wire.{Bytes}
use ironwood.Session.{Box, BoxPriv, SessionInfo, Effect, next64, fix_shared, advance}
use ironwood.Session.Recv.{
  Way, to_recv, to_next_send, to_next_recv, unknown, way, last_nonce, may_rotate, rotate,
  on_success, counted, recv_way,
}
use ironwood.Session.Conversation.{deliveries}

-- The session stays as it is, and delivers nothing.
unfoldable pub Quiet : SessionInfo → Result (SessionInfo × List Effect) → Type 0
Quiet info r = (out : List Effect) × (r ≡ ok (info, out)) × (deliveries out ≡ [])

abbrev left_in : SessionInfo → Result (SessionInfo × List Effect) → SessionInfo
left_in info (ok (info', _)) = info'
left_in info (err _) = info
left_in info panic = info

pub left :
    {a b : SessionInfo} {out out' : List Effect}
    → ◌≡◌ {A = Result (SessionInfo × List Effect)} (ok (a, out)) (ok (b, out'))
    → a ≡ b
left {a} e = ap (left_in a) e

same_way :
    (info info' : SessionInfo) (r l : ℕ)
    → info'.remote_key_seq ≡ info.remote_key_seq
    → info'.local_key_seq ≡ info.local_key_seq
    → way info' r l ≡ way info r l
unfolding way
same_way info info' r l er el = rw (er, el) refl

ltb_irrefl : (n : ℕ) → ltb n n ≡ false
ltb_irrefl n = ground arith

to_next_send_numbers :
    (info : SessionInfo) (r l : ℕ)
    → way info r l ≡ to_next_send
    → (r ≡ next64 info.remote_key_seq) × (l ≡ info.local_key_seq)
unfolding way
to_next_send_numbers info r l known = (ground (arith, known), ground (arith, known))

to_next_recv_numbers :
    (info : SessionInfo) (r l : ℕ)
    → way info r l ≡ to_next_recv
    → (r ≡ next64 info.remote_key_seq) × (next64 l ≡ info.local_key_seq)
unfolding way
to_next_recv_numbers info r l known = (ground (arith, known), ground (arith, known))

now_to_recv :
    (info : SessionInfo) (r l : ℕ)
    → r ≡ info.remote_key_seq
    → next64 l ≡ info.local_key_seq
    → way info r l ≡ to_recv
unfolding way
now_to_recv info r l er el = ground (arith, er, el)

now_unknown :
    (info : SessionInfo) (r l : ℕ)
    → r ≡ info.remote_key_seq
    → r < 2 ^ 64
    → next64 (next64 l) ≡ info.local_key_seq
    → way info r l ≡ unknown
unfolding way
now_unknown info r l er fits el = ground (arith, er, el, fits)

module _ (box : Box) where
  pub stale :
      (w : Way) (info : SessionInfo) (nonce : ℕ) (boxed : Bytes) (now unix : ℕ) (fresh : BoxPriv)
      → ltb (last_nonce w info) nonce ≡ false
      → Quiet info (recv_way box w info nonce boxed now unix fresh)
  unfolding Quiet recv_way deliveries
  stale to_recv info nonce boxed now unix fresh old = rw (old, recv_way) ([], refl, refl)
  stale to_next_send info nonce boxed now unix fresh old = rw (old, recv_way) ([], refl, refl)
  stale to_next_recv info nonce boxed now unix fresh old = rw (old, recv_way) ([], refl, refl)
  stale unknown info nonce boxed now unix fresh old = (_, refl, refl)

  -- What was accepted by some way is old by the way that it has afterwards, or has none.
  unfoldable pub Spent : SessionInfo → ℕ → ℕ → ℕ → Type 0
  Spent info r l nonce =
      (way info r l ≡ unknown) ⊎ (ltb (last_nonce (way info r l) info) nonce ≡ false)

  accepted :
      (w : Way) (info : SessionInfo) (r l nonce : ℕ)
      → way info r l ≡ w
      → last_nonce w info ≡ nonce
      → Spent info r l nonce
  unfolding Spent
  accepted w info r l nonce known e = inr (rw (known, e) (ltb_irrefl nonce))

  pub spent :
      (w : Way) (info : SessionInfo) (r l nonce : ℕ) (inner msg : Bytes) (now : ℕ) (fresh : BoxPriv)
      → way info r l ≡ w
      → Spent (counted (on_success box w info nonce inner now fresh) msg) r l nonce
  unfolding on_success counted last_nonce Spent rotate fix_shared advance way
  spent to_recv info r l nonce inner msg now fresh known = accepted to_recv _ r l nonce known refl
  spent to_next_send info r l nonce inner msg now fresh known =
      elim (Bool-cases (may_rotate info.rotated now)) [
        | inl turn ↦
            let (er, el) = to_next_send_numbers info r l known in
            let info' =
              counted (rotate box (record info { next_send_nonce = nonce }) nonce inner now fresh)
                msg in
            rw (turn, on_success)
              (accepted to_recv info' r l nonce (now_to_recv info' r l er (ap next64 el)) refl)
        | inr keep ↦ rw (keep, on_success) (accepted to_next_send _ r l nonce known refl)
      ]
  spent to_next_recv info r l nonce inner msg now fresh known =
      elim (Bool-cases (may_rotate info.rotated now)) [
        | inl turn ↦
            let (er, el) = to_next_recv_numbers info r l known in
            let info' =
              counted (rotate box (record info { next_recv_nonce = nonce }) nonce inner now fresh)
                msg in
            rw (turn, on_success)
              (inl (now_unknown info' r l er (omega (arith, er)) (ap next64 el)))
        | inr keep ↦ rw (keep, on_success) (accepted to_next_recv _ r l nonce known refl)
      ]
  spent unknown info r l nonce inner msg now fresh known = inl known

  pub Spent-Quiet :
      (info : SessionInfo) (r l nonce : ℕ) (boxed : Bytes) (now unix : ℕ) (fresh : BoxPriv)
      → Spent info r l nonce
      → Quiet info (recv_way box (way info r l) info nonce boxed now unix fresh)
  unfolding Spent Quiet recv_way deliveries
  Spent-Quiet info r l nonce boxed now unix fresh (inl lost) = rw (lost, recv_way) (_, refl, refl)
  Spent-Quiet info r l nonce boxed now unix fresh (inr old) =
      stale (way info r l) info nonce boxed now unix fresh old
