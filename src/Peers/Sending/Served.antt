-- ===== src/Peers/Sending/Served.antt =====
-- What keeps the queue of a peer in network/peers.go from standing still, and the turns of the writer.
use ironwood.Base.{
  ℕ, ◌+◌, ◌%◌, ◌^◌, ◌≡◌, refl, Bool, true, false, not, ◌||◌, List, [], ◌∷◌, ◌++◌, ltb, ◌==◌,
  if◌then◌else◌, arith,
}
use ironwood.Peers.{Message, message_size}
use ironwood.Peers.Sending.{
  PeerAct, queues, sends, asks, WriterAct, writes, keeps_alive, flushes, checks, Written, message,
  keepalive, Sender, write, writer_act, writer_step,
}

-- sendPacket drops a message of this size.
unfoldable pub too_large : ℕ → Message → Bool
too_large max_size m = ltb max_size (message_size m + 1)

-- An action of the peer that leads to a write or to a pop: sendDirect of a message that is written,
-- or a call of pop.
unfoldable pub is_asked : ℕ → List PeerAct → Bool
is_asked max_size [] = false
is_asked max_size (queues packet ∷ rest) = is_asked max_size rest
is_asked max_size (sends m ∷ rest) = not (too_large max_size m) || is_asked max_size rest
is_asked max_size (asks ∷ rest) = true

-- An action of the writer that leads to one: a write, or the question that the last write left.
unfoldable pub is_at_work : ℕ → ℕ → List WriterAct → Bool
is_at_work max_size seq [] = false
is_at_work max_size seq (writes m ∷ rest) =
    not (too_large max_size m) || is_at_work max_size seq rest
is_at_work max_size seq (keeps_alive ∷ rest) = true
is_at_work max_size seq (flushes ∷ rest) = is_at_work max_size seq rest
is_at_work max_size seq (checks n ∷ rest) = n == seq || is_at_work max_size seq rest

-- The writer is idle and known to be, or an action waits that leads to a write or to a pop.
unfoldable pub is_served : ℕ → Sender → Bool
is_served max_size s =
    s.ready || (is_asked max_size s.peer_inbox || is_at_work max_size s.seq s.writer_inbox)

is_asked-append :
    (max_size : ℕ) (xs ys : List PeerAct)
    → is_asked max_size (xs ++ ys) ≡ (is_asked max_size xs || is_asked max_size ys)
unfolding is_asked
is_asked-append max_size [] ys = refl
is_asked-append max_size (queues packet ∷ xs) ys = is_asked-append max_size xs ys
is_asked-append max_size (sends m ∷ xs) ys = ground (arith, is_asked-append max_size xs ys)
is_asked-append max_size (asks ∷ xs) ys = refl

pub is_at_work-append :
    (max_size seq : ℕ) (xs ys : List WriterAct)
    → is_at_work max_size seq (xs ++ ys)
      ≡ (is_at_work max_size seq xs || is_at_work max_size seq ys)
unfolding is_at_work
is_at_work-append max_size seq [] ys = refl
is_at_work-append max_size seq (writes m ∷ xs) ys =
    ground (arith, is_at_work-append max_size seq xs ys)
is_at_work-append max_size seq (keeps_alive ∷ xs) ys = refl
is_at_work-append max_size seq (flushes ∷ xs) ys = is_at_work-append max_size seq xs ys
is_at_work-append max_size seq (checks n ∷ xs) ys =
    ground (arith, is_at_work-append max_size seq xs ys)

write-is_served : (max_size : ℕ) (w : Written) (s : Sender) → is_served max_size (write w s) ≡ true
unfolding is_served write is_at_work
write-is_served max_size w s = ground (
  arith,
  is_at_work-append max_size ((s.seq + 1) % 2 ^ 64) s.writer_inbox
      (checks ((s.seq + 1) % 2 ^ 64) ∷ []),
)

pub if_chosen :
    {A : Type 0} (P : A → Type 0) (b : Bool) (x y : A)
    → (b ≡ true → P x)
    → (b ≡ false → P y)
    → P (if b then x else y)
if_chosen P true x y h g = h refl
if_chosen P false x y h g = g refl

abbrev IsServed : ℕ → Sender → Type 0
IsServed max_size s = is_served max_size s ≡ true

abbrev pub with_inbox : Sender → List WriterAct → Sender
with_inbox s acts = record s { writer_inbox = acts }

writer_act-IsServed :
    (max_size : ℕ) (a : WriterAct) (rest : List WriterAct) (s : Sender)
    → IsServed max_size (with_inbox s (a ∷ rest))
    → IsServed max_size (writer_act max_size a (with_inbox s rest))
unfolding writer_act is_served is_at_work is_asked too_large
writer_act-IsServed max_size (writes m) rest s h =
    if_chosen (IsServed max_size) (ltb max_size (message_size m + 1)) (with_inbox s rest)
      (write (message m) (with_inbox s rest)) (λ large. ground (arith, h, large))
      (λ small. write-is_served max_size (message m) (with_inbox s rest))
writer_act-IsServed max_size keeps_alive rest s h =
    write-is_served max_size keepalive (with_inbox s rest)
writer_act-IsServed max_size flushes rest s h = h
writer_act-IsServed max_size (checks n) rest s h =
    if_chosen (IsServed max_size) (n == s.seq)
      (record s { writer_inbox = rest; peer_inbox = s.peer_inbox ++ (asks ∷ []) })
      (with_inbox s rest)
      (λ last. ground (arith, is_asked-append max_size s.peer_inbox (asks ∷ [])))
      (λ other. ground (arith, h, other))

-- When the writer is known to be idle, or an action waits that leads to a write or to a pop, this is
-- so again after a turn of the writer. A message above the maximum leads to neither: the writer drops
-- it.
pub writer_step-is_served :
    (max_size : ℕ) (s : Sender)
    → is_served max_size s ≡ true
    → is_served max_size (writer_step max_size s) ≡ true
unfolding writer_step
writer_step-is_served max_size s h = go s.writer_inbox h
  where
    go :
        (acts : List WriterAct)
        → IsServed max_size (with_inbox s acts)
        → IsServed max_size (writer_step max_size (with_inbox s acts))
    go [] h = h
    go (a ∷ rest) h = writer_act-IsServed max_size a rest s h

pub if_true : {A : Type 0} {b : Bool} (x y : A) → b ≡ true → (if b then x else y) ≡ x
if_true x y e = rw (e) refl

pub if_false : {A : Type 0} {b : Bool} (x y : A) → b ≡ false → (if b then x else y) ≡ y
if_false x y e = rw (e) refl
