-- ===== src/Peers/Monitor/Silence.antt =====
-- What the timer and the deadline of a monitor mean.
use ironwood.Base.{
  ℕ, ◌+◌, ◌≡◌, refl, subst, ap, ◌∙◌, Bool, true, false, List, [], ◌∷◌, Option, none, some,
  if◌then◌else◌, ltb, arith,
}
use ironwood.Peers.Sending.Served.{if_chosen}
use ironwood.Peers.Monitor.{
  Delays, Monitor, new_monitor, is_traffic, sent, armed, recv, Event, sends, receives, notes, after,
}

-- The packets sent since one was received, and those received since one was sent, the latest first.
pub sent_since : List Event → List (ℕ × ℕ)
sent_since [] = []
sent_since (sends kind now ∷ es) = (kind, now) ∷ sent_since es
sent_since (receives kind now ∷ es) = []

pub received_since : List Event → List (ℕ × ℕ)
received_since [] = []
received_since (sends kind now ∷ es) = []
received_since (receives kind now ∷ es) = (kind, now) ∷ received_since es

-- When the first packet among them was sent or received that is no dummy, of type 0, and no keepalive,
-- of type 1.
pub first_traffic : List (ℕ × ℕ) → Option ℕ
first_traffic [] = none
first_traffic ((kind, now) ∷ earlier) = elim (first_traffic earlier) [
  | some t ↦ some t
  | none ↦ if ltb 1 kind then some now else none
]

pub delayed : ℕ → Option ℕ → Option ℕ
delayed n none = none
delayed n (some t) = some (t + n)

is_some : Option ℕ → Bool
is_some none = false
is_some (some t) = true

-- What the fields are, by the time of the traffic that waits for an answer on either side.
record Tells (d : Delays) (unanswered owed : Option ℕ) (m : Monitor) : Type 0 where
  running : m.done ≡ false
  due : m.deadline ≡ delayed d.timeout unanswered
  is_due : m.deadlined ≡ is_some unanswered
  armed_for : m.keep_alive_timer ≡ delayed d.keep_alive_delay owed

-- The time of the first traffic, with a later packet.
later_packet : ℕ → ℕ → Option ℕ → Option ℕ
later_packet kind now (some t) = some t
later_packet kind now none = if is_traffic kind then some now else none

sent-Tells :
    (d : Delays) (kind now : ℕ) (u o : Option ℕ) (m : Monitor)
    → Tells d u o m
    → Tells d (later_packet kind now u) none (sent d kind now m)
unfolding sent later_packet is_some delayed
sent-Tells d kind now (some t0) o m t =
    if_chosen (Tells d (some t0) none) m.deadlined (record m { keep_alive_timer = none })
      (if is_traffic kind
        then record m {
          keep_alive_timer = none;
          deadline = some (now + d.timeout);
          deadlined = true;
        }
        else record m { keep_alive_timer = none })
      (λ yes_. record { running = t.running; due = t.due; is_due = t.is_due; armed_for = refl })
      (λ no_. absurd (ground (arith, no_, t.is_due)))
sent-Tells d kind now none o m t =
    if_chosen (Tells d (if is_traffic kind then some now else none) none) m.deadlined
      (record m { keep_alive_timer = none })
      (if is_traffic kind
        then record m {
          keep_alive_timer = none;
          deadline = some (now + d.timeout);
          deadlined = true;
        }
        else record m { keep_alive_timer = none })
      (λ yes_. absurd (ground (arith, yes_, t.is_due))) (λ no_. go (is_traffic kind))
  where
    go :
        (b : Bool)
        → Tells d (if b then some now else none) none (
            if b
            then record m {
              keep_alive_timer = none;
              deadline = some (now + d.timeout);
              deadlined = true;
            }
            else record m { keep_alive_timer = none })
    go true = record { running = t.running; due = refl; is_due = refl; armed_for = refl }
    go false = record { running = t.running; due = t.due; is_due = t.is_due; armed_for = refl }

armed_for_later :
    (d : Delays) (kind now : ℕ) (o : Option ℕ)
    → armed d kind now false (delayed d.keep_alive_delay o)
      ≡ delayed d.keep_alive_delay (later_packet kind now o)
unfolding armed later_packet delayed
armed_for_later d kind now (some t) = refl
armed_for_later d kind now none = go (is_traffic kind)
  where
    go :
        (b : Bool)
        → (if b then some (now + d.keep_alive_delay) else none)
          ≡ delayed d.keep_alive_delay (if b then some now else none)
    go true = refl
    go false = refl

recv-Tells :
    (d : Delays) (kind now : ℕ) (u o : Option ℕ) (m : Monitor)
    → Tells d u o m
    → Tells d none (later_packet kind now o) (recv d kind now m)
unfolding recv is_some delayed
recv-Tells d kind now u o m t = record {
  running = t.running;
  due = refl;
  is_due = refl;
  armed_for =
      ap (λ (b : Bool). armed d kind now b m.keep_alive_timer) t.running
      ∙ ap (armed d kind now false) t.armed_for
      ∙ armed_for_later d kind now o;
}

is_traffic_lem : (kind : ℕ) → is_traffic kind ≡ ltb 1 kind
unfolding is_traffic
is_traffic_lem kind = ground arith

first_traffic-cons :
    (kind now : ℕ) (earlier : List (ℕ × ℕ))
    → later_packet kind now (first_traffic earlier) ≡ first_traffic ((kind, now) ∷ earlier)
unfolding later_packet first_traffic
first_traffic-cons kind now earlier = go (first_traffic earlier)
  where
    go :
        (o : Option ℕ)
        → later_packet kind now o
          ≡ elim o [ some t ↦ some t | none ↦ if ltb 1 kind then some now else none ]
    go none = ap (λ (b : Bool). if b then some now else none) (is_traffic_lem kind)
    go (some t) = refl

after-Tells :
    (d : Delays) (es : List Event)
    → Tells d (first_traffic (sent_since es)) (first_traffic (received_since es)) (after d es)
unfolding after notes new_monitor sent_since received_since is_some delayed first_traffic
after-Tells d [] = record { running = refl; due = refl; is_due = refl; armed_for = refl }
after-Tells d (sends kind now ∷ es) =
    let u = first_traffic (sent_since es) in
    let o = first_traffic (received_since es) in
    subst (λ (x : Option ℕ). Tells d x none (sent d kind now (after d es)))
      (first_traffic-cons kind now (sent_since es))
      (sent-Tells d kind now u o (after d es) (after-Tells d es))
after-Tells d (receives kind now ∷ es) =
    let u = first_traffic (sent_since es) in
    let o = first_traffic (received_since es) in
    subst (λ (x : Option ℕ). Tells d none x (recv d kind now (after d es)))
      (first_traffic-cons kind now (received_since es))
      (recv-Tells d kind now u o (after d es) (after-Tells d es))

-- While a peer's handler runs, its read deadline is that of the first traffic sent since a packet
-- was received, whatever was sent later, and its keepalive timer that of the first traffic received
-- since a packet was sent; there is none where there is no such traffic. Dummies and keepalives are
-- no traffic.
pub after-first_traffic :
    (d : Delays) (es : List Event)
    → ((after d es).deadline ≡ delayed d.timeout (first_traffic (sent_since es)))
      × ((after d es).keep_alive_timer
          ≡ delayed d.keep_alive_delay (first_traffic (received_since es)))
after-first_traffic d es = let t = after-Tells d es in (t.due, t.armed_for)
