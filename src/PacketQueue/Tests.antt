-- ===== src/PacketQueue/Tests.antt =====
-- A queue of lookups.
use ironwood.Base.{ℕ, ◌≡◌, refl, List, [], ◌∷◌, replicate, arith}
use ironwood.Crypto.{PublicKey}
use ironwood.Wire.{wire_size_path, wire_size_uint, uvarint_bytes}
use ironwood.PacketQueue.{PqPacket, path_lookup, PacketQueue, push, packet_size}
use ironwood.Messages.Lookup
use ironwood.PacketQueue.Pop.{TakesOldest, pop-TakesOldest}
use ironwood.PacketQueue.Drop.{DropsLargest, drop-DropsLargest}
use ironwood.PacketQueue.Push.{Pushed, push-Pushed}
use ironwood.PacketQueue.Run.{
  Call, pushes, pops, drops, Runs, run-QueueValid, empty_queue, ValidUntil, empty-ValidUntil,
  push-ValidUntil, waits_until,
}

abbrev key : ℕ → PublicKey
key n = replicate 32 n

abbrev query : ℕ → ℕ → PqPacket
query from to = path_lookup record { source = key from; dest = key to; from = 1 ∷ 300 ∷ [] }

size-query : (from to : ℕ) → packet_size (query from to) ≡ 68
unfolding packet_size Lookup.size wire_size_path wire_size_uint uvarint_bytes
size-query from to = refl

abbrev one_waits : PacketQueue
one_waits = push empty_queue (query 1 2) 5

one_waits-ValidUntil : ValidUntil 5 one_waits
one_waits-ValidUntil =
    push-ValidUntil 0 5 empty_queue (query 1 2) empty-ValidUntil (omega arith)
      (omega (arith, size-query 1 2))

one_waits-size : one_waits.size ≡ 68
unfolding push
one_waits-size = omega (arith, size-query 1 2)

push-Pushed_example : Pushed one_waits (query 1 3) 8
push-Pushed_example =
    push-Pushed one_waits (query 1 3) 8 one_waits-ValidUntil.valid
      (λ j x. omega (arith, waits_until 5 one_waits j one_waits-ValidUntil x))
      (omega (arith, one_waits-size, size-query 1 3))

abbrev two_wait : PacketQueue
two_wait = push one_waits (query 1 3) 8

two_wait-ValidUntil : ValidUntil 8 two_wait
two_wait-ValidUntil =
    push-ValidUntil 5 8 one_waits (query 1 3) one_waits-ValidUntil (omega arith)
      (omega (arith, one_waits-size, size-query 1 3))

two_wait-size : two_wait.size ≡ 136
unfolding push
two_wait-size = omega (arith, one_waits-size, size-query 1 3)

pop-TakesOldest_example : TakesOldest two_wait
pop-TakesOldest_example =
    pop-TakesOldest two_wait two_wait-ValidUntil.valid (omega (arith, two_wait-size))

drop-DropsLargest_example : DropsLargest two_wait
drop-DropsLargest_example =
    drop-DropsLargest two_wait two_wait-ValidUntil.valid (omega (arith, two_wait-size))

abbrev calls : List Call
calls =
    pushes (query 1 2) 5
    ∷ pushes (query 1 3) 8
    ∷ pushes (query 1 2) 8
    ∷ drops
    ∷ pops
    ∷ pops
    ∷ pops
    ∷ []

run-QueueValid_example : Runs calls empty_queue
run-QueueValid_example =
    run-QueueValid calls 0 empty_queue empty-ValidUntil
      (omega arith, (omega arith, (omega arith, tt)))
      (omega (arith, size-query 1 2, size-query 1 3))
