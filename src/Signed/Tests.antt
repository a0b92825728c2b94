-- ===== src/Signed/Tests.antt =====
-- Signed packets of signed/packetconn.go between two toy nodes.
use ironwood.Base.{ℕ, ◌≡◌, refl, [], ◌∷◌, Option, none, some, length, arith}
use ironwood.Types.{ok, Error}
use ironwood.Wire.{Bytes}
use ironwood.Crypto.{PublicKey}
use ironwood.Router.Tests.{toy, key}
use ironwood.Signed.{addr, new_packet_conn, unpack, write_to, read_from}
use ironwood.Signed.Delivery.{Skipped, read_from-write_to}

abbrev network : PublicKey → Bytes → ℕ × Option Error
network to_key m = (length m, none)

-- A packet that is too short comes first.
read_from-write_to_example :
    (packet : Bytes) × (write_to toy
        (new_packet_conn toy (1 ∷ []))
        (7 ∷ 8 ∷ [])
        (addr (key 2))
        network
      ≡ (some (key 2, packet), 2, none))
    × (read_from toy
          (new_packet_conn toy (1 ∷ 1 ∷ []))
          1500
          (ok (5 ∷ [], key 3) ∷ ok (packet, key 1) ∷ [])
        ≡ some (ok (7 ∷ 8 ∷ [], key 1)))
unfolding Skipped unpack
read_from-write_to_example =
    read_from-write_to toy (1 ∷ []) (1 ∷ 1 ∷ []) (7 ∷ 8 ∷ []) 1500 network (ok (5 ∷ [], key 3) ∷ [])
      [] (omega arith) (λ to_key m. refl) ((5 ∷ [], key 3, refl, refl), tt)
