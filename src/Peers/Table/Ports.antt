-- ===== src/Peers/Table/Ports.antt =====
-- The loop of addPeer for a port, and the set of ports.
use ironwood.Base.{
  ℕ, zero, suc, ◌+◌, ◌≤◌, ◌<◌, ◌≡◌, ◌≢◌, inl, inr, true, false, List, [], ◌∷◌, leb, if◌then◌else◌,
  length, arith, Bool-cases,
}
use ironwood.Wire.{PeerPort}
use ironwood.Peers.Table.{has_port, delete_port, free_port}

-- How many ports are not below one.
above : PeerPort → List PeerPort → ℕ
above p [] = 0
above p (q ∷ qs) = let rest = above p qs in if leb p q then suc rest else rest

above-le-length : (p : PeerPort) (qs : List PeerPort) → above p qs ≤ length qs
unfolding above
above-le-length p [] = omega arith
above-le-length p (q ∷ qs) = ground (arith, above-le-length p qs)

above_le : (p : PeerPort) (qs : List PeerPort) → above (p + 1) qs ≤ above p qs
unfolding above
above_le p [] = omega arith
above_le p (q ∷ qs) = ground (arith, above_le p qs)

above_lt :
    (p : PeerPort) (qs : List PeerPort) → has_port p qs ≡ true → above (p + 1) qs < above p qs
unfolding above has_port
above_lt p [] h = absurd (ground arith)
above_lt p (q ∷ qs) h = ground (arith, above_le p qs, above_lt p qs)

free_port-enough :
    (fuel idx : ℕ) (ports : List PeerPort)
    → above idx ports < fuel
    → (has_port (free_port fuel idx ports) ports ≡ false) × (idx ≤ free_port fuel idx ports)
unfolding free_port
free_port-enough zero idx ports enough = absurd (omega (arith, enough))
free_port-enough (suc fuel) idx ports enough = elim (Bool-cases (has_port idx ports)) [
  | inl taken ↦
      let r =
        free_port-enough fuel (idx + 1) ports (omega (arith, enough, above_lt idx ports taken)) in
      rw (taken) (r.0, omega (arith, r.1))
  | inr free ↦ rw (free) (free, omega arith)
]

-- The port that the loop finds is not in use, and not zero.
pub free_port_lem :
    (ports : List PeerPort)
    → (has_port (free_port (suc (length ports)) 1 ports) ports ≡ false)
      × (1 ≤ free_port (suc (length ports)) 1 ports)
free_port_lem ports =
    free_port-enough (suc (length ports)) 1 ports (omega (arith, above-le-length 1 ports))

pub has_port-delete :
    (p q : PeerPort) (ports : List PeerPort)
    → p ≢ q
    → has_port q ports ≡ true
    → has_port q (delete_port p ports) ≡ true
unfolding has_port delete_port
has_port-delete p q [] other h = absurd (ground arith)
has_port-delete p q (r ∷ rs) other h = ground (arith, h, has_port-delete p q rs other)
