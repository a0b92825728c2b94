-- ===== src/Crypto.antt =====
-- network/crypto.go: keys and signatures. A Go byte array is a list of bytes whose length the
-- predicates below fix.
pub mod Order
use ironwood.Base.{
  ℕ, ◌+◌, ◌≤◌, ◌<◌, ◌≡◌, Bool, true, false, ◌&&◌, List, [], ◌∷◌, ltb, ◌==◌, if◌then◌else◌, length,
  All,
}
use ironwood.Wire.{Bytes}

abbrev pub public_key_size : ℕ
public_key_size = 32

abbrev pub private_key_size : ℕ
private_key_size = 64

abbrev pub signature_size : ℕ
signature_size = 64

abbrev pub PublicKey : Type 0
PublicKey = Bytes

abbrev pub PrivateKey : Type 0
PrivateKey = Bytes

abbrev pub Signature : Type 0
Signature = Bytes

abbrev pub IsPublicKey : PublicKey → Type 0
IsPublicKey k = length k ≡ 32

abbrev pub IsSignature : Signature → Type 0
IsSignature s = length s ≡ 64

-- `==` on arrays, which `equal` returns.
unfoldable pub equal : PublicKey → PublicKey → Bool
equal [] [] = true
equal (x ∷ xs) (y ∷ ys) = x == y && equal xs ys
equal _ _ = false

-- The first byte that differs decides.
unfoldable pub less : PublicKey → PublicKey → Bool
less [] other = false
less (x ∷ xs) [] = false
less (x ∷ xs) (y ∷ ys) = if ltb x y then true else if ltb y x then false else less xs ys

-- crypto/ed25519, which the program calls and does not implement: any functions such that a
-- signature made with a private key is 64 bytes and verifies under the public key that belongs to it.
pub record Ed25519 : Type 0 where
  pub public : PrivateKey → PublicKey
  pub sign : PrivateKey → Bytes → Signature
  pub verify : PublicKey → Bytes → Signature → Bool
  pub public-IsPublicKey : (k : PrivateKey) → IsPublicKey (public k)
  pub sign-IsSignature : (k : PrivateKey) (m : Bytes) → IsSignature (sign k m)
  pub verify-sign : (k : PrivateKey) (m : Bytes) → verify (public k) m (sign k m) ≡ true
