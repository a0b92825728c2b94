-- ===== src/Router/Update/Order.antt =====
-- The order by which _update prefers one info of a node to another.
use ironwood.Base.{ℕ, ◌≡◌, true, false, length, arith}
use ironwood.Crypto.{PublicKey, less}
use ironwood.Crypto.Order.{less_trans, less_asymm, less_irrefl, less_total}
use ironwood.Router.Update.{supersedes}

same_key : (a b : PublicKey) → length a ≡ length b → less a b ≡ false → less b a ≡ false → a ≡ b
same_key a b h f g = ground (arith, less_total a b h)

-- An info is not superseded by itself.
pub supersedes_irrefl : (s : ℕ) (p : PublicKey) (n : ℕ) → supersedes s p n s p n ≡ false
unfolding supersedes
supersedes_irrefl s p n = ground (arith, less_irrefl p)

module _ (s : ℕ) (p : PublicKey) (n : ℕ) (t : ℕ) (q : PublicKey) (m : ℕ)
    (same : length p ≡ length q) where
  -- Of two infos neither of which supersedes the other, the seq, the parent and the nonce agree.
  pub supersedes_antisymm :
      supersedes s p n t q m ≡ false → supersedes t q m s p n ≡ false → (s ≡ t) × (p ≡ q) × (n ≡ m)
  unfolding supersedes
  supersedes_antisymm h k = ground (arith, same_key p q same, less_asymm p q)

  pub supersedes_trans :
      (u : ℕ) (r : PublicKey) (o : ℕ)
      → length q ≡ length r
      → supersedes s p n t q m ≡ true
      → supersedes t q m u r o ≡ true
      → supersedes s p n u r o ≡ true
  unfolding supersedes
  supersedes_trans u r o same' h k =
      ground (arith, same_key p q same, same_key q r same', less_trans r q p, less_asymm r p)
