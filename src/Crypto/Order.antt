-- ===== src/Crypto/Order.antt =====
-- `less` is a strict linear order on keys of one length, and `equal` decides equality.
use ironwood.Base.{
  ◌≡◌, ◌≢◌, ◌↔◌, ◌⊎◌, inl, inr, refl, true, false, [], ◌∷◌, length, arith, Bool-cases,
}
use ironwood.Crypto.{PublicKey, equal, less}

pub equal_refl : (a : PublicKey) → equal a a ≡ true
unfolding equal
equal_refl [] = refl
equal_refl (x ∷ a) = ground (arith, equal_refl a)

pub equal→eq : (a b : PublicKey) → equal a b ≡ true → a ≡ b
unfolding equal
equal→eq [] [] h = refl
equal→eq [] (y ∷ b) h = absurd (ground arith)
equal→eq (x ∷ a) [] h = absurd (ground arith)
equal→eq (x ∷ a) (y ∷ b) h = ground (arith, equal→eq a b)

pub equal_iff : (a b : PublicKey) → (equal a b ≡ true) ↔ (a ≡ b)
equal_iff a b = (equal→eq a b, λ e. subst_equal e)
  where
    subst_equal : a ≡ b → equal a b ≡ true
    subst_equal e = rw e (equal_refl b)

pub less_irrefl : (a : PublicKey) → less a a ≡ false
unfolding less
less_irrefl [] = refl
less_irrefl (x ∷ a) = ground (arith, less_irrefl a)

pub less_trans : (a b c : PublicKey) → less a b ≡ true → less b c ≡ true → less a c ≡ true
unfolding less
less_trans [] b c h k = absurd (ground arith)
less_trans (x ∷ a) [] c h k = absurd (ground arith)
less_trans (x ∷ a) (y ∷ b) [] h k = absurd (ground arith)
less_trans (x ∷ a) (y ∷ b) (z ∷ c) h k = ground (arith, less_trans a b c)

pub less_asymm : (a b : PublicKey) → less a b ≡ true → less b a ≡ false
unfolding less
less_asymm [] b h = absurd (ground arith)
less_asymm (x ∷ a) [] h = absurd (ground arith)
less_asymm (x ∷ a) (y ∷ b) h = ground (arith, less_asymm a b)

-- Two different keys of one length are ordered, so a tie-break by key is never a tie.
pub less_total :
    (a b : PublicKey) → length a ≡ length b → (less a b ≡ true) ⊎ (less b a ≡ true) ⊎ (a ≡ b)
unfolding less
less_total [] [] e = inr (inr refl)
less_total [] (y ∷ b) e = absurd (omega arith)
less_total (x ∷ a) [] e = absurd (omega arith)
less_total (x ∷ a) (y ∷ b) e = ground (arith, less_total a b (omega arith))

pub equal-false : (a b : PublicKey) → a ≢ b → equal a b ≡ false
equal-false a b h = elim (Bool-cases (equal a b)) [
  | inl e ↦ absurd (h ((equal_iff a b).0 e))
  | inr e ↦ e
]
