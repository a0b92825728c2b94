-- ===== src/Types.antt =====
-- types/errors.go, and the outcome of a Go call: a value, an error, or a panic.
use mathlib.Core.Bool.{Bool, true, false}
use mathlib.Core.Option.{Option, none, some}

pub data Error : Type 0 where
  err_undefined err_encode err_decode err_closed err_timeout err_bad_message : Error
  err_empty_message err_oversized_message err_unrecognized_message : Error
  err_peer_not_found err_bad_address err_bad_key : Error

pub data Result {ℓ} (A : Type ℓ) : Type ℓ where
  ok : A → Result A
  err : Error → Result A
  panic : Result A

infixl 5 ◌>>=◌ ◌>>◌
abbrev pub ◌>>=◌ {ℓ κ} : {A : Type ℓ} {B : Type κ} → Result A → (A → Result B) → Result B
ok a >>= f = f a
err e >>= f = err e
panic >>= f = panic

abbrev pub ◌>>◌ {ℓ} : {B : Type ℓ} → Result (Unit {0}) → Result B → Result B
m >> k = m >>= λ _. k

-- `if !f(...) { return e }`, where `none` is the answer false.
abbrev pub or_fail {ℓ} : {A : Type ℓ} → Option A → Error → Result A
or_fail none e = err e
or_fail (some a) e = ok a

-- `if !b { return e }`
abbrev pub guard : Bool → Error → Result (Unit {0})
guard true e = ok tt
guard false e = err e
