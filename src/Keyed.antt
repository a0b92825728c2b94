-- ===== src/Keyed.antt =====
-- Go maps and sets whose keys are public keys: a list of entries, read from its front. Go visits a
-- map in any order; a loop over a map is a recursion on the list, so what is proved for every list
-- holds for every order.
use ironwood.Base.{
  ℕ, suc, ◌≤◌, ◌<◌, ◌≡◌, refl, Bool, true, false, ◌||◌, List, [], ◌∷◌, Option, none, some,
  if◌then◌else◌, length, arith, All, Bool-cases, inl, inr, subst,
}
use ironwood.Crypto.{PublicKey, equal}
use ironwood.Crypto.Order.{equal_iff, equal_refl}

abbrev pub KeyMap : Type 0 → Type 0
KeyMap V = List (PublicKey × V)

module _ {V : Type 0} where
  unfoldable pub lookup : PublicKey → KeyMap V → Option V
  lookup k [] = none
  lookup k ((j, v) ∷ m) = if equal j k then some v else lookup k m

  -- `_, isIn := m[k]`
  unfoldable pub has : PublicKey → KeyMap V → Bool
  has k [] = false
  has k ((j, v) ∷ m) = equal j k || has k m

  -- `m[k]`, where a missing key reads as the zero value.
  unfoldable pub get_or : V → PublicKey → KeyMap V → V
  unfolding lookup
  get_or zero_value k m = elim (lookup k m) [ none ↦ zero_value | some v ↦ v ]

  unfoldable pub insert : PublicKey → V → KeyMap V → KeyMap V
  insert k v [] = (k, v) ∷ []
  insert k v ((j, w) ∷ m) = if equal j k then (j, v) ∷ m else (j, w) ∷ insert k v m

  pub delete : PublicKey → KeyMap V → KeyMap V
  delete k [] = []
  delete k ((j, v) ∷ m) = let rest = delete k m in if equal j k then rest else (j, v) ∷ rest

  unfoldable pub map_values : {W : Type 0} → (V → W) → KeyMap V → KeyMap W
  map_values f [] = []
  map_values f ((j, v) ∷ m) = (j, f v) ∷ map_values f m

  pub lookup-insert :
      (k j : PublicKey) (v : V) (m : KeyMap V)
      → lookup j (insert k v m) ≡ (if equal k j then some v else lookup j m)
  unfolding lookup insert
  lookup-insert k j v [] = refl
  lookup-insert k j v ((i, w) ∷ m) =
      ground (arith, equal_iff k j, equal_iff i k, equal_iff i j, lookup-insert k j v m)

  pub lookup-delete :
      (k j : PublicKey) (m : KeyMap V)
      → lookup j (delete k m) ≡ (if equal k j then none else lookup j m)
  unfolding lookup delete
  lookup-delete k j [] = ground arith
  lookup-delete k j ((i, w) ∷ m) =
      ground (arith, equal_iff k j, equal_iff i k, equal_iff i j, lookup-delete k j m)

  pub get_or-cons :
      (zero_value : V) (k j : PublicKey) (v : V) (m : KeyMap V)
      → get_or zero_value k ((j, v) ∷ m) ≡ (if equal j k then v else get_or zero_value k m)
  unfolding get_or lookup
  get_or-cons zero_value k j v m = ground arith

  pub get_or-lookup :
      (zero_value : V) (k : PublicKey) (v : V) (m : KeyMap V)
      → lookup k m ≡ some v
      → get_or zero_value k m ≡ v
  unfolding get_or
  get_or-lookup zero_value k v m e = rw (e, get_or)

  pub lookup-insert_self : (k : PublicKey) (v : V) (m : KeyMap V) → lookup k (insert k v m) ≡ some v
  lookup-insert_self k v m = ground (arith, lookup-insert k k v m, equal_refl k)

  pub has-lookup : (k : PublicKey) (m : KeyMap V) (v : V) → lookup k m ≡ some v → has k m ≡ true
  unfolding lookup has
  has-lookup k [] v e = absurd (ground arith)
  has-lookup k ((j, w) ∷ m) v e = ground (arith, has-lookup k m v)

  pub has-lookup-none : (k : PublicKey) (m : KeyMap V) → lookup k m ≡ none → has k m ≡ false
  unfolding has lookup
  has-lookup-none k [] e = refl
  has-lookup-none k ((j, v) ∷ m) e = ground (arith, e, has-lookup-none k m)

  pub has-insert :
      (k j : PublicKey) (v : V) (m : KeyMap V) → has j (insert k v m) ≡ (equal k j || has j m)
  unfolding has insert
  has-insert k j v [] = refl
  has-insert k j v ((i, w) ∷ m) =
      ground (arith, equal_iff i k, equal_iff i j, equal_iff k j, has-insert k j v m)

  pub has-delete :
      (k j : PublicKey) (m : KeyMap V) → has j (delete k m) ≡ (if equal k j then false else has j m)
  unfolding has delete
  has-delete k j [] = ground arith
  has-delete k j ((i, w) ∷ m) =
      ground (arith, equal_iff i k, equal_iff i j, equal_iff k j, has-delete k j m)

  pub has-map_values : (f : V → V) (j : PublicKey) (m : KeyMap V) → has j (map_values f m) ≡ has j m
  unfolding has map_values
  has-map_values f j [] = refl
  has-map_values f j ((i, w) ∷ m) = ground (arith, has-map_values f j m)

  -- What holds of every value.
  abbrev pub Every : (V → Type 0) → KeyMap V → Type 0
  Every P m = All (λ (e : PublicKey × V). P e.1) m

  pub Every-insert :
      (P : V → Type 0) (k : PublicKey) (v : V) (m : KeyMap V)
      → P v
      → Every P m
      → Every P (insert k v m)
  unfolding insert
  Every-insert P k v [] h hs = (h, tt)
  Every-insert P k v ((j, w) ∷ m) h hs = elim (Bool-cases (equal j k)) [
    | inl e ↦ rw (e) (h, hs.1)
    | inr e ↦ rw (e) (hs.0, Every-insert P k v m h hs.1)
  ]

  pub Every-delete :
      (P : V → Type 0) (k : PublicKey) (m : KeyMap V) → Every P m → Every P (delete k m)
  unfolding delete
  Every-delete P k [] hs = hs
  Every-delete P k ((j, w) ∷ m) hs = elim (Bool-cases (equal j k)) [
    | inl e ↦ rw (e) (Every-delete P k m hs.1)
    | inr e ↦ rw (e) (hs.0, Every-delete P k m hs.1)
  ]

  pub Every-map_values :
      (P Q : V → Type 0) (f : V → V) (m : KeyMap V)
      → ((v : V) → P v → Q (f v))
      → Every P m
      → Every Q (map_values f m)
  unfolding map_values
  Every-map_values P Q f [] g hs = tt
  Every-map_values P Q f ((j, w) ∷ m) g hs = (g w hs.0, Every-map_values P Q f m g hs.1)

  pub Every-lookup :
      (P : V → Type 0) (k : PublicKey) (m : KeyMap V) (v : V)
      → lookup k m ≡ some v
      → Every P m
      → P v
  unfolding lookup
  Every-lookup P k [] v e hs = absurd (ground arith)
  Every-lookup P k ((j, w) ∷ m) v e hs = elim (Bool-cases (equal j k)) [
    | inl here ↦ subst P (some_equal (rw (here) at e)) hs.0
    | inr there ↦ Every-lookup P k m v (rw (there) at e) hs.1
  ]
    where
      some_equal : {a b : V} → some a ≡ some b → a ≡ b
      some_equal h = cc (h)

unfoldable pub contains : PublicKey → List PublicKey → Bool
contains k [] = false
contains k (j ∷ ks) = equal j k || contains k ks

unfoldable pub add_key : PublicKey → List PublicKey → List PublicKey
unfolding contains
add_key k ks = if contains k ks then ks else k ∷ ks

pub contains-add_key :
    (k j : PublicKey) (ks : List PublicKey)
    → contains j (add_key k ks) ≡ (equal k j || contains j ks)
unfolding add_key contains
contains-add_key k j ks = ground (arith, equal_iff k j)

unfoldable pub delete_key : PublicKey → List PublicKey → List PublicKey
delete_key k [] = []
delete_key k (j ∷ ks) = let rest = delete_key k ks in if equal j k then rest else j ∷ rest

pub contains-delete_key :
    (k j : PublicKey) (ks : List PublicKey)
    → contains j (delete_key k ks) ≡ (if equal k j then false else contains j ks)
unfolding contains delete_key
contains-delete_key k j [] = ground arith
contains-delete_key k j (i ∷ ks) =
    ground (arith, equal_iff k j, equal_iff i k, equal_iff i j, contains-delete_key k j ks)

-- The entries of a map whose keys a walk has not visited: what bounds the walk.
pub unvisited : {V : Type 0} → List PublicKey → KeyMap V → ℕ
unvisited seen [] = 0
unvisited seen ((j, v) ∷ m) =
    let rest = unvisited seen m in if contains j seen then rest else suc rest

pub unvisited_le :
    {V : Type 0} (k : PublicKey) (seen : List PublicKey) (m : KeyMap V)
    → unvisited (k ∷ seen) m ≤ unvisited seen m
unfolding unvisited contains
unvisited_le k seen [] = omega arith
unvisited_le k seen ((j, v) ∷ m) = ground (arith, unvisited_le k seen m)

-- A visit to a key that is in the map and was not visited takes an entry away.
pub unvisited_lt :
    {V : Type 0} (k : PublicKey) (seen : List PublicKey) (m : KeyMap V) (v : V)
    → lookup k m ≡ some v
    → contains k seen ≡ false
    → unvisited (k ∷ seen) m < unvisited seen m
unfolding unvisited contains lookup
unvisited_lt k seen [] v e new = absurd (ground arith)
unvisited_lt k seen ((j, w) ∷ m) v e new =
    ground (arith, equal_iff j k, equal_iff k j, unvisited_le k seen m, unvisited_lt k seen m v)

pub unvisited-le-length :
    {V : Type 0} (seen : List PublicKey) (m : KeyMap V) → unvisited seen m ≤ length m
unfolding unvisited
unvisited-le-length seen [] = omega arith
unvisited-le-length seen ((j, v) ∷ m) = ground (arith, unvisited-le-length seen m)
