-- ===== src/PacketQueue/Push/Source.antt =====
-- A packet is put behind the others of its source.
use ironwood.Base.{
  ℕ, suc, ◌+◌, ◌^◌, ◌≤◌, ◌<◌, ◌≡◌, refl, sym, ap, ◌∙◌, List, [], ◌∷◌, ◌++◌, Option, none, some,
  length, arith, true, false, length-append, inl, inr, Bool-cases,
}
use ironwood.Types.{ok}
use ironwood.Crypto.{PublicKey, equal}
use ironwood.PacketQueue.{PqPacketInfo, PqSource, find_key, push_info, add64}
use ironwood.PacketQueue.Heap.{nth}
use ironwood.PacketQueue.Heap.Entries.{sum, sum-one, sum-append, at, at-append}
use ironwood.PacketQueue.Invariant.{
  SourceValid, IsAscending, AreSized, info_size, info_time, source_time, key_is, held_by_source,
}

key_is-other : (k j : PublicKey) → equal j k ≡ false → key_is k j ≡ 0
key_is-other k j e = ground (arith, e)

pub find_key-none :
    {A : Type 0} (key_of : A → PublicKey) (k : PublicKey) (idx : ℕ) (xs : List A)
    → find_key key_of k idx xs ≡ none
    → sum (λ (x : A). key_is k (key_of x)) xs ≡ 0
unfolding find_key sum
find_key-none key_of k idx [] e = refl
find_key-none key_of k idx (x ∷ xs) e = elim (Bool-cases (equal (key_of x) k)) [
  | inl here ↦ absurd (cc (rw (here) at e))
  | inr there ↦ omega (
    arith,
    find_key-none key_of k (idx + 1) xs (rw (there) at e),
    key_is-other k (key_of x) there,
  )
]

some_pair :
    {A : Type 0} {i j : ℕ} {x y : A}
    → ◌≡◌ {A = Option (ℕ × A)} (some (i, x)) (some (j, y))
    → (i ≡ j) × (x ≡ y)
some_pair e = (cc (e), cc (e))

pub record FoundKey {A : Type 0} (key_of : A → PublicKey) (k : PublicKey) (idx j : ℕ) (x : A)
    (xs : List A) : Type 0 where
  pub offset : ℕ
  pub index_is : j ≡ idx + offset
  pub found : nth offset xs ≡ ok x
  pub key_is_k : equal (key_of x) k ≡ true

pub find_key-some :
    {A : Type 0} (key_of : A → PublicKey) (k : PublicKey) (idx j : ℕ) (x : A) (xs : List A)
    → find_key key_of k idx xs ≡ some (j, x)
    → FoundKey key_of k idx j x xs
unfolding find_key nth
find_key-some key_of k idx j x [] e = absurd (cc (e))
find_key-some key_of k idx j x (y ∷ xs) e = elim (Bool-cases (equal (key_of y) k)) [
  | inl here ↦
      let (index, same) = some_pair (rw (here) at e) in
      record {
        offset = 0;
        index_is = omega (arith, index);
        found = ap ok same;
        key_is_k = ap (λ (z : _). equal (key_of z) k) (sym same) ∙ here;
      }
  | inr there ↦
      let r = find_key-some key_of k (idx + 1) j x xs (rw (there) at e) in
      record {
        offset = suc r.offset;
        index_is = omega (arith, r.index_is);
        found = r.found;
        key_is_k = r.key_is_k;
      }
]

pub add64-fits : (a b : ℕ) → a + b < 2 ^ 64 → add64 a b ≡ a + b
add64-fits a b h = omega arith

IsAscending-append :
    (t : ℕ) (is : List PqPacketInfo) (i : PqPacketInfo)
    → IsAscending t is
    → t ≤ i.time
    → ((k : ℕ) → at info_time k is ≤ i.time)
    → IsAscending t (is ++ (i ∷ []))
unfolding at
IsAscending-append t [] i h le latest = (le, tt)
IsAscending-append t (j ∷ is) i h le latest =
    (h.0, IsAscending-append j.time is i h.1 (latest 0) (λ k. latest (suc k)))

AreSized-append :
    (is : List PqPacketInfo) (i : PqPacketInfo)
    → AreSized is
    → 0 < i.size
    → AreSized (is ++ (i ∷ []))
AreSized-append [] i h positive = (positive, tt)
AreSized-append (j ∷ is) i h positive = (h.0, AreSized-append is i h.1 positive)

pub record SourcePushed (s : PqSource) (i : PqPacketInfo) : Type 0 where
  pub valid : SourceValid (push_info s i)
  pub size_is : add64 s.size i.size ≡ s.size + i.size
  pub time_same : 0 < length s.infos → source_time (push_info s i) ≡ source_time s
  pub held_is : (f : PqPacketInfo → ℕ) → held_by_source f (push_info s i) ≡ held_by_source f s + f i

-- The source may be a new one, without packets.
pub push_info-Pushed :
    (s : PqSource) (i : PqPacketInfo)
    → IsAscending 0 s.infos
    → AreSized s.infos
    → s.size ≡ sum info_size s.infos
    → 0 < i.size
    → s.size + i.size < 2 ^ 64
    → ((k : ℕ) → at info_time k s.infos ≤ i.time)
    → SourcePushed s i
unfolding push_info source_time held_by_source
push_info-Pushed s i ascending sized adds_up positive fits latest =
    let size = add64-fits s.size i.size fits in
    record {
      valid = record {
        waiting = omega (arith, length-append s.infos (i ∷ []));
        ascending = IsAscending-append 0 s.infos i ascending (omega arith) latest;
        sized = AreSized-append s.infos i sized positive;
        adds_up =
            omega
              (arith, size, adds_up, sum-append info_size s.infos (i ∷ []), sum-one info_size i);
      };
      size_is = size;
      time_same = λ h. at-append info_time 0 s.infos (i ∷ []) h;
      held_is = λ f. omega (arith, sum-append f s.infos (i ∷ []), sum-one f i);
    }
