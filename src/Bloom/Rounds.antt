-- ===== src/Bloom/Rounds.antt =====
-- What one round of the encoder's loop does to the flags and the chunks that are kept.
use ironwood.Base.{
  ℕ, ◌+◌, ◌<◌, ◌≤◌, ◌≡◌, ◌≢◌, ap, ◌∙◌, true, false, [], ◌∷◌, ◌++◌, ◌==◌, if◌then◌else◌, arith,
  append_assoc,
}
use ironwood.Wire.{Bytes, max_u64}
use ironwood.Bloom.{Words, set_flag, flag}
use ironwood.Bloom.Flags.{IsFlags, flag-set_flag}

-- The chunks that are written out.
unfoldable pub others : Words → Words
others [] = []
others (u ∷ us) =
    let rest = others us in if u == 0 then rest else if u == max_u64 then rest else u ∷ rest

-- From `idx` on the flags tell the zero chunks and the full ones.
unfoldable pub Agrees : Bytes → Bytes → ℕ → Words → Type 0
Agrees flags0 flags1 idx [] = Unit {0}
Agrees flags0 flags1 idx (u ∷ us) =
    (flag flags0 idx ≡ (u == 0))
    × (flag flags1 idx ≡ (u == max_u64))
    × Agrees flags0 flags1 (idx + 1) us

-- No flag is set from `idx` on.
unfoldable pub IsClear : Bytes → ℕ → Type 0
IsClear flags idx = (j : ℕ) → idx ≤ j → j < 128 → flag flags j ≡ false

pub record Encoded (flags0 flags1 : Bytes) (idx : ℕ) (us keep : Words)
    (result : Bytes × Bytes × Words) : Type 0 where
  pub sized0 : IsFlags result.0
  pub sized1 : IsFlags result.1
  pub before0 : (j : ℕ) → j < idx → flag result.0 j ≡ flag flags0 j
  pub before1 : (j : ℕ) → j < idx → flag result.1 j ≡ flag flags1 j
  pub agrees : Agrees result.0 result.1 idx us
  pub kept : result.2 ≡ keep ++ others us

pub set_flag-IsClear :
    (flags : Bytes) (idx : ℕ)
    → IsFlags flags
    → idx < 128
    → IsClear flags idx
    → IsClear (set_flag flags idx) (idx + 1)
unfolding IsClear
set_flag-IsClear flags idx f lt c j lo hi =
    ground (arith, flag-set_flag flags idx j f lt, c j (omega arith) hi)

pub skip-IsClear : (flags : Bytes) (idx : ℕ) → IsClear flags idx → IsClear flags (idx + 1)
unfolding IsClear
skip-IsClear flags idx c j lo hi = c j (omega arith) hi

flag-set_self :
    (flags : Bytes) (idx : ℕ) → IsFlags flags → idx < 128 → flag (set_flag flags idx) idx ≡ true
flag-set_self flags idx f lt = ground (arith, flag-set_flag flags idx idx f lt)

flag-set_below :
    (flags : Bytes) (idx j : ℕ)
    → IsFlags flags
    → idx < 128
    → j < idx
    → flag (set_flag flags idx) j ≡ flag flags j
flag-set_below flags idx j f lt h = ground (arith, flag-set_flag flags idx j f lt)

-- One round, from the rest of the loop: the flags after it, and what they were.
module _ (flags0 flags1 : Bytes) (idx u : ℕ) (us keep : Words) (f0 : IsFlags flags0)
    (f1 : IsFlags flags1) (lt : idx < 128) (c0 : IsClear flags0 idx) (c1 : IsClear flags1 idx) where
  clear0 : flag flags0 idx ≡ false
  clear0 = unfold IsClear in c0 idx (omega arith) lt

  clear1 : flag flags1 idx ≡ false
  clear1 = unfold IsClear in c1 idx (omega arith) lt

  pub zero_round :
      (result : Bytes × Bytes × Words)
      → u ≡ 0
      → Encoded (set_flag flags0 idx) flags1 (idx + 1) us keep result
      → Encoded flags0 flags1 idx (u ∷ us) keep result
  unfolding Agrees others
  zero_round result e r = record {
    sized0 = r.sized0;
    sized1 = r.sized1;
    before0 = λ j h. r.before0 j (omega arith) ∙ flag-set_below flags0 idx j f0 lt h;
    before1 = λ j h. r.before1 j (omega arith);
    agrees = (
      r.before0 idx (omega arith) ∙ flag-set_self flags0 idx f0 lt ∙ ground (arith, e),
      r.before1 idx (omega arith) ∙ clear1 ∙ ground (arith, e),
      r.agrees,
    );
    kept = r.kept ∙ ap (◌++◌ keep) (ground (arith, e));
  }

  pub full_round :
      (result : Bytes × Bytes × Words)
      → u ≡ max_u64
      → Encoded flags0 (set_flag flags1 idx) (idx + 1) us keep result
      → Encoded flags0 flags1 idx (u ∷ us) keep result
  unfolding Agrees others
  full_round result e r = record {
    sized0 = r.sized0;
    sized1 = r.sized1;
    before0 = λ j h. r.before0 j (omega arith);
    before1 = λ j h. r.before1 j (omega arith) ∙ flag-set_below flags1 idx j f1 lt h;
    agrees = (
      r.before0 idx (omega arith) ∙ clear0 ∙ ground (arith, e),
      r.before1 idx (omega arith) ∙ flag-set_self flags1 idx f1 lt ∙ ground (arith, e),
      r.agrees,
    );
    kept = r.kept ∙ ap (◌++◌ keep) (ground (arith, e));
  }

  pub kept_round :
      (result : Bytes × Bytes × Words)
      → u ≢ 0
      → u ≢ max_u64
      → Encoded flags0 flags1 (idx + 1) us (keep ++ (u ∷ [])) result
      → Encoded flags0 flags1 idx (u ∷ us) keep result
  unfolding Agrees others
  kept_round result ne0 ne1 r = record {
    sized0 = r.sized0;
    sized1 = r.sized1;
    before0 = λ j h. r.before0 j (omega arith);
    before1 = λ j h. r.before1 j (omega arith);
    agrees = (
      r.before0 idx (omega arith) ∙ clear0 ∙ ground (arith, ne0),
      r.before1 idx (omega arith) ∙ clear1 ∙ ground (arith, ne1),
      r.agrees,
    );
    kept =
        r.kept ∙ append_assoc keep (u ∷ []) (others us) ∙ ap (◌++◌ keep) (ground (arith, ne0, ne1));
  }
