-- ===== src/Bloom/Codec.antt =====
-- A bloom filter's encoding decodes to its chunks.
use ironwood.Base.{
  ℕ, zero, suc, ◌+◌, ◌<◌, ◌≤◌, ◌≡◌, refl, sym, ap, ◌∙◌, subst, true, false, not, [], ◌∷◌, ◌++◌, leb,
  ◌==◌, length, take, drop, replicate, All, arith, Bool-cases, inl, inr, append_assoc, append-nil,
  length-append, ==_iff, take-append, drop-append,
}
use ironwood.Types.{ok}
use ironwood.Wire.{Bytes, IsU64, max_u64}
use ironwood.Wire.BigEndian.{put_uint64, length-put_uint64, uint64-put_uint64}
use ironwood.Wire.Encoded.{checked_size_ok, wire_chop_slice-append}
use ironwood.Bloom.{
  Words, set_flag, flag, size_words, size, encode_loop, put_words, no_flags, encode, decode_loop,
  decode,
}
use ironwood.Bloom.Flags.{IsFlags, IsByte, set_flag-IsFlags, every, every_below}
use ironwood.Bloom.Rounds.{
  others, Agrees, IsClear, set_flag-IsClear, skip-IsClear, Encoded, zero_round, full_round,
  kept_round,
}

encode_loop-Encoded :
    (us : Words) (idx : ℕ) (flags0 flags1 : Bytes) (keep : Words)
    → idx + length us ≤ 128
    → IsFlags flags0
    → IsFlags flags1
    → IsClear flags0 idx
    → IsClear flags1 idx
    → Encoded flags0 flags1 idx us keep (encode_loop us idx flags0 flags1 keep)
unfolding encode_loop
encode_loop-Encoded [] idx flags0 flags1 keep h f0 f1 c0 c1 = record {
  sized0 = f0;
  sized1 = f1;
  before0 = λ j lt. refl;
  before1 = λ j lt. refl;
  agrees = unfold Agrees in tt;
  kept = sym (unfold others in append-nil keep);
}
encode_loop-Encoded (u ∷ us) idx flags0 flags1 keep h f0 f1 c0 c1 = elim (Bool-cases (u == 0)) [
  | inl e ↦ rw e (
      zero_round flags0 flags1 idx u us keep f0 f1 lt c0 c1 _ ((==_iff u 0).0 e) (
        encode_loop-Encoded us (idx + 1) (set_flag flags0 idx) flags1 keep (omega arith)
          (set_flag-IsFlags flags0 idx f0) f1 (set_flag-IsClear flags0 idx f0 lt c0)
          (skip-IsClear flags1 idx c1)))
  | inr n ↦ elim (Bool-cases (u == max_u64)) [
    | inl e ↦
        rw (n, e)
          (full_round flags0 flags1 idx u us keep f0 f1 lt c0 c1 _ ((==_iff u max_u64).0 e) (
            encode_loop-Encoded us (idx + 1) flags0 (set_flag flags1 idx) keep (omega arith) f0
              (set_flag-IsFlags flags1 idx f1) (skip-IsClear flags0 idx c0)
              (set_flag-IsClear flags1 idx f1 lt c1)))
    | inr m ↦
        rw (n, m)
          (kept_round flags0 flags1 idx u us keep f0 f1 lt c0 c1 _ (ground (arith, n))
            (ground (arith, m))
            (encode_loop-Encoded us (idx + 1) flags0 flags1 (keep ++ (u ∷ [])) (omega arith) f0 f1
              (skip-IsClear flags0 idx c0) (skip-IsClear flags1 idx c1)))
  ]
]
  where
    lt : idx < 128
    lt = omega arith

words_bytes : Words → Bytes
words_bytes [] = []
words_bytes (u ∷ us) = put_uint64 u ++ words_bytes us

put_words-words_bytes : (out : Bytes) (us : Words) → put_words out us ≡ out ++ words_bytes us
unfolding put_words words_bytes
put_words-words_bytes out [] = sym (append-nil out)
put_words-words_bytes out (u ∷ us) =
    put_words-words_bytes (out ++ put_uint64 u) us
    ∙ append_assoc out (put_uint64 u) (words_bytes us)

length-others : (us : Words) → length (words_bytes (others us)) ≡ size_words us
unfolding words_bytes others size_words
length-others [] = refl
length-others (u ∷ us) = ground (
  arith,
  length-others us,
  length-append (put_uint64 u) (words_bytes (others us)),
  length-put_uint64 u,
)

-- One round of the decoder on a chunk that was written out.
decode_kept :
    (n idx u : ℕ) (flags0 flags1 : Bytes) (acc : Words) (bs : Bytes)
    → flag flags0 idx ≡ false
    → flag flags1 idx ≡ false
    → IsU64 u
    → decode_loop (suc n) idx flags0 flags1 acc (put_uint64 u ++ bs)
      ≡ decode_loop n (idx + 1) flags0 flags1 (acc ++ (u ∷ [])) bs
unfolding decode_loop
decode_kept n idx u flags0 flags1 acc bs z o h = rw (
  z,
  o,
  long,
  subst (λ (k : ℕ). take k (put_uint64 u ++ bs) ≡ put_uint64 u) (length-put_uint64 u)
      (take-append (put_uint64 u) bs),
  subst (λ (k : ℕ). drop k (put_uint64 u ++ bs) ≡ bs) (length-put_uint64 u)
      (drop-append (put_uint64 u) bs),
  uint64-put_uint64 u h,
)
  where
    long : leb 8 (length (put_uint64 u ++ bs)) ≡ true
    long = ground (arith, length-append (put_uint64 u) bs, length-put_uint64 u)

-- The decoder's loop reads back what the flags and the chunks after them tell.
decode_loop-others :
    (us : Words) (idx : ℕ) (flags0 flags1 : Bytes) (acc : Words) (bs : Bytes)
    → Agrees flags0 flags1 idx us
    → All IsU64 us
    → decode_loop (length us) idx flags0 flags1 acc (words_bytes (others us) ++ bs)
      ≡ ok (acc ++ us, bs)
unfolding decode_loop others words_bytes Agrees
decode_loop-others [] idx flags0 flags1 acc bs a h =
    ap (λ (ws : Words). ok (ws, bs)) (sym (append-nil acc))
decode_loop-others (u ∷ us) idx flags0 flags1 acc bs a h =
    let next : decode_loop (length us) (idx + 1) flags0 flags1 (acc ++ (u ∷ []))
          (words_bytes (others us) ++ bs)
        ≡ ok (acc ++ (u ∷ us), bs) =
      decode_loop-others us (idx + 1) flags0 flags1 (acc ++ (u ∷ [])) bs a.2 h.1
      ∙ ap (λ (ws : Words). ok (ws, bs)) (append_assoc acc (u ∷ []) us) in
    elim (Bool-cases (u == 0)) [
      | inl e ↦
          let e0 : u ≡ 0 = (==_iff u 0).0 e in
          rw (a.0, a.1, e, not_full u e0)
            (ap
                (λ (w : ℕ).
                  decode_loop (length us) (idx + 1) flags0 flags1 (acc ++ (w ∷ []))
                    (words_bytes (others us) ++ bs))
                (sym e0)
              ∙ next)
      | inr n ↦ elim (Bool-cases (u == max_u64)) [
        | inl e ↦
            let e1 : u ≡ max_u64 = (==_iff u max_u64).0 e in
            rw (a.0, a.1, n, e)
              (ap
                  (λ (w : ℕ).
                    decode_loop (length us) (idx + 1) flags0 flags1 (acc ++ (w ∷ []))
                      (words_bytes (others us) ++ bs))
                  (sym e1)
                ∙ next)
        | inr m ↦
            rw (n, m, append_assoc (put_uint64 u) (words_bytes (others us)) bs)
              (decode_kept (length us) idx u flags0 flags1 acc (words_bytes (others us) ++ bs)
                  (a.0 ∙ n) (a.1 ∙ m) h.0
                ∙ next)
      ]
    ]
  where
    not_full : (w : ℕ) → w ≡ 0 → (w == max_u64) ≡ false
    not_full w e = ground (arith, e)

zeros-IsByte : (n : ℕ) → All IsByte (replicate n 0)
zeros-IsByte zero = tt
zeros-IsByte (suc n) = (omega arith, zeros-IsByte n)

no_flags-IsFlags : IsFlags no_flags
no_flags-IsFlags = record { sized = refl; bytes = zeros-IsByte 16 }

clear_table : every 128 (λ j. not (flag no_flags j)) ≡ true
unfolding every flag
clear_table = refl

no_flags-IsClear : IsClear no_flags 0
unfolding IsClear
no_flags-IsClear j lo hi =
    ground (arith, every_below 128 (λ k. not (flag no_flags k)) j clear_table hi)

-- Every chunk is a uint64, and there are as many as the decoder makes.
pub record IsWords (us : Words) : Type 0 where
  pub sized : length us ≡ 128
  pub words : All IsU64 us

module _ (us : Words) where
  flags0 : Bytes
  flags0 = (encode_loop us 0 no_flags no_flags []).0

  flags1 : Bytes
  flags1 = (encode_loop us 0 no_flags no_flags []).1

  encoding : Bytes
  encoding = flags0 ++ (flags1 ++ words_bytes (others us))

  made : IsWords us → Encoded no_flags no_flags 0 us [] (encode_loop us 0 no_flags no_flags [])
  made v =
      encode_loop-Encoded us 0 no_flags no_flags [] (omega (arith, v.sized)) no_flags-IsFlags
        no_flags-IsFlags no_flags-IsClear no_flags-IsClear

  length-encoding : IsWords us → length encoding ≡ size us
  unfolding encoding size flags0 flags1
  length-encoding v = omega (
    arith,
    length-append flags0 (flags1 ++ words_bytes (others us)),
    length-append flags1 (words_bytes (others us)),
    length-others us,
    (made v).sized0.sized,
    (made v).sized1.sized,
  )

  encode-encoding : (out : Bytes) → IsWords us → encode us out ≡ ok (out ++ encoding)
  unfolding encode encoding flags0 flags1
  encode-encoding out v =
      rw
        (
          (made v).kept,
          put_words-words_bytes (out ++ flags0 ++ flags1) (others us),
          append_assoc (out ++ flags0) flags1 (words_bytes (others us)),
          append_assoc out flags0 (flags1 ++ words_bytes (others us)),
        )
        (checked_size_ok out encoding (size us) (length-encoding v))

  decode-encoding : IsWords us → decode encoding ≡ ok us
  unfolding decode encoding flags0 flags1
  decode-encoding v =
      rw
        (
          wire_chop_slice-append 16 flags0 (flags1 ++ words_bytes (others us))
              (made v).sized0.sized,
          wire_chop_slice-append 16 flags1 (words_bytes (others us)) (made v).sized1.sized,
          all_read,
        )
        refl
    where
      all_read : decode_loop 128 0 flags0 flags1 [] (words_bytes (others us)) ≡ ok (us, [])
      all_read = rw (← v.sized) (
          rw (append-nil (words_bytes (others us))) at
            (decode_loop-others us 0 flags0 flags1 [] [] (made v).agrees v.words))

  -- Encoding 128 uint64s does not fail, appends `size` bytes, and they decode to the same 128.
  pub bloom_round_trip :
      (out : Bytes)
      → IsWords us
      → (bs : Bytes) × (encode us out ≡ ok (out ++ bs))
        × (length bs ≡ size us)
        × (decode bs ≡ ok us)
  bloom_round_trip out v = (encoding, encode-encoding out v, length-encoding v, decode-encoding v)
