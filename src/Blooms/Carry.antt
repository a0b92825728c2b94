-- ===== src/Blooms/Carry.antt =====
-- What the filter that is due for a peer finds.
use ironwood.Base.{
  ◌≡◌, ◌≢◌, refl, sym, ◌∙◌, inl, inr, subst, Bool, true, false, not, [], ◌∷◌, none, some, arith,
  Bool-cases, Option-cases, All,
}
use ironwood.Types.{ok, panic}
use ironwood.Crypto.{PublicKey, equal}
use ironwood.Crypto.Order.{equal_iff, equal-false}
use ironwood.Keyed.{lookup}
use ironwood.Router.{Router}
use ironwood.Blooms.{
  Filter, BloomInfo, Blooms, merge_one, merge_loop, with_ones, settle, get_bloom_for, send_all_loop,
  send_all_blooms,
}

module _ (filter : Filter) where
  merge_one_keeps :
      (x key k : PublicKey) (pbi : BloomInfo filter) (b : filter.Bits)
      → filter.test x b ≡ true
      → filter.test x (merge_one filter key k pbi b) ≡ true
  unfolding merge_one
  merge_one_keeps x key k pbi b h = ground (arith, filter.test-merge_left x b pbi.recv h)

  merge_one_takes :
      (x key k : PublicKey) (pbi : BloomInfo filter) (b : filter.Bits)
      → pbi.on_tree ≡ true
      → equal k key ≡ false
      → filter.test x pbi.recv ≡ true
      → filter.test x (merge_one filter key k pbi b) ≡ true
  unfolding merge_one
  merge_one_takes x key k pbi b on other h = rw (on, other) (filter.test-merge_right x b pbi.recv h)

  merge_loop_keeps :
      (x key : PublicKey) (bs : Blooms filter) (b : filter.Bits)
      → filter.test x b ≡ true
      → filter.test x (merge_loop filter key bs b) ≡ true
  unfolding merge_loop
  merge_loop_keeps x key [] b h = h
  merge_loop_keeps x key ((k, pbi) ∷ bs) b h =
      merge_loop_keeps x key bs (merge_one filter key k pbi b) (merge_one_keeps x key k pbi b h)

  merge_loop_takes :
      (x key k : PublicKey) (bs : Blooms filter) (b : filter.Bits) (pbi : BloomInfo filter)
      → lookup k bs ≡ some pbi
      → pbi.on_tree ≡ true
      → equal k key ≡ false
      → filter.test x pbi.recv ≡ true
      → filter.test x (merge_loop filter key bs b) ≡ true
  unfolding merge_loop lookup
  merge_loop_takes x key k [] b pbi e on other h = absurd (ground arith)
  merge_loop_takes x key k ((j, pj) ∷ bs) b pbi e on other h = elim (Bool-cases (equal j k)) [
    | inl here ↦ merge_loop_keeps x key bs (merge_one filter key j pj b) (
        let at_k : k ≡ j = sym ((equal_iff j k).0 here) in
        let is_pj : some pbi ≡ some pj = sym (rw (here) at e) in
        let off : equal j key ≡ false = subst (λ (i : PublicKey). equal i key ≡ false) at_k other in
        merge_one_takes x key j pj b (cc (is_pj, on)) off (cc (is_pj, h)))
    | inr there ↦
        merge_loop_takes x key k bs (merge_one filter key j pj b) pbi (rw (there) at e) on other h
  ]

  -- What the filter that is due finds, the filter that is sent finds.
  with_ones_keeps :
      (x : PublicKey) (pbi : BloomInfo filter) (keep_ones : Bool) (b : filter.Bits)
      → filter.test x b ≡ true
      → filter.test x (with_ones filter pbi keep_ones b).0 ≡ true
  unfolding with_ones
  with_ones_keeps x pbi keep_ones b h = elim (Bool-cases keep_ones) [
    | inl keep ↦ elim (Bool-cases pbi.z_dirty) [
      | inl dirty ↦ rw (keep, dirty) (filter.test-merge_left x b pbi.send h)
      | inr clean ↦ rw (keep, clean) (filter.test-merge_left x b pbi.send h)
    ]
    | inr renew ↦ rw (renew) h
  ]

  -- A filter that equals the one that was sent before is that one.
  settle-with_ones :
      (key : PublicKey) (pbi : BloomInfo filter) (d : filter.Bits × Bool) (bs : Blooms filter)
      → (settle filter key pbi d bs).0 ≡ d.0
  unfolding settle
  settle-with_ones key pbi (b, dirty) bs = elim (Bool-cases (filter.same b pbi.send)) [
    | inl same ↦ rw (same) (sym (filter.same_equal b pbi.send same))
    | inr other ↦ rw (other) refl
  ]

  get_bloom_for-settle :
      (self key : PublicKey) (keep_ones : Bool) (bs : Blooms filter) (pbi : BloomInfo filter)
      → lookup key bs ≡ some pbi
      → get_bloom_for filter self key keep_ones bs
        ≡ ok (
            settle filter key pbi
              (with_ones filter pbi keep_ones
                (merge_loop filter key bs (filter.add self filter.empty)))
              bs)
  unfolding get_bloom_for
  get_bloom_for-settle self key keep_ones bs pbi known = rw (known, get_bloom_for) refl

  sent_finds :
      (x self key : PublicKey) (keep_ones : Bool) (bs bs' : Blooms filter) (b : filter.Bits)
      (is_new : Bool) (pbi : BloomInfo filter)
      → lookup key bs ≡ some pbi
      → get_bloom_for filter self key keep_ones bs ≡ ok (b, is_new, bs')
      → filter.test x (merge_loop filter key bs (filter.add self filter.empty)) ≡ true
      → filter.test x b ≡ true
  sent_finds x self key keep_ones bs bs' b is_new pbi known e h =
      let due = merge_loop filter key bs (filter.add self filter.empty) in
      let whole = sym (get_bloom_for-settle self key keep_ones bs pbi known) ∙ e in
      subst (λ (c : filter.Bits). filter.test x c ≡ true)
        (sym (settle-with_ones key pbi (with_ones filter pbi keep_ones due) bs) ∙ cc (whole))
        (with_ones_keeps x pbi keep_ones due h)

  get_bloom_for-none :
      (self key : PublicKey) (keep_ones : Bool) (bs : Blooms filter)
      → lookup key bs ≡ none
      → get_bloom_for filter self key keep_ones bs ≡ panic
  unfolding get_bloom_for
  get_bloom_for-none self key keep_ones bs missing = rw (missing, get_bloom_for) refl

  kept_finds :
      (x self key : PublicKey) (bs bs' : Blooms filter) (b : filter.Bits) (is_new : Bool)
      (pbi : BloomInfo filter)
      → lookup key bs ≡ some pbi
      → get_bloom_for filter self key true bs ≡ ok (b, is_new, bs')
      → filter.test x pbi.send ≡ true
      → filter.test x b ≡ true
  unfolding with_ones
  kept_finds x self key bs bs' b is_new pbi known e h =
      let due = merge_loop filter key bs (filter.add self filter.empty) in
      let whole = sym (get_bloom_for-settle self key true bs pbi known) ∙ e in
      subst (λ (c : filter.Bits). filter.test x c ≡ true)
        (sym (settle-with_ones key pbi (with_ones filter pbi true due) bs) ∙ cc (whole))
        (elim (Bool-cases pbi.z_dirty) [
          | inl dirty ↦ rw (dirty) (filter.test-merge_right x due pbi.send h)
          | inr clean ↦ rw (clean) (filter.test-merge_right x due pbi.send h)
        ])

  -- The filter that _getBloomFor returns for a peer finds the node's own key, whatever another peer on the
  -- tree has told, and, with keepOnes, whatever was sent to that peer before.
  pub get_bloom_for_finds :
      (self key : PublicKey) (keep_ones : Bool) (bs bs' : Blooms filter) (b : filter.Bits)
      (is_new : Bool)
      → get_bloom_for filter self key keep_ones bs ≡ ok (b, is_new, bs')
      → (filter.test self b ≡ true)
        × ((k x : PublicKey) (pbi : BloomInfo filter)
            → lookup k bs ≡ some pbi
            → pbi.on_tree ≡ true
            → k ≢ key
            → filter.test x pbi.recv ≡ true
            → filter.test x b ≡ true)
        × ((x : PublicKey) (pbi : BloomInfo filter)
            → keep_ones ≡ true
            → lookup key bs ≡ some pbi
            → filter.test x pbi.send ≡ true
            → filter.test x b ≡ true)
  get_bloom_for_finds self key keep_ones bs bs' b is_new e = elim (Option-cases (lookup key bs)) [
    | inl missing ↦
        absurd (ground (arith, sym (get_bloom_for-none self key keep_ones bs missing) ∙ e))
    | inr (pbi, known) ↦ (
      sent_finds self self key keep_ones bs bs' b is_new pbi known e (
          merge_loop_keeps self key bs (filter.add self filter.empty)
            (filter.test-add self filter.empty)),
      λ k x pj at_k on other h. sent_finds x self key keep_ones bs bs' b is_new pbi known e (
          merge_loop_takes x key k bs (filter.add self filter.empty) pj at_k on
            (equal-false k key other) h),
      λ x pj keep at_key h.
          kept_finds x self key bs bs' b is_new pj at_key
            (subst (λ (o : Bool). get_bloom_for filter self key o bs ≡ ok (b, is_new, bs')) keep e)
            h,
    )
  ]

  -- The filter that is due for a peer on the tree finds nothing that was not sent before, and no bits were
  -- kept yet.
  pub record IsCovered (self k : PublicKey) (bs : Blooms filter) (pbi : BloomInfo filter)
      : Type 0 where
    pub known : lookup k bs ≡ some pbi
    pub clean : pbi.z_dirty ≡ false
    pub covered :
        filter.merge (merge_loop filter k bs (filter.add self filter.empty)) pbi.send ≡ pbi.send

  covered_stays :
      (self k : PublicKey) (bs : Blooms filter) (pbi : BloomInfo filter)
      → IsCovered self k bs pbi
      → get_bloom_for filter self k (not pbi.z_dirty) bs ≡ ok (pbi.send, false, bs)
  unfolding with_ones settle
  covered_stays self k bs pbi h =
      rw
        (
          h.clean,
          get_bloom_for-settle self k true bs pbi h.known,
          h.clean,
          h.covered,
          filter.same_refl pbi.send,
        )
        refl

  all_covered :
      (r : Router) (self : PublicKey) (entries bs : Blooms filter)
      → All
          (λ (e : PublicKey × BloomInfo filter). e.1.on_tree ≡ true → IsCovered self e.0 bs e.1)
          entries
      → send_all_loop filter r self entries bs ≡ ok (bs, [])
  unfolding send_all_loop
  all_covered r self [] bs h = refl
  all_covered r self ((k, pbi) ∷ entries) bs h = elim (Bool-cases pbi.on_tree) [
    | inl on ↦ rw (on, covered_stays self k bs pbi (h.0 on)) (all_covered r self entries bs h.1)
    | inr off ↦ rw (off) (all_covered r self entries bs h.1)
  ]

  -- Where what is due for each peer on the tree was all sent before, perhaps with more, and the dirty flag
  -- is not set, _sendAllBlooms changes nothing, not even the flag, and sends nothing: what was sent too
  -- much stays.
  pub send_all_blooms-IsCovered :
      (r : Router) (self : PublicKey) (bs : Blooms filter)
      → All
          (λ (e : PublicKey × BloomInfo filter). e.1.on_tree ≡ true → IsCovered self e.0 bs e.1)
          bs
      → send_all_blooms filter r self bs ≡ ok (bs, [])
  unfolding send_all_blooms
  send_all_blooms-IsCovered r self bs h = all_covered r self bs bs h
