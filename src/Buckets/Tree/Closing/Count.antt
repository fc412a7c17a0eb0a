-- ===== src/Buckets/Tree/Closing/Count.antt =====
-- closeUnused of buckets.go: how many buckets stay loaded.
use timeq.Base.{
  ℕ, zero, suc, ◌+◌, ◌-◌, ◌*◌, ◌/◌, ◌%◌, ◌^◌, ◌≤◌, ◌<◌, ◌≡◌, refl, sym, ◌∙◌, ap, subst, true, false,
  List, [], ◌∷◌, Option, none, some, length, get_elem?, set, length-set, arith, if◌then◌else◌, ltb,
  leb, ltb→lt, ltb→ge, leb→le, gt_of_leb, ge→ltb, Bool-cases, Option-cases, ==→eq, inl, inr, ◌==◌,
}
use timeq.Base.Words.{rank, lt_i64}
use timeq.Item.{Location}
use timeq.Btree.{OrderedMap, IsOrderedMap}
use timeq.Btree.Pairs.{Ascending}
use timeq.Btree.Places.{get_elem?-none, some_injective, none_ne_some}
use timeq.Options.{Options}
use timeq.Bucket.{Bucket}
use timeq.Buckets.Tree.{
  Buckets, Env, Entry, loaded_in, nloaded, close_bucket, entry_at, real_idx, close_loop,
  close_unused,
}
use timeq.Buckets.Tree.Closing.{
  Shut, close_loop-Ended, close_bucket-entries, close_bucket-Ascending,
}

module _ (M : OrderedMap (List Location)) (T : OrderedMap (Option (Bucket M))) where
  loaded_in-set :
      (es : List (Entry M T)) (i key : ℕ) (b : Bucket M)
      → get_elem? es i ≡ some (key, some b)
      → suc (loaded_in M T (set es i (key, none))) ≡ loaded_in M T es
  loaded_in-set [] i key b e = absurd (cc)
  loaded_in-set ((k, v) ∷ es) zero key b e =
      let same : (k, v) ≡ (key, some b) = some_injective e in
      ap (λ p. loaded_in M T (p ∷ es)) (sym same)
  loaded_in-set ((k, none) ∷ es) (suc i) key b e = loaded_in-set es i key b e
  loaded_in-set ((k, some c) ∷ es) (suc i) key b e = ap suc (loaded_in-set es i key b e)

  none_loaded :
      (es : List (Entry M T)) → ((i : ℕ) → Shut M T (get_elem? es i)) → loaded_in M T es ≡ 0
  none_loaded [] h = refl
  none_loaded ((k, none) ∷ es) h = none_loaded es (λ i. h (suc i))
  none_loaded ((k, some b) ∷ es) h = absurd (h 0 k b refl)

  Shut-set :
      (es : List (Entry M T)) (i j key : ℕ)
      → Shut M T (get_elem? es j)
      → Shut M T (get_elem? (set es i (key, none)) j)
  Shut-set [] i j key h = h
  Shut-set (e ∷ es) zero zero key h = λ k b p. none_ne_some (ap (λ q. q.1) (some_injective p))
  Shut-set (e ∷ es) zero (suc j) key h = h
  Shut-set (e ∷ es) (suc i) zero key h = h
  Shut-set (e ∷ es) (suc i) (suc j) key h = Shut-set es i j key h

  -- The loop's invariant: no bucket is loaded at the places visited, and the buckets are counted.
  record Reaped (len total idx : ℕ) (s : Buckets M T) (n : ℕ) : Type 0 where
    ascending : Ascending (T.entries s.tree)
    same_len : length (T.entries s.tree) ≡ len
    visited :
        (j i : ℕ)
        → j < idx
        → real_idx (len / 2) j ≡ some i
        → Shut M T (get_elem? (T.entries s.tree) i)
    counted : nloaded M T s + n ≡ total

  -- The places that the loop visits are all there are.
  real_idx-all : (len i : ℕ) → i < len → (j : ℕ) × (j < len) × (real_idx (len / 2) j ≡ some i)
  unfolding real_idx
  real_idx-all len i h = elim (Bool-cases (leb (len / 2) i)) [
    | inl upper ↦
        let le : len / 2 ≤ i = leb→le (len / 2) i upper in
        let even : ((2 * (i - len / 2)) % 2 == 0) ≡ true = ground arith in
        let there : len / 2 + (2 * (i - len / 2)) / 2 ≡ i = omega (arith, le) in
        (2 * (i - len / 2), omega (arith, le, h), rw (even, there) refl)
    | inr lower ↦
        let lt : i < len / 2 = gt_of_leb (len / 2) i lower in
        let d : ℕ = len / 2 - 1 - i in
        let odd : ((2 * d + 1) % 2 == 0) ≡ false = ground arith in
        let within : ltb (len / 2) ((2 * d + 1) / 2 + 1) ≡ false =
          ge→ltb (len / 2) ((2 * d + 1) / 2 + 1) (omega (arith, lt)) in
        let there : len / 2 - ((2 * d + 1) / 2 + 1) ≡ i = omega (arith, lt) in
        (2 * d + 1, omega (arith, lt, h), rw (odd, within, there) refl)
  ]

  Shut-here : (es : List (Entry M T)) (i key : ℕ) → Shut M T (get_elem? (set es i (key, none)) i)
  Shut-here [] i key = λ k b p. none_ne_some p
  Shut-here (e ∷ es) zero key = λ k b p. none_ne_some (ap (λ q. q.1) (some_injective p))
  Shut-here (e ∷ es) (suc i) key = Shut-here es i key

  Reaped-skips :
      (len total idx n : ℕ) (s : Buckets M T)
      → Reaped len total idx s n
      → Shut M T (entry_at M T (T.entries s.tree) (real_idx (len / 2) idx))
      → Reaped len total (idx + 1) s n
  Reaped-skips len total idx n s r shut = record {
    ascending = r.ascending;
    same_len = r.same_len;
    visited = λ j i h e. elim (Bool-cases (j == idx)) [
      | inl last ↦
          subst (λ o. Shut M T (entry_at M T (T.entries s.tree) o))
            (ap (real_idx (len / 2)) (sym (==→eq j idx last)) ∙ e) shut
      | inr before ↦ r.visited j i (ground (arith, h, before)) e
    ];
    counted = r.counted;
  }

  module _ (laws : IsOrderedMap T) where
    Reaped-closed :
        (len total idx n i key : ℕ) (s : Buckets M T) (b : Bucket M)
        → Reaped len total idx s n
        → real_idx (len / 2) idx ≡ some i
        → get_elem? (T.entries s.tree) i ≡ some (key, some b)
        → Reaped len total (idx + 1) (close_bucket M T s key b) (n + 1)
    unfolding nloaded
    Reaped-closed len total idx n i key s b r at_i e =
        let es : List (Entry M T) = T.entries s.tree in
        let after : T.entries (close_bucket M T s key b).tree ≡ set es i (key, none) =
          close_bucket-entries M T laws s i key b r.ascending e in
        record {
          ascending = close_bucket-Ascending M T laws s key b r.ascending;
          same_len = ap (λ l. length l) after ∙ length-set es i (key, none) ∙ r.same_len;
          visited = λ j i' h e'.
              subst (λ l. Shut M T (get_elem? l i')) (sym after)
                (elim (Bool-cases (j == idx)) [
                  | inl last ↦
                      subst (λ k. Shut M T (get_elem? (set es i (key, none)) k))
                        (some_injective
                          (sym at_i ∙ ap (real_idx (len / 2)) (sym (==→eq j idx last)) ∙ e'))
                        (Shut-here es i key)
                  | inr before ↦
                      Shut-set es i i' key (r.visited j i' (ground (arith, h, before)) e')
                ]);
          counted = omega (arith, r.counted, ap (loaded_in M T) after, loaded_in-set es i key b e);
        }

    Reaped-closes :
        (len total idx n key : ℕ) (s : Buckets M T) (b : Bucket M)
        → Reaped len total idx s n
        → entry_at M T (T.entries s.tree) (real_idx (len / 2) idx) ≡ some (key, some b)
        → Reaped len total (idx + 1) (close_bucket M T s key b) (n + 1)
    Reaped-closes len total idx n key s b r e = elim (Option-cases (real_idx (len / 2) idx)) [
      | inl no_place ↦
          absurd (none_ne_some (ap (entry_at M T (T.entries s.tree)) (sym no_place) ∙ e))
      | inr (i, at_i) ↦
          Reaped-closed len total idx n i key s b r at_i
            (ap (entry_at M T (T.entries s.tree)) (sym at_i) ∙ e)
    ]

    -- When every place was visited, no bucket is loaded.
    Reaped-all : (len total n : ℕ) (s : Buckets M T) → Reaped len total len s n → nloaded M T s ≡ 0
    unfolding nloaded
    Reaped-all len total n s r = none_loaded (T.entries s.tree) shut
      where
        shut : (i : ℕ) → Shut M T (get_elem? (T.entries s.tree) i)
        shut i = elim (Bool-cases (ltb i len)) [
          | inl within ↦
              let (j, lt, e) = real_idx-all len i (ltb→lt i len within) in r.visited j i lt e
          | inr beyond ↦
              let gone : get_elem? (T.entries s.tree) i ≡ none =
                get_elem?-none (T.entries s.tree) i
                  (omega (arith, r.same_len, ltb→ge i len beyond)) in
              λ key b p. none_ne_some (sym gone ∙ p)
        ]

    -- The loop of closeUnused closes as many buckets as it is to close.
    reap :
        (env : Env M T) (opts : Options) (max_bucks : ℕ) (s : Buckets M T)
        → Ascending (T.entries s.tree)
        → max_bucks < nloaded M T s
        → nloaded M T
            (close_loop M T env opts
              (length (T.entries s.tree))
              0
              (length (T.entries s.tree) / 2)
              (nloaded M T s - max_bucks)
              s
              []
              0).0
          ≡ max_bucks
    reap env opts max_bucks s up h =
        let len : ℕ = length (T.entries s.tree) in
        let total : ℕ = nloaded M T s in
        let start : Reaped len total 0 s 0 = record {
          ascending = up;
          same_len = refl;
          visited = λ j i lt e. absurd (omega (arith, lt));
          counted = omega arith;
        } in
        let left : Buckets M T =
          (close_loop M T env opts len 0 (len / 2) (total - max_bucks) s [] 0).0 in
        let (idx, n, (r, le), end) =
          close_loop-Ended M T env opts (len / 2) (total - max_bucks)
            (λ idx s n. Reaped len total idx s n × (n ≤ total - max_bucks))
            (λ idx n s (r, le) shut. (Reaped-skips len total idx n s r shut, le))
            (λ idx n key s b (r, le) e lt.
              (Reaped-closes len total idx n key s b r e, omega (arith, lt)))
            len 0 0 s [] (start, omega arith) in
        elim end [
          | inl enough ↦ omega (arith, enough, le, r.counted, h)
          | inr last ↦
              let at_end : idx ≡ len = omega (arith, last) in
              let none_left =
                Reaped-all len total n left (subst (λ k. Reaped len total k left n) at_end r) in
              omega (arith, none_left, le, r.counted, h)
        ]

    -- closeUnused for a number of buckets that is not negative leaves exactly that many loaded, or
    -- as many as there were if these were fewer, whatever Close answers.
    pub close_unused-nloaded :
        (env : Env M T) (opts : Options) (max_bucks : ℕ) (s : Buckets M T)
        → Ascending (T.entries s.tree)
        → max_bucks < 2 ^ 63
        → nloaded M T (close_unused M T env opts max_bucks s).0
          ≡ (if leb (nloaded M T s) max_bucks then nloaded M T s else max_bucks)
    unfolding close_unused nloaded
    close_unused-nloaded env opts max_bucks s up h =
        ap (λ t. nloaded M T (if t then (s, []) else cut).0) not_negative
        ∙ (elim (Bool-cases (leb (nloaded M T s) max_bucks)) [
          | inl few ↦ rw few refl
          | inr many ↦
              rw many (reap env opts max_bucks s up (gt_of_leb (nloaded M T s) max_bucks many))
        ])
      where
        not_negative : lt_i64 max_bucks 0 ≡ false
        not_negative = ge→ltb (rank max_bucks) (rank 0) (omega (arith, h))

        cut : Buckets M T × List ℕ
        cut =
            if leb (nloaded M T s) max_bucks
            then (s, [])
            else close_loop M T env opts (length (T.entries s.tree)) 0
                (length (T.entries s.tree) / 2) (nloaded M T s - max_bucks) s [] 0
