-- ===== src/Bucket/Merge/Picks.antt =====
-- peek of bucket.go returns the lowest items of the index, in order.
use mathlib.Core.List.{Perm, append_assoc, append-nil}
use mathlib.Core.List.Perm
use timeq.Base.{
  ℕ, zero, suc, ◌+◌, ◌^◌, ◌≤◌, ◌≡◌, refl, sym, ◌∙◌, ap, subst, Bool, true, false, List, [], ◌∷◌,
  ◌++◌, none, some, length, arith, Run, ok, ◌>>=◌, All, All-append, All-append_inv, All-map,
  if◌then◌else◌, Bool-cases, ◌⊎◌, inl, inr,
}
use timeq.Base.Words.{rank, rank_bound}
use timeq.Item.{Item, Location}
use timeq.Item.Order.{Below, Ordered, Below-perm}
use timeq.Btree.{OrderedMap}
use timeq.Vlog.{Log}
use timeq.Vlog.Iter.{Iter}
use timeq.Vlog.Iter
use timeq.Vlog.Iter.Ahead.{left, IsGood, next-IsGood, left-exhausted}
use timeq.Vlog.Heap.Order.{weight, weight_at}
use timeq.Vlog.Heap.Swaps.{root-All}
use timeq.Index.{LocIter}
use timeq.Bucket.{Bucket}
use timeq.Bucket.Peek.{Added, Peeked, after_next, peek_loop}
use timeq.Bucket.Merge.{
  Batch, NotAfter, all_items, all_left, first_keys, batch_keys, Below-ahead, Merging,
}
use timeq.Bucket.Merge.Rounds.{added_state, Round, fixed, Round-from, Below-others}

-- Exhausted iterators have nothing left.
all_left-exhausted :
    (l : Log) (is : List Iter) → All (λ li. 2 ^ 64 ≤ weight li) is → all_left l is ≡ []
all_left-exhausted l [] h = refl
all_left-exhausted l (li ∷ is) h = elim (Bool-cases li.exhausted) [
  | inl e ↦ ap (λ xs. xs ++ all_left l is) (left-exhausted l li e) ∙ all_left-exhausted l is h.1
  | inr e ↦ absurd (ground (arith, h.0, e, rank_bound li.item.key))
]

batch_keys-append : (bs cs : List Batch) → batch_keys (bs ++ cs) ≡ batch_keys bs ++ batch_keys cs
batch_keys-append [] cs = refl
batch_keys-append ((loc, items) ∷ bs) cs = ap (◌∷◌ loc.key) (batch_keys-append bs cs)

module _ (M : OrderedMap (List Location)) (b : Bucket M) where
  -- The iterators `is` and the batches `to_come` are what is left when iterators, of the keys
  -- `ks` at first, were added for the first of the batches `ahead`.
  pub record Opened (ks : List ℕ) (ahead : List Batch) (is : List Iter) (to_come : List Batch)
      : Type 0 where
    pub good : All (IsGood b.log) is
    pub opened : List Batch
    pub split : ahead ≡ opened ++ to_come
    pub keys : Perm (first_keys is) (ks ++ batch_keys opened)

  pub Opened-more :
      (ks ls : List ℕ) (front ahead : List Batch) (is : List Iter) (to_come : List Batch)
      → Perm ls (ks ++ batch_keys front)
      → Opened ls ahead is to_come
      → Opened ks (front ++ ahead) is to_come
  Opened-more ks ls front ahead is to_come p o = record {
    good = o.good;
    opened = front ++ o.opened;
    split = ap (λ bs. front ++ bs) o.split ∙ sym (append_assoc front o.opened to_come);
    keys =
        subst (Perm (first_keys is))
          (append_assoc ks (batch_keys front) (batch_keys o.opened)
            ∙ ap (λ xs. ks ++ xs) (sym (batch_keys-append front o.opened)))
          (Perm.trans o.keys (Perm.append p (Perm.refl (batch_keys o.opened))));
  }

  -- What a run of the loop takes: the lowest of the items before it, in order, and no more than `n`.
  pub record Picked (ks : List ℕ) (ahead : List Batch) (dst : List Item) (num n : ℕ)
      (before : List Item) (p : Peeked M) : Type 0 where
    pub taken : List Item
    pub iters : List Iter
    pub to_come : List Batch
    pub result : p ≡ record {
      iters = some iters;
      items = dst ++ taken;
      npopped = num + length taken;
      err = none;
    }
    pub whole : Perm (taken ++ (all_left b.log iters ++ all_items to_come)) before
    pub ordered : Ordered taken
    pub lowest : All (λ x. Below x (all_left b.log iters ++ all_items to_come)) taken
    pub enough : (length taken ≡ n) ⊎ (all_left b.log iters ++ all_items to_come ≡ [])
    pub most : length taken ≤ n
    pub parts : Opened ks ahead iters to_come

  Picked-none :
      (dst : List Item) (num n : ℕ) (is : List Iter) (ahead : List Batch)
      → All (IsGood b.log) is
      → (0 ≡ n) ⊎ (all_left b.log is ++ all_items ahead ≡ [])
      → Picked
          (first_keys is)
          ahead
          dst
          num
          n
          (all_left b.log is ++ all_items ahead)
          (record { iters = some is; items = dst; npopped = num; err = none })
  Picked-none dst num n is ahead g e =
      let plus : num ≡ num + 0 = omega arith in
      record {
        taken = [];
        iters = is;
        to_come = ahead;
        result = λ i. record {
          iters = some is;
          items = sym (append-nil dst) i;
          npopped = plus i;
          err = none;
        };
        whole = Perm.refl (all_left b.log is ++ all_items ahead);
        ordered = tt;
        lowest = tt;
        enough = e;
        most = omega arith;
        parts = record {
          good = g;
          opened = [];
          split = refl;
          keys =
              subst (Perm (first_keys is)) (sym (append-nil (first_keys is)))
                (Perm.refl (first_keys is));
        };
      }

  nothing_left :
      (li : Iter) (others : List Iter) (locs : LocIter M) (ex : Bool) (ahead : List Batch)
      → Merging M b (li ∷ others) locs ex ahead
      → li.exhausted ≡ true
      → all_left b.log (li ∷ others) ++ all_items ahead ≡ []
  unfolding weight_at
  nothing_left li others locs ex [] m e =
      ap (λ xs. xs ++ [])
        (all_left-exhausted b.log (li ∷ others)
          (All-map (li ∷ others) (λ o w. ground (arith, w, e)) (root-All (li ∷ others) m.heap)))
  nothing_left li others locs ex ((loc, items) ∷ bs) m e =
      absurd (ground (arith, m.root_first, e, rank_bound loc.key))

  -- The lowest item of all is taken.
  round :
      (li : Iter) (others : List Iter) (locs : LocIter M) (ex : Bool) (ahead : List Batch)
      → Merging M b (li ∷ others) locs ex ahead
      → li.exhausted ≡ false
      → (curr : Iter) × (more : Bool) × (Iter.next b.log li ≡ ok (curr, more))
        × (left b.log li ≡ li.item ∷ left b.log curr)
        × Round M b li others locs ex ahead curr
        × (curr.first_key ≡ li.first_key)
        × Below li.item (left b.log curr ++ (all_left b.log others ++ all_items ahead))
  unfolding weight_at
  round li others locs ex ahead m live =
      let (curr, more, mv) = next-IsGood b.log li m.good.0 live in
      let (r, f) = fixed M b li curr others m.heap (mv.1, m.good.1) in
      let root : weight li ≡ rank li.item.key = ground (arith, live) in
      let first : NotAfter (rank li.item.key) ahead =
        subst (λ w. NotAfter w ahead) root m.root_first in
      (
        curr,
        more,
        mv.0,
        mv.2,
        Round-from M b li curr others locs ex ahead r f mv.1.fine m.coming m.backed m.rising,
        mv.4,
        All-append (λ y. rank li.item.key ≤ rank y.key) (left b.log curr)
            (all_left b.log others ++ all_items ahead) mv.3
            (All-append (λ y. rank li.item.key ≤ rank y.key) (all_left b.log others)
              (all_items ahead)
              (Below-others M b li.item others m.good.1
                (All-map others (λ o w. omega (arith, w, root)) (root-All (li ∷ others) m.heap).1))
              (Below-ahead b.log li.item ahead first m.rising m.backed)),
      )

  Picked-more :
      (ks ls : List ℕ) (front ahead : List Batch) (x : Item) (dst : List Item) (num n : ℕ)
      (after before : List Item) (p : Peeked M)
      → Picked ls ahead (dst ++ (x ∷ [])) (num + 1) n after p
      → Perm (x ∷ after) before
      → Below x after
      → Perm ls (ks ++ batch_keys front)
      → Picked ks (front ++ ahead) dst num (suc n) before p
  Picked-more ks ls front ahead x dst num n after before p k all low ps =
      let rest = all_left b.log k.iters ++ all_items k.to_come in
      let split =
        All-append_inv (λ y. rank x.key ≤ rank y.key) k.taken rest
          (Below-perm x (Perm.symm k.whole) low) in
      record {
        taken = x ∷ k.taken;
        iters = k.iters;
        to_come = k.to_come;
        result = k.result ∙ (λ i. record {
          iters = some k.iters;
          items = append_assoc dst (x ∷ []) k.taken i;
          npopped = counted k i;
          err = none;
        });
        whole = Perm.trans (Perm.cons x k.whole) all;
        ordered = (split.0, k.ordered);
        lowest = (split.1, k.lowest);
        enough = elim k.enough [ inl e ↦ inl (ap suc e) | inr e ↦ inr e ];
        most = omega (arith, k.most);
        parts = Opened-more ks ls front ahead k.iters k.to_come ps k.parts;
      }
    where
      counted :
          (k : Picked ls ahead (dst ++ (x ∷ [])) (num + 1) n after p)
          → num + 1 + length k.taken ≡ num + suc (length k.taken)
      counted k = omega arith

  -- The loop of peek takes the lowest items that are left, until it has enough or none is left.
  pub peek_loop-Picked :
      (n : ℕ) (is : List Iter) (locs : LocIter M) (ex : Bool) (ahead : List Batch)
      → Merging M b is locs ex ahead
      → (dst : List Item) (num : ℕ)
      → (p : Peeked M) × (peek_loop M b n (added_state M b is locs ex) dst num ≡ ok p)
        × Picked (first_keys is) ahead dst num n (all_left b.log is ++ all_items ahead) p
  unfolding peek_loop
  peek_loop-Picked zero is locs ex ahead m dst num = (
    record { iters = some is; items = dst; npopped = num; err = none },
    refl,
    Picked-none dst num 0 is ahead m.good (inl refl),
  )
  peek_loop-Picked (suc n) [] locs ex ahead m dst num = absurd (omega (arith, m.some_iters))
  peek_loop-Picked (suc n) (li ∷ others) locs ex ahead m dst num = elim (Bool-cases li.exhausted) [
    | inl e ↦
        let none_left = nothing_left li others locs ex ahead m e in
        (
          record { iters = some (li ∷ others); items = dst; npopped = num; err = none },
          ap (λ t. if t then stops else goes_on) e,
          Picked-none dst num (suc n) (li ∷ others) ahead m.good (inr none_left),
        )
    | inr live ↦
        let (curr, more, moved, here, r, key, low) = round li others locs ex ahead m live in
        let (p, run, k) =
          peek_loop-Picked n r.iters r.locs_left r.exhausted r.to_come r.merging
            (dst ++ (li.item ∷ [])) (num + 1) in
        (
          p,
          ap (λ t. if t then stops else goes_on) live
              ∙ ap
                  (λ q. q >>= λ s.
                    after_next M b again (added_state M b (li ∷ others) locs ex) others
                      (dst ++ (li.item ∷ [])) (num + 1) s.0)
                  moved
              ∙ r.runs again (dst ++ (li.item ∷ [])) (num + 1)
              ∙ run,
          subst
              (λ bs.
                Picked (first_keys (li ∷ others)) bs dst num (suc n)
                  (all_left b.log (li ∷ others) ++ all_items ahead) p)
              (sym r.split)
              (Picked-more (first_keys (li ∷ others)) (first_keys r.iters) r.opened r.to_come
                li.item dst num n (all_left b.log r.iters ++ all_items r.to_come)
                (all_left b.log (li ∷ others) ++ all_items ahead) p k
                (Perm.trans (Perm.cons li.item r.rest) (same curr here))
                (Below-perm li.item (Perm.symm r.rest) low)
                (subst
                  (λ k. Perm (first_keys r.iters) ((k ∷ first_keys others) ++ batch_keys r.opened))
                  key r.keys)),
        )
  ]
    where
      again : Added M → List Item → ℕ → Run (Peeked M)
      again s dst num = peek_loop M b n s dst num

      stops : Run (Peeked M)
      stops = ok (record { iters = some (li ∷ others); items = dst; npopped = num; err = none })

      goes_on : Run (Peeked M)
      goes_on = Iter.next b.log li >>= λ s.
          after_next M b again (added_state M b (li ∷ others) locs ex) others
            (dst ++ (li.item ∷ [])) (num + 1) s.0

      same :
          (curr : Iter)
          → left b.log li ≡ li.item ∷ left b.log curr
          → Perm
              (li.item ∷ (left b.log curr ++ (all_left b.log others ++ all_items ahead)))
              (all_left b.log (li ∷ others) ++ all_items ahead)
      same curr e =
          subst (Perm (li.item ∷ (left b.log curr ++ (all_left b.log others ++ all_items ahead))))
            (sym
                (append_assoc (li.item ∷ left b.log curr) (all_left b.log others) (all_items ahead))
              ∙ ap (λ xs. (xs ++ all_left b.log others) ++ all_items ahead) (sym e))
            (Perm.refl (li.item ∷ (left b.log curr ++ (all_left b.log others ++ all_items ahead))))
