-- ===== src/Bucket/Merge/Rounds.antt =====
-- One round of peek's loop: the lowest item is taken, and the invariant is kept.
use mathlib.Core.List.{Perm, append_assoc, append-nil}
use mathlib.Core.List.Perm
use native.Mathlib.Bridge.{le_prop}
use timeq.Base.{
  ℕ, ◌≤◌, ◌<◌, ◌≡◌, refl, sym, ◌∙◌, ap, subst, Bool, true, false, List, [], ◌∷◌, ◌++◌, none, length,
  arith, Run, ok, ◌>>=◌, All, All-append, if◌then◌else◌, Bool-cases, inl, inr, ◌||◌,
}
use timeq.Base.Perms.{gather-perm, All-perm, perm_length}
use timeq.Base.Words.{rank, le_i64}
use timeq.Item.{Item, Location}
use timeq.Item.Order.{Below}
use timeq.Btree.{OrderedMap}
use timeq.Vlog.Iter.{Iter}
use timeq.Vlog.Iter.Ahead.{left, IsGood, left-Below}
use timeq.Vlog.Heap
use timeq.Vlog.Heap.{parent}
use timeq.Vlog.Heap.Order.{weight, weight_at, IsHeap}
use timeq.Vlog.Heap.Swaps.{Swaps-perm, Swaps-All, root-All, weight_at-root}
use timeq.Vlog.Heap.Sift.{fix_root-Swaps}
use timeq.Index.{LocIter, value}
use timeq.Bucket.{Bucket}
use timeq.Bucket.Peek.{Added, add_iter, after_next, needs_next, unless_error, Peeked}
use timeq.Bucket.Merge.{
  Batch, IsBacked, Rising, all_items, all_left, first_keys, batch_keys, Merging, Coming,
  add_iter-Merging,
}

module _ (M : OrderedMap (List Location)) (b : Bucket M) where
  abbrev pub added_state : List Iter → LocIter M → Bool → Added M
  added_state is locs ex = record { iters = is; locs = locs; index_exhausted = ex; err = none }

  -- The heap after `Fix(0)`, for the iterator `curr` in place of the old root.
  pub record Fixed (curr : Iter) (others r : List Iter) : Type 0 where
    run : Heap.fix (curr ∷ others) 0 ≡ ok r
    heap : IsHeap r
    good : All (IsGood b.log) r
    same : Perm (all_left b.log r) (left b.log curr ++ all_left b.log others)
    light : weight_at r 0 ≤ weight curr
    some_iters : 0 < length r
    keys : Perm (first_keys r) (first_keys (curr ∷ others))

  pub fixed :
      (li curr : Iter) (others : List Iter)
      → IsHeap (li ∷ others)
      → All (IsGood b.log) (curr ∷ others)
      → (r : List Iter) × Fixed curr others r
  fixed li curr others h g =
      let (r, run, heap, sw) = fix_root-Swaps (curr ∷ others) (λ c p q t. omega (
        arith,
        weight_at-root curr li others c p,
        weight_at-root curr li others (parent c) (omega (arith, t)),
        h c p q,
      )) in
      (
        r,
        record {
          run = run;
          heap = heap;
          good = Swaps-All (IsGood b.log) sw g;
          same = gather-perm (left b.log) (Swaps-perm sw);
          light =
              (All-perm (λ (li : Iter). weight_at r 0 ≤ weight li) (λ _. le_prop) (Swaps-perm sw)
                (root-All r heap)).0;
          some_iters = omega (arith, perm_length (Swaps-perm sw));
          keys = gather-perm (λ (li : Iter). li.first_key ∷ []) (Swaps-perm sw);
        },
      )

  pub Below-others :
      (x : Item) (is : List Iter)
      → All (IsGood b.log) is
      → All (λ li. rank x.key ≤ weight li) is
      → Below x (all_left b.log is)
  Below-others x [] g w = tt
  Below-others x (li ∷ is) g w =
      All-append (λ y. rank x.key ≤ rank y.key) (left b.log li) (all_left b.log is)
        (left-Below b.log li x g.0 (λ e. ground (arith, w.0, e))) (Below-others x is g.1 w.1)

  -- How a round ends: with a state that has the rest, none of it below the item that was taken.
  pub record Round (li : Iter) (others : List Iter) (locs : LocIter M) (ex : Bool)
      (ahead : List Batch) (curr : Iter) : Type 0 where
    pub iters : List Iter
    pub locs_left : LocIter M
    pub exhausted : Bool
    pub to_come : List Batch
    pub runs :
        (again : Added M → List Item → ℕ → Run (Peeked M)) (dst : List Item) (num : ℕ)
        → after_next M b again (added_state (li ∷ others) locs ex) others dst num curr
          ≡ again (added_state iters locs_left exhausted) dst num
    pub merging : Merging M b iters locs_left exhausted to_come
    pub rest :
        Perm
          (all_left b.log iters ++ all_items to_come)
          (left b.log curr ++ (all_left b.log others ++ all_items ahead))
    -- The batches whose iterators were added in the round.
    pub opened : List Batch
    pub split : ahead ≡ opened ++ to_come
    pub keys : Perm (first_keys iters) (first_keys (curr ∷ others) ++ batch_keys opened)

  module _ (li curr : Iter) (others : List Iter) (locs : LocIter M) (ex : Bool) (r : List Iter)
      (f : Fixed curr others r) (fine : curr.err ≡ none)
      (again : Added M → List Item → ℕ → Run (Peeked M)) (dst : List Item) (num : ℕ) where
    to_test : after_next M b again (added_state (li ∷ others) locs ex) others dst num curr ≡ (
        if needs_next M (added_state (li ∷ others) locs ex) curr
        then (add_iter M b r locs >>= λ s'. unless_error M dst s'.err (again s' dst num))
        else again (added_state r locs ex) dst num)
    unfolding after_next
    to_test =
        ap (λ e. unless_error M dst e (Heap.fix (curr ∷ others) 0 >>= next)) fine
        ∙ ap (λ q. q >>= next) f.run
      where
        next : List Iter → Run (Peeked M)
        next is =
            if needs_next M (added_state (li ∷ others) locs ex) curr
            then (add_iter M b is locs >>= λ s'. unless_error M dst s'.err (again s' dst num))
            else again (added_state is locs ex) dst num

    unchanged :
        needs_next M (added_state (li ∷ others) locs ex) curr ≡ false
        → after_next M b again (added_state (li ∷ others) locs ex) others dst num curr
          ≡ again (added_state r locs ex) dst num
    unchanged e =
        to_test
        ∙ ap
            (λ t.
              if t
              then (add_iter M b r locs >>= λ s'. unless_error M dst s'.err (again s' dst num))
              else again (added_state r locs ex) dst num)
            e

    enlarged :
        (s' : Added M)
        → needs_next M (added_state (li ∷ others) locs ex) curr ≡ true
        → add_iter M b r locs ≡ ok s'
        → s'.err ≡ none
        → after_next M b again (added_state (li ∷ others) locs ex) others dst num curr
          ≡ again s' dst num
    enlarged s' e run ok_err =
        to_test
        ∙ ap
            (λ t.
              if t
              then (add_iter M b r locs >>= λ s'. unless_error M dst s'.err (again s' dst num))
              else again (added_state r locs ex) dst num)
            e
        ∙ ap (λ q. q >>= λ s'. unless_error M dst s'.err (again s' dst num)) run
        ∙ ap (λ e. unless_error M dst e (again s' dst num)) ok_err

  regrouped :
      (curr : Iter) (others r : List Iter) (rest : List Item)
      → Fixed curr others r
      → Perm (all_left b.log r ++ rest) (left b.log curr ++ (all_left b.log others ++ rest))
  regrouped curr others r rest f =
      subst (Perm (all_left b.log r ++ rest))
        (append_assoc (left b.log curr) (all_left b.log others) rest)
        (Perm.append f.same (Perm.refl rest))

  -- The test for the next location, once it is known.
  needs_next-at :
      (li curr : Iter) (others : List Iter) (locs : LocIter M) (ex : Bool) (loc : Location)
      → ex ≡ false
      → value M locs ≡ loc
      → needs_next M (added_state (li ∷ others) locs ex) curr
        ≡ (curr.exhausted || le_i64 loc.key curr.item.key)
  needs_next-at li curr others locs ex loc e v =
      ap (λ x. if x then false else curr.exhausted || le_i64 ((value M locs).key) curr.item.key) e
      ∙ ap (λ (l : Location). curr.exhausted || le_i64 l.key curr.item.key) v

  unopened :
      (curr : Iter) (others r : List Iter)
      → Fixed curr others r
      → Perm (first_keys r) (first_keys (curr ∷ others) ++ [])
  unopened curr others r f =
      subst (Perm (first_keys r)) (sym (append-nil (first_keys (curr ∷ others)))) f.keys

  pub Round-from :
      (li curr : Iter) (others : List Iter) (locs : LocIter M) (ex : Bool) (ahead : List Batch)
      (r : List Iter)
      → Fixed curr others r
      → curr.err ≡ none
      → Coming M b locs ex ahead
      → All (IsBacked b.log) ahead
      → Rising ahead
      → Round li others locs ex ahead curr
  Round-from li curr others locs ex [] r f fine done ks up = record {
    iters = r;
    locs_left = locs;
    exhausted = ex;
    to_come = [];
    runs = λ again dst num. unchanged li curr others locs ex r f fine again dst num (
        ap (λ x. if x then false else curr.exhausted || le_i64 ((value M locs).key) curr.item.key)
          done);
    merging = record {
      heap = f.heap;
      good = f.good;
      some_iters = f.some_iters;
      coming = done;
      backed = tt;
      rising = tt;
      root_first = tt;
    };
    rest = regrouped curr others r [] f;
    opened = [];
    split = refl;
    keys = unopened curr others r f;
  }
  Round-from li curr others locs ex ((loc, items) ∷ bs) r f fine (going, s) ks up =
      elim (Bool-cases (curr.exhausted || le_i64 loc.key curr.item.key)) [
        | inl takes ↦
            let (r2, locs2, ex2, run2, m2, same2, keys2) =
              add_iter-Merging M b r locs loc items bs f.heap f.good s ks.0 ks.1 up in
            record {
              iters = r2;
              locs_left = locs2;
              exhausted = ex2;
              to_come = bs;
              runs = λ again dst num.
                  enlarged li curr others locs ex r f fine again dst num (added_state r2 locs2 ex2)
                    (needs_next-at li curr others locs ex loc going s.on ∙ takes) run2 refl;
              merging = m2;
              rest =
                  Perm.trans
                    (subst (Perm (all_left b.log r2 ++ all_items bs))
                      (append_assoc (all_left b.log r) items (all_items bs))
                      (Perm.append same2 (Perm.refl (all_items bs))))
                    (regrouped curr others r (items ++ all_items bs) f);
              opened = (loc, items) ∷ [];
              split = refl;
              keys = Perm.trans keys2 (Perm.append f.keys (Perm.refl (loc.key ∷ [])));
            }
        | inr keeps ↦ record {
          iters = r;
          locs_left = locs;
          exhausted = ex;
          to_come = (loc, items) ∷ bs;
          runs = λ again dst num.
              unchanged li curr others locs ex r f fine again dst num
                (needs_next-at li curr others locs ex loc going s.on ∙ keeps);
          merging = record {
            heap = f.heap;
            good = f.good;
            some_iters = f.some_iters;
            coming = (going, s);
            backed = ks;
            rising = up;
            root_first = ground (arith, f.light, keeps);
          };
          rest = regrouped curr others r (items ++ all_items bs) f;
          opened = [];
          split = refl;
          keys = unopened curr others r f;
        }
      ]
