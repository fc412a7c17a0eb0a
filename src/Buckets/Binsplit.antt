-- ===== src/Buckets/Binsplit.antt =====
-- binsplit of buckets.go against its description.
use mathlib.Core.List.{append_assoc}
use timeq.Base.{
  ℕ, zero, suc, ◌+◌, ◌-◌, ◌/◌, ◌≤◌, ◌<◌, ◌≡◌, ◌≢◌, refl, sym, ◌∙◌, ap, subst, false, List, [], ◌∷◌,
  ◌++◌, some, length, take, drop, get_elem?, get_elem?-append, take-append, drop-append,
  length-append, arith, All, All-append_inv, ok, ◌==◌, eq→==, ==→eq, ltb, Bool-cases, ltb→lt,
  ltb→ge, inl, inr,
}
use timeq.Item.{Item}
use timeq.Buckets.{binsplit_loop, binsplit}

-- A list cut at an index within it.
pub record Cut (xs : List Item) (n : ℕ) : Type 0 where
  pub front : List Item
  pub at_cut : Item
  pub back : List Item
  pub shape : xs ≡ front ++ (at_cut ∷ back)
  pub sized : n ≡ length front

cut : (xs : List Item) (n : ℕ) → n < length xs → Cut xs n
cut [] n h = absurd (omega arith)
cut (x ∷ xs) zero h = record { front = []; at_cut = x; back = xs; shape = refl; sized = refl }
cut (x ∷ xs) (suc n) h =
    let c = cut xs n (omega arith) in
    record {
      front = x ∷ c.front;
      at_cut = c.at_cut;
      back = c.back;
      shape = ap (◌∷◌ x) c.shape;
      sized = omega (arith, c.sized);
    }

module _ (xs : List Item) (n : ℕ) (c : Cut xs n) where
  take-cut : take n xs ≡ c.front
  take-cut =
      ap (λ m. take m xs) c.sized
      ∙ ap (take (length c.front)) c.shape
      ∙ take-append c.front (c.at_cut ∷ c.back)

  drop-cut : drop n xs ≡ c.at_cut ∷ c.back
  drop-cut =
      ap (λ m. drop m xs) c.sized
      ∙ ap (drop (length c.front)) c.shape
      ∙ drop-append c.front (c.at_cut ∷ c.back)

  get_elem?-cut : get_elem? xs n ≡ some c.at_cut
  get_elem?-cut =
      ap (get_elem? xs) (c.sized ∙ start)
      ∙ ap (λ ys. get_elem? ys (length c.front + 0)) c.shape
      ∙ get_elem?-append c.front (c.at_cut ∷ c.back) 0
    where
      start : length c.front ≡ length c.front + 0
      start = omega arith

module _ (comp : ℕ) (fn : ℕ → ℕ) where
  abbrev pub InPart : Item → Type 0
  InPart it = fn it.key ≡ comp

  abbrev pub PastPart : Item → Type 0
  PastPart it = fn it.key ≢ comp

  binsplit_loop-append :
      (fuel : ℕ) (it : Item) (a b : List Item)
      → All InPart (it ∷ a)
      → All PastPart b
      → length (it ∷ a) + length b < fuel + 1
      → binsplit_loop fuel ((it ∷ a) ++ b) comp fn ≡ ok (length (it ∷ a))
  unfolding binsplit_loop
  binsplit_loop-append zero it a b ha hb h = absurd (omega arith)
  binsplit_loop-append (suc fuel) it a b ha hb h = elim (Bool-cases (length xs == 1)) [
    | inl one ↦ rw (full, one) (ground (arith, total, ==→eq _ _ one))
    | inr more ↦ elim (Bool-cases (ltb (length xs / 2) (length (it ∷ a)))) [
      | inl lo ↦
          let c = cut (it ∷ a) (length xs / 2) (ltb→lt _ _ lo) in
          let here =
            All-append_inv InPart c.front (c.at_cut ∷ c.back) (subst (All InPart) c.shape ha) in
          let whole : Cut xs (length xs / 2) = record {
            front = c.front;
            at_cut = c.at_cut;
            back = c.back ++ b;
            shape = ap (λ ys. ys ++ b) c.shape ∙ append_assoc c.front (c.at_cut ∷ c.back) b;
            sized = c.sized;
          } in
          let size : length (it ∷ a) ≡ length c.front + length (c.at_cut ∷ c.back) =
            ap (λ ys. length ys) c.shape ∙ length-append c.front (c.at_cut ∷ c.back) in
          let counted : length xs / 2 + length (c.at_cut ∷ c.back) ≡ length (it ∷ a) =
            omega (arith, c.sized, size) in
          let again =
            binsplit_loop-append fuel c.at_cut c.back b here.1 hb
              (omega (arith, size, c.sized, h, total, not_one more)) in
          rw (
            full,
            more,
            get_elem?-cut xs _ whole,
            eq→== _ _ here.1.0,
            drop-cut xs _ whole,
            again,
            counted,
          )
      | inr hi ↦
          let c =
            cut b (length xs / 2 - length (it ∷ a))
              (omega (arith, total, ltb→ge _ _ hi, not_one more)) in
          let there =
            All-append_inv PastPart c.front (c.at_cut ∷ c.back) (subst (All PastPart) c.shape hb) in
          let whole : Cut xs (length xs / 2) = record {
            front = (it ∷ a) ++ c.front;
            at_cut = c.at_cut;
            back = c.back;
            shape =
                ap (λ ys. (it ∷ a) ++ ys) c.shape
                ∙ sym (append_assoc (it ∷ a) c.front (c.at_cut ∷ c.back));
            sized = omega (arith, c.sized, length-append (it ∷ a) c.front, ltb→ge _ _ hi);
          } in
          let size : length b ≡ length c.front + length (c.at_cut ∷ c.back) =
            ap (λ ys. length ys) c.shape ∙ length-append c.front (c.at_cut ∷ c.back) in
          let again = binsplit_loop-append fuel it a c.front ha there.0 (omega (arith, size, h)) in
          let other : (fn c.at_cut.key == comp) ≡ false = ground (arith, there.1.0) in
          rw (full, more, get_elem?-cut xs _ whole, other, take-cut xs _ whole, again)
    ]
  ]
    where
      xs : List Item
      xs = (it ∷ a) ++ b

      total : length xs ≡ length (it ∷ a) + length b
      total = length-append (it ∷ a) b

      full : (length xs == 0) ≡ false
      full = ground arith

      not_one : (length xs == 1) ≡ false → 2 ≤ length xs
      not_one e = ground arith

  -- If the items of a bucket come first, and there is at least one, binsplit returns their number.
  pub binsplit-append :
      (it : Item) (a b : List Item)
      → All InPart (it ∷ a)
      → All PastPart b
      → binsplit ((it ∷ a) ++ b) comp fn ≡ ok (length (it ∷ a))
  unfolding binsplit
  binsplit-append it a b ha hb =
      binsplit_loop-append (length ((it ∷ a) ++ b) + 1) it a b ha hb
        (omega (arith, length-append (it ∷ a) b))
