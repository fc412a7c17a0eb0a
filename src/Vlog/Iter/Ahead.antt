-- ===== src/Vlog/Iter/Ahead.antt =====
-- The items that an iterator still yields, its current one first.
use timeq.Base.{
  ◌+◌, ◌≤◌, ◌<◌, ◌^◌, ◌≡◌, refl, sym, ◌∙◌, ap, subst, Bool, true, false, List, [], ◌∷◌, none,
  length, arith, Run, ok, panic, out_of_fuel, if◌then◌else◌, Bool-cases, inl, inr, All-map,
}
use timeq.Base.Words.{rank}
use timeq.Item.{Item, Location}
use timeq.Item.Order.{Below, Ordered}
use timeq.Vlog.{Log}
use timeq.Vlog.Batch.{HasBatch}
use timeq.Vlog.RoundTrip.{at-Before}
use timeq.Vlog.Iter.{Iter, at, next, collect}
use timeq.Vlog.Iter.Walk.{Before, past, next-past, past-Before, next-done, collect-Before}

abbrev items_of : Run (List Item × Iter) → List Item
items_of (ok (items, li)) = items
items_of panic = []
items_of out_of_fuel = []

-- What the loop over the iterator yields.
unfoldable pub later : Log → Iter → List Item
later l li = items_of (collect (li.curr_len + 1) l li)

-- The current item and those; none once the iterator is exhausted.
unfoldable pub left : Log → Iter → List Item
left l li = if li.exhausted then [] else li.item ∷ later l li

pub record Ahead (l : Log) (li : Iter) : Type 0 where
  before : Before l li (later l li)
  pub behind : HasBatch l li.prev_off (li.item ∷ later l li)
  pub few : length (li.item ∷ later l li) < 2 ^ 32
  pub behind_len : li.prev_len ≡ length (li.item ∷ later l li)
  pub ordered : Ordered (li.item ∷ later l li)

-- An iterator over a sorted batch that lies intact in the log; it has read an item, or is exhausted.
pub record IsGood (l : Log) (li : Iter) : Type 0 where
  pub fine : li.err ≡ none
  pub ahead : li.exhausted ≡ false → Ahead l li

module _ (l : Log) where
  later-Before : (li : Iter) (items : List Item) → Before l li items → later l li ≡ items
  unfolding later
  later-Before li items b =
      rw (collect-Before (li.curr_len + 1) l li items b (omega (arith, b.counted)))

  left-Before : (li : Iter) (items : List Item) → Before l li items → left l li ≡ li.item ∷ items
  unfolding left
  left-Before li items b =
      ap (λ e. if e then [] else li.item ∷ later l li) b.live
      ∙ ap (◌∷◌ li.item) (later-Before li items b)

  -- An iterator that has read the first item of the batch before which it stood.
  stepped :
      (li : Iter) (it : Item) (items : List Item)
      → li.err ≡ none
      → Before l li (it ∷ items)
      → Ordered (it ∷ items)
      → length (it ∷ items) < 2 ^ 32
      → IsGood l (past li it) × (left l (past li it) ≡ it ∷ items)
  stepped li it items e b o f =
      let before = past-Before l li it items b in
      let same = later-Before (past li it) items before in
      (
        record {
          fine = e;
          ahead = λ _. record {
            before = subst (Before l (past li it)) (sym same) before;
            behind = subst (λ xs. HasBatch l li.curr_off (it ∷ xs)) (sym same) b.batch;
            few = subst (λ xs. length (it ∷ xs) < 2 ^ 32) (sym same) f;
            behind_len = b.counted ∙ ap (λ xs. length (it ∷ xs)) (sym same);
            ordered = subst (λ xs. Ordered (it ∷ xs)) (sym same) o;
          };
        },
        left-Before (past li it) items before,
      )

  -- What Next leads to from an iterator that has yielded `it`.
  abbrev pub MovesOn : Iter → Item → Iter → Bool → Type 0
  MovesOn li it curr more =
      (next l li ≡ ok (curr, more))
      × (IsGood l curr)
      × (left l li ≡ it ∷ left l curr)
      × Below it (left l curr)
      × (curr.first_key ≡ li.first_key)

  moves_on :
      (li : Iter) (items : List Item)
      → li.err ≡ none
      → Before l li items
      → Ordered (li.item ∷ items)
      → length (li.item ∷ items) < 2 ^ 32
      → (curr : Iter) × (more : Bool) × MovesOn li li.item curr more
  unfolding left
  moves_on li [] e b o f = (
    record li { exhausted = true },
    false,
    (
      next-done l li b,
      record { fine = e; ahead = λ h. absurd (cc) },
      left-Before li [] b,
      tt,
      refl,
    ),
  )
  moves_on li (y ∷ ys) e b o f =
      let (good, same) = stepped li y ys e b o.1 (omega arith) in
      (
        past li y,
        true,
        (
          next-past l li y ys b,
          good,
          left-Before li (y ∷ ys) b ∙ ap (◌∷◌ li.item) (sym same),
          subst (Below li.item) (sym same) o.0,
          refl,
        ),
      )

  -- Next on an iterator that is not exhausted takes off its current item, the lowest that it has.
  pub next-IsGood :
      (li : Iter)
      → IsGood l li
      → li.exhausted ≡ false
      → (curr : Iter) × (more : Bool) × MovesOn li li.item curr more
  next-IsGood li g live =
      let a = g.ahead live in moves_on li (later l li) g.fine a.before a.ordered a.few

  -- The first Next of an iterator at the location of a sorted batch.
  pub next-at :
      (loc : Location) (c : Bool) (it : Item) (items : List Item)
      → HasBatch l loc.off (it ∷ items)
      → loc.len ≡ length (it ∷ items)
      → Ordered (it ∷ items)
      → length (it ∷ items) < 2 ^ 32
      → (next l (at loc c) ≡ ok (past (at loc c) it, true))
        × (IsGood l (past (at loc c) it))
        × (left l (past (at loc c) it) ≡ it ∷ items)
        × ((past (at loc c) it).first_key ≡ loc.key)
  unfolding at
  next-at loc c it items b e o f =
      let start = at-Before l loc c (it ∷ items) b e in
      let (good, same) = stepped (at loc c) it items refl start o f in
      (next-past l (at loc c) it items start, good, same, refl)

  -- An iterator that is not exhausted has its current item left; an exhausted one has none.
  pub left-live : (li : Iter) → li.exhausted ≡ false → left l li ≡ li.item ∷ later l li
  unfolding left
  left-live li e = ap (λ b. if b then [] else li.item ∷ later l li) e

  pub left-exhausted : (li : Iter) → li.exhausted ≡ true → left l li ≡ []
  unfolding left
  left-exhausted li e = ap (λ b. if b then [] else li.item ∷ later l li) e

  -- What is left of an iterator is not below its current item.
  pub left-Below :
      (li : Iter) (x : Item)
      → IsGood l li
      → (li.exhausted ≡ false → rank x.key ≤ rank li.item.key)
      → Below x (left l li)
  left-Below li x g low = elim (Bool-cases li.exhausted) [
    | inl e ↦ subst (Below x) (sym (left-exhausted li e)) tt
    | inr e ↦
        let a = g.ahead e in
        subst (Below x) (sym (left-live li e))
          (low e, All-map (later l li) (λ y h. omega (arith, h, low e)) a.ordered.0)
  ]
