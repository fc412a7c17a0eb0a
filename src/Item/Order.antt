-- ===== src/Item/Order.antt =====
-- The order of items by their keys, as int64 numbers.
use mathlib.Core.List.{Perm}
use native.Mathlib.Bridge.{le_prop}
use timeq.Base.{◌≤◌, List, [], ◌∷◌, All}
use timeq.Base.Perms.{All-perm}
use timeq.Base.Words.{rank}
use timeq.Item.{Item}

-- No item of the list is lower than `x`.
abbrev pub Below : Item → List Item → Type 0
Below x ys = All (λ y. rank x.key ≤ rank y.key) ys

-- The keys never go down.
abbrev pub Ordered : List Item → Type 0
Ordered [] = Unit {0}
Ordered (x ∷ xs) = Below x xs × Ordered xs

pub Below-perm : (x : Item) {ys zs : List Item} → Perm ys zs → Below x ys → Below x zs
Below-perm x p h = All-perm (λ (y : Item). rank x.key ≤ rank y.key) (λ y. le_prop) p h
