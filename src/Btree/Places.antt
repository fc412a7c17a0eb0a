-- ===== src/Btree/Places.antt =====
-- The place of a pair in an ordered map: GetAt of btree.Map answers with the pair at a place, and a
-- write at its key changes that place only.
use timeq.Base.{
  ℕ, zero, suc, ◌≡◌, ◌<◌, ◌≤◌, ◌≢◌, refl, sym, subst, ap, List, [], ◌∷◌, none, some, length,
  get_elem?, set, All, arith,
}
use timeq.Base.Words.{rank}
use timeq.Btree.{insert}
use timeq.Btree.Pairs.{Ascending}

pub some_injective {ℓ} : {A : Type ℓ} {a b : A} → some a ≡ some b → a ≡ b
some_injective {a = a} e = ap (λ o. elim o [ none ↦ a | some c ↦ c ]) e

pub none_ne_some {ℓ} : {A : Type ℓ} {a : A} → none ≢ some a
none_ne_some p = absurd (cc)

pub All-get_elem? {ℓ κ} :
    {A : Type ℓ} (P : A → Type κ) (xs : List A) (i : ℕ) (a : A)
    → All P xs
    → get_elem? xs i ≡ some a
    → P a
All-get_elem? P [] i a h e = absurd (cc)
All-get_elem? P (x ∷ xs) zero a h e = subst P (some_injective e) h.0
All-get_elem? P (x ∷ xs) (suc i) a h e = All-get_elem? P xs i a h.1 e

module _ {V : Type 0} where
  pub insert-set :
      (es : List (ℕ × V)) (i k : ℕ) (v w : V)
      → Ascending es
      → get_elem? es i ≡ some (k, v)
      → insert k w es ≡ set es i (k, w)
  unfolding insert
  insert-set [] i k v w h e = absurd (cc)
  insert-set ((j, u) ∷ es) zero k v w h e =
      let same : j ≡ k = ap (λ p. p.0) (some_injective e) in
      let here : rank k ≡ rank j = ap rank (sym same) in ground (arith, here)
  insert-set ((j, u) ∷ es) (suc i) k v w h e =
      let above : rank j < rank k =
        All-get_elem? (λ (p : ℕ × V). rank j < rank p.0) es i (k, v) h.0 e in
      ground (arith, above, insert-set es i k v w h.1 e)

-- A write at a place is read back there, and nowhere else.
module _ {ℓ} {A : Type ℓ} where
  pub get_elem?-set :
      (xs : List A) (i : ℕ) (v : A) → i < length xs → get_elem? (set xs i v) i ≡ some v
  get_elem?-set [] i v h = absurd (omega arith)
  get_elem?-set (x ∷ xs) zero v h = refl
  get_elem?-set (x ∷ xs) (suc i) v h = get_elem?-set xs i v (omega arith)

  pub get_elem?-set_other :
      (xs : List A) (i j : ℕ) (v : A) → i ≢ j → get_elem? (set xs i v) j ≡ get_elem? xs j
  get_elem?-set_other [] i j v h = refl
  get_elem?-set_other (x ∷ xs) zero zero v h = absurd (h refl)
  get_elem?-set_other (x ∷ xs) zero (suc j) v h = refl
  get_elem?-set_other (x ∷ xs) (suc i) zero v h = refl
  get_elem?-set_other (x ∷ xs) (suc i) (suc j) v h =
      get_elem?-set_other xs i j v (λ e. h (ap suc e))

  pub get_elem?-some : (xs : List A) (i : ℕ) → i < length xs → (a : A) × (get_elem? xs i ≡ some a)
  get_elem?-some [] i h = absurd (omega arith)
  get_elem?-some (x ∷ xs) zero h = (x, refl)
  get_elem?-some (x ∷ xs) (suc i) h = get_elem?-some xs i (omega arith)

  pub get_elem?-none : (xs : List A) (i : ℕ) → length xs ≤ i → get_elem? xs i ≡ none
  get_elem?-none [] i h = refl
  get_elem?-none (x ∷ xs) zero h = absurd (omega arith)
  get_elem?-none (x ∷ xs) (suc i) h = get_elem?-none xs i (omega arith)
