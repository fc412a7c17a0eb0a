-- ===== src/Btree/Pairs.antt =====
-- The association lists that describe an ordered map: their order, and what a write changes.
use timeq.Base.{
  ℕ, ◌≡◌, ◌≢◌, ◌<◌, refl, sym, ap, false, List, [], ◌∷◌, ◌++◌, none, some, ltb, ◌==◌, All, arith,
  Bool-cases, inl, inr, ==→eq, ltb→lt,
}
use timeq.Base.Words.{rank}
use timeq.Btree.{lookup, insert, remove}

-- The ranks of the keys go up.
abbrev pub Ascending : {V : Type 0} → List (ℕ × V) → Type 0
Ascending [] = Unit {0}
Ascending ((k, v) ∷ es) = All (λ e. rank k < rank e.0) es × Ascending es

module _ {V : Type 0} where
  pub lookup-none :
      (k : ℕ) (es : List (ℕ × V)) → All (λ e. rank k < rank e.0) es → lookup k es ≡ none
  unfolding lookup
  lookup-none k [] h = refl
  lookup-none k ((j, w) ∷ es) h = ground (arith, h.0, lookup-none k es h.1)

  -- A bound below all keys of the list and the new key is below all keys of the result.
  pub All-insert :
      (P : ℕ × V → Type 0) (k : ℕ) (v : V) (es : List (ℕ × V))
      → P (k, v)
      → All P es
      → All P (insert k v es)
  unfolding insert
  All-insert P k v [] p h = (p, h)
  All-insert P k v ((j, w) ∷ es) p h = elim (Bool-cases (rank k == rank j)) [
    | inl same ↦ rw same (p, h.1)
    | inr other ↦ elim (Bool-cases (ltb (rank k) (rank j))) [
      | inl lower ↦ rw (other, lower) (p, h)
      | inr higher ↦ rw (other, higher) (h.0, All-insert P k v es p h.1)
    ]
  ]

  All-remove : (P : ℕ × V → Type 0) (k : ℕ) (es : List (ℕ × V)) → All P es → All P (remove k es)
  unfolding remove
  All-remove P k [] h = h
  All-remove P k ((j, w) ∷ es) h = elim (Bool-cases (rank k == rank j)) [
    | inl same ↦ rw same h.1
    | inr other ↦ rw other (h.0, All-remove P k es h.1)
  ]

  All-weaken :
      (a b : ℕ) (es : List (ℕ × V))
      → rank a ≡ rank b
      → All (λ e. rank a < rank e.0) es
      → All (λ e. rank b < rank e.0) es
  All-weaken a b [] h p = p
  All-weaken a b (e ∷ es) h p = (omega (arith, h, p.0), All-weaken a b es h p.1)

  All-below :
      (a b : ℕ) (es : List (ℕ × V))
      → rank a < rank b
      → All (λ e. rank b < rank e.0) es
      → All (λ e. rank a < rank e.0) es
  All-below a b [] h p = p
  All-below a b (e ∷ es) h p = (omega (arith, h, p.0), All-below a b es h p.1)

  pub insert-Ascending :
      (k : ℕ) (v : V) (es : List (ℕ × V)) → Ascending es → Ascending (insert k v es)
  unfolding insert
  insert-Ascending k v [] h = (tt, tt)
  insert-Ascending k v ((j, w) ∷ es) h = elim (Bool-cases (rank k == rank j)) [
    | inl same ↦ rw same (All-weaken j k es (sym (==→eq _ _ same)) h.0, h.1)
    | inr other ↦ elim (Bool-cases (ltb (rank k) (rank j))) [
      | inl lower ↦
          rw (other, lower) ((ltb→lt _ _ lower, All-below k j es (ltb→lt _ _ lower) h.0), h)
      | inr higher ↦
          let above : rank j < rank k = ground arith in
          rw (other, higher)
            (All-insert (λ e. rank j < rank e.0) k v es above h.0, insert-Ascending k v es h.1)
    ]
  ]

  pub remove-Ascending : (k : ℕ) (es : List (ℕ × V)) → Ascending es → Ascending (remove k es)
  unfolding remove
  remove-Ascending k [] h = h
  remove-Ascending k ((j, w) ∷ es) h = elim (Bool-cases (rank k == rank j)) [
    | inl same ↦ rw same h.1
    | inr other ↦ rw other (All-remove (λ e. rank j < rank e.0) k es h.0, remove-Ascending k es h.1)
  ]

  -- Where a pair stands, and what a write at its key does to the list.
  pub record Found (k : ℕ) (v : V) (es : List (ℕ × V)) : Type 0 where
    pub front : List (ℕ × V)
    pub key : ℕ
    pub back : List (ℕ × V)
    pub split : es ≡ front ++ ((key, v) ∷ back)
    pub same : rank k ≡ rank key
    pub replaced : (v' : V) → insert k v' es ≡ front ++ ((k, v') ∷ back)
    pub removed : remove k es ≡ front ++ back

  pub lookup-Found :
      (k : ℕ) (v : V) (es : List (ℕ × V)) → Ascending es → lookup k es ≡ some v → Found k v es
  unfolding lookup insert remove
  lookup-Found k v [] h e = absurd (cc)
  lookup-Found k v ((j, w) ∷ es) h e = elim (Bool-cases (rank k == rank j)) [
    | inl same ↦
        let found : some w ≡ some v = rw same at e in
        let value : w ≡ v = cc in
        record {
          front = [];
          key = j;
          back = es;
          split = ap (λ x. (j, x) ∷ es) value;
          same = ==→eq _ _ same;
          replaced = λ v'. rw same;
          removed = rw same;
        }
    | inr other ↦
        let later : lookup k es ≡ some v = rw other at e in
        let f = lookup-Found k v es h.1 later in
        let higher : ltb (rank k) (rank j) ≡ false = elim (Bool-cases (ltb (rank k) (rank j))) [
          | inl lower ↦
              absurd (cc (later, lookup-none k es (All-below k j es (ltb→lt _ _ lower) h.0)))
          | inr higher ↦ higher
        ] in
        record {
          front = (j, w) ∷ f.front;
          key = f.key;
          back = f.back;
          split = ap (◌∷◌ (j, w)) f.split;
          same = f.same;
          replaced = λ v'. rw (other, higher) (ap (◌∷◌ (j, w)) (f.replaced v'));
          removed = rw other (ap (◌∷◌ (j, w)) f.removed);
        }
  ]

  -- Where a new key goes.
  pub record Placed (k : ℕ) (es : List (ℕ × V)) : Type 0 where
    pub front : List (ℕ × V)
    pub back : List (ℕ × V)
    pub split : es ≡ front ++ back
    pub inserted : (v : V) → insert k v es ≡ front ++ ((k, v) ∷ back)

  pub lookup-Placed : (k : ℕ) (es : List (ℕ × V)) → lookup k es ≡ none → Placed k es
  unfolding lookup insert
  lookup-Placed k [] e = record { front = []; back = []; split = refl; inserted = λ v. refl }
  lookup-Placed k ((j, w) ∷ es) e = elim (Bool-cases (rank k == rank j)) [
    | inl same ↦ let found : some w ≡ none = rw same at e in absurd (cc)
    | inr other ↦ elim (Bool-cases (ltb (rank k) (rank j))) [
      | inl lower ↦ record {
        front = [];
        back = (j, w) ∷ es;
        split = refl;
        inserted = λ v. rw (other, lower);
      }
      | inr higher ↦
          let p = lookup-Placed k es (rw other at e) in
          record {
            front = (j, w) ∷ p.front;
            back = p.back;
            split = ap (◌∷◌ (j, w)) p.split;
            inserted = λ v. rw (other, higher) (ap (◌∷◌ (j, w)) (p.inserted v));
          }
    ]
  ]

  -- What a write changes of what is found.
  pub lookup-inserted : (k : ℕ) (v : V) (es : List (ℕ × V)) → lookup k (insert k v es) ≡ some v
  unfolding lookup insert
  lookup-inserted k v [] = ground arith
  lookup-inserted k v ((j, w) ∷ es) = ground (arith, lookup-inserted k v es)

  pub lookup-insert_other :
      (i k : ℕ) (v : V) (es : List (ℕ × V))
      → rank i ≢ rank k
      → lookup i (insert k v es) ≡ lookup i es
  unfolding lookup insert
  lookup-insert_other i k v [] h = ground (arith, h)
  lookup-insert_other i k v ((j, w) ∷ es) h = ground (arith, h, lookup-insert_other i k v es h)

  pub lookup-removed : (k : ℕ) (es : List (ℕ × V)) → Ascending es → lookup k (remove k es) ≡ none
  unfolding lookup remove
  lookup-removed k [] h = refl
  lookup-removed k ((j, w) ∷ es) h = elim (Bool-cases (rank k == rank j)) [
    | inl same ↦ rw same (lookup-none k es (All-weaken j k es (sym (==→eq _ _ same)) h.0))
    | inr other ↦ rw (other, other) (lookup-removed k es h.1)
  ]

  pub lookup-remove_other :
      (i k : ℕ) (es : List (ℕ × V)) → rank i ≢ rank k → lookup i (remove k es) ≡ lookup i es
  unfolding lookup remove
  lookup-remove_other i k [] h = refl
  lookup-remove_other i k ((j, w) ∷ es) h = ground (arith, h, lookup-remove_other i k es h)

  -- Every pair of the list is found.
  lookup-later :
      (j : ℕ) (w : V) (es fs : List (ℕ × V))
      → All (λ (e : ℕ × V). rank j < rank e.0) fs
      → All (λ (e : ℕ × V). lookup e.0 es ≡ some e.1) fs
      → All (λ (e : ℕ × V). lookup e.0 ((j, w) ∷ es) ≡ some e.1) fs
  unfolding lookup
  lookup-later j w es [] h p = tt
  lookup-later j w es ((k, v) ∷ fs) h p = (ground (arith, h.0, p.0), lookup-later j w es fs h.1 p.1)

  pub lookup-each :
      (es : List (ℕ × V)) → Ascending es → All (λ (e : ℕ × V). lookup e.0 es ≡ some e.1) es
  unfolding lookup
  lookup-each [] h = tt
  lookup-each ((j, w) ∷ es) h = (ground arith, lookup-later j w es es h.0 (lookup-each es h.1))
