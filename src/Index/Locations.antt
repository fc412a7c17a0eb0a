-- ===== src/Index/Locations.antt =====
-- The index as the list of its locations, in the order of iteration, and the counts that it keeps.
use mathlib.Core.Logic.{∥∥₁_elim}
use mathlib.Core.List.{Perm, Permᴰ, append_assoc, perm_middle}
use mathlib.Core.List.Perm
use native.Mathlib.Nat.{ℕ_set, add_left_comm}
use timeq.Base.{
  ℕ, ◌+◌, ◌≡◌, ◌≢◌, ◌<◌, refl, sym, ◌∙◌, ap, List, [], ◌∷◌, ◌++◌, none, some, length, All,
  All-append, All-append_inv, All-map, subst, subst₂, length-append, arith, Option-cases, inl, inr,
  ok,
}
use timeq.Base.Words.{u64, add64, sub64, rank}
use timeq.Item.{Location}
use timeq.Btree.{OrderedMap, IsOrderedMap, lookup, insert, remove}
use timeq.Btree.Pairs.{Ascending, insert-Ascending, remove-Ascending, lookup-Found, lookup-Placed}
use timeq.Index.Stable.{SameOrder, NotAt, moved_first, moved_last}
use timeq.Index.{Index, slot, set, delete, no_location}

abbrev pub total_len : List Location → ℕ
total_len [] = 0
total_len (loc ∷ locs) = loc.len + total_len locs

abbrev pub all_locs : List (ℕ × List Location) → List Location
all_locs [] = []
all_locs ((k, locs) ∷ es) = locs ++ all_locs es

all_locs-append : (a b : List (ℕ × List Location)) → all_locs (a ++ b) ≡ all_locs a ++ all_locs b
all_locs-append [] b = refl
all_locs-append ((k, locs) ∷ a) b =
    ap (λ r. locs ++ r) (all_locs-append a b) ∙ sym (append_assoc locs (all_locs a) (all_locs b))

Permᴰ-total : {a b : List Location} → Permᴰ a b → total_len a ≡ total_len b
Permᴰ-total Permᴰ.nil = refl
Permᴰ-total (Permᴰ.cons e p) = λ i. (e i).len + Permᴰ-total p i
Permᴰ-total (Permᴰ.swap {l = l} p q) =
    (λ i. (p i).len + ((q i).len + total_len l)) ∙ add_left_comm _ _ _
Permᴰ-total (Permᴰ.trans p q) = Permᴰ-total p ∙ Permᴰ-total q

pub total_len-perm : {a b : List Location} → Perm a b → total_len a ≡ total_len b
total_len-perm p = ∥∥₁_elim p (ℕ_set _ _) Permᴰ-total

-- The locations under a key: at least one, and each with that key.
abbrev pub Grouped : ℕ × List Location → Type 0
Grouped (k, locs) = (0 < length locs) × All (λ loc. rank loc.key ≡ rank k) locs

pub NotAt-entries :
    (k : ℕ) (es : List (ℕ × List Location))
    → All (λ (e : ℕ × List Location). rank e.0 ≢ rank k) es
    → All Grouped es
    → NotAt k (all_locs es)
NotAt-entries k [] h g = tt
NotAt-entries k ((j, locs) ∷ es) h g =
    All-append (λ (l : Location). rank l.key ≢ rank k) locs (all_locs es)
      (All-map locs (λ l p e. h.0 (sym p ∙ e)) g.0.1) (NotAt-entries k es h.1 g.1)

-- A key stands in one pair only.
only_there :
    (k j : ℕ) (v : List Location) (front back : List (ℕ × List Location))
    → rank k ≡ rank j
    → Ascending (front ++ ((j, v) ∷ back))
    → All (λ (e : ℕ × List Location). rank e.0 ≢ rank k) front
      × All (λ (e : ℕ × List Location). rank e.0 ≢ rank k) back
only_there k j v [] back same h = (tt, All-map back (λ e lt q. omega (arith, same, lt, q)) h.0)
only_there k j v ((i, w) ∷ front) back same h =
    let apart =
      All-append_inv (λ (e : ℕ × List Location). rank i < rank e.0) front ((j, v) ∷ back) h.0 in
    let rest = only_there k j v front back same h.1 in
    (((λ q. omega (arith, apart.1.0, same, q)), rest.0), rest.1)

-- The pairs after Set.
abbrev appended : List (ℕ × List Location) → Location → List (ℕ × List Location)
appended es loc = insert loc.key (slot (lookup loc.key es) ++ (loc ∷ [])) es

module _ (es : List (ℕ × List Location)) (loc : Location) (up : Ascending es)
    (g : All Grouped es) where
  appended_found :
      (locs : List Location)
      → lookup loc.key es ≡ some locs
      → All Grouped (appended es loc)
        × Perm (all_locs (appended es loc)) (loc ∷ all_locs es)
        × SameOrder (all_locs (appended es loc)) (all_locs es ++ (loc ∷ []))
  appended_found locs e =
      let f = lookup-Found loc.key locs es up e in
      let parts =
        All-append_inv Grouped f.front ((f.key, locs) ∷ f.back) (subst (All Grouped) f.split g) in
      let kept : All (λ l. rank l.key ≡ rank loc.key) locs =
        All-map locs (λ l p. p ∙ sym f.same) parts.1.0.1 in
      let group : Grouped (loc.key, locs ++ (loc ∷ [])) = (
        omega (arith, length-append locs (loc ∷ [])),
        All-append (λ l. rank l.key ≡ rank loc.key) locs (loc ∷ []) kept (refl, tt),
      ) in
      let joined =
        All-append Grouped f.front ((loc.key, locs ++ (loc ∷ [])) ∷ f.back) parts.0
          (group, parts.1.1) in
      let written : (appended es loc) ≡ f.front ++ ((loc.key, locs ++ (loc ∷ [])) ∷ f.back) =
        rw e (f.replaced (locs ++ (loc ∷ []))) in
      let after : all_locs (appended es loc)
          ≡ (all_locs f.front ++ locs) ++ (loc ∷ all_locs f.back) =
        ap all_locs written ∙ all_locs-append f.front _ ∙ simp append_assoc in
      let before : all_locs es ≡ (all_locs f.front ++ locs) ++ all_locs f.back =
        ap all_locs f.split ∙ all_locs-append f.front _ ∙ simp append_assoc in
      (
        subst (All Grouped) (sym written) joined,
        subst₂ Perm (sym after) (ap (◌∷◌ loc) (sym before))
            (perm_middle (all_locs f.front ++ locs) (all_locs f.back)),
        subst₂ SameOrder (sym after) (ap (λ ls. ls ++ (loc ∷ [])) (sym before)) (
            moved_last loc (all_locs f.front ++ locs) (all_locs f.back) (
              NotAt-entries loc.key f.back
                (only_there loc.key f.key locs f.front f.back f.same (subst Ascending f.split up)).1
                parts.1.1)),
      )

  appended_placed :
      lookup loc.key es ≡ none
      → All Grouped (appended es loc)
        × Perm (all_locs (appended es loc)) (loc ∷ all_locs es)
        × SameOrder (all_locs (appended es loc)) (all_locs es ++ (loc ∷ []))
  appended_placed e =
      let p = lookup-Placed loc.key es e in
      let parts = All-append_inv Grouped p.front p.back (subst (All Grouped) p.split g) in
      let joined =
        All-append Grouped p.front ((loc.key, loc ∷ []) ∷ p.back) parts.0
          ((omega arith, (refl, tt)), parts.1) in
      let written : (appended es loc) ≡ p.front ++ ((loc.key, loc ∷ []) ∷ p.back) =
        rw e (p.inserted (loc ∷ [])) in
      let after : all_locs (appended es loc) ≡ all_locs p.front ++ (loc ∷ all_locs p.back) =
        ap all_locs written ∙ all_locs-append p.front _ in
      let before : all_locs es ≡ all_locs p.front ++ all_locs p.back =
        ap all_locs p.split ∙ all_locs-append p.front _ in
      (
        subst (All Grouped) (sym written) joined,
        subst₂ Perm (sym after) (ap (◌∷◌ loc) (sym before))
            (perm_middle (all_locs p.front) (all_locs p.back)),
        subst₂ SameOrder (sym after) (ap (λ ls. ls ++ (loc ∷ [])) (sym before)) (
            moved_last loc (all_locs p.front) (all_locs p.back) (
              NotAt-entries loc.key p.back
                (only_there loc.key loc.key (loc ∷ []) p.front p.back refl (
                  subst Ascending (p.inserted (loc ∷ []))
                    (insert-Ascending loc.key (loc ∷ []) es up))).1
                parts.1)),
      )

  pub appended_lem :
      All Grouped (appended es loc)
      × Perm (all_locs (appended es loc)) (loc ∷ all_locs es)
      × SameOrder (all_locs (appended es loc)) (all_locs es ++ (loc ∷ []))
  appended_lem = elim (Option-cases (lookup loc.key es)) [
    | inl e ↦ appended_placed e
    | inr (locs, e) ↦ appended_found locs e
  ]

-- The first location of a pair is the first of its key.
oldest :
    (loc : Location) (more : List Location) (j : ℕ) (front back : List (ℕ × List Location))
    → Ascending (front ++ ((j, loc ∷ more) ∷ back))
    → All Grouped front
    → rank loc.key ≡ rank j
    → (ys : List Location) → SameOrder (loc ∷ (all_locs front ++ ys)) (all_locs front ++ (loc ∷ ys))
oldest loc more j front back up g e ys =
    moved_first loc (all_locs front) ys
      (NotAt-entries loc.key front (only_there loc.key j (loc ∷ more) front back e up).0 g)

module _ (M : OrderedMap (List Location)) where
  abbrev pub locations : Index M → List Location
  locations i = all_locs (M.entries i.m)

  -- What every operation of the index keeps.
  pub record IsValid (i : Index M) : Type 0 where
    pub ascending : Ascending (M.entries i.m)
    pub grouped : All Grouped (M.entries i.m)
    pub counted : i.len ≡ u64 (total_len (locations i))

  module _ (laws : IsOrderedMap M) (i : Index M) (v : IsValid i) where
    -- Set on a valid index keeps it valid, its length the sum of the batches' lengths, and adds
    -- exactly its location, behind the locations of the same key.
    pub set_lem :
        (loc : Location)
        → IsValid (set M i loc)
          × Perm (locations (set M i loc)) (loc ∷ locations i)
          × SameOrder (locations (set M i loc)) (locations i ++ (loc ∷ []))
    unfolding set
    set_lem loc =
        let es = M.entries i.m in
        let (g, same, order) = appended_lem es loc v.ascending v.grouped in
        let written : M.entries (set M i loc).m ≡ appended es loc =
          laws.entries-set i.m loc.key _
          ∙ ap (λ o. insert loc.key (slot o ++ (loc ∷ [])) es) (laws.get-lookup i.m loc.key) in
        let perm = subst (λ x. Perm (all_locs x) (loc ∷ all_locs es)) (sym written) same in
        (
          record {
            ascending = subst Ascending (sym written) (insert-Ascending loc.key _ es v.ascending);
            grouped = subst (All Grouped) (sym written) g;
            counted = omega (arith, v.counted, total_len-perm perm);
          },
          perm,
          subst (λ x. SameOrder (all_locs x) (all_locs es ++ (loc ∷ []))) (sym written) order,
        )

    -- Delete of a key that a valid index has does not panic. It takes away the oldest location of
    -- the key, and no other, returns it, keeps the order of the locations of every key, and keeps
    -- the index valid.
    pub delete_lem :
        (key : ℕ) (loc : Location) (rest : List Location)
        → M.get i.m key ≡ some (loc ∷ rest)
        → (i' : Index M) × (delete M i key ≡ ok (i', loc))
          × IsValid i'
          × Perm (loc ∷ locations i') (locations i)
          × SameOrder (loc ∷ locations i') (locations i)
    unfolding delete
    delete_lem key loc [] e =
        let es = M.entries i.m in
        let f = lookup-Found key (loc ∷ []) es v.ascending (sym (laws.get-lookup i.m key) ∙ e) in
        let parts =
          All-append_inv Grouped f.front ((f.key, loc ∷ []) ∷ f.back)
            (subst (All Grouped) f.split v.grouped) in
        let i' : Index M = record i {
          m = M.delete i.m key;
          len = sub64 i.len loc.len;
          nentries = add64 i.nentries loc.len;
        } in
        let written : M.entries i'.m ≡ remove key es = laws.entries-delete i.m key in
        let after : locations i' ≡ all_locs f.front ++ all_locs f.back =
          ap all_locs (written ∙ f.removed) ∙ all_locs-append f.front f.back in
        let before : locations i ≡ all_locs f.front ++ (loc ∷ all_locs f.back) =
          ap all_locs f.split ∙ all_locs-append f.front ((f.key, loc ∷ []) ∷ f.back) in
        let perm : Perm (loc ∷ locations i') (locations i) =
          subst₂ Perm (ap (◌∷◌ loc) (sym after)) (sym before)
            (Perm.symm (perm_middle (all_locs f.front) (all_locs f.back))) in
        (
          i',
          rw (e, delete),
          record {
            ascending = subst Ascending (sym written) (remove-Ascending key es v.ascending);
            grouped =
                subst (All Grouped) (sym (written ∙ f.removed))
                  (All-append Grouped f.front f.back parts.0 parts.1.1);
            counted = omega (arith, v.counted, total_len-perm perm);
          },
          perm,
          subst₂ SameOrder (ap (◌∷◌ loc) (sym after)) (sym before) (
              oldest loc [] f.key f.front f.back (subst Ascending f.split v.ascending) parts.0
                parts.1.0.1.0 (all_locs f.back)),
        )
    delete_lem key loc (next ∷ more) e =
        let es = M.entries i.m in
        let f =
          lookup-Found key (loc ∷ next ∷ more) es v.ascending (sym (laws.get-lookup i.m key) ∙ e) in
        let parts =
          All-append_inv Grouped f.front ((f.key, loc ∷ next ∷ more) ∷ f.back)
            (subst (All Grouped) f.split v.grouped) in
        let left : List Location = next ∷ more in
        let i' : Index M = record i {
          m = M.set i.m key left;
          len = sub64 i.len loc.len;
          nentries = add64 i.nentries loc.len;
        } in
        let kept : All (λ l. rank l.key ≡ rank key) left =
          All-map left (λ l p. p ∙ sym f.same) parts.1.0.1.1 in
        let written : M.entries i'.m ≡ insert key left es = laws.entries-set i.m key left in
        let joined =
          All-append Grouped f.front ((key, left) ∷ f.back) parts.0
            ((omega arith, kept), parts.1.1) in
        let after : locations i' ≡ all_locs f.front ++ (left ++ all_locs f.back) =
          ap all_locs (written ∙ f.replaced left)
          ∙ all_locs-append f.front ((key, left) ∷ f.back) in
        let before : locations i ≡ all_locs f.front ++ (loc ∷ (left ++ all_locs f.back)) =
          ap all_locs f.split ∙ all_locs-append f.front ((f.key, loc ∷ left) ∷ f.back) in
        let perm : Perm (loc ∷ locations i') (locations i) =
          subst₂ Perm (ap (◌∷◌ loc) (sym after)) (sym before)
            (Perm.symm (perm_middle (all_locs f.front) (left ++ all_locs f.back))) in
        (
          i',
          rw (e, delete),
          record {
            ascending = subst Ascending (sym written) (insert-Ascending key left es v.ascending);
            grouped = subst (All Grouped) (sym (written ∙ f.replaced left)) joined;
            counted = omega (arith, v.counted, total_len-perm perm);
          },
          perm,
          subst₂ SameOrder (ap (◌∷◌ loc) (sym after)) (sym before) (
              oldest loc left f.key f.front f.back (subst Ascending f.split v.ascending) parts.0
                parts.1.0.1.0 (left ++ all_locs f.back)),
        )

    -- Delete of a key that is not there changes nothing.
    pub delete-absent : (key : ℕ) → M.get i.m key ≡ none → delete M i key ≡ ok (i, no_location)
    unfolding delete
    delete-absent key e = rw (e, delete)
