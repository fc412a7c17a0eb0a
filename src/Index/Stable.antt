-- ===== src/Index/Stable.antt =====
-- Lists of locations that agree but for how locations of different keys are mixed: the order of
-- the locations of one key is the order in which Set of index/index.go got them.
use mathlib.Core.List.{
  Perm, append_assoc, append-nil, perm_middle, head-eq_of_cons-eq, tail-eq_of_cons-eq,
}
use mathlib.Core.List.Perm
use timeq.Base.{
  ℕ, ◌≡◌, ◌≢◌, refl, sym, ◌∙◌, ap, subst, true, false, List, [], ◌∷◌, ◌++◌, ◌==◌, All, All-map,
  arith, if◌then◌else◌, Bool-cases, ◌⊎◌, inl, inr, ==→eq,
}
use timeq.Base.Words.{rank}
use timeq.Item.{Location}

-- The locations of the key.
abbrev pub at_key : ℕ → List Location → List Location
at_key k [] = []
at_key k (loc ∷ locs) = if rank loc.key == rank k then loc ∷ at_key k locs else at_key k locs

abbrev pub SameOrder : List Location → List Location → Type 0
SameOrder xs ys = (k : ℕ) → at_key k xs ≡ at_key k ys

abbrev pub NotAt : ℕ → List Location → Type 0
NotAt k xs = All (λ (loc : Location). rank loc.key ≢ rank k) xs

pub at_key-append :
    (k : ℕ) (xs ys : List Location) → at_key k (xs ++ ys) ≡ at_key k xs ++ at_key k ys
at_key-append k [] ys = refl
at_key-append k (x ∷ xs) ys = elim (Bool-cases (rank x.key == rank k)) [
  | inl same ↦ rw same (ap (◌∷◌ x) (at_key-append k xs ys))
  | inr other ↦ rw other (at_key-append k xs ys)
]

pub at_key-none : (k : ℕ) (xs : List Location) → NotAt k xs → at_key k xs ≡ []
at_key-none k [] h = refl
at_key-none k (x ∷ xs) h = elim (Bool-cases (rank x.key == rank k)) [
  | inl same ↦ absurd (h.0 (==→eq _ _ same))
  | inr other ↦ rw other (at_key-none k xs h.1)
]

pub at_key-first :
    (k : ℕ) (x : Location) (xs : List Location)
    → rank x.key ≡ rank k
    → at_key k (x ∷ xs) ≡ x ∷ at_key k xs
at_key-first k x xs e = let same : (rank x.key == rank k) ≡ true = ground (arith, e) in rw same

pub at_key-later :
    (k : ℕ) (x : Location) (xs : List Location)
    → rank x.key ≢ rank k
    → at_key k (x ∷ xs) ≡ at_key k xs
at_key-later k x xs e = elim (Bool-cases (rank x.key == rank k)) [
  | inl same ↦ absurd (e (==→eq _ _ same))
  | inr other ↦ rw other
]

pub SameOrder-cons :
    (x : Location) (xs ys : List Location) → SameOrder xs ys → SameOrder (x ∷ xs) (x ∷ ys)
SameOrder-cons x xs ys h k = ap (λ r. if rank x.key == rank k then x ∷ r else r) (h k)

pub SameOrder-cons_inv :
    (x : Location) (xs ys : List Location) → SameOrder (x ∷ xs) (x ∷ ys) → SameOrder xs ys
SameOrder-cons_inv x xs ys h k = elim (Bool-cases (rank x.key == rank k)) [
  | inl same ↦ let e : x ∷ at_key k xs ≡ x ∷ at_key k ys = rw same at (h k) in tail-eq_of_cons-eq e
  | inr other ↦ rw other at (h k)
]

pub SameOrder-append :
    (xs ys zs : List Location) → SameOrder xs ys → SameOrder (xs ++ zs) (ys ++ zs)
SameOrder-append xs ys zs h k =
    at_key-append k xs zs ∙ ap (λ r. r ++ at_key k zs) (h k) ∙ sym (at_key-append k ys zs)

-- A location may pass those of other keys.
pub moved_first :
    (x : Location) (xs ys : List Location)
    → NotAt x.key xs
    → SameOrder (x ∷ (xs ++ ys)) (xs ++ (x ∷ ys))
moved_first x [] ys h k = refl
moved_first x (y ∷ xs) ys h k =
    swapped ∙ ap (λ r. if rank y.key == rank k then y ∷ r else r) (moved_first x xs ys h.1 k)
  where
    swapped : at_key k (x ∷ y ∷ (xs ++ ys)) ≡ at_key k (y ∷ x ∷ (xs ++ ys))
    swapped = elim (Bool-cases (rank x.key == rank k)) [
      | inl same ↦
          let apart : rank y.key ≢ rank k = λ e. h.0 (e ∙ sym (==→eq _ _ same)) in
          at_key-first k x (y ∷ (xs ++ ys)) (==→eq _ _ same)
          ∙ ap (◌∷◌ x) (at_key-later k y (xs ++ ys) apart)
          ∙ sym (at_key-first k x (xs ++ ys) (==→eq _ _ same))
          ∙ sym (at_key-later k y (x ∷ (xs ++ ys)) apart)
      | inr other ↦ rw other
    ]

pub moved_last :
    (x : Location) (xs ys : List Location)
    → NotAt x.key ys
    → SameOrder (xs ++ (x ∷ ys)) ((xs ++ ys) ++ (x ∷ []))
moved_last x xs ys h k =
    at_key-append k xs (x ∷ ys)
    ∙ ap (λ r. at_key k xs ++ r)
        (ap (λ r. at_key k (x ∷ r)) (sym (append-nil ys)) ∙ moved_first x ys [] h k)
    ∙ sym (at_key-append k xs (ys ++ (x ∷ [])))
    ∙ ap (at_key k) (sym (append_assoc xs ys (x ∷ [])))

-- Where the first location of a key stands.
pub record FirstAt (k : ℕ) (xs : List Location) : Type 0 where
  pub front : List Location
  pub loc : Location
  pub back : List Location
  pub split : xs ≡ front ++ (loc ∷ back)
  pub same : rank loc.key ≡ rank k
  pub apart : NotAt k front

pub first_at : (k : ℕ) (xs : List Location) → NotAt k xs ⊎ FirstAt k xs
first_at k [] = inl tt
first_at k (x ∷ xs) = found (first_at k xs) (Bool-cases (rank x.key == rank k))
  where
    found :
        NotAt k xs ⊎ FirstAt k xs
        → ((rank x.key == rank k) ≡ true) ⊎ ((rank x.key == rank k) ≡ false)
        → NotAt k (x ∷ xs) ⊎ FirstAt k (x ∷ xs)
    found r (inl same) =
        inr (record {
          front = [];
          loc = x;
          back = xs;
          split = refl;
          same = ==→eq _ _ same;
          apart = tt;
        })
    found (inl none_there) (inr other) = inl ((λ e. ground (arith, other, e)), none_there)
    found (inr f) (inr other) = inr (record {
      front = x ∷ f.front;
      loc = f.loc;
      back = f.back;
      split = ap (◌∷◌ x) f.split;
      same = f.same;
      apart = ((λ e. ground (arith, other, e)), f.apart);
    })

pub at_key-FirstAt :
    (k : ℕ) (xs : List Location) (f : FirstAt k xs) → at_key k xs ≡ f.loc ∷ at_key k f.back
at_key-FirstAt k xs f =
    ap (at_key k) f.split
    ∙ at_key-append k f.front (f.loc ∷ f.back)
    ∙ ap (λ r. r ++ at_key k (f.loc ∷ f.back)) (at_key-none k f.front f.apart)
    ∙ at_key-first k f.loc f.back f.same

pub FirstAt-SameOrder :
    (k : ℕ) (xs : List Location) (f : FirstAt k xs) → SameOrder (f.loc ∷ (f.front ++ f.back)) xs
FirstAt-SameOrder k xs f =
    subst (SameOrder (f.loc ∷ (f.front ++ f.back))) (sym f.split)
      (moved_first f.loc f.front f.back (All-map f.front (λ y n e. n (e ∙ f.same)) f.apart))

-- Taking a location off the front of one list takes the first of its key off the other.
pub SameOrder-found :
    (x : Location) (xs ys : List Location) (f : FirstAt x.key ys)
    → SameOrder (x ∷ xs) ys
    → (f.loc ≡ x) × SameOrder xs (f.front ++ f.back)
SameOrder-found x xs ys f h =
    let here : f.loc ∷ at_key x.key f.back ≡ x ∷ at_key x.key xs =
      sym (at_key-FirstAt x.key ys f) ∙ sym (h x.key) ∙ at_key-first x.key x xs refl in
    let same : f.loc ≡ x = head-eq_of_cons-eq here in
    (
      same,
      SameOrder-cons_inv x xs (f.front ++ f.back) (λ k.
          h k
          ∙ sym (FirstAt-SameOrder x.key ys f k)
          ∙ ap (λ y. at_key k (y ∷ (f.front ++ f.back))) same),
    )

abbrev pub FirstAt-same :
    (j k : ℕ) (xs : List Location) → rank j ≡ rank k → FirstAt k xs → FirstAt j xs
FirstAt-same j k xs e f = record {
  front = f.front;
  loc = f.loc;
  back = f.back;
  split = f.split;
  same = f.same ∙ sym e;
  apart = All-map f.front (λ l p q. p (q ∙ e)) f.apart;
}

-- More locations behind do not change what the first of a key is.
abbrev pub FirstAt-more : (k : ℕ) (xs ys : List Location) → FirstAt k xs → FirstAt k (xs ++ ys)
FirstAt-more k xs ys f = record {
  front = f.front;
  loc = f.loc;
  back = f.back ++ ys;
  split = ap (λ zs. zs ++ ys) f.split ∙ append_assoc f.front (f.loc ∷ f.back) ys;
  same = f.same;
  apart = f.apart;
}

pub SameOrder-FirstAt :
    (k : ℕ) (xs ys : List Location) → SameOrder xs ys → FirstAt k ys → FirstAt k xs
SameOrder-FirstAt k xs ys h f = elim (first_at k xs) [
  | inl none_there ↦ absurd (cc (h k, at_key-none k xs none_there, at_key-FirstAt k ys f))
  | inr g ↦ g
]

-- Both lists without their first location of a key.
pub SameOrder-removed :
    (k : ℕ) (xs ys : List Location) (g : FirstAt k xs) (f : FirstAt k ys)
    → SameOrder xs ys
    → SameOrder (g.front ++ g.back) (f.front ++ f.back)
SameOrder-removed k xs ys g f h =
    (SameOrder-found g.loc (g.front ++ g.back) ys (FirstAt-same g.loc.key k ys g.same f)
      (λ j. FirstAt-SameOrder k xs g j ∙ h j)).1

-- Lists that agree so are permutations of one another.
pub SameOrder-Perm : (xs ys : List Location) → SameOrder xs ys → Perm xs ys
SameOrder-Perm [] [] h = Perm.refl []
SameOrder-Perm [] (y ∷ ys) h = absurd (cc (h y.key, at_key-first y.key y ys refl))
SameOrder-Perm (x ∷ xs) ys h = placed (λ zs. SameOrder-Perm xs zs) (first_at x.key ys)
  where
    placed :
        ((zs : List Location) → SameOrder xs zs → Perm xs zs)
        → NotAt x.key ys ⊎ FirstAt x.key ys
        → Perm (x ∷ xs) ys
    placed later (inl none_there) =
        absurd (cc (h x.key, at_key-first x.key x xs refl, at_key-none x.key ys none_there))
    placed later (inr f) =
        let (same, rest) = SameOrder-found x xs ys f h in
        subst (Perm (x ∷ xs)) (sym f.split) (
          Perm.trans
            (subst (λ y. Perm (x ∷ xs) (y ∷ (f.front ++ f.back))) (sym same)
              (Perm.cons x (later (f.front ++ f.back) rest)))
            (Perm.symm (perm_middle f.front f.back)))
