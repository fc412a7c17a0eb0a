-- ===== src/Base/Perms.antt =====
-- Permutations: predicates on all elements, and lists gathered from each element.
use mathlib.Core.Logic.{∥∥₁_elim, ∥∥₁_map}
use mathlib.Core.HLevel.{×_prop, Unit-prop}
use mathlib.Core.List.{
  List, [], ◌∷◌, ◌++◌, Perm, Permᴰ, Perm-prop, map, append_assoc, perm_append_comm,
  head-eq_of_cons-eq, tail-eq_of_cons-eq,
}
use mathlib.Core.List.Perm
use mathlib.Core.Path.{◌≡◌, refl, sym, ap, subst, subst₂, ◌∙◌}
use native.Mathlib.Nat.{ℕ_set}
use Prim.Native.Nat.{suc}
use timeq.Base.Lists.{All, length}

module _ {A : Type 0} (P : A → Type 0) where
  pub All_prop : ((a : A) → IsProp (P a)) → (xs : List A) → IsProp (All P xs)
  All_prop prop [] = Unit-prop
  All_prop prop (x ∷ xs) = ×_prop (prop x) (All_prop prop xs)

  All-permᴰ : {xs ys : List A} → Permᴰ xs ys → All P xs → All P ys
  All-permᴰ Permᴰ.nil h = h
  All-permᴰ (Permᴰ.cons e p) h = (subst P e h.0, All-permᴰ p h.1)
  All-permᴰ (Permᴰ.swap e f) h = (subst P f h.1.0, (subst P e h.0, h.1.1))
  All-permᴰ (Permᴰ.trans p q) h = All-permᴰ q (All-permᴰ p h)

  pub All-perm : ((a : A) → IsProp (P a)) → {xs ys : List A} → Perm xs ys → All P xs → All P ys
  All-perm prop {ys = ys} p h = ∥∥₁_elim p (All_prop prop ys) (λ q. All-permᴰ q h)

module _ {A B : Type 0} (f : A → List B) where
  abbrev pub gather : List A → List B
  gather [] = []
  gather (x ∷ xs) = f x ++ gather xs

  pub gather-append : (xs ys : List A) → gather (xs ++ ys) ≡ gather xs ++ gather ys
  gather-append [] ys = refl
  gather-append (x ∷ xs) ys =
      ap (λ r. f x ++ r) (gather-append xs ys) ∙ sym (append_assoc (f x) (gather xs) (gather ys))

  gather-permᴰ : {xs ys : List A} → Permᴰ xs ys → Perm (gather xs) (gather ys)
  gather-permᴰ Permᴰ.nil = Perm.refl []
  gather-permᴰ (Permᴰ.cons {a = a} {l₁ = us} {l₂ = vs} e p) =
      subst (λ b. Perm (f a ++ gather us) (f b ++ gather vs)) e
        (Perm.append (Perm.refl (f a)) (gather-permᴰ p))
  gather-permᴰ (Permᴰ.swap {a = a} {b = b} {l = l} e g) =
      subst₂ (λ b' a'. Perm (f a ++ (f b ++ gather l)) (f a' ++ (f b' ++ gather l))) e g
        (exchange (f a) (f b) (gather l))
    where
      exchange : (u v w : List B) → Perm (u ++ (v ++ w)) (v ++ (u ++ w))
      exchange u v w =
          subst₂ Perm (append_assoc u v w) (append_assoc v u w)
            (Perm.append (perm_append_comm u v) (Perm.refl w))
  gather-permᴰ (Permᴰ.trans p q) = Perm.trans (gather-permᴰ p) (gather-permᴰ q)

  pub gather-perm : {xs ys : List A} → Perm xs ys → Perm (gather xs) (gather ys)
  gather-perm p = ∥∥₁_elim p (Perm-prop) (λ q. gather-permᴰ q)

-- A permutation of the images is the image of a permutation.
module _ {A B : Type 0} (f : A → B) (P : A → Type 0) where
  abbrev Lifted : List B → List A → Type 0
  Lifted bs xs = (cs : List A) × (map f cs ≡ bs) × Perm cs xs × (All P xs → All P cs)

  lift_permᴰ : {bs ds : List B} → Permᴰ bs ds → (xs : List A) → map f xs ≡ ds → Lifted bs xs
  lift_permᴰ Permᴰ.nil [] e = ([], refl, Perm.refl [], λ h. h)
  lift_permᴰ Permᴰ.nil (x ∷ xs) e = absurd (cc)
  lift_permᴰ (Permᴰ.cons d p) [] e = absurd (cc)
  lift_permᴰ (Permᴰ.cons d p) (x ∷ xs) e =
      let (cs, same, perm, all) = lift_permᴰ p xs (tail-eq_of_cons-eq e) in
      (
        x ∷ cs,
        (λ i. (head-eq_of_cons-eq e ∙ sym d) i ∷ same i),
        Perm.cons x perm,
        λ h. (h.0, all h.1),
      )
  lift_permᴰ (Permᴰ.swap d g) [] e = absurd (cc)
  lift_permᴰ (Permᴰ.swap d g) (x ∷ []) e = absurd (cc (tail-eq_of_cons-eq e))
  lift_permᴰ (Permᴰ.swap d g) (x ∷ y ∷ xs) e =
      let rest = tail-eq_of_cons-eq e in
      (
        y ∷ x ∷ xs,
        (λ i.
            (head-eq_of_cons-eq rest ∙ sym d) i
            ∷ (head-eq_of_cons-eq e ∙ sym g) i
            ∷ tail-eq_of_cons-eq rest i),
        Perm.swap x y xs,
        λ h. (h.1.0, (h.0, h.1.1)),
      )
  lift_permᴰ (Permᴰ.trans p q) xs e =
      let (ds, same, perm, all) = lift_permᴰ q xs e in
      let (cs, same', perm', all') = lift_permᴰ p ds same in
      (cs, same', Perm.trans perm' perm, λ h. all' (all h))

  pub lift_perm : {bs : List B} (xs : List A) → Perm bs (map f xs) → ∥ Lifted bs xs ∥₁
  lift_perm xs p = ∥∥₁_map p (λ q. lift_permᴰ q xs refl)

module _ {A : Type 0} where
  length-permᴰ : {xs ys : List A} → Permᴰ xs ys → length xs ≡ length ys
  length-permᴰ Permᴰ.nil = refl
  length-permᴰ (Permᴰ.cons e p) = ap suc (length-permᴰ p)
  length-permᴰ (Permᴰ.swap e f) = refl
  length-permᴰ (Permᴰ.trans p q) = length-permᴰ p ∙ length-permᴰ q

  pub perm_length : {xs ys : List A} → Perm xs ys → length xs ≡ length ys
  perm_length p = ∥∥₁_elim p (ℕ_set _ _) (λ q. length-permᴰ q)
