-- ===== src/Options/Split.antt =====
-- The split functions of options.go. A split function takes a key to the key of its bucket.
use timeq.Base.{
  ℕ, zero, suc, ◌+◌, ◌-◌, ◌*◌, ◌/◌, ◌%◌, ◌^◌, ◌≤◌, ◌<◌, ◌≡◌, ◌∙◌, ap, Bool-cases, inl, inr, List,
  [], ◌∷◌, All, arith, ltb, leb, leb→le, gt_of_leb, lt→ltb, ltb→lt, ltb→ge,
}
use native.Mathlib.Nat.{div-add-mod, mod-lt, two-pow-succ, one-le-pow}
use timeq.Base.Words.{rank}
use timeq.Item.{Item}
use timeq.Options.{shift_split}
use timeq.Buckets.{BucketStore, push_sorted}
use timeq.Buckets.Groups.{Climbs, groups, push_groups, push_sorted-groups}

mul_mono : (a b p : ℕ) → a ≤ b → p * a ≤ p * b
mul_mono a b p h = grind arith

-- Rounding down to a multiple keeps the order.
floor_mono : (b v w : ℕ) → 0 < b → v ≤ w → v - v % b ≤ w - w % b
floor_mono b v w hb h = elim (Bool-cases (leb (v / b) (w / b))) [
  | inl e ↦
      omega (arith, div-add-mod v b, div-add-mod w b, mul_mono (v / b) (w / b) b (leb→le _ _ e))
  | inr e ↦ omega (
    arith,
    h,
    div-add-mod v b,
    div-add-mod w b,
    mod-lt w hb,
    mul_mono (w / b + 1) (v / b) b (omega (arith, gt_of_leb _ _ e)),
  )
]

-- A multiple of b that is not above w is not above w rounded down.
floor_above : (b c w : ℕ) → 0 < b → b * c ≤ w → b * c ≤ w - w % b
floor_above b c w hb h = elim (Bool-cases (leb c (w / b))) [
  | inl e ↦ omega (arith, div-add-mod w b, mul_mono c (w / b) b (leb→le _ _ e))
  | inr e ↦ omega (
    arith,
    h,
    div-add-mod w b,
    mod-lt w hb,
    mul_mono (w / b + 1) c b (omega (arith, gt_of_leb _ _ e)),
  )
]

pow_split : (s d : ℕ) → 2 ^ s * 2 ^ d ≡ 2 ^ (s + d)
pow_split s zero = let e : s + 0 ≡ s = omega arith in rw e (omega arith)
pow_split s (suc d) =
    let e : s + suc d ≡ suc (s + d) = omega arith in
    rw (e, two-pow-succ d, two-pow-succ (s + d)) (grind (arith, pow_split s d))

module _ (s : ℕ) (small : s < 64) where
  multiple : 2 ^ s * 2 ^ (63 - s) ≡ 2 ^ 63
  multiple =
      let e : s + (63 - s) ≡ 63 = omega (arith, small) in pow_split s (63 - s) ∙ ap (λ n. 2 ^ n) e

  -- A split function of ShiftBucketSplitConf for a shift below 64 keeps the order of int64 keys,
  -- also across the sign.
  pub shift_split_mono :
      (v w : ℕ)
      → v < 2 ^ 64
      → w < 2 ^ 64
      → rank v ≤ rank w
      → rank (shift_split s v) ≤ rank (shift_split s w)
  unfolding shift_split
  shift_split_mono v w hv hw h =
      let pos : 0 < 2 ^ s = one-le-pow s 2 (omega arith) in
      let b = 2 ^ s in
      rw (lt→ltb s 64 small) (elim (Bool-cases (ltb v (2 ^ 63))) [
        | inl v_pos ↦ elim (Bool-cases (ltb w (2 ^ 63))) [
          | inl w_pos ↦ omega (
            arith,
            h,
            ltb→lt _ _ v_pos,
            ltb→lt _ _ w_pos,
            floor_mono b v w pos (omega (arith, h, ltb→lt _ _ v_pos, ltb→lt _ _ w_pos)),
          )
          | inr w_neg ↦ absurd (omega (arith, h, hw, ltb→lt _ _ v_pos, ltb→ge _ _ w_neg))
        ]
        | inr v_neg ↦
            let v_above = floor_above b (2 ^ (63 - s)) v pos (rw multiple (ltb→ge _ _ v_neg)) in
            elim (Bool-cases (ltb w (2 ^ 63))) [
              | inl w_pos ↦ omega (arith, hv, multiple, v_above, ltb→lt _ _ w_pos)
              | inr w_neg ↦
                  let w_above =
                    floor_above b (2 ^ (63 - s)) w pos (rw multiple (ltb→ge _ _ w_neg)) in
                  omega (
                    arith,
                    h,
                    hv,
                    hw,
                    multiple,
                    v_above,
                    w_above,
                    ltb→ge _ _ v_neg,
                    ltb→ge _ _ w_neg,
                    floor_mono b v w pos
                        (omega (arith, h, hv, hw, ltb→ge _ _ v_neg, ltb→ge _ _ w_neg)),
                  )
            ]
      ])

  low_shifted :
      (v : ℕ) (items : List Item)
      → v < 2 ^ 64
      → All (λ it. rank v ≤ rank it.key) items
      → All (λ it. it.key < 2 ^ 64) items
      → All (λ it. rank (shift_split s v) ≤ rank (shift_split s it.key)) items
  low_shifted v [] hv h k = tt
  low_shifted v (it ∷ items) hv h k =
      (shift_split_mono v it.key hv k.0 h.0, low_shifted v items hv h.1 k.1)

  Climbs-shift_split :
      (items : List Item)
      → Climbs (λ key. key) items
      → All (λ it. it.key < 2 ^ 64) items
      → Climbs (shift_split s) items
  Climbs-shift_split [] c k = tt
  Climbs-shift_split (it ∷ items) c k =
      (low_shifted it.key items k.0 c.0 k.1, Climbs-shift_split items c.1 k.1)

  shifted-bounded :
      (items : List Item)
      → All (λ it. it.key < 2 ^ 64) items
      → All (λ it. shift_split s it.key < 2 ^ 64) items
  unfolding shift_split
  shifted-bounded [] k = tt
  shifted-bounded (it ∷ items) k =
      let below : shift_split s it.key < 2 ^ 64 = rw (lt→ltb s 64 small) (omega (arith, k.0)) in
      (below, shifted-bounded items k.1)

  -- With a split function of ShiftBucketSplitConf for a shift below 64 and items sorted by their
  -- int64 keys, pushSorted pushes each run of items with one bucket to this bucket once, as a
  -- whole and in order.
  pub push_sorted-shift_split :
      {S E : Type 0} (store : BucketStore S E) (error_mode : ℕ) (st : S) (items : List Item)
      → Climbs (λ key. key) items
      → All (λ it. it.key < 2 ^ 64) items
      → push_sorted store error_mode (shift_split s) st items
        ≡ push_groups (shift_split s) store error_mode st (groups (shift_split s) items)
  push_sorted-shift_split store error_mode st items c k =
      push_sorted-groups (shift_split s) store error_mode st items (Climbs-shift_split items c k)
        (shifted-bounded items k)
