-- ===== src/Buckets/Tree/Closing.antt =====
-- The loop of closeUnused of buckets.go, by induction on what its rounds keep.
pub mod Count
use timeq.Base.{
  ℕ, zero, suc, ◌+◌, ◌-◌, ◌*◌, ◌/◌, ◌%◌, ◌^◌, ◌≤◌, ◌<◌, ◌≡◌, ◌≢◌, refl, sym, ◌∙◌, ap, subst, Bool,
  true, false, List, [], ◌∷◌, Option, none, some, length, get_elem?, set, length-set, arith,
  if◌then◌else◌, ltb, leb, ltb→lt, ltb→ge, leb→le, gt_of_leb, ge→ltb, Bool-cases, Option-cases,
  ==→eq, ◌⊎◌, inl, inr, ◌==◌,
}
use timeq.Base.Words.{rank, lt_i64}
use timeq.Item.{Location}
use timeq.Btree.{OrderedMap, IsOrderedMap}
use timeq.Btree.Pairs.{Ascending, insert-Ascending}
use timeq.Btree.Places.{insert-set, get_elem?-none, some_injective, none_ne_some}
use timeq.Options.{Options}
use timeq.Bucket.{Bucket}
use timeq.Buckets.Tree.{
  Buckets, Env, Entry, loaded_in, nloaded, close_bucket, entry_at, real_idx, close_entry,
  close_error, close_loop, close_unused,
}

module _ (M : OrderedMap (List Location)) (T : OrderedMap (Option (Bucket M))) where
  -- No loaded bucket stands there.
  abbrev pub Shut : Option (Entry M T) → Type 0
  Shut found = (key : ℕ) (b : Bucket M) → found ≢ some (key, some b)

  module _ (env : Env M T) (opts : Options) (pivot nclosable : ℕ) (P : ℕ → Buckets M T → ℕ → Type 0)
      (skips : (idx n : ℕ) (s : Buckets M T)
        → P idx s n
        → Shut (entry_at M T (T.entries s.tree) (real_idx pivot idx))
        → P (idx + 1) s n)
      (closes : (idx n key : ℕ) (s : Buckets M T) (b : Bucket M)
        → P idx s n
        → entry_at M T (T.entries s.tree) (real_idx pivot idx) ≡ some (key, some b)
        → n < nclosable
        → P (idx + 1) (close_bucket M T s key b) (n + 1)) where
    -- The loop ends with its invariant, after enough calls of Close or at the last place.
    abbrev pub Ended : ℕ → Buckets M T → Type 0
    Ended last s = (idx : ℕ) × (n : ℕ) × P idx s n × ((nclosable ≤ n) ⊎ (idx ≡ last))

    close_entry-Ended :
        (last idx n : ℕ) (s : Buckets M T) (errs : List ℕ)
        (again : Buckets M T → List ℕ → ℕ → Buckets M T × List ℕ)
        → ((s' : Buckets M T) (errs' : List ℕ) (n' : ℕ)
            → P (idx + 1) s' n'
            → Ended last (again s' errs' n').0)
        → P idx s n
        → n < nclosable
        → (found : Option (Entry M T))
        → entry_at M T (T.entries s.tree) (real_idx pivot idx) ≡ found
        → Ended last (close_entry M T env opts again s errs n found).0
    close_entry-Ended last idx n s errs again ih p h none e =
        ih s errs n (skips idx n s p (λ k b q. none_ne_some (sym e ∙ q)))
    close_entry-Ended last idx n s errs again ih p h (some (key, none)) e =
        ih s errs n
          (skips idx n s p (λ k b q. none_ne_some (ap (λ r. r.1) (some_injective (sym e ∙ q)))))
    close_entry-Ended last idx n s errs again ih p h (some (key, some b)) e =
        ih (close_bucket M T s key b) (close_error M T env opts key errs) (n + 1)
          (closes idx n key s b p e h)

    pub close_loop-Ended :
        (rounds idx n : ℕ) (s : Buckets M T) (errs : List ℕ)
        → P idx s n
        → Ended (idx + rounds) (close_loop M T env opts rounds idx pivot nclosable s errs n).0
    unfolding close_loop
    close_loop-Ended zero idx n s errs p = (idx, n, p, inr (omega arith))
    close_loop-Ended (suc rounds) idx n s errs p =
        let closed =
          close_entry M T env opts
            (λ s' errs' n'. close_loop M T env opts rounds (idx + 1) pivot nclosable s' errs' n') s
            errs n (entry_at M T (T.entries s.tree) (real_idx pivot idx)) in
        let at_end : (idx + 1) + rounds ≡ idx + suc rounds = omega arith in
        elim (Bool-cases (ltb n nclosable)) [
          | inr stop ↦
              subst (Ended (idx + suc rounds))
                (sym (ap (λ t. (if t then closed else (s, errs)).0) stop))
                (idx, n, p, inl (ltb→ge n nclosable stop))
          | inl goes ↦
              subst (Ended (idx + suc rounds))
                (sym (ap (λ t. (if t then closed else (s, errs)).0) goes))
                (close_entry-Ended (idx + suc rounds) idx n s errs
                  (λ s' errs' n'.
                    close_loop M T env opts rounds (idx + 1) pivot nclosable s' errs' n')
                  (λ s' errs' n' p'.
                    subst
                      (λ l.
                        Ended l
                          (close_loop M T env opts rounds (idx + 1) pivot nclosable s' errs' n').0)
                      at_end (close_loop-Ended rounds (idx + 1) n' s' errs' p'))
                  p (ltb→lt n nclosable goes) (entry_at M T (T.entries s.tree) (real_idx pivot idx))
                  refl)
        ]

  module _ (laws : IsOrderedMap T) where
    -- A bucket that is closed leaves its place empty, and the other places as they were.
    pub close_bucket-entries :
        (s : Buckets M T) (i key : ℕ) (b : Bucket M)
        → Ascending (T.entries s.tree)
        → get_elem? (T.entries s.tree) i ≡ some (key, some b)
        → T.entries (close_bucket M T s key b).tree ≡ set (T.entries s.tree) i (key, none)
    unfolding close_bucket
    close_bucket-entries s i key b up e =
        laws.entries-set s.tree key none ∙ insert-set (T.entries s.tree) i key (some b) none up e

    pub close_bucket-Ascending :
        (s : Buckets M T) (key : ℕ) (b : Bucket M)
        → Ascending (T.entries s.tree)
        → Ascending (T.entries (close_bucket M T s key b).tree)
    unfolding close_bucket
    close_bucket-Ascending s key b up =
        subst Ascending (sym (laws.entries-set s.tree key none))
          (insert-Ascending key none (T.entries s.tree) up)

  unless_cut :
      (P : Buckets M T → Type 0) (t u : Bool) (s : Buckets M T) (cut : Buckets M T × List ℕ)
      → P s
      → P cut.0
      → P (if t then (s, []) else if u then (s, []) else cut).0
  unless_cut P true u s cut p q = p
  unless_cut P false true s cut p q = p
  unless_cut P false false s cut p q = q

  -- What every call of Close keeps, closeUnused keeps.
  pub close_unused-keeps :
      (P : Buckets M T → Type 0) (env : Env M T) (opts : Options) (max_bucks : ℕ) (s : Buckets M T)
      → ((s' : Buckets M T) (key : ℕ) (b : Bucket M) (place : Option ℕ)
          → P s'
          → entry_at M T (T.entries s'.tree) place ≡ some (key, some b)
          → P (close_bucket M T s' key b))
      → P s
      → P (close_unused M T env opts max_bucks s).0
  unfolding close_unused
  close_unused-keeps P env opts max_bucks s keeps p =
      let places : ℕ = length (T.entries s.tree) in
      unless_cut P (lt_i64 max_bucks 0) (leb (nloaded M T s) max_bucks) s _ p
        (close_loop-Ended env opts (places / 2) (nloaded M T s - max_bucks) (λ idx s' n. P s')
          (λ idx n s' p' shut. p')
          (λ idx n key s' b p' e lt. keeps s' key b (real_idx (places / 2) idx) p' e) places 0 0 s
          [] p).2
