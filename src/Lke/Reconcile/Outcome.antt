-- ===== src/Lke/Reconcile/Outcome.antt =====
-- When ReconcileLKENodePoolSpecs fails, and when it has nothing to do.
use terraform_provider_linod.Prelude.{
  ℕ, zero, suc, Bool, true, false, ◌&&◌, ◌||◌, ◌≡◌, refl, List, [], ◌∷◌, ◌++◌, map, length, take,
  drop, zip, keep, keep_head, any, min, ltb, arith, Result, ok, err, ◌>>=◌, ap, ◌∙◌, Bool-cases,
  inl, inr, ◌==◌, ==_iff, ==_refl, nat_eq, string_eq, if◌then◌else◌,
}
use terraform_provider_linod.Lke.{NodePoolSpec, spec_eq, spec_beq_iff, NodePoolUpdates}
use terraform_provider_linod.Lke.Reconcile.{
  create_pool, append_create, create_pools, reconcile_pair, reconcile_pairs, no_updates,
  reconcile_lke_node_pool_specs,
}
use terraform_provider_linod.Lke.Reconcile.Accounting.{
  Pair, is_replaced, created, lacks_count, zip-take, drop_all,
}

abbrev pub fails {ℓ κ} : {E : Type ℓ} {A : Type κ} → Result E A → Bool
fails (ok a) = false
fails (err e) = true

fails-create_pool : (spec : NodePoolSpec) → fails (create_pool spec) ≡ lacks_count spec
unfolding create_pool
fails-create_pool spec = ground arith

fails-append_create :
    (r : NodePoolUpdates) (spec : NodePoolSpec) → fails (append_create r spec) ≡ lacks_count spec
unfolding append_create
fails-append_create r spec = ground (arith, fails-create_pool spec)

fails->>= {ℓ κ ι} :
    {E : Type ℓ} {A : Type κ} {B : Type ι} (m : Result E A) (f : A → Result E B) (b : Bool)
    → ((a : A) → fails (f a) ≡ b)
    → fails (m >>= f) ≡ (fails m || b)
fails->>= (ok a) f b h = h a
fails->>= (err e) f b h = refl

fails-create_pools :
    (r : NodePoolUpdates) (specs : List NodePoolSpec)
    → fails (create_pools r specs) ≡ any lacks_count specs
unfolding create_pools
fails-create_pools r [] = refl
fails-create_pools r (v ∷ specs) =
    fails->>= (append_create r v) _ (any lacks_count specs) (λ s. fails-create_pools s specs)
    ∙ rw (fails-append_create r v)

abbrev replacements : List NodePoolSpec → List NodePoolSpec → List NodePoolSpec
replacements news olds = map (λ (p : Pair). p.0) (keep is_replaced (zip news olds))

same_type : (new old : NodePoolSpec) → (new == old) ≡ true → (new.pool_type == old.pool_type) ≡ true
same_type new old h =
    (==_iff new.pool_type old.pool_type).1
      (ap (λ (s : NodePoolSpec). s.pool_type) ((spec_beq_iff new old).0 h))

fails-reconcile_pair :
    (enterprise : Bool) (r : NodePoolUpdates) (new old : NodePoolSpec)
    → fails (reconcile_pair enterprise r new old) ≡ (is_replaced (new, old) && lacks_count new)
unfolding reconcile_pair
fails-reconcile_pair enterprise r new old =
    ground (arith, same_type new old, fails-append_create r new)

any-append {ℓ} :
    {A : Type ℓ} (p : A → Bool) (xs ys : List A) → any p (xs ++ ys) ≡ (any p xs || any p ys)
any-append p [] ys = refl
any-append p (x ∷ xs) ys = ground (arith, any-append p xs ys)

fails-reconcile_pairs :
    (enterprise : Bool) (r : NodePoolUpdates) (news olds : List NodePoolSpec)
    → fails (reconcile_pairs enterprise r news olds) ≡ any lacks_count (replacements news olds)
unfolding reconcile_pairs
fails-reconcile_pairs enterprise r [] olds = refl
fails-reconcile_pairs enterprise r (n ∷ news) [] = refl
fails-reconcile_pairs enterprise r (n ∷ news) (o ∷ olds) =
    fails->>= (reconcile_pair enterprise r n o) _ (any lacks_count (replacements news olds))
      (λ s. fails-reconcile_pairs enterprise s news olds)
    ∙ rw (fails-reconcile_pair enterprise r n o) (split (is_replaced (n, o)))
  where
    split :
        (b : Bool)
        → ((b && lacks_count n) || any lacks_count (replacements news olds))
          ≡ any lacks_count
              (map (λ (p : Pair). p.0) (keep_head b (n, o) (keep is_replaced (zip news olds))))
    split true = refl
    split false = refl

fails-create_step :
    (olds news : List NodePoolSpec) (d : NodePoolUpdates)
    → fails
        (if ltb (length olds) (length news) then create_pools d (drop (length olds) news) else ok d)
      ≡ any lacks_count (drop (length olds) news)
fails-create_step olds news d = elim (Bool-cases (ltb (length olds) (length news))) [
  | inl more ↦ rw more (fails-create_pools d (drop (length olds) news))
  | inr fewer ↦ rw (fewer, drop_all (length olds) news (ground arith))
]

-- Reconciliation fails exactly when one of the pools it would create, whether it is new or replaces a
-- pool of another type, has a count of 0 and no autoscaler.
pub fails-reconcile :
    (olds news : List NodePoolSpec) (enterprise : Bool)
    → fails (reconcile_lke_node_pool_specs olds news enterprise)
      ≡ any lacks_count (created olds news)
unfolding reconcile_lke_node_pool_specs
fails-reconcile olds news enterprise =
    fails->>= _ _ (any lacks_count (replacements news olds)) (λ r.
      fails-reconcile_pairs enterprise r (take (min (length olds) (length news)) news) olds
      ∙ rw (zip-take (min (length olds) (length news)) news olds (omega arith)))
    ∙ rw (any-append lacks_count (drop (length olds) news) (replacements news olds)) (
        ap (λ (b : Bool). b || any lacks_count (replacements news olds))
          (fails-create_step olds news _))

pairs_unchanged :
    (enterprise : Bool) (r : NodePoolUpdates) (n : ℕ) (specs : List NodePoolSpec)
    → reconcile_pairs enterprise r (take n specs) specs ≡ ok r
unfolding reconcile_pairs reconcile_pair
pairs_unchanged enterprise r zero specs = refl
pairs_unchanged enterprise r (suc n) [] = refl
pairs_unchanged enterprise r (suc n) (s ∷ specs) =
    rw (==_refl s) (pairs_unchanged enterprise r n specs)

-- Reconciling a list of specs with itself succeeds and changes nothing.
pub reconcile_unchanged :
    (specs : List NodePoolSpec) (enterprise : Bool)
    → reconcile_lke_node_pool_specs specs specs enterprise ≡ ok no_updates
unfolding reconcile_lke_node_pool_specs
reconcile_unchanged specs enterprise =
    ground (arith, pairs_unchanged enterprise no_updates (min (length specs) (length specs)) specs)
