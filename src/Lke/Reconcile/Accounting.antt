-- ===== src/Lke/Reconcile/Accounting.antt =====
-- Which pools ReconcileLKENodePoolSpecs deletes, creates and updates.
use mathlib.Core.List.{append-nil, append_assoc, map-append, map-map}
use terraform_provider_linod.Prelude.{
  ℕ, zero, suc, ◌≤◌, String, Bool, true, false, not, ◌&&◌, ◌≡◌, refl, sym, ◌∙◌, ap, List, [], ◌∷◌,
  ◌++◌, map, length, take, drop, zip, keep, keep_head, min, ltb, arith, ok, err, >>=-eq-ok,
  Result-cases, Bool-cases, inl, inr, ◌==◌, ◌!=◌, ==_iff, nat_eq, string_eq, if◌then◌else◌,
}
use terraform_provider_linod.Prelude.Dict.{Dict, put}
use terraform_provider_linod.Lke.{
  NodePoolSpec, spec_eq, spec_beq_iff, NodePoolCreateOptions, NodePoolUpdateOptions,
  NodePoolUpdates,
}
use terraform_provider_linod.Lke.Reconcile.{
  create_options, create_pool, append_create, delete_pool, delete_pools, create_pools,
  update_options, reconcile_pair, reconcile_pairs, no_updates, reconcile_lke_node_pool_specs,
}

abbrev pub Pair : Type 0
Pair = NodePoolSpec × NodePoolSpec

-- A new spec beside the old one at its place: replaced, or updated, or left alone.
abbrev pub is_replaced : Pair → Bool
is_replaced (new, old) = new.pool_type != old.pool_type

abbrev pub is_updated : Pair → Bool
is_updated (new, old) = new.pool_type == old.pool_type && new != old

-- The pools that a successful reconciliation creates.
abbrev pub created : List NodePoolSpec → List NodePoolSpec → List NodePoolSpec
created olds news = drop (length olds) news ++ map (λ p. p.0) (keep is_replaced (zip news olds))

abbrev pub deleted : List NodePoolSpec → List NodePoolSpec → List NodePoolSpec
deleted olds news = drop (length news) olds ++ map (λ p. p.1) (keep is_replaced (zip news olds))

abbrev pub updated : List NodePoolSpec → List NodePoolSpec → List Pair
updated olds news = keep is_updated (zip news olds)

-- A new pool starts at its count, or at the autoscaler's minimum if the count is 0.
abbrev pub options_of : NodePoolSpec → NodePoolCreateOptions
options_of spec = create_options spec (if spec.count == 0 then spec.auto_scaler_min else spec.count)

-- A count of 0 with no autoscaler.
abbrev pub lacks_count : NodePoolSpec → Bool
lacks_count spec = spec.count == 0 && not spec.auto_scaler_enabled

abbrev pub put_updates :
    Bool → Dict ℕ NodePoolUpdateOptions → List Pair → Dict ℕ NodePoolUpdateOptions
put_updates enterprise d [] = d
put_updates enterprise d ((new, old) ∷ pairs) =
    put_updates enterprise (put old.id (update_options enterprise new old) d) pairs

create_pool-eq :
    (spec : NodePoolSpec) {o : NodePoolCreateOptions}
    → create_pool spec ≡ ok o
    → o ≡ options_of spec
unfolding create_pool
create_pool-eq spec h = ground arith

create_pool_iff :
    (spec : NodePoolSpec) {e : String} → create_pool spec ≡ err e → lacks_count spec ≡ true
unfolding create_pool
create_pool_iff spec h = ground arith

delete_pools-eq :
    (r : NodePoolUpdates) (specs : List NodePoolSpec)
    → delete_pools r specs ≡ record r { to_delete = r.to_delete ++ map (λ s. s.id) specs }
unfolding delete_pools delete_pool
delete_pools-eq r [] = rw append-nil
delete_pools-eq r (v ∷ specs) =
    delete_pools-eq (delete_pool r v.id) specs
    ∙ ap (λ l. record r { to_delete = l })
        (append_assoc r.to_delete (v.id ∷ []) (map (λ s. s.id) specs))

create_pools-eq :
    (r : NodePoolUpdates) (specs : List NodePoolSpec) {u : NodePoolUpdates}
    → create_pools r specs ≡ ok u
    → u ≡ record r { to_create = r.to_create ++ map options_of specs }
unfolding create_pools append_create
create_pools-eq r [] h = rw append-nil (cc)
create_pools-eq r (v ∷ specs) {u} h =
    let (r1, appended, h1) = >>=-eq-ok (append_create r v) _ h in
    let (o, made, h2) = >>=-eq-ok (create_pool v) _ appended in
    let eq : r1 ≡ record r { to_create = r.to_create ++ options_of v ∷ [] } =
      cc (h2, create_pool-eq v made) in
    create_pools-eq r1 specs h1
    ∙ rw eq (
        ap (λ l. record r { to_create = l })
          (append_assoc r.to_create (options_of v ∷ []) (map options_of specs)))

-- What a run of the loop over the common pools adds to the updates.
record Adds (enterprise : Bool) (r u : NodePoolUpdates) (pairs : List Pair) : Type 0 where
  deletes : u.to_delete ≡ r.to_delete ++ map (λ p. p.1.id) (keep is_replaced pairs)
  creates : u.to_create ≡ r.to_create ++ map (λ p. options_of p.0) (keep is_replaced pairs)
  updates : u.to_update ≡ put_updates enterprise r.to_update (keep is_updated pairs)

-- One round: nothing, a replacement, or an update.
Adds-reconcile_pair :
    (enterprise : Bool) (r : NodePoolUpdates) (new old : NodePoolSpec) {u : NodePoolUpdates}
    → reconcile_pair enterprise r new old ≡ ok u
    → Adds enterprise r u ((new, old) ∷ [])
unfolding reconcile_pair append_create delete_pool
Adds-reconcile_pair enterprise r new old {u} h = elim (Bool-cases (new == old)) [
  | inl same ↦
      let alike : (new.pool_type == old.pool_type) ≡ true =
        (==_iff new.pool_type old.pool_type).1
          (ap (λ (s : NodePoolSpec). s.pool_type) ((spec_beq_iff new old).0 same)) in
      let kept : u ≡ r = ground (arith, same) in
      rw kept (record {
        deletes = rw alike (rw append-nil);
        creates = rw alike (rw append-nil);
        updates = rw (alike, same);
      })
  | inr differ ↦ elim (Bool-cases (new.pool_type == old.pool_type)) [
    | inl alike ↦
        let kept : u
            ≡ record r { to_update = put old.id (update_options enterprise new old) r.to_update } =
          ground (arith, differ, alike) in
        rw kept (record {
          deletes = rw alike (rw append-nil);
          creates = rw alike (rw append-nil);
          updates = rw (alike, differ);
        })
    | inr other ↦ elim (Result-cases (create_pool new)) [
      | inl (o, made) ↦
          let kept : u ≡ record r {
            to_delete = r.to_delete ++ old.id ∷ [];
            to_create = r.to_create ++ options_of new ∷ [];
          } =
            ground (arith, differ, other, made, create_pool-eq new made) in
          rw kept
            (record { deletes = rw other refl; creates = rw other refl; updates = rw other refl })
      | inr (e, failed) ↦ absurd (ground (arith, differ, other, failed))
    ]
  ]
]

Adds-trans :
    (enterprise : Bool) (r s u : NodePoolUpdates) (p : Pair) (pairs : List Pair)
    → Adds enterprise r s (p ∷ [])
    → Adds enterprise s u pairs
    → Adds enterprise r u (p ∷ pairs)
Adds-trans enterprise r s u p pairs one rest = record {
  deletes = rest.deletes ∙ rw one.deletes (regroup (λ (q : Pair). q.1.id) r.to_delete);
  creates = rest.creates ∙ rw one.creates (regroup (λ (q : Pair). options_of q.0) r.to_create);
  updates = rest.updates ∙ rw one.updates (one_more (is_updated p));
}
  where
    regroup :
        {A : Type 0} (f : Pair → A) (xs : List A)
        → (xs ++ map f (keep is_replaced (p ∷ []))) ++ map f (keep is_replaced pairs)
          ≡ xs ++ map f (keep is_replaced (p ∷ pairs))
    regroup f xs = elim (Bool-cases (is_replaced p)) [
      | inl yes_it ↦ rw yes_it (append_assoc xs (f p ∷ []) (map f (keep is_replaced pairs)))
      | inr no_it ↦ rw no_it (rw append-nil)
    ]

    one_more :
        (b : Bool)
        → put_updates enterprise
            (put_updates enterprise r.to_update (keep_head b p []))
            (keep is_updated pairs)
          ≡ put_updates enterprise r.to_update (keep_head b p (keep is_updated pairs))
    one_more true = refl
    one_more false = refl

Adds-reconcile_pairs :
    (enterprise : Bool) (r : NodePoolUpdates) (news olds : List NodePoolSpec) {u : NodePoolUpdates}
    → reconcile_pairs enterprise r news olds ≡ ok u
    → Adds enterprise r u (zip news olds)
unfolding reconcile_pairs
Adds-reconcile_pairs enterprise r [] olds {u} h =
    let kept : u ≡ r = cc in
    rw kept (record { deletes = rw append-nil; creates = rw append-nil; updates = refl })
Adds-reconcile_pairs enterprise r (n ∷ news) [] {u} h =
    let kept : u ≡ r = cc in
    rw kept (record { deletes = rw append-nil; creates = rw append-nil; updates = refl })
Adds-reconcile_pairs enterprise r (n ∷ news) (o ∷ olds) {u} h =
    let (s, one, h1) = >>=-eq-ok (reconcile_pair enterprise r n o) _ h in
    Adds-trans enterprise r s u (n, o) (zip news olds) (Adds-reconcile_pair enterprise r n o one)
      (Adds-reconcile_pairs enterprise s news olds h1)

pub zip-take {ℓ κ} :
    {A : Type ℓ} {B : Type κ} (n : ℕ) (xs : List A) (ys : List B)
    → min (length ys) (length xs) ≤ n
    → zip (take n xs) ys ≡ zip xs ys
zip-take zero [] ys h = refl
zip-take (suc n) [] ys h = refl
zip-take zero (x ∷ xs) [] h = refl
zip-take (suc n) (x ∷ xs) [] h = refl
zip-take zero (x ∷ xs) (y ∷ ys) h = absurd (omega arith)
zip-take (suc n) (x ∷ xs) (y ∷ ys) h = rw (zip-take n xs ys (omega arith))

pub drop_all {ℓ} : {A : Type ℓ} (n : ℕ) (xs : List A) → length xs ≤ n → drop n xs ≡ []
drop_all zero [] h = refl
drop_all zero (x ∷ xs) h = absurd (omega arith)
drop_all (suc n) [] h = refl
drop_all (suc n) (x ∷ xs) h = drop_all n xs (omega arith)

delete_step :
    (olds news : List NodePoolSpec)
    → (if ltb (length news) (length olds)
        then delete_pools no_updates (drop (length news) olds)
        else no_updates)
      ≡ record no_updates { to_delete = map (λ s. s.id) (drop (length news) olds) }
delete_step olds news = elim (Bool-cases (ltb (length news) (length olds))) [
  | inl fewer ↦ rw fewer (delete_pools-eq no_updates (drop (length news) olds))
  | inr more ↦ rw (more, drop_all (length news) olds (ground arith))
]

create_step :
    (olds news : List NodePoolSpec) (d : NodePoolUpdates) {r : NodePoolUpdates}
    → (if ltb (length olds) (length news) then create_pools d (drop (length olds) news) else ok d)
      ≡ ok r
    → r ≡ record d { to_create = d.to_create ++ map options_of (drop (length olds) news) }
create_step olds news d {r} h = elim (Bool-cases (ltb (length olds) (length news))) [
  | inl more ↦ create_pools-eq d (drop (length olds) news) (rw more at h)
  | inr fewer ↦
      let kept : d ≡ r = ground (arith, fewer) in
      rw (drop_all (length olds) news (ground arith), append-nil) (sym kept)
]

-- The updates before the loop over the common pools.
abbrev common_start : List NodePoolSpec → List NodePoolSpec → NodePoolUpdates
common_start olds news = record {
  to_delete = map (λ s. s.id) (drop (length news) olds);
  to_create = map options_of (drop (length olds) news);
  to_update = [];
}

-- On success the pools to delete, to create and to update are these: deleted are the old pools past
-- the end of the new list, and those whose type changed; created are the new specs past the end of
-- the old list, and the replacements; updated, each with the options of its pair, are the pools whose
-- spec changed with the type kept.
pub reconcile_exact :
    (olds news : List NodePoolSpec) (enterprise : Bool) {u : NodePoolUpdates}
    → reconcile_lke_node_pool_specs olds news enterprise ≡ ok u
    → (u.to_delete ≡ map (λ s. s.id) (deleted olds news))
      × (u.to_create ≡ map options_of (created olds news))
      × (u.to_update ≡ put_updates enterprise [] (updated olds news))
unfolding reconcile_lke_node_pool_specs
reconcile_exact olds news enterprise {u} h =
    let (r, made, h1) =
      >>=-eq-ok
        (if ltb (length olds) (length news) then create_pools _ (drop (length olds) news) else ok _)
        _ h in
    let start : r ≡ common_start olds news =
      create_step olds news _ made
      ∙ ap
          (λ (d : NodePoolUpdates). record d {
            to_create = d.to_create ++ map options_of (drop (length olds) news);
          })
          (delete_step olds news) in
    let adds : Adds enterprise (common_start olds news) u (zip news olds) =
      rw (← start, ← zip-take (min (length olds) (length news)) news olds (omega arith))
        (Adds-reconcile_pairs enterprise r (take (min (length olds) (length news)) news) olds h1) in
    (
      adds.deletes ∙ simp (map-append, map-map),
      adds.creates ∙ simp (map-append, map-map),
      adds.updates,
    )
