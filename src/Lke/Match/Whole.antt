-- ===== src/Lke/Match/Whole.antt =====
-- Matching returns the API's pools, each once.
use mathlib.Core.List.{Perm, perm_middle, append-nil}
use mathlib.Core.List.Perm
use mathlib.Core.Path.{subst}
use terraform_provider_linod.Prelude.{
  ℕ, suc, Bool, true, false, ◌≡◌, refl, ap, Option, none, some, List, [], ◌∷◌, ◌++◌, map, keep,
  keep_head, All, ok, >>=-eq-ok, ◌==◌, ◌!=◌, ==_iff, nat_eq, arith, if◌then◌else◌, length,
}
use terraform_provider_linod.Prelude.Dict.{Dict, get, put, delete, get-put}
use terraform_provider_linod.Prelude.Perms.{keep-perm}
use terraform_provider_linod.Lke.Specs.{PoolBlock}
use terraform_provider_linod.Lke.Match.{
  NodePool, index_pools, Pairing, block_id, pair_by_id, slot_or_zero, pair_by_attributes,
  match_pools_with_schema,
}
use terraform_provider_linod.Lke.Match.Index.{pools_of, IsIndex, somes, pair_by_id-perm}
use terraform_provider_linod.Lke.Match.Conserved.{Ranges, pair_by_attributes-perm}

-- No two pools have the same identifier.
abbrev pub AreDistinct : List NodePool → Type 0
AreDistinct [] = Unit
AreDistinct (p ∷ pools) = All (λ q. (p.id == q.id) ≡ false) pools × AreDistinct pools

abbrev pub has_id : NodePool → Bool
has_id p = p.id != 0

All-both :
    {A : Type 0} (P Q R : A → Type 0) (xs : List A)
    → ((x : A) → P x → Q x → R x)
    → All P xs
    → All Q xs
    → All R xs
All-both P Q R [] f hp hq = tt
All-both P Q R (x ∷ xs) f hp hq = (f x hp.0 hq.0, All-both P Q R xs f hp.1 hq.1)

put_fresh :
    (k : ℕ) (p : NodePool) (d : Dict ℕ NodePool)
    → get k d ≡ none
    → pools_of (put k p d) ≡ pools_of d ++ p ∷ []
unfolding get put
put_fresh k p [] h = refl
put_fresh k p ((j, q) ∷ d) h = ground (arith, put_fresh k p d)

fresh_step :
    (b : Bool) (j k : ℕ) (p q : NodePool) (d : Dict ℕ NodePool)
    → (j == k) ≡ b
    → (if b then some q else get k d) ≡ none
    → IsIndex ((j, q) ∷ d)
    → (get k d ≡ none → IsIndex (put k p d))
    → IsIndex (if b then (k, p) ∷ d else (j, q) ∷ put k p d)
fresh_step true j k p q d e h index later = absurd (cc)
fresh_step false j k p q d e h index later =
    (index.0, ground (arith, get-put k j p d, ==_iff j k), later h)

put-IsIndex :
    (k : ℕ) (p : NodePool) (d : Dict ℕ NodePool)
    → p.id ≡ k
    → get k d ≡ none
    → IsIndex d
    → IsIndex (put k p d)
unfolding get put
put-IsIndex k p [] own h index = (own, refl, tt)
put-IsIndex k p ((j, q) ∷ d) own h index =
    fresh_step (j == k) j k p q d refl h index (λ h'. put-IsIndex k p d own h' index.2)

keep_slots :
    (slots : List (Option NodePool)) (rest : List NodePool)
    → keep has_id (map slot_or_zero slots ++ rest) ≡ keep has_id (somes slots ++ rest)
keep_slots [] rest = refl
keep_slots (none ∷ slots) rest = keep_slots slots rest
keep_slots (some p ∷ slots) rest = ap (keep_head (has_id p) p) (keep_slots slots rest)

keep-All :
    (pools : List NodePool) → All (λ p. (p.id == 0) ≡ false) pools → keep has_id pools ≡ pools
keep-All [] h = refl
keep-All (p ∷ pools) h = rw (h.0, keep-All pools h.1) refl

length-pair_by_id :
    (declared : List PoolBlock) (api : Dict ℕ NodePool) (pairing : Pairing)
    → pair_by_id declared api ≡ ok pairing
    → length pairing.0 ≡ length declared
unfolding pair_by_id
length-pair_by_id [] api pairing h = let same : pairing ≡ ([], api) = cc in rw same refl
length-pair_by_id (b ∷ declared) api pairing h =
    let (id, e1, h1) = >>=-eq-ok (block_id b.id) _ h in
    let (inner, e2, h2) = >>=-eq-ok (pair_by_id declared (delete id api)) _ h1 in
    let same : pairing ≡ (get id api ∷ inner.0, inner.1) = cc in
    rw same (ap suc (length-pair_by_id declared (delete id api) inner e2))

index_pools-perm :
    (pools : List NodePool) (d : Dict ℕ NodePool)
    → IsIndex d
    → AreDistinct pools
    → All (λ q. get q.id d ≡ none) pools
    → Perm (pools_of (index_pools pools d)) (pools ++ pools_of d) × IsIndex (index_pools pools d)
unfolding index_pools
index_pools-perm [] d index distinct fresh = (Perm.refl _, index)
index_pools-perm (p ∷ pools) d index distinct fresh =
    let all : All (λ q. get q.id (put p.id p d) ≡ none) pools =
      All-both (λ q. (p.id == q.id) ≡ false) (λ q. get q.id d ≡ none) _ pools
        (λ q differs absent. ground (arith, get-put p.id q.id p d)) distinct.0 fresh.1 in
    let rest =
      index_pools-perm pools (put p.id p d) (put-IsIndex p.id p d refl fresh.0 index) distinct.1
        all in
    (
      Perm.trans rest.0 (
          rw (put_fresh p.id p d fresh.0) (
            Perm.trans (Perm.append_left pools (perm_middle (pools_of d) []))
              (rw (append-nil (pools_of d)) (perm_middle pools (pools_of d))))),
      rest.1,
    )

nothing_indexed : (pools : List NodePool) → All (λ q. get {V = NodePool} q.id [] ≡ none) pools
unfolding get
nothing_indexed [] = tt
nothing_indexed (p ∷ pools) = (refl, nothing_indexed pools)

-- If the API's pools have distinct identifiers, none of them 0, and Go ranges over a map's entries in
-- any order, then in a result that matching returns without an error, the entries whose identifier is
-- not 0 are the API's pools, each once, in some order.
pub match_pools_with_schema-perm :
    (range : ℕ → Dict ℕ NodePool → Dict ℕ NodePool) (pools : List NodePool)
    (declared : List PoolBlock) (result : List NodePool)
    → Ranges range
    → AreDistinct pools
    → All (λ p. (p.id == 0) ≡ false) pools
    → match_pools_with_schema range pools declared ≡ ok result
    → Perm (keep has_id result) pools
unfolding match_pools_with_schema
match_pools_with_schema-perm range pools declared result ranges distinct positive h =
    let (by_id, e1, h1) = >>=-eq-ok (pair_by_id declared (index_pools pools [])) _ h in
    let (pairing, e2, h2) = >>=-eq-ok (pair_by_attributes range 0 declared by_id.0 by_id.1) _ h1 in
    let same : result ≡ map slot_or_zero pairing.0 ++ pools_of (range (length declared) pairing.1) =
      cc in
    let indexed = index_pools-perm pools [] tt distinct (nothing_indexed pools) in
    let first = pair_by_id-perm declared (index_pools pools []) by_id indexed.1 e1 in
    let second =
      pair_by_attributes-perm range ranges 0 declared by_id.0 by_id.1 pairing first.1
        (length-pair_by_id declared (index_pools pools []) by_id e1) e2 in
    let whole : Perm (somes pairing.0 ++ pools_of (range (length declared) pairing.1)) pools =
      Perm.trans
        (Perm.append_left (somes pairing.0)
          (Perm.map (λ e. e.1) (ranges.reorders (length declared) pairing.1)))
        (Perm.trans second (
          Perm.trans first.0
            (subst (Perm (pools_of (index_pools pools []))) (append-nil pools) indexed.0))) in
    rw (same, keep_slots pairing.0 (pools_of (range (length declared) pairing.1)))
      (subst (Perm _) (keep-All pools positive) (keep-perm has_id whole))
