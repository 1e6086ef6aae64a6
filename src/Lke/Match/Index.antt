-- ===== src/Lke/Match/Index.antt =====
-- The index of the API's pools, and what the first loop of matchPoolsWithSchema takes out of it.
use mathlib.Core.List.{Perm}
use mathlib.Core.List.Perm
use terraform_provider_linod.Prelude.{
  ℕ, Bool, true, false, ◌≡◌, refl, Option, none, some, List, [], ◌∷◌, ◌++◌, map, ok, >>=-eq-ok,
  ◌==◌, ==_iff, nat_eq, arith, if◌then◌else◌,
}
use terraform_provider_linod.Prelude.Dict.{Dict, get, delete, get-delete}
use terraform_provider_linod.Lke.Specs.{PoolBlock}
use terraform_provider_linod.Lke.Match.{NodePool, Pairing, block_id, pair_by_id}

abbrev pub pools_of : Dict ℕ NodePool → List NodePool
pools_of d = map (λ e. e.1) d

-- Every pool stands under its identifier, once.
abbrev pub IsIndex : Dict ℕ NodePool → Type 0
IsIndex [] = Unit
IsIndex ((k, p) ∷ d) = (p.id ≡ k) × (get k d ≡ none) × IsIndex d

pub delete-absent : (k : ℕ) (d : Dict ℕ NodePool) → get k d ≡ none → delete k d ≡ d
unfolding get delete
delete-absent k [] h = refl
delete-absent k ((j, p) ∷ d) h = ground (arith, delete-absent k d)

if_IsIndex :
    (b : Bool) (xs ys : Dict ℕ NodePool) → IsIndex xs → IsIndex ys → IsIndex (if b then xs else ys)
if_IsIndex true xs ys hx hy = hx
if_IsIndex false xs ys hx hy = hy

pub delete-IsIndex : (k : ℕ) (d : Dict ℕ NodePool) → IsIndex d → IsIndex (delete k d)
unfolding delete
delete-IsIndex k [] h = tt
delete-IsIndex k ((j, p) ∷ d) h =
    let rest = delete-IsIndex k d h.2 in
    if_IsIndex (j == k) _ _ rest (h.0, ground (arith, get-delete k j d), rest)

delete_step :
    (b : Bool) (j : ℕ) (p q : NodePool) (found : Option NodePool) (rest d : Dict ℕ NodePool)
    → (if b then some q else found) ≡ some p
    → (b ≡ true → rest ≡ d)
    → (found ≡ some p → Perm (p ∷ pools_of rest) (pools_of d))
    → Perm (p ∷ pools_of (if b then rest else (j, q) ∷ rest)) (q ∷ pools_of d)
delete_step true j p q found rest d e hit miss =
    let same : p ≡ q = cc in rw (same, hit refl) (Perm.refl _)
delete_step false j p q found rest d e hit miss =
    Perm.trans (Perm.swap q p (pools_of rest)) (Perm.cons q (miss e))

-- Taking a pool out of the index leaves the others.
pub delete-perm :
    (k : ℕ) (d : Dict ℕ NodePool) (p : NodePool)
    → IsIndex d
    → get k d ≡ some p
    → Perm (p ∷ pools_of (delete k d)) (pools_of d)
unfolding get delete
delete-perm k [] p h e = absurd (cc)
delete-perm k ((j, q) ∷ d) p h e =
    delete_step (j == k) j p q (get k d) (delete k d) d e
      (λ same. delete-absent k d (ground (arith, ==_iff j k))) (delete-perm k d p h.2)

-- What a slot holds.
abbrev pub held : Option NodePool → List NodePool
held none = []
held (some p) = p ∷ []

abbrev pub somes : List (Option NodePool) → List NodePool
somes [] = []
somes (slot ∷ slots) = held slot ++ somes slots

taken :
    (k : ℕ) (d : Dict ℕ NodePool) (found : Option NodePool)
    → IsIndex d
    → get k d ≡ found
    → Perm (held found ++ pools_of (delete k d)) (pools_of d)
taken k d none h e = rw (delete-absent k d e) (Perm.refl _)
taken k d (some p) h e = delete-perm k d p h e

pub slot_perm :
    (found : Option NodePool) (xs ys zs : List NodePool)
    → Perm xs ys
    → Perm (held found ++ ys) zs
    → Perm (held found ++ xs) zs
slot_perm none xs ys zs h e = Perm.trans h e
slot_perm (some p) xs ys zs h e = Perm.trans (Perm.cons p h) e

pub append_held :
    (found : Option NodePool) (xs ys : List NodePool)
    → (held found ++ xs) ++ ys ≡ held found ++ (xs ++ ys)
append_held none xs ys = refl
append_held (some p) xs ys = refl

pub pair_by_id-perm :
    (declared : List PoolBlock) (api : Dict ℕ NodePool) (pairing : Pairing)
    → IsIndex api
    → pair_by_id declared api ≡ ok pairing
    → Perm (somes pairing.0 ++ pools_of pairing.1) (pools_of api) × IsIndex pairing.1
unfolding pair_by_id
pair_by_id-perm [] api pairing index h =
    let same : pairing ≡ ([], api) = cc in rw same (Perm.refl _, index)
pair_by_id-perm (b ∷ declared) api pairing index h =
    let (id, e1, h1) = >>=-eq-ok (block_id b.id) _ h in
    let (inner, e2, h2) = >>=-eq-ok (pair_by_id declared (delete id api)) _ h1 in
    let same : pairing ≡ (get id api ∷ inner.0, inner.1) = cc in
    let rest = pair_by_id-perm declared (delete id api) inner (delete-IsIndex id api index) e2 in
    rw (same, append_held (get id api) (somes inner.0) (pools_of inner.1))
      (slot_perm (get id api) _ _ _ rest.0 (taken id api (get id api) index refl), rest.1)
