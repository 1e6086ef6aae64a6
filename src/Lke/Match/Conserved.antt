-- ===== src/Lke/Match/Conserved.antt =====
-- Matching neither loses nor repeats a pool.
use mathlib.Core.List.{Perm, perm_middle}
use mathlib.Core.List.Perm
use mathlib.Core.Path.{subst}
use terraform_provider_linod.Prelude.{
  ℕ, suc, String, Bool, true, false, ◌≡◌, refl, sym, ap, ◌∙◌, Option, none, some, List, [], ◌∷◌,
  ◌++◌, All, Result, ok, >>=-eq-ok, ◌==◌, ==_iff, ==_refl, nat_eq, arith, if◌then◌else◌, length,
}
use terraform_provider_linod.Prelude.Dict.{Dict, get}
use terraform_provider_linod.Prelude.Alls.{All-map}
use terraform_provider_linod.Lke.Specs.{PoolBlock}
use terraform_provider_linod.Lke.Match.{
  NodePool, Pairing, first_pair, is_pair, found_or, without, pair_by_attributes,
}
use terraform_provider_linod.Lke.Match.Index.{
  pools_of, IsIndex, held, somes, delete-IsIndex, delete-perm, append_held, slot_perm,
}

-- A pool that a loop over the map finds is one of the map's.
abbrev FoundIn : Dict ℕ NodePool → Option NodePool → Type 0
FoundIn d none = Unit
FoundIn d (some p) = get p.id d ≡ some p

abbrev pub IsEntry : Dict ℕ NodePool → ℕ × NodePool → Type 0
IsEntry d e = get e.0 d ≡ some e.1

id_step :
    (b : Bool) (j k : ℕ) (p q : NodePool) (rest : Option NodePool)
    → (j == k) ≡ b
    → q.id ≡ j
    → (rest ≡ some p → p.id ≡ k)
    → (if b then some q else rest) ≡ some p
    → p.id ≡ k
id_step true j k p q rest hit own later e =
    let same : q ≡ p = cc in
    let key : j ≡ k = (==_iff j k).0 hit in ap (λ (x : NodePool). x.id) (sym same) ∙ own ∙ key
id_step false j k p q rest miss own later e = later e

get_id : (k : ℕ) (d : Dict ℕ NodePool) (p : NodePool) → IsIndex d → get k d ≡ some p → p.id ≡ k
unfolding get
get_id k [] p h e = absurd (cc)
get_id k ((j, q) ∷ d) p h e = id_step (j == k) j k p q (get k d) refl h.0 (get_id k d p h.2) e

found_or-FoundIn :
    (d : Dict ℕ NodePool) (paired : Bool) (p : NodePool) (rest : Result String (Option NodePool))
    (found : Option NodePool)
    → FoundIn d (some p)
    → (rest ≡ ok found → FoundIn d found)
    → found_or p paired rest ≡ ok found
    → FoundIn d found
found_or-FoundIn d true p rest found here later h =
    let same : some p ≡ found = cc in subst (FoundIn d) same here
found_or-FoundIn d false p rest found here later h = later h

first_pair-FoundIn :
    (b : PoolBlock) (d es : Dict ℕ NodePool) (found : Option NodePool)
    → IsIndex d
    → All (IsEntry d) es
    → first_pair b es ≡ ok found
    → FoundIn d found
unfolding first_pair
first_pair-FoundIn b d [] found index all h =
    let same : none ≡ found = cc in subst (FoundIn d) same tt
first_pair-FoundIn b d ((k, p) ∷ es) found index all h =
    let (paired, e1, h1) = >>=-eq-ok (is_pair b p) _ h in
    found_or-FoundIn d paired p (first_pair b es) found
      (subst (λ n. get n d ≡ some p) (sym (get_id k d p index all.0)) all.0)
      (first_pair-FoundIn b d es found index all.1) h1

-- How Go ranges over a map: in some order, over the entries of the map.
pub record Ranges (range : ℕ → Dict ℕ NodePool → Dict ℕ NodePool) : Type 0 where
  pub reorders : (i : ℕ) (d : Dict ℕ NodePool) → Perm (range i d) d
  pub visits : (i : ℕ) (d : Dict ℕ NodePool) → IsIndex d → All (IsEntry d) (range i d)

own_step :
    (b : Bool) (j k : ℕ) (p q : NodePool) (d : Dict ℕ NodePool)
    → (j == k) ≡ b
    → get j d ≡ none
    → get k d ≡ some q
    → (if b then some p else get k d) ≡ some q
own_step true j k p q d e fresh h =
    let key : j ≡ k = (==_iff j k).0 e in
    let bad : none ≡ some q = sym fresh ∙ ap (λ n. get n d) key ∙ h in absurd (cc)
own_step false j k p q d e fresh h = h

own_entries : (d : Dict ℕ NodePool) → IsIndex d → All (IsEntry d) d
unfolding get
own_entries [] index = tt
own_entries ((j, p) ∷ d) index = (
  ground (arith, ==_refl j),
  All-map (IsEntry d) (IsEntry ((j, p) ∷ d)) d
      (λ e h. own_step (j == e.0) j e.0 p e.1 d refl index.1 h) (own_entries d index.2),
)

-- The order of the list is one in which Go may range.
pub in_order-Ranges : Ranges (λ i d. d)
in_order-Ranges = record {
  reorders = λ i d. Perm.refl d;
  visits = λ i d index. own_entries d index;
}

without_perm :
    (d : Dict ℕ NodePool) (found : Option NodePool)
    → IsIndex d
    → FoundIn d found
    → Perm (held found ++ pools_of (without found d)) (pools_of d)
without_perm d none index h = Perm.refl _
without_perm d (some p) index h = delete-perm p.id d p index h

without-IsIndex :
    (found : Option NodePool) (d : Dict ℕ NodePool) → IsIndex d → IsIndex (without found d)
without-IsIndex none d h = h
without-IsIndex (some p) d h = delete-IsIndex p.id d h

-- A found pool may stand before the slots or be put back into the map.
shift_found :
    (found : Option NodePool) (xs ys zs : List NodePool)
    → Perm (held found ++ ys) zs
    → Perm (held found ++ (xs ++ ys)) (xs ++ zs)
shift_found none xs ys zs h = Perm.append_left xs h
shift_found (some p) xs ys zs h = Perm.trans (Perm.symm (perm_middle xs ys)) (Perm.append_left xs h)

module _ (range : ℕ → Dict ℕ NodePool → Dict ℕ NodePool) (ranges : Ranges range) where
  pub pair_by_attributes-perm :
      (i : ℕ) (declared : List PoolBlock) (slots : List (Option NodePool)) (api : Dict ℕ NodePool)
      (pairing : Pairing)
      → IsIndex api
      → length slots ≡ length declared
      → pair_by_attributes range i declared slots api ≡ ok pairing
      → Perm (somes pairing.0 ++ pools_of pairing.1) (somes slots ++ pools_of api)
  unfolding pair_by_attributes
  pair_by_attributes-perm i [] slots api pairing index same h =
      let e : pairing ≡ (slots, api) = cc in rw e (Perm.refl _)
  pair_by_attributes-perm i (b ∷ declared) [] api pairing index same h = absurd (omega arith)
  pair_by_attributes-perm i (b ∷ declared) (some p ∷ slots) api pairing index same h =
      let (inner, e1, h1) = >>=-eq-ok (pair_by_attributes range (suc i) declared slots api) _ h in
      let e : pairing ≡ (some p ∷ inner.0, inner.1) = cc in
      rw e (
        Perm.cons p
          (pair_by_attributes-perm (suc i) declared slots api inner index (omega (arith, same)) e1))
  pair_by_attributes-perm i (b ∷ declared) (none ∷ slots) api pairing index same h =
      let (found, e0, h0) = >>=-eq-ok (first_pair b (range i api)) _ h in
      let (inner, e1, h1) =
        >>=-eq-ok (pair_by_attributes range (suc i) declared slots (without found api)) _ h0 in
      let e : pairing ≡ (found ∷ inner.0, inner.1) = cc in
      let there =
        first_pair-FoundIn b api (range i api) found index (ranges.visits i api index) e0 in
      let rest =
        pair_by_attributes-perm (suc i) declared slots (without found api) inner
          (without-IsIndex found api index) (omega (arith, same)) e1 in
      rw (e, append_held found (somes inner.0) (pools_of inner.1))
        (slot_perm found _ _ _ rest
          (shift_found found (somes slots) _ _ (without_perm api found index there)))
