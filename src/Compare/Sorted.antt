-- ===== src/Compare/Sorted.antt =====
-- CompareStringSets decides whether two lists are permutations: sorting forgets exactly the order.
use mathlib.Core.Bool.{Bool-set}
use mathlib.Core.List.{Perm, Permᴰ}
use mathlib.Core.List.Perm
use mathlib.Core.Logic.{∥∥₁_elim}
use terraform_provider_linod.Prelude.Alls.{All-map}
use terraform_provider_linod.Prelude.{
  All, String, ◌≡◌, refl, ap, ◌∙◌, ◌↔◌, true, inl, inr, List, [], ◌∷◌, arith, Eq, list_eq,
  string_eq, ==_iff, ◌==◌, Bool-cases,
}
use terraform_provider_linod.Prelude.TextOrder.{
  text_leb, text_leb_total, text_leb_antisymm, text_leb_trans,
}
use terraform_provider_linod.Compare.{insert_by, sort_by, compare_string_sets}

module _ {ℓ} {A : Type ℓ} (print : A → String) where
  insert_by-perm : (x : A) (xs : List A) → Perm (insert_by print x xs) (x ∷ xs)
  unfolding insert_by
  insert_by-perm x [] = Perm.refl _
  insert_by-perm x (y ∷ ys) = elim (Bool-cases (text_leb (print x) (print y))) [
    | inl le ↦ rw le (Perm.refl _)
    | inr gt ↦ rw gt (Perm.trans (Perm.cons y (insert_by-perm x ys)) (Perm.swap x y ys))
  ]

  pub sort_by-perm : (xs : List A) → Perm (sort_by print xs) xs
  unfolding sort_by
  sort_by-perm [] = Perm.refl []
  sort_by-perm (x ∷ xs) =
      Perm.trans (insert_by-perm x (sort_by print xs)) (Perm.cons x (sort_by-perm xs))

  -- Each element comes before those after it.
  abbrev pub IsSorted : List A → Type 0
  IsSorted [] = Unit
  IsSorted (x ∷ xs) = All (λ y. text_leb (print x) (print y) ≡ true) xs × IsSorted xs

  insert_by-All :
      (P : A → Type 0) (x : A) (ys : List A) → P x → All P ys → All P (insert_by print x ys)
  unfolding insert_by
  insert_by-All P x [] here later = (here, tt)
  insert_by-All P x (y ∷ ys) here (first, later) =
      elim (Bool-cases (text_leb (print x) (print y))) [
        | inl le ↦ rw le (here, (first, later))
        | inr gt ↦ rw gt (first, insert_by-All P x ys here later)
      ]

  insert_by-IsSorted : (x : A) (ys : List A) → IsSorted ys → IsSorted (insert_by print x ys)
  unfolding insert_by
  insert_by-IsSorted x [] sorted = (tt, tt)
  insert_by-IsSorted x (y ∷ ys) (before, sorted) =
      elim (Bool-cases (text_leb (print x) (print y))) [
        | inl le ↦ rw le (
          (le, All-map _ _ ys (λ z h. text_leb_trans (print x) (print y) (print z) le h) before),
          (before, sorted),
        )
        | inr gt ↦ rw gt (
          insert_by-All _ x ys (ground (arith, gt, text_leb_total (print x) (print y))) before,
          insert_by-IsSorted x ys sorted,
        )
      ]

  pub sort_by-IsSorted : (xs : List A) → IsSorted (sort_by print xs)
  unfolding sort_by
  sort_by-IsSorted [] = tt
  sort_by-IsSorted (x ∷ xs) = insert_by-IsSorted x (sort_by print xs) (sort_by-IsSorted xs)

  module _ (injective : (x y : A) → print x ≡ print y → x ≡ y) where
    same_place :
        (x y : A)
        → text_leb (print x) (print y) ≡ true
        → text_leb (print y) (print x) ≡ true
        → x ≡ y
    same_place x y h k = injective x y (text_leb_antisymm (print x) (print y) h k)

    insert_by_comm :
        (x y : A) (zs : List A)
        → insert_by print x (insert_by print y zs) ≡ insert_by print y (insert_by print x zs)
    unfolding insert_by
    insert_by_comm x y [] = ground (arith, same_place x y, text_leb_total (print x) (print y))
    insert_by_comm x y (z ∷ zs) = ground (
      arith,
      same_place x y,
      text_leb_total (print x) (print y),
      insert_by_comm x y zs,
      text_leb_trans (print x) (print y) (print z),
      text_leb_trans (print y) (print x) (print z),
    )

    sort_by-permᴰ : {xs ys : List A} → Permᴰ xs ys → sort_by print xs ≡ sort_by print ys
    unfolding sort_by
    sort_by-permᴰ Permᴰ.nil = refl
    sort_by-permᴰ (Permᴰ.cons {b = b} e p) = rw e (ap (insert_by print b) (sort_by-permᴰ p))
    sort_by-permᴰ (Permᴰ.swap {a' = a'} {b' = b'} {l = l} e f) =
        rw (e, f) (insert_by_comm b' a' (sort_by print l))
    sort_by-permᴰ (Permᴰ.trans p q) = sort_by-permᴰ p ∙ sort_by-permᴰ q

    module _ ⦃e : Eq A⦄ where
      sorted_alike_iff :
          (xs ys : List A) → ((sort_by print xs == sort_by print ys) ≡ true) ↔ Perm xs ys
      sorted_alike_iff xs ys = (
        λ h.
            Perm.trans (Perm.symm (sort_by-perm xs))
              (rw (← (==_iff (sort_by print xs) (sort_by print ys)).0 h) at (sort_by-perm ys)),
        λ p. ∥∥₁_elim p (Bool-set _ _) (λ d. (==_iff _ _).1 (sort_by-permᴰ d)),
      )

-- CompareStringSets returns true exactly when one list is a permutation of the other.
pub compare_string_sets_iff : (a b : List String) → (compare_string_sets a b ≡ true) ↔ Perm a b
unfolding compare_string_sets
compare_string_sets_iff [] [] = ((λ h. Perm.refl []), (λ h. refl))
compare_string_sets_iff (x ∷ a) b = sorted_alike_iff (λ s. s) (λ x y h. h) (x ∷ a) b
compare_string_sets_iff [] (y ∷ b) = sorted_alike_iff (λ s. s) (λ x y h. h) [] (y ∷ b)
