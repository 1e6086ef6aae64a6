-- ===== src/Prelude/Alls.antt =====
-- What holds of all elements of a list or all entries of a map, and what finds them.
use mathlib.Core.Path.{◌≡◌, refl, subst}
use mathlib.Core.Bool.{Bool, true, false}
use mathlib.Core.Logic.{inl, inr}
use mathlib.Core.Option.{some}
use mathlib.Core.List.{List, [], ◌∷◌}
use Prim.Native.String.{String}
use native.Mathlib.Omega.{arith}
use terraform_provider_linod.Prelude.Tests.{if◌then◌else◌, Bool-cases}
use terraform_provider_linod.Prelude.Lists.{All, any}
use terraform_provider_linod.Prelude.Equality.{◌==◌, ==_iff, string_eq}
use terraform_provider_linod.Prelude.Dict.{Dict, get, put}

module _ {ℓ} {A : Type ℓ} where
  pub All-map : (P Q : A → Type 0) (xs : List A) → ((x : A) → P x → Q x) → All P xs → All Q xs
  All-map P Q [] f all = tt
  All-map P Q (x ∷ xs) f all = (f x all.0, All-map P Q xs f all.1)

module _ {A : Type 0} where
  pub if_All :
      (P : A → Type 0) (b : Bool) (xs ys : List A)
      → All P xs
      → (b ≡ false → All P ys)
      → All P (if b then xs else ys)
  if_All P true xs ys hx hy = hx
  if_All P false xs ys hx hy = hy refl

  pub any_imp :
      (p q : A → Bool) (xs : List A)
      → ((x : A) → p x ≡ true → q x ≡ true)
      → any p xs ≡ true
      → any q xs ≡ true
  any_imp p q (x ∷ xs) f h = ground (arith, f x, any_imp p q xs f)
  any_imp p q [] f h = h

  -- Every element is found by a test that it passes itself.
  pub All-self :
      (p : A → A → Bool) (xs : List A)
      → ((x : A) → p x x ≡ true)
      → All (λ x. any (p x) xs ≡ true) xs
  All-self p [] f = tt
  All-self p (x ∷ xs) f =
      (ground (arith, f x), All-map _ _ xs (λ y h. ground arith) (All-self p xs f))

module _ {V : Type 0} (P : String × V → Type 0) where
  pub All-put : (k : String) (v : V) (m : Dict String V) → P (k, v) → All P m → All P (put k v m)
  unfolding put
  All-put k v [] p all = (p, tt)
  All-put k v ((j, w) ∷ m) p all =
      if_All P (j == k) _ _ (p, all.1) (λ e. (all.0, All-put k v m p all.1))

  -- What holds of all entries holds of one that is read.
  pub All-get : (k : String) (m : Dict String V) (v : V) → All P m → get k m ≡ some v → P (k, v)
  unfolding get
  All-get k [] v all e = cc
  All-get k ((j, w) ∷ m) v all e = elim (Bool-cases (j == k)) [
    | inl same ↦
        let key : j ≡ k = (==_iff j k).0 same in
        let value : w ≡ v = ground (arith, same, e) in
        subst (λ u. P (k, u)) value (subst (λ i. P (i, w)) key all.0)
    | inr other ↦ All-get k m v all.1 (ground (arith, other, e))
  ]
