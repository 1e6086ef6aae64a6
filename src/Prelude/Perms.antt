-- ===== src/Prelude/Perms.antt =====
-- What permutations keep.
use Prim.Native.Nat.{suc}
use mathlib.Core.Path.{◌≡◌, refl, ap, ◌∙◌}
use mathlib.Core.Bool.{Bool, true, false, ◌||◌, Bool-set}
use mathlib.Core.List.{List, Perm, Permᴰ}
use mathlib.Core.List.Permᴰ
use mathlib.Core.Logic.{∥∥₁_elim, ∥∥₁_map}
use native.Mathlib.Nat.{ℕ_set}
use native.Mathlib.Omega.{arith}
use terraform_provider_linod.Prelude.Lists.{length, any, keep, keep_head}

module _ {ℓ} {A : Type ℓ} where
  length-permᴰ : {xs ys : List A} → Permᴰ xs ys → length xs ≡ length ys
  length-permᴰ Permᴰ.nil = refl
  length-permᴰ (Permᴰ.cons e p) = ap suc (length-permᴰ p)
  length-permᴰ (Permᴰ.swap e f) = refl
  length-permᴰ (Permᴰ.trans p q) = length-permᴰ p ∙ length-permᴰ q

  pub length-perm : {xs ys : List A} → Perm xs ys → length xs ≡ length ys
  length-perm p = ∥∥₁_elim p (ℕ_set _ _) length-permᴰ

  keep_head-permᴰ :
      (b : Bool) (x : A) {xs ys : List A}
      → Permᴰ xs ys
      → Permᴰ (keep_head b x xs) (keep_head b x ys)
  keep_head-permᴰ true x p = Permᴰ.cons refl p
  keep_head-permᴰ false x p = p

  keep_head_swap :
      (b c : Bool) (x y : A) (zs : List A)
      → Permᴰ (keep_head b x (keep_head c y zs)) (keep_head c y (keep_head b x zs))
  keep_head_swap true true x y zs = Permᴰ.swap refl refl
  keep_head_swap true false x y zs = Permᴰ.refl _
  keep_head_swap false c x y zs = Permᴰ.refl _

  keep-permᴰ : (p : A → Bool) {xs ys : List A} → Permᴰ xs ys → Permᴰ (keep p xs) (keep p ys)
  keep-permᴰ p Permᴰ.nil = Permᴰ.nil
  keep-permᴰ p (Permᴰ.cons {b = b} e d) = rw e (keep_head-permᴰ (p b) b (keep-permᴰ p d))
  keep-permᴰ p (Permᴰ.swap {a' = a'} {b' = b'} {l = l} e f) =
      rw (e, f) (keep_head_swap (p b') (p a') b' a' (keep p l))
  keep-permᴰ p (Permᴰ.trans d d') = Permᴰ.trans (keep-permᴰ p d) (keep-permᴰ p d')

  pub keep-perm : (p : A → Bool) {xs ys : List A} → Perm xs ys → Perm (keep p xs) (keep p ys)
  keep-perm p = λ d. ∥∥₁_map d (keep-permᴰ p)

  any-permᴰ : (p : A → Bool) {xs ys : List A} → Permᴰ xs ys → any p xs ≡ any p ys
  any-permᴰ p Permᴰ.nil = refl
  any-permᴰ p (Permᴰ.cons {b = b} e d) = rw e (ap (λ r. p b || r) (any-permᴰ p d))
  any-permᴰ p (Permᴰ.swap {a' = a'} {b' = b'} {l = l} e f) = rw (e, f) (ground arith)
  any-permᴰ p (Permᴰ.trans d d') = any-permᴰ p d ∙ any-permᴰ p d'

  pub any-perm : (p : A → Bool) {xs ys : List A} → Perm xs ys → any p xs ≡ any p ys
  any-perm p d = ∥∥₁_elim d (Bool-set _ _) (any-permᴰ p)
