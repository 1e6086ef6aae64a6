-- ===== src/Prelude/TextOrder.antt =====
-- The order of Go's strings: by code points, which is the order of their UTF-8 bytes.
use Prim.Native.Nat.{ℕ, Ordering, compare as compare_ℕ}
use Prim.Native.String.{String, [], ◌∷◌, then, compare}
use Prim.Native.String.compare
use Prim.Native.Char.{code}
use mathlib.Core.Path.{◌≡◌, refl}
use mathlib.Core.Bool.{Bool, true, false, ◌||◌}
use native.Mathlib.Omega.{arith}
use text.Mathlib.TextEquality.{path_by_compare}

abbrev swap : Ordering → Ordering
swap Ordering.lt = Ordering.gt
swap Ordering.eq = Ordering.eq
swap Ordering.gt = Ordering.lt

compare_ℕ-swap : (m n : ℕ) → compare_ℕ n m ≡ swap (compare_ℕ m n)
compare_ℕ-swap m n = ground arith

then-swap : (o r o' r' : Ordering) → o' ≡ swap o → r' ≡ swap r → then o' r' ≡ swap (then o r)
then-swap o r o' r' h k = ground arith

compare-swap : (s t : String) → compare t s ≡ swap (compare s t)
compare-swap [] [] = refl
compare-swap [] (d ∷ t) = rw (compare.nil-cons, compare.cons-nil)
compare-swap (c ∷ s) [] = rw (compare.nil-cons, compare.cons-nil)
compare-swap (c ∷ s) (d ∷ t) =
    rw (compare.cons-cons d c t s, compare.cons-cons c d s t)
      (then-swap _ _ _ _ (compare_ℕ-swap (code c) (code d)) (compare-swap s t))

abbrev not_gt : Ordering → Bool
not_gt Ordering.gt = false
not_gt _ = true

-- `s <= t`
abbrev pub text_leb : String → String → Bool
text_leb s t = not_gt (compare s t)

pub text_leb_total : (s t : String) → (text_leb s t || text_leb t s) ≡ true
text_leb_total s t = rw (compare-swap s t) (ground arith)

pub text_leb_antisymm : (s t : String) → text_leb s t ≡ true → text_leb t s ≡ true → s ≡ t
text_leb_antisymm s t h k = path_by_compare s t (ground (arith, compare-swap s t))

ℕ_trans :
    (a b c : ℕ) (p q r : Ordering)
    → not_gt (then (compare_ℕ a b) p) ≡ true
    → not_gt (then (compare_ℕ b c) q) ≡ true
    → (not_gt p ≡ true → not_gt q ≡ true → not_gt r ≡ true)
    → not_gt (then (compare_ℕ a c) r) ≡ true
ℕ_trans a b c p q r h k step = ground arith

pub text_leb_trans :
    (s t u : String) → text_leb s t ≡ true → text_leb t u ≡ true → text_leb s u ≡ true
text_leb_trans [] t [] h k = refl
text_leb_trans [] t (e ∷ u) h k = rw compare.nil-cons
text_leb_trans (c ∷ s) [] u h k = let e : text_leb (c ∷ s) [] ≡ false = rw compare.cons-nil in cc
text_leb_trans (c ∷ s) (d ∷ t) [] h k =
    let e : text_leb (d ∷ t) [] ≡ false = rw compare.cons-nil in cc
text_leb_trans (c ∷ s) (d ∷ t) (e ∷ u) h k = rw (compare.cons-cons c e s u) (
    ℕ_trans (code c) (code d) (code e) (compare s t) (compare t u) (compare s u)
      (rw (compare.cons-cons c d s t) at h) (rw (compare.cons-cons d e t u) at k)
      (text_leb_trans s t u))
