-- ===== src/Compare/Multiset.antt =====
-- StringListElementsEqual decides whether two lists are permutations of one another.
use mathlib.Core.List.{Perm, Permᴰ}
use mathlib.Core.List.Perm
use mathlib.Core.Logic.{∥∥₁_elim}
use native.Mathlib.Nat.{ℕ_set}
use terraform_provider_linod.Prelude.{
  ℕ, ◌+◌, ◌-◌, ◌≤◌, ◌<◌, String, ◌≡◌, refl, ◌∙◌, ◌↔◌, true, inl, inr, List, [], ◌∷◌, arith, length,
  nat_eq, string_eq, ==_iff, ◌==◌, if◌then◌else◌, Bool-cases,
}
use terraform_provider_linod.Prelude.Dict.{Dict, get, put, get-put}
use terraform_provider_linod.Prelude.Perms.{length-perm}
use terraform_provider_linod.Compare.{frequency, tally, drain, string_list_elements_equal}

count : String → List String → ℕ
count x [] = 0
count x (y ∷ ys) = (if y == x then 1 else 0) + count x ys

erase : String → List String → List String
erase x [] = []
erase x (y ∷ ys) = if y == x then ys else y ∷ erase x ys

frequency-nil : (x : String) → frequency x [] ≡ 0
unfolding frequency get
frequency-nil x = refl

frequency-put :
    (v x : String) (n : ℕ) (freq : Dict String ℕ)
    → frequency x (put v n freq) ≡ (if v == x then n else frequency x freq)
unfolding frequency
frequency-put v x n freq = ground (arith, get-put v x n freq)

frequency-tally :
    (a : List String) (freq : Dict String ℕ) (x : String)
    → frequency x (tally a freq) ≡ count x a + frequency x freq
unfolding tally count
frequency-tally [] freq x = omega arith
frequency-tally (v ∷ a) freq x = ground (
  arith,
  frequency-tally a (put v (frequency v freq + 1) freq) x,
  frequency-put v x (frequency v freq + 1) freq,
  ==_iff v x,
)

-- `drain` succeeds exactly when every text occurs at most as often as it was counted.
drain_sound :
    (b : List String) (freq : Dict String ℕ)
    → drain b freq ≡ true
    → (x : String) → count x b ≤ frequency x freq
unfolding drain count
drain_sound [] freq h x = omega arith
drain_sound (v ∷ b) freq h x = ground (
  arith,
  drain_sound b (put v (frequency v freq - 1) freq) (ground arith) x,
  frequency-put v x (frequency v freq - 1) freq,
  ==_iff v x,
)

drain_complete :
    (b : List String) (freq : Dict String ℕ)
    → ((x : String) → count x b ≤ frequency x freq)
    → drain b freq ≡ true
unfolding drain count
drain_complete [] freq h = refl
drain_complete (v ∷ b) freq h = ground (
  arith,
  ==_iff v v,
  h v,
  drain_complete b (put v (frequency v freq - 1) freq)
      (λ x. ground (arith, h x, h v, frequency-put v x (frequency v freq - 1) freq, ==_iff v x)),
)

perm-erase : (x : String) (xs : List String) → 0 < count x xs → Perm (x ∷ erase x xs) xs
unfolding count erase
perm-erase x [] h = absurd (omega arith)
perm-erase x (y ∷ ys) h = elim (Bool-cases (y == x)) [
  | inl same ↦ rw same (rw ((==_iff y x).0 same) (Perm.refl _))
  | inr other ↦
      rw other
        (Perm.trans (Perm.swap y x (erase x ys)) (Perm.cons y (perm-erase x ys (ground arith))))
]

count-permᴰ : {xs ys : List String} (x : String) → Permᴰ xs ys → count x xs ≡ count x ys
unfolding count
count-permᴰ x Permᴰ.nil = refl
count-permᴰ x (Permᴰ.cons e p) = cc (e, count-permᴰ x p)
count-permᴰ x (Permᴰ.swap e f) = rw (e, f) (omega arith)
count-permᴰ x (Permᴰ.trans p q) = count-permᴰ x p ∙ count-permᴰ x q

count-perm : {xs ys : List String} (x : String) → Perm xs ys → count x xs ≡ count x ys
count-perm x p = ∥∥₁_elim p (ℕ_set _ _) (count-permᴰ x)

perm_of_bounded :
    (a b : List String) → length a ≡ length b → ((x : String) → count x b ≤ count x a) → Perm a b
unfolding count
perm_of_bounded [] [] n h = Perm.refl []
perm_of_bounded (x ∷ a) [] n h = absurd (omega arith)
perm_of_bounded a (y ∷ b) n h = Perm.trans (Perm.symm shifted) (
    Perm.cons y (
      perm_of_bounded (erase y a) b (omega (arith, length-perm shifted))
        (λ x. omega (arith, h x, count-perm x shifted))))
  where
    shifted : Perm (y ∷ erase y a) a
    shifted = perm-erase y a (ground (arith, h y, ==_iff y y))

-- StringListElementsEqual returns true exactly when one list is a permutation of the other, that is,
-- when they hold the same strings, each as often.
pub string_list_elements_equal_iff :
    (a b : List String) → (string_list_elements_equal a b ≡ true) ↔ Perm a b
unfolding string_list_elements_equal
string_list_elements_equal_iff a b = (forth, back)
  where
    counted : (x : String) → frequency x (tally a []) ≡ count x a
    counted x = omega (arith, frequency-tally a [] x, frequency-nil x)

    forth : string_list_elements_equal a b ≡ true → Perm a b
    forth h =
        perm_of_bounded a b (ground (arith, ==_iff (length a) (length b)))
          (λ x. omega (arith, counted x, drain_sound b (tally a []) (ground arith) x))

    back : Perm a b → string_list_elements_equal a b ≡ true
    back p = ground (
      arith,
      length-perm p,
      drain_complete b (tally a []) (λ x. omega (arith, counted x, count-perm x p)),
    )
