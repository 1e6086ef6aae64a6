-- ===== src/Prelude/Runs.antt =====
-- Programs that call an API: a run gives a result or an error, and the calls made, the latest first.
-- Then how a run is followed from call to call: `Sure` says what holds where it succeeds, and `Kept`
-- what holds of its calls, failed runs included, each judged by what was called before it.
use Prim.Native.String.{String, ◌++◌ as append}
use mathlib.Core.Path.{◌≡◌, refl, subst}
use mathlib.Core.Logic.{◌⊎◌}
use mathlib.Core.List.{List, [], ◌∷◌}
use terraform_provider_linod.Prelude.Results.{Result, ok, err}

-- A function that calls the API: its result and the calls after it.
abbrev pub Runs : Type 0 → Type 0 → Type 0
Runs C A = List C → Result String A × List C

abbrev pub done : {C A : Type 0} → A → Runs C A
done a h = (ok a, h)

abbrev pub fail : {C A : Type 0} → String → Runs C A
fail message h = (err message, h)

unfoldable pub after :
    {C A B : Type 0} → (A → Runs C B) → Result String A × List C → Result String B × List C
after f (ok a, h) = f a h
after f (err e, h) = (err e, h)

infixl 5 ◌>>=◌
abbrev pub ◌>>=◌ : {C A B : Type 0} → Runs C A → (A → Runs C B) → Runs C B
(m >>= f) h = after f (m h)

infixl 5 ◌>>◌
abbrev pub ◌>>◌ : {C A B : Type 0} → Runs C A → Runs C B → Runs C B
(m >> n) h = after (λ a. n) (m h)

-- `if err != nil { return fmt.Errorf("… %s", err) }`; a message is kept up to its first argument.
unfoldable pub explained :
    {C A : Type 0} → String → Result String A × List C → Result String A × List C
explained message (ok a, h) = (ok a, h)
explained message (err e, h) = (err (append message e), h)

abbrev pub or_fail : {C A : Type 0} → String → Runs C A → Runs C A
or_fail message m h = explained message (m h)

-- A step that calls nothing.
abbrev pub lift : {C A : Type 0} → Result String A → Runs C A
lift r h = (r, h)

-- What holds of the value and the history of a run that succeeds.
unfoldable pub Sure : {C A : Type 0} → (A → List C → Type 0) → Result String A × List C → Type 0
Sure Q (ok a, h) = Q a h
Sure Q (err e, h) = Unit

module _ {C A : Type 0} where
  pub Sure-holds :
      (Q : A → List C → Type 0) {r : Result String A × List C} {a : A} {h : List C}
      → Sure Q r
      → r ≡ (ok a, h)
      → Q a h
  unfolding Sure
  Sure-holds Q sure e = subst (Sure Q) e sure

  pub Sure-explained :
      (Q : A → List C → Type 0) (message : String) (r : Result String A × List C)
      → Sure Q r
      → Sure Q (explained message r)
  unfolding Sure explained
  Sure-explained Q message (ok a, h) sure = sure
  Sure-explained Q message (err e, h) sure = tt

  pub Sure-done : (Q : A → List C → Type 0) (a : A) (h : List C) → Q a h → Sure Q (ok a, h)
  unfolding Sure
  Sure-done Q a h q = q

  pub Sure-fail : (Q : A → List C → Type 0) (e : String) (h : List C) → Sure Q (err e, h)
  unfolding Sure
  Sure-fail Q e h = tt

  pub Sure-any : (r : Result String A × List C) → Sure (λ a h. Unit) r
  unfolding Sure
  Sure-any (ok a, h) = tt
  Sure-any (err e, h) = tt

  pub Sure-map :
      (Q R : A → List C → Type 0) (r : Result String A × List C)
      → ((a : A) (h : List C) → Q a h → R a h)
      → Sure Q r
      → Sure R r
  unfolding Sure
  Sure-map Q R (ok a, h) f sure = f a h sure
  Sure-map Q R (err e, h) f sure = tt

  pub Sure-both :
      (Q R : A → List C → Type 0) (r : Result String A × List C)
      → Sure Q r
      → Sure R r
      → Sure (λ a h. Q a h × R a h) r
  unfolding Sure
  Sure-both Q R (ok a, h) q r = (q, r)
  Sure-both Q R (err e, h) q r = tt

  -- The last call of a program,
  pub Sure-last :
      (Q : A → List C → Type 0) (answer : Result String A) (h : List C)
      → ((a : A) → answer ≡ ok a → Q a h)
      → Sure Q (answer, h)
  unfolding Sure
  Sure-last Q (ok a) h sure = sure a refl
  Sure-last Q (err e) h sure = tt

  module _ {B : Type 0} (R : B → List C → Type 0) where
    -- a call before others, its error explained or passed on,
    pub Sure-step :
        (message : String) (answer : Result String A) (f : A → Runs C B) (h : List C)
        → ((a : A) → answer ≡ ok a → Sure R (f a h))
        → Sure R (after f (explained message (answer, h)))
    unfolding Sure after explained
    Sure-step message (ok a) f h next = next a refl
    Sure-step message (err e) f h next = tt

    pub Sure-call :
        (answer : Result String A) (f : A → Runs C B) (h : List C)
        → ((a : A) → answer ≡ ok a → Sure R (f a h))
        → Sure R (after f (answer, h))
    unfolding Sure after
    Sure-call (ok a) f h next = next a refl
    Sure-call (err e) f h next = tt

    -- and a program before others.
    pub Sure-after :
        (Q : A → List C → Type 0) (r : Result String A × List C) (f : A → Runs C B)
        → Sure Q r
        → ((a : A) (h : List C) → Q a h → Sure R (f a h))
        → Sure R (after f r)
    unfolding Sure after
    Sure-after Q (ok a, h) f sure next = next a h sure
    Sure-after Q (err e, h) f sure next = tt

abbrev pub Every : {C : Type 0} → (C → List C → Type 0) → List C → Type 0
Every P [] = Unit
Every P (c ∷ h) = P c h × Every P h

unfoldable pub Kept : {C A : Type 0} → (C → List C → Type 0) → Result String A × List C → Type 0
Kept P r = Every P r.1

module _ {C : Type 0} (P : C → List C → Type 0) {A : Type 0} where
  pub Kept-holds : (r : Result String A × List C) → Kept P r → Every P r.1
  unfolding Kept
  Kept-holds r kept = kept

  pub Kept-explained :
      (message : String) (r : Result String A × List C) → Kept P r → Kept P (explained message r)
  unfolding Kept explained
  Kept-explained message (ok a, h) kept = kept
  Kept-explained message (err e, h) kept = kept

  -- A program that ends, or its last call,
  pub Kept-last : (answer : Result String A) (h : List C) → Every P h → Kept P (answer, h)
  unfolding Kept
  Kept-last answer h kept = kept

  module _ {B : Type 0} where
    -- a call before others, its error explained or passed on,
    pub Kept-step :
        (message : String) (answer : Result String A) (f : A → Runs C B) (h : List C)
        → Every P h
        → ((a : A) → answer ≡ ok a → Every P h → Kept P (f a h))
        → Kept P (after f (explained message (answer, h)))
    unfolding Kept after explained
    Kept-step message (ok a) f h kept next = next a refl kept
    Kept-step message (err e) f h kept next = kept

    pub Kept-call :
        (answer : Result String A) (f : A → Runs C B) (h : List C)
        → Every P h
        → ((a : A) → answer ≡ ok a → Every P h → Kept P (f a h))
        → Kept P (after f (answer, h))
    unfolding Kept after
    Kept-call (ok a) f h kept next = next a refl kept
    Kept-call (err e) f h kept next = kept

    -- a program before others, of whose success something more may be known.
    pub Kept-after :
        (Q : A → List C → Type 0) (r : Result String A × List C) (f : A → Runs C B)
        → Kept P r
        → Sure Q r
        → ((a : A) (h : List C) → Every P h → Q a h → Kept P (f a h))
        → Kept P (after f r)
    unfolding Kept Sure after
    Kept-after Q (ok a, h) f kept sure next = next a h kept sure
    Kept-after Q (err e, h) f kept sure next = kept

    pub Kept-then :
        (r : Result String A × List C) (f : A → Runs C B)
        → Kept P r
        → ((a : A) (h : List C) → Every P h → Kept P (f a h))
        → Kept P (after f r)
    unfolding Kept after
    Kept-then (ok a, h) f kept next = next a h kept
    Kept-then (err e, h) f kept next = kept

-- A call that was made, judged by what was called before it.
abbrev pub Made : {C : Type 0} → (C → List C → Type 0) → List C → Type 0
Made P [] = ⊥
Made P (c ∷ h) = P c h ⊎ Made P h
