-- ===== src/Helpers/Retries.antt =====
-- WithRetries of linode/helper/retry.go.
use mathlib.Core.Path.{subst}
use terraform_provider_linod.Prelude.{
  ℕ, zero, suc, ◌+◌, ◌≤◌, ◌<◌, String, Bool, Bool-cases, ltb, true, false, ◌≡◌, refl, sym, ◌⊎◌, inl,
  inr, Option, none, some, Result, ok, err, arith,
}

-- What the function gives at an attempt: no error, or whether to retry, and the error.
abbrev pub RetryFunc : Type 0
RetryFunc = ℕ → Option (Bool × String)

-- The result, and how often the function was called.
abbrev pub Attempts : Type 0
Attempts = Result String Unit × ℕ

abbrev pub go_on : Bool → ℕ → Attempts → Attempts
go_on true current_attempt rest = rest
go_on false current_attempt rest = (err "got non-retryable error (attempt ", suc current_attempt)

abbrev pub judge : Option (Bool × String) → ℕ → Attempts → Attempts
judge none current_attempt rest = (ok tt, suc current_attempt)
judge (some (can_retry, e)) current_attempt rest = go_on can_retry current_attempt rest

unfoldable pub retry_from : ℕ → ℕ → RetryFunc → Attempts
retry_from zero current_attempt retry_func = (err "failed after ", current_attempt)
retry_from (suc left) current_attempt retry_func =
    judge (retry_func current_attempt) current_attempt
      (retry_from left (suc current_attempt) retry_func)

unfoldable pub with_retries : ℕ → RetryFunc → Attempts
with_retries max_retries retry_func = retry_from max_retries 0 retry_func

-- The error may go away.
abbrev pub IsRetried : Option (Bool × String) → Type 0
IsRetried none = ⊥
IsRetried (some (can_retry, e)) = can_retry ≡ true

-- The last call gave an error that is not retried, which the message says.
abbrev pub IsRefused : RetryFunc → String → ℕ → Type 0
IsRefused retry_func e calls =
    (n : ℕ) × (m : String) × (calls ≡ suc n)
    × (retry_func n ≡ some (false, m))
    × (e ≡ "got non-retryable error (attempt ")

-- All calls are used up, and every one gave an error that is retried, which the message says.
abbrev pub IsUsedUp : ℕ → ℕ → RetryFunc → String → ℕ → Type 0
IsUsedUp max current retry_func e calls =
    (calls ≡ max)
    × (e ≡ "failed after ")
    × ((j : ℕ) → current ≤ j → j < max → IsRetried (retry_func j))

-- How the result comes from the calls from an attempt on.
abbrev pub Ends : ℕ → ℕ → RetryFunc → Attempts → Type 0
Ends max current retry_func (ok a, calls) = (n : ℕ) × (calls ≡ suc n) × (retry_func n ≡ none)
Ends max current retry_func (err e, calls) =
    IsUsedUp max current retry_func e calls ⊎ IsRefused retry_func e calls

-- A run from an attempt on: no more than so many calls, an end, and errors to retry before it.
abbrev pub IsRun : ℕ → ℕ → RetryFunc → Attempts → Type 0
IsRun max current f r =
    (r.1 ≤ max)
    × (current ≤ r.1)
    × Ends max current f r
    × ((j : ℕ) → current ≤ j → suc j < r.1 → IsRetried (f j))

-- Errors to retry from the next attempt on, and at this one.
IsRetried-from :
    (current j : ℕ) (m : String) (f : RetryFunc)
    → f current ≡ some (true, m)
    → current ≤ j
    → (suc current ≤ j → IsRetried (f j))
    → IsRetried (f j)
IsRetried-from current j m f e lo later = elim (Bool-cases (ltb current j)) [
  | inl after ↦ later (ground arith)
  | inr here ↦
      let same : current ≡ j = ground (arith, lo, here) in
      subst (λ i. IsRetried (f i)) same (subst IsRetried (sym e) refl)
]

Ends-before :
    (max current : ℕ) (m : String) (f : RetryFunc) (r : Attempts)
    → f current ≡ some (true, m)
    → Ends max (suc current) f r
    → Ends max current f r
Ends-before max current m f (ok a, calls) e ends = ends
Ends-before max current m f (err message, calls) e (inl (used, said, all)) =
    inl (used, said, λ j lo hi. IsRetried-from current j m f e lo (λ after. all j after hi))
Ends-before max current m f (err message, calls) e (inr refused) = inr refused

judged :
    (max left current : ℕ) (f : RetryFunc) (now : Option (Bool × String)) (rest : Attempts)
    → f current ≡ now
    → suc (current + left) ≡ max
    → IsRun max (suc current) f rest
    → IsRun max current f (judge now current rest)
judged max left current f none rest e total (bound, later, ends, before) = (
  omega (arith, total),
  omega arith,
  (current, refl, e),
  λ j lo hi. absurd (omega (arith, lo, hi)),
)
judged max left current f (some (true, m)) rest e total (bound, later, ends, before) = (
  bound,
  omega (arith, later),
  Ends-before max current m f rest e ends,
  λ j lo hi. IsRetried-from current j m f e lo (λ after. before j after hi),
)
judged max left current f (some (false, m)) rest e total (bound, later, ends, before) = (
  omega (arith, total),
  omega arith,
  inr (current, m, refl, e, refl),
  λ j lo hi. absurd (omega (arith, lo, hi)),
)

retry_from-IsRun :
    (max left current : ℕ) (f : RetryFunc)
    → current + left ≡ max
    → IsRun max current f (retry_from left current f)
unfolding retry_from
retry_from-IsRun max zero current f total = (
  omega (arith, total),
  omega arith,
  inl (omega (arith, total), refl, λ j lo hi. absurd (omega (arith, total, lo, hi))),
  λ j lo hi. absurd (omega (arith, lo, hi)),
)
retry_from-IsRun max (suc left) current f total =
    judged max left current f (f current) (retry_from left (suc current) f) refl
      (omega (arith, total)) (retry_from-IsRun max left (suc current) f (omega (arith, total)))

-- A function with retries is called at most so many times. If the result is no error, the last call gave
-- none. If it is "failed after", the calls are used up and every one of them gave an error that is
-- retried; the only other error is "got non-retryable error", and then the last call gave one that is not
-- retried. Every call before the last one gave an error that is retried.
pub with_retries-IsRun :
    (max_retries : ℕ) (f : RetryFunc) → IsRun max_retries 0 f (with_retries max_retries f)
unfolding with_retries
with_retries-IsRun max_retries f = retry_from-IsRun max_retries max_retries 0 f (omega arith)
