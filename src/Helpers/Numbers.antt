-- ===== src/Helpers/Numbers.antt =====
-- SafeIntToInt32 and SafeInt64ToInt of linode/helper/conversion.go, and the rounding of
-- DomainSecondsDiffSuppressor of linode/helper/domain.go.
use Prim.Native.Nat.{◌%◌}
use native.Mathlib.Nat.{mod-eq_of_lt}
use terraform_provider_linod.Prelude.{
  ℕ, ◌+◌, ◌-◌, ◌<◌, String, Bool, true, false, ◌≡◌, refl, sym, ◌∙◌, ◌↔◌, List, [], ◌∷◌, Result, ok,
  err, ltb, leb, ◌==◌, nat_eq, arith, if◌then◌else◌, Bool-cases, inl, inr,
}

-- Go's integers: `negsuc n` is -(n + 1).
pub data ℤ : Type 0 where
  pos : ℕ → ℤ
  negsuc : ℕ → ℤ

-- An integer of so many values below 0, and as many that are not: the same bits, read with a sign.
abbrev signed : ℕ → ℕ → ℤ
signed half bits = if ltb bits half then pos bits else negsuc (half + half - 1 - bits)

-- The conversion `int32(number)` keeps the low bits.
unfoldable pub convert : ℕ → ℤ → ℤ
convert half (pos n) = signed half (n % (half + half))
convert half (negsuc n) = signed half (half + half - 1 - n % (half + half))

-- `number > max || number < min`
unfoldable pub out_of_range : ℕ → ℤ → Bool
out_of_range half (pos n) = leb half n
out_of_range half (negsuc n) = leb half n

abbrev pub safe_convert : ℕ → String → ℤ → Result String ℤ
safe_convert half message number =
    if out_of_range half number then err message else ok (convert half number)

unfoldable pub safe_int_to_int32 : ℤ → Result String ℤ
safe_int_to_int32 number = safe_convert 2147483648 "int value is out of range for int32" number

-- `half` is the number of negative values of the platform's `int`.
unfoldable pub safe_int64_to_int : ℕ → ℤ → Result String ℤ
safe_int64_to_int half number = safe_convert half "int64 value is out of range for int" number

-- The values of an integer of this width.
abbrev pub IsWithin : ℕ → ℤ → Type 0
IsWithin half (pos n) = n < half
IsWithin half (negsuc n) = n < half

convert-same : (half : ℕ) (z : ℤ) → IsWithin half z → convert half z ≡ z
unfolding convert
convert-same half (pos n) within =
    let small : n % (half + half) ≡ n = mod-eq_of_lt (omega (arith, within)) in
    rw small (ground (arith, within))
convert-same half (negsuc n) within =
    let small : n % (half + half) ≡ n = mod-eq_of_lt (omega (arith, within)) in
    rw small (ground (arith, within))

out_of_range_iff : (half : ℕ) (z : ℤ) → (out_of_range half z ≡ false) ↔ IsWithin half z
unfolding out_of_range
out_of_range_iff half (pos n) = ground arith
out_of_range_iff half (negsuc n) = ground arith

refused :
    (b : Bool) (message : String) (z r : ℤ)
    → b ≡ true
    → (if b then err message else ok z) ≡ ok r
    → ⊥
refused true message z r out e = cc
refused false message z r out e = cc

accepted :
    (b : Bool) (message : String) (z r : ℤ)
    → b ≡ false
    → (if b then err message else ok z) ≡ ok r
    → z ≡ r
accepted true message z r within e = cc
accepted false message z r within e = cc

safe_convert_iff :
    (half : ℕ) (message : String) (z r : ℤ)
    → (safe_convert half message z ≡ ok r) ↔ (IsWithin half z × (r ≡ z))
safe_convert_iff half message z r = (
  λ e. elim (Bool-cases (out_of_range half z)) [
    | inl out ↦ absurd (refused (out_of_range half z) message (convert half z) r out e)
    | inr within ↦
        let here = (out_of_range_iff half z).0 within in
        (
          here,
          sym (accepted (out_of_range half z) message (convert half z) r within e)
              ∙ convert-same half z here,
        )
  ],
  λ both.
      let within = (out_of_range_iff half z).1 both.0 in
      let same = convert-same half z both.0 in rw (within, same, both.1) refl,
)

-- A conversion to an int32, or to an int of any width, gives a number exactly if the number is one of
-- that width, and then it is the same number.
pub safe_conversions_iff :
    (half : ℕ) (z r : ℤ)
    → ((safe_int_to_int32 z ≡ ok r) ↔ (IsWithin 2147483648 z × (r ≡ z)))
      × ((safe_int64_to_int half z ≡ ok r) ↔ (IsWithin half z × (r ≡ z)))
unfolding safe_int_to_int32 safe_int64_to_int
safe_conversions_iff half z r = (safe_convert_iff 2147483648 _ z r, safe_convert_iff half _ z r)

-- The durations that a domain accepts, in seconds.
abbrev pub accepted_seconds : List ℕ
accepted_seconds =
    30 ∷ 120 ∷ 300 ∷ 3600 ∷ 7200 ∷ 14400 ∷ 28800 ∷ 57600 ∷ 86400 ∷ 172800 ∷ 345600 ∷ 604800
    ∷ 1209600 ∷ 2419200 ∷ []

abbrev pub first_from : List ℕ → ℕ → ℕ → ℕ
first_from [] n last = last
first_from (value ∷ accepted) n last =
    let rest = first_from accepted n value in if leb n value then value else rest

unfoldable pub rounder : ℕ → ℕ
rounder n = if n == 0 then 0 else first_from accepted_seconds n 0

-- `DomainSecondsDiffSuppressor`, with the two values read as numbers.
unfoldable pub suppresses_domain_seconds : ℕ → ℕ → Bool
suppresses_domain_seconds provisioned_sec declared_sec = rounder declared_sec == provisioned_sec
