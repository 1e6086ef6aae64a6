-- ===== src/Filter/Latest/Newest.antt =====
-- What GetLatestCreated and GetLatestVersion pick: the first of the newest elements.
use terraform_provider_linod.Prelude.{
  String, Bool, true, false, ◌≡◌, refl, sym, ◌∙◌, ap, List, [], ◌∷◌, ◌++◌, Option, some, Result, ok,
  >>=-eq-ok, Result-cases, Bool-cases, inl, inr, arith, All, All-append,
}
use mathlib.Core.List.{append-nil, append_assoc}
use terraform_provider_linod.Filter.{Diagnostic}
use terraform_provider_linod.Filter.Value.{Struct}
use terraform_provider_linod.Filter.Latest.{
  scan_newest, newest_of, is_after, get_created_time, get_version, get_latest_created,
  get_latest_version,
}

-- `after` is a strict order in which what is not after something is before all that is after it.
pub record IsAfter {K : Type 0} (after : K → K → Bool) : Type 0 where
  pub irrefl : (k : K) → after k k ≡ false
  pub asymm : (a b : K) → after a b ≡ true → after b a ≡ false
  pub step : (a b c : K) → after a b ≡ true → after c b ≡ false → after a c ≡ true

module _ {K : Type 0} (key : Struct → Result Diagnostic K) (after : K → K → Bool) where
  abbrev pub IsEarlier : K → Struct → Type 0
  IsEarlier k e = (j : K) × (key e ≡ ok j) × (after k j ≡ true)

  abbrev pub NotLater : K → Struct → Type 0
  NotLater k e = (j : K) × (key e ≡ ok j) × (after j k ≡ false)

  -- `newest` is in `elems`; all before it are older, and none after it is newer.
  pub record Newest (elems : List Struct) (newest : Struct) : Type 0 where
    pub at : K
    pub before : List Struct
    pub later : List Struct
    pub split : elems ≡ before ++ (newest ∷ later)
    pub keyed : key newest ≡ ok at
    pub earlier : All (IsEarlier at) before
    pub not_later : All (NotLater at) later

  module _ (order : IsAfter after) where
    raise-IsEarlier :
        (k k' : K) (xs : List Struct)
        → after k' k ≡ true
        → All (IsEarlier k) xs
        → All (IsEarlier k') xs
    raise-IsEarlier k k' [] gt h = tt
    raise-IsEarlier k k' (x ∷ xs) gt ((j, e, lt), h) =
        ((j, e, order.step k' k j gt (order.asymm k j lt)), raise-IsEarlier k k' xs gt h)

    raise-NotLater :
        (k k' : K) (xs : List Struct)
        → after k' k ≡ true
        → All (NotLater k) xs
        → All (IsEarlier k') xs
    raise-NotLater k k' [] gt h = tt
    raise-NotLater k k' (x ∷ xs) gt ((j, e, le), h) =
        ((j, e, order.step k' k j gt le), raise-NotLater k k' xs gt h)

    -- The loop keeps the newest of what it has seen.
    scan_newest_inv :
        (seen : List Struct) (newest : Struct) (k : K) (before later rest : List Struct)
        (found : Struct)
        → seen ≡ before ++ (newest ∷ later)
        → key newest ≡ ok k
        → All (IsEarlier k) before
        → All (NotLater k) later
        → scan_newest key after newest k rest ≡ ok found
        → Newest (seen ++ rest) found
    unfolding scan_newest
    scan_newest_inv seen newest k before later [] found split keyed lo hi h =
        let same : found ≡ newest = cc in
        rw append-nil (
          rw same (record {
            at = k;
            before = before;
            later = later;
            split = split;
            keyed = keyed;
            earlier = lo;
            not_later = hi;
          }))
    scan_newest_inv seen newest k before later (e ∷ rest) found split keyed lo hi h =
        elim (Result-cases (key e)) [
          | inr (d, bad) ↦ absurd (ground (arith, bad))
          | inl (j, good) ↦ elim (Bool-cases (after j k)) [
            | inl gt ↦ rw (← append_assoc seen (e ∷ []) rest) (
                scan_newest_inv (seen ++ e ∷ []) e j (before ++ (newest ∷ later)) [] rest found
                  (ap (λ l. l ++ e ∷ []) split) good
                  (All-append (IsEarlier j) before (newest ∷ later)
                    (raise-IsEarlier k j before gt lo)
                    ((k, keyed, gt), raise-NotLater k j later gt hi))
                  tt (ground (arith, good, gt)))
            | inr le ↦ rw (← append_assoc seen (e ∷ []) rest) (
                scan_newest_inv (seen ++ e ∷ []) newest k before (later ++ e ∷ []) rest found
                  (ap (λ l. l ++ e ∷ []) split ∙ append_assoc before (newest ∷ later) (e ∷ []))
                  keyed lo (All-append (NotLater k) later (e ∷ []) hi ((j, good, le), tt))
                  (ground (arith, good, le)))
          ]
        ]

    -- The loop starts at the first element again, which is not after itself.
    scan_newest_self :
        (e : Struct) (k : K) (rest : List Struct)
        → key e ≡ ok k
        → scan_newest key after e k (e ∷ rest) ≡ scan_newest key after e k rest
    unfolding scan_newest
    scan_newest_self e k rest keyed = ground (arith, keyed, order.irrefl k)

    newest_of-some :
        (e : Struct) (rest : List Struct) {o : Option Struct}
        → newest_of key after (e ∷ rest) ≡ ok o
        → (newest : Struct) × (o ≡ some newest)
    unfolding newest_of
    newest_of-some e rest h =
        let (k, keyed, h1) = >>=-eq-ok (key e) _ h in
        let (newest, scanned, h2) = >>=-eq-ok (scan_newest key after e k (e ∷ rest)) _ h1 in
        (newest, cc (h2))

    pub newest_of_sound :
        (elems : List Struct) {found : Struct}
        → newest_of key after elems ≡ ok (some found)
        → Newest elems found
    unfolding newest_of
    newest_of_sound [] h = absurd (cc)
    newest_of_sound (e ∷ rest) {found} h =
        let (k, keyed, h1) = >>=-eq-ok (key e) _ h in
        let (newest, scanned, h2) = >>=-eq-ok (scan_newest key after e k (e ∷ rest)) _ h1 in
        let same : newest ≡ found = cc (h2) in
        scan_newest_inv (e ∷ []) e k [] [] rest found refl keyed tt tt
          (sym (scan_newest_self e k rest keyed) ∙ scanned ∙ ap ok same)

pub is_after-IsAfter : IsAfter is_after
is_after-IsAfter = record {
  irrefl = λ k. ground arith;
  asymm = λ a b h. ground arith;
  step = λ a b c h k. ground arith;
}

-- GetLatestCreated of a list that is not empty returns one element of it, the first of those that no
-- other element was created after.
pub get_latest_created-Newest :
    (e : Struct) (rest : List Struct) (attr : String) {found : List Struct}
    → get_latest_created (e ∷ rest) attr ≡ ok found
    → (newest : Struct) × (found ≡ newest ∷ [])
      × Newest (get_created_time attr) is_after (e ∷ rest) newest
unfolding get_latest_created
get_latest_created-Newest e rest attr {found} h =
    let (o, got, h1) = >>=-eq-ok (newest_of (get_created_time attr) is_after (e ∷ rest)) _ h in
    let (newest, eq) =
      newest_of-some (get_created_time attr) is_after is_after-IsAfter e rest got in
    (
      newest,
      cc (h1, eq),
      newest_of_sound (get_created_time attr) is_after is_after-IsAfter (e ∷ rest) (got ∙ ap ok eq),
    )

-- GetLatestVersion returns the first of the elements whose version no other exceeds, where versions
-- are ordered by `greater_than`.
pub get_latest_version-Newest :
    {V : Type 0} (new_version : String → Result String V) (greater_than : V → V → Bool)
    → IsAfter greater_than
    → (elems : List Struct) (attr : String) {newest : Struct}
    → get_latest_version new_version greater_than elems attr ≡ ok (some newest)
    → Newest (get_version new_version attr) greater_than elems newest
unfolding get_latest_version
get_latest_version-Newest new_version greater_than order elems attr h =
    newest_of_sound (get_version new_version attr) greater_than order elems h
