-- ===== src/Lke/Match/Total.antt =====
-- When matching returns a result.
use terraform_provider_linod.Prelude.{
  ℕ, zero, suc, String, Bool, true, false, ◌≡◌, ◌&&◌, ◌||◌, Option, none, some, List, [], ◌∷◌, All,
  Result, ok, err, ◌>>=◌, IsOk, ◌!=◌, nat_eq, string_eq, arith, if◌then◌else◌,
}
use terraform_provider_linod.Prelude.Dict.{Dict, get, delete}
use terraform_provider_linod.Lke.{Autoscaler}
use terraform_provider_linod.Lke.Specs.{PoolBlock, expand_autoscaler}
use terraform_provider_linod.Lke.Match.{
  NodePool, Pairing, add_slot, block_id, pair_by_id, declared_count, is_pair, found_or, first_pair,
  without, pair_by_attributes, match_pools_with_schema, index_pools,
}

abbrev is_given {ℓ} : {A : Type ℓ} → Option A → Bool
is_given none = false
is_given (some a) = true

-- A block with an identifier of the right type, and a count or an autoscaler.
abbrev pub is_complete : PoolBlock → Bool
is_complete b = is_given b.id && (b.count != 0 || is_given (expand_autoscaler b))

-- Success passes through a bind.
>>=-IsOk :
    {A B : Type 0} (r : Result String A) (f : A → Result String B)
    → IsOk r
    → ((a : A) → IsOk (f a))
    → IsOk (r >>= f)
>>=-IsOk (ok a) f h next = next a
>>=-IsOk (err e) f h next = absurd h

add_slot-IsOk :
    (slot : Option NodePool) (r : Result String Pairing) → IsOk r → IsOk (add_slot slot r)
add_slot-IsOk slot r h = >>=-IsOk r _ h (λ pairing. tt)

block_id-IsOk : (id : Option ℕ) → is_given id ≡ true → IsOk (block_id id)
block_id-IsOk none h = absurd (cc)
block_id-IsOk (some n) h = tt

pair_by_id-IsOk :
    (declared : List PoolBlock) (api : Dict ℕ NodePool)
    → All (λ b. is_complete b ≡ true) declared
    → IsOk (pair_by_id declared api)
unfolding pair_by_id
pair_by_id-IsOk [] api h = tt
pair_by_id-IsOk (b ∷ declared) api h =
    >>=-IsOk (block_id b.id) _ (block_id-IsOk b.id (ground arith))
      (λ id. add_slot-IsOk (get id api) _ (pair_by_id-IsOk declared (delete id api) h.1))

declared_count-IsOk :
    (count : ℕ) (scaler : Option Autoscaler)
    → (count != 0 || is_given scaler) ≡ true
    → IsOk (declared_count count scaler)
unfolding declared_count
declared_count-IsOk zero none h = absurd (cc)
declared_count-IsOk zero (some a) h = tt
declared_count-IsOk (suc n) a h = tt

if-IsOk : (b : Bool) (r s : Result String Bool) → IsOk r → IsOk s → IsOk (if b then r else s)
if-IsOk true r s hr hs = hr
if-IsOk false r s hr hs = hs

is_pair-IsOk : (b : PoolBlock) (p : NodePool) → is_complete b ≡ true → IsOk (is_pair b p)
unfolding is_pair
is_pair-IsOk b p h =
    if-IsOk (b.pool_type != p.pool_type) _ _ tt (
      >>=-IsOk _ _ (declared_count-IsOk b.count (expand_autoscaler b) (ground arith)) (λ count. tt))

found_or-IsOk :
    (p : NodePool) (paired : Bool) (rest : Result String (Option NodePool))
    → IsOk rest
    → IsOk (found_or p paired rest)
found_or-IsOk p true rest h = tt
found_or-IsOk p false rest h = h

first_pair-IsOk :
    (b : PoolBlock) (api : Dict ℕ NodePool) → is_complete b ≡ true → IsOk (first_pair b api)
unfolding first_pair
first_pair-IsOk b [] h = tt
first_pair-IsOk b ((k, p) ∷ api) h =
    >>=-IsOk (is_pair b p) _ (is_pair-IsOk b p h)
      (λ paired. found_or-IsOk p paired _ (first_pair-IsOk b api h))

pair_by_attributes-IsOk :
    (range : ℕ → Dict ℕ NodePool → Dict ℕ NodePool) (i : ℕ) (declared : List PoolBlock)
    (slots : List (Option NodePool)) (api : Dict ℕ NodePool)
    → All (λ b. is_complete b ≡ true) declared
    → IsOk (pair_by_attributes range i declared slots api)
unfolding pair_by_attributes
pair_by_attributes-IsOk range i [] slots api h = tt
pair_by_attributes-IsOk range i (b ∷ declared) [] api h = tt
pair_by_attributes-IsOk range i (b ∷ declared) (some p ∷ slots) api h =
    add_slot-IsOk (some p) _ (pair_by_attributes-IsOk range (suc i) declared slots api h.1)
pair_by_attributes-IsOk range i (b ∷ declared) (none ∷ slots) api h =
    >>=-IsOk (first_pair b (range i api)) _ (first_pair-IsOk b (range i api) h.0) (λ found.
      add_slot-IsOk found _
        (pair_by_attributes-IsOk range (suc i) declared slots (without found api) h.1))

-- If every declared pool has an identifier of the right type, and a count other than 0 or an
-- autoscaler, then matching returns a result, whatever the API's pools and the order of the maps.
pub match_pools_with_schema-IsOk :
    (range : ℕ → Dict ℕ NodePool → Dict ℕ NodePool) (pools : List NodePool)
    (declared : List PoolBlock)
    → All (λ b. is_complete b ≡ true) declared
    → IsOk (match_pools_with_schema range pools declared)
unfolding match_pools_with_schema
match_pools_with_schema-IsOk range pools declared h =
    >>=-IsOk (pair_by_id declared (index_pools pools [])) _ (pair_by_id-IsOk declared _ h) (λ by_id.
      >>=-IsOk (pair_by_attributes range 0 declared by_id.0 by_id.1) _
        (pair_by_attributes-IsOk range 0 declared by_id.0 by_id.1 h) (λ pairing. tt))
