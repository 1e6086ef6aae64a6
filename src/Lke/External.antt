-- ===== src/Lke/External.antt =====
-- filterExternalPools and poolHasAnyOfTags of linode/lke/cluster.go. A pool is told by its tags.
use terraform_provider_linod.Prelude.{
  String, Bool, true, false, not, ◌||◌, ◌≡◌, refl, sym, ap, ◌∙◌, Option, none, some, List, [], ◌∷◌,
  any, keep, keep_head, ◌==◌, string_eq, arith, if◌then◌else◌,
}
use terraform_provider_linod.Prelude.Dict.{Dict, get, put, has_key, get-put}

unfoldable pub tag_set : List String → Dict String Bool → Dict String Bool
tag_set [] tags = tags
tag_set (tag ∷ external_pool_tags) tags = tag_set external_pool_tags (put tag true tags)

unfoldable pub pool_has_any_of_tags : List String → Dict String Bool → Option String
pool_has_any_of_tags [] tag_set = none
pool_has_any_of_tags (pool_tag ∷ tags) tag_set =
    let rest = pool_has_any_of_tags tags tag_set in
    if has_key pool_tag tag_set then some pool_tag else rest

module _ {A : Type 0} (tags_of : A → List String) where
  abbrev untagged : Option String → A → List A → List A
  untagged (some tag) pool rest = rest
  untagged none pool rest = pool ∷ rest

  unfoldable pub filter_pools : Dict String Bool → List A → List A
  filter_pools tag_set [] = []
  filter_pools tag_set (pool ∷ pools) =
      untagged (pool_has_any_of_tags (tags_of pool) tag_set) pool (filter_pools tag_set pools)

  unfoldable pub filter_external_pools : List String → List A → List A
  filter_external_pools [] pools = pools
  filter_external_pools (tag ∷ external_pool_tags) pools =
      filter_pools (tag_set (tag ∷ external_pool_tags) []) pools

  -- A pool is external if it has one of the tags.
  abbrev pub is_external : List String → A → Bool
  is_external external pool = any (λ tag. any (λ t. t == tag) external) (tags_of pool)

  has_key-tag_set :
      (tag : String) (tags : List String) (m : Dict String Bool)
      → has_key tag (tag_set tags m) ≡ (any (λ t. t == tag) tags || has_key tag m)
  unfolding tag_set
  has_key-tag_set tag [] m = refl
  has_key-tag_set tag (t ∷ tags) m =
      ground (arith, has_key-tag_set tag tags (put t true m), get-put t tag true m)

  abbrev is_some : Option String → Bool
  is_some none = false
  is_some (some t) = true

  is_some-if :
      (b : Bool) (tag : String) (rest : Option String)
      → is_some (if b then some tag else rest) ≡ (b || is_some rest)
  is_some-if true tag rest = refl
  is_some-if false tag rest = refl

  or_false : (b : Bool) → (b || false) ≡ b
  or_false true = refl
  or_false false = refl

  has_key-tags :
      (tag : String) (external : List String)
      → has_key tag (tag_set external []) ≡ any (λ t. t == tag) external
  unfolding get
  has_key-tags tag external = has_key-tag_set tag external [] ∙ or_false _

  is_some-tags :
      (tags external : List String)
      → is_some (pool_has_any_of_tags tags (tag_set external []))
        ≡ any (λ tag. any (λ t. t == tag) external) tags
  unfolding pool_has_any_of_tags
  is_some-tags [] external = refl
  is_some-tags (tag ∷ tags) external =
      is_some-if (has_key tag (tag_set external [])) tag _
      ∙ ap (λ b. b || is_some (pool_has_any_of_tags tags (tag_set external [])))
          (has_key-tags tag external)
      ∙ ap (λ b. any (λ t. t == tag) external || b) (is_some-tags tags external)

  untagged-keep :
      (found : Option String) (pool : A) (rest : List A)
      → untagged found pool rest ≡ keep_head (not (is_some found)) pool rest
  untagged-keep none pool rest = refl
  untagged-keep (some tag) pool rest = refl

  filter_pools-keep :
      (external : List String) (pools : List A)
      → filter_pools (tag_set external []) pools ≡ keep (λ p. not (is_external external p)) pools
  unfolding filter_pools
  filter_pools-keep external [] = refl
  filter_pools-keep external (pool ∷ pools) =
      untagged-keep (pool_has_any_of_tags (tags_of pool) (tag_set external [])) pool _
      ∙ ap (λ b. keep_head (not b) pool (filter_pools (tag_set external []) pools))
          (is_some-tags (tags_of pool) external)
      ∙ ap (keep_head (not (is_external external pool)) pool) (filter_pools-keep external pools)

  none_external : (tags : List String) → any (λ tag. any (λ t. t == tag) []) tags ≡ false
  none_external [] = refl
  none_external (tag ∷ tags) = none_external tags

  keeps_all : (pools : List A) → keep (λ p. not (is_external [] p)) pools ≡ pools
  keeps_all [] = refl
  keeps_all (pool ∷ pools) =
      ap (λ b. keep_head (not b) pool (keep (λ p. not (is_external [] p)) pools))
        (none_external (tags_of pool))
      ∙ ap (λ rest. pool ∷ rest) (keeps_all pools)

  -- The filter keeps the pools that have none of the external tags, in order.
  pub filter_external_pools-keep :
      (external : List String) (pools : List A)
      → filter_external_pools external pools ≡ keep (λ p. not (is_external external p)) pools
  unfolding filter_external_pools
  filter_external_pools-keep [] pools = sym (keeps_all pools)
  filter_external_pools-keep (tag ∷ external) pools = filter_pools-keep (tag ∷ external) pools
