-- ===== src/Filter/Split.antt =====
-- Every filter is applied once: by the API or by the provider.
use terraform_provider_linod.Prelude.{not, ◌≡◌, arith, string_eq}
use terraform_provider_linod.Filter.{FilterModel, Config, is_exact_match_filter}
use terraform_provider_linod.Filter.Api.{is_skipped}
use terraform_provider_linod.Filter.Local.{is_sent_to_api}

-- The two guards are written apart and agree: the filters that the request leaves out are those that
-- the local pass applies, and no filter is applied by both or by neither.
pub is_skipped-eq-not-is_sent_to_api :
    (f : Config) (filter : FilterModel) → is_skipped f filter ≡ not (is_sent_to_api f filter)
unfolding is_skipped is_sent_to_api is_exact_match_filter
is_skipped-eq-not-is_sent_to_api f filter = ground arith
