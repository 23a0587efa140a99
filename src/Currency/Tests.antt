-- ===== src/Currency/Tests.antt =====
-- The rates' theorems at a table with two rates of the dollar, and runs.
use dmis_feature_branch.Base.{◌≡◌, refl, true, none, some, List, [], ◌∷◌}
use dmis_feature_branch.Base.Text.{codes, strip, is_space}
use dmis_feature_branch.Base.Table.{first}
use dmis_feature_branch.Store.{Text}
use dmis_feature_branch.Currency.Rates.{CurrencyRate, get_cached_rate, store_rate, convert_to_jmd}
use dmis_feature_branch.Currency.History.{
  history, rate_on, IsStored, get_cached_rate_refines, store_rate_refines,
}

-- `str.upper` on texts without lower-case letters
abbrev upper : Text → Text
upper t = t

abbrev rates : List CurrencyRate
rates =
    record {
      currency_code = codes "USD";
      rate_date = 3;
      rate_to_jmd = 15600000000;
      source = "MANUAL";
      create_dtime = 1;
    }
    ∷ record {
      currency_code = codes "USD";
      rate_date = 7;
      rate_to_jmd = 15800000000;
      source = "MANUAL";
      create_dtime = 2;
    }
    ∷ []

fallback : get_cached_rate upper (codes "USD ") 6 rates ≡ some 15600000000
unfolding get_cached_rate first strip is_space
fallback = refl

too_early : get_cached_rate upper (codes "USD") 2 rates ≡ none
unfolding get_cached_rate first strip is_space
too_early = refl

converts : convert_to_jmd upper (some 2) (codes "USD") none 9 rates ≡ some 31600000000
unfolding convert_to_jmd first strip is_space
converts = refl

get_cached_rate_refines_example :
    get_cached_rate upper (codes "USD") 6 rates ≡ rate_on upper (history rates) (codes "USD") 6
get_cached_rate_refines_example = get_cached_rate_refines upper (codes "USD") 6 rates

store_rate_refines_example :
    IsStored upper
      (codes "USD")
      6
      15700000000
      rates
      (store_rate upper (λ t. true) 9 (codes "USD") 6 15700000000 "MANUAL" rates)
store_rate_refines_example =
    store_rate_refines upper (λ t. true) 9 (codes "USD") 6 15700000000 "MANUAL" rates

-- The test for the local currency is made before the code is stripped.
stores_local : (store_rate upper (λ t. true) 9 (codes " JMD") 6 5 "MANUAL" []).0 ≡ true
unfolding store_rate
stores_local = refl
