-- ===== src/Currency/Rates.antt =====
-- The table of rates, and the operations of CurrencyService on it.
use dmis_feature_branch.Base.{
  ℕ, ◌*◌, String, Bool, true, false, ◌&&◌, ◌||◌, Option, none, some, List, [], ◌∷◌, leb, ltb, ◌==◌,
  filter, if◌then◌else◌,
}
use dmis_feature_branch.Base.Text.{codes, is_empty, strip, text_beq}
use dmis_feature_branch.Base.Table.{first, upsert}
use dmis_feature_branch.Store.{Text}

pub record CurrencyRate : Type 0 where
  pub currency_code : Text
  pub rate_date : ℕ
  pub rate_to_jmd : ℕ
  pub source : String
  pub create_dtime : ℕ

-- `Decimal('1')` and `Decimal('157.50')`
abbrev pub one : ℕ
one = 100000000

abbrev pub default_usd_rate : ℕ
default_usd_rate = 15750000000

-- `filter_by(currency_code=…, rate_date=…)`
abbrev pub is_rate : Text → ℕ → CurrencyRate → Bool
is_rate code day r = text_beq r.currency_code code && r.rate_date == day

-- `CurrencyRate.currency_code == …, CurrencyRate.rate_date <= …`
abbrev pub is_until : Text → ℕ → CurrencyRate → Bool
is_until code day r = text_beq r.currency_code code && leb r.rate_date day

-- `order_by(CurrencyRate.rate_date.desc()).first()`
abbrev pub later_of : CurrencyRate → Option CurrencyRate → CurrencyRate
later_of r none = r
later_of r (some q) = if ltb r.rate_date q.rate_date then q else r

unfoldable pub latest : List CurrencyRate → Option CurrencyRate
latest [] = none
latest (r ∷ rs) = some (later_of r (latest rs))

abbrev pub rate_of : Option CurrencyRate → Option ℕ
rate_of none = none
rate_of (some r) = some r.rate_to_jmd

module _ (upper : Text → Text) where
  -- `currency_code.upper().strip()`
  abbrev pub normal_code : Text → Text
  normal_code code = strip (upper code)

  abbrev pub rate_or_fallback : Text → ℕ → List CurrencyRate → Option CurrencyRate → Option ℕ
  rate_or_fallback code day rates (some r) = some r.rate_to_jmd
  rate_or_fallback code day rates none = rate_of (latest (filter (is_until code day) rates))

  unfoldable pub get_cached_rate : Text → ℕ → List CurrencyRate → Option ℕ
  unfolding latest
  get_cached_rate code day rates =
      if is_empty code
      then none
      else if text_beq (normal_code code) (codes "JMD")
      then some one
      else rate_or_fallback (normal_code code) day rates
          (first (is_rate (normal_code code) day) rates)

  unfoldable pub get_or_update_rate_to_jmd : Text → ℕ → List CurrencyRate → Option ℕ
  unfolding get_cached_rate
  get_or_update_rate_to_jmd code day rates =
      if is_empty code
      then none
      else if text_beq (normal_code code) (codes "JMD")
      then some one
      else get_cached_rate (normal_code code) day rates

  abbrev pub times : ℕ → Option ℕ → Option ℕ
  times amount none = none
  times amount (some rate) = some (amount * rate)

  -- The result is in units of the amount times a hundred-millionth.
  unfoldable pub convert_to_jmd : Option ℕ → Text → Option ℕ → ℕ → List CurrencyRate → Option ℕ
  unfolding get_or_update_rate_to_jmd
  convert_to_jmd none code day today rates = none
  convert_to_jmd (some amount) code day today rates =
      if is_empty code
      then none
      else if text_beq (normal_code code) (codes "JMD")
      then some (amount * one)
      else times amount (
          get_or_update_rate_to_jmd (normal_code code) (elim day [ none ↦ today | some d ↦ d ])
            rates)

  -- `accepts` is the database's answer at the commit; a refusal is rolled back.
  module _ (accepts : List CurrencyRate → Bool) (now : ℕ) where
    abbrev pub new_rate : Text → ℕ → ℕ → String → CurrencyRate
    new_rate code day rate source = record {
      currency_code = code;
      rate_date = day;
      rate_to_jmd = rate;
      source = source;
      create_dtime = now;
    }

    unfoldable pub update_rate : ℕ → String → CurrencyRate → CurrencyRate
    update_rate rate source r = record r { rate_to_jmd = rate; source = source; create_dtime = now }

    unfoldable pub stored : Text → ℕ → ℕ → String → List CurrencyRate → List CurrencyRate
    unfolding update_rate
    stored code day rate source =
        upsert (is_rate code day) (update_rate rate source) (new_rate code day rate source)

    unfoldable pub store_rate : Text → ℕ → ℕ → String → List CurrencyRate → Bool × List CurrencyRate
    unfolding stored
    store_rate code day rate source rates =
        if is_empty code || text_beq (upper code) (codes "JMD")
        then (false, rates)
        else let written = stored (normal_code code) day rate source rates in
          if accepts written then (true, written) else (false, rates)

    unfoldable pub set_usd_jmd_rate :
        ℕ → Option ℕ → ℕ → List CurrencyRate → Bool × List CurrencyRate
    unfolding store_rate
    set_usd_jmd_rate rate day today =
        store_rate (codes "USD") (elim day [ none ↦ today | some d ↦ d ]) rate "MANUAL"

-- _get_usd_jmd_rate
unfoldable pub get_usd_jmd_rate : List CurrencyRate → ℕ
unfolding latest
get_usd_jmd_rate rates =
    elim (latest (filter (λ r. text_beq r.currency_code (codes "USD")) rates)) [
      | none ↦ default_usd_rate
      | some r ↦ r.rate_to_jmd
    ]
