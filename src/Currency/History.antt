-- ===== src/Currency/History.antt =====
-- The service against an abstract history of rates: a function from currencies and days to the rate
-- that was set on the day. A query for the latest row up to a day finds what a search backwards, day
-- by day, finds.
use dmis_feature_branch.Base.{
  ℕ, zero, suc, ◌≡◌, refl, sym, ap, ◌∙◌, subst, inl, inr, String, Bool, true, false, ◌&&◌, ◌||◌,
  Option, none, some, List, [], ◌∷◌, arith, leb, ◌==◌, filter, if◌then◌else◌, Bool-cases,
  Option-cases,
}
use dmis_feature_branch.Base.Text.{codes, is_empty, text_beq, text_beq_refl, text_beq_same}
use dmis_feature_branch.Base.Table.{
  first, upserted, first-upsert_self, first-upsert_other, first_holds,
}
use dmis_feature_branch.Store.{Text}
use dmis_feature_branch.Currency.Rates.{
  CurrencyRate, one, is_rate, is_until, latest, rate_of, normal_code, rate_or_fallback,
  get_cached_rate, update_rate, new_rate, stored, store_rate,
}

abbrev pub History : Type 0
History = Text → ℕ → Option ℕ

-- the history that a table stands for
abbrev pub history : List CurrencyRate → History
history rates code day = rate_of (first (is_rate code day) rates)

-- `o`, or else `p`
abbrev pub or_earlier : Option ℕ → Option ℕ → Option ℕ
or_earlier none p = p
or_earlier (some n) p = some n

-- the rate of the day, or else of the day before, and so on
unfoldable pub on_or_before : (ℕ → Option ℕ) → ℕ → Option ℕ
on_or_before h zero = h zero
on_or_before h (suc day) = or_earlier (h (suc day)) (on_or_before h day)

-- what the service promises of a history: the dollar's own rate is 1, another currency's the last
-- one set up to the day
abbrev pub rate_on : (Text → Text) → History → Text → ℕ → Option ℕ
rate_on upper h code day =
    if is_empty code
    then none
    else if text_beq (normal_code upper code) (codes "JMD")
    then some one
    else on_or_before (h (normal_code upper code)) day

module _ (code : Text) where
  latest_until :
      (day : ℕ) (rates : List CurrencyRate) (q : CurrencyRate)
      → latest (filter (is_until code day) rates) ≡ some q
      → leb q.rate_date day ≡ true
  unfolding latest
  latest_until day [] q h = cc
  latest_until day (r ∷ rs) q h =
      let rest = filter (is_until code day) rs in
      elim (Bool-cases (is_until code day r)) [
        | inr t ↦
            latest_until day rs q (subst (λ b. latest (if b then r ∷ rest else rest) ≡ some q) t h)
        | inl t ↦
            let k = subst (λ b. latest (if b then r ∷ rest else rest) ≡ some q) t h in
            elim (Option-cases (latest rest)) [
              | inl e ↦ ground arith
              | inr (p, e) ↦ let ih = latest_until day rs p e in ground arith
            ]
      ]

  -- A rate of the day itself is the latest.
  latest_exact :
      (day : ℕ) (rates : List CurrencyRate) (r : CurrencyRate)
      → first (is_rate code day) rates ≡ some r
      → latest (filter (is_until code day) rates) ≡ some r
  unfolding latest first
  latest_exact day [] r h = cc
  latest_exact day (x ∷ xs) r h =
      let rest = filter (is_until code day) xs in
      elim (Bool-cases (is_rate code day x)) [
        | inl t ↦ elim (Option-cases (latest rest)) [
          | inl e ↦ ground arith
          | inr (p, e) ↦ let ih = latest_until day xs p e in ground arith
        ]
        | inr t ↦
            let found = first_holds (is_rate code day) xs r (ground arith) in
            let ih = latest_exact day xs r (ground arith) in ground arith
      ]

  -- Without a rate of the day, the rows up to it are those up to the day before.
  until_before :
      (day : ℕ) (rates : List CurrencyRate)
      → first (is_rate code (suc day)) rates ≡ none
      → filter (is_until code (suc day)) rates ≡ filter (is_until code day) rates
  unfolding first
  until_before day [] h = refl
  until_before day (x ∷ xs) h = ground (arith, until_before day xs)

  until_zero :
      (rates : List CurrencyRate)
      → first (is_rate code 0) rates ≡ none
      → filter (is_until code 0) rates ≡ []
  unfolding first
  until_zero [] h = refl
  until_zero (x ∷ xs) h = ground (arith, until_zero xs)

  -- The query for the latest row up to a day is the search backwards from it.
  latest-on_or_before :
      (rates : List CurrencyRate) (day : ℕ)
      → rate_of (latest (filter (is_until code day) rates)) ≡ on_or_before (history rates code) day
  unfolding on_or_before latest
  latest-on_or_before rates zero = elim (Option-cases (first (is_rate code 0) rates)) [
    | inl e ↦ ap (λ rs. rate_of (latest rs)) (until_zero rates e) ∙ sym (ap rate_of e)
    | inr (r, e) ↦ ap rate_of (latest_exact 0 rates r e) ∙ sym (ap rate_of e)
  ]
  latest-on_or_before rates (suc day) = elim (Option-cases (first (is_rate code (suc day)) rates)) [
    | inl e ↦
        ap (λ rs. rate_of (latest rs)) (until_before day rates e)
        ∙ latest-on_or_before rates day
        ∙ sym (ap (λ o. or_earlier (rate_of o) (on_or_before (history rates code) day)) e)
    | inr (r, e) ↦
        ap rate_of (latest_exact (suc day) rates r e)
        ∙ sym (ap (λ o. or_earlier (rate_of o) (on_or_before (history rates code) day)) e)
  ]

  exact-on_or_before :
      (rates : List CurrencyRate) (day : ℕ) (r : CurrencyRate)
      → first (is_rate code day) rates ≡ some r
      → on_or_before (history rates code) day ≡ some r.rate_to_jmd
  unfolding on_or_before
  exact-on_or_before rates day r e =
      sym (latest-on_or_before rates day) ∙ ap rate_of (latest_exact day rates r e)

-- Every query of a rate answers as the history of the table does.
pub get_cached_rate_refines :
    (upper : Text → Text) (code : Text) (day : ℕ) (rates : List CurrencyRate)
    → get_cached_rate upper code day rates ≡ rate_on upper (history rates) code day
unfolding get_cached_rate
get_cached_rate_refines upper code day rates = elim (Bool-cases (is_empty code)) [
  | inl t ↦ rw t refl
  | inr t ↦ rw t (elim (Bool-cases (text_beq (normal_code upper code) (codes "JMD"))) [
    | inl u ↦ rw u refl
    | inr u ↦ rw u (fallback (first (is_rate (normal_code upper code) day) rates) refl)
  ])
]
  where
    fallback :
        (o : Option CurrencyRate)
        → first (is_rate (normal_code upper code) day) rates ≡ o
        → rate_or_fallback upper (normal_code upper code) day rates o
          ≡ on_or_before (history rates (normal_code upper code)) day
    fallback none e = latest-on_or_before (normal_code upper code) rates day
    fallback (some r) e = sym (exact-on_or_before (normal_code upper code) rates day r e)

-- the history with one rate set
abbrev pub set_rate : History → Text → ℕ → ℕ → History
set_rate h code day rate c d = if text_beq code c && day == d then some rate else h c d

on_or_before_cong :
    (g h : ℕ → Option ℕ) → ((d : ℕ) → g d ≡ h d) → (d : ℕ) → on_or_before g d ≡ on_or_before h d
unfolding on_or_before
on_or_before_cong g h e zero = e zero
on_or_before_cong g h e (suc d) =
    let before = on_or_before_cong g h e d in rw (e (suc d), before) refl

other_key :
    (c c' : Text) (d d' : ℕ) (r : CurrencyRate)
    → text_beq c c' && d == d' ≡ false
    → is_rate c d r ≡ true
    → is_rate c' d' r ≡ false
other_key c c' d d' r h k = elim (Bool-cases (text_beq r.currency_code c')) [
  | inr t ↦ rw t refl
  | inl t ↦
      let own = text_beq_same r.currency_code c (ground arith) in
      let same : text_beq c c' ≡ true = subst (λ u. text_beq u c' ≡ true) own t in ground arith
]

module _ (upper : Text → Text) (accepts : List CurrencyRate → Bool) (now : ℕ) where
  module _ (code : Text) (day rate : ℕ) (source : String) where
    update : CurrencyRate → CurrencyRate
    update = update_rate upper accepts now rate source

    new : CurrencyRate
    new = new_rate upper accepts now code day rate source

    new-is_rate : is_rate code day new ≡ true
    unfolding new
    new-is_rate = ground (arith, text_beq_refl code)

    upserted_rate : (o : Option CurrencyRate) → rate_of (some (upserted update new o)) ≡ some rate
    unfolding update new update_rate
    upserted_rate none = refl
    upserted_rate (some r) = refl

    history-stored_self :
        (rates : List CurrencyRate)
        → history (stored upper accepts now code day rate source rates) code day ≡ some rate
    unfolding stored update_rate new update
    history-stored_self rates =
        ap rate_of (first-upsert_self (is_rate code day) update new rates (λ r k. k) new-is_rate)
        ∙ upserted_rate (first (is_rate code day) rates)

    -- A stored rate is set in the history, and nothing else.
    history-stored :
        (rates : List CurrencyRate) (c : Text) (d : ℕ)
        → history (stored upper accepts now code day rate source rates) c d
          ≡ set_rate (history rates) code day rate c d
    unfolding stored update_rate new update
    history-stored rates c d = elim (Bool-cases (text_beq code c && day == d)) [
      | inl t ↦
          let own = text_beq_same code c (ground arith) in
          let today : day ≡ d = ground arith in
          rw t (
            subst
              (λ e. history (stored upper accepts now code day rate source rates) c e ≡ some rate)
              today
              (subst
                (λ u.
                  history (stored upper accepts now code day rate source rates) u day ≡ some rate)
                own (history-stored_self rates)))
      | inr t ↦ rw t (
          ap rate_of (
            first-upsert_other (is_rate code day) (is_rate c d) update new rates
              (λ r k. (other_key code c day d r t k, other_key code c day d r t k))
              (other_key code c day d new t new-is_rate)))
    ]

-- What a call of store_rate answered, and made of the table: with the answer true, every query
-- answers as the history does in which the rate has been set.
abbrev pub IsStored :
    (Text → Text) → Text → ℕ → ℕ → List CurrencyRate → Bool × List CurrencyRate → Type 0
IsStored upper code day rate rates (true, t) =
    (c : Text) (d : ℕ)
    → get_cached_rate upper c d t
      ≡ rate_on upper (set_rate (history rates) (normal_code upper code) day rate) c d
IsStored upper code day rate rates (false, t) = t ≡ rates

rate_on_cong :
    (upper : Text → Text) (g h : History)
    → ((c : Text) (d : ℕ) → g c d ≡ h c d)
    → (code : Text) (day : ℕ) → rate_on upper g code day ≡ rate_on upper h code day
rate_on_cong upper g h e code day = elim (Bool-cases (is_empty code)) [
  | inl t ↦ rw t refl
  | inr t ↦ rw t (elim (Bool-cases (text_beq (normal_code upper code) (codes "JMD"))) [
    | inl u ↦ rw u refl
    | inr u ↦ rw u (
        on_or_before_cong (g (normal_code upper code)) (h (normal_code upper code))
          (e (normal_code upper code)) day)
  ])
]

-- A rate that is stored is set in the history that the table stands for, and nothing else: from then
-- on every query, of any currency and day, answers as the history with that rate does. A call that
-- answers false changes nothing.
pub store_rate_refines :
    (upper : Text → Text) (accepts : List CurrencyRate → Bool) (now : ℕ) (code : Text)
    (day rate : ℕ) (source : String) (rates : List CurrencyRate)
    → IsStored upper code day rate rates (store_rate upper accepts now code day rate source rates)
unfolding store_rate
store_rate_refines upper accepts now code day rate source rates =
    elim (Bool-cases (is_empty code || text_beq (upper code) (codes "JMD"))) [
      | inl t ↦ rw t refl
      | inr t ↦ rw t (answered _ refl)
    ]
  where
    written : List CurrencyRate
    written = stored upper accepts now (normal_code upper code) day rate source rates

    answered :
        (b : Bool)
        → accepts written ≡ b
        → IsStored upper code day rate rates
            (if accepts written then (true, written) else (false, rates))
    answered true e = rw e (λ c d.
        get_cached_rate_refines upper c d written
        ∙ rate_on_cong upper (history written)
            (set_rate (history rates) (normal_code upper code) day rate)
            (history-stored upper accepts now (normal_code upper code) day rate source rates) c d)
    answered false e = rw e refl
